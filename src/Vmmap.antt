-- ===== src/Vmmap.antt =====
-- vm-submit/kernel/vm/vmmap.c: the address space of a process, as the list of its VM areas.
pub mod Chain
pub mod Range
pub mod FindRange
pub mod Lookup
pub mod Insert
pub mod Remove
pub mod Destroy
pub mod Examples
use csci_402_operating_syste.Prelude.{
  ℕ, ◌-◌, ◌^◌, ◌<◌, ◌≡◌, Bool, true, false, ◌&&◌, Option, none, some, List, [], ◌∷◌, ◌++◌, map, ltb,
  leb, if◌then◌else◌, add32, sub32,
}
use mathlib.Core.List.{reverse}
use csci_402_operating_syste.Prelude.Run.{Run, ok, panic, ◌>>=◌, ◌>>◌, kassert}

-- What the code takes from headers outside of the repository: the page numbers
-- `ADDR_TO_PN(USER_MEM_LOW)` and `ADDR_TO_PN(USER_MEM_HIGH)`, the size of a page, and which memory
-- objects have the `ref` and `put` operations.
pub record Platform : Type 0 where
  pub low : ℕ
  pub high : ℕ
  pub page_size : ℕ
  pub has_ref : ℕ → Bool
  pub has_put : ℕ → Bool

-- Pages are those of the i386: 4 KiB, so page numbers have 20 bits. Page 0 is not a user page.
pub record IsPlatform (l : Platform) : Type 0 where
  pub low_pos : 0 < l.low
  pub low-high : l.low < l.high
  pub high_bound : l.high < 2 ^ 20
  pub page : l.page_size ≡ 2 ^ 12

-- `vmarea_t`. `vma_vmmap` says whether the pointer to the map is set; an object is named by a number.
pub record Area : Type 0 where
  pub vma_start : ℕ
  pub vma_end : ℕ
  pub vma_off : ℕ
  pub vma_prot : ℕ
  pub vma_flags : ℕ
  pub vma_vmmap : Bool
  pub vma_obj : Option ℕ

-- The `int` -1, as a 32-bit pattern.
abbrev pub minus_one : ℕ
minus_one = 2 ^ 32 - 1

pub data Dir : Type 0 where
  lohi hilo : Dir

-- Calls to other components, in the order in which they are made.
pub data Effect : Type 0 where
  link_bottom unlink_bottom ref put : ℕ → Effect
  unmap_range : ℕ → ℕ → Effect

unfoldable pub lookup : List Area → ℕ → Option Area
lookup [] vfn = none
lookup (a ∷ m) vfn = if leb a.vma_start vfn && ltb vfn a.vma_end then some a else lookup m vfn

pub is_range_empty_loop : ℕ → (mem_low startvfn endvfn : ℕ) → List Area → Bool
is_range_empty_loop high mem_low s e [] = leb e high && leb mem_low s
is_range_empty_loop high mem_low s e (a ∷ m) =
    if leb e a.vma_start && leb mem_low s
    then true
    else if ltb s a.vma_start && ltb a.vma_start e
    then false
    else if ltb s mem_low
    then false
    else is_range_empty_loop high a.vma_end s e m

pub is_range_empty : Platform → List Area → ℕ → ℕ → Run Bool
unfolding is_range_empty_loop
is_range_empty l m startvfn npages = do
  let endvfn = add32 startvfn npages
  kassert (ltb startvfn endvfn && leb l.low startvfn && leb endvfn l.high)
  ok (is_range_empty_loop l.high l.low startvfn endvfn m)

pub insert_at : Area → List Area → List Area
insert_at v [] = v ∷ []
insert_at v (a ∷ m) = if ltb a.vma_start v.vma_end then a ∷ insert_at v m else v ∷ a ∷ m

abbrev pub is_unset : Bool → Bool
is_unset true = false
is_unset false = true

pub insert : Platform → List Area → Area → Run (List Area)
unfolding insert_at
insert l m v = do
  kassert (is_unset v.vma_vmmap)
  kassert (ltb v.vma_start v.vma_end)
  kassert (leb l.low v.vma_start && leb v.vma_end l.high)
  free ← is_range_empty l m v.vma_start (sub32 v.vma_end v.vma_start)
  ok (if free then insert_at (record v { vma_vmmap = true }) m else m)

-- `vmmap_find_range`, upwards: `mem_low` is the end of the area before.
pub find_lohi : Platform → ℕ → (mem_low : ℕ) → List Area → ℕ
find_lohi l npages mem_low [] = if ltb l.high (add32 npages mem_low) then minus_one else mem_low
find_lohi l npages mem_low (a ∷ m) =
    if ltb (sub32 a.vma_start mem_low) npages then find_lohi l npages a.vma_end m else mem_low

-- `vmmap_find_range`, downwards over the reversed list: `mem_high` is the start of the area above.
pub find_hilo : Platform → ℕ → (mem_high : ℕ) → List Area → ℕ
find_hilo l npages mem_high [] =
    if ltb (sub32 mem_high npages) l.low then minus_one else sub32 mem_high npages
find_hilo l npages mem_high (a ∷ m) =
    if ltb (sub32 mem_high a.vma_end) npages
    then find_hilo l npages a.vma_start m
    else sub32 mem_high npages

-- The result is the 32-bit pattern of the `int` that the function returns.
pub find_range : Platform → List Area → ℕ → Dir → Run ℕ
unfolding find_lohi find_hilo
find_range l m npages dir = do
  kassert (ltb 0 npages)
  ok (elim dir [ lohi ↦ find_lohi l npages l.low m | hilo ↦ find_hilo l npages l.high (reverse m) ])

-- The four cases of `vmmap_remove`, and the area that the range misses.
pub data Overlap : Type 0 where
  inside tail head whole apart : Overlap

pub overlap : (lopage finish : ℕ) → Area → Overlap
overlap lo fin a =
    if ltb fin a.vma_end && ltb a.vma_start lo
    then inside
    else if ltb lo a.vma_end && ltb a.vma_start lo
    then tail
    else if ltb fin a.vma_end && ltb a.vma_start fin
    then head
    else if leb a.vma_end fin && leb lo a.vma_start
    then whole
    else apart

-- A call through an object's table of operations, which is made only if the entry is set.
pub call_if : Bool → Effect → List Effect
call_if true e = e ∷ []
call_if false e = []

-- The part above the range: `vmareaNew` of case 1, and the area itself in case 3.
pub upper_part : ℕ → Area → Area
upper_part fin a = record a { vma_start = fin; vma_off = sub32 (add32 a.vma_off fin) a.vma_start }

pub lower_part : ℕ → Area → Area
lower_part lo a = record a { vma_end = lo }

pub record Removed : Type 0 where
  pub areas : List Area
  pub log : List Effect
  pub count : ℕ

-- Reading `vma_obj->mmo_ops` of an area with no object faults.
pub obj_of : Area → Run ℕ
obj_of a = elim a.vma_obj [ none ↦ panic | some o ↦ ok o ]

-- The calls that cases 1 and 4 make.
pub inside_log : Platform → ℕ → (lo fin : ℕ) → List Effect
unfolding call_if
inside_log l o lo fin = link_bottom o ∷ (call_if (l.has_ref o) (ref o) ++ unmap_range lo fin ∷ [])

pub whole_log : Platform → ℕ → Area → List Effect
unfolding call_if
whole_log l o a =
    unlink_bottom o ∷ (call_if (l.has_put o) (put o) ++ unmap_range a.vma_start a.vma_end ∷ [])

-- Case 1: split the area `a` that stands between `done` and `rest`.
pub remove_inside :
    Platform → (lo fin : ℕ) → (done : List Area) → Area → (rest : List Area) → Removed → Run Removed
remove_inside l lo fin done a rest r = do
  m ← insert l (done ++ lower_part lo a ∷ rest) (record (upper_part fin a) { vma_vmmap = false })
  o ← obj_of a
  ok (record {
    areas = m;
    log = r.log ++ inside_log l o lo fin;
    count = sub32 (add32 fin r.count) lo;
  })

-- The list iteration: `r.areas` are the areas that it has passed, the list those to come.
pub remove_loop : Platform → (lo fin : ℕ) → Removed → List Area → Run Removed
remove_loop l lo fin r [] = ok r
remove_loop l lo fin r (a ∷ rest) = elim (overlap lo fin a) [
  | inside ↦ remove_inside l lo fin r.areas a rest r
  | tail ↦
      remove_loop l lo fin
        (record {
          areas = r.areas ++ lower_part lo a ∷ [];
          log = r.log ++ unmap_range lo a.vma_end ∷ [];
          count = add32 (sub32 r.count lo) (lower_part lo a).vma_end;
        })
        rest
  | head ↦ ok (record {
    areas = r.areas ++ upper_part fin a ∷ rest;
    log = r.log ++ unmap_range a.vma_start fin ∷ [];
    count = add32 (add32 (sub32 0 (upper_part fin a).vma_start) fin) r.count;
  })
  | whole ↦ do
    o ← obj_of a
    remove_loop l lo fin
        (record {
          areas = r.areas;
          log = r.log ++ whole_log l o a;
          count = add32 (sub32 r.count a.vma_start) a.vma_end;
        })
        rest
  | apart ↦ remove_loop l lo fin (record r { areas = r.areas ++ a ∷ [] }) rest
]

pub remove : Platform → List Area → ℕ → ℕ → Run Removed
unfolding remove_loop
remove l m lopage npages =
    remove_loop l lopage (add32 lopage npages) (record { areas = []; log = []; count = 0 }) m

-- One area of `vmmap_clone`: everything is copied but the object.
pub clone_area : Area → Area
clone_area a = record a { vma_obj = none; vma_vmmap = true }

pub clone : List Area → List Area
unfolding clone_area
clone m = map clone_area m

-- `vmmap_destroy`: the iteration over the areas that there were at its start.
pub destroy_loop : Platform → List Area × List Effect → List Area → Run (List Area × List Effect)
unfolding remove
destroy_loop l r [] = ok r
destroy_loop l (m, log) (a ∷ rest) = do
  r ← remove l m a.vma_start (sub32 a.vma_end a.vma_start)
  destroy_loop l (r.areas, log ++ r.log) rest

pub destroy : Platform → List Area → Run (List Area × List Effect)
unfolding destroy_loop
destroy l m = destroy_loop l (m, []) m
