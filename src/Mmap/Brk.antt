-- ===== src/Mmap/Brk.antt =====
-- vm-submit/kernel/vm/brk.c: the system call brk(2) over the address space.
use csci_402_operating_syste.Prelude.{
  ℕ, ◌*◌, Bool, true, false, ◌&&◌, Option, none, some, List, [], ◌∷◌, ◌==◌, ltb, leb, if◌then◌else◌,
  add32, sub32,
}
use csci_402_operating_syste.Prelude.Run.{Run, ok, panic, ◌>>=◌}
use csci_402_operating_syste.Vmmap.{Platform, Area, Effect, lookup, is_range_empty, remove}
use csci_402_operating_syste.Access.{addr_to_pn}
use csci_402_operating_syste.Mmap.{pn_to_addr}

-- `p_start_brk`, `p_brk` and the areas of `p_vmmap`.
pub record Break : Type 0 where
  pub p_start_brk : ℕ
  pub p_brk : ℕ
  pub areas : List Area

-- What `do_mmap` comes to: a negative number, or the areas with a new one.
pub data Mapped : Type 0 where
  failed : ℕ → Mapped
  mapped : List Area → Mapped

-- -ENOMEM; the error of `do_mmap`; or 0 with what is stored through `ret`.
pub data Broke : Type 0 where
  no_memory : Broke
  mmap_error : ℕ → Broke
  broke : (ret : ℕ) → Break → List Effect → Broke

-- The assignment to `vma_end` of the area that `vmmap_lookup` has found.
unfoldable pub set_end : (vfn finish : ℕ) → List Area → List Area
set_end vfn finish [] = []
set_end vfn finish (a ∷ m) =
    if leb a.vma_start vfn && ltb vfn a.vma_end
    then record a { vma_end = finish } ∷ m
    else a ∷ set_end vfn finish m

-- At the label lblEnd.
abbrev pub ends : (addr : ℕ) → Break → List Area → List Effect → Broke
ends addr b m log = broke addr (record b { p_brk = addr; areas = m }) log

abbrev pub grown : (addr finish init : ℕ) → Break → Bool → Broke
grown addr finish init b true = ends addr b (set_end init finish b.areas) []
grown addr finish init b false = no_memory

-- The use of the area that holds the break.
unfoldable pub grow : Platform → (addr finish init : ℕ) → Break → Option Area → Run Broke
grow l addr finish init b none = panic
grow l addr finish init b (some a) = do
  free ← is_range_empty l b.areas a.vma_end (sub32 finish a.vma_end)
  ok (grown addr finish init b free)

unfoldable pub move_break : Platform → (addr : ℕ) → Break → Run Broke
unfolding grow set_end
move_break l addr b =
    let init = addr_to_pn l b.p_brk in
    let final = addr_to_pn l addr in
    if init == final
    then ok (ends addr b b.areas [])
    else if ltb init final
    then grow l addr (add32 1 final) init b (lookup b.areas init)
    else (do
      r ← remove l b.areas (add32 final 1) (sub32 init final)
      ok (ends addr b r.areas r.log))

abbrev pub after_mmap : (addr : ℕ) → Break → Mapped → Broke
after_mmap addr b (failed e) = mmap_error e
after_mmap addr b (mapped m) = ends addr b m []

-- `mmap` is `do_mmap` of a private area of zeros, at an address and for a number of bytes.
unfoldable pub first_area :
    Platform
    → (mmap : ℕ → ℕ → List Area → Run Mapped) → (addr : ℕ) → Break
    → Option Area
    → Run Broke
unfolding move_break
first_area l mmap addr b none = do
  let start = addr_to_pn l b.p_start_brk
  r ← mmap (pn_to_addr l start) (pn_to_addr l (sub32 (addr_to_pn l addr) start)) b.areas
  ok (after_mmap addr b r)
first_area l mmap addr b (some a) = move_break l addr b

unfoldable pub do_brk :
    Platform → (mmap : ℕ → ℕ → List Area → Run Mapped) → (addr : ℕ) → Break → Run Broke
unfolding first_area
do_brk l mmap addr b =
    if addr == 0
    then ok (broke b.p_brk b [])
    else if ltb addr b.p_start_brk
    then ok no_memory
    else if ltb (l.high * l.page_size) addr
    then ok no_memory
    else first_area l mmap addr b (lookup b.areas (addr_to_pn l b.p_start_brk))
