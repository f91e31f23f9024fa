-- ===== src/Vmmap/Remove.antt =====
-- The reference that `vmmap_remove` is compared with: every area is cut down to what lies outside
-- of the range, and the calls to other components are those of the areas that change.
pub mod Cases
pub mod Loop
pub mod Pages
pub mod Refs
pub mod Main
use csci_402_operating_syste.Prelude.{
  ℕ, ◌≤◌, ◌<◌, ◌≡◌, ◌⊎◌, true, Option, none, some, List, [], ◌∷◌, ◌++◌, arith, ltb, leb, is_some,
  if◌then◌else◌,
}
use csci_402_operating_syste.Vmmap.{
  Platform, Area, Effect, link_bottom, unlink_bottom, ref, put, unmap_range, Overlap, inside, tail,
  head, whole, apart, overlap, inside_log, whole_log, upper_part, lower_part,
}

-- An area of a map points to its map and has an object.
abbrev pub IsAttached : Area → Type 0
IsAttached a = (a.vma_vmmap ≡ true) × ((o : ℕ) × (a.vma_obj ≡ some o))

unfoldable pub keep_below : ℕ → Area → List Area
keep_below lo a =
    if leb a.vma_end lo then a ∷ [] else if ltb a.vma_start lo then lower_part lo a ∷ [] else []

unfoldable pub keep_above : ℕ → Area → List Area
keep_above fin a =
    if leb fin a.vma_start then a ∷ [] else if ltb fin a.vma_end then upper_part fin a ∷ [] else []

unfoldable pub cut : (lo fin : ℕ) → List Area → List Area
cut lo fin [] = []
cut lo fin (a ∷ m) = keep_below lo a ++ keep_above fin a ++ cut lo fin m

abbrev pub obj_or_zero : Option ℕ → ℕ
obj_or_zero none = 0
obj_or_zero (some o) = o

unfoldable pub area_log : Platform → (lo fin : ℕ) → Area → List Effect
area_log l lo fin a =
    let o = obj_or_zero a.vma_obj in
    elim (overlap lo fin a) [
      | inside ↦ inside_log l o lo fin
      | tail ↦ unmap_range lo a.vma_end ∷ []
      | head ↦ unmap_range a.vma_start fin ∷ []
      | whole ↦ whole_log l o a
      | apart ↦ []
    ]

unfoldable pub cut_log : Platform → (lo fin : ℕ) → List Area → List Effect
cut_log l lo fin [] = []
cut_log l lo fin (a ∷ m) = area_log l lo fin a ++ cut_log l lo fin m

-- How a non-empty range and a non-empty area can lie, with the case that the code takes.
pub overlap-cases :
    (lo fin : ℕ) (a : Area)
    → lo < fin
    → a.vma_start < a.vma_end
    → ((overlap lo fin a ≡ inside) × (a.vma_start < lo) × (fin < a.vma_end))
      ⊎ ((overlap lo fin a ≡ tail) × (a.vma_start < lo) × (lo < a.vma_end) × (a.vma_end ≤ fin))
      ⊎ ((overlap lo fin a ≡ head) × (lo ≤ a.vma_start) × (a.vma_start < fin) × (fin < a.vma_end))
      ⊎ ((overlap lo fin a ≡ whole) × (lo ≤ a.vma_start) × (a.vma_end ≤ fin))
      ⊎ ((overlap lo fin a ≡ apart) × ((a.vma_end ≤ lo) ⊎ (fin ≤ a.vma_start)))
unfolding overlap
overlap-cases lo fin a h k = ground arith
