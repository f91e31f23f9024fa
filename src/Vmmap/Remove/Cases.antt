-- ===== src/Vmmap/Remove/Cases.antt =====
-- The reference and its calls, in each case of `vmmap_remove`.
use csci_402_operating_syste.Prelude.{ℕ, ◌≤◌, ◌<◌, ◌≡◌, ◌⊎◌, some, List, ◌∷◌, ◌++◌, arith}
use csci_402_operating_syste.Prelude.Run.{ok}
use csci_402_operating_syste.Vmmap.{
  Platform, Area, unmap_range, inside, tail, head, whole, apart, overlap, inside_log, whole_log,
  upper_part, lower_part, obj_of,
}
use csci_402_operating_syste.Vmmap.Remove.{cut, cut_log, keep_above, keep_below, area_log}

pub obj_of-ok : (a : Area) (o : ℕ) → a.vma_obj ≡ some o → obj_of a ≡ ok o
unfolding obj_of
obj_of-ok a o e = ground arith

module _ (lo fin : ℕ) (h : lo < fin) (a : Area) (k : a.vma_start < a.vma_end) (m : List Area) where
  pub cut-inside :
      a.vma_start < lo
      → fin < a.vma_end
      → cut lo fin (a ∷ m) ≡ lower_part lo a ∷ upper_part fin a ∷ cut lo fin m
  unfolding cut keep_above keep_below
  cut-inside s e = ground arith

  pub cut-tail :
      a.vma_start < lo
      → lo < a.vma_end
      → a.vma_end ≤ fin
      → cut lo fin (a ∷ m) ≡ lower_part lo a ∷ cut lo fin m
  unfolding cut keep_above keep_below
  cut-tail s e f = ground arith

  pub cut-head :
      lo ≤ a.vma_start
      → a.vma_start < fin
      → fin < a.vma_end
      → cut lo fin (a ∷ m) ≡ upper_part fin a ∷ cut lo fin m
  unfolding cut keep_above keep_below
  cut-head s e f = ground arith

  pub cut-whole : lo ≤ a.vma_start → a.vma_end ≤ fin → cut lo fin (a ∷ m) ≡ cut lo fin m
  unfolding cut keep_above keep_below
  cut-whole s e = ground arith

  pub cut-apart : (a.vma_end ≤ lo) ⊎ (fin ≤ a.vma_start) → cut lo fin (a ∷ m) ≡ a ∷ cut lo fin m
  unfolding cut keep_above keep_below
  cut-apart s = ground arith

module _ (l : Platform) (lo fin : ℕ) (a : Area) (m : List Area) where
  pub log-inside :
      (o : ℕ)
      → overlap lo fin a ≡ inside
      → a.vma_obj ≡ some o
      → cut_log l lo fin (a ∷ m) ≡ inside_log l o lo fin ++ cut_log l lo fin m
  unfolding cut_log area_log
  log-inside o e obj = ground arith

  pub log-tail :
      overlap lo fin a ≡ tail
      → cut_log l lo fin (a ∷ m) ≡ unmap_range lo a.vma_end ∷ cut_log l lo fin m
  unfolding cut_log area_log
  log-tail e = ground arith

  pub log-head :
      overlap lo fin a ≡ head
      → cut_log l lo fin (a ∷ m) ≡ unmap_range a.vma_start fin ∷ cut_log l lo fin m
  unfolding cut_log area_log
  log-head e = ground arith

  pub log-whole :
      (o : ℕ)
      → overlap lo fin a ≡ whole
      → a.vma_obj ≡ some o
      → cut_log l lo fin (a ∷ m) ≡ whole_log l o a ++ cut_log l lo fin m
  unfolding cut_log area_log
  log-whole o e obj = ground arith

  pub log-apart : overlap lo fin a ≡ apart → cut_log l lo fin (a ∷ m) ≡ cut_log l lo fin m
  unfolding cut_log area_log
  log-apart e = ground arith
