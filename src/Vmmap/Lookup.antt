-- ===== src/Vmmap/Lookup.antt =====
-- `vmmap_lookup` against the areas of the map.
use mathlib.Core.List.{Mem, mem-cons, not-mem-nil}
use mathlib.Core.Logic.Or
use native.Mathlib.Bridge.{le_prop}
use csci_402_operating_syste.Prelude.{
  ℕ, ◌≤◌, ◌<◌, ◌≡◌, sym, ◌∙◌, ◌↔◌, inl, inr, Option, some, List, [], ◌∷◌, arith, Bool-cases, ltb,
  leb, ◌&&◌,
}
use csci_402_operating_syste.Vmmap.{Platform, Area, lookup}
use csci_402_operating_syste.Vmmap.Chain.{Chain, IsMap, lookup-here, lookup-after}

lookup_sound :
    (m : List Area) (v : ℕ) (a : Area)
    → lookup m v ≡ some a
    → Mem a m × (a.vma_start ≤ v) × (v < a.vma_end)
unfolding lookup
lookup_sound [] v a e = cc
lookup_sound (b ∷ m) v a e = elim (Bool-cases (leb b.vma_start v && ltb v b.vma_end)) [
  | inl t ↦
      let same : b ≡ a = ground arith in
      (mem-cons.1 (Or.inl (sym same)), ground arith, ground arith)
  | inr f ↦ let (i, s, t) = lookup_sound m v a (ground arith) in (mem-cons.1 (Or.inr i), s, t)
]

-- An area further on starts behind this one.
mem-Chain : (lo hi : ℕ) (m : List Area) (a : Area) → Chain lo hi m → Mem a m → lo ≤ a.vma_start
mem-Chain lo hi [] a c i = absurd (not-mem-nil i)
mem-Chain lo hi (b ∷ m) a c i =
    Or.elim le_prop (mem-cons.0 i) (λ e. rw e c.0)
      (λ j. omega (arith, mem-Chain b.vma_end hi m a c.2 j))

Option-Area-set : IsSet (Option Area)
Option-Area-set = hlevel

lookup_complete :
    (lo hi v : ℕ) (m : List Area) (a : Area)
    → Chain lo hi m
    → Mem a m
    → a.vma_start ≤ v
    → v < a.vma_end
    → lookup m v ≡ some a
lookup_complete lo hi v [] a c i s t = absurd (not-mem-nil i)
lookup_complete lo hi v (b ∷ m) a c i s t =
    Or.elim (Option-Area-set (lookup (b ∷ m) v) (some a)) (mem-cons.0 i)
      (λ e. rw (← e) (lookup-here a m v s t))
      λ j.
        lookup-after b m v (omega (arith, mem-Chain b.vma_end hi m a c.2 j))
        ∙ lookup_complete b.vma_end hi v m a c.2 j s t

-- In a map whose areas are in order, `vmmap_lookup` returns an area exactly when that area is in the
-- map and covers the page.
pub lookup_iff :
    (l : Platform) (m : List Area) (v : ℕ) (a : Area)
    → IsMap l m
    → (lookup m v ≡ some a) ↔ (Mem a m × (a.vma_start ≤ v) × (v < a.vma_end))
lookup_iff l m v a c = (lookup_sound m v a, λ (i, s, t). lookup_complete l.low l.high v m a c i s t)
