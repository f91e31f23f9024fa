-- ===== src/Vmmap/Range.antt =====
-- `vmmap_is_range_empty` against the pages of the map.
use csci_402_operating_syste.Prelude.{
  ℕ, ◌+◌, ◌≤◌, ◌<◌, ◌≡◌, refl, sym, ◌∙◌, ◌↔◌, inl, inr, Bool, true, List, [], ◌∷◌, arith,
  Bool-cases, leb, add32,
}
use csci_402_operating_syste.Prelude.Run.{ok}
use csci_402_operating_syste.Vmmap.{
  Platform, IsPlatform, Area, lookup, is_range_empty_loop, is_range_empty,
}
use csci_402_operating_syste.Vmmap.Chain.{
  Chain, IsMap, Free, lookup_below, lookup-here, lookup-after,
}

Free-skip : (a : Area) (m : List Area) (s e : ℕ) → a.vma_end ≤ s → Free (a ∷ m) s e ↔ Free m s e
Free-skip a m s e h = (
  λ f v p q. sym (lookup-after a m v (omega arith)) ∙ f v p q,
  λ f v p q. lookup-after a m v (omega arith) ∙ f v p q,
)

Free-before :
    (lo hi s e : ℕ) (a : Area) (m : List Area)
    → Chain lo hi (a ∷ m)
    → e ≤ a.vma_start
    → Free (a ∷ m) s e
Free-before lo hi s e a m c h v p q =
    lookup_below a.vma_start hi v (a ∷ m) (omega arith, c.1, c.2) (omega arith)

module _ (hi s e : ℕ) (s-e : s < e) (e-hi : e ≤ hi) where
  loop_sound :
      (lo : ℕ) (m : List Area)
      → Chain lo hi m
      → is_range_empty_loop hi lo s e m ≡ true
      → (lo ≤ s) × Free m s e
  unfolding is_range_empty_loop lookup
  loop_sound lo [] c h = (ground arith, λ v p q. refl)
  loop_sound lo (a ∷ m) c h = elim (Bool-cases (leb e a.vma_start)) [
    | inl t ↦ (ground arith, Free-before lo hi s e a m c (ground arith))
    | inr f ↦
        let rest : (a.vma_end ≤ s) × Free m s e = loop_sound a.vma_end m c.2 (ground arith) in
        (ground arith, (Free-skip a m s e rest.0).1 rest.1)
  ]

  loop_complete :
      (lo : ℕ) (m : List Area)
      → Chain lo hi m
      → lo ≤ s
      → Free m s e
      → is_range_empty_loop hi lo s e m ≡ true
  unfolding is_range_empty_loop
  loop_complete lo [] c h f = ground arith
  loop_complete lo (a ∷ m) c h f = elim (Bool-cases (leb e a.vma_start)) [
    | inl t ↦ ground arith
    | inr g ↦ ground (
      arith,
      f a.vma_start,
      f s,
      lookup-here a m a.vma_start,
      lookup-here a m s,
      λ (k : a.vma_end ≤ s). loop_complete a.vma_end m c.2 k ((Free-skip a m s e k).0 f),
    )
  ]

-- On a range of user pages `vmmap_is_range_empty` passes its assertions, and returns 1 exactly when
-- no page of the range is mapped.
pub is_range_empty-Free :
    (l : Platform) (m : List Area) (s n e : ℕ)
    → IsPlatform l
    → IsMap l m
    → s + n ≡ e
    → l.low ≤ s
    → s < e
    → e ≤ l.high
    → (b : Bool) × (is_range_empty l m s n ≡ ok b) × ((b ≡ true) ↔ Free m s e)
unfolding is_range_empty
is_range_empty-Free l m s n e p c eq hs hn he =
    let t : add32 s n ≡ e = omega (arith, p.high_bound) in
    (
      is_range_empty_loop l.high l.low s e m,
      rw t (ground arith),
      (
        λ h. (loop_sound l.high s e hn he l.low m c h).1,
        λ f. loop_complete l.high s e hn he l.low m c hs f,
      ),
    )
