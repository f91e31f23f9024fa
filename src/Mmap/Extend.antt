-- ===== src/Mmap/Extend.antt =====
-- An area that grows into pages that are free.
use mathlib.Core.Option
use csci_402_operating_syste.Prelude.{
  ℕ, ◌≤◌, ◌<◌, ◌≡◌, refl, ap, sym, ◌∙◌, inl, inr, true, false, some, List, [], ◌∷◌, arith, All,
  if◌then◌else◌, Bool-cases, subst, if_true, if_false,
}
use csci_402_operating_syste.Vmmap.{Area, lookup}
use csci_402_operating_syste.Vmmap.Chain.{Chain, Free, lookup-here}
use csci_402_operating_syste.Vmmap.Insert.{covers}
use csci_402_operating_syste.Vmmap.Remove.{IsAttached}
use csci_402_operating_syste.Vmmap.Remove.Pages.{page, page_of, in_range}
use csci_402_operating_syste.Mmap.Brk.{set_end}

raise-Chain : (c e hi : ℕ) (m : List Area) → Chain c hi m → Free m c e → e ≤ hi → Chain e hi m
raise-Chain c e hi [] k f h = h
raise-Chain c e hi (b ∷ m) k f h =
    (ground (arith, k.0, k.1, f b.vma_start, lookup-here b m b.vma_start), k.1, k.2)

lookup-cons :
    (a : Area) (m : List Area) (x : ℕ)
    → lookup (a ∷ m) x ≡ (if covers a x then some a else lookup m x)
unfolding lookup
lookup-cons a m x = refl

page-cons :
    (a : Area) (m : List Area) (x : ℕ)
    → page (a ∷ m) x ≡ (if covers a x then some (page_of x a) else page m x)
page-cons a m x = elim (Bool-cases (covers a x)) [
  | inl t ↦ ap (Option.map (page_of x)) (lookup-cons a m x) ∙ rw t refl
  | inr f ↦ ap (Option.map (page_of x)) (lookup-cons a m x) ∙ rw f refl
]

skip : (a : Area) (m : List Area) (s e : ℕ) → Free (a ∷ m) s e → Free m s e
unfolding lookup
skip a m s e f v p q = ground (arith, f v p q)

first_found :
    (a h : Area) (m : List Area) (v : ℕ) → covers a v ≡ true → lookup (a ∷ m) v ≡ some h → a ≡ h
first_found a h m v t i = inside (sym (lookup-cons a m v ∙ if_true _ _ _ t) ∙ i)
  where
    inside : some a ≡ some h → a ≡ h
    inside q = cc

later_found :
    (a h : Area) (m : List Area) (v : ℕ)
    → covers a v ≡ false
    → lookup (a ∷ m) v ≡ some h
    → lookup m v ≡ some h
later_found a h m v n i = sym (lookup-cons a m v ∙ if_false _ _ _ n) ∙ i

-- A page of a free range is not one of the first area.
not_covered :
    (a : Area) (m : List Area) (s e x : ℕ)
    → Free (a ∷ m) s e
    → in_range s e x ≡ true
    → covers a x ≡ false
not_covered a m s e x f r = ground (arith, f x, lookup-here a m x)

longer-page :
    (a : Area) (m : List Area) (e x : ℕ)
    → a.vma_start < a.vma_end
    → a.vma_end < e
    → (if covers (record a { vma_end = e }) x then some (page_of x a) else page m x) ≡ (
        if in_range a.vma_end e x
        then some (page_of x a)
        else if covers a x
        then some (page_of x a)
        else page m x)
longer-page a m e x c g = ground arith

nothing : (v : ℕ) (h : Area) → lookup [] v ≡ some h → ⊥
unfolding lookup
nothing v h i = cc

swap :
    (a : Area) (m : List Area) (h : Area) (e x : ℕ)
    → Free (a ∷ m) h.vma_end e
    → (if covers a x
        then some (page_of x a)
        else if in_range h.vma_end e x
        then some (page_of x h)
        else page m x)
      ≡ (if in_range h.vma_end e x
          then some (page_of x h)
          else if covers a x
          then some (page_of x a)
          else page m x)
swap a m h e x f = elim (Bool-cases (in_range h.vma_end e x)) [
  | inl t ↦
      if_false _ _ _ (not_covered a m h.vma_end e x f t) ∙ if_true _ _ _ t ∙ sym (if_true _ _ _ t)
  | inr n ↦
      ap (λ z. if covers a x then some (page_of x a) else z) (if_false _ _ _ n)
      ∙ sym (if_false _ _ _ n)
]

module _ (v e hi : ℕ) (h : Area) where
  pub extend-Chain :
      (lo : ℕ) (m : List Area)
      → Chain lo hi m
      → lookup m v ≡ some h
      → h.vma_end < e
      → e ≤ hi
      → Free m h.vma_end e
      → Chain lo hi (set_end v e m)
  unfolding set_end
  extend-Chain lo [] c i g k f = c
  extend-Chain lo (a ∷ m) c i g k f = elim (Bool-cases (covers a v)) [
    | inl t ↦
        let f' = subst (λ (z : Area). Free (a ∷ m) z.vma_end e) (sym (first_found a h m v t i)) f in
        let long : a.vma_end < e =
          subst (λ (z : Area). z.vma_end < e) (sym (first_found a h m v t i)) g in
        rw t (
          c.0,
          omega (arith, c.1, long),
          raise-Chain a.vma_end e hi m c.2 (skip a m a.vma_end e f') k,
        )
    | inr n ↦ rw n (
      c.0,
      c.1,
      extend-Chain a.vma_end m c.2 (later_found a h m v n i) g k (skip a m h.vma_end e f),
    )
  ]

  pub extend-IsAttached : (m : List Area) → All IsAttached m → All IsAttached (set_end v e m)
  unfolding set_end
  extend-IsAttached [] s = s
  extend-IsAttached (a ∷ m) s = elim (Bool-cases (covers a v)) [
    | inl t ↦ rw t (s.0, s.1)
    | inr n ↦ rw n (s.0, extend-IsAttached m s.1)
  ]

  pub extend-page :
      (lo : ℕ) (m : List Area) (x : ℕ)
      → Chain lo hi m
      → lookup m v ≡ some h
      → h.vma_end < e
      → Free m h.vma_end e
      → page (set_end v e m) x ≡ (if in_range h.vma_end e x then some (page_of x h) else page m x)
  unfolding set_end
  extend-page lo [] x c i g f = absurd (nothing v h i)
  extend-page lo (a ∷ m) x c i g f = elim (Bool-cases (covers a v)) [
    | inl t ↦
        let same = first_found a h m v t i in
        let long : a.vma_end < e = subst (λ (z : Area). z.vma_end < e) (sym same) g in
        rw t (
          page-cons (record a { vma_end = e }) m x
          ∙ longer-page a m e x c.1 long
          ∙ ap (λ z. if in_range a.vma_end e x then some (page_of x a) else z)
              (sym (page-cons a m x))
          ∙ ap (λ (z : Area). if in_range z.vma_end e x then some (page_of x z) else page (a ∷ m) x)
              same)
    | inr n ↦
        let ih =
          extend-page a.vma_end m x c.2 (later_found a h m v n i) g (skip a m h.vma_end e f) in
        rw n (
          page-cons a (set_end v e m) x
          ∙ ap (λ z. if covers a x then some (page_of x a) else z) ih
          ∙ swap a m h e x f
          ∙ ap (λ z. if in_range h.vma_end e x then some (page_of x h) else z)
              (sym (page-cons a m x)))
  ]
