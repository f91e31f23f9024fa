-- ===== src/Vmmap/Remove/Refs.antt =====
-- The references that areas hold on memory objects, against the calls of `ref` and `put`.
use csci_402_operating_syste.Prelude.{
  ℕ, ◌+◌, ◌<◌, ◌≡◌, refl, inl, inr, true, none, some, List, [], ◌∷◌, ◌++◌, arith, All, ◌==◌,
  if◌then◌else◌,
}
use csci_402_operating_syste.Vmmap.{
  Platform, Area, Effect, link_bottom, unlink_bottom, ref, put, unmap_range, inside_log, whole_log,
  call_if, lower_part, upper_part,
}
use csci_402_operating_syste.Vmmap.Chain.{Chain}
use csci_402_operating_syste.Vmmap.Remove.{
  IsAttached, overlap-cases, keep_below, keep_above, cut, cut_log,
}
use csci_402_operating_syste.Vmmap.Remove.Cases.{
  cut-inside, cut-tail, cut-head, cut-whole, cut-apart, log-inside, log-tail, log-head, log-whole,
  log-apart,
}

abbrev pub holds : ℕ → Area → ℕ
holds o a = elim a.vma_obj [ none ↦ 0 | some q ↦ if q == o then 1 else 0 ]

-- How many areas of the map use the object.
abbrev pub mentions : ℕ → List Area → ℕ
mentions o [] = 0
mentions o (a ∷ m) = holds o a + mentions o m

abbrev pub refs : ℕ → List Effect → ℕ
refs o [] = 0
refs o (ref q ∷ es) = (if q == o then 1 else 0) + refs o es
refs o (put q ∷ es) = refs o es
refs o (link_bottom q ∷ es) = refs o es
refs o (unlink_bottom q ∷ es) = refs o es
refs o (unmap_range s e ∷ es) = refs o es

abbrev pub puts : ℕ → List Effect → ℕ
puts o [] = 0
puts o (put q ∷ es) = (if q == o then 1 else 0) + puts o es
puts o (ref q ∷ es) = puts o es
puts o (link_bottom q ∷ es) = puts o es
puts o (unlink_bottom q ∷ es) = puts o es
puts o (unmap_range s e ∷ es) = puts o es

pub refs-append : (o : ℕ) (es fs : List Effect) → refs o (es ++ fs) ≡ refs o es + refs o fs
refs-append o [] fs = omega arith
refs-append o (ref q ∷ es) fs = omega (arith, refs-append o es fs)
refs-append o (put q ∷ es) fs = refs-append o es fs
refs-append o (link_bottom q ∷ es) fs = refs-append o es fs
refs-append o (unlink_bottom q ∷ es) fs = refs-append o es fs
refs-append o (unmap_range s e ∷ es) fs = refs-append o es fs

pub puts-append : (o : ℕ) (es fs : List Effect) → puts o (es ++ fs) ≡ puts o es + puts o fs
puts-append o [] fs = omega arith
puts-append o (put q ∷ es) fs = omega (arith, puts-append o es fs)
puts-append o (ref q ∷ es) fs = puts-append o es fs
puts-append o (link_bottom q ∷ es) fs = puts-append o es fs
puts-append o (unlink_bottom q ∷ es) fs = puts-append o es fs
puts-append o (unmap_range s e ∷ es) fs = puts-append o es fs

pub holds_of : (o q : ℕ) (a : Area) → a.vma_obj ≡ some q → holds o a ≡ (if q == o then 1 else 0)
holds_of o q a e = ground arith

module _ (l : Platform) (o : ℕ) (r : l.has_ref o ≡ true) (p : l.has_put o ≡ true) where
  pub refs-inside_log :
      (q lo fin : ℕ)
      → (refs o (inside_log l q lo fin) ≡ (if q == o then 1 else 0))
        × (puts o (inside_log l q lo fin) ≡ 0)
  unfolding inside_log call_if
  refs-inside_log q lo fin = ground arith

  pub refs-whole_log :
      (q : ℕ) (a : Area)
      → (puts o (whole_log l q a) ≡ (if q == o then 1 else 0)) × (refs o (whole_log l q a) ≡ 0)
  unfolding whole_log call_if
  refs-whole_log q a = ground arith

  -- What the areas gain in references is what `ref` gives, less what `put` takes.
  pub balance-cut :
      (lo fin c hi : ℕ) (m : List Area)
      → lo < fin
      → Chain c hi m
      → All IsAttached m
      → mentions o (cut lo fin m) + puts o (cut_log l lo fin m)
        ≡ mentions o m + refs o (cut_log l lo fin m)
  unfolding lower_part upper_part
  balance-cut lo fin c hi [] h d t = unfold cut cut_log in refl
  balance-cut lo fin c hi (a ∷ m) h d (t, ts) =
      let ih = balance-cut lo fin a.vma_end hi m h d.2 ts in
      let q = t.1.0 in
      elim (overlap-cases lo fin a h d.1) [
        | inl (e, s, f) ↦
            rw
              (
                cut-inside lo fin h a d.1 m s f,
                log-inside l lo fin a m q e t.1.1,
                refs-append o (inside_log l q lo fin),
                puts-append o (inside_log l q lo fin),
              )
              (omega (arith, ih, holds_of o q a t.1.1, refs-inside_log q lo fin))
        | inr (inl (e, s, g, f)) ↦
            rw (cut-tail lo fin h a d.1 m s g f, log-tail l lo fin a m e) (omega (arith, ih))
        | inr (inr (inl (e, s, f, g))) ↦
            rw (cut-head lo fin h a d.1 m s f g, log-head l lo fin a m e) (omega (arith, ih))
        | inr (inr (inr (inl (e, s, f)))) ↦
            rw
              (
                cut-whole lo fin h a d.1 m s f,
                log-whole l lo fin a m q e t.1.1,
                refs-append o (whole_log l q a),
                puts-append o (whole_log l q a),
              )
              (omega (arith, ih, holds_of o q a t.1.1, refs-whole_log q a))
        | inr (inr (inr (inr (e, s)))) ↦
            rw (cut-apart lo fin h a d.1 m s, log-apart l lo fin a m e) (omega (arith, ih))
      ]

pub cut-IsAttached : (lo fin : ℕ) (m : List Area) → All IsAttached m → All IsAttached (cut lo fin m)
unfolding cut keep_below keep_above lower_part upper_part
cut-IsAttached lo fin [] t = tt
cut-IsAttached lo fin (a ∷ m) (t, ts) = ground (arith, cut-IsAttached lo fin m ts)
