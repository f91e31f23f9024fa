-- ===== src/Vmmap/FindRange.antt =====
-- `vmmap_find_range`, in both directions, against the gaps of the map.
use mathlib.Core.List.{reverse, reverse-cons}
use csci_402_operating_syste.Prelude.{
  ℕ, ◌+◌, ◌-◌, ◌^◌, ◌≤◌, ◌<◌, ◌≡◌, refl, ◌⊎◌, ◌∙◌, sym, subst, inl, inr, true, false, List, [], ◌∷◌,
  ◌++◌, arith, All, All-append, Bool-cases, ltb→lt, lt→ltb, leb→le, ltb, leb, add32, sub32,
}
use csci_402_operating_syste.Prelude.Run.{ok}
use csci_402_operating_syste.Vmmap.{
  Platform, IsPlatform, Area, lohi, hilo, minus_one, find_lohi, find_hilo, find_range, lookup,
}
use csci_402_operating_syste.Vmmap.Chain.{
  Chain, IsMap, Free, Clear, Chain-le, Free-Clear, Free-tail, Free-cons,
}

-- All areas miss the range.
abbrev pub AllClear : (s e : ℕ) → List Area → Type 0
AllClear s e = All (Clear s e)

AllClear-Free : (s e : ℕ) (m : List Area) → AllClear s e m → Free m s e
AllClear-Free s e [] c v p q = unfold lookup in refl
AllClear-Free s e (a ∷ m) c v p q = Free-cons a m s e c.0 (AllClear-Free s e m c.1) v p q

Free-AllClear :
    (lo hi s e : ℕ) (m : List Area) → s < e → Chain lo hi m → Free m s e → AllClear s e m
Free-AllClear lo hi s e [] h c f = tt
Free-AllClear lo hi s e (a ∷ m) h c f = (
  Free-Clear a m s e h c.1 f,
  Free-AllClear a.vma_end hi s e m h c.2 (Free-tail lo hi a m s e c h f),
)

All-reverse {ℓ κ} : {A : Type ℓ} (P : A → Type κ) (xs : List A) → All P xs → All P (reverse xs)
All-reverse P [] h = tt
All-reverse P (x ∷ xs) h =
    rw (reverse-cons x xs) (All-append P (reverse xs) (x ∷ []) (All-reverse P xs h.1) (h.0, tt))

All-append-left {ℓ κ} :
    {A : Type ℓ} (P : A → Type κ) (xs ys : List A) → All P (xs ++ ys) → All P xs × All P ys
All-append-left P [] ys h = (tt, h)
All-append-left P (x ∷ xs) ys h = let (l, r) = All-append-left P xs ys h.1 in ((h.0, l), r)

All-of_reverse {ℓ κ} : {A : Type ℓ} (P : A → Type κ) (xs : List A) → All P (reverse xs) → All P xs
All-of_reverse P [] h = tt
All-of_reverse P (x ∷ xs) h =
    let (l, r) = All-append-left P (reverse xs) (x ∷ []) (rw (reverse-cons x xs) at h) in
    (r.0, All-of_reverse P xs l)

-- Areas from high to low.
abbrev Down : (lo hi : ℕ) → List Area → Type 0
Down lo hi [] = lo ≤ hi
Down lo hi (a ∷ m) = (a.vma_end ≤ hi) × (a.vma_start < a.vma_end) × Down lo a.vma_start m

Down-snoc :
    (lo hi : ℕ) (a : Area) (m : List Area)
    → Down a.vma_end hi m
    → lo ≤ a.vma_start
    → a.vma_start < a.vma_end
    → Down lo hi (m ++ a ∷ [])
Down-snoc lo hi a [] d h k = (d, k, h)
Down-snoc lo hi a (b ∷ m) d h k = (d.0, d.1, Down-snoc lo b.vma_start a m d.2 h k)

reverse-Down : (lo hi : ℕ) (m : List Area) → Chain lo hi m → Down lo hi (reverse m)
reverse-Down lo hi [] c = c
reverse-Down lo hi (a ∷ m) c =
    rw (reverse-cons a m) (Down-snoc lo hi a (reverse m) (reverse-Down a.vma_end hi m c.2) c.0 c.1)

Down-le : (lo hi : ℕ) (m : List Area) → Down lo hi m → lo ≤ hi
Down-le lo hi [] d = d
Down-le lo hi (a ∷ m) d = omega (arith, Down-le lo a.vma_start m d.2)

-- All areas lie below.
Down-AllClear : (lo hi s e : ℕ) (m : List Area) → Down lo hi m → hi ≤ s → AllClear s e m
Down-AllClear lo hi s e [] d h = tt
Down-AllClear lo hi s e (a ∷ m) d h =
    (inr (omega arith), Down-AllClear lo a.vma_start s e m d.2 (omega arith))

Chain-AllClear : (lo hi s e : ℕ) (m : List Area) → Chain lo hi m → e ≤ lo → AllClear s e m
Chain-AllClear lo hi s e [] c h = tt
Chain-AllClear lo hi s e (a ∷ m) c h =
    (inl (omega arith), Chain-AllClear a.vma_end hi s e m c.2 (omega arith))

-- The range of `n` pages at `s` lies in [lo, hi) and misses every area.
abbrev Fits : (lo hi n : ℕ) → List Area → ℕ → Type 0
Fits lo hi n m s = (lo ≤ s) × (s + n ≤ hi) × AllClear s (s + n) m

-- The `n` pages from `s` on are user pages, and none of them is mapped.
abbrev pub IsGap : Platform → List Area → (n s : ℕ) → Type 0
IsGap l m n s = (l.low ≤ s) × (s + n ≤ l.high) × Free m s (s + n)

module _ (l : Platform) (p : IsPlatform l) (n : ℕ) (pos : 0 < n) (bound : n < 2 ^ 31) where
  -- The lowest start that fits, or the failure pattern where none fits.
  abbrev Lowest : ℕ → List Area → ℕ → Type 0
  Lowest lo m r =
      (Fits lo l.high n m r × ((s : ℕ) → Fits lo l.high n m s → r ≤ s))
      ⊎ ((r ≡ minus_one) × ((s : ℕ) → ¬ Fits lo l.high n m s))

  -- The highest start that fits, or a negative `int` where none fits.
  abbrev Highest : ℕ → List Area → ℕ → Type 0
  Highest hi m r =
      (Fits l.low hi n m r × ((s : ℕ) → Fits l.low hi n m s → s ≤ r))
      ⊎ ((2 ^ 31 ≤ r) × ((s : ℕ) → ¬ Fits l.low hi n m s))

  skip_lohi :
      (lo : ℕ) (a : Area) (m : List Area)
      → ltb (sub32 a.vma_start lo) n ≡ true
      → find_lohi l n lo (a ∷ m) ≡ find_lohi l n a.vma_end m
  unfolding find_lohi
  skip_lohi lo a m h = rw h

  stop_lohi :
      (lo : ℕ) (a : Area) (m : List Area)
      → ltb (sub32 a.vma_start lo) n ≡ false
      → find_lohi l n lo (a ∷ m) ≡ lo
  unfolding find_lohi
  stop_lohi lo a m h = rw h

  find_lohi-Lowest : (lo : ℕ) (m : List Area) → Chain lo l.high m → Lowest lo m (find_lohi l n lo m)
  find_lohi-Lowest lo [] c =
      let t : add32 n lo ≡ n + lo = omega (arith, p.high_bound) in
      unfold find_lohi in
      rw t (elim (Bool-cases (ltb l.high (n + lo))) [
        | inl h ↦ rw h (inr (refl, λ s f. omega (arith, ltb→lt _ _ h, f.0, f.1)))
        | inr h ↦ rw h (inl ((omega arith, ground arith, tt), λ s f. f.0))
      ])
  find_lohi-Lowest lo (a ∷ m) c =
      let top : a.vma_end ≤ l.high = Chain-le a.vma_end l.high m c.2 in
      let t : sub32 a.vma_start lo ≡ a.vma_start - lo = omega (arith, p.high_bound) in
      elim (Bool-cases (ltb (a.vma_start - lo) n)) [
        | inl h ↦
            subst (Lowest lo (a ∷ m)) (sym (skip_lohi lo a m (rw t h)))
              (skip (ltb→lt _ _ h) (find_lohi-Lowest a.vma_end m c.2))
        | inr h ↦
            let fit : lo + n ≤ a.vma_start = ground arith in
            subst (Lowest lo (a ∷ m)) (sym (stop_lohi lo a m (rw t h))) (
              inl (
                (
                  omega arith,
                  omega arith,
                  (inl fit, Chain-AllClear a.vma_end l.high lo (lo + n) m c.2 (omega arith)),
                ),
                λ s f. f.0,
              ))
      ]
    where
      up : (s : ℕ) → a.vma_start - lo < n → Fits lo l.high n (a ∷ m) s → Fits a.vma_end l.high n m s
      up s g (b, e, (f, fs)) = elim f [ inl u ↦ absurd (omega arith) | inr u ↦ (u, e, fs) ]

      skip :
          a.vma_start - lo < n
          → Lowest a.vma_end m (find_lohi l n a.vma_end m)
          → Lowest lo (a ∷ m) (find_lohi l n a.vma_end m)
      skip g (inl ((b, e, f), least)) =
          inl ((omega arith, e, (inr b, f)), λ s h. least s (up s g h))
      skip g (inr (e, nope)) = inr (e, λ s h. nope s (up s g h))

  skip_hilo :
      (hi : ℕ) (a : Area) (m : List Area)
      → ltb (sub32 hi a.vma_end) n ≡ true
      → find_hilo l n hi (a ∷ m) ≡ find_hilo l n a.vma_start m
  unfolding find_hilo
  skip_hilo hi a m h = rw h

  stop_hilo :
      (hi : ℕ) (a : Area) (m : List Area)
      → ltb (sub32 hi a.vma_end) n ≡ false
      → find_hilo l n hi (a ∷ m) ≡ sub32 hi n
  unfolding find_hilo
  stop_hilo hi a m h = rw h

  find_hilo-Highest :
      (hi : ℕ) (m : List Area) → hi ≤ l.high → Down l.low hi m → Highest hi m (find_hilo l n hi m)
  find_hilo-Highest hi [] b d =
      unfold find_hilo in
      elim (Bool-cases (leb n hi)) [
        | inl k ↦
            let t : sub32 hi n ≡ hi - n = omega (arith, p.high_bound, leb→le _ _ k) in
            rw t (elim (Bool-cases (ltb (hi - n) l.low)) [
              | inl h ↦
                  rw h
                    (inr (omega arith, λ s f. omega (arith, ltb→lt _ _ h, leb→le _ _ k, f.0, f.1)))
              | inr h ↦
                  rw h (
                    inl
                      ((ground arith, omega (arith, leb→le _ _ k), tt), λ s f. omega (arith, f.1)))
            ])
        | inr k ↦
            let g : hi < n = ground arith in
            let t : sub32 hi n ≡ hi + 2 ^ 32 - n = omega (arith, p.high_bound) in
            let u : ltb (hi + 2 ^ 32 - n) l.low ≡ false =
              ground (arith, p.high_bound, p.low-high) in
            rw (t, u) (inr (omega arith, λ s f. omega (arith, f.1)))
      ]
  find_hilo-Highest hi (a ∷ m) b d =
      let t : sub32 hi a.vma_end ≡ hi - a.vma_end = omega (arith, p.high_bound) in
      elim (Bool-cases (ltb (hi - a.vma_end) n)) [
        | inl h ↦
            subst (Highest hi (a ∷ m)) (sym (skip_hilo hi a m (rw t h)))
              (skip (ltb→lt _ _ h) (find_hilo-Highest a.vma_start m (omega arith) d.2))
        | inr h ↦
            let fit : a.vma_end + n ≤ hi = ground arith in
            let u : sub32 hi n ≡ hi - n = omega (arith, p.high_bound) in
            subst (Highest hi (a ∷ m)) (sym (stop_hilo hi a m (rw t h) ∙ u)) (
              inl (
                (
                  omega (arith, Down-le l.low a.vma_start m d.2),
                  omega arith,
                  (
                    inr (omega arith),
                    Down-AllClear l.low a.vma_start (hi - n) (hi - n + n) m d.2 (omega arith),
                  ),
                ),
                λ s f. omega (arith, f.1),
              ))
      ]
    where
      down : (s : ℕ) → hi - a.vma_end < n → Fits l.low hi n (a ∷ m) s → Fits l.low a.vma_start n m s
      down s g (e, f, (c, cs)) = elim c [ inl u ↦ (e, u, cs) | inr u ↦ absurd (omega arith) ]

      skip :
          hi - a.vma_end < n
          → Highest a.vma_start m (find_hilo l n a.vma_start m)
          → Highest hi (a ∷ m) (find_hilo l n a.vma_start m)
      skip g (inl ((e, f, c), most)) =
          inl ((e, omega arith, (inl f, c)), λ s h. most s (down s g h))
      skip g (inr (e, nope)) = inr (e, λ s h. nope s (down s g h))

  module _ (m : List Area) (c : IsMap l m) where
    gap-Fits : (s : ℕ) → IsGap l m n s → Fits l.low l.high n m s
    gap-Fits s (a, b, f) = (a, b, Free-AllClear l.low l.high s (s + n) m (omega arith) c f)

    Fits-IsGap : (s : ℕ) → Fits l.low l.high n m s → IsGap l m n s
    Fits-IsGap s (a, b, f) = (a, b, AllClear-Free s (s + n) m f)

    gap-Down : (s : ℕ) → IsGap l m n s → Fits l.low l.high n (reverse m) s
    gap-Down s g = let (a, b, f) = gap-Fits s g in (a, b, All-reverse (Clear s (s + n)) m f)

    Down-IsGap : (s : ℕ) → Fits l.low l.high n (reverse m) s → IsGap l m n s
    Down-IsGap s (a, b, f) = Fits-IsGap s (a, b, All-of_reverse (Clear s (s + n)) m f)

    -- For a request of fewer than 2 ^ 31 pages, `vmmap_find_range` with VMMAP_DIR_LOHI returns the
    -- lowest start of a gap of that many pages, or -1 when the address space has no such gap.
    pub find_range-lohi :
        (r : ℕ) × (find_range l m n lohi ≡ ok r)
        × ((IsGap l m n r × ((s : ℕ) → IsGap l m n s → r ≤ s))
            ⊎ ((r ≡ minus_one) × ((s : ℕ) → ¬ IsGap l m n s)))
    unfolding find_range
    find_range-lohi = (
      find_lohi l n l.low m,
      rw (lt→ltb _ _ pos),
      elim (find_lohi-Lowest l.low m c) [
        | inl (f, least) ↦ inl (Fits-IsGap _ f, λ s g. least s (gap-Fits s g))
        | inr (e, nope) ↦ inr (e, λ s g. nope s (gap-Fits s g))
      ],
    )

    -- For a request of fewer than 2 ^ 31 pages, `vmmap_find_range` with VMMAP_DIR_HILO returns the
    -- highest start of a gap of that many pages, or a negative `int` (a 32-bit pattern of at least
    -- 2 ^ 31) when the address space has no such gap.
    pub find_range-hilo :
        (r : ℕ) × (find_range l m n hilo ≡ ok r)
        × ((IsGap l m n r × ((s : ℕ) → IsGap l m n s → s ≤ r))
            ⊎ ((2 ^ 31 ≤ r) × ((s : ℕ) → ¬ IsGap l m n s)))
    unfolding find_range
    find_range-hilo = (
      find_hilo l n l.high (reverse m),
      rw (lt→ltb _ _ pos),
      elim (find_hilo-Highest l.high (reverse m) (omega arith) (reverse-Down l.low l.high m c)) [
        | inl (f, most) ↦ inl (Down-IsGap _ f, λ s g. most s (gap-Down s g))
        | inr (e, nope) ↦ inr (e, λ s g. nope s (gap-Down s g))
      ],
    )
