-- ===== src/Sched/Queues.antt =====
-- Thread queues as lists: membership, taking the last thread, unlinking one thread.
use csci_402_operating_syste.Prelude.{
  ℕ, suc, ◌≡◌, refl, ap, Bool, true, false, ◌&&◌, ◌||◌, List, [], ◌∷◌, ◌++◌, ◌==◌, arith, length,
}
use csci_402_operating_syste.Sched.{split_last, unlink, negb}

abbrev pub elem : ℕ → List ℕ → Bool
elem t [] = false
elem t (x ∷ xs) = x == t || elem t xs

abbrev pub distinct : List ℕ → Bool
distinct [] = true
distinct (x ∷ xs) = negb (elem x xs) && distinct xs

pub split_last-append :
    (x : ℕ) (xs : List ℕ) → (split_last x xs).0 ++ (split_last x xs).1 ∷ [] ≡ x ∷ xs
unfolding split_last
split_last-append x [] = refl
split_last-append x (y ∷ ys) = ap (◌∷◌ x) (split_last-append y ys)

pub split_last-snoc : (x : ℕ) (xs : List ℕ) (y : ℕ) → split_last x (xs ++ y ∷ []) ≡ (x ∷ xs, y)
unfolding split_last
split_last-snoc x [] y = refl
split_last-snoc x (z ∷ zs) y = ground (arith, split_last-snoc z zs y)

pub elem-append : (t : ℕ) (xs ys : List ℕ) → elem t (xs ++ ys) ≡ (elem t xs || elem t ys)
elem-append t [] ys = refl
elem-append t (x ∷ xs) ys = ground (arith, elem-append t xs ys)

-- The last thread of a queue without repetitions is in the queue, and the rest holds the others.
pub elem-split_last :
    (t x : ℕ) (xs : List ℕ)
    → distinct (x ∷ xs) ≡ true
    → (elem t (split_last x xs).0 ≡ (negb (t == (split_last x xs).1) && elem t (x ∷ xs)))
      × (elem (split_last x xs).1 (x ∷ xs) ≡ true)
      × (distinct (split_last x xs).0 ≡ true)
      × (length (split_last x xs).0 ≡ length xs)
unfolding split_last
elem-split_last t x [] d = ground arith
elem-split_last t x (y ∷ ys) d = ground (arith, elem-split_last t y ys, elem-split_last x y ys)

pub elem-unlink :
    (t u : ℕ) (xs : List ℕ)
    → distinct xs ≡ true
    → (elem t (unlink u xs) ≡ (negb (t == u) && elem t xs))
      × (distinct (unlink u xs) ≡ true)
      × (elem u xs ≡ true → length xs ≡ suc (length (unlink u xs)))
unfolding unlink
elem-unlink t u [] d = ground arith
elem-unlink t u (x ∷ xs) d = ground (arith, elem-unlink t u xs, elem-unlink x u xs)

-- A queue without repetitions, by its last thread.
pub distinct-snoc :
    (t : ℕ) (xs : List ℕ) → distinct (xs ++ t ∷ []) ≡ (distinct xs && negb (elem t xs))
distinct-snoc t [] = refl
distinct-snoc t (x ∷ xs) = ground (arith, distinct-snoc t xs, elem-append x xs (t ∷ []))
