-- ===== src/FileTable/Slots.antt =====
-- Entries of the descriptor table: writes, counts of references, and the first empty entry.
use csci_402_operating_syste.Prelude.{
  ℕ, zero, suc, ◌+◌, ◌<◌, ◌≡◌, ◌≢◌, ◌⊎◌, inl, inr, refl, ap, ◌∙◌, Option, none, some, List, [], ◌∷◌,
  ◌==◌, arith, length, set, if◌then◌else◌,
}
use csci_402_operating_syste.FileTable.{
  slot, Returns, fd, error, emfile, empty_from, get_empty_fd, count_loop,
}

-- How often the table refers to a file.
pub hit : ℕ → Option ℕ → ℕ
hit f none = 0
hit f (some g) = if g == f then 1 else 0

pub hit-none : (f : ℕ) → hit f none ≡ 0
unfolding hit
hit-none f = refl

pub hit_self : (f : ℕ) → hit f (some f) ≡ 1
unfolding hit
hit_self f = ground arith

-- Two files are the same, or an entry for one is none for the other.
pub hit_other : (f g : ℕ) → ((f ≡ g) × (hit f (some g) ≡ 1)) ⊎ (hit f (some g) ≡ 0)
unfolding hit
hit_other f g = ground arith

abbrev pub uses : ℕ → List (Option ℕ) → ℕ
uses f [] = 0
uses f (x ∷ xs) = hit f x + uses f xs

pub uses-set :
    (f i : ℕ) (v : Option ℕ) (xs : List (Option ℕ))
    → i < length xs
    → uses f (set xs i v) + hit f (slot xs i) ≡ uses f xs + hit f v
uses-set f i v [] h = absurd (omega arith)
uses-set f zero v (x ∷ xs) h = omega arith
uses-set f (suc i) v (x ∷ xs) h = omega (arith, uses-set f i v xs (omega arith))

pub slot-set_self :
    (i : ℕ) (v : Option ℕ) (xs : List (Option ℕ)) → i < length xs → slot (set xs i v) i ≡ v
slot-set_self i v [] h = absurd (omega arith)
slot-set_self zero v (x ∷ xs) h = refl
slot-set_self (suc i) v (x ∷ xs) h = slot-set_self i v xs (omega arith)

pub slot-set_ne :
    (i j : ℕ) (v : Option ℕ) (xs : List (Option ℕ)) → j ≢ i → slot (set xs i v) j ≡ slot xs j
slot-set_ne i j v [] h = refl
slot-set_ne zero zero v (x ∷ xs) h = absurd (h refl)
slot-set_ne zero (suc j) v (x ∷ xs) h = refl
slot-set_ne (suc i) zero v (x ∷ xs) h = refl
slot-set_ne (suc i) (suc j) v (x ∷ xs) h = slot-set_ne i j v xs (λ e. h (ap suc e))

-- The first empty entry from number `i` on, or a full table.
abbrev pub FirstEmpty : ℕ → List (Option ℕ) → Returns → Type 0
FirstEmpty i xs r =
    ((k : ℕ) × (r ≡ fd (i + k))
      × (k < length xs)
      × (slot xs k ≡ none)
      × ((j : ℕ) → j < k → slot xs j ≢ none))
    ⊎ ((r ≡ error emfile) × ((j : ℕ) → j < length xs → slot xs j ≢ none))

used_cons :
    (f n : ℕ) (xs : List (Option ℕ))
    → ((j : ℕ) → j < n → slot xs j ≢ none)
    → (j : ℕ) → j < suc n
    → slot (some f ∷ xs) j ≢ none
used_cons f n xs p zero h = λ e. cc
used_cons f n xs p (suc j) h = p j (omega arith)

empty_from-FirstEmpty : (i : ℕ) (xs : List (Option ℕ)) → FirstEmpty i xs (empty_from i xs)
unfolding empty_from
empty_from-FirstEmpty i [] = inr (refl, λ j h. absurd (omega arith))
empty_from-FirstEmpty i (none ∷ xs) =
    inl (0, ap fd (omega arith), omega arith, refl, λ j h. absurd (omega arith))
empty_from-FirstEmpty i (some f ∷ xs) = elim (empty_from-FirstEmpty (suc i) xs) [
  | inl (k, e, h, n, p) ↦ inl (suc k, e ∙ ap fd (omega arith), omega arith, n, used_cons f k xs p)
  | inr (e, p) ↦ inr (e, used_cons f (length xs) xs p)
]

pub get_empty_fd-FirstEmpty : (xs : List (Option ℕ)) → FirstEmpty 0 xs (get_empty_fd xs)
unfolding get_empty_fd
get_empty_fd-FirstEmpty xs = empty_from-FirstEmpty 0 xs

-- The loop counts every round, as the entry that it looks at is in use.
pub count_loop_all : (f n : ℕ) → count_loop (some f) n ≡ n
unfolding count_loop
count_loop_all f zero = refl
count_loop_all f (suc n) = ap suc (count_loop_all f n)
