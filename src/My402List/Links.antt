-- ===== src/My402List/Links.antt =====
-- Lists of elements, and the links that hold between neighbours.
use csci_402_operating_syste.Prelude.{
  ℕ, ◌^◌, ◌<◌, ◌≡◌, refl, ap, ◌∙◌, Bool, true, false, ◌||◌, ◌==◌, List, [], ◌∷◌, ◌++◌, arith, All,
  length, inl, inr, Bool-cases, ==→eq,
}
use csci_402_operating_syste.My402List.Memory.{null, anchor, Store}

-- The elements of a list in order: their addresses and objects.
abbrev pub Cells : Type 0
Cells = List (ℕ × ℕ)

abbrev pub has : ℕ → Cells → Bool
has a [] = false
has a ((p, _) ∷ xs) = (a == p) || has a xs

abbrev pub Distinct : Cells → Type 0
Distinct [] = Unit
Distinct ((p, _) ∷ xs) = (has p xs ≡ false) × Distinct xs

-- The last address of `p` and `xs`, and the first of `xs` and `e`.
abbrev pub last_of : ℕ → Cells → ℕ
last_of p [] = p
last_of p ((x, _) ∷ xs) = last_of x xs

abbrev pub first_of : Cells → ℕ → ℕ
first_of [] e = e
first_of ((x, _) ∷ xs) e = x

-- From `p` over the elements `xs` to `e`, the links hold both ways.
abbrev pub Links : (s : Store) (p : ℕ) → Cells → (e : ℕ) → Type 0
Links s p [] e = (s.next p ≡ e) × (s.prev e ≡ p)
Links s p ((x, o) ∷ xs) e = (s.next p ≡ x) × (s.prev x ≡ p) × (s.obj x ≡ o) × Links s x xs e

abbrev pub IsLive : Store → Cells → Type 0
IsLive s = All λ c. s.live c.0 ≡ true

-- The store holds the list `xs`.
pub record IsList (s : Store) (xs : Cells) : Type 0 where
  pub links : Links s anchor xs anchor
  pub distinct : Distinct xs
  pub no_anchor : has anchor xs ≡ false
  pub is_live : IsLive s xs
  pub anchor_live : s.live anchor ≡ true
  pub null_dead : s.live null ≡ false
  pub count : s.num_members ≡ length xs
  pub small : length xs < 2 ^ 31

module _ (s : Store) where
  -- Where two lists meet.
  pub Links-last :
      (p : ℕ) (ls : Cells) (x o : ℕ) (rs : Cells) (e : ℕ)
      → Links s p (ls ++ (x, o) ∷ rs) e
      → s.prev x ≡ last_of p ls
  Links-last p [] x o rs e h = h.1
  Links-last p ((y, _) ∷ ls) x o rs e h = Links-last y ls x o rs e h.3

  pub Links-end : (p : ℕ) (ls : Cells) (e : ℕ) → Links s p ls e → s.prev e ≡ last_of p ls
  Links-end p [] e h = h.1
  Links-end p ((y, _) ∷ ls) e h = Links-end y ls e h.3

  pub Links-first : (p : ℕ) (rs : Cells) (e : ℕ) → Links s p rs e → s.next p ≡ first_of rs e
  Links-first p [] e h = h.0
  Links-first p ((y, _) ∷ rs) e h = h.0

  pub Links-back : (p : ℕ) (rs : Cells) (e : ℕ) → Links s p rs e → s.prev (first_of rs e) ≡ p
  Links-back p [] e h = h.1
  Links-back p ((y, _) ∷ rs) e h = h.1

  pub IsLive-after :
      (ls : Cells) (x o : ℕ) (rs : Cells) → IsLive s (ls ++ (x, o) ∷ rs) → IsLive s rs
  IsLive-after [] x o rs h = h.1
  IsLive-after (y ∷ ls) x o rs h = IsLive-after ls x o rs h.1

  pub Links-after :
      (p : ℕ) (ls : Cells) (x o : ℕ) (rs : Cells) (e : ℕ)
      → Links s p (ls ++ (x, o) ∷ rs) e
      → Links s x rs e
  Links-after p [] x o rs e h = h.3
  Links-after p ((y, _) ∷ ls) x o rs e h = Links-after y ls x o rs e h.3

  pub live_dead : (xs : Cells) (a : ℕ) → IsLive s xs → s.live a ≡ false → has a xs ≡ false
  live_dead [] a h d = refl
  live_dead ((x, o) ∷ xs) a h d = ground (arith, live_dead xs a h.1 d, h.0, d)

  pub live_mid :
      (ls : Cells) (x o : ℕ) (rs : Cells) → IsLive s (ls ++ (x, o) ∷ rs) → s.live x ≡ true
  live_mid [] x o rs h = h.0
  live_mid (y ∷ ls) x o rs h = live_mid ls x o rs h.1

  pub live_last :
      (p : ℕ) (ls rs : Cells) → s.live p ≡ true → IsLive s (ls ++ rs) → s.live (last_of p ls) ≡ true
  live_last p [] rs l h = l
  live_last p ((y, o) ∷ ls) rs l h = live_last y ls rs h.0 h.1

  pub live_first :
      (rs : Cells) (e : ℕ) → s.live e ≡ true → IsLive s rs → s.live (first_of rs e) ≡ true
  live_first [] e l h = l
  live_first (y ∷ rs) e l h = h.0

-- Links survive changes elsewhere.
pub Links-frame :
    (s t : Store) (p : ℕ) (xs : Cells) (e : ℕ)
    → Links s p xs e
    → t.next p ≡ s.next p
    → t.prev e ≡ s.prev e
    → ((a : ℕ)
        → has a xs ≡ true
        → (t.next a ≡ s.next a) × (t.prev a ≡ s.prev a) × (t.obj a ≡ s.obj a))
    → Links t p xs e
Links-frame s t p [] e h hn hp same = (hn ∙ h.0, hp ∙ h.1)
Links-frame s t p ((x, o) ∷ xs) e h hn hp same =
    let m = same x (ground arith) in
    (hn ∙ h.0, m.1 ∙ h.1, m.2 ∙ h.2, Links-frame s t x xs e h.3 m.0 hp λ a i. same a (ground arith))

pub has_append : (a : ℕ) (xs ys : Cells) → has a (xs ++ ys) ≡ (has a xs || has a ys)
has_append a [] ys = refl
has_append a ((x, o) ∷ xs) ys = ground (arith, has_append a xs ys)

-- The last address is one of the list, unless the list is empty.
pub has-last : (y o : ℕ) (ls : Cells) → has (last_of y ls) ((y, o) ∷ ls) ≡ true
has-last y o [] = ground arith
has-last y o ((z, q) ∷ ls) = ground (arith, has-last z q ls)

pub has_ne : (a b : ℕ) (xs : Cells) → has a xs ≡ false → has b xs ≡ true → (a == b) ≡ false
has_ne a b xs h k = elim (Bool-cases (a == b)) [
  | inl t ↦ ground (arith, h, k, ap (λ z. has z xs) (==→eq a b t))
  | inr f ↦ f
]

pub last_ne :
    (a p : ℕ) (ls rs : Cells)
    → has a (ls ++ rs) ≡ false
    → (a == p) ≡ false
    → (a == last_of p ls) ≡ false
last_ne a p [] rs h e = e
last_ne a p ((y, o) ∷ ls) rs h e = last_ne a y ls rs (ground arith) (ground arith)

pub first_ne :
    (a e : ℕ) (ls rs : Cells)
    → has a (ls ++ rs) ≡ false
    → (a == e) ≡ false
    → (a == first_of rs e) ≡ false
first_ne a e [] [] h k = k
first_ne a e [] ((x, o) ∷ rs) h k = ground arith
first_ne a e ((y, o) ∷ ls) rs h k = first_ne a e ls rs (ground arith) k

pub live_ne : (s : Store) (a b : ℕ) → s.live a ≡ false → s.live b ≡ true → (a == b) ≡ false
live_ne s a b h k = elim (Bool-cases (a == b)) [
  | inl t ↦ ground (arith, h, k, ap s.live (==→eq a b t))
  | inr f ↦ f
]

pub last_snoc : (p : ℕ) (ls : Cells) (e q : ℕ) → last_of p (ls ++ (e, q) ∷ []) ≡ e
last_snoc p [] e q = refl
last_snoc p ((y, o) ∷ ls) e q = last_snoc y ls e q
