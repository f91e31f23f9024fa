-- ===== src/Vmmap/Chain.antt =====
-- The invariant of an address space: areas in order, non-empty, disjoint and within bounds.
use csci_402_operating_syste.Prelude.{
  ℕ, ◌≤◌, ◌<◌, ◌≡◌, ◌⊎◌, ◌∙◌, refl, none, some, List, [], ◌∷◌, ◌++◌, arith,
}
use csci_402_operating_syste.Vmmap.{Platform, Area, lookup}

abbrev pub Chain : (lo hi : ℕ) → List Area → Type 0
Chain lo hi [] = lo ≤ hi
Chain lo hi (a ∷ m) = (lo ≤ a.vma_start) × (a.vma_start < a.vma_end) × Chain a.vma_end hi m

-- The areas of a map lie in order in the user's part of the address space.
abbrev pub IsMap : Platform → List Area → Type 0
IsMap l m = Chain l.low l.high m

-- No page of [s, e) is mapped.
abbrev pub Free : List Area → (s e : ℕ) → Type 0
Free m s e = (v : ℕ) → s ≤ v → v < e → lookup m v ≡ none

pub Chain-le : (lo hi : ℕ) (m : List Area) → Chain lo hi m → lo ≤ hi
Chain-le lo hi [] c = c
Chain-le lo hi (a ∷ m) c = omega (arith, Chain-le a.vma_end hi m c.2)

pub Chain-mono : (lo lo' hi : ℕ) (m : List Area) → lo' ≤ lo → Chain lo hi m → Chain lo' hi m
Chain-mono lo lo' hi [] h c = omega arith
Chain-mono lo lo' hi (a ∷ m) h c = (omega arith, c.1, c.2)

pub lookup_below : (lo hi v : ℕ) (m : List Area) → Chain lo hi m → v < lo → lookup m v ≡ none
unfolding lookup
lookup_below lo hi v [] c h = refl
lookup_below lo hi v (a ∷ m) c h = ground (arith, lookup_below a.vma_end hi v m c.2)

pub lookup_above : (lo hi v : ℕ) (m : List Area) → Chain lo hi m → hi ≤ v → lookup m v ≡ none
unfolding lookup
lookup_above lo hi v [] c h = refl
lookup_above lo hi v (a ∷ m) c h =
    ground (arith, lookup_above a.vma_end hi v m c.2, Chain-le a.vma_end hi m c.2)

pub lookup-here :
    (a : Area) (m : List Area) (v : ℕ) → a.vma_start ≤ v → v < a.vma_end → lookup (a ∷ m) v ≡ some a
unfolding lookup
lookup-here a m v h k = ground arith

pub lookup-after :
    (a : Area) (m : List Area) (v : ℕ) → a.vma_end ≤ v → lookup (a ∷ m) v ≡ lookup m v
unfolding lookup
lookup-after a m v h = ground arith

pub lookup-before :
    (a : Area) (m : List Area) (v : ℕ) → v < a.vma_start → lookup (a ∷ m) v ≡ lookup m v
unfolding lookup
lookup-before a m v h = ground arith

-- The range [s, e) misses the area.
abbrev pub Clear : (s e : ℕ) → Area → Type 0
Clear s e a = (e ≤ a.vma_start) ⊎ (a.vma_end ≤ s)

pub Free-Clear :
    (a : Area) (m : List Area) (s e : ℕ)
    → s < e
    → a.vma_start < a.vma_end
    → Free (a ∷ m) s e
    → Clear s e a
Free-Clear a m s e h k f =
    ground (arith, f a.vma_start, f s, lookup-here a m a.vma_start, lookup-here a m s)

pub Free-tail :
    (lo hi : ℕ) (a : Area) (m : List Area) (s e : ℕ)
    → Chain lo hi (a ∷ m)
    → s < e
    → Free (a ∷ m) s e
    → Free m s e
Free-tail lo hi a m s e c h f v p q = ground (
  arith,
  Free-Clear a m s e h c.1 f,
  f v p q,
  lookup-after a m v,
  lookup_below a.vma_end hi v m c.2,
)

pub Free-cons : (a : Area) (m : List Area) (s e : ℕ) → Clear s e a → Free m s e → Free (a ∷ m) s e
unfolding lookup
Free-cons a m s e c f v p q = ground (arith, f v p q)

pub Chain-append :
    (lo mid hi : ℕ) (xs ys : List Area) → Chain lo mid xs → Chain mid hi ys → Chain lo hi (xs ++ ys)
Chain-append lo mid hi [] ys c d = Chain-mono mid lo hi ys c d
Chain-append lo mid hi (a ∷ xs) ys c d = (c.0, c.1, Chain-append a.vma_end mid hi xs ys c.2 d)

pub lookup-append :
    (lo mid v : ℕ) (xs ys : List Area)
    → Chain lo mid xs
    → mid ≤ v
    → lookup (xs ++ ys) v ≡ lookup ys v
lookup-append lo mid v [] ys c h = refl
lookup-append lo mid v (a ∷ xs) ys c h =
    lookup-after a (xs ++ ys) v (omega (arith, Chain-le a.vma_end mid xs c.2))
    ∙ lookup-append a.vma_end mid v xs ys c.2 h
