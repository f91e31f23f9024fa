-- ===== src/Vmmap/Remove/Pages.antt =====
-- `vmmap_remove` page by page: what is mapped behind a page, before and after.
use mathlib.Core.Option
use csci_402_operating_syste.Prelude.{
  ℕ, ◌^◌, ◌≤◌, ◌<◌, ◌≡◌, refl, ap, ◌⊎◌, inl, inr, Bool, false, ◌&&◌, ◌||◌, Option, none, some, List,
  [], ◌∷◌, ◌++◌, arith, All, ltb, leb, add32, sub32, if◌then◌else◌, is_some,
}
use csci_402_operating_syste.Vmmap.{
  Platform, Area, Effect, link_bottom, unlink_bottom, ref, put, unmap_range, inside_log, whole_log,
  lookup, upper_part, lower_part,
}
use csci_402_operating_syste.Vmmap.Chain.{Chain, Chain-le, Chain-mono, lookup_below}
use csci_402_operating_syste.Vmmap.Remove.{
  IsAttached, overlap-cases, keep_below, keep_above, cut, cut_log,
}
use csci_402_operating_syste.Vmmap.Remove.Cases.{
  cut-inside, cut-tail, cut-head, cut-whole, cut-apart, log-inside, log-tail, log-head, log-whole,
  log-apart,
}

-- What a page of user memory stands for: a page of an object, with its protection and flags.
pub record Page : Type 0 where
  pub object : Option ℕ
  pub index : ℕ
  pub prot : ℕ
  pub flags : ℕ

-- `vma_off + vfn - vma_start`, as the fault handler computes it.
abbrev pub page_of : ℕ → Area → Page
page_of v a = record {
  object = a.vma_obj;
  index = sub32 (add32 a.vma_off v) a.vma_start;
  prot = a.vma_prot;
  flags = a.vma_flags;
}

abbrev pub page : List Area → ℕ → Option Page
page m v = Option.map (page_of v) (lookup m v)

abbrev pub in_range : (s e x : ℕ) → Bool
in_range s e x = leb s x && ltb x e

shift_index :
    (off s f x : ℕ)
    → s ≤ f
    → f ≤ x
    → x < 2 ^ 20
    → sub32 (add32 (sub32 (add32 off f) s) x) f ≡ sub32 (add32 off x) s
shift_index off s f x h k b = omega arith

pub cut-Chain :
    (lo fin c hi : ℕ) (m : List Area) → lo < fin → Chain c hi m → Chain c hi (cut lo fin m)
unfolding cut keep_below keep_above lower_part upper_part
cut-Chain lo fin c hi [] h d = d
cut-Chain lo fin c hi (a ∷ m) h d = ground (
  arith,
  cut-Chain lo fin a.vma_end hi m h d.2,
  λ (g : c ≤ a.vma_end). Chain-mono a.vma_end c hi (cut lo fin m) g,
  λ (g : lo ≤ a.vma_end). Chain-mono a.vma_end lo hi (cut lo fin m) g,
)

pub page-cons :
    (a : Area) (m : List Area) (x : ℕ)
    → page (a ∷ m) x ≡ (if in_range a.vma_start a.vma_end x then some (page_of x a) else page m x)
unfolding lookup
page-cons a m x = ground arith

page_above : (c hi x : ℕ) (m : List Area) → Chain c hi m → x < c → page m x ≡ none
page_above c hi x m d h = ap (Option.map (page_of x)) (lookup_below c hi x m d h)

module _ (lo fin x : ℕ) (a : Area) (m : List Area) (rest : Option Page) (h : lo < fin)
    (k : a.vma_start < a.vma_end) (b : a.vma_end ≤ 2 ^ 20) where
  -- What the map gives at a page, as a function of what its tail gives.
  abbrev over : Area → Option Page → Option Page
  over v q = if in_range v.vma_start v.vma_end x then some (page_of x v) else q

  abbrev hidden : Option Page → Option Page
  hidden q = if in_range lo fin x then none else q

  over-lower :
      a.vma_start < lo
      → lo < a.vma_end
      → a.vma_end ≤ fin
      → over (lower_part lo a) (hidden rest) ≡ hidden (over a rest)
  unfolding lower_part
  over-lower s e f = ground arith

  over-upper :
      lo ≤ a.vma_start
      → a.vma_start < fin
      → fin < a.vma_end
      → over (upper_part fin a) (hidden rest) ≡ hidden (over a rest)
  unfolding upper_part
  over-upper s e f = ground (arith, shift_index a.vma_off a.vma_start fin x)

  over-both :
      a.vma_start < lo
      → fin < a.vma_end
      → over (lower_part lo a) (over (upper_part fin a) (hidden rest)) ≡ hidden (over a rest)
  unfolding lower_part upper_part
  over-both s e = ground (arith, shift_index a.vma_off a.vma_start fin x)

  over-none : lo ≤ a.vma_start → a.vma_end ≤ fin → hidden rest ≡ hidden (over a rest)
  over-none s e = ground arith

  over-apart : (a.vma_end ≤ lo) ⊎ (fin ≤ a.vma_start) → over a (hidden rest) ≡ hidden (over a rest)
  over-apart s = ground arith

pub page-cut :
    (lo fin c hi x : ℕ) (m : List Area)
    → lo < fin
    → hi ≤ 2 ^ 20
    → Chain c hi m
    → page (cut lo fin m) x ≡ (if in_range lo fin x then none else page m x)
page-cut lo fin c hi x [] h k d = unfold cut lookup in ground arith
page-cut lo fin c hi x (a ∷ m) h k d =
    let b : a.vma_end ≤ 2 ^ 20 = omega (arith, Chain-le a.vma_end hi m d.2) in
    let ih = page-cut lo fin a.vma_end hi x m h k d.2 in
    rw (page-cons a m x) (elim (overlap-cases lo fin a h d.1) [
      | inl (e, s, f) ↦
          rw (cut-inside lo fin h a d.1 m s f, page-cons, page-cons, ih)
            (over-both lo fin x a m (page m x) h d.1 b s f)
      | inr (inl (e, s, g, f)) ↦
          rw (cut-tail lo fin h a d.1 m s g f, page-cons, ih)
            (over-lower lo fin x a m (page m x) h d.1 b s g f)
      | inr (inr (inl (e, s, f, g))) ↦
          rw (cut-head lo fin h a d.1 m s f g, page-cons, ih)
            (over-upper lo fin x a m (page m x) h d.1 b s f g)
      | inr (inr (inr (inl (e, s, f)))) ↦
          rw (cut-whole lo fin h a d.1 m s f, ih) (over-none lo fin x a m (page m x) h d.1 b s f)
      | inr (inr (inr (inr (e, s)))) ↦
          rw (cut-apart lo fin h a d.1 m s, page-cons, ih)
            (over-apart lo fin x a m (page m x) h d.1 b s)
    ])

-- Pages that some call of `pt_unmap_range` drops from the page table.
abbrev pub unmaps : List Effect → ℕ → Bool
unmaps [] x = false
unmaps (unmap_range s e ∷ es) x = in_range s e x || unmaps es x
unmaps (link_bottom o ∷ es) x = unmaps es x
unmaps (unlink_bottom o ∷ es) x = unmaps es x
unmaps (ref o ∷ es) x = unmaps es x
unmaps (put o ∷ es) x = unmaps es x

pub unmaps-append :
    (es fs : List Effect) (x : ℕ) → unmaps (es ++ fs) x ≡ (unmaps es x || unmaps fs x)
unmaps-append [] fs x = refl
unmaps-append (unmap_range s e ∷ es) fs x = ground (arith, unmaps-append es fs x)
unmaps-append (link_bottom o ∷ es) fs x = unmaps-append es fs x
unmaps-append (unlink_bottom o ∷ es) fs x = unmaps-append es fs x
unmaps-append (ref o ∷ es) fs x = unmaps-append es fs x
unmaps-append (put o ∷ es) fs x = unmaps-append es fs x

pub unmaps-inside_log :
    (l : Platform) (o lo fin x : ℕ) → unmaps (inside_log l o lo fin) x ≡ in_range lo fin x
unfolding inside_log
unmaps-inside_log l o lo fin x = ground arith

pub unmaps-whole_log :
    (l : Platform) (o x : ℕ) (a : Area)
    → unmaps (whole_log l o a) x ≡ in_range a.vma_start a.vma_end x
unfolding whole_log
unmaps-whole_log l o x a = ground arith

pub mapped-cons :
    (a : Area) (m : List Area) (x : ℕ)
    → is_some (lookup (a ∷ m) x) ≡ (in_range a.vma_start a.vma_end x || is_some (lookup m x))
unfolding lookup
mapped-cons a m x = ground arith

pub unmaps-cut_log :
    (l : Platform) (lo fin c hi x : ℕ) (m : List Area)
    → lo < fin
    → Chain c hi m
    → All IsAttached m
    → unmaps (cut_log l lo fin m) x ≡ (is_some (lookup m x) && in_range lo fin x)
unmaps-cut_log l lo fin c hi x [] h d t = unfold cut_log lookup in refl
unmaps-cut_log l lo fin c hi x (a ∷ m) h d (t, ts) =
    let ih = unmaps-cut_log l lo fin a.vma_end hi x m h d.2 ts in
    rw (mapped-cons a m x) (elim (overlap-cases lo fin a h d.1) [
      | inl (e, s, f) ↦
          rw (log-inside l lo fin a m t.1.0 e t.1.1, unmaps-append, unmaps-inside_log, ih)
            (ground arith)
      | inr (inl (e, s, g, f)) ↦ rw (log-tail l lo fin a m e, ih) (ground arith)
      | inr (inr (inl (e, s, f, g))) ↦ rw (log-head l lo fin a m e, ih) (ground arith)
      | inr (inr (inr (inl (e, s, f)))) ↦
          rw (log-whole l lo fin a m t.1.0 e t.1.1, unmaps-append, unmaps-whole_log, ih)
            (ground arith)
      | inr (inr (inr (inr (e, s)))) ↦ rw (log-apart l lo fin a m e, ih) (ground arith)
    ])
