-- ===== src/Access/Perm.antt =====
-- What the permission checks accept, in terms of the pages of the address space.
use csci_402_operating_syste.Prelude.{
  ℕ, ◌+◌, ◌^◌, add32_exact, ◌≤◌, ◌<◌, ◌≡◌, sym, ◌∙◌, ◌↔◌, ◌⊎◌, inl, inr, refl, Bool, true, false,
  some, none, List, [], ◌∷◌, ◌&&◌, arith, ltb, leb, Bool-cases, if_true, if_false, suc,
}
use csci_402_operating_syste.Vmmap.{Platform, IsPlatform, Area, lookup}
use csci_402_operating_syste.Vmmap.Chain.{
  Chain, IsMap, lookup-here, lookup-after, lookup-before, lookup_below,
}
use csci_402_operating_syste.Access.{
  addr_to_pn, allows, addr_perm_loop, addr_perm, range_perm_loop, range_perm,
}

addr_perm_loop-lookup :
    (x perm : ℕ) (m : List Area)
    → (addr_perm_loop x perm m ≡ true)
      ↔ ((a : Area) × (lookup m x ≡ some a) × (allows perm a ≡ true))
unfolding addr_perm_loop lookup
addr_perm_loop-lookup x perm [] = (λ e. cc, λ (a, e, p). cc)
addr_perm_loop-lookup x perm (a ∷ m) = elim (Bool-cases (leb a.vma_start x && ltb x a.vma_end)) [
  | inl t ↦ rw t (λ e. (a, refl, e), λ (b, e, p). cc)
  | inr f ↦ rw f (addr_perm_loop-lookup x perm m)
]

-- Some page of the range is mapped.
abbrev pub Touches : (s f : ℕ) → List Area → Type 0
Touches s f m = (x : ℕ) × (a : Area) × (s ≤ x) × (x < f) × (lookup m x ≡ some a)

-- Every mapped page of the range has the permission.
abbrev pub Permits : (s f perm : ℕ) → List Area → Type 0
Permits s f perm m = (x : ℕ) (a : Area) → s ≤ x → x < f → lookup m x ≡ some a → allows perm a ≡ true

-- An area that the range passes by.
Permits-after :
    (s f perm : ℕ) (a : Area) (m : List Area)
    → a.vma_end ≤ s
    → Permits s f perm m
    → Permits s f perm (a ∷ m)
Permits-after s f perm a m h p x b u v e = p x b u v (sym (lookup-after a m x (omega arith)) ∙ e)

Permits-tail :
    (s f perm lo hi : ℕ) (a : Area) (m : List Area)
    → Chain lo hi (a ∷ m)
    → Permits s f perm (a ∷ m)
    → Permits s f perm m
Permits-tail s f perm lo hi a m c p x b u v e =
    ground (arith, p x b u v, lookup-after a m x, lookup_below a.vma_end hi x m c.2)

Touches-after :
    (s f lo hi : ℕ) (a : Area) (m : List Area)
    → Chain lo hi (a ∷ m)
    → Touches s f m
    → Touches s f (a ∷ m)
Touches-after s f lo hi a m c (x, b, u, v, e) =
    (x, b, u, v, ground (arith, lookup-after a m x, lookup_below a.vma_end hi x m c.2))

-- A range that ends before the areas.
none_before :
    (s f lo hi x : ℕ) (a : Area) (m : List Area)
    → Chain lo hi (a ∷ m)
    → f ≤ a.vma_start
    → x < f
    → lookup (a ∷ m) x ≡ none
none_before s f lo hi x a m c h v =
    lookup-before a m x (omega arith) ∙ lookup_below a.vma_end hi x m c.2 (omega (arith, c.1))

-- An area that the range meets.
Permits-here :
    (s f perm lo hi : ℕ) (a : Area) (m : List Area)
    → Chain lo hi (a ∷ m)
    → allows perm a ≡ true
    → Permits s f perm m
    → Permits s f perm (a ∷ m)
Permits-here s f perm lo hi a m c ok_a p x b u v e = elim (Bool-cases (ltb x a.vma_start)) [
  | inl t ↦ cc (e, none_before s (suc x) lo hi x a m c (ground arith) (omega arith))
  | inr t ↦ elim (Bool-cases (ltb x a.vma_end)) [
    | inl w ↦ cc (e, ok_a, lookup-here a m x (ground arith) (ground arith))
    | inr w ↦ p x b u v (sym (lookup-after a m x (ground arith)) ∙ e)
  ]
]

meets-here :
    (s f : ℕ) (a : Area) (m : List Area)
    → s < f
    → s < a.vma_end
    → a.vma_start < f
    → a.vma_start < a.vma_end
    → (x : ℕ) × (s ≤ x) × (x < f) × (lookup (a ∷ m) x ≡ some a)
meets-here s f a m h u v w = elim (Bool-cases (leb a.vma_start s)) [
  | inl t ↦ (s, omega arith, h, lookup-here a m s (ground arith) u)
  | inr t ↦ (a.vma_start, ground arith, v, lookup-here a m a.vma_start (omega arith) w)
]

range_perm_loop_sound :
    (s f perm lo hi : ℕ) (found : Bool) (m : List Area)
    → s < f
    → Chain lo hi m
    → range_perm_loop s f perm found m ≡ true
    → ((found ≡ true) ⊎ Touches s f m) × Permits s f perm m
unfolding range_perm_loop lookup
range_perm_loop_sound s f perm lo hi found [] h c e = (inl e, λ x a u v k. cc)
range_perm_loop_sound s f perm lo hi found (a ∷ m) h c e = elim (Bool-cases (leb a.vma_end s)) [
  | inl t ↦
      let (q, p) = range_perm_loop_sound s f perm a.vma_end hi found m h c.2 (ground arith) in
      (
        elim q [ inl k ↦ inl k | inr k ↦ inr (Touches-after s f lo hi a m c k) ],
        Permits-after s f perm a m (ground arith) p,
      )
  | inr t ↦ elim (Bool-cases (leb f a.vma_start)) [
    | inl w ↦
        (inl (ground arith), λ x b u v k. cc (k, none_before s f lo hi x a m c (ground arith) v))
    | inr w ↦
        let y : allows perm a ≡ true = ground arith in
        let (x, u, v, k) = meets-here s f a m h (ground arith) (ground arith) c.1 in
        let (q, p) = range_perm_loop_sound s f perm a.vma_end hi true m h c.2 (ground arith) in
        (inr (x, a, u, v, k), Permits-here s f perm lo hi a m c y p)
  ]
]

range_perm_loop_complete :
    (s f perm lo hi : ℕ) (found : Bool) (m : List Area)
    → s < f
    → Chain lo hi m
    → ((found ≡ true) ⊎ Touches s f m)
    → Permits s f perm m
    → range_perm_loop s f perm found m ≡ true
unfolding range_perm_loop lookup
range_perm_loop_complete s f perm lo hi found [] h c t p = elim t [
  | inl k ↦ k
  | inr (x, a, u, v, k) ↦ cc
]
range_perm_loop_complete s f perm lo hi found (a ∷ m) h c t p =
    elim (Bool-cases (leb a.vma_end s)) [
      | inl z ↦
          if_true _ _ _ z
          ∙ range_perm_loop_complete s f perm a.vma_end hi found m h c.2
              (elim t [
                | inl k ↦ inl k
                | inr (x, b, u, v, k) ↦
                    inr (x, b, u, v, sym (lookup-after a m x (ground arith)) ∙ k)
              ])
              (Permits-tail s f perm lo hi a m c p)
      | inr z ↦ elim (Bool-cases (leb f a.vma_start)) [
        | inl w ↦ if_false _ _ _ z ∙ if_true _ _ _ w ∙ elim t [
          | inl k ↦ k
          | inr (x, b, u, v, k) ↦ cc (k, none_before s f lo hi x a m c (ground arith) v)
        ]
        | inr w ↦
            let (x, u, v, k) = meets-here s f a m h (ground arith) (ground arith) c.1 in
            let y : allows perm a ≡ true = p x a u v k in
            if_false _ _ _ z
            ∙ if_false _ _ _ w
            ∙ if_true _ _ _ y
            ∙ range_perm_loop_complete s f perm a.vma_end hi true m h c.2 (inl refl)
                (Permits-tail s f perm lo hi a m c p)
      ]
    ]

-- `addr_perm` accepts an address exactly when its page is mapped by an area whose protection has
-- every permission asked for.
pub addr_perm_iff :
    (l : Platform) (m : List Area) (vaddr perm : ℕ)
    → (addr_perm l m vaddr perm ≡ true)
      ↔ ((a : Area) × (lookup m (addr_to_pn l vaddr) ≡ some a) × (allows perm a ≡ true))
unfolding addr_perm
addr_perm_iff l m vaddr perm = addr_perm_loop-lookup (addr_to_pn l vaddr) perm m

pages :
    (l : Platform)
    → IsPlatform l
    → (avaddr len : ℕ) → addr_to_pn l avaddr < addr_to_pn l (avaddr + len) + 1
pages l p avaddr len = rw p.page (omega arith)

found-Touches :
    (l : Platform) (m : List Area) (s f perm : ℕ)
    → s < f
    → IsMap l m
    → range_perm_loop s f perm false m ≡ true
    → Touches s f m × Permits s f perm m
found-Touches l m s f perm h c e =
    let (t, p) = range_perm_loop_sound s f perm l.low l.high false m h c e in
    (elim t [ inl k ↦ cc | inr k ↦ k ], p)

-- For a map in order and a range that does not wrap, `range_perm` accepts exactly when some page from
-- the first page to the page of the end address, both included, is mapped, and every mapped one of
-- them has the permissions. Pages of the range that are not mapped do not make it refuse.
pub range_perm_iff :
    (l : Platform) (m : List Area) (avaddr len perm : ℕ)
    → IsPlatform l
    → IsMap l m
    → avaddr + len < 2 ^ 32
    → (range_perm l m avaddr len perm ≡ true) ↔ (
        Touches (addr_to_pn l avaddr) (addr_to_pn l (avaddr + len) + 1) m
        × Permits (addr_to_pn l avaddr) (addr_to_pn l (avaddr + len) + 1) perm m)
unfolding range_perm
range_perm_iff l m avaddr len perm p c h =
    let s = addr_to_pn l avaddr in
    let f = addr_to_pn l (avaddr + len) + 1 in
    let lt : s < f = pages l p avaddr len in
    rw (add32_exact avaddr len h) (
      found-Touches l m s f perm lt c,
      λ (t, q). range_perm_loop_complete s f perm l.low l.high false m lt c (inr t) q,
    )
