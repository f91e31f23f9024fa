-- ===== src/My402List/Insert.antt =====
-- `My402ListAppend`, `My402ListPrepend`, `My402ListInsertAfter` and `My402ListInsertBefore`.
use csci_402_operating_syste.My402List.Between.{between, IsList-between}
use csci_402_operating_syste.Prelude.{
  ℕ, ◌+◌, ◌^◌, ◌<◌, ◌≡◌, ap, sym, ◌∙◌, Bool, true, false, ◌==◌, [], ◌∷◌, ◌++◌, arith, if◌then◌else◌,
  length, add32, Bool-cases, ==→eq, if_false, append-nil, append_assoc, if_true, subst, inl, inr,
  ◌≢◌, ◌⊎◌,
}
use csci_402_operating_syste.Prelude.Run.{ok}
use csci_402_operating_syste.My402List.{
  append_fresh, prepend_fresh, insert_after_fresh, insert_before_fresh, list_append, list_prepend,
  list_insert_after, list_insert_before,
}
use csci_402_operating_syste.My402List.Memory.{pure, alloc, Action, ◌>>◌, null, anchor, Store, upd}
use csci_402_operating_syste.My402List.Links.{
  Links-back, last_snoc, IsLive-after, live_ne, IsLive, IsList, Links-end, Links-first, Links-last,
  Links-after, live_last, live_first, live_mid, Cells, last_of, first_of,
}

==-refl : (n : ℕ) → (n == n) ≡ true
==-refl n = ground arith

-- The links written, in a store in which the new element is live already.
abbrev filled : Store → (n a b o : ℕ) → Store
filled s n a b o = record s {
  num_members = add32 s.num_members 1;
  obj = upd s.obj n o;
  next = upd (upd s.next n b) a n;
  prev = upd (upd s.prev n a) b n;
}

module _ (s : Store) (n o : ℕ) (n-live : s.live n ≡ true) where
  append_fresh-run :
      (n == anchor) ≡ false
      → s.live anchor ≡ true
      → s.live (s.prev anchor) ≡ true
      → append_fresh n o s ≡ ok (true, filled s n (s.prev anchor) anchor o)
  unfolding append_fresh
  append_fresh-run h1 l k = rw (n-live, n-live, l, n-live, l, n-live, h1, ==-refl n, k)

  prepend_fresh-run :
      (n == anchor) ≡ false
      → s.live anchor ≡ true
      → s.live (s.next anchor) ≡ true
      → prepend_fresh n o s ≡ ok (true, filled s n anchor (s.next anchor) o)
  unfolding prepend_fresh
  prepend_fresh-run h1 l k = rw (n-live, l, n-live, n-live, l, n-live, h1, ==-refl n, k)

  insert_after_fresh-run :
      (a : ℕ)
      → (a == n) ≡ false
      → s.live a ≡ true
      → s.live (s.next a) ≡ true
      → s.prev (s.next a) ≡ a
      → insert_after_fresh n o a s ≡ ok (true, filled s n a (s.next a) o)
  unfolding insert_after_fresh
  insert_after_fresh-run a h1 l k p = rw (n-live, l, n-live, l, h1, k, p, n-live, l, h1, k, l)

  insert_before_fresh-run :
      (b : ℕ)
      → (b == n) ≡ false
      → s.live b ≡ true
      → s.live (s.prev b) ≡ true
      → insert_before_fresh n o b s ≡ ok (true, filled s n (s.prev b) b o)
  unfolding insert_before_fresh
  insert_before_fresh-run b h1 l k = rw (n-live, n-live, l, n-live, l, h1, k, l)

end_live : (s : Store) (xs : Cells) → IsList s xs → s.live (s.prev anchor) ≡ true
end_live s xs i =
    ap s.live (Links-end s anchor xs anchor i.links)
    ∙ live_last s anchor xs [] i.anchor_live (subst (IsLive s) (sym (append-nil xs)) i.is_live)

start_live : (s : Store) (xs : Cells) → IsList s xs → s.live (s.next anchor) ≡ true
start_live s xs i =
    ap s.live (Links-first s anchor xs anchor i.links)
    ∙ live_first s xs anchor i.anchor_live i.is_live

abbrev allocated : Store → ℕ → Store
allocated s n = record s { live = upd s.live n true }

-- What an insertion answers: FALSE and no change when `malloc` has failed, else TRUE and the list.
abbrev pub Answer : Store → (fresh : ℕ) → Action Bool → Cells → Type 0
Answer s fresh m xs =
    ((fresh ≡ null) × (m s ≡ ok (false, s)))
    ⊎ ((fresh ≢ null) × (t : Store) × (m s ≡ ok (true, t)) × IsList t xs)

module _ (s : Store) (n o : ℕ) (dead : s.live n ≡ false) where
  Answer-alloc :
      (ls rs : Cells) (k : Action Bool)
      → IsList s (ls ++ rs)
      → length (ls ++ rs) + 1 < 2 ^ 31
      → k (allocated s n) ≡ ok (true, between s n (last_of anchor ls) (first_of rs anchor) o)
      → Answer s n (if n == null then pure false else do alloc n; k) (ls ++ (n, o) ∷ rs)
  Answer-alloc ls rs k i h e = elim (Bool-cases (n == null)) [
    | inl t ↦ inl (==→eq n null t, ap (λ (m : Action Bool). m s) (if_true _ _ _ t))
    | inr f ↦ inr (
      λ p. ground (arith, f, p),
      between s n (last_of anchor ls) (first_of rs anchor) o,
      ap (λ (m : Action Bool). m s) (if_false _ _ _ f) ∙ e,
      IsList-between s n o ls rs i dead f h,
    )
  ]

  live_alloc : (p : ℕ) → s.live p ≡ true → (allocated s n).live p ≡ true
  live_alloc p l = ground (arith, l)

  new_live : (allocated s n).live n ≡ true
  new_live = ground arith

  module _ (xs : Cells) (i : IsList s xs) (h : length xs + 1 < 2 ^ 31) where
    append_lem : Answer s n (list_append n o) (xs ++ (n, o) ∷ [])
    unfolding list_append
    append_lem =
        Answer-alloc xs [] (append_fresh n o) (subst (IsList s) (sym (append-nil xs)) i)
          (subst (λ ys. length ys + 1 < 2 ^ 31) (sym (append-nil xs)) h)
          (append_fresh-run (allocated s n) n o new_live (live_ne s n anchor dead i.anchor_live)
              (live_alloc anchor i.anchor_live) (live_alloc (s.prev anchor) (end_live s xs i))
            ∙ ap (λ a. ok (true, between s n a anchor o)) (Links-end s anchor xs anchor i.links))

    prepend_lem : Answer s n (list_prepend n o) ((n, o) ∷ xs)
    unfolding list_prepend
    prepend_lem = Answer-alloc [] xs (prepend_fresh n o) i h (
        prepend_fresh-run (allocated s n) n o new_live (live_ne s n anchor dead i.anchor_live)
          (live_alloc anchor i.anchor_live) (live_alloc (s.next anchor) (start_live s xs i))
        ∙ ap (λ b. ok (true, between s n anchor b o)) (Links-first s anchor xs anchor i.links))

    -- On a store that holds the list `xs`, with what `malloc` answers NULL or an address not in use and
    -- fewer than 2 ^ 31 - 1 elements: `My402ListAppend` and `My402ListInsertAfter` of NULL answer FALSE
    -- and change nothing if it is NULL, else they answer TRUE and the store holds `xs` with the new
    -- element at the end; likewise `My402ListPrepend` and `My402ListInsertBefore` of NULL with the new
    -- element at the front.
    pub insert_ends_lem :
        Answer s n (list_append n o) (xs ++ (n, o) ∷ [])
        × Answer s n (list_insert_after n o null) (xs ++ (n, o) ∷ [])
        × Answer s n (list_prepend n o) ((n, o) ∷ xs)
        × Answer s n (list_insert_before n o null) ((n, o) ∷ xs)
    unfolding list_insert_after list_insert_before
    insert_ends_lem = (append_lem, append_lem, prepend_lem, prepend_lem)

  module _ (ls rs : Cells) (e q : ℕ) (i : IsList s (ls ++ (e, q) ∷ rs))
      (h : length (ls ++ (e, q) ∷ rs) + 1 < 2 ^ 31) where
    elem_live : s.live e ≡ true
    elem_live = live_mid s ls e q rs i.is_live

    not_null : (e == null) ≡ false
    not_null = ground (arith, live_ne s null e i.null_dead elem_live)

    not_fresh : (e == n) ≡ false
    not_fresh = ground (arith, live_ne s n e dead elem_live)

    snoc : (ys : Cells) → (ls ++ (e, q) ∷ []) ++ ys ≡ ls ++ (e, q) ∷ ys
    snoc ys = append_assoc ls ((e, q) ∷ []) ys

    after_lem :
        Answer s n
          (if n == null then pure false else do alloc n; insert_after_fresh n o e)
          (ls ++ (e, q) ∷ (n, o) ∷ rs)
    after_lem =
        let links = Links-after s anchor ls e q rs anchor i.links in
        let nx = Links-first s e rs anchor links in
        let nl = live_first s rs anchor i.anchor_live (IsLive-after s ls e q rs i.is_live) in
        subst (Answer s n (if n == null then pure false else do alloc n; insert_after_fresh n o e))
          (snoc ((n, o) ∷ rs))
          (Answer-alloc (ls ++ (e, q) ∷ []) rs (insert_after_fresh n o e)
            (subst (IsList s) (sym (snoc rs)) i)
            (subst (λ ys. length ys + 1 < 2 ^ 31) (sym (snoc rs)) h)
            (insert_after_fresh-run (allocated s n) n o new_live e not_fresh
                (live_alloc e elem_live) (live_alloc (s.next e) (ap s.live nx ∙ nl))
                (ap s.prev nx ∙ Links-back s e rs anchor links)
              ∙ ap (λ b. ok (true, between s n e b o)) nx
              ∙ ap (λ a. ok (true, between s n a (first_of rs anchor) o))
                  (sym (last_snoc anchor ls e q))))

    before_lem :
        Answer s n
          (if n == null then pure false else do alloc n; insert_before_fresh n o e)
          (ls ++ (n, o) ∷ (e, q) ∷ rs)
    before_lem =
        let p = Links-last s anchor ls e q rs anchor i.links in
        let pl = live_last s anchor ls ((e, q) ∷ rs) i.anchor_live i.is_live in
        Answer-alloc ls ((e, q) ∷ rs) (insert_before_fresh n o e) i h (
          insert_before_fresh-run (allocated s n) n o new_live e not_fresh (live_alloc e elem_live)
            (live_alloc (s.prev e) (ap s.live p ∙ pl))
          ∙ ap (λ a. ok (true, between s n a e o)) p)

    -- On a store that holds a list with the element `e` in it, with what `malloc` answers NULL or an
    -- address not in use and fewer than 2 ^ 31 - 1 elements: `My402ListInsertAfter` and
    -- `My402ListInsertBefore` of `e` answer FALSE and change nothing if it is NULL, else they answer
    -- TRUE and the store holds the list with the new element directly after, or before, `e`.
    pub insert_beside_lem :
        Answer s n (list_insert_after n o e) (ls ++ (e, q) ∷ (n, o) ∷ rs)
        × Answer s n (list_insert_before n o e) (ls ++ (n, o) ∷ (e, q) ∷ rs)
    unfolding list_insert_after list_insert_before
    insert_beside_lem = (rw not_null after_lem, rw not_null before_lem)
