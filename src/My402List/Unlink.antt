-- ===== src/My402List/Unlink.antt =====
-- `My402ListUnlink`.
use csci_402_operating_syste.Prelude.{
  ℕ, ◌≡◌, ap, ◌∙◌, true, false, ◌==◌, [], ◌∷◌, ◌++◌, arith, sub32, length-append,
}
use csci_402_operating_syste.Prelude.Run.{ok}
use csci_402_operating_syste.My402List.{list_unlink}
use csci_402_operating_syste.My402List.Memory.{null, anchor, Store, upd}
use csci_402_operating_syste.My402List.Links.{
  IsLive, IsList, Links-first, Links-last, Links-after, live_last, live_first, live_mid,
  IsLive-after, Cells, has, Distinct, last_of, first_of, Links, Links-frame, has_append, last_ne,
  first_ne, has_ne,
}

-- The store with the element `e` between `a` and `b` taken out and freed.
abbrev pub without : Store → (e a b : ℕ) → Store
without s e a b = record {
  num_members = sub32 s.num_members 1;
  live = upd s.live e false;
  obj = upd s.obj e null;
  next = upd (upd s.next a b) e null;
  prev = upd (upd s.prev b a) e null;
}

module _ (s : Store) (e q : ℕ) (end : ℕ) where
  frame_rest :
      (p x : ℕ) (rs : Cells)
      → Links s x rs end
      → has x rs ≡ false
      → has p rs ≡ false
      → has e rs ≡ false
      → (x == e) ≡ false
      → (x == p) ≡ false
      → (end == e) ≡ false
      → (end == x) ≡ false
      → Links (without s e p x) x rs end
  frame_rest p x rs h hx hp he xe xp ee ex =
      Links-frame s (without s e p x) x rs end h (ground arith) (ground arith) λ a i. (
        ground (arith, has_ne p a rs hp i, has_ne e a rs he i),
        ground (arith, has_ne e a rs he i, has_ne x a rs hx i),
        ground (arith, has_ne e a rs he i),
      )

  Links-without :
      (p : ℕ) (ls rs : Cells)
      → Links s p (ls ++ (e, q) ∷ rs) end
      → Distinct (ls ++ (e, q) ∷ rs)
      → has p (ls ++ (e, q) ∷ rs) ≡ false
      → has end (ls ++ (e, q) ∷ rs) ≡ false
      → Links (without s e (last_of p ls) (first_of rs end)) p (ls ++ rs) end
  Links-without p [] [] h d hp he = (ground arith, ground arith)
  Links-without p [] ((x, o) ∷ rs) h d hp he = (
    ground arith,
    ground arith,
    ground (arith, h.3.2),
    frame_rest p x rs h.3.3 d.1.0 (ground arith) (ground arith) (ground arith) (ground arith)
        (ground arith) (ground arith),
  )
  Links-without p ((y, o) ∷ ls) rs h d hp he =
      let y-parts = has_append y ls ((e, q) ∷ rs) in
      let l = last_ne p y ls ((e, q) ∷ rs) (ground arith) (ground arith) in
      let p-parts = has_append p ls ((e, q) ∷ rs) in
      let e-parts = has_append end ls ((e, q) ∷ rs) in
      let ye : (end == y) ≡ false = ground arith in
      let f = first_ne y end [] rs (ground (arith, y-parts, d.0)) (ground arith) in
      (
        ground (arith, h.0, l, p-parts),
        ground (arith, h.1, f, y-parts, d.0),
        ground (arith, h.2, y-parts, d.0),
        Links-without y ls rs h.3 d.1 d.0 (ground arith),
      )

pub has_without :
    (a e q : ℕ) (ls rs : Cells)
    → has a (ls ++ (e, q) ∷ rs) ≡ false
    → (has a (ls ++ rs) ≡ false) × ((a == e) ≡ false)
has_without a e q [] rs h = (ground arith, ground arith)
has_without a e q ((y, o) ∷ ls) rs h =
    let r = has_without a e q ls rs (ground arith) in (ground (arith, r.0), r.1)

-- The elements that are left are distinct, and the one taken out is not among them.
Distinct-without :
    (e q : ℕ) (ls rs : Cells)
    → Distinct (ls ++ (e, q) ∷ rs)
    → Distinct (ls ++ rs) × (has e (ls ++ rs) ≡ false)
Distinct-without e q [] rs d = (d.1, d.0)
Distinct-without e q ((y, o) ∷ ls) rs d =
    let r = Distinct-without e q ls rs d.1 in
    let w = has_without y e q ls rs d.0 in ((w.0, r.0), ground (arith, r.1, w.1))

IsLive-without :
    (s : Store) (e q a b : ℕ) (ls rs : Cells)
    → IsLive s (ls ++ (e, q) ∷ rs)
    → has e (ls ++ rs) ≡ false
    → IsLive (without s e a b) (ls ++ rs)
IsLive-without s e q a b [] [] l h = tt
IsLive-without s e q a b [] ((x, o) ∷ rs) l h =
    (ground (arith, l.1.0), IsLive-without s e q a b [] rs (l.0, l.1.1) (ground arith))
IsLive-without s e q a b ((y, o) ∷ ls) rs l h =
    (ground (arith, l.0), IsLive-without s e q a b ls rs l.1 (ground arith))

-- The steps of the call at an element whose neighbours are in use.
unlink-run :
    (s : Store) (e : ℕ)
    → s.live e ≡ true
    → (e == s.prev e) ≡ false
    → s.live (s.prev e) ≡ true
    → s.live (s.next e) ≡ true
    → list_unlink e s ≡ ok (tt, without s e (s.prev e) (s.next e))
unfolding list_unlink
unlink-run s e le ne lp ln = rw (le, le, lp, le, ne, le, ln, le, le, le, le)

prev_ne :
    (s : Store) (e q p : ℕ) (ls rs : Cells)
    → Distinct (ls ++ (e, q) ∷ rs)
    → has p (ls ++ (e, q) ∷ rs) ≡ false
    → (e == last_of p ls) ≡ false
prev_ne s e q p [] rs d h = ground arith
prev_ne s e q p ((y, o) ∷ ls) rs d h = prev_ne s e q y ls rs d.1 d.0

module _ (s : Store) (ls rs : Cells) (e q : ℕ) (i : IsList s (ls ++ (e, q) ∷ rs)) where
  abbrev after : Store
  after = without s e (last_of anchor ls) (first_of rs anchor)

  IsList-without : IsList after (ls ++ rs)
  IsList-without =
      let d = Distinct-without e q ls rs i.distinct in
      let n = has_without anchor e q ls rs i.no_anchor in
      record {
        links = Links-without s e q anchor anchor ls rs i.links i.distinct i.no_anchor i.no_anchor;
        distinct = d.0;
        no_anchor = n.0;
        is_live = IsLive-without s e q (last_of anchor ls) (first_of rs anchor) ls rs i.is_live d.1;
        anchor_live = ground (arith, n.1, i.anchor_live);
        null_dead = ground (arith, i.null_dead);
        count =
            omega (arith, i.count, i.small, length-append ls rs, length-append ls ((e, q) ∷ rs));
        small = omega (arith, i.small, length-append ls rs, length-append ls ((e, q) ∷ rs));
      }

  unlink-after : list_unlink e s ≡ ok (tt, after)
  unlink-after =
      let le = live_mid s ls e q rs i.is_live in
      let p = Links-last s anchor ls e q rs anchor i.links in
      let n = Links-first s e rs anchor (Links-after s anchor ls e q rs anchor i.links) in
      let pl = live_last s anchor ls ((e, q) ∷ rs) i.anchor_live i.is_live in
      let nl = live_first s rs anchor i.anchor_live (IsLive-after s ls e q rs i.is_live) in
      let ne = prev_ne s e q anchor ls rs i.distinct i.no_anchor in
      unlink-run s e le (ap (λ a. e == a) p ∙ ne) (ap s.live p ∙ pl) (ap s.live n ∙ nl)
      ∙ ap (λ a. ok (tt, without s e a (s.next e))) p
      ∙ ap (λ b. ok (tt, without s e (last_of anchor ls) b)) n

  -- On a store that holds a list with the element `e` in it, `My402ListUnlink` of `e` makes no access
  -- to memory that is not in use; the store then holds the list without that element, in the same
  -- order, and the element's memory is free.
  pub unlink_lem :
      (t : Store) × (list_unlink e s ≡ ok (tt, t)) × IsList t (ls ++ rs) × (t.live e ≡ false)
  unlink_lem = (after, unlink-after, IsList-without, ground arith)
