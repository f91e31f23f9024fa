-- ===== src/My402List/Walks.antt =====
-- The calls that go through the whole list: `My402ListFind` and `My402ListUnlinkAll`.
use csci_402_operating_syste.Prelude.{
  ℕ, zero, suc, ◌<◌, ◌≡◌, refl, ap, ◌∙◌, true, false, ◌==◌, [], ◌∷◌, arith, if◌then◌else◌, length,
  Bool-cases, inl, inr,
}
use csci_402_operating_syste.Prelude.Run.{ok}
use csci_402_operating_syste.My402List.{
  find_loop, list_find, list_first, unlink_loop, list_unlink_all, list_init,
}
use csci_402_operating_syste.My402List.Memory.{null, anchor, Store, upd, pure, and_then}
use csci_402_operating_syste.My402List.Links.{
  IsLive, IsList, Links-first, live_first, Cells, has, Distinct, first_of, Links, first_ne,
}

-- The address of the first element with the object, or NULL.
abbrev pub position : ℕ → Cells → ℕ
position obj [] = null
position obj ((x, o) ∷ xs) = if o == obj then x else position obj xs

find_loop_lem :
    (s : Store) (obj : ℕ) (p : ℕ) (xs : Cells) (e : ℕ)
    → Links s p xs e
    → IsLive s xs
    → find_loop (length xs) obj (first_of xs e) s ≡ ok (position obj xs, s)
unfolding find_loop
find_loop_lem s obj p [] e h l = refl
find_loop_lem s obj p ((x, o) ∷ xs) e h l =
    let ih = find_loop_lem s obj x xs e h.3 l.1 in
    let n = Links-first s x xs e h.3 in
    rw (l.0, h.2) (elim (Bool-cases (o == obj)) [ inl t ↦ rw t | inr f ↦ rw (f, l.0, n) ih ])

suc-ne-zero : (n : ℕ) → (suc n == 0) ≡ false
suc-ne-zero n = ground arith

-- On a store that holds the list `xs`, `My402ListFind` returns the first of its elements with the
-- object, or NULL if there is none, and changes nothing.
pub find_lem :
    (s : Store) (xs : Cells) (obj : ℕ) → IsList s xs → list_find obj s ≡ ok (position obj xs, s)
unfolding list_find list_first
find_lem s [] obj i = simp i.count
find_lem s ((x, o) ∷ xs) obj i =
    simp (i.count, suc-ne-zero, i.anchor_live, i.links.0)
      (find_loop_lem s obj anchor ((x, o) ∷ xs) anchor i.links i.is_live)

-- The memory after one round of `My402ListUnlinkAll`.
abbrev wiped : Store → ℕ → Store
wiped s x = record s {
  live = upd s.live x false;
  obj = upd s.obj x null;
  next = upd s.next x null;
  prev = upd s.prev x null;
}

abbrev cleared : Store → Cells → Store
cleared s [] = s
cleared s ((x, _) ∷ xs) = cleared (wiped s x) xs

-- The links forward, from each element to the next.
abbrev Forward : Store → Cells → Type 0
Forward s [] = Unit
Forward s ((x, _) ∷ xs) = (s.next x ≡ first_of xs anchor) × Forward s xs

Links-Forward : (s : Store) (p : ℕ) (xs : Cells) → Links s p xs anchor → Forward s xs
Links-Forward s p [] h = tt
Links-Forward s p ((x, o) ∷ xs) h = (Links-first s x xs anchor h.3, Links-Forward s x xs h.3)

wiped-Forward :
    (s : Store) (x : ℕ) (xs : Cells) → has x xs ≡ false → Forward s xs → Forward (wiped s x) xs
wiped-Forward s x [] h f = tt
wiped-Forward s x ((y, o) ∷ xs) h f = (ground (arith, f.0), wiped-Forward s x xs (ground arith) f.1)

wiped-IsLive :
    (s : Store) (x : ℕ) (xs : Cells) → has x xs ≡ false → IsLive s xs → IsLive (wiped s x) xs
wiped-IsLive s x [] h l = tt
wiped-IsLive s x ((y, o) ∷ xs) h l = (ground (arith, l.0), wiped-IsLive s x xs (ground arith) l.1)

unlink_loop_lem :
    (k : ℕ) (s : Store) (xs : Cells)
    → length xs < k
    → Forward s xs
    → IsLive s xs
    → Distinct xs
    → has anchor xs ≡ false
    → s.live anchor ≡ true
    → unlink_loop k (first_of xs anchor) (s.next (first_of xs anchor)) s ≡ ok (true, cleared s xs)
unfolding unlink_loop
unlink_loop_lem zero s xs h f l d a la = absurd (omega arith)
unlink_loop_lem (suc k) s [] h f l d a la = refl
unlink_loop_lem (suc k) s ((x, o) ∷ xs) h f l d a la =
    let ax : (anchor == x) ≡ false = ground arith in
    let xa : (x == anchor) ≡ false = ground arith in
    let nx = first_ne x anchor [] xs d.0 xa in
    let ln = live_first s xs anchor la l.1 in
    let lw : (wiped s x).live (first_of xs anchor) ≡ true = ground (arith, nx, ln) in
    let ih =
      unlink_loop_lem k (wiped s x) xs (omega arith) (wiped-Forward s x xs d.0 f.1)
        (wiped-IsLive s x xs d.0 l.1) d.1 (ground arith) (ground arith) in
    rw (xa, l.0, l.0, l.0, l.0, f.0, lw) ih

cleared-live :
    (s : Store) (xs : Cells) (a : ℕ)
    → (cleared s xs).live a ≡ (if has a xs then false else s.live a)
cleared-live s [] a = refl
cleared-live s ((x, o) ∷ xs) a = ground (arith, cleared-live (wiped s x) xs a)

-- The anchor written by `My402ListInit`.
abbrev reset : Store → Store
reset s = record s {
  num_members = 0;
  obj = upd s.obj anchor null;
  next = upd s.next anchor anchor;
  prev = upd s.prev anchor anchor;
}

init-run : (s : Store) → s.live anchor ≡ true → list_init s ≡ ok (true, reset s)
unfolding list_init
init-run s l = rw (l, l, l)

IsList-reset : (s : Store) → s.live anchor ≡ true → s.live null ≡ false → IsList (reset s) []
IsList-reset s l n = record {
  links = (ground arith, ground arith);
  distinct = tt;
  no_anchor = refl;
  is_live = tt;
  anchor_live = l;
  null_dead = n;
  count = refl;
  small = omega arith;
}

-- `My402ListInit` gives the empty list, in memory where the anchor is in use and NULL is not.
pub init_lem :
    (s : Store)
    → s.live anchor ≡ true
    → s.live null ≡ false
    → (t : Store) × (list_init s ≡ ok (true, t)) × IsList t []
init_lem s l n = (reset s, init-run s l, IsList-reset s l n)

unlink_all-run :
    (s c : Store)
    → s.live anchor ≡ true
    → s.live (s.next anchor) ≡ true
    → unlink_loop (suc s.num_members) (s.next anchor) (s.next (s.next anchor)) s ≡ ok (true, c)
    → list_unlink_all s ≡ list_init c
unfolding list_unlink_all
unlink_all-run s c la ln loop =
    rw (la, ln) (ap (λ z. and_then z (λ ended. if ended then list_init else pure false)) loop)

-- On a store that holds a list, `My402ListUnlinkAll` ends, one round for each element, and makes no
-- access to memory that is not in use; the store then holds the empty list, and the memory of every
-- element is free.
pub unlink_all_lem :
    (s : Store) (xs : Cells)
    → IsList s xs
    → (t : Store) × (list_unlink_all s ≡ ok (true, t))
      × IsList t []
      × ((a : ℕ) → has a xs ≡ true → t.live a ≡ false)
unlink_all_lem s xs i =
    let c = cleared s xs in
    let la : c.live anchor ≡ true =
      ground (arith, cleared-live s xs anchor, i.no_anchor, i.anchor_live) in
    let ln : c.live null ≡ false = ground (arith, cleared-live s xs null, i.null_dead) in
    let n = Links-first s anchor xs anchor i.links in
    let f = live_first s xs anchor i.anchor_live i.is_live in
    let loop =
      unlink_loop_lem (suc (length xs)) s xs (omega arith) (Links-Forward s anchor xs i.links)
        i.is_live i.distinct i.no_anchor i.anchor_live in
    (
      reset c,
      unlink_all-run s c i.anchor_live (ap s.live n ∙ f) (simp (i.count, n) loop) ∙ init-run c la,
      IsList-reset c la ln,
      λ a h. ground (arith, cleared-live s xs a),
    )
