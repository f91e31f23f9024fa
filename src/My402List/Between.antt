-- ===== src/My402List/Between.antt =====
-- A new element between two neighbours of the list.
use csci_402_operating_syste.Prelude.{
  ℕ, ◌+◌, ◌^◌, ◌<◌, ◌≡◌, ◌∙◌, true, false, ◌==◌, [], ◌∷◌, ◌++◌, arith, length, add32, if_false,
  length-append,
}
use csci_402_operating_syste.My402List.Memory.{null, anchor, Store, upd}
use csci_402_operating_syste.My402List.Links.{
  live_ne, live_dead, IsLive, IsList, Cells, has, Distinct, last_of, first_of, Links, Links-frame,
  last_ne, first_ne, has_ne,
}

-- The store with a new element between `a` and `b`.
abbrev pub between : Store → (n a b o : ℕ) → Store
between s n a b o = record {
  num_members = add32 s.num_members 1;
  live = upd s.live n true;
  obj = upd s.obj n o;
  next = upd (upd s.next n b) a n;
  prev = upd (upd s.prev n a) b n;
}

module _ (s : Store) (n o : ℕ) (e : ℕ) where
  frame_rest :
      (p x : ℕ) (rs : Cells)
      → Links s x rs e
      → has x rs ≡ false
      → has p rs ≡ false
      → has n rs ≡ false
      → (x == n) ≡ false
      → (x == p) ≡ false
      → (e == n) ≡ false
      → (e == x) ≡ false
      → Links (between s n p x o) x rs e
  frame_rest p x rs h hx hp hn xn xp en ex =
      Links-frame s (between s n p x o) x rs e h (ground arith) (ground arith) λ a i. (
        ground (arith, has_ne p a rs hp i, has_ne n a rs hn i),
        ground (arith, has_ne n a rs hn i, has_ne x a rs hx i),
        ground (arith, has_ne n a rs hn i),
      )

  Links-between :
      (p : ℕ) (ls rs : Cells)
      → Links s p (ls ++ rs) e
      → Distinct (ls ++ rs)
      → has p (ls ++ rs) ≡ false
      → has e (ls ++ rs) ≡ false
      → has n (ls ++ rs) ≡ false
      → (n == p) ≡ false
      → (n == e) ≡ false
      → Links (between s n (last_of p ls) (first_of rs e) o) p (ls ++ (n, o) ∷ rs) e
  Links-between p [] [] h d hp he hn np ne =
      (ground arith, ground arith, ground arith, (ground arith, ground arith))
  Links-between p [] ((x, q) ∷ rs) h d hp he hn np ne =
      let xn : (x == n) ≡ false = ground arith in
      let xp : (x == p) ≡ false = ground arith in
      let ex : (e == x) ≡ false = ground arith in
      let en : (e == n) ≡ false = ground arith in
      (
        ground arith,
        ground arith,
        ground arith,
        (
          ground arith,
          ground arith,
          ground (arith, h.2),
          frame_rest p x rs h.3 d.0 (ground arith) (ground arith) xn xp en ex,
        ),
      )
  Links-between p ((y, q) ∷ ls) rs h d hp he hn np ne =
      let l = last_ne p y ls rs (ground arith) (ground arith) in
      let f = first_ne y e ls rs d.0 (ground arith) in
      (
        ground (arith, h.0, l),
        ground (arith, h.1, f),
        ground (arith, h.2),
        Links-between y ls rs h.3 d.1 d.0 (ground arith) (ground arith) (ground arith) ne,
      )

pub has_insert :
    (a n o : ℕ) (ls rs : Cells)
    → has a (ls ++ rs) ≡ false
    → (a == n) ≡ false
    → has a (ls ++ (n, o) ∷ rs) ≡ false
has_insert a n o [] rs h e = ground arith
has_insert a n o ((y, q) ∷ ls) rs h e = ground (arith, has_insert a n o ls rs)

Distinct-insert :
    (n o : ℕ) (ls rs : Cells)
    → Distinct (ls ++ rs)
    → has n (ls ++ rs) ≡ false
    → Distinct (ls ++ (n, o) ∷ rs)
Distinct-insert n o [] rs d h = (h, d)
Distinct-insert n o ((y, q) ∷ ls) rs d h =
    (has_insert y n o ls rs d.0 (ground arith), Distinct-insert n o ls rs d.1 (ground arith))

IsLive-insert :
    (s : Store) (n a b o : ℕ) (ls rs : Cells)
    → IsLive s (ls ++ rs)
    → IsLive (between s n a b o) (ls ++ (n, o) ∷ rs)
IsLive-insert s n a b o [] [] l = (ground arith, tt)
IsLive-insert s n a b o [] ((x, q) ∷ rs) l =
    let r = IsLive-insert s n a b o [] rs l.1 in (r.0, (ground (arith, l.0), r.1))
IsLive-insert s n a b o ((y, q) ∷ ls) rs l =
    (ground (arith, l.0), IsLive-insert s n a b o ls rs l.1)

pub IsList-between :
    (s : Store) (n o : ℕ) (ls rs : Cells)
    → IsList s (ls ++ rs)
    → s.live n ≡ false
    → (n == null) ≡ false
    → length (ls ++ rs) + 1 < 2 ^ 31
    → IsList (between s n (last_of anchor ls) (first_of rs anchor) o) (ls ++ (n, o) ∷ rs)
IsList-between s n o ls rs i d nn h =
    let out = live_dead s (ls ++ rs) n i.is_live d in
    let na : (n == anchor) ≡ false = live_ne s n anchor d i.anchor_live in
    let an : (anchor == n) ≡ false = ground arith in
    record {
      links =
          Links-between s n o anchor anchor ls rs i.links i.distinct i.no_anchor i.no_anchor out na
            na;
      distinct = Distinct-insert n o ls rs i.distinct out;
      no_anchor = has_insert anchor n o ls rs i.no_anchor an;
      is_live = IsLive-insert s n (last_of anchor ls) (first_of rs anchor) o ls rs i.is_live;
      anchor_live = if_false _ _ _ an ∙ i.anchor_live;
      null_dead = ground (arith, i.null_dead);
      count = omega (arith, i.count, length-append ls rs, length-append ls ((n, o) ∷ rs));
      small = omega (arith, h, length-append ls rs, length-append ls ((n, o) ∷ rs));
    }
