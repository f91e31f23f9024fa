-- ===== src/Vmmap/Remove/Loop.antt =====
-- The iteration of `vmmap_remove` against the reference.
use csci_402_operating_syste.Prelude.{
  ℕ, ◌≤◌, ◌<◌, ◌≡◌, refl, ◌∙◌, inl, inr, true, false, some, List, [], ◌∷◌, ◌++◌, arith, All,
  append_assoc, append-nil, add32, sub32,
}
use csci_402_operating_syste.Prelude.Run.{ok}
use csci_402_operating_syste.Vmmap.{
  Platform, IsPlatform, Area, Effect, whole_log, unmap_range, inside, tail, head, whole, apart,
  insert_at, insert, overlap, upper_part, lower_part, Removed, remove_inside, remove_loop,
}
use csci_402_operating_syste.Vmmap.Chain.{
  Chain, Free, Chain-le, Chain-mono, Chain-append, lookup-append, lookup_below, lookup-after,
}
use csci_402_operating_syste.Vmmap.Insert.{IsNew, linked, insert_run}
use csci_402_operating_syste.Vmmap.Remove.Cases.{
  obj_of-ok, cut-inside, cut-tail, cut-head, cut-whole, cut-apart, log-inside, log-tail, log-head,
  log-whole, log-apart,
}
use csci_402_operating_syste.Vmmap.Remove.{
  IsAttached, keep_below, keep_above, cut, area_log, cut_log, overlap-cases,
}

pub insert_at-append :
    (lo mid : ℕ) (v : Area) (xs ys : List Area)
    → Chain lo mid xs
    → mid < v.vma_end
    → insert_at v (xs ++ ys) ≡ xs ++ insert_at v ys
unfolding insert_at
insert_at-append lo mid v [] ys c h = refl
insert_at-append lo mid v (a ∷ xs) ys c h =
    ground (arith, insert_at-append a.vma_end mid v xs ys c.2 h, Chain-le a.vma_end mid xs c.2)

pub insert_at-front :
    (hi : ℕ) (v : Area) (m : List Area) → Chain v.vma_end hi m → insert_at v m ≡ v ∷ m
unfolding insert_at
insert_at-front hi v [] c = refl
insert_at-front hi v (a ∷ m) c = ground arith

pub insert_at-skip :
    (v a : Area) (m : List Area) → a.vma_start < v.vma_end → insert_at v (a ∷ m) ≡ a ∷ insert_at v m
unfolding insert_at
insert_at-skip v a m h = ground arith

pub cut_above :
    (lo fin c hi : ℕ) (m : List Area) → lo < fin → fin ≤ c → Chain c hi m → cut lo fin m ≡ m
unfolding cut keep_below keep_above
cut_above lo fin c hi [] h k d = refl
cut_above lo fin c hi (a ∷ m) h k d = ground (arith, cut_above lo fin a.vma_end hi m h, d.2)

pub cut_log_above :
    (l : Platform) (lo fin c hi : ℕ) (m : List Area)
    → lo < fin
    → fin ≤ c
    → Chain c hi m
    → cut_log l lo fin m ≡ []
unfolding cut_log area_log overlap
cut_log_above l lo fin c hi [] h k d = refl
cut_log_above l lo fin c hi (a ∷ m) h k d =
    ground (arith, cut_log_above l lo fin a.vma_end hi m h, d.2)

module _ (l : Platform) (p : IsPlatform l) (lo fin : ℕ) (lo-fin : lo < fin) where
  -- The state that the reference gives, with the count that the loop has reached.
  abbrev pub Result : Removed → List Area → ℕ → Removed
  Result r rest n = record {
    areas = r.areas ++ cut lo fin rest;
    log = r.log ++ cut_log l lo fin rest;
    count = n;
  }

  inside-insert :
      (mid : ℕ) (a : Area) (done rest : List Area)
      → Chain l.low mid done
      → Chain mid l.high (a ∷ rest)
      → a.vma_vmmap ≡ true
      → a.vma_start < lo
      → fin < a.vma_end
      → insert l (done ++ lower_part lo a ∷ rest) (record (upper_part fin a) { vma_vmmap = false })
        ≡ ok (done ++ lower_part lo a ∷ upper_part fin a ∷ rest)
  unfolding upper_part lower_part
  inside-insert mid a done rest d c on s e =
      let v = record (upper_part fin a) { vma_vmmap = false } in
      let m = done ++ lower_part lo a ∷ rest in
      let after : Chain lo l.high rest = Chain-mono a.vma_end lo l.high rest (omega arith) c.2 in
      let mc : Chain l.low l.high m = Chain-append l.low mid l.high done _ d (c.0, s, after) in
      let bound : a.vma_end ≤ l.high = Chain-le a.vma_end l.high rest c.2 in
      let fresh : IsNew l v = record {
        unset = refl;
        nonempty = e;
        above = omega (arith, Chain-le l.low mid done d);
        below = bound;
      } in
      let (b, run, meaning) = insert_run l m v p mc fresh in
      let free : Free m fin a.vma_end = λ x h k.
        lookup-append l.low mid x done _ d (omega arith)
        ∙ lookup-after (lower_part lo a) rest x (omega arith)
        ∙ lookup_below a.vma_end l.high x rest c.2 k in
      let t : b ≡ true = meaning.1 free in
      let mid-end : mid < a.vma_end = omega arith in
      let same : linked v ≡ upper_part fin a = ground arith in
      rw (
        run,
        t,
        insert_at-append l.low mid (linked v) done (lower_part lo a ∷ rest) d mid-end,
        insert_at-skip (linked v) (lower_part lo a) rest (omega arith),
        insert_at-front l.high (linked v) rest c.2,
        same,
      )

  inside-run :
      (mid : ℕ) (a : Area) (rest : List Area) (r : Removed) (o : ℕ)
      → Chain l.low mid r.areas
      → Chain mid l.high (a ∷ rest)
      → a.vma_vmmap ≡ true
      → a.vma_obj ≡ some o
      → overlap lo fin a ≡ inside
      → a.vma_start < lo
      → fin < a.vma_end
      → remove_inside l lo fin r.areas a rest r
        ≡ ok (Result r (a ∷ rest) (sub32 (add32 fin r.count) lo))
  unfolding remove_inside
  inside-run mid a rest r o d c on obj e s f = rw (
    inside-insert mid a r.areas rest d c on s f,
    obj_of-ok a o obj,
    cut-inside lo fin lo-fin a c.1 rest s f,
    log-inside l lo fin a rest o e obj,
    cut_above lo fin a.vma_end l.high rest lo-fin (omega arith) c.2,
    cut_log_above l lo fin a.vma_end l.high rest lo-fin (omega arith) c.2,
    append-nil,
  )

  abbrev passed : Removed → List Area → List Effect → ℕ → Removed
  passed r xs es n = record { areas = r.areas ++ xs; log = r.log ++ es; count = n }

  -- An area that the loop passes, leaving `xs` of it and making the calls `es`.
  continue :
      (r : Removed) (a : Area) (rest xs : List Area) (es : List Effect) (k : ℕ)
      → remove_loop l lo fin r (a ∷ rest) ≡ remove_loop l lo fin (passed r xs es k) rest
      → cut lo fin (a ∷ rest) ≡ xs ++ cut lo fin rest
      → cut_log l lo fin (a ∷ rest) ≡ es ++ cut_log l lo fin rest
      → (n : ℕ) × (remove_loop l lo fin (passed r xs es k) rest
          ≡ ok (Result (passed r xs es k) rest n))
      → (n : ℕ) × (remove_loop l lo fin r (a ∷ rest) ≡ ok (Result r (a ∷ rest) n))
  continue r a rest xs es k step c g (n, e) = (n, step ∙ e ∙ rw (c, g, append_assoc, append_assoc))

  stop :
      (r : Removed) (a : Area) (rest : List Area)
      → Chain a.vma_end l.high rest
      → overlap lo fin a ≡ head
      → lo ≤ a.vma_start
      → a.vma_start < fin
      → fin < a.vma_end
      → (n : ℕ) × (remove_loop l lo fin r (a ∷ rest) ≡ ok (Result r (a ∷ rest) n))
  unfolding remove_loop
  stop r a rest c e s f g =
      rw
        (
          e,
          remove_loop,
          cut-head lo fin lo-fin a (omega arith) rest s f g,
          log-head l lo fin a rest e,
          cut_above lo fin a.vma_end l.high rest lo-fin (omega arith) c,
          cut_log_above l lo fin a.vma_end l.high rest lo-fin (omega arith) c,
        )
        (add32 (add32 (sub32 0 (upper_part fin a).vma_start) fin) r.count, refl)

  step-inside :
      (mid : ℕ) (r : Removed) (a : Area) (rest : List Area)
      → Chain l.low mid r.areas
      → Chain mid l.high (a ∷ rest)
      → IsAttached a
      → overlap lo fin a ≡ inside
      → a.vma_start < lo
      → fin < a.vma_end
      → (n : ℕ) × (remove_loop l lo fin r (a ∷ rest) ≡ ok (Result r (a ∷ rest) n))
  unfolding remove_loop
  step-inside mid r a rest d c (on, (o, obj)) e s f =
      rw (e, remove_loop) (sub32 (add32 fin r.count) lo, inside-run mid a rest r o d c on obj e s f)

  step-tail :
      (r : Removed) (a : Area) (rest : List Area)
      → overlap lo fin a ≡ tail
      → remove_loop l lo fin r (a ∷ rest)
        ≡ remove_loop l lo fin
            (passed r
              (lower_part lo a ∷ [])
              (unmap_range lo a.vma_end ∷ [])
              (add32 (sub32 r.count lo) (lower_part lo a).vma_end))
            rest
  unfolding remove_loop
  step-tail r a rest e = rw (e, remove_loop)

  step-whole :
      (r : Removed) (a : Area) (rest : List Area) (o : ℕ)
      → overlap lo fin a ≡ whole
      → a.vma_obj ≡ some o
      → remove_loop l lo fin r (a ∷ rest)
        ≡ remove_loop l lo fin
            (passed r [] (whole_log l o a) (add32 (sub32 r.count a.vma_start) a.vma_end))
            rest
  unfolding remove_loop
  step-whole r a rest o e obj = rw (e, remove_loop, obj_of-ok a o obj, append-nil)

  step-apart :
      (r : Removed) (a : Area) (rest : List Area)
      → overlap lo fin a ≡ apart
      → remove_loop l lo fin r (a ∷ rest) ≡ remove_loop l lo fin (passed r (a ∷ []) [] r.count) rest
  unfolding remove_loop
  step-apart r a rest e = rw (e, remove_loop, append-nil)

  -- The loop computes the reference.
  pub remove_loop-cut :
      (mid : ℕ) (rest : List Area) (r : Removed)
      → Chain l.low mid r.areas
      → Chain mid l.high rest
      → All IsAttached rest
      → (n : ℕ) × (remove_loop l lo fin r rest ≡ ok (Result r rest n))
  unfolding lower_part
  remove_loop-cut mid [] r d c t = (r.count, unfold remove_loop cut cut_log in simp append-nil)
  remove_loop-cut mid (a ∷ rest) r d c (t, ts) =
      let after : (hi' : ℕ) (xs : List Area) → Chain mid hi' xs → Chain l.low hi' (r.areas ++ xs) =
        λ hi' xs. Chain-append l.low mid hi' r.areas xs d in
      elim (overlap-cases lo fin a lo-fin c.1) [
        | inl (e, s, f) ↦ step-inside mid r a rest d c t e s f
        | inr (inl (e, s, m, f)) ↦
            continue r a rest _ _ _ (step-tail r a rest e) (cut-tail lo fin lo-fin a c.1 rest s m f)
              (log-tail l lo fin a rest e)
              (remove_loop-cut a.vma_end rest _
                (after a.vma_end (lower_part lo a ∷ []) (c.0, s, omega arith)) c.2 ts)
        | inr (inr (inl (e, s, f, g))) ↦ stop r a rest c.2 e s f g
        | inr (inr (inr (inl (e, s, f)))) ↦
            continue r a rest _ _ _ (step-whole r a rest t.1.0 e t.1.1)
              (cut-whole lo fin lo-fin a c.1 rest s f) (log-whole l lo fin a rest t.1.0 e t.1.1)
              (remove_loop-cut a.vma_end rest _ (after a.vma_end [] (omega (arith, c.0, c.1))) c.2
                ts)
        | inr (inr (inr (inr (e, s)))) ↦
            continue r a rest _ _ _ (step-apart r a rest e) (cut-apart lo fin lo-fin a c.1 rest s)
              (log-apart l lo fin a rest e)
              (remove_loop-cut a.vma_end rest _ (after a.vma_end (a ∷ []) (c.0, c.1, omega arith))
                c.2 ts)
      ]
