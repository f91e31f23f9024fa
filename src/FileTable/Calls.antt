-- ===== src/FileTable/Calls.antt =====
-- `do_close`, `do_dup` and `do_dup2`: their results, and the balance of references.
use csci_402_operating_syste.Prelude.{
  ℕ, ◌+◌, ◌-◌, ◌<◌, ◌≡◌, ◌≢◌, ◌⊎◌, inl, inr, refl, sym, ap, ◌∙◌, Option, none, some, List, ◌==◌,
  ◌||◌, true, false, arith, length, set, length-set, if◌then◌else◌, if_true, if_false, Bool-cases,
  Option-cases, ==→eq,
}
use csci_402_operating_syste.FileTable.{
  Counts, FileOps, Files, fd, error, ebadf, emfile, slot, is_null, out_of_range, is_bad, do_close,
  do_dup, do_dup2, dup_file, dup_into, dup2_file, get_empty_fd, count_loop, put_back,
}
use csci_402_operating_syste.FileTable.Slots.{
  hit, uses, uses-set, hit-none, hit_self, slot-set_self, slot-set_ne, get_empty_fd-FirstEmpty,
  count_loop_all,
}

-- What fs/file.c promises: `fget` of a descriptor in use gives its file and one more reference, and
-- `fput` gives one back.
pub record IsFileOps (o : FileOps) : Type 0 where
  pub fget_file :
      (xs : List (Option ℕ)) (d f : ℕ) (c : Counts)
      → slot xs d ≡ some f
      → (o.fget xs d c).0 ≡ some f
  pub fget_count :
      (xs : List (Option ℕ)) (d f g : ℕ) (c : Counts)
      → slot xs d ≡ some f
      → (o.fget xs d c).1 g ≡ c g + hit g (some f)
  pub fput_count : (f g : ℕ) (c : Counts) → 0 < c f → o.fput f c g + hit g (some f) ≡ c g

-- The table has `n` entries, and the count of every file is the number of entries that refer to it
-- and of the references from elsewhere.
pub record IsFiles (n : ℕ) (elsewhere : Counts) (s : Files) : Type 0 where
  pub size : length s.p_files ≡ n
  pub counted : (f : ℕ) → uses f s.p_files + elsewhere f ≡ s.f_refcount f

-- The entry `d` became `v`, and every other stayed.
abbrev pub Changed : ℕ → Option ℕ → Files → Files → Type 0
Changed d v s s' =
    (slot s'.p_files d ≡ v) × ((j : ℕ) → j ≢ d → slot s'.p_files j ≡ slot s.p_files j)

null-none : (x : Option ℕ) → is_null x ≡ true → x ≡ none
null-none none e = refl
null-none (some f) e = cc

-- One more reference to `f` from elsewhere.
abbrev plus : ℕ → Counts → Counts
plus f elsewhere g = elsewhere g + hit g (some f)

module _ (o : FileOps) (n : ℕ) (elsewhere : Counts) (w : IsFileOps o) where
  fget-IsFiles :
      (s : Files) (d f : ℕ)
      → IsFiles n elsewhere s
      → slot s.p_files d ≡ some f
      → IsFiles n (plus f elsewhere) (record s { f_refcount = (o.fget s.p_files d s.f_refcount).1 })
  fget-IsFiles s d f v k = record {
    size = v.size;
    counted = λ g. omega (arith, v.counted g, w.fget_count s.p_files d f g s.f_refcount k);
  }

  fput-IsFiles :
      (s : Files) (f : ℕ)
      → IsFiles n (plus f elsewhere) s
      → IsFiles n elsewhere (record s { f_refcount = o.fput f s.f_refcount })
  fput-IsFiles s f v = record {
    size = v.size;
    counted = λ g. omega (
      arith,
      v.counted g,
      w.fput_count f g s.f_refcount (omega (arith, v.counted f, hit_self f)),
    );
  }

  -- Writing a reference that the caller holds to an empty entry.
  fill-IsFiles :
      (s : Files) (i f : ℕ)
      → IsFiles n (plus f elsewhere) s
      → i < n
      → slot s.p_files i ≡ none
      → IsFiles n elsewhere (record s { p_files = set s.p_files i (some f) })
  fill-IsFiles s i f v h k = record {
    size = length-set s.p_files i (some f) ∙ v.size;
    counted = λ g. omega (
      arith,
      v.counted g,
      uses-set g i (some f) s.p_files (rw v.size h),
      ap (hit g) k,
      hit-none g,
    );
  }

  -- Emptying an entry: the caller then holds its reference.
  vacate-IsFiles :
      (s : Files) (i f : ℕ)
      → IsFiles n elsewhere s
      → i < n
      → slot s.p_files i ≡ some f
      → IsFiles n (plus f elsewhere) (record s { p_files = set s.p_files i none })
  vacate-IsFiles s i f v h k = record {
    size = length-set s.p_files i none ∙ v.size;
    counted = λ g.
        omega
          (arith, v.counted g, uses-set g i none s.p_files (rw v.size h), ap (hit g) k, hit-none g);
  }

module _ (o : FileOps) (n : ℕ) (elsewhere : Counts) (s : Files) (d : ℕ) (w : IsFileOps o)
    (v : IsFiles n elsewhere s) where
  -- `do_close` returns -EBADF and changes nothing if the descriptor is not open. Otherwise it returns
  -- 0, the descriptor is closed, every other stays, and the counts are again those of the references.
  pub do_close_lem :
      ((is_bad s.p_files d ≡ true) × (do_close o s d ≡ (error ebadf, s)))
      ⊎ ((s' : Files) × (is_bad s.p_files d ≡ false)
          × (do_close o s d ≡ (fd 0, s'))
          × Changed d none s s'
          × IsFiles n elsewhere s')
  unfolding do_close
  do_close_lem = elim (Bool-cases (is_bad s.p_files d)) [
    | inl t ↦ inl (t, if_true _ _ _ t)
    | inr t ↦ elim (Option-cases (slot s.p_files d)) [
      | inl k ↦ absurd (ground arith)
      | inr (f, k) ↦
          let in_range : d < length s.p_files = ground arith in
          inr (
            record { p_files = set s.p_files d none; f_refcount = o.fput f s.f_refcount },
            t,
            if_false _ _ _ t
                ∙ ap
                    (λ z. (
                      fd 0,
                      record s {
                        p_files = set s.p_files d none;
                        f_refcount = put_back o z s.f_refcount;
                      },
                    ))
                    k,
            (slot-set_self d none s.p_files in_range, λ j. slot-set_ne d j none s.p_files),
            fput-IsFiles o n elsewhere w (record s { p_files = set s.p_files d none }) f
                (vacate-IsFiles o n elsewhere w s d f v (rw (← v.size) in_range) k),
          )
    ]
  ]

  dup_file-some :
      (f : ℕ) (r : Option ℕ × Counts)
      → r.0 ≡ some f
      → dup_file o s r ≡ dup_into o s.p_files f r.1 (get_empty_fd s.p_files)
  unfolding dup_file
  dup_file-some f (x, c) e = ap (λ z. dup_file o s (z, c)) e

  do_dup-dup_into :
      (f : ℕ)
      → is_bad s.p_files d ≡ false
      → slot s.p_files d ≡ some f
      → do_dup o s d
        ≡ dup_into o s.p_files f (o.fget s.p_files d s.f_refcount).1 (get_empty_fd s.p_files)
  unfolding do_dup
  do_dup-dup_into f t k =
      let all = ap (λ z. count_loop z (length s.p_files)) k ∙ count_loop_all f (length s.p_files) in
      let pass : (count_loop (slot s.p_files d) (length s.p_files) == length s.p_files - 1)
          ≡ false =
        ground (arith, all) in
      if_false _ _ _ t
      ∙ if_false _ _ _ pass
      ∙ dup_file-some f (o.fget s.p_files d s.f_refcount) (w.fget_file s.p_files d f s.f_refcount k)

  -- `do_dup` returns -EBADF and changes nothing if the descriptor is not open, and -EMFILE if every
  -- descriptor is in use. Otherwise it returns the lowest descriptor that was free, which now has the
  -- same file, and every other stays. On each branch the counts are again those of the references.
  pub do_dup_lem :
      ((is_bad s.p_files d ≡ true) × (do_dup o s d ≡ (error ebadf, s)))
      ⊎ ((is_bad s.p_files d ≡ false)
          × ((s' : Files) × IsFiles n elsewhere s'
              × (((new : ℕ) × (do_dup o s d ≡ (fd new, s'))
                    × (slot s.p_files new ≡ none)
                    × ((j : ℕ) → j < new → slot s.p_files j ≢ none)
                    × Changed new (slot s.p_files d) s s')
                  ⊎ ((do_dup o s d ≡ (error emfile, s'))
                      × ((j : ℕ) → j < n → slot s.p_files j ≢ none)
                      × (s'.p_files ≡ s.p_files)))))
  unfolding do_dup dup_into
  do_dup_lem = elim (Bool-cases (is_bad s.p_files d)) [
    | inl t ↦ inl (t, if_true _ _ _ t)
    | inr t ↦ elim (Option-cases (slot s.p_files d)) [
      | inl k ↦ absurd (ground arith)
      | inr (f, k) ↦
          let c = (o.fget s.p_files d s.f_refcount).1 in
          let held = fget-IsFiles o n elsewhere w s d f v k in
          let go = do_dup-dup_into f t k in
          elim (get_empty_fd-FirstEmpty s.p_files) [
            | inl (new, e, h, z, p) ↦ inr (
              t,
              (
                record { p_files = set s.p_files new (some f); f_refcount = c },
                fill-IsFiles o n elsewhere w (record s { f_refcount = c }) new f held
                    (rw (← v.size) h) z,
                inl (
                  new,
                  go ∙ ap (dup_into o s.p_files f c) (e ∙ ap fd (omega arith)),
                  z,
                  p,
                  (
                    slot-set_self new (some f) s.p_files h ∙ sym k,
                    λ j. slot-set_ne new j (some f) s.p_files,
                  ),
                ),
              ),
            )
            | inr (e, p) ↦ inr (
              t,
              (
                record { p_files = s.p_files; f_refcount = o.fput f c },
                fput-IsFiles o n elsewhere w (record s { f_refcount = c }) f held,
                inr (go ∙ ap (dup_into o s.p_files f c) e, rw v.size at p, refl),
              ),
            )
          ]
    ]
  ]

module _ (o : FileOps) (n : ℕ) (elsewhere : Counts) (s : Files) (ofd nfd : ℕ) (w : IsFileOps o)
    (v : IsFiles n elsewhere s) where
  dup2_file-some :
      (f : ℕ) (r : Option ℕ × Counts)
      → r.0 ≡ some f
      → dup2_file o s ofd nfd r ≡ dup2_file o s ofd nfd (some f, r.1)
  dup2_file-some f (x, c) e = ap (λ z. dup2_file o s ofd nfd (z, c)) e

  -- The entry that `do_dup2` writes: it was empty, or `do_close` empties it.
  emptied :
      (f : ℕ) (c : Counts)
      → IsFiles n (plus f elsewhere) (record s { f_refcount = c })
      → out_of_range s.p_files nfd ≡ false
      → (t : Files) × ((if is_null (slot s.p_files nfd)
            then record s { f_refcount = c }
            else (do_close o (record s { f_refcount = c }) nfd).1)
          ≡ t)
        × Changed nfd none s t
        × IsFiles n (plus f elsewhere) t
  emptied f c h r = elim (Bool-cases (is_null (slot s.p_files nfd))) [
    | inl z ↦ (
      record s { f_refcount = c },
      if_true _ _ _ z,
      (null-none (slot s.p_files nfd) z, λ j ne. refl),
      h,
    )
    | inr z ↦ elim (do_close_lem o n (plus f elsewhere) (record s { f_refcount = c }) nfd w h) [
      | inl (bad, e) ↦ absurd (ground (arith, bad, r, z))
      | inr (t, good, e, ch, q) ↦ (t, if_false _ _ _ z ∙ ap (λ p. p.1) e, ch, q)
    ]
  ]

  -- `do_dup2` returns -EBADF and changes nothing if the old descriptor is not open or the new one is
  -- not a descriptor. Otherwise it returns the new descriptor, which now has the file of the old one,
  -- every other descriptor stays, and the counts are again those of the references.
  pub do_dup2_lem :
      (((is_bad s.p_files ofd || out_of_range s.p_files nfd) ≡ true)
        × (do_dup2 o s ofd nfd ≡ (error ebadf, s)))
      ⊎ ((s' : Files) × ((is_bad s.p_files ofd || out_of_range s.p_files nfd) ≡ false)
          × (do_dup2 o s ofd nfd ≡ (fd nfd, s'))
          × Changed nfd (slot s.p_files ofd) s s'
          × IsFiles n elsewhere s')
  unfolding do_dup2 dup2_file
  do_dup2_lem = elim (Bool-cases (is_bad s.p_files ofd || out_of_range s.p_files nfd)) [
    | inl t ↦ inl (t, if_true _ _ _ t)
    | inr t ↦ elim (Option-cases (slot s.p_files ofd)) [
      | inl k ↦ absurd (ground arith)
      | inr (f, k) ↦
          let c = (o.fget s.p_files ofd s.f_refcount).1 in
          let held = fget-IsFiles o n elsewhere w s ofd f v k in
          let go =
            if_false _ _ _ t
            ∙ dup2_file-some f (o.fget s.p_files ofd s.f_refcount)
                (w.fget_file s.p_files ofd f s.f_refcount k) in
          elim (Bool-cases (ofd == nfd)) [
            | inl y ↦ inr (
              record s { f_refcount = o.fput f c },
              t,
              go ∙ if_true _ _ _ y,
              (ap (slot s.p_files) (sym (==→eq ofd nfd y)), λ j ne. refl),
              fput-IsFiles o n elsewhere w (record s { f_refcount = c }) f held,
            )
            | inr y ↦
                let (u, e, ch, q) = emptied f c held (ground arith) in
                let h : nfd < n = ground (arith, v.size) in
                let b : nfd < length u.p_files = rw q.size h in
                inr (
                  record u { p_files = set u.p_files nfd (some f) },
                  t,
                  go
                      ∙ if_false _ _ _ y
                      ∙ ap
                          (λ (z : Files).
                            (fd nfd, record z { p_files = set z.p_files nfd (some f) }))
                          e,
                  (
                    slot-set_self nfd (some f) u.p_files b ∙ sym k,
                    λ j ne. slot-set_ne nfd j (some f) u.p_files ne ∙ ch.1 j ne,
                  ),
                  fill-IsFiles o n elsewhere w u nfd f q h ch.0,
                )
          ]
    ]
  ]
