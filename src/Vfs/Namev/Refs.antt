-- ===== src/Vfs/Namev/Refs.antt =====
-- The references that name resolution takes, on every path through it.
use csci_402_operating_syste.Prelude.{
  ℕ, ◌≡◌, ◌≢◌, ◌<◌, refl, ◌⊎◌, inl, inr, Bool, true, List, [], ◌∷◌, ◌==◌, ◌&&◌, length, ltb, arith,
  lt→ltb,
}
use csci_402_operating_syste.Vfs.Action.{
  World, Action, ◌>>◌, pure, Ends, Ends-pure, Ends->>=, Ends-if, Ends-check,
}
use csci_402_operating_syste.Vfs.Vnode.{negb, vput}
use csci_402_operating_syste.Vfs.Vnode.Active.{IsWorld}
use csci_402_operating_syste.Vfs.Vnode.Gains.{Gains, Gains-refl, Gains-trans, Gains-swap}
use csci_402_operating_syste.Vfs.Vnode.Rules.{Ends-vput, Ends-vput_pure, Ends-vget}
use csci_402_operating_syste.Vfs.Fs.{
  Fs, IsFs, Name, Errno, enoent, enotdir, einval, enametoolong, eexist, eisdir, enotempty, efault,
  other_errno, Found, missing, found, lookup_op, create_op, with_result,
}
use csci_402_operating_syste.Vfs.Namev.{
  fs_step, is_dot, is_enoent, slash_to_dot, lookup, split_path, Named, unresolved, resolved,
  last_name, walk, descend, walk_from, start, dir_namev, open_result, open_named, open_namev,
}

pub Ends-step :
    {A : Type 0} (step : World → A × World) (w : World) (Q : A → World → Type 0)
    → Q (step w).0 (step w).1
    → Ends (fs_step step) w Q
unfolding Ends
Ends-step step w Q q = ((step w).0, (step w).1, refl, q)

-- The references after a result that may come with one.
abbrev pub Gained : World → List ℕ → Found → World → Type 0
Gained w us (missing e) w' = Gains w us w'
Gained w us (found v) w' = Gains w (v ∷ us) w'

enoent-enotdir : (e : Errno) → is_enoent e ≡ true → missing e ≢ missing enotdir
enoent-enotdir enoent t k = cc
enoent-enotdir enotdir t k = cc
enoent-enotdir einval t k = cc
enoent-enotdir enametoolong t k = cc
enoent-enotdir eexist t k = cc
enoent-enotdir eisdir t k = cc
enoent-enotdir enotempty t k = cc
enoent-enotdir efault t k = cc
enoent-enotdir (other_errno n) t k = cc

module _ (f : Fs) (i : IsFs f) where
  fs-Gained :
      (w w' : World) (us : List ℕ) (r : Found × World)
      → Gains w us w'
      → Gains w' (with_result r.0) r.1
      → Gained w us r.0 r.1
  fs-Gained w w' us (missing e, w'') g h = Gains-trans w w' w'' us [] g h
  fs-Gained w w' us (found v, w'') g h = Gains-trans w w' w'' us (v ∷ []) g h

  -- What a lookup ends with; that it finds anything, or nothing, means that there is a directory.
  abbrev pub Looked : World → List ℕ → ℕ → Found → World → Type 0
  Looked w us dir r w' = Gained w us r w' × ((r ≡ missing enotdir) ⊎ (f.has lookup_op dir ≡ true))

  pub lookup-Looked :
      (w w' : World) (us : List ℕ) (dir : ℕ) (name : Name)
      → Gains w us w'
      → Ends (lookup f dir name) w' (Looked w us dir)
  unfolding lookup
  lookup-Looked w w' us dir name g =
      Ends-if (negb (f.has lookup_op dir)) _ _ w' (Looked w us dir)
        (λ e. Ends-pure (missing enotdir) w' (Looked w us dir) (g, inl refl))
        λ e.
          let o : f.has lookup_op dir ≡ true = ground arith in
          Ends-if (is_dot name) _ _ w' (Looked w us dir)
            (λ d.
              Ends-vget w w' dir us (Looked w us dir) f.read_vnode (pure (found dir)) g
                λ w'' h. Ends-pure (found dir) w'' (Looked w us dir) (h, inr o))
            λ d. Ends-step (f.lookup dir name) w' (Looked w us dir) (
              fs-Gained w w' us (f.lookup dir name w') g (i.lookup_gains dir name w' g.world),
              inr o,
            )

  -- What `dir_namev` ends with.
  abbrev pub Resolved : World → Named → World → Type 0
  Resolved w (unresolved e) w' = Gains w [] w'
  Resolved w (resolved dir name) w' = Gains w (dir ∷ []) w' × (f.has lookup_op dir ≡ true)

  last_name-Resolved :
      (w w' : World) (dir : ℕ) (name : Name) (r : Found)
      → Looked w (dir ∷ []) dir r w'
      → Ends (last_name dir name r) w' (Resolved w)
  unfolding last_name
  last_name-Resolved w w' dir name (found v) (g, o) =
      Ends-vput_pure w w' v (dir ∷ []) (Resolved w) (resolved dir name) g
        (λ w'' h. (h, elim o [ inl e ↦ cc | inr e ↦ e ]))
  last_name-Resolved w w' dir name (missing e) (g, o) =
      Ends-if (is_enoent e) _ _ w' (Resolved w)
        (λ t.
          Ends-pure (resolved dir name) w' (Resolved w)
            (g, elim o [ inl k ↦ absurd (enoent-enotdir e t k) | inr k ↦ k ]))
        λ t. Ends-vput_pure w w' dir [] (Resolved w) (unresolved e) g (λ w'' h. h)

  descend-Resolved :
      (w w' : World) (dir : ℕ) (next : Name) (rest : ℕ → Action Named) (r : Found)
      → Gained w (dir ∷ []) r w'
      → ((v : ℕ) (w'' : World) → Gains w (v ∷ []) w'' → Ends (rest v) w'' (Resolved w))
      → Ends (descend f dir next rest r) w' (Resolved w)
  unfolding descend
  descend-Resolved w w' dir next rest (missing e) g k =
      Ends-vput_pure w w' dir [] (Resolved w) (unresolved e) g (λ w'' h. h)
  descend-Resolved w w' dir next rest (found v) g k =
      Ends-if (ltb f.name_len (length next)) _ _ w' (Resolved w)
        (λ t.
          Ends-vput w w' v (dir ∷ []) (Resolved w) _ g λ w'' h.
            Ends-vput_pure w w'' dir [] (Resolved w) (unresolved enametoolong) h (λ x q. q))
        λ t. Ends-vput w w' dir (v ∷ []) (Resolved w) (rest v) (Gains-swap w w' v dir [] g) (k v)

  walk-Resolved :
      (w w' : World) (dir : ℕ) (name : Name) (rest : List Name)
      → Gains w (dir ∷ []) w'
      → Ends (walk f dir name rest) w' (Resolved w)
  unfolding walk
  walk-Resolved w w' dir name [] g =
      Ends->>= (lookup f dir name) (last_name dir name) w' (Looked w (dir ∷ []) dir) (Resolved w)
        (lookup-Looked w w' (dir ∷ []) dir name g) λ r w''. last_name-Resolved w w'' dir name r
  walk-Resolved w w' dir name (next ∷ rest) g =
      Ends->>= (lookup f dir name) _ w' (Looked w (dir ∷ []) dir) (Resolved w)
        (lookup-Looked w w' (dir ∷ []) dir name g)
        λ r w'' q.
          descend-Resolved w w'' dir next (λ v. walk f v next rest) r q.0
            λ v x h. walk-Resolved w x v next rest h

  walk_from-Resolved :
      (w : World) (dir : ℕ) (path : Name) → IsWorld w → Ends (walk_from f dir path) w (Resolved w)
  unfolding walk_from
  walk_from-Resolved w dir path v =
      let (name, rest) = split_path path in
      Ends-vget w w dir [] (Resolved w) f.read_vnode _ (Gains-refl w v) λ w' g.
        Ends-if (ltb f.name_len (length name)) _ _ w' (Resolved w)
          (λ t. Ends-vput_pure w w' dir [] (Resolved w) (unresolved enametoolong) g (λ x q. q))
          λ t. walk-Resolved w w' dir name rest g

  start-Resolved :
      (w : World) (base : ℕ) (path : Name) → IsWorld w → Ends (start f base path) w (Resolved w)
  unfolding start
  start-Resolved w base [] v =
      Ends-vget w w base [] (Resolved w) f.read_vnode _ (Gains-refl w v)
        λ w' g. Ends-vput_pure w w' base [] (Resolved w) (unresolved einval) g (λ x q. q)
  start-Resolved w base (c ∷ []) v =
      Ends-if (negb (c == 47)) _ _ w (Resolved w) (λ t. walk_from-Resolved w base (c ∷ []) v)
        λ t.
          Ends-vget w w f.root [] (Resolved w) f.read_vnode _ (Gains-refl w v)
            λ w' g. Ends-pure (resolved f.root (c ∷ [])) w' (Resolved w) (g, i.root_lookup)
  start-Resolved w base (c ∷ d ∷ ds) v =
      Ends-if (negb (c == 47)) _ _ w (Resolved w) (λ t. walk_from-Resolved w base (c ∷ d ∷ ds) v)
        λ t. walk_from-Resolved w f.root (d ∷ ds) v

  -- `dir_namev` of a path that fits its buffer ends. On success the caller has gained one reference,
  -- to the vnode that is returned, which has directory operations; on every error it has gained none.
  pub dir_namev_lem :
      (w : World) (path : Name)
      → IsWorld w
      → length path < f.max_path
      → Ends (dir_namev f path) w (Resolved w)
  unfolding dir_namev Ends
  dir_namev_lem w path v h =
      Ends-check (ltb (length path) f.max_path) _ w (Resolved w) (lt→ltb _ _ h)
        (start-Resolved w w.p_cwd path v)

  put_dir :
      (w w' : World) (dir : ℕ) (r : Found)
      → Gained w (dir ∷ []) r w'
      → Ends (vput dir >> pure r) w' (Gained w [])
  put_dir w w' dir (missing e) g = Ends-vput_pure w w' dir [] (Gained w []) (missing e) g (λ x q. q)
  put_dir w w' dir (found v) g =
      Ends-vput_pure w w' dir (v ∷ []) (Gained w []) (found v) (Gains-swap w w' v dir [] g)
        (λ x q. q)

  open_result-Gained :
      (w w' : World) (creat : Bool) (dir : ℕ) (name : Name) (r : Found)
      → f.has lookup_op dir ≡ true
      → Gained w (dir ∷ []) r w'
      → Ends (open_result f creat dir name r) w' (Gained w [])
  unfolding open_result
  open_result-Gained w w' creat dir name (found v) o g =
      Ends-vput_pure w w' dir (v ∷ []) (Gained w []) (found v) (Gains-swap w w' v dir [] g)
        (λ x q. q)
  open_result-Gained w w' creat dir name (missing e) o g =
      Ends-if (creat && is_enoent e) _ _ w' (Gained w [])
        (λ t. Ends-check (f.has create_op dir) _ w' (Gained w []) (i.dir_has dir create_op o) (
          Ends->>= (fs_step (f.create dir name)) _ w' (Gained w (dir ∷ [])) (Gained w [])
            (Ends-step (f.create dir name) w' (Gained w (dir ∷ [])) (
              fs-Gained w w' (dir ∷ []) (f.create dir name w') g
                (i.create_gains dir name w' g.world)))
            λ r w''. put_dir w w'' dir r))
        λ t. Ends-vput_pure w w' dir [] (Gained w []) (missing e) g (λ x q. q)

  open_named-Gained :
      (w w' : World) (creat : Bool) (r : Named)
      → Resolved w r w'
      → Ends (open_named f creat r) w' (Gained w [])
  unfolding open_named
  open_named-Gained w w' creat (unresolved e) g = Ends-pure (missing e) w' (Gained w []) g
  open_named-Gained w w' creat (resolved dir name) (g, o) =
      let name' = slash_to_dot f dir name in
      Ends->>= (lookup f dir name') _ w' (Looked w (dir ∷ []) dir) (Gained w [])
        (lookup-Looked w w' (dir ∷ []) dir name' g)
        λ r w'' q. open_result-Gained w w'' creat dir name' r o q.0

  -- `open_namev` of a path that fits the buffer of `dir_namev` ends. On success the caller has gained
  -- one reference, to the vnode that is found or created; on every error it has gained none.
  pub open_namev_lem :
      (w : World) (path : Name) (creat : Bool)
      → IsWorld w
      → length path < f.max_path
      → Ends (open_namev f path creat) w (Gained w [])
  unfolding open_namev
  open_namev_lem w path creat v h =
      Ends->>= (dir_namev f path) (open_named f creat) w (Resolved w) (Gained w [])
        (dir_namev_lem w path v h) λ r w'. open_named-Gained w w' creat r
