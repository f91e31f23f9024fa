-- ===== src/Vfs/Calls/Chdir.antt =====
-- `do_chdir`: the reference of the working directory moves.
use csci_402_operating_syste.Prelude.{
  ℕ, ◌+◌, ◌≡◌, ◌<◌, refl, sym, subst, Bool, true, false, Option, none, some, if◌then◌else◌, ◌∙◌, ap,
  [], ◌∷◌, length, leb, arith,
}
use csci_402_operating_syste.Prelude.Run.{Run, ok, panic}
use csci_402_operating_syste.Vfs.Action.{
  World, Action, ◌>>=◌, ◌>>◌, pure, Ends, Ends-pure, Ends->>=, and_then,
}
use csci_402_operating_syste.Vfs.Vnode.{negb, vput}
use csci_402_operating_syste.Vfs.Vnode.Active.{IsWorld, active}
use csci_402_operating_syste.Vfs.Vnode.Gains.{
  refs_to, Gains, Gains-trans, Gains-swap, vput-Gains, without, without-active, Gains-without,
}
use csci_402_operating_syste.Vfs.Vnode.Rules.{Ends-vput, Ends-vput_pure}
use csci_402_operating_syste.Vfs.Fs.{
  Fs, IsFs, Name, Errno, enotdir, enametoolong, Ret, error, value, Found, missing, found,
}
use csci_402_operating_syste.Vfs.Namev.{lookup, Named, unresolved, resolved, dir_namev, cwd}
use csci_402_operating_syste.Vfs.Namev.Refs.{Gained, Resolved, lookup-Looked, dir_namev_lem}
use csci_402_operating_syste.Vfs.Calls.{set_cwd, is_directory, chdir_found, chdir_at, do_chdir}

-- The directory that the lookup of a name leads to, and the one that a path leads to.
abbrev named_dir : Fs → Run (Found × World) → Option ℕ
named_dir f panic = none
named_dir f (ok (missing e, x)) = none
named_dir f (ok (found v, x)) = if f.is_dir (x.vnodes v).vn_mode then some v else none

abbrev resolved_dir : Fs → Run (Named × World) → Option ℕ
resolved_dir f panic = none
resolved_dir f (ok (unresolved e, x)) = none
resolved_dir f (ok (resolved dir name, x)) =
    if leb f.name_len (length name) then none else named_dir f (lookup f dir name x)

abbrev pub destination : Fs → Name → World → Option ℕ
destination f path w = resolved_dir f (dir_namev f path w)

-- How `do_chdir` ends with 0: with the new working directory `v`, which has one more active reference,
-- where the old one has one less.
pub record Changed (w : World) (v : ℕ) (w' : World) : Type 0 where
  pub world : IsWorld w'
  pub new : w'.p_cwd ≡ v
  pub moved :
      (u : ℕ)
      → active (w'.vnodes u) + refs_to u (w.p_cwd ∷ [])
        ≡ active (w.vnodes u) + refs_to u (w'.p_cwd ∷ [])

-- An error where the path leads to no directory, with every reference given back, or 0.
abbrev pub Chdir : World → Option ℕ → Ret → World → Type 0
Chdir w none r w' = ((e : Errno) × (r ≡ error e)) × Gains w [] w'
Chdir w (some v) r w' = (r ≡ value 0) × Changed w v w'

-- The mode of the vnode decides.
Ends-is_dir :
    (f : Fs) (w : World) (v : ℕ) (k : Bool → Action Ret) (Q : Ret → World → Type 0)
    → Ends (k (f.is_dir (w.vnodes v).vn_mode)) w Q
    → Ends (is_directory f v >>= k) w Q
unfolding is_directory Ends
Ends-is_dir f w v k Q c = c

-- What holds of an action holds with its result.
Ends-known :
    {A : Type 0}
    → (m : Action A) (w : World) (Q : A → World → Type 0) → Ends m w Q
    → Ends m w (λ r w'. (m w ≡ ok (r, w')) × Q r w')
unfolding Ends
Ends-known m w Q (a, w', e, q) = (a, w', e, (e, q))

abbrev by_mode_of : (dir v : ℕ) → Bool → Action Ret
by_mode_of dir v b =
    if negb b
    then (vput dir >> (vput v >> pure (error enotdir)))
    else (vput dir >> (cwd >>= λ old. vput old >> (set_cwd v >> pure (value 0))))

module _ (f : Fs) (i : IsFs f) where
  -- From a world that holds the new directory: the old one is put, and the new one is set.
  switch-Changed :
      (w x : World) (v : ℕ)
      → 0 < active (w.vnodes w.p_cwd)
      → Gains w (v ∷ []) x
      → IsWorld w
      → Ends (cwd >>= (λ old. vput old >> (set_cwd v >> pure (value 0)))) x (Chdir w (some v))
  unfolding Ends
  switch-Changed w x v h g j =
      let old = w.p_cwd in
      let b = Gains-trans (without w old) w x (old ∷ []) (v ∷ []) (Gains-without w old j h) g in
      let (u, y, e, q) = vput-Gains (without w old) x old (v ∷ []) (Gains-swap _ x v old [] b) in
      (
        value 0,
        record y { p_cwd = v },
        ap (λ z. (vput z >> (set_cwd v >> pure (value 0))) x) g.cwd
            ∙ ap (λ z. and_then z (λ _. set_cwd v >> pure (value 0))) e,
        (
          refl,
          record {
            world = q.world;
            new = refl;
            moved = λ k. omega (arith, q.held k, without-active w old k h);
          },
        ),
      )

  chdir_found-Chdir :
      (w w' : World) (dir : ℕ) (r : Found)
      → IsWorld w
      → 0 < active (w.vnodes w.p_cwd)
      → Gained w (dir ∷ []) r w'
      → Ends (chdir_found f dir r) w' (Chdir w (named_dir f (ok (r, w'))))
  unfolding chdir_found
  chdir_found-Chdir w w' dir (missing e) j h g =
      Ends-vput_pure w w' dir [] (Chdir w none) (error e) g λ x q. ((e, refl), q)
  chdir_found-Chdir w w' dir (found v) j h g =
      Ends-is_dir f w' v (by_mode_of dir v) _ (by_mode (f.is_dir (w'.vnodes v).vn_mode))
    where
      swapped : Gains w (dir ∷ v ∷ []) w'
      swapped = Gains-swap w w' v dir [] g

      by_mode : (b : Bool) → Ends (by_mode_of dir v b) w' (Chdir w (if b then some v else none))
      by_mode false = Ends-vput w w' dir (v ∷ []) (Chdir w none) _ swapped λ x q.
          Ends-vput_pure w x v [] (Chdir w none) (error enotdir) q λ y o. ((enotdir, refl), o)
      by_mode true =
          Ends-vput w w' dir (v ∷ []) (Chdir w (some v)) _ swapped λ x q. switch-Changed w x v h q j

  chdir_at-Chdir :
      (w w' : World) (r : Named)
      → IsWorld w
      → 0 < active (w.vnodes w.p_cwd)
      → Resolved f i w r w'
      → Ends (chdir_at f r) w' (Chdir w (resolved_dir f (ok (r, w'))))
  unfolding chdir_at
  chdir_at-Chdir w w' (unresolved e) j h g = Ends-pure (error e) w' (Chdir w none) ((e, refl), g)
  chdir_at-Chdir w w' (resolved dir name) j h (g, o) = by_length (leb f.name_len (length name))
    where
      by_length :
          (b : Bool)
          → Ends
              (if b
                then (vput dir >> pure (error enametoolong))
                else (lookup f dir name >>= chdir_found f dir))
              w'
              (Chdir w (if b then none else named_dir f (lookup f dir name w')))
      by_length true =
          Ends-vput_pure w w' dir [] (Chdir w none) (error enametoolong) g
            λ x q. ((enametoolong, refl), q)
      by_length false =
          Ends->>= (lookup f dir name) (chdir_found f dir) w' _ _
            (Ends-known _ w' _ (lookup-Looked f i w w' (dir ∷ []) dir name g))
            λ r x (e, q).
              subst (λ z. Ends (chdir_found f dir r) x (Chdir w (named_dir f z))) (sym e)
                (chdir_found-Chdir w x dir r j h q.0)

  -- `do_chdir` of a path that fits the buffer of `dir_namev`, by a process that has a reference to its
  -- working directory, passes its assertions and ends. If the path leads to no directory it returns an
  -- error, and the working directory and the references are as before. Otherwise it returns 0, the
  -- working directory is the directory that the path leads to, and the reference has moved to it from the
  -- old one.
  pub do_chdir_lem :
      (w : World) (path : Name)
      → IsWorld w
      → 0 < active (w.vnodes w.p_cwd)
      → length path < f.max_path
      → Ends (do_chdir f path) w (Chdir w (destination f path w))
  unfolding do_chdir
  do_chdir_lem w path j h k =
      Ends->>= (dir_namev f path) (chdir_at f) w _ _
        (Ends-known _ w _ (dir_namev_lem f i w path j k))
        λ r w' (e, q).
          subst (λ z. Ends (chdir_at f r) w' (Chdir w (resolved_dir f z))) (sym e)
            (chdir_at-Chdir w w' r j h q)
