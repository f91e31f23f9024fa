-- ===== src/Vfs/Calls/Links.antt =====
-- The calls that link, rename and change the working directory.
use csci_402_operating_syste.Prelude.{
  ℕ, zero, suc, ◌≡◌, ◌<◌, ◌⊎◌, inl, inr, refl, true, false, [], ◌∷◌, ◌||◌, length, ltb,
}
use csci_402_operating_syste.Vfs.Action.{World, Ends, Ends-pure, Ends->>=, Ends-if, Ends-weaken}
use csci_402_operating_syste.Vfs.Vnode.Active.{IsWorld}
use csci_402_operating_syste.Vfs.Vnode.Gains.{Gains, Gains-refl, Gains-trans, Gains-swap}
use csci_402_operating_syste.Vfs.Vnode.Rules.{Ends-vput, Ends-vput_pure}
use csci_402_operating_syste.Vfs.Fs.{
  Fs, IsFs, Name, enametoolong, eexist, eisdir, Ret, error, value, Found, missing, found, lookup_op,
  link_op,
}
use csci_402_operating_syste.Vfs.Namev.{lookup, Named, unresolved, resolved, dir_namev, open_namev}
use csci_402_operating_syste.Vfs.Namev.Refs.{
  Gained, Looked, Resolved, lookup-Looked, dir_namev_lem, open_namev_lem,
}
use csci_402_operating_syste.Vfs.Calls.{
  link_new, link_at, link_file, do_link, rename_then, do_rename, do_unlink,
}
use csci_402_operating_syste.Vfs.Calls.Rules.{Balanced, put_two, Ends-operation, Ends-is_directory}
use csci_402_operating_syste.Vfs.Calls.Entries.{entries_lem}

-- What a link ends with: references in balance, or -EEXIST and one reference to the new name's
-- directory that nobody gives back.
abbrev pub Linked : World → Ret → World → Type 0
Linked w r w' = Gains w [] w' ⊎ ((r ≡ error eexist) × ((dir : ℕ) × Gains w (dir ∷ []) w'))

module _ (f : Fs) (i : IsFs f) where
  -- In `do_link`, when the new name exists: -EEXIST, and the reference to its directory stays.
  link_new_leak :
      (w w' : World) (file dir v : ℕ) (name : Name)
      → Gains w (v ∷ dir ∷ file ∷ []) w'
      → Ends
          (link_new f file dir name (found v))
          w'
          (λ r x. (r ≡ error eexist) × Gains w (dir ∷ []) x)
  unfolding link_new
  link_new_leak w w' file dir v name g =
      let Q = λ (r : Ret) (x : World). (r ≡ error eexist) × Gains w (dir ∷ []) x in
      Ends-vput w w' v (dir ∷ file ∷ []) Q _ g λ x h.
        Ends-vput_pure w x file (dir ∷ []) Q (error eexist) (Gains-swap w x dir file [] h)
          λ y q. (refl, q)

  link_new-Linked :
      (w w' : World) (file dir : ℕ) (name : Name) (r : Found)
      → f.has lookup_op dir ≡ true
      → Gained w (dir ∷ file ∷ []) r w'
      → Ends (link_new f file dir name r) w' (Linked w)
  unfolding link_new
  link_new-Linked w w' file dir name (found v) o g =
      Ends-weaken (link_new f file dir name (found v)) w'
        (λ r x. (r ≡ error eexist) × Gains w (dir ∷ []) x) (Linked w)
        (link_new_leak w w' file dir v name g) λ r x q. inr (q.0, (dir, q.1))
  link_new-Linked w w' file dir name (missing e) o g =
      Ends-weaken (link_new f file dir name (missing e)) w' (Balanced w) (Linked w)
        (Ends-operation w w' (file ∷ dir ∷ []) (f.has link_op dir) (f.link file dir name) _
          (i.dir_has dir link_op o) (Gains-swap w w' dir file [] g)
          (i.link_gains file dir name w' g.world) (λ r y. put_two w y file dir r))
        λ r x q. inl q

  link_at-Linked :
      (w w' : World) (file : ℕ) (r : Named)
      → Gains w (file ∷ []) w'
      → (x : World) → Resolved f i w' r x
      → Ends (link_at f file r) x (Linked w)
  unfolding link_at
  link_at-Linked w w' file (unresolved e) g x h =
      Ends-vput_pure w x file [] (Linked w) (error e) (Gains-trans w w' x (file ∷ []) [] g h)
        λ y q. inl q
  link_at-Linked w w' file (resolved dir name) g x (h, o) =
      Ends->>= (lookup f dir name) (link_new f file dir name) x (Looked f i w (dir ∷ file ∷ []) dir)
        (Linked w)
        (lookup-Looked f i w x (dir ∷ file ∷ []) dir name
          (Gains-trans w w' x (file ∷ []) (dir ∷ []) g h))
        λ r y q. link_new-Linked w y file dir name r o q.0

  link_file-Linked :
      (w w' : World) (to : Name) (r : Found)
      → length to < f.max_path
      → Gained w [] r w'
      → Ends (link_file f to r) w' (Linked w)
  unfolding link_file
  link_file-Linked w w' to (missing e) h g = Ends-pure (error e) w' (Linked w) (inl g)
  link_file-Linked w w' to (found v) h g = Ends-is_directory f w' v _ (Linked w) λ b.
      Ends-if b _ _ w' (Linked w)
        (λ t. Ends-vput_pure w w' v [] (Linked w) (error eisdir) g λ y q. inl q)
        λ t.
          Ends->>= (dir_namev f to) (link_at f v) w' (Resolved f i w') (Linked w)
            (dir_namev_lem f i w' to g.world h) λ r x. link_at-Linked w w' v r g x

  do_link-Linked :
      (w : World) (from to : Name)
      → IsWorld w
      → length from < f.max_path
      → length to < f.max_path
      → Ends (do_link f from to) w (Linked w)
  unfolding do_link
  do_link-Linked w from to v h k =
      Ends-if (ltb f.max_path (length to) || ltb f.max_path (length from)) _ _ w (Linked w)
        (λ t. Ends-pure (error enametoolong) w (Linked w) (inl (Gains-refl w v)))
        λ t.
          Ends->>= (open_namev f from false) (link_file f to) w (Gained w []) (Linked w)
            (open_namev_lem f i w from false v h) λ r w'. link_file-Linked w w' to r k

  rename_then-Linked :
      (w w' : World) (old : Name) (r : Ret)
      → length old < f.max_path
      → Linked w r w'
      → Ends (rename_then f old r) w' (Linked w)
  unfolding rename_then
  rename_then-Linked w w' old (error e) h q = Ends-pure (error e) w' (Linked w) q
  rename_then-Linked w w' old (value (suc n)) h (inl g) =
      Ends-pure (value (suc n)) w' (Linked w) (inl g)
  rename_then-Linked w w' old (value (suc n)) h (inr (e, q)) = cc
  rename_then-Linked w w' old (value zero) h (inr (e, q)) = cc
  rename_then-Linked w w' old (value zero) h (inl g) =
      Ends-weaken (do_unlink f old) w' (Balanced w') (Linked w) (entries_lem f i w' old g.world h).3
        λ r x q. inl (Gains-trans w w' x [] [] g q)

  -- `do_link` and `do_rename` of paths that fit the buffer of `dir_namev` pass their assertions and
  -- end. They have given back every reference that they took, or they return -EEXIST and have kept one
  -- to a vnode. That is what `do_link` does whenever the new name exists: it keeps the reference to
  -- the directory.
  pub links_lem :
      (w : World) (from to : Name)
      → IsWorld w
      → length from < f.max_path
      → length to < f.max_path
      → Ends (do_link f from to) w (Linked w)
        × Ends (do_rename f from to) w (Linked w)
        × ((w' : World) (file dir v : ℕ) (name : Name)
            → Gains w (v ∷ dir ∷ file ∷ []) w'
            → Ends
                (link_new f file dir name (found v))
                w'
                (λ r x. (r ≡ error eexist) × Gains w (dir ∷ []) x))
  unfolding do_rename
  links_lem w from to v h k = (
    do_link-Linked w from to v h k,
    Ends->>= (do_link f from to) (rename_then f from) w (Linked w) (Linked w)
        (do_link-Linked w from to v h k) λ r w' q. rename_then-Linked w w' from r h q,
    λ w' file dir v' name. link_new_leak w w' file dir v' name,
  )
