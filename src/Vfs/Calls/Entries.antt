-- ===== src/Vfs/Calls/Entries.antt =====
-- The calls that make, remove and read directory entries.
use csci_402_operating_syste.Prelude.{ℕ, ◌-◌, ◌<◌, refl, Bool, [], ◌∷◌, ◌&&◌, length, ltb, leb}
use csci_402_operating_syste.Vfs.Action.{World, Ends, Ends-pure, Ends->>=, Ends-if}
use csci_402_operating_syste.Vfs.Vnode.{negb}
use csci_402_operating_syste.Vfs.Vnode.Active.{IsWorld}
use csci_402_operating_syste.Vfs.Vnode.Gains.{Gains, Gains-refl, Gains-trans, Gains-swap}
use csci_402_operating_syste.Vfs.Fs.{
  Fs, IsFs, Name, einval, enametoolong, eexist, eisdir, enotempty, efault, error, value, mknod_op,
  mkdir_op, rmdir_op, unlink_op, stat_op,
}
use csci_402_operating_syste.Vfs.Namev.{fs_step}
use csci_402_operating_syste.Vfs.Namev.Refs.{Ends-step}
use csci_402_operating_syste.Vfs.Calls.{
  put_return, mknod_new, mknod_at, do_mknod, mkdir_new, mkdir_at, do_mkdir, is_dot_name, is_dot_dot,
  rmdir_at, do_rmdir, unlink_found, unlink_at, do_unlink, stat_found, do_stat,
}
use csci_402_operating_syste.Vfs.Calls.Rules.{
  Balanced, put_one, put_two, Ends-operation, Ends-path, Ends-lookup, Ends-open, Ends-is_directory,
}

module _ (f : Fs) (i : IsFs f) where
  mknod_lem :
      (w : World) (path : Name) (mode devid : ℕ)
      → IsWorld w
      → length path < f.max_path
      → Ends (do_mknod f path mode devid) w (Balanced w)
  unfolding do_mknod mknod_at mknod_new
  mknod_lem w path mode devid v h =
      Ends-if (negb (f.is_blk mode) && negb (f.is_chr mode)) _ _ w (Balanced w)
        (λ t. Ends-pure (error einval) w (Balanced w) (Gains-refl w v))
        λ t.
          Ends-path f i w path (mknod_at f mode devid) v h (λ e. refl)
            λ dir name w' o g.
              Ends-if (ltb (f.name_len - 1) (length name)) _ _ w' (Balanced w)
                (λ u. put_one w w' dir (error enametoolong) g)
                λ u.
                  Ends-lookup f i w w' (dir ∷ []) dir name (mknod_new f mode devid dir name) g
                    (λ e x q.
                      Ends-operation w x (dir ∷ []) (f.has mknod_op dir)
                        (f.mknod dir name mode devid) (put_return dir) (i.dir_has dir mknod_op o) q
                        (i.mknod_gains dir name mode devid x q.world) (λ r y. put_one w y dir r))
                    λ n x q. put_two w x dir n (error eexist) (Gains-swap w x n dir [] q)

  mkdir_lem :
      (w : World) (path : Name)
      → IsWorld w
      → length path < f.max_path
      → Ends (do_mkdir f path) w (Balanced w)
  unfolding do_mkdir mkdir_at mkdir_new
  mkdir_lem w path v h =
      Ends-path f i w path (mkdir_at f) v h (λ e. refl)
        λ dir name w' o g.
          Ends-if (leb f.name_len (length name)) _ _ w' (Balanced w)
            (λ u. put_one w w' dir (error enametoolong) g)
            λ u.
              Ends-lookup f i w w' (dir ∷ []) dir name (mkdir_new f dir name) g
                (λ e x q.
                  Ends-operation w x (dir ∷ []) (f.has mkdir_op dir) (f.mkdir dir name)
                    (put_return dir) (i.dir_has dir mkdir_op o) q (i.mkdir_gains dir name x q.world)
                    (λ r y. put_one w y dir r))
                λ n x q. put_two w x dir n (error eexist) (Gains-swap w x n dir [] q)

  rmdir_lem :
      (w : World) (path : Name)
      → IsWorld w
      → length path < f.max_path
      → Ends (do_rmdir f path) w (Balanced w)
  unfolding do_rmdir rmdir_at
  rmdir_lem w path v h =
      Ends-path f i w path (rmdir_at f) v h (λ e. refl)
        λ dir name w' o g.
          Ends-if (leb f.name_len (length name)) _ _ w' (Balanced w)
            (λ u. put_one w w' dir (error enametoolong) g)
            λ u.
              Ends-if (is_dot_name name) _ _ w' (Balanced w)
                (λ t. put_one w w' dir (error einval) g)
                λ t.
                  Ends-if (is_dot_dot name) _ _ w' (Balanced w)
                    (λ s. put_one w w' dir (error enotempty) g)
                    λ s.
                      Ends-operation w w' (dir ∷ []) (f.has rmdir_op dir) (f.rmdir dir name)
                        (put_return dir) (i.dir_has dir rmdir_op o) g
                        (i.rmdir_gains dir name w' g.world) (λ r y. put_one w y dir r)

  unlink_lem :
      (w : World) (path : Name)
      → IsWorld w
      → length path < f.max_path
      → Ends (do_unlink f path) w (Balanced w)
  unfolding do_unlink unlink_at unlink_found
  unlink_lem w path v h =
      Ends-path f i w path (unlink_at f) v h (λ e. refl)
        λ dir name w' o g.
          Ends-if (ltb (f.name_len - 1) (length name)) _ _ w' (Balanced w)
            (λ u. put_one w w' dir (error enametoolong) g)
            λ u.
              Ends-lookup f i w w' (dir ∷ []) dir name (unlink_found f dir name) g
                (λ e x q. put_one w x dir (error e) q)
                λ n x q. Ends-is_directory f x n _ (Balanced w) λ b.
                  Ends-if b _ _ x (Balanced w)
                    (λ t. put_two w x dir n (error eisdir) (Gains-swap w x n dir [] q))
                    λ t.
                      Ends-operation w x (dir ∷ n ∷ []) (f.has unlink_op dir) (f.unlink dir name) _
                        (i.dir_has dir unlink_op o) (Gains-swap w x n dir [] q)
                        (i.unlink_gains dir name x q.world) (λ r y. put_two w y dir n r)

  stat_lem :
      (w : World) (path : Name) (buf : Bool)
      → IsWorld w
      → length path < f.max_path
      → Ends (do_stat f path buf) w (Balanced w)
  unfolding do_stat stat_found
  stat_lem w path buf v h =
      Ends-if (ltb f.max_path (length path)) _ _ w (Balanced w)
        (λ t. Ends-pure (error enametoolong) w (Balanced w) (Gains-refl w v))
        λ t.
          Ends-if (negb buf) _ _ w (Balanced w)
            (λ u. Ends-pure (error efault) w (Balanced w) (Gains-refl w v))
            λ u.
              Ends-open f i w path (stat_found f) v h (λ e. refl)
                λ n w' g.
                  Ends-if (f.has stat_op n) _ _ w' (Balanced w)
                    (λ y.
                      Ends->>= (fs_step (f.stat n)) (put_return n) w' (λ _ x. Gains w (n ∷ []) x)
                        (Balanced w)
                        (Ends-step (f.stat n) w' (λ _ x. Gains w (n ∷ []) x)
                          (Gains-trans w w' (f.stat n w').1 (n ∷ []) [] g
                            (i.stat_gains n w' g.world)))
                        λ r x. put_one w x n r)
                    λ y. put_one w w' n (value 0) g

  -- `do_mknod`, `do_mkdir`, `do_rmdir`, `do_unlink` and `do_stat`, for a path that fits the buffer of
  -- `dir_namev`, pass their assertions and end, and on every path through them, errors included, each
  -- has given back the references to vnodes that it took, and no others.
  pub entries_lem :
      (w : World) (path : Name)
      → IsWorld w
      → length path < f.max_path
      → ((mode devid : ℕ) → Ends (do_mknod f path mode devid) w (Balanced w))
        × Ends (do_mkdir f path) w (Balanced w)
        × Ends (do_rmdir f path) w (Balanced w)
        × Ends (do_unlink f path) w (Balanced w)
        × ((buf : Bool) → Ends (do_stat f path buf) w (Balanced w))
  entries_lem w path v h = (
    λ mode devid. mknod_lem w path mode devid v h,
    mkdir_lem w path v h,
    rmdir_lem w path v h,
    unlink_lem w path v h,
    λ buf. stat_lem w path buf v h,
  )
