-- ===== src/Vfs/Examples.antt =====
-- A file system with a root directory 0 that has one file, 1, of the name "a": tests of the calls,
-- and the theorems at it.
use csci_402_operating_syste.Prelude.{
  ℕ, ◌+◌, ◌<◌, ◌≡◌, ◌≢◌, inl, inr, refl, Option, none, some, Bool, true, false, [], ◌∷◌, ◌==◌,
  arith, length, Bool-cases, if◌then◌else◌,
}
use csci_402_operating_syste.Prelude.Run.{Run, ok, panic}
use csci_402_operating_syste.Vfs.Action.{World, ◌>>◌, Ends}
use csci_402_operating_syste.Vfs.Vnode.{set_vnode, vget, vput, vref, uncache, drop_one, free_pages}
use csci_402_operating_syste.Vfs.Vnode.Active.{
  IsWorld, active, gotten, gotten-IsVnode, gotten-active,
}
use csci_402_operating_syste.Vfs.Vnode.Gains.{Gains, Gains-refl, gain_one}
use csci_402_operating_syste.Vfs.Vnode.Lifetime.{vput_lem, vget-vput_lem}
use csci_402_operating_syste.Vfs.Fs.{
  Fs, IsFs, Name, enoent, eexist, Ret, error, value, Found, missing, found, with_result,
}
use csci_402_operating_syste.Vfs.Namev.{
  dir_namev, open_namev, start, walk_from, walk, split_path, cons_first, lookup, last_name, descend,
  open_named, open_result,
}
use csci_402_operating_syste.Vfs.Namev.Refs.{Gained, Resolved, dir_namev_lem, open_namev_lem}
use csci_402_operating_syste.Vfs.Calls.{
  mkdir_at, mkdir_new, link_file, link_at, is_directory, do_mknod, do_mkdir, do_rmdir, do_unlink,
  do_stat, do_link, do_rename, link_new, do_chdir,
}
use csci_402_operating_syste.Vfs.Calls.Rules.{Balanced}
use csci_402_operating_syste.Vfs.Calls.Entries.{entries_lem}
use csci_402_operating_syste.Vfs.Calls.Links.{Linked, links_lem}
use csci_402_operating_syste.Vfs.Calls.Chdir.{Chdir, destination, do_chdir_lem}

-- Mode 1 is a directory, mode 2 a file.
abbrev modes : ℕ → ℕ × Bool
modes v = (if v == 0 then 1 else 2, true)

abbrev is_a : Name → Bool
is_a [] = false
is_a (c ∷ []) = c == 97
is_a (c ∷ d ∷ cs) = false

abbrev take_one : World → Found × World
take_one w = (found 1, set_vnode w 1 (gotten (modes 1) (w.vnodes 1)))

abbrev small_lookup : ℕ → Name → World → Found × World
small_lookup v n w = if is_a n then take_one w else (missing enoent, w)

abbrev small : Fs
small = record {
  root = 0;
  name_len = 28;
  max_path = 1024;
  is_dir = λ m. m == 1;
  is_blk = λ m. m == 3;
  is_chr = λ m. m == 4;
  has = λ op v. v == 0;
  read_vnode = modes;
  lookup = small_lookup;
  create = λ v n w. (missing enoent, w);
  mknod = λ v n mode devid w. (value 0, w);
  mkdir = λ v n w. (value 0, w);
  rmdir = λ v n w. (value 0, w);
  unlink = λ v n w. (value 0, w);
  link = λ u v n w. (value 0, w);
  stat = λ v w. (value 0, w);
}

pick-Gains :
    (b : Bool) (w : World)
    → IsWorld w
    → Gains w
        (with_result (if b then take_one w else (missing enoent, w)).0)
        (if b then take_one w else (missing enoent, w)).1
pick-Gains true w i =
    gain_one w w 1 [] _ (Gains-refl w i) (gotten-IsVnode (modes 1) (w.vnodes 1) (i 1))
      (gotten-active (modes 1) (w.vnodes 1) (i 1))
pick-Gains false w i = Gains-refl w i

small_lookup-Gains :
    (v : ℕ) (n : Name) (w : World)
    → IsWorld w
    → Gains w (with_result (small_lookup v n w).0) (small_lookup v n w).1
small_lookup-Gains v n w i = pick-Gains (is_a n) w i

small-IsFs : IsFs small
small-IsFs = record {
  root_lookup = refl;
  dir_has = λ v op e. e;
  lookup_gains = small_lookup-Gains;
  create_gains = λ v n w i. Gains-refl w i;
  mknod_gains = λ v n mode devid w i. Gains-refl w i;
  mkdir_gains = λ v n w i. Gains-refl w i;
  rmdir_gains = λ v n w i. Gains-refl w i;
  unlink_gains = λ v n w i. Gains-refl w i;
  link_gains = λ u v n w i. Gains-refl w i;
  stat_gains = λ v w i. Gains-refl w i;
}

-- The root is the working directory; the file has a cached page and one open reference.
abbrev booted : World
booted = record {
  vnodes = λ v.
      if v == 0
      then record {
        vn_refcount = 2;
        vn_nrespages = 0;
        vn_mode = 1;
        vn_inuse = true;
        vn_linked = true;
      }
      else if v == 1
      then record {
        vn_refcount = 2;
        vn_nrespages = 1;
        vn_mode = 2;
        vn_inuse = true;
        vn_linked = true;
      }
      else record {
        vn_refcount = 0;
        vn_nrespages = 0;
        vn_mode = 0;
        vn_inuse = false;
        vn_linked = false;
      };
  p_cwd = 0;
}

booted-IsWorld : IsWorld booted
booted-IsWorld v = elim (Bool-cases (v == 0)) [
  | inl e ↦ rw e (record { pages = omega arith; listed = refl })
  | inr e ↦ elim (Bool-cases (v == 1)) [
    | inl k ↦ rw (e, k) (record { pages = omega arith; listed = refl })
    | inr k ↦ rw (e, k) (record { pages = omega arith; listed = refl })
  ]
]

abbrev a_path : Name
a_path = 47 ∷ 97 ∷ []

abbrev outcome : Run (Ret × World) → ℕ → Option (Ret × ℕ)
outcome (ok (r, w)) v = some (r, active (w.vnodes v))
outcome panic v = none

-- The root has as many active references after the call as before.
make_existing : outcome (do_mkdir small a_path booted) 0 ≡ some (error eexist, 2)
unfolding do_mkdir mkdir_at mkdir_new dir_namev start walk_from walk split_path cons_first lookup
    last_name descend vget vref vput uncache drop_one free_pages
make_existing = refl

-- One reference to the root, the directory of the new name, is kept.
link_existing : outcome (do_link small a_path a_path booted) 0 ≡ some (error eexist, 3)
unfolding do_link link_file link_at link_new is_directory open_namev open_named open_result
    dir_namev start walk_from walk split_path cons_first lookup last_name descend vget vref vput
    uncache drop_one free_pages
link_existing = refl

a_path_fits : length a_path < 1024
a_path_fits = omega arith

cwd_active : 0 < active (booted.vnodes 0)
cwd_active = omega arith

dir_namev_lem_example : Ends (dir_namev small a_path) booted (Resolved small small-IsFs booted)
dir_namev_lem_example = dir_namev_lem small small-IsFs booted a_path booted-IsWorld a_path_fits

open_namev_lem_example : Ends (open_namev small a_path true) booted (Gained booted [])
open_namev_lem_example =
    open_namev_lem small small-IsFs booted a_path true booted-IsWorld a_path_fits

entries_lem_example :
    ((mode devid : ℕ) → Ends (do_mknod small a_path mode devid) booted (Balanced booted))
    × Ends (do_mkdir small a_path) booted (Balanced booted)
    × Ends (do_rmdir small a_path) booted (Balanced booted)
    × Ends (do_unlink small a_path) booted (Balanced booted)
    × ((buf : Bool) → Ends (do_stat small a_path buf) booted (Balanced booted))
entries_lem_example = entries_lem small small-IsFs booted a_path booted-IsWorld a_path_fits

links_lem_example :
    Ends (do_link small a_path a_path) booted (Linked booted)
    × Ends (do_rename small a_path a_path) booted (Linked booted)
    × ((w' : World) (file dir v : ℕ) (name : Name)
        → Gains booted (v ∷ dir ∷ file ∷ []) w'
        → Ends
            (link_new small file dir name (found v))
            w'
            (λ r x. (r ≡ error eexist) × Gains booted (dir ∷ []) x))
links_lem_example =
    links_lem small small-IsFs booted a_path a_path booted-IsWorld a_path_fits a_path_fits

-- The path `.`, which leads to the root.
abbrev dot : Name
dot = 46 ∷ []

dot_fits : length dot < 1024
dot_fits = omega arith

do_chdir_lem_example :
    Ends (do_chdir small dot) booted (Chdir booted (destination small dot booted))
do_chdir_lem_example = do_chdir_lem small small-IsFs booted dot booted-IsWorld cwd_active dot_fits

vput_lem_example : Ends (vput 1) booted (λ _ w'.
    IsWorld w'
    × (active (w'.vnodes 1) + 1 ≡ 1)
    × ((w'.vnodes 1).vn_inuse ≡ true)
    × ((u : ℕ) → u ≢ 1 → w'.vnodes u ≡ booted.vnodes u))
vput_lem_example = vput_lem booted 1 booted-IsWorld (omega arith)

vget-vput_lem_example :
    Ends (vget modes 1 >> vput 1) booted (λ _ w'. (u : ℕ) → w'.vnodes u ≡ booted.vnodes u)
vget-vput_lem_example = vget-vput_lem modes booted 1 booted-IsWorld refl (inl refl)
