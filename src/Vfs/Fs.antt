-- ===== src/Vfs/Fs.antt =====
-- What name resolution takes from code outside of the repository: the file systems' operations, and
-- constants and macros of headers.
use csci_402_operating_syste.Prelude.{ℕ, ◌≡◌, Bool, true, List, [], ◌∷◌}
use csci_402_operating_syste.Vfs.Action.{World}
use csci_402_operating_syste.Vfs.Vnode.Active.{IsWorld}
use csci_402_operating_syste.Vfs.Vnode.Gains.{Gains}

-- A string, as the codes of its characters.
abbrev pub Name : Type 0
Name = List ℕ

pub data Errno : Type 0 where
  enoent enotdir einval enametoolong eexist eisdir enotempty efault : Errno
  other_errno : ℕ → Errno

-- An `int` result: a negated error number, or a number that is not negative.
pub data Ret : Type 0 where
  error : Errno → Ret
  value : ℕ → Ret

-- A result with a vnode.
pub data Found : Type 0 where
  missing : Errno → Found
  found : ℕ → Found

-- The entries of `vn_ops` that name resolution and the calls use.
pub data Op : Type 0 where
  lookup_op create_op mknod_op mkdir_op rmdir_op unlink_op link_op stat_op : Op

pub record Fs : Type 0 where
  -- `vfs_root_vn`, NAME_LEN, MAXPATHLEN, and the tests of a file's mode.
  pub root : ℕ
  pub name_len : ℕ
  pub max_path : ℕ
  pub is_dir : ℕ → Bool
  pub is_blk : ℕ → Bool
  pub is_chr : ℕ → Bool
  -- Whether the entry of a vnode's table is set.
  pub has : Op → ℕ → Bool
  -- What `read_vnode` finds: the mode of the file, and whether it is linked.
  pub read_vnode : ℕ → ℕ × Bool
  pub lookup : ℕ → Name → World → Found × World
  pub create : ℕ → Name → World → Found × World
  pub mknod : ℕ → Name → (mode devid : ℕ) → World → Ret × World
  pub mkdir : ℕ → Name → World → Ret × World
  pub rmdir : ℕ → Name → World → Ret × World
  pub unlink : ℕ → Name → World → Ret × World
  pub link : (file dir : ℕ) → Name → World → Ret × World
  pub stat : ℕ → World → Ret × World

-- The reference that comes with a result.
abbrev pub with_result : Found → List ℕ
with_result (missing e) = []
with_result (found v) = v ∷ []

-- What the operations promise: `lookup` and `create` take a reference to the vnode that they find,
-- the others keep the number of active references, and a vnode with `lookup` is a directory, which
-- has all the operations on entries.
pub record IsFs (f : Fs) : Type 0 where
  pub root_lookup : f.has lookup_op f.root ≡ true
  pub dir_has : (v : ℕ) (op : Op) → f.has lookup_op v ≡ true → f.has op v ≡ true
  pub lookup_gains :
      (v : ℕ) (n : Name) (w : World)
      → IsWorld w
      → Gains w (with_result (f.lookup v n w).0) (f.lookup v n w).1
  pub create_gains :
      (v : ℕ) (n : Name) (w : World)
      → IsWorld w
      → Gains w (with_result (f.create v n w).0) (f.create v n w).1
  pub mknod_gains :
      (v : ℕ) (n : Name) (mode devid : ℕ) (w : World)
      → IsWorld w
      → Gains w [] (f.mknod v n mode devid w).1
  pub mkdir_gains : (v : ℕ) (n : Name) (w : World) → IsWorld w → Gains w [] (f.mkdir v n w).1
  pub rmdir_gains : (v : ℕ) (n : Name) (w : World) → IsWorld w → Gains w [] (f.rmdir v n w).1
  pub unlink_gains : (v : ℕ) (n : Name) (w : World) → IsWorld w → Gains w [] (f.unlink v n w).1
  pub link_gains : (u v : ℕ) (n : Name) (w : World) → IsWorld w → Gains w [] (f.link u v n w).1
  pub stat_gains : (v : ℕ) (w : World) → IsWorld w → Gains w [] (f.stat v w).1
