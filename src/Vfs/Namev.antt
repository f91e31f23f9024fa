-- ===== src/Vfs/Namev.antt =====
-- vm-submit/kernel/fs/namev.c: from path names to vnodes.
pub mod Refs
use csci_402_operating_syste.Prelude.{
  ℕ, Bool, true, false, ◌&&◌, ◌||◌, List, [], ◌∷◌, ◌==◌, length, ltb, if◌then◌else◌,
}
use csci_402_operating_syste.Prelude.Run.{ok}
use csci_402_operating_syste.Vfs.Action.{World, Action, ◌>>=◌, ◌>>◌, pure, check}
use csci_402_operating_syste.Vfs.Vnode.{negb, vget, vput}
use csci_402_operating_syste.Vfs.Fs.{
  Fs, Name, Errno, enoent, enotdir, einval, enametoolong, Found, missing, found, lookup_op,
  create_op,
}

-- A step of a file system.
abbrev pub fs_step : {A : Type 0} → (World → A × World) → Action A
fs_step step w = ok (step w)

-- `!strncmp(".", name, len)`, of a name without zero characters that has `len` of them.
abbrev pub is_dot : Name → Bool
is_dot [] = true
is_dot (c ∷ []) = c == 46
is_dot (c ∷ d ∷ cs) = false

unfoldable pub lookup : Fs → ℕ → Name → Action Found
lookup f dir name =
    if negb (f.has lookup_op dir)
    then pure (missing enotdir)
    else if is_dot name
    then (do vget f.read_vnode dir; pure (found dir))
    else fs_step (f.lookup dir name)

-- The splitting of the path at each '/', the way the calls of `strchr` do it.
unfoldable pub cons_first : ℕ → Name × List Name → Name × List Name
cons_first c (n, ns) = (c ∷ n, ns)

unfoldable pub split_path : Name → Name × List Name
unfolding cons_first
split_path [] = ([], [])
split_path (c ∷ cs) = let (n, ns) = split_path cs in if c == 47 then ([], n ∷ ns) else (c ∷ n, ns)

-- The result of `dir_namev`: an error, or the directory and the last name.
pub data Named : Type 0 where
  unresolved : Errno → Named
  resolved : ℕ → Name → Named

abbrev pub is_enoent : Errno → Bool
is_enoent e = elim e [ enoent ↦ true | _ ↦ false ]

-- After the lookup of the last name: the file may be missing.
unfoldable pub last_name : ℕ → Name → Found → Action Named
last_name dir name (found v) = do vput v; pure (resolved dir name)
last_name dir name (missing e) =
    if is_enoent e then pure (resolved dir name) else do vput dir; pure (unresolved e)

-- After the lookup of a name with more to come: `rest` goes on from its vnode.
unfoldable pub descend :
    Fs → (dir : ℕ) → (next : Name) → (rest : ℕ → Action Named) → Found → Action Named
descend f dir next rest (missing e) = do vput dir; pure (unresolved e)
descend f dir next rest (found v) =
    if ltb f.name_len (length next)
    then (do vput v; vput dir; pure (unresolved enametoolong))
    else do vput dir; rest v

-- The loop of `dir_namev`: `dir` is `tempVnode`, `name` is `localPtr`, the list what is left.
unfoldable pub walk : Fs → (dir : ℕ) → (name : Name) → List Name → Action Named
unfolding lookup last_name descend
walk f dir name [] = do r ← lookup f dir name; last_name dir name r
walk f dir name (next ∷ rest) = do
  r ← lookup f dir name
  descend f dir next (λ v. walk f v next rest) r

-- `dir_namev` past the copy of the path: `base` is where a relative path starts.
unfoldable pub walk_from : Fs → ℕ → Name → Action Named
unfolding split_path walk
walk_from f dir path = do
  let (name, rest) = split_path path
  vget f.read_vnode dir
  if ltb f.name_len (length name)
      then (do vput dir; pure (unresolved enametoolong))
      else walk f dir name rest

unfoldable pub start : Fs → (base : ℕ) → Name → Action Named
unfolding walk_from
start f base [] = do vget f.read_vnode base; vput base; pure (unresolved einval)
start f base (c ∷ cs) = if negb (c == 47) then walk_from f base (c ∷ cs) else elim cs [
  | [] ↦ do vget f.read_vnode f.root; pure (resolved f.root (c ∷ []))
  | d ∷ ds ↦ walk_from f f.root (d ∷ ds)
]

abbrev pub cwd : Action ℕ
cwd w = ok (w.p_cwd, w)

-- `dir_namev` with no base. A path that does not fit into `localPathArr` is written past its end.
unfoldable pub dir_namev : Fs → Name → Action Named
unfolding start
dir_namev f path = do check (ltb (length path) f.max_path); base ← cwd; start f base path

-- The name that `open_namev` looks up.
abbrev pub slash_to_dot : Fs → ℕ → Name → Name
slash_to_dot f dir [] = []
slash_to_dot f dir (c ∷ []) = if c == 47 && dir == f.root then 46 ∷ [] else c ∷ []
slash_to_dot f dir (c ∷ d ∷ cs) = c ∷ d ∷ cs

-- After its lookup: a file that is missing may be created.
unfoldable pub open_result : Fs → (creat : Bool) → (dir : ℕ) → Name → Found → Action Found
open_result f creat dir name (found v) = do vput dir; pure (found v)
open_result f creat dir name (missing e) =
    if creat && is_enoent e
    then (do check (f.has create_op dir); r ← fs_step (f.create dir name); vput dir; pure r)
    else do vput dir; pure (missing e)

unfoldable pub open_named : Fs → Bool → Named → Action Found
unfolding open_result lookup
open_named f creat (unresolved e) = pure (missing e)
open_named f creat (resolved dir name) = do
  let name' = slash_to_dot f dir name
  r ← lookup f dir name'
  open_result f creat dir name' r

-- `creat` says whether O_CREAT is among the flags.
unfoldable pub open_namev : Fs → Name → (creat : Bool) → Action Found
unfolding dir_namev open_named
open_namev f path creat = do r ← dir_namev f path; open_named f creat r
