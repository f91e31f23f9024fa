-- ===== src/Vfs/Calls/Rules.antt =====
-- How the calls are put together: a path, a lookup, an operation, and references given back.
use csci_402_operating_syste.Prelude.{ℕ, ◌≡◌, ◌<◌, Bool, true, false, List, [], ◌∷◌, length}
use csci_402_operating_syste.Vfs.Action.{
  World, Action, ◌>>=◌, ◌>>◌, pure, check, Ends, Ends-pure, Ends->>=, Ends-check,
}
use csci_402_operating_syste.Vfs.Vnode.{vput}
use csci_402_operating_syste.Vfs.Vnode.Active.{IsWorld}
use csci_402_operating_syste.Vfs.Vnode.Gains.{Gains, Gains-trans}
use csci_402_operating_syste.Vfs.Vnode.Rules.{Ends-vput, Ends-vput_pure}
use csci_402_operating_syste.Vfs.Fs.{
  Fs, IsFs, Name, Errno, Ret, error, Found, missing, found, lookup_op,
}
use csci_402_operating_syste.Vfs.Namev.{
  fs_step, lookup, Named, unresolved, resolved, dir_namev, open_namev,
}
use csci_402_operating_syste.Vfs.Namev.Refs.{
  Gained, Looked, Resolved, Ends-step, lookup-Looked, dir_namev_lem, open_namev_lem,
}
use csci_402_operating_syste.Vfs.Calls.{is_directory}

-- The call has given back every reference that it took, and left the working directory.
abbrev pub Balanced : World → Ret → World → Type 0
Balanced w r w' = Gains w [] w'

-- Giving one or two references back at the end.
pub put_one :
    (w w' : World) (u : ℕ) (r : Ret) → Gains w (u ∷ []) w' → Ends (vput u >> pure r) w' (Balanced w)
put_one w w' u r g = Ends-vput_pure w w' u [] (Balanced w) r g (λ x q. q)

pub put_two :
    (w w' : World) (u v : ℕ) (r : Ret)
    → Gains w (u ∷ v ∷ []) w'
    → Ends (vput u >> (vput v >> pure r)) w' (Balanced w)
put_two w w' u v r g = Ends-vput w w' u (v ∷ []) (Balanced w) _ g (λ w'' h. put_one w w'' v r h)

-- A file system's operation on an entry, then giving references back.
pub Ends-operation :
    (w w' : World) (us : List ℕ) (has : Bool) (step : World → Ret × World) (k : Ret → Action Ret)
    → has ≡ true
    → Gains w us w'
    → Gains w' [] (step w').1
    → ((r : Ret) (w'' : World) → Gains w us w'' → Ends (k r) w'' (Balanced w))
    → Ends (check has >> (fs_step step >>= k)) w' (Balanced w)
Ends-operation w w' us has step k e g h c = Ends-check has _ w' (Balanced w) e (
    Ends->>= (fs_step step) k w' (λ _ x. Gains w us x) (Balanced w)
      (Ends-step step w' (λ _ x. Gains w us x) (Gains-trans w w' (step w').1 us [] g h)) c)

module _ (f : Fs) (i : IsFs f) where
  -- A call that resolves a path, refuses a long name, and goes on.
  pub Ends-path :
      (w : World) (path : Name) (k : Named → Action Ret)
      → IsWorld w
      → length path < f.max_path
      → ((e : Errno) → k (unresolved e) ≡ pure (error e))
      → ((dir : ℕ) (name : Name) (w' : World)
          → f.has lookup_op dir ≡ true
          → Gains w (dir ∷ []) w'
          → Ends (k (resolved dir name)) w' (Balanced w))
      → Ends (dir_namev f path >>= k) w (Balanced w)
  Ends-path w path k v h q c =
      Ends->>= (dir_namev f path) k w (Resolved f i w) (Balanced w) (dir_namev_lem f i w path v h)
        λ r. elim r as (λ x. (w' : World) → Resolved f i w x w' → Ends (k x) w' (Balanced w)) [
          | unresolved e ↦ λ w' g. rw (q e) (Ends-pure (error e) w' (Balanced w) g)
          | resolved dir name ↦ λ w' (g, o). c dir name w' o g
        ]

  -- A lookup in a directory that the caller holds, and how the call goes on.
  pub Ends-lookup :
      (w w' : World) (us : List ℕ) (dir : ℕ) (name : Name) (k : Found → Action Ret)
      → Gains w us w'
      → ((e : Errno) (x : World) → Gains w us x → Ends (k (missing e)) x (Balanced w))
      → ((v : ℕ) (x : World) → Gains w (v ∷ us) x → Ends (k (found v)) x (Balanced w))
      → Ends (lookup f dir name >>= k) w' (Balanced w)
  Ends-lookup w w' us dir name k g c d =
      Ends->>= (lookup f dir name) k w' (Looked f i w us dir) (Balanced w)
        (lookup-Looked f i w w' us dir name g)
        λ r. elim r as (λ y. (x : World) → Looked f i w us dir y x → Ends (k y) x (Balanced w)) [
          | missing e ↦ λ x q. c e x q.0
          | found v ↦ λ x q. d v x q.0
        ]

  -- A call that opens a path, and goes on with its vnode.
  pub Ends-open :
      (w : World) (path : Name) (k : Found → Action Ret)
      → IsWorld w
      → length path < f.max_path
      → ((e : Errno) → k (missing e) ≡ pure (error e))
      → ((v : ℕ) (w' : World) → Gains w (v ∷ []) w' → Ends (k (found v)) w' (Balanced w))
      → Ends (open_namev f path false >>= k) w (Balanced w)
  Ends-open w path k v h q c =
      Ends->>= (open_namev f path false) k w (Gained w []) (Balanced w)
        (open_namev_lem f i w path false v h)
        λ r. elim r as (λ y. (x : World) → Gained w [] y x → Ends (k y) x (Balanced w)) [
          | missing e ↦ λ x g. rw (q e) (Ends-pure (error e) x (Balanced w) g)
          | found n ↦ λ x g. c n x g
        ]

-- The mode of a vnode decides how the call goes on.
pub Ends-is_directory :
    (f : Fs) (w : World) (v : ℕ) (k : Bool → Action Ret) (Q : Ret → World → Type 0)
    → ((b : Bool) → Ends (k b) w Q)
    → Ends (is_directory f v >>= k) w Q
unfolding is_directory Ends
Ends-is_directory f w v k Q c = c (f.is_dir (w.vnodes v).vn_mode)
