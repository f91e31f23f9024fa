-- ===== src/Vfs/Vnode.antt =====
-- vm-submit/kernel/fs/vnode.c: references to vnodes.
pub mod Active
pub mod Gains
pub mod Rules
pub mod Lifetime
use csci_402_operating_syste.Prelude.{
  ℕ, zero, suc, ◌+◌, ◌-◌, Bool, true, false, ◌&&◌, ◌==◌, ltb, if◌then◌else◌,
}
use csci_402_operating_syste.Prelude.Run.{ok, panic}
use csci_402_operating_syste.Vfs.Action.{Vnode, World, Action, ◌>>=◌, ◌>>◌, pure, check}

abbrev pub negb : Bool → Bool
negb true = false
negb false = true

abbrev pub set_vnode : World → ℕ → Vnode → World
set_vnode w v x = record w { vnodes = λ u. if u == v then x else w.vnodes u }

abbrev pub store : ℕ → Vnode → Action (Unit {0})
store v x w = ok (tt, set_vnode w v x)

abbrev pub fetch : ℕ → Action Vnode
fetch v w = ok (w.vnodes v, w)

unfoldable pub vref : ℕ → Action (Unit {0})
vref v = do
  x ← fetch v
  check (ltb 0 x.vn_refcount)
  store v (record x { vn_refcount = x.vn_refcount + 1 })

-- `vget` of a vnode that no thread brings in or takes away. `read_vnode` gives the mode of a vnode
-- that is not in use, and whether it is linked.
unfoldable pub vget : (read_vnode : ℕ → ℕ × Bool) → ℕ → Action (Unit {0})
unfolding vref
vget read_vnode v = do
  x ← fetch v
  if x.vn_inuse
      then vref v
      else store v (record {
        vn_refcount = 1;
        vn_nrespages = 0;
        vn_mode = (read_vnode v).0;
        vn_inuse = true;
        vn_linked = (read_vnode v).1;
      })

-- The list iteration of `vput`: `pframe_free` of a page gives back the page's reference.
unfoldable pub free_pages : ℕ → Vnode → Vnode
free_pages zero x = x
free_pages (suc n) x =
    free_pages n (record x { vn_refcount = x.vn_refcount - 1; vn_nrespages = x.vn_nrespages - 1 })

-- The case in which no active reference is left and the file is not linked.
abbrev pub is_dead : Vnode → Bool
is_dead x = x.vn_nrespages == x.vn_refcount - 1 && negb x.vn_linked

-- The end of `vput`, where one reference goes and a vnode without references is freed.
unfoldable pub drop_one : ℕ → Vnode → Action (Unit {0})
drop_one v x =
    if ltb 0 (x.vn_refcount - 1)
    then store v (record x { vn_refcount = x.vn_refcount - 1 })
    else do check (x.vn_nrespages == 0); store v (record x { vn_refcount = 0; vn_inuse = false })

unfoldable pub uncache : ℕ → Vnode → Action (Unit {0})
unfolding drop_one
uncache v x = do check (x.vn_nrespages == 0); check (x.vn_refcount == 1); drop_one v x

unfoldable pub vput : ℕ → Action (Unit {0})
unfolding uncache free_pages
vput v = do
  x ← fetch v
  check (ltb x.vn_nrespages x.vn_refcount)
  if is_dead x then uncache v (free_pages x.vn_nrespages x) else drop_one v x
