-- ===== src/Vfs/Vnode/Active.antt =====
-- Active references, which are those that are not of a cached page.
use csci_402_operating_syste.Prelude.{
  ℕ, zero, suc, ◌+◌, ◌-◌, ◌≤◌, ◌<◌, ◌≡◌, inl, inr, sym, ap, subst, ◌∙◌, Bool, true, false, ◌==◌,
  arith, ltb, if◌then◌else◌, if_true, if_false, Bool-cases,
}
use csci_402_operating_syste.Prelude.Run.{ok}
use csci_402_operating_syste.Vfs.Action.{Vnode, World, Action, check-true}
use csci_402_operating_syste.Vfs.Vnode.{
  set_vnode, vref, vget, vput, free_pages, drop_one, uncache, is_dead,
}

abbrev pub active : Vnode → ℕ
active x = x.vn_refcount - x.vn_nrespages

-- Every cached page has a reference, and the vnode is on the list while it has any.
pub record IsVnode (x : Vnode) : Type 0 where
  pub pages : x.vn_nrespages ≤ x.vn_refcount
  pub listed : x.vn_inuse ≡ ltb 0 x.vn_refcount

abbrev pub IsWorld : World → Type 0
IsWorld w = (v : ℕ) → IsVnode (w.vnodes v)

free_pages_all :
    (n : ℕ) (x : Vnode)
    → free_pages n x
      ≡ record x { vn_refcount = x.vn_refcount - n; vn_nrespages = x.vn_nrespages - n }
unfolding free_pages
free_pages_all zero x = ground arith
free_pages_all (suc n) x =
    free_pages_all n
      (record x { vn_refcount = x.vn_refcount - 1; vn_nrespages = x.vn_nrespages - 1 })
    ∙ ground arith

-- The vnode after `vput`: one reference less, or gone.
abbrev pub freed : Vnode → Vnode
freed x = record x { vn_refcount = 0; vn_nrespages = 0; vn_inuse = false }

abbrev pub dropped : Vnode → Vnode
dropped x =
    if is_dead x
    then freed x
    else (if ltb 0 (x.vn_refcount - 1)
        then record x { vn_refcount = x.vn_refcount - 1 }
        else freed x)

drop_one-run :
    (v : ℕ) (x : Vnode) (w : World)
    → ltb x.vn_nrespages x.vn_refcount ≡ true
    → drop_one v x w
      ≡ ok (
        tt,
        set_vnode w v (
            if ltb 0 (x.vn_refcount - 1)
            then record x { vn_refcount = x.vn_refcount - 1 }
            else freed x),
      )
unfolding drop_one
drop_one-run v x w h = elim (Bool-cases (ltb 0 (x.vn_refcount - 1))) [
  | inl t ↦ rw t
  | inr t ↦
      let z : x.vn_nrespages ≡ 0 = ground arith in
      rw t (
        check-true (x.vn_nrespages == 0) _ w (ground (arith, z))
        ∙ ap
            (λ n. ok (
              tt,
              set_vnode w v (record x { vn_refcount = 0; vn_nrespages = n; vn_inuse = false }),
            ))
            z)
]

uncache-run :
    (v : ℕ) (x : Vnode) (w : World)
    → x.vn_refcount - x.vn_nrespages ≡ 1
    → x.vn_nrespages - x.vn_nrespages ≡ 0
    → uncache v (free_pages x.vn_nrespages x) w ≡ ok (tt, set_vnode w v (freed x))
unfolding uncache
uncache-run v x w one none =
    let y = record x {
      vn_refcount = x.vn_refcount - x.vn_nrespages;
      vn_nrespages = x.vn_nrespages - x.vn_nrespages;
    } in
    ap (λ z. uncache v z w) (free_pages_all x.vn_nrespages x)
    ∙ check-true (y.vn_nrespages == 0) _ w (ground (arith, none))
    ∙ check-true (y.vn_refcount == 1) (drop_one v y) w (ground (arith, one))
    ∙ drop_one-run v y w (ground (arith, one, none))
    ∙ ap (λ z. ok (tt, set_vnode w v z))
        (if_false (ltb 0 (y.vn_refcount - 1)) _ _ (ground (arith, one)))

pub vput-run :
    (v : ℕ) (w : World)
    → ltb (w.vnodes v).vn_nrespages (w.vnodes v).vn_refcount ≡ true
    → vput v w ≡ ok (tt, set_vnode w v (dropped (w.vnodes v)))
unfolding vput uncache
vput-run v w h = check-true _ _ w h ∙ elim (Bool-cases (is_dead (w.vnodes v))) [
  | inl t ↦ rw t (uncache-run v (w.vnodes v) w (ground arith) (ground arith))
  | inr t ↦ rw t (drop_one-run v (w.vnodes v) w h)
]

pub dropped-IsVnode : (x : Vnode) → IsVnode x → x.vn_nrespages < x.vn_refcount → IsVnode (dropped x)
dropped-IsVnode x i h = ground (arith, i.listed)

pub dropped-active :
    (x : Vnode) → x.vn_nrespages < x.vn_refcount → active (dropped x) + 1 ≡ active x
dropped-active x h = ground arith

-- The vnode after `vget`.
abbrev pub gotten : (ℕ × Bool) → Vnode → Vnode
gotten r x = if x.vn_inuse then record x { vn_refcount = x.vn_refcount + 1 } else record {
  vn_refcount = 1;
  vn_nrespages = 0;
  vn_mode = r.0;
  vn_inuse = true;
  vn_linked = r.1;
}

pub gotten-IsVnode : (r : ℕ × Bool) (x : Vnode) → IsVnode x → IsVnode (gotten r x)
gotten-IsVnode r x i = ground (arith, i.listed, i.pages)

pub gotten-active : (r : ℕ × Bool) (x : Vnode) → IsVnode x → active (gotten r x) ≡ active x + 1
gotten-active r x i = ground (arith, i.listed, i.pages)

-- A vnode that is written.
pub vnode_here :
    (w : World) (v u : ℕ) (x : Vnode) → (u == v) ≡ true → (set_vnode w v x).vnodes u ≡ x
vnode_here w v u x e = if_true _ _ _ e

pub vnode_other :
    (w : World) (v u : ℕ) (x : Vnode) → (u == v) ≡ false → (set_vnode w v x).vnodes u ≡ w.vnodes u
vnode_other w v u x e = if_false _ _ _ e

pub set_vnode-IsWorld :
    (w : World) (v : ℕ) (x : Vnode) → IsWorld w → IsVnode x → IsWorld (set_vnode w v x)
set_vnode-IsWorld w v x i k u = elim (Bool-cases (u == v)) [
  | inl e ↦ subst IsVnode (sym (vnode_here w v u x e)) k
  | inr e ↦ subst IsVnode (sym (vnode_other w v u x e)) (i u)
]

pub vget-run :
    (rd : ℕ → ℕ × Bool) (v : ℕ) (w : World)
    → IsVnode (w.vnodes v)
    → vget rd v w ≡ ok (tt, set_vnode w v (gotten (rd v) (w.vnodes v)))
unfolding vget vref
vget-run rd v w i = elim (Bool-cases (w.vnodes v).vn_inuse) [
  | inl t ↦
      ap (λ (a : Action (Unit {0})). a w) (if_true (w.vnodes v).vn_inuse _ _ t)
      ∙ check-true (ltb 0 (w.vnodes v).vn_refcount) _ w (sym i.listed ∙ t)
      ∙ ap (λ z. ok (tt, set_vnode w v z)) (sym (if_true (w.vnodes v).vn_inuse _ _ t))
  | inr t ↦ rw t
]
