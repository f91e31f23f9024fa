-- ===== src/Vfs/Vnode/Lifetime.antt =====
-- When a vnode stays, and when it is freed.
use csci_402_operating_syste.Prelude.{
  ℕ, ◌+◌, ◌-◌, ◌<◌, ◌≡◌, ◌≢◌, ◌⊎◌, inl, inr, sym, ap, ◌∙◌, Bool, true, false, ◌&&◌, ◌||◌, ◌==◌,
  arith, Bool-cases, ltb, lt→ltb, ==→eq, subst, if_true, if_false,
}
use csci_402_operating_syste.Vfs.Action.{Vnode, World, ◌>>◌, Ends, and_then}
use csci_402_operating_syste.Vfs.Vnode.{negb, is_dead, set_vnode, vget, vput}
use csci_402_operating_syste.Vfs.Vnode.Active.{
  active, IsVnode, IsWorld, dropped, gotten, vput-run, vget-run, vnode_here, vnode_other,
  dropped-IsVnode, dropped-active, set_vnode-IsWorld,
}

-- Whether a reference less leaves a vnode that is freed: no other is active, and its file is not
-- linked or none of its pages is cached.
abbrev pub is_last : Vnode → Bool
is_last x = active x == 1 && (negb x.vn_linked || x.vn_nrespages == 0)

dropped-inuse : (x : Vnode) → IsVnode x → 0 < active x → (dropped x).vn_inuse ≡ negb (is_last x)
dropped-inuse x i h = ground (arith, i.listed, i.pages)

-- `vput` of a vnode with an active reference passes its assertions and drops that reference alone:
-- every other vnode stays as it was. The vnode leaves the list of vnodes in use exactly if no other
-- reference is active and its file is not linked or none of its pages is cached.
pub vput_lem :
    (w : World) (v : ℕ)
    → IsWorld w
    → 0 < active (w.vnodes v)
    → Ends (vput v) w (λ _ w'.
      IsWorld w'
      × (active (w'.vnodes v) + 1 ≡ active (w.vnodes v))
      × ((w'.vnodes v).vn_inuse ≡ negb (is_last (w.vnodes v)))
      × ((u : ℕ) → u ≢ v → w'.vnodes u ≡ w.vnodes u))
unfolding Ends
vput_lem w v i h =
    let x = w.vnodes v in
    let k : x.vn_nrespages < x.vn_refcount = omega (arith, h) in
    let here : (set_vnode w v (dropped x)).vnodes v ≡ dropped x =
      vnode_here w v v (dropped x) (ground arith) in
    (
      tt,
      set_vnode w v (dropped x),
      vput-run v w (lt→ltb _ _ k),
      (
        set_vnode-IsWorld w v (dropped x) i (dropped-IsVnode x (i v) k),
        ap (λ z. active z + 1) here ∙ dropped-active x k,
        ap (λ z. z.vn_inuse) here ∙ dropped-inuse x (i v) h,
        λ u ne. vnode_other w v u (dropped x) (ground (arith, ne)),
      ),
    )

gotten_lt :
    (r : ℕ × Bool) (x : Vnode) → IsVnode x → (gotten r x).vn_nrespages < (gotten r x).vn_refcount
gotten_lt r x i = ground (arith, i.pages)

not-is_dead :
    (x : Vnode)
    → (x.vn_linked ≡ true) ⊎ (0 < active x)
    → is_dead (record x { vn_refcount = x.vn_refcount + 1 }) ≡ false
not-is_dead x c = ground (arith, c)

dropped-gotten :
    (r : ℕ × Bool) (x : Vnode)
    → IsVnode x
    → x.vn_inuse ≡ true
    → (x.vn_linked ≡ true) ⊎ (0 < active x)
    → dropped (gotten r x) ≡ x
dropped-gotten r x i t c =
    let y = record x { vn_refcount = x.vn_refcount + 1 } in
    let live : is_dead y ≡ false = not-is_dead x c in
    let more : ltb 0 (y.vn_refcount - 1) ≡ true = ground (arith, i.listed, t) in
    ap dropped (if_true x.vn_inuse y _ t)
    ∙ if_false (is_dead y) _ _ live
    ∙ if_true (ltb 0 (y.vn_refcount - 1)) _ _ more
    ∙ ap (λ n. record x { vn_refcount = n }) (omega arith)

-- A vnode in use whose file is linked, or that has another active reference, is after `vget` and
-- `vput` what it was, and so is every other vnode.
pub vget-vput_lem :
    (rd : ℕ → ℕ × Bool) (w : World) (v : ℕ)
    → IsWorld w
    → (w.vnodes v).vn_inuse ≡ true
    → ((w.vnodes v).vn_linked ≡ true) ⊎ (0 < active (w.vnodes v))
    → Ends (vget rd v >> vput v) w (λ _ w'. (u : ℕ) → w'.vnodes u ≡ w.vnodes u)
unfolding Ends
vget-vput_lem rd w v i t c =
    let x = w.vnodes v in
    let y = gotten (rd v) x in
    let w1 = set_vnode w v y in
    let here : w1.vnodes v ≡ y = vnode_here w v v y (ground arith) in
    (
      tt,
      set_vnode w1 v (dropped (w1.vnodes v)),
      ap (λ z. and_then z (λ _. vput v)) (vget-run rd v w (i v))
          ∙ vput-run v w1 (
              subst (λ z. ltb z.vn_nrespages z.vn_refcount ≡ true) (sym here)
                (lt→ltb _ _ (gotten_lt (rd v) x (i v)))),
      λ u. elim (Bool-cases (u == v)) [
        | inl e ↦
            vnode_here w1 v u _ e
            ∙ ap dropped here
            ∙ dropped-gotten (rd v) x (i v) t c
            ∙ ap w.vnodes (sym (==→eq u v e))
        | inr e ↦ vnode_other w1 v u _ e ∙ vnode_other w v u y e
      ],
    )
