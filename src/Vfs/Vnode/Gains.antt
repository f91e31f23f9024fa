-- ===== src/Vfs/Vnode/Gains.antt =====
-- The references a caller gains, which are those of `vget` and `vput`.
use csci_402_operating_syste.Prelude.{
  ℕ, suc, ◌+◌, ◌-◌, ◌<◌, ◌≡◌, inl, inr, ==→eq, refl, sym, ap, subst, lt→ltb, ◌∙◌, Bool, false, ◌==◌,
  List, [], ◌∷◌, ◌++◌, arith, if◌then◌else◌, Bool-cases,
}
use csci_402_operating_syste.Vfs.Action.{Vnode, World, Ends}
use csci_402_operating_syste.Vfs.Vnode.Active.{
  active, IsVnode, IsWorld, dropped, vput-run, dropped-IsVnode, dropped-active, gotten,
  gotten-IsVnode, gotten-active, vnode_here, vnode_other, set_vnode-IsWorld, vget-run,
}
use csci_402_operating_syste.Vfs.Vnode.{set_vnode, vget, vput}

-- How many of the references of a list are to `v`.
abbrev pub refs_to : ℕ → List ℕ → ℕ
refs_to v [] = 0
refs_to v (u ∷ us) = (if u == v then 1 else 0) + refs_to v us

-- From `w` to `w'` the caller has gained the references of the list, and nothing else has changed in
-- the number of active references.
pub record Gains (w : World) (us : List ℕ) (w' : World) : Type 0 where
  pub world : IsWorld w'
  pub cwd : w'.p_cwd ≡ w.p_cwd
  pub held : (v : ℕ) → active (w'.vnodes v) ≡ active (w.vnodes v) + refs_to v us

pub Gains-refl : (w : World) → IsWorld w → Gains w [] w
Gains-refl w i = record { world = i; cwd = refl; held = λ v. omega arith }

pub Gains-swap :
    (w w' : World) (a b : ℕ) (us : List ℕ) → Gains w (a ∷ b ∷ us) w' → Gains w (b ∷ a ∷ us) w'
Gains-swap w w' a b us g = record {
  world = g.world;
  cwd = g.cwd;
  held = λ v. g.held v ∙ omega arith;
}

refs_self : (v : ℕ) (us : List ℕ) → refs_to v (v ∷ us) ≡ suc (refs_to v us)
refs_self v us = ground arith

refs_ne : (u v : ℕ) (us : List ℕ) → (u == v) ≡ false → refs_to u (v ∷ us) ≡ refs_to u us
refs_ne u v us e = ground arith

lose_one :
    (w w' : World) (v : ℕ) (us : List ℕ) (x : Vnode)
    → Gains w (v ∷ us) w'
    → IsVnode x
    → active x + 1 ≡ active (w'.vnodes v)
    → Gains w us (set_vnode w' v x)
lose_one w w' v us x g i a = record {
  world = set_vnode-IsWorld w' v x g.world i;
  cwd = g.cwd;
  held = λ u. elim (Bool-cases (u == v)) [
    | inl e ↦
        subst (λ z. active ((set_vnode w' v x).vnodes z) ≡ active (w.vnodes z) + refs_to z us)
          (sym (==→eq u v e))
          (ap active (vnode_here w' v v x (ground arith))
            ∙ omega (arith, a, g.held v, refs_self v us))
    | inr e ↦
        ap active (vnode_other w' v u x e)
        ∙ g.held u
        ∙ ap (λ n. active (w.vnodes u) + n) (refs_ne u v us e)
  ];
}

pub gain_one :
    (w w' : World) (v : ℕ) (us : List ℕ) (x : Vnode)
    → Gains w us w'
    → IsVnode x
    → active x ≡ active (w'.vnodes v) + 1
    → Gains w (v ∷ us) (set_vnode w' v x)
gain_one w w' v us x g i a = record {
  world = set_vnode-IsWorld w' v x g.world i;
  cwd = g.cwd;
  held = λ u. elim (Bool-cases (u == v)) [
    | inl e ↦
        subst (λ z. active ((set_vnode w' v x).vnodes z) ≡ active (w.vnodes z) + refs_to z (v ∷ us))
          (sym (==→eq u v e))
          (ap active (vnode_here w' v v x (ground arith))
            ∙ omega (arith, a, g.held v, refs_self v us))
    | inr e ↦
        ap active (vnode_other w' v u x e)
        ∙ g.held u
        ∙ ap (λ n. active (w.vnodes u) + n) (sym (refs_ne u v us e))
  ];
}

-- `vput` of a reference that the caller holds.
pub vput-Gains :
    (w w' : World) (v : ℕ) (us : List ℕ)
    → Gains w (v ∷ us) w'
    → Ends (vput v) w' (λ _ w''. Gains w us w'')
unfolding Ends
vput-Gains w w' v us g =
    let x = w'.vnodes v in
    let h : x.vn_nrespages < x.vn_refcount = omega (arith, g.held v, refs_self v us) in
    (
      tt,
      set_vnode w' v (dropped x),
      vput-run v w' (lt→ltb _ _ h),
      lose_one w w' v us (dropped x) g (dropped-IsVnode x (g.world v) h) (dropped-active x h),
    )

pub vget-Gains :
    (rd : ℕ → ℕ × Bool) (w w' : World) (v : ℕ) (us : List ℕ)
    → Gains w us w'
    → Ends (vget rd v) w' (λ _ w''. Gains w (v ∷ us) w'')
unfolding Ends
vget-Gains rd w w' v us g =
    let x = w'.vnodes v in
    let i = g.world v in
    (
      tt,
      set_vnode w' v (gotten (rd v) x),
      vget-run rd v w' i,
      gain_one w w' v us (gotten (rd v) x) g (gotten-IsVnode (rd v) x i) (gotten-active (rd v) x i),
    )

refs-append : (v : ℕ) (us vs : List ℕ) → refs_to v (us ++ vs) ≡ refs_to v us + refs_to v vs
refs-append v [] vs = omega arith
refs-append v (u ∷ us) vs = omega (arith, refs-append v us vs)

-- Gains add up.
pub Gains-trans :
    (w w' w'' : World) (us vs : List ℕ) → Gains w us w' → Gains w' vs w'' → Gains w (vs ++ us) w''
Gains-trans w w' w'' us vs g h = record {
  world = h.world;
  cwd = h.cwd ∙ g.cwd;
  held = λ v. omega (arith, h.held v, g.held v, refs-append v vs us);
}

-- A world in which a reference to `v` that is active in `w` is missing.
pub without : (w : World) (v : ℕ) → World
without w v = set_vnode w v (record (w.vnodes v) { vn_refcount = (w.vnodes v).vn_refcount - 1 })

pub without-cwd : (w : World) (v : ℕ) → (without w v).p_cwd ≡ w.p_cwd
unfolding without
without-cwd w v = refl

pub without-active :
    (w : World) (v u : ℕ)
    → 0 < active (w.vnodes v)
    → active (w.vnodes u) ≡ active ((without w v).vnodes u) + refs_to u (v ∷ [])
unfolding without
without-active w v u h = elim (Bool-cases (u == v)) [
  | inl e ↦ rw (==→eq u v e) (ground (arith, h))
  | inr e ↦ (ground (arith, e))
]

pub Gains-without :
    (w : World) (v : ℕ) → IsWorld w → 0 < active (w.vnodes v) → Gains (without w v) (v ∷ []) w
Gains-without w v i h = record {
  world = i;
  cwd = sym (without-cwd w v);
  held = λ u. without-active w v u h;
}
