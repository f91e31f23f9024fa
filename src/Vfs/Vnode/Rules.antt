-- ===== src/Vfs/Vnode/Rules.antt =====
-- Rules for actions that start with `vget` or `vput`.
use csci_402_operating_syste.Prelude.{ℕ, Bool, List, ◌∷◌}
use csci_402_operating_syste.Vfs.Action.{World, Action, ◌>>◌, pure, Ends, Ends-pure, Ends->>=}
use csci_402_operating_syste.Vfs.Vnode.{vget, vput}
use csci_402_operating_syste.Vfs.Vnode.Gains.{Gains, vget-Gains, vput-Gains}

module _ {A : Type 0} (w w' : World) (v : ℕ) (us : List ℕ) (Q : A → World → Type 0) where
  pub Ends-vput :
      (k : Action A)
      → Gains w (v ∷ us) w'
      → ((w'' : World) → Gains w us w'' → Ends k w'' Q)
      → Ends (vput v >> k) w' Q
  Ends-vput k g h = Ends->>= _ _ _ _ Q (vput-Gains w w' v us g) (λ _. h)

  pub Ends-vput_pure :
      (a : A)
      → Gains w (v ∷ us) w'
      → ((w'' : World) → Gains w us w'' → Q a w'')
      → Ends (vput v >> pure a) w' Q
  Ends-vput_pure a g h = Ends-vput (pure a) g (λ w'' k. Ends-pure a w'' Q (h w'' k))

  pub Ends-vget :
      (rd : ℕ → ℕ × Bool) (k : Action A)
      → Gains w us w'
      → ((w'' : World) → Gains w (v ∷ us) w'' → Ends k w'' Q)
      → Ends (vget rd v >> k) w' Q
  Ends-vget rd k g h = Ends->>= _ _ _ _ Q (vget-Gains rd w w' v us g) (λ _. h)
