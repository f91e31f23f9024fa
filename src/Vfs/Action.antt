-- ===== src/Vfs/Action.antt =====
-- Steps on the vnodes and the working directory of a process, with results that may be errors.
use csci_402_operating_syste.Prelude.{ℕ, ◌≡◌, ap, ◌∙◌, refl, Bool, true, false, if◌then◌else◌}
use csci_402_operating_syste.Prelude.Run.{Run, ok, panic}

-- The fields of `vnode_t` that counting references needs. `vn_inuse` says whether the vnode is on
-- `vnode_inuse_list`, and `vn_linked` is what `query_vnode` answers for it.
pub record Vnode : Type 0 where
  pub vn_refcount : ℕ
  pub vn_nrespages : ℕ
  pub vn_mode : ℕ
  pub vn_inuse : Bool
  pub vn_linked : Bool

-- The vnodes, named by numbers that stand for a file system and a vnode number, and `p_cwd`.
pub record World : Type 0 where
  pub vnodes : ℕ → Vnode
  pub p_cwd : ℕ

abbrev pub Action : Type 0 → Type 0
Action A = World → Run (A × World)

abbrev pub and_then : {A B : Type 0} → Run (A × World) → (A → Action B) → Run (B × World)
and_then (ok (a, w)) f = f a w
and_then panic f = panic

infixl 5 ◌>>=◌ ◌>>◌
abbrev pub ◌>>=◌ : {A B : Type 0} → Action A → (A → Action B) → Action B
◌>>=◌ m f w = and_then (m w) f

abbrev pub ◌>>◌ : {A B : Type 0} → Action A → Action B → Action B
m >> k = m >>= λ _. k

abbrev pub pure : {A : Type 0} → A → Action A
pure a w = ok (a, w)

-- `KASSERT`
abbrev pub check : Bool → Action (Unit {0})
check b w = if b then ok (tt, w) else panic

pub check-true :
    {A : Type 0} (b : Bool) (k : Action A) (w : World) → b ≡ true → (check b >> k) w ≡ k w
check-true true k w e = refl
check-true false k w e = cc

-- The action ends, and its result and the world after it satisfy `Q`.
unfoldable pub Ends : {A : Type 0} → Action A → World → (A → World → Type 0) → Type 0
Ends {A} m w Q = (a : A) × (w' : World) × (m w ≡ ok (a, w')) × Q a w'

pub Ends-pure :
    {A : Type 0} (a : A) (w : World) (Q : A → World → Type 0) → Q a w → Ends (pure a) w Q
unfolding Ends
Ends-pure a w Q q = (a, w, refl, q)

pub Ends->>= :
    {A B : Type 0} (m : Action A) (f : A → Action B) (w : World) (P : A → World → Type 0)
    (Q : B → World → Type 0)
    → Ends m w P
    → ((a : A) (w' : World) → P a w' → Ends (f a) w' Q)
    → Ends (m >>= f) w Q
unfolding Ends
Ends->>= m f w P Q (a, w', e, p) k =
    let (b, w'', e', q) = k a w' p in (b, w'', ap (λ z. and_then z f) e ∙ e', q)

pub Ends-if :
    {A : Type 0} (b : Bool) (m n : Action A) (w : World) (Q : A → World → Type 0)
    → (b ≡ true → Ends m w Q)
    → (b ≡ false → Ends n w Q)
    → Ends (if b then m else n) w Q
Ends-if true m n w Q h k = h refl
Ends-if false m n w Q h k = k refl

pub Ends-check :
    {A : Type 0} (b : Bool) (k : Action A) (w : World) (Q : A → World → Type 0)
    → b ≡ true
    → Ends k w Q
    → Ends (check b >> k) w Q
Ends-check true k w Q e h = h
Ends-check false k w Q e h = cc

pub Ends-weaken :
    {A : Type 0} (m : Action A) (w : World) (P Q : A → World → Type 0)
    → Ends m w P
    → ((a : A) (w' : World) → P a w' → Q a w')
    → Ends m w Q
unfolding Ends
Ends-weaken m w P Q (a, w', e, p) h = (a, w', e, h a w' p)
