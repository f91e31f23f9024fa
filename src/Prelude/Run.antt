-- ===== src/Prelude/Run.antt =====
-- A kernel routine that can stop in `KASSERT`, or fault at a NULL pointer: both are `panic`.
use mathlib.Core.Path.{◌≡◌, refl}
use mathlib.Core.Bool.{Bool, true, false}

pub data Run {ℓ} (A : Type ℓ) : Type ℓ where
  ok : A → Run A
  panic : Run A

infixl 5 ◌>>=◌ ◌>>◌
abbrev pub ◌>>=◌ {ℓ κ} : {A : Type ℓ} {B : Type κ} → Run A → (A → Run B) → Run B
ok a >>= f = f a
panic >>= f = panic

abbrev pub ◌>>◌ {ℓ} : {B : Type ℓ} → Run (Unit {0}) → Run B → Run B
m >> k = m >>= λ _. k

-- `KASSERT`
abbrev pub kassert : Bool → Run (Unit {0})
kassert true = ok tt
kassert false = panic

-- An assertion that holds is passed.
pub kassert-pass {ℓ} :
    {A : Type ℓ} (b : Bool) (k : Unit {0} → Run A) → b ≡ true → (kassert b >>= k) ≡ k tt
kassert-pass true k e = refl
kassert-pass false k e = cc
