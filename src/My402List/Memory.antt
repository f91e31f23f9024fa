-- ===== src/My402List/Memory.antt =====
-- The memory of warmup1/my402list.c: elements at addresses, and steps that read and write them.
use csci_402_operating_syste.Prelude.{ℕ, Bool, true, false, ◌==◌, if◌then◌else◌}
use csci_402_operating_syste.Prelude.Run.{Run, ok, panic}

-- `NULL`, and the address of the anchor of the list.
abbrev pub null : ℕ
null = 0

abbrev pub anchor : ℕ
anchor = 1

-- `num_members`, the addresses that hold an element, and the three fields of the elements.
pub record Store : Type 0 where
  pub num_members : ℕ
  pub live : ℕ → Bool
  pub obj : ℕ → ℕ
  pub next : ℕ → ℕ
  pub prev : ℕ → ℕ

abbrev pub upd : {A : Type 0} → (ℕ → A) → ℕ → A → ℕ → A
upd f p v q = if q == p then v else f q

abbrev pub Action : Type 0 → Type 0
Action A = Store → Run (A × Store)

abbrev pub and_then : {A B : Type 0} → Run (A × Store) → (A → Action B) → Run (B × Store)
and_then (ok (a, s)) f = f a s
and_then panic f = panic

infixl 5 ◌>>=◌ ◌>>◌
abbrev pub ◌>>=◌ : {A B : Type 0} → Action A → (A → Action B) → Action B
◌>>=◌ m f s = and_then (m s) f

abbrev pub ◌>>◌ : {A B : Type 0} → Action A → Action B → Action B
m >> k = m >>= λ _. k

abbrev pub pure : {A : Type 0} → A → Action A
pure a s = ok (a, s)

-- An access to an address that holds no element is a fault.
abbrev pub get_next : ℕ → Action ℕ
get_next p s = if s.live p then ok (s.next p, s) else panic

abbrev pub get_prev : ℕ → Action ℕ
get_prev p s = if s.live p then ok (s.prev p, s) else panic

abbrev pub get_obj : ℕ → Action ℕ
get_obj p s = if s.live p then ok (s.obj p, s) else panic

abbrev pub set_next : (p v : ℕ) → Action (Unit {0})
set_next p v s = if s.live p then ok (tt, record s { next = upd s.next p v }) else panic

abbrev pub set_prev : (p v : ℕ) → Action (Unit {0})
set_prev p v s = if s.live p then ok (tt, record s { prev = upd s.prev p v }) else panic

abbrev pub set_obj : (p v : ℕ) → Action (Unit {0})
set_obj p v s = if s.live p then ok (tt, record s { obj = upd s.obj p v }) else panic

abbrev pub get_num : Action ℕ
get_num s = ok (s.num_members, s)

abbrev pub set_num : ℕ → Action (Unit {0})
set_num n s = ok (tt, record s { num_members = n })

-- `malloc` has answered `p`, whose fields have any value.
abbrev pub alloc : ℕ → Action (Unit {0})
alloc p s = ok (tt, record s { live = upd s.live p true })

abbrev pub free : ℕ → Action (Unit {0})
free p s = if s.live p then ok (tt, record s { live = upd s.live p false }) else panic
