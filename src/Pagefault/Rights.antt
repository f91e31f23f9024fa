-- ===== src/Pagefault/Rights.antt =====
-- The rights that a fault needs, bit by bit.
use csci_402_operating_syste.Prelude.{
  ℕ, zero, suc, ◌/◌, ◌%◌, ◌<◌, ◌≡◌, ◌∙◌, refl, sym, ap, inl, inr, Bool, true, false, ◌&&◌, ◌==◌,
  arith, bit_and, Bool-cases, ==→eq,
}
use csci_402_operating_syste.Pagefault.{Cause, Prots, IsProts, add_right, access_right}

-- PROT_READ is the lowest bit, PROT_WRITE the next, PROT_EXEC the third.
abbrev pub may_read : ℕ → Bool
may_read prot = prot % 2 == 1

abbrev pub may_write : ℕ → Bool
may_write prot = prot / 2 % 2 == 1

abbrev pub may_exec : ℕ → Bool
may_exec prot = prot / 4 % 2 == 1

-- A write needs PROT_WRITE, the fetch of an instruction PROT_EXEC, and a fault on a page that is in the
-- page table PROT_READ.
pub record Permits (c : Cause) (prot : ℕ) : Type 0 where
  pub write : c.fault_write ≡ true → may_write prot ≡ true
  pub exec : c.fault_exec ≡ true → may_exec prot ≡ true
  pub read : c.fault_present ≡ true → may_read prot ≡ true

abbrev implies : Bool → Bool → Bool
implies true b = b
implies false b = true

abbrev permits : (w e p : Bool) → ℕ → Bool
permits w e p prot =
    implies w (may_write prot) && (implies e (may_exec prot) && implies p (may_read prot))

abbrev rights : (w e r p : Bool) → ℕ
rights w e r p = add_right p 1 (add_right r 0 (add_right e 4 (add_right w 2 0)))

abbrev same : Bool → Bool → Bool
same true b = b
same false true = false
same false false = true

abbrev below : ℕ → (ℕ → Bool) → Bool
below zero f = true
below (suc n) f = f n && below n f

agree : (w e r p : Bool) → ℕ → Bool
agree w e r p prot = same (bit_and prot (rights w e r p) == rights w e r p) (permits w e p prot)

table : (w e r p : Bool) → below 8 (agree w e r p) ≡ true
unfolding agree
table true true true true = refl
table true true true false = refl
table true true false true = refl
table true true false false = refl
table true false true true = refl
table true false true false = refl
table true false false true = refl
table true false false false = refl
table false true true true = refl
table false true true false = refl
table false true false true = refl
table false true false false = refl
table false false true true = refl
table false false true false = refl
table false false false true = refl
table false false false false = refl

below-at : (n : ℕ) (f : ℕ → Bool) (x : ℕ) → below n f ≡ true → x < n → f x ≡ true
below-at zero f x e h = absurd (omega arith)
below-at (suc n) f x e h = elim (Bool-cases (x == n)) [
  | inl t ↦ ap f (==→eq x n t) ∙ ground (arith, e)
  | inr u ↦ below-at n f x (ground (arith, e)) (ground (arith, h, u))
]

same-eq : (a b : Bool) → same a b ≡ true → a ≡ b
same-eq true true e = refl
same-eq true false e = sym e
same-eq false true e = e
same-eq false false e = refl

access_right-rights :
    (k : Prots) (c : Cause)
    → IsProts k
    → access_right k c ≡ rights c.fault_write c.fault_exec c.fault_reserved c.fault_present
access_right-rights k c v = rw (v.none_value, v.read_value, v.write_value, v.exec_value) refl

-- The test of the bits of a protection is the test of each right that is needed.
right-permits :
    (k : Prots) (c : Cause) (prot : ℕ)
    → IsProts k
    → prot < 8
    → (bit_and prot (access_right k c) == access_right k c)
      ≡ permits c.fault_write c.fault_exec c.fault_present prot
unfolding agree
right-permits k c prot v h =
    let w = c.fault_write in
    let e = c.fault_exec in
    let r = c.fault_reserved in
    let p = c.fault_present in
    ap (λ z. bit_and prot z == z) (access_right-rights k c v)
    ∙ same-eq _ _ (below-at 8 (agree w e r p) prot (table w e r p) h)

pub right-Permits :
    (k : Prots) (c : Cause) (prot : ℕ)
    → IsProts k
    → prot < 8
    → (bit_and prot (access_right k c) == access_right k c) ≡ true
    → Permits c prot
right-Permits k c prot v h e =
    let q = sym (right-permits k c prot v h) ∙ e in
    record {
      write = λ t. ground (arith, q, t);
      exec = λ t. ground (arith, q, t);
      read = λ t. ground (arith, q, t);
    }

pub Permits-right :
    (k : Prots) (c : Cause) (prot : ℕ)
    → IsProts k
    → prot < 8
    → Permits c prot
    → (bit_and prot (access_right k c) == access_right k c) ≡ true
Permits-right k c prot v h s = right-permits k c prot v h ∙ ground (arith, s.write, s.exec, s.read)
