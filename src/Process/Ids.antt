-- ===== src/Process/Ids.antt =====
-- The search of `_proc_getid`.
use native.Mathlib.Nat.{mod_self, mod-eq_of_lt}
use csci_402_operating_syste.Prelude.{
  ℕ, zero, suc, ◌+◌, ◌-◌, ◌%◌, ◌<◌, ◌≤◌, ◌≡◌, ◌⊎◌, inl, inr, ==→eq, ◌≢◌, subst, if_true, if_false,
  sym, ap, ◌∙◌, none, some, Bool, true, false, ◌&&◌, List, ◌==◌, ltb, leb, arith, if◌then◌else◌,
  Bool-cases,
}
use csci_402_operating_syste.Process.{
  taken, Search, found, no_id, getid_loop, getid_result, proc_getid,
}

-- The ids from `next` up to `pid`, counted around the end at `max`.
abbrev pub between : (max next pid x : ℕ) → Bool
between max next pid x =
    if leb next pid then leb next x && ltb x pid else (if leb next x then ltb x max else ltb x pid)

-- How many ids are left from `pid` on.
abbrev left_over : (max next pid : ℕ) → ℕ
left_over max next pid = if leb next pid then max - pid + next else next - pid

ne_test : (a b : ℕ) → (a == b) ≡ false → a ≢ b
ne_test a b e z = ground arith

next_id : (max pid : ℕ) → pid < max → (pid + 1) % max ≡ (if pid + 1 == max then 0 else pid + 1)
next_id max pid h = elim (Bool-cases (pid + 1 == max)) [
  | inl t ↦ (rw (==→eq (pid + 1) max t) (mod_self max)) ∙ sym (if_true _ _ _ t)
  | inr t ↦ mod-eq_of_lt (ground arith) ∙ sym (if_false _ _ _ t)
]

-- A search that stands at `pid` when every id from `next` up to it is taken.
pub Ends : (max next : ℕ) → List ℕ → Search → Type 0
Ends max next ps r =
    ((pid : ℕ) × (r ≡ found pid)
      × (pid < max)
      × (taken pid ps ≡ false)
      × ((x : ℕ) → between max next pid x ≡ true → taken x ps ≡ true))
    ⊎ ((r ≡ no_id) × ((x : ℕ) → x < max → taken x ps ≡ true))

-- The id after `pid` around the end.
abbrev wrapped : (max pid : ℕ) → ℕ
wrapped max pid = if pid + 1 == max then 0 else pid + 1

left_over-wrapped :
    (max next pid k : ℕ)
    → next < max
    → pid < max
    → wrapped max pid ≢ next
    → left_over max next pid ≤ suc k
    → left_over max next (wrapped max pid) ≤ k
left_over-wrapped max next pid k h b ne m = ground arith

between-wrapped :
    (max next pid x : ℕ)
    → next < max
    → pid < max
    → wrapped max pid ≢ next
    → between max next (wrapped max pid) x ≡ true
    → (x ≡ pid) ⊎ (between max next pid x ≡ true)
between-wrapped max next pid x h b ne e = ground arith

between_all :
    (max next pid x : ℕ)
    → next < max
    → pid < max
    → wrapped max pid ≡ next
    → x < max
    → (x ≡ pid) ⊎ (between max next pid x ≡ true)
between_all max next pid x h b e lt = ground arith

module _ (k max next pid : ℕ) (ps : List ℕ) where
  loop-found : taken pid ps ≡ false → getid_loop (suc k) max next pid ps ≡ found pid
  unfolding getid_loop
  loop-found f = rw (f, getid_loop)

  loop-no_id :
      taken pid ps ≡ true
      → (wrapped max pid == next) ≡ true
      → pid < max
      → getid_loop (suc k) max next pid ps ≡ no_id
  unfolding getid_loop
  loop-no_id t e b = rw (t, getid_loop, next_id max pid b, e)

  loop_next :
      taken pid ps ≡ true
      → (wrapped max pid == next) ≡ false
      → pid < max
      → getid_loop (suc k) max next pid ps ≡ getid_loop k max next (wrapped max pid) ps
  unfolding getid_loop
  loop_next t e b =
      rw (t, getid_loop, next_id max pid b, e)
        (ap (λ z. getid_loop k max next z ps) (next_id max pid b))

-- An id that was passed or is this one.
either :
    (max next pid x : ℕ) (ps : List ℕ)
    → taken pid ps ≡ true
    → ((y : ℕ) → between max next pid y ≡ true → taken y ps ≡ true)
    → (x ≡ pid) ⊎ (between max next pid x ≡ true)
    → taken x ps ≡ true
either max next pid x ps t v (inl e) = ap (λ z. taken z ps) e ∙ t
either max next pid x ps t v (inr e) = v x e

getid_loop-Ends :
    (k max next pid : ℕ) (ps : List ℕ)
    → next < max
    → pid < max
    → left_over max next pid ≤ k
    → ((x : ℕ) → between max next pid x ≡ true → taken x ps ≡ true)
    → Ends max next ps (getid_loop k max next pid ps)
unfolding getid_loop Ends
getid_loop-Ends zero max next pid ps h b m v = absurd (ground arith)
getid_loop-Ends (suc k) max next pid ps h b m v = elim (Bool-cases (taken pid ps)) [
  | inr f ↦ inl (pid, loop-found k max next pid ps f, b, f, v)
  | inl t ↦ elim (Bool-cases (wrapped max pid == next)) [
    | inl e ↦ inr (
      loop-no_id k max next pid ps t e b,
      λ x lt.
          either max next pid x ps t v
            (between_all max next pid x h b (==→eq (wrapped max pid) next e) lt),
    )
    | inr e ↦
        let ne : wrapped max pid ≢ next = λ z. ne_test (wrapped max pid) next e z in
        subst (Ends max next ps) (sym (loop_next k max next pid ps t e b)) (
          getid_loop-Ends k max next (wrapped max pid) ps h (ground arith)
            (left_over-wrapped max next pid k h b ne m)
            λ x e'. either max next pid x ps t v (between-wrapped max next pid x h b ne e'))
  ]
]

-- With `next_pid` below PROC_MAX_COUNT, as many rounds are enough for `_proc_getid`. It returns an id
-- below PROC_MAX_COUNT that no process has, the first one from `next_pid` on counted around the end,
-- and sets `next_pid` to the id after it; or it returns -1, keeps `next_pid`, and every id is taken.
pub proc_getid_lem :
    (max next : ℕ) (ps : List ℕ)
    → next < max
    → ((pid : ℕ) × (proc_getid max next ps ≡ some (some pid, if pid + 1 == max then 0 else pid + 1))
        × (pid < max)
        × (taken pid ps ≡ false)
        × ((x : ℕ) → between max next pid x ≡ true → taken x ps ≡ true))
      ⊎ ((proc_getid max next ps ≡ some (none, next)) × ((x : ℕ) → x < max → taken x ps ≡ true))
unfolding proc_getid Ends
proc_getid_lem max next ps h =
    elim (getid_loop-Ends max max next next ps h h (ground arith) (λ x e. absurd (ground arith))) [
      | inl (pid, e, b, f, v) ↦ inl (
        pid,
        ap (getid_result max next) e ∙ ap (λ z. some (some pid, z)) (next_id max pid b),
        b,
        f,
        v,
      )
      | inr (e, v) ↦ inr (ap (getid_result max next) e, v)
    ]
