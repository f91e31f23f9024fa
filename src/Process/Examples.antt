-- ===== src/Process/Examples.antt =====
-- Ids among four processes: tests, and the theorem at them.
use csci_402_operating_syste.Prelude.{
  ℕ, ◌+◌, ◌<◌, ◌≡◌, ◌⊎◌, refl, none, some, [], ◌∷◌, ◌==◌, true, false, arith, if◌then◌else◌,
}
use csci_402_operating_syste.Process.{taken, proc_getid, getid_loop}
use csci_402_operating_syste.Process.Ids.{between, proc_getid_lem}

around_the_end : proc_getid 4 3 (3 ∷ 0 ∷ []) ≡ some (some 1, 2)
unfolding proc_getid getid_loop
around_the_end = refl

all_taken : proc_getid 3 1 (0 ∷ 1 ∷ 2 ∷ []) ≡ some (none, 1)
unfolding proc_getid getid_loop
all_taken = refl

proc_getid_lem_example :
    ((pid : ℕ) × (proc_getid 4 3 (3 ∷ 0 ∷ [])
        ≡ some (some pid, if pid + 1 == 4 then 0 else pid + 1))
      × (pid < 4)
      × (taken pid (3 ∷ 0 ∷ []) ≡ false)
      × ((x : ℕ) → between 4 3 pid x ≡ true → taken x (3 ∷ 0 ∷ []) ≡ true))
    ⊎ ((proc_getid 4 3 (3 ∷ 0 ∷ []) ≡ some (none, 3))
        × ((x : ℕ) → x < 4 → taken x (3 ∷ 0 ∷ []) ≡ true))
proc_getid_lem_example = proc_getid_lem 4 3 (3 ∷ 0 ∷ []) (omega arith)
