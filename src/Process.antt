-- ===== src/Process.antt =====
-- vm-submit/kernel/proc/proc.c and kthread.c: processes, and here the choice of a process id.
pub mod Ids
pub mod Tree
pub mod Exit
pub mod Wait
pub mod Reap
pub mod Waitpid
pub mod Reparent
pub mod Died
pub mod Cleanup
pub mod Leave
pub mod Newborn
pub mod Create
mod Examples
mod Family
use csci_402_operating_syste.Prelude.{
  ℕ, zero, suc, ◌+◌, ◌%◌, Bool, true, false, ◌||◌, Option, none, some, List, [], ◌∷◌, ◌==◌,
  if◌then◌else◌,
}

-- Whether a process of the list has the id.
abbrev pub taken : ℕ → List ℕ → Bool
taken pid [] = false
taken pid (p ∷ ps) = p == pid || taken pid ps

-- What the search ends with: an id, -1, or no end within the rounds given.
pub data Search : Type 0 where
  found : ℕ → Search
  no_id : Search
  out_of_rounds : Search

-- The loop of `_proc_getid` with a bound on its rounds: each round goes through `_proc_list` and
-- starts again, at `goto failed`, with the next id if a process has this one. `max` is PROC_MAX_COUNT.
pub getid_loop : (rounds max next_pid pid : ℕ) → List ℕ → Search
getid_loop zero max next_pid pid ps = out_of_rounds
getid_loop (suc k) max next_pid pid ps = elim (taken pid ps) [
  | true ↦
      let pid' = (pid + 1) % max in
      elim (pid' == next_pid) [ true ↦ no_id | false ↦ getid_loop k max next_pid pid' ps ]
  | false ↦ found pid
]

-- The result, and `next_pid` after the call.
abbrev pub getid_result : (max next_pid : ℕ) → Search → Option (Option ℕ × ℕ)
getid_result max next_pid (found pid) = some (some pid, (pid + 1) % max)
getid_result max next_pid no_id = some (none, next_pid)
getid_result max next_pid out_of_rounds = none

-- `none` if the rounds do not suffice; the inner `none` is -1.
pub proc_getid : (max next_pid : ℕ) → List ℕ → Option (Option ℕ × ℕ)
unfolding getid_loop
proc_getid max next_pid ps = getid_result max next_pid (getid_loop max max next_pid next_pid ps)
