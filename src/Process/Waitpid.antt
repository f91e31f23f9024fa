-- ===== src/Process/Waitpid.antt =====
-- `do_waitpid`.
use csci_402_operating_syste.Prelude.{ℕ, ◌≡◌, ◌⊎◌, true, false, List, [], ◌∷◌}
use csci_402_operating_syste.Prelude.Run.{Run, ok}
use csci_402_operating_syste.Sched.{State}
use csci_402_operating_syste.Sched.Queues.{elem}
use csci_402_operating_syste.Sched.Switch.{IsRunning, asleep_on}
use csci_402_operating_syste.Process.Tree.{Proc, Procs, me, is_dead}
use csci_402_operating_syste.Process.Exit.{set_sched}
use csci_402_operating_syste.Process.Wait.{
  Wanted, any, only, Waited, echild, reaped, waiting, Meanwhile,
}
use csci_402_operating_syste.Process.Reap.{IsTree, Gone}

abbrev pub Wants : Wanted → Proc → Type 0
Wants any p = Unit
Wants (only pid) p = p.p_pid ≡ pid

-- A child of the current process that is dead is disposed of, and its id and status are returned.
pub record Reaps (w : Wanted) (s : Procs) (r : Run Waited) : Type 0 where
  pub zombie : ℕ
  pub after : Procs
  pub result : r ≡ ok (reaped (s.proc zombie).p_pid (s.proc zombie).p_status after)
  pub wanted : Wants w (s.proc zombie)
  pub mine : elem zombie (s.proc (me s)).p_children ≡ true
  pub is_zombie : is_dead (s.proc zombie).p_state ≡ true
  pub gone : Gone s zombie after

-- No child that is wanted is dead.
abbrev pub NoneDead : Wanted → Procs → Type 0
NoneDead w s =
    (c : ℕ)
    → elem c (s.proc (me s)).p_children ≡ true
    → Wants w (s.proc c)
    → is_dead (s.proc c).p_state ≡ false

-- After a sleep the thread runs again in the same process, whose children are still its children, with
-- their ids, and the tree is in order.
pub record Resumed (s s' : Procs) : Type 0 where
  pub tree : IsTree s'
  pub is_running : IsRunning s'.sched
  pub same : me s' ≡ me s
  pub keeps :
      (c : ℕ)
      → elem c (s.proc (me s)).p_children ≡ true
      → (elem c (s'.proc (me s')).p_children ≡ true) × ((s'.proc c).p_pid ≡ (s.proc c).p_pid)

-- The state in which the current thread has gone to sleep.
abbrev pub sleeping : Procs → Procs
sleeping s = set_sched (asleep_on State.sleep (s.proc (me s)).p_wait s.sched) s

-- Each sleep of a row ends so.
abbrev pub AllResumed : List Meanwhile → Procs → Type 0
AllResumed [] s = Unit
AllResumed (others ∷ sleeps) s =
    Resumed s (others (sleeping s)) × AllResumed sleeps (others (sleeping s))

-- The wait: it is over in the first state with a dead child that is wanted, of those in which the thread
-- runs before the first sleep and after each, and not before; or it is not over with the last sleep.
abbrev pub Waits : Wanted → List Meanwhile → Procs → Run Waited → Type 0
Waits w [] s r = Reaps w s r ⊎ ((r ≡ ok waiting) × NoneDead w s)
Waits w (others ∷ sleeps) s r =
    Reaps w s r ⊎ (NoneDead w s × Waits w sleeps (others (sleeping s)) r)

abbrev pub NoChild : Wanted → Procs → Type 0
NoChild w s = (c : ℕ) → elem c (s.proc (me s)).p_children ≡ true → ¬ Wants w (s.proc c)

abbrev pub HasChild : Wanted → Procs → Type 0
HasChild w s = (c : ℕ) × (elem c (s.proc (me s)).p_children ≡ true) × Wants w (s.proc c)

-- What `do_waitpid` comes to: -ECHILD without a change, or a wait for a child that is there.
abbrev pub Answer : Wanted → List Meanwhile → Procs → Run Waited → Type 0
Answer w sleeps s r = ((r ≡ ok (echild s)) × NoChild w s) ⊎ (HasChild w s × Waits w sleeps s r)
