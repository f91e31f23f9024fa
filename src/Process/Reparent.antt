-- ===== src/Process/Reparent.antt =====
-- The loop of `proc_cleanup` over the children.
use csci_402_operating_syste.Prelude.{
  ℕ, ◌≡◌, refl, sym, ap, ◌∙◌, false, some, List, [], ◌∷◌, ◌++◌, ◌==◌, arith, if◌then◌else◌,
  append_assoc, append-nil,
}
use csci_402_operating_syste.Sched.{unlink}
use csci_402_operating_syste.Sched.Queues.{elem}
use csci_402_operating_syste.Process.Tree.{ProcState, Proc, Procs}
use csci_402_operating_syste.Process.Exit.{reparent_one, reparent_loop}

-- The fields that the loop leaves alone.
abbrev pub rest : Proc → ℕ × List ℕ × ℕ × ProcState
rest p = (p.p_pid, p.p_threads, p.p_status, p.p_state)

-- The children `cs` have moved from `parent` to the end of the children of `init`.
pub record Moved (parent init : ℕ) (cs : List ℕ) (s s' : Procs) : Type 0 where
  pub old : (s'.proc parent).p_children ≡ []
  pub new : (s'.proc init).p_children ≡ (s.proc init).p_children ++ cs
  pub others :
      (p : ℕ)
      → (p == parent) ≡ false
      → (p == init) ≡ false
      → (s'.proc p).p_children ≡ (s.proc p).p_children
  pub parents :
      (p : ℕ) → (s'.proc p).p_pproc ≡ (if elem p cs then some init else (s.proc p).p_pproc)
  pub same : (p : ℕ) → rest (s'.proc p) ≡ rest (s.proc p)
  pub same_list : s'.proc_list ≡ s.proc_list
  pub same_sched : s'.sched ≡ s.sched

unlink-head : (c : ℕ) (cs : List ℕ) → unlink c (c ∷ cs) ≡ cs
unfolding unlink
unlink-head c cs = ground arith

-- A child that moves twice ends where it moves last.
elem-cons :
    {A : Type 0}
    → (p c : ℕ) (cs : List ℕ) (x y : A)
    → (if elem p cs then x else (if p == c then x else y)) ≡ (if elem p (c ∷ cs) then x else y)
elem-cons p c cs x y = ground arith

module _ (parent init : ℕ) (ne : (parent == init) ≡ false) where
  module _ (c : ℕ) (s : Procs) where
    one-old :
        ((reparent_one parent init c s).proc parent).p_children
        ≡ unlink c (s.proc parent).p_children
    unfolding reparent_one
    one-old = ground arith

    one-new :
        ((reparent_one parent init c s).proc init).p_children ≡ (s.proc init).p_children ++ c ∷ []
    unfolding reparent_one
    one-new = ground arith

    one-others :
        (p : ℕ)
        → (p == parent) ≡ false
        → (p == init) ≡ false
        → ((reparent_one parent init c s).proc p).p_children ≡ (s.proc p).p_children
    unfolding reparent_one
    one-others p a b = ground arith

    one-parents :
        (p : ℕ)
        → ((reparent_one parent init c s).proc p).p_pproc
          ≡ (if p == c then some init else (s.proc p).p_pproc)
    unfolding reparent_one
    one-parents p = ground arith

    one-list : (reparent_one parent init c s).proc_list ≡ s.proc_list
    unfolding reparent_one
    one-list = refl

    one-sched : (reparent_one parent init c s).sched ≡ s.sched
    unfolding reparent_one
    one-sched = refl

    one-same : (p : ℕ) → rest ((reparent_one parent init c s).proc p) ≡ rest (s.proc p)
    unfolding reparent_one
    one-same p = ground arith

  pub reparent_loop-Moved :
      (cs : List ℕ) (s : Procs)
      → (s.proc parent).p_children ≡ cs
      → Moved parent init cs s (reparent_loop parent init cs s)
  unfolding reparent_loop
  reparent_loop-Moved [] s e = record {
    old = e;
    new = sym (append-nil _);
    others = λ p a b. refl;
    parents = λ p. refl;
    same = λ p. refl;
    same_list = refl;
    same_sched = refl;
  }
  reparent_loop-Moved (c ∷ cs) s e =
      let t = reparent_one parent init c s in
      let m = reparent_loop-Moved cs t (one-old c s ∙ ap (unlink c) e ∙ unlink-head c cs) in
      record {
        old = m.old;
        new =
            m.new
            ∙ ap (λ l. l ++ cs) (one-new c s)
            ∙ append_assoc (s.proc init).p_children (c ∷ []) cs;
        others = λ p a b. m.others p a b ∙ one-others c s p a b;
        parents = λ p.
            m.parents p
            ∙ ap (λ o. if elem p cs then some init else o) (one-parents c s p)
            ∙ elem-cons p c cs (some init) (s.proc p).p_pproc;
        same = λ p. m.same p ∙ one-same c s p;
        same_list = m.same_list ∙ one-list c s;
        same_sched = m.same_sched ∙ one-sched c s;
      }
