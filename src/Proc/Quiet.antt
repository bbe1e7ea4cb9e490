-- ===== src/Proc/Quiet.antt =====
-- The steps after which every process is still on its CPU.
use operating_system.Common.{
  ℕ, zero, suc, ◌+◌, ◌≡◌, refl, sym, ap, ◌∙◌, subst, inl, inr, Option, none, ◌==◌, if◌then◌else◌,
  Bool-cases, length, replicate, ok, panic, ◌>>=◌, bind-ok,
}
use operating_system.Proc.{
  used, runnable, running, zombie, Chan, Kernel, nproc, is_sleeping, put_proc, freeproc, wakeup,
  awake, kill, kill_loop,
}
use operating_system.Proc.Calls.{exit_files, close_files, iput, fork_adopt, fork_start}
use operating_system.Proc.Calm.{
  is_live, StaysOn, Quiet, put_proc-each, put_proc-Calm, awake-Calm, kill-Calm, wakeup-Calm,
  up-Calm, freeproc-Calm,
}
use operating_system.Proc.Exit.{wakeup-initproc}
use operating_system.Proc.Wake.{wakeup-StaysOn}

pub awake-Quiet : (k : Kernel) (p : ℕ) → Quiet k (awake k p)
unfolding awake
awake-Quiet k p = record {
  calm = awake-Calm k p;
  running_stays = put_proc-each StaysOn k p _ (λ i r h. h) (λ h. h);
  same_cpus = refl;
  same_init = refl;
}

pub wakeup-Quiet : (k : Kernel) (self : Option ℕ) (chan : Chan) → Quiet k (wakeup k self chan)
wakeup-Quiet k self chan = record {
  calm = wakeup-Calm k self chan;
  running_stays = wakeup-StaysOn k self chan;
  same_cpus = (wakeup-initproc k self chan).1;
  same_init = (wakeup-initproc k self chan).0;
}

pub fork_start-Quiet : (k : Kernel) (np : ℕ) → (k.slot np).state ≡ used → Quiet k (fork_start k np)
unfolding fork_start
fork_start-Quiet k np new = record {
  calm = up-Calm k np _ (λ e. cc (new, e)) (inl refl) refl;
  running_stays = put_proc-each StaysOn k np _ (λ i r h. h) (λ h. absurd (cc (new, h)));
  same_cpus = refl;
  same_init = refl;
}

-- The loop of `kill` changes one process.
kill_loop-fields :
    (n : ℕ) (k : Kernel) (pid i : ℕ)
    → ((j : ℕ) → StaysOn j (k.slot j) ((kill_loop n k pid i).1.slot j))
      × ((kill_loop n k pid i).1.cpu ≡ k.cpu)
      × ((kill_loop n k pid i).1.initproc ≡ k.initproc)
unfolding kill_loop
kill_loop-fields zero k pid i = (λ j h. h, refl, refl)
kill_loop-fields (suc n) k pid i = elim (Bool-cases ((k.slot i).pid == pid)) [
  | inl h ↦ rw h (put_proc-each StaysOn k i _ (λ j r on. on) (λ on. stays on), refl, refl)
  | inr h ↦ rw h (kill_loop-fields n k pid (i + 1))
]
  where
    stays :
        (k.slot i).state ≡ running
        → (if is_sleeping (k.slot i).state then runnable else (k.slot i).state) ≡ running
    stays on = ap (λ s. if is_sleeping s then runnable else s) on

pub kill-Quiet : (k : Kernel) (pid : ℕ) → Quiet k (kill k pid).1
unfolding kill
kill-Quiet k pid = record {
  calm = kill-Calm k pid;
  running_stays = (kill_loop-fields nproc k pid 0).0;
  same_cpus = (kill_loop-fields nproc k pid 0).1;
  same_init = (kill_loop-fields nproc k pid 0).2;
}

pub exit_files-Quiet : (k : Kernel) (p : ℕ) (k' : Kernel) → exit_files k p ≡ ok k' → Quiet k k'
unfolding exit_files
exit_files-Quiet k p k' e = elim (Bool-cases (p == k.initproc)) [
  | inl h ↦ let out : exit_files k p ≡ panic = rw h in absurd (cc (out, e))
  | inr h ↦
      let out : exit_files k p ≡ (
          close_files (k.slot p).ofile k.refs >>= λ refs.
          iput k.irefs (k.slot p).cwd >>= λ irefs. ok (closed refs irefs)) =
        rw h in
      let (refs, _, e') = bind-ok (close_files (k.slot p).ofile k.refs) _ _ (sym out ∙ e) in
      let (irefs, _, e'') = bind-ok (iput k.irefs (k.slot p).cwd) _ _ e' in
      subst (λ m. Quiet k m) (cc e'') (closed-Quiet refs irefs)
]
  where
    closed : (ℕ → ℕ) → (ℕ → ℕ) → Kernel
    closed refs irefs =
        record (put_proc k p
          (record (k.slot p) { ofile = replicate (length (k.slot p).ofile) none; cwd = none })) {
            refs = refs;
            irefs = irefs;
          }

    closed-Quiet : (refs irefs : ℕ → ℕ) → Quiet k (closed refs irefs)
    closed-Quiet refs irefs = record {
      calm = put_proc-Calm k p _ (record {
        live = λ h. h;
        outside = λ _ h. h;
        child = λ _ h. h;
        in_wait = λ _ h c. (h, c);
        dead = λ h. h;
      });
      running_stays = put_proc-each StaysOn k p _ (λ i r h. h) (λ h. h);
      same_cpus = refl;
      same_init = refl;
    }

-- `wait` frees a child that has ended.
pub freed_child-Quiet : (k : Kernel) (np : ℕ) → (k.slot np).state ≡ zombie → Quiet k (freeproc k np)
unfolding freeproc
freed_child-Quiet k np dead = record {
  calm = freeproc-Calm k np (ap is_live dead);
  running_stays = put_proc-each StaysOn k np _ (λ i r h. h) (λ h. absurd (cc (dead, h)));
  same_cpus = refl;
  same_init = refl;
}

pub fork_adopt-StaysOn :
    (k : Kernel) (p np : ℕ) (i : ℕ) → StaysOn i (k.slot i) ((fork_adopt k p np).slot i)
unfolding fork_adopt
fork_adopt-StaysOn k p np = put_proc-each StaysOn k np _ (λ i r h. h) (λ h. h)
