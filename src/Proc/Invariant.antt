-- ===== src/Proc/Invariant.antt =====
-- The process table in every state that the processes and the schedulers can reach.
use operating_system.Common.{
  ℕ, ◌<◌, ◌≡◌, refl, sym, ap, ◌∙◌, subst, ◌≢◌, inl, inr, Bool, true, false, not, ◌||◌, Option, none,
  some, arith, Bool-cases, Option-cases, ok, fault, pos,
}
use operating_system.Proc.{
  used, runnable, running, zombie, other_chan, Proc, Kernel, Frame, nproc, is_runnable, put_proc,
  on_cpu, freeproc, userinit, start_registers, allocproc, sleep, yield, schedule,
}
use operating_system.Proc.Calls.{fork_adopt, wait_round, returns, Found, child, no_zombie, scan}
use operating_system.Proc.Calm.{
  is_live, Calm, Quiet, is_runnable_lem, yield-Calm, sleep-Calm, up-Calm,
}
use operating_system.Proc.Step.{
  Step, schedules, yields, sleeps, awakes, wakes, kills, copies, adopts, starts, closes, exits,
  waits, IsBlank, Reachable, boots, steps,
}
use operating_system.Proc.Fork.{Allocated, allocproc-Allocated, fork_copy-Quiet}
use operating_system.Proc.Table.{
  IsSound, calm-IsSound, fork_adopt-IsSound, put_proc_self, put_proc-other,
}
use operating_system.Proc.Zombie.{sleep-IsSound}
use operating_system.Proc.Family.{
  on_cpu-IsSound, Leaves, exit_zombie-Leaves, scan-child, scan-no_zombie,
}
use operating_system.Proc.Quiet.{
  awake-Quiet, wakeup-Quiet, kill-Quiet, exit_files-Quiet, freed_child-Quiet, fork_adopt-StaysOn,
  fork_start-Quiet,
}
use operating_system.Proc.Safety.{IsPlaced, stay-IsPlaced, leave-IsPlaced, enter-IsPlaced}
use operating_system.Proc.Freed.{Freed, freeproc-Freed}

record IsGood (k : Kernel) : Type 0 where
  sound : IsSound k
  placed : IsPlaced k

Quiet-IsGood : (k k' : Kernel) → Quiet k k' → IsGood k → IsGood k'
Quiet-IsGood k k' q g = record {
  sound = calm-IsSound k k' q.calm q.same_init g.sound;
  placed = stay-IsPlaced k k' q.running_stays q.same_cpus g.placed;
}

-- A process gives up its CPU.
Leaves-IsGood :
    (k k' : Kernel) (c p : ℕ) → k.cpu c ≡ some p → Leaves c p k k' → IsGood k → IsGood k'
Leaves-IsGood k k' c p at l g = record {
  sound = l.sound;
  placed = leave-IsPlaced k k' c p at l.others_stay l.cpus g.placed;
}

put-Leaves :
    (k : Kernel) (c p : ℕ) (q : Proc)
    → IsSound (put_proc k p q)
    → Leaves c p k (on_cpu (put_proc k p q) c none)
put-Leaves k c p q s = record {
  sound = on_cpu-IsSound (put_proc k p q) c none s;
  others_stay = λ i ne h. ap (λ r. r.state) (put_proc-other k p q i ne) ∙ h;
  cpus = λ d. refl;
}

yield-IsGood : (k : Kernel) (c p : ℕ) → k.cpu c ≡ some p → IsGood k → IsGood (yield k c p)
unfolding yield
yield-IsGood k c p at g =
    Leaves-IsGood k _ c p at
      (put-Leaves k c p _ (calm-IsSound k _ (yield-Calm k c p (g.placed.on c p at)) refl g.sound)) g

sleep-IsGood :
    (k : Kernel) (c p a : ℕ) → k.cpu c ≡ some p → IsGood k → IsGood (sleep k c p (other_chan a))
unfolding sleep
sleep-IsGood k c p a at g =
    Leaves-IsGood k _ c p at
      (put-Leaves k c p _ (calm-IsSound k _ (sleep-Calm k c p a (g.placed.on c p at)) refl g.sound))
      g

schedule-IsGood : (k : Kernel) (c p : ℕ) → IsGood k → IsGood (schedule k c p)
unfolding schedule
schedule-IsGood k c p g = elim (Bool-cases (is_runnable (k.slot p).state)) [
  | inl h ↦
      let was : (k.slot p).state ≡ runnable = is_runnable_lem _ h in
      let q : Proc = record (k.slot p) { state = running } in
      let s : IsSound (put_proc k p q) =
        calm-IsSound k _ (up-Calm k p q (λ f. cc (was, f)) (inr refl) refl) refl g.sound in
      rw h (record {
        sound = on_cpu-IsSound (put_proc k p q) c (some p) s;
        placed = enter-IsPlaced k c p q refl was g.placed;
      })
  | inr h ↦ rw h g
]

fork_adopt-IsGood :
    (k : Kernel) (c p np : ℕ)
    → k.cpu c ≡ some p
    → (k.slot np).state ≡ used
    → IsGood k
    → IsGood (fork_adopt k p np)
unfolding fork_adopt
fork_adopt-IsGood k c p np at new g = record {
  sound = fork_adopt-IsSound k p np (ap is_live (g.placed.on c p at)) new g.sound;
  placed = stay-IsPlaced k _ (fork_adopt-StaysOn k p np) refl g.placed;
}

wait_round-IsGood :
    (k : Kernel) (c p : ℕ) (copied : Bool)
    → k.cpu c ≡ some p
    → IsGood k
    → IsGood (wait_round k c p copied).1
unfolding wait_round sleep
wait_round-IsGood k c p copied at g = go copied (scan nproc k.slot p 0 false) refl
  where
    -- by what the loop over the table has found
    go :
        (copied : Bool) (f : Found)
        → scan nproc k.slot p 0 false ≡ f
        → IsGood (wait_round k c p copied).1
    go true (child np) e =
        rw (e, wait_round)
          (Quiet-IsGood k _ (freed_child-Quiet k np (scan-child nproc k.slot p 0 false np e).1) g)
    go false (child np) e = rw (e, wait_round) g
    go copied (no_zombie havekids) e = elim (Bool-cases (not havekids || (k.slot p).killed)) [
      | inl h ↦ rw (e, h, wait_round) g
      | inr h ↦
          let none_dead : (z : ℕ)
              → z < nproc
              → (k.slot z).parent ≡ some p
              → (k.slot z).state ≢ zombie =
            λ z n. scan-no_zombie nproc k.slot p 0 false havekids e z (omega arith) n in
          rw (e, h, wait_round)
            (Leaves-IsGood k _ c p at
              (put-Leaves k c p _
                (sleep-IsSound k p _ g.sound (g.placed.on c p at) refl refl refl none_dead))
              g)
    ]

-- The table after `userinit`.
booted-IsGood :
    (k k₁ : Kernel) (p : ℕ) (q : Proc)
    → IsBlank k
    → Quiet k k₁
    → (k₁.slot p).state ≡ used
    → q.state ≡ runnable
    → q.parent ≡ (k₁.slot p).parent
    → IsGood (record (put_proc k₁ p q) { initproc = p })
booted-IsGood k k₁ p q b quiet new up kin = record {
  sound = record {
    no_others = λ i n. (calm i).outside n ((quiet.calm i).outside n (b.no_process i));
    children = λ i x h. absurd (orphan i x h);
    parents = λ i x h. absurd (orphan i x h);
    init_live = ap (λ r. is_live r.state) (put_proc_self k₁ p q) ∙ ap is_live up;
    nothing_lost = λ i x z h c kid. absurd (orphan z x kid);
  };
  placed = record { on = λ c x h. absurd (idle c x h); one = λ c d x h g. absurd (idle c x h) };
}
  where
    calm : (i : ℕ) → Calm i (k₁.slot i) ((put_proc k₁ p q).slot i)
    calm = up-Calm k₁ p q (λ h. cc (new, h)) (inl up) kin

    orphan : (i x : ℕ) → ((put_proc k₁ p q).slot i).parent ≢ some x
    orphan i x h =
        let was : (k.slot i).parent ≡ some x = (quiet.calm i).child x ((calm i).child x h) in
        let no : (k.slot i).parent ≡ none = b.no_parent i in cc (was, no)

    idle : (c x : ℕ) → k₁.cpu c ≢ some x
    idle c x h =
        let was : k.cpu c ≡ some x = sym (ap (λ f. f c) quiet.same_cpus) ∙ h in
        let no : k.cpu c ≡ none = b.idle c in cc (was, no)

boot-IsGood :
    (k : Kernel) (page : Option Frame) (table cwd : Option ℕ) (k' : Kernel)
    → IsBlank k
    → userinit k page table cwd ≡ ok k'
    → IsGood k'
unfolding userinit
boot-IsGood k page table cwd k' b e =
    let made : Option ℕ × Kernel = allocproc k page table in
    let a : Allocated k made = allocproc-Allocated k page table in
    elim (Option-cases made.0) [
      | inl failed ↦
          let out : userinit k page table cwd ≡ fault = rw (failed, userinit) in
          absurd (cc (out, e))
      | inr (p, got) ↦ elim (Option-cases ((made.1).slot p).trapframe) [
        | inl failed ↦
            let out : userinit k page table cwd ≡ fault = rw (got, failed, userinit) in
            absurd (cc (out, e))
        | inr (f, frame) ↦
            let q : Proc = record ((made.1).slot p) {
              sz = 4096;
              trapframe = some (record f { others = start_registers f.others });
              cwd = cwd;
              state = runnable;
            } in
            let out : userinit k page table cwd
                ≡ ok (record (put_proc made.1 p q) { initproc = p }) =
              rw (got, frame, userinit) in
            subst IsGood (cc (out, e))
              (booted-IsGood k made.1 p q b a.quiet (a.is_new p got).0 refl refl)
      ]
    ]

Step-IsGood : {k k' : Kernel} → Step k k' → IsGood k → IsGood k'
Step-IsGood {k} (schedules c p _ _) g = schedule-IsGood k c p g
Step-IsGood {k} (yields c p at) g = yield-IsGood k c p at g
Step-IsGood {k} (sleeps c p a at) g = sleep-IsGood k c p a at g
Step-IsGood {k} (awakes c p at) g = Quiet-IsGood k _ (awake-Quiet k p) g
Step-IsGood {k} (wakes self chan) g = Quiet-IsGood k _ (wakeup-Quiet k self chan) g
Step-IsGood {k} (kills pid) g = Quiet-IsGood k _ (kill-Quiet k pid) g
Step-IsGood {k} (copies c p page table copied np k' at e) g =
    Quiet-IsGood k k' (fork_copy-Quiet k p page table copied np k' e) g
Step-IsGood {k} (adopts c p np at new) g = fork_adopt-IsGood k c p np at new g
Step-IsGood {k} (starts c p np at new) g = Quiet-IsGood k _ (fork_start-Quiet k np new) g
Step-IsGood {k} (closes c p k' at e) g = Quiet-IsGood k k' (exit_files-Quiet k p k' e) g
Step-IsGood {k} (exits c p status at last) g =
    Leaves-IsGood k _ c p at (exit_zombie-Leaves k c p status g.sound (g.placed.on c p at) last) g
Step-IsGood {k} (waits c p copied at) g = wait_round-IsGood k c p copied at g

Reachable-IsGood : {k : Kernel} → Reachable k → IsGood k
Reachable-IsGood (boots k page table cwd k' b e) = boot-IsGood k page table cwd k' b e
Reachable-IsGood (steps r s) = Step-IsGood s (Reachable-IsGood r)

-- In every reachable state of the table, a parent is a process that can run now or later, and so is the
-- first process; a process that sleeps in `wait` has no child that has ended; and only the slots of the
-- table hold processes or have parents.
pub Reachable-IsSound : {k : Kernel} → Reachable k → IsSound k
Reachable-IsSound r = (Reachable-IsGood r).sound

-- In every reachable state, the process on a CPU is RUNNING, and it is on no other CPU.
pub Reachable-IsPlaced : {k : Kernel} → Reachable k → IsPlaced k
Reachable-IsPlaced r = (Reachable-IsGood r).placed

-- In every reachable state, when a process `p` is on CPU `c`, has a child in the table that has ended,
-- and the exit status can be copied or is not asked for, a round of `wait` returns the pid of a child `np`
-- that has ended. The slot of `np` is then UNUSED, without parent and pid, not killed and on no channel,
-- its memory, its page table and its trapframe are given up, and every other slot is as before.
pub wait_round-returns :
    {k : Kernel} (c p z : ℕ)
    → Reachable k
    → k.cpu c ≡ some p
    → (k.slot z).parent ≡ some p
    → (k.slot z).state ≡ zombie
    → (np : ℕ) × (k' : Kernel) × ((k.slot np).parent ≡ some p)
      × ((k.slot np).state ≡ zombie)
      × (wait_round k c p true ≡ (returns (pos (k.slot np).pid), k'))
      × Freed k np k'
unfolding wait_round
wait_round-returns {k} c p z r at mine dead = go (scan nproc k.slot p 0 false) refl
  where
    -- by what the loop over the table has found
    go :
        (f : Found)
        → scan nproc k.slot p 0 false ≡ f
        → (np : ℕ) × (k' : Kernel) × ((k.slot np).parent ≡ some p)
          × ((k.slot np).state ≡ zombie)
          × (wait_round k c p true ≡ (returns (pos (k.slot np).pid), k'))
          × Freed k np k'
    go (child np) e =
        let found : ((k.slot np).parent ≡ some p) × ((k.slot np).state ≡ zombie) =
          scan-child nproc k.slot p 0 false np e in
        (np, freeproc k np, found.0, found.1, rw (e, wait_round), freeproc-Freed k np)
    go (no_zombie havekids) e =
        let in_table : z < nproc = (Reachable-IsSound r).children z p mine in
        absurd (
          scan-no_zombie nproc k.slot p 0 false havekids e z (omega arith) (omega (arith, in_table))
            mine dead)
