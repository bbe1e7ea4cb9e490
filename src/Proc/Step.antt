-- ===== src/Proc/Step.antt =====
-- The steps of the processes and of the schedulers on the table, each under its locks. A process that
-- is on a CPU may do any of its steps next.
use operating_system.Common.{ℕ, ◌<◌, ◌≡◌, ◌≢◌, Bool, Option, none, some, ok}
use operating_system.Proc.{
  unused, used, other_chan, Chan, Kernel, Frame, nproc, userinit, wakeup, sleep, awake, yield,
  schedule, kill,
}
use operating_system.Proc.Calls.{
  fork_copy, fork_adopt, fork_start, exit_files, exit_zombie, wait_round,
}

pub data Step (k : Kernel) : Kernel → Type 0 where
  schedules : (c p : ℕ) → p < nproc → k.cpu c ≡ none → Step k (schedule k c p)
  yields : (c p : ℕ) → k.cpu c ≡ some p → Step k (yield k c p)
  -- Only `wait` sleeps on the address of a process.
  sleeps : (c p a : ℕ) → k.cpu c ≡ some p → Step k (sleep k c p (other_chan a))
  awakes : (c p : ℕ) → k.cpu c ≡ some p → Step k (awake k p)
  -- by a process, or by an interrupt while no process runs
  wakes : (self : Option ℕ) (chan : Chan) → Step k (wakeup k self chan)
  kills : (pid : ℕ) → Step k (kill k pid).1
  copies :
      (c p : ℕ) (page : Option Frame) (table : Option ℕ) (copied : Bool) (np : Option ℕ)
      (k' : Kernel)
      → k.cpu c ≡ some p
      → fork_copy k p page table copied ≡ ok (np, k')
      → Step k k'
  adopts : (c p np : ℕ) → k.cpu c ≡ some p → (k.slot np).state ≡ used → Step k (fork_adopt k p np)
  starts : (c p np : ℕ) → k.cpu c ≡ some p → (k.slot np).state ≡ used → Step k (fork_start k np)
  closes : (c p : ℕ) (k' : Kernel) → k.cpu c ≡ some p → exit_files k p ≡ ok k' → Step k k'
  -- `exit_files` has ended in a panic for the first process.
  exits : (c p status : ℕ) → k.cpu c ≡ some p → p ≢ k.initproc → Step k (exit_zombie k c p status)
  waits : (c p : ℕ) (copied : Bool) → k.cpu c ≡ some p → Step k (wait_round k c p copied).1

-- The table before `userinit`: it is all 0, and no CPU has a process.
pub record IsBlank (k : Kernel) : Type 0 where
  pub no_process : (i : ℕ) → (k.slot i).state ≡ unused
  pub no_parent : (i : ℕ) → (k.slot i).parent ≡ none
  pub idle : (c : ℕ) → k.cpu c ≡ none

pub data Reachable : Kernel → Type 0 where
  boots :
      (k : Kernel) (page : Option Frame) (table cwd : Option ℕ) (k' : Kernel)
      → IsBlank k
      → userinit k page table cwd ≡ ok k'
      → Reachable k'
  steps : {k k' : Kernel} → Reachable k → Step k k' → Reachable k'
