-- ===== src/Proc/Tests.antt =====
-- A first process on CPU 0, its child on CPU 1, and the child's end.
use operating_system.Common.{
  ℕ, ◌≡◌, refl, inl, inr, true, false, Option, none, some, List, [], ◌∷◌, arith, ◌==◌,
  if◌then◌else◌, Bool-cases, ok, pos,
}
use operating_system.Proc.{
  unused, running, zombie, no_chan, Proc, Kernel, Frame, is_unused, find_unused, set_up, allocproc,
  wakeup, schedule, reparent, reparent_loop, kill, userinit,
}
use operating_system.Proc.Calls.{
  filedup, dup_files, close_files, idup, copy_entries, fork_fill, fork_copy, fork_adopt, fork_start,
  exit_zombie, wait_round, returns,
}
use operating_system.Proc.Step.{
  IsBlank, Reachable, boots, steps, schedules, copies, adopts, starts, exits,
}
use operating_system.Proc.Table.{IsSound}
use operating_system.Proc.Safety.{IsPlaced}
use operating_system.Proc.Freed.{Freed}
use operating_system.Proc.Invariant.{Reachable-IsSound, Reachable-IsPlaced, wait_round-returns}
use operating_system.Proc.Counts.{dup_files-close_files}
use operating_system.Proc.Killed.{Kills, kill_lem, kill-allocproc}

abbrev no_process : Proc
no_process = record {
  state = unused;
  chan = no_chan;
  killed = false;
  xstate = 0;
  pid = 0;
  parent = none;
  sz = 0;
  pagetable = none;
  trapframe = none;
  ofile = some 3 ∷ none ∷ [];
  cwd = none;
}

abbrev blank : Kernel
blank = record {
  slot = λ _. no_process;
  initproc = 0;
  nextpid = 1;
  cpu = λ _. none;
  refs = λ _. 1;
  irefs = λ _. 1;
}

blank-IsBlank : IsBlank blank
blank-IsBlank = record { no_process = λ i. refl; no_parent = λ i. refl; idle = λ c. refl }

abbrev frame : Frame
frame = record { a0 = 5; others = λ _. 5 }

abbrev booted : Kernel
booted = elim (userinit blank (some frame) (some 7) (some 1)) [ ok k ↦ k | _ ↦ blank ]

booted-Reachable : Reachable booted
unfolding userinit allocproc find_unused set_up
booted-Reachable = boots blank (some frame) (some 7) (some 1) booted blank-IsBlank refl

abbrev scheduled : Kernel
scheduled = schedule booted 0 0

scheduled-Reachable : Reachable scheduled
unfolding userinit allocproc find_unused set_up
scheduled-Reachable = steps booted-Reachable (schedules 0 0 (omega arith) refl)

abbrev copied_child : Kernel
copied_child = elim (fork_copy scheduled 0 (some frame) (some 8) true) [ ok r ↦ r.1 | _ ↦ blank ]

copied_child-Reachable : Reachable copied_child
unfolding userinit allocproc find_unused set_up schedule fork_copy fork_fill dup_files filedup idup
    copy_entries
copied_child-Reachable =
    steps scheduled-Reachable
      (copies 0 0 (some frame) (some 8) true (some 1) copied_child refl refl)

abbrev started : Kernel
started = fork_start (fork_adopt copied_child 0 1) 1

started-Reachable : Reachable started
unfolding userinit allocproc find_unused set_up schedule fork_copy fork_fill dup_files filedup idup
    copy_entries fork_adopt fork_start
started-Reachable =
    steps (steps copied_child-Reachable (adopts 0 0 1 refl refl)) (starts 0 0 1 refl refl)

abbrev two_run : Kernel
two_run = schedule started 1 1

two_run-Reachable : Reachable two_run
unfolding userinit allocproc find_unused set_up schedule fork_copy fork_fill dup_files filedup idup
    copy_entries fork_adopt fork_start
two_run-Reachable = steps started-Reachable (schedules 1 1 (omega arith) refl)

abbrev ended : Kernel
ended = exit_zombie two_run 1 1 9

ended-Reachable : Reachable ended
unfolding userinit allocproc find_unused set_up schedule fork_copy fork_fill dup_files filedup idup
    copy_entries fork_adopt fork_start
ended-Reachable = steps two_run-Reachable (exits 1 1 9 refl (λ e. absurd (omega arith)))

Reachable-IsSound_example : IsSound ended
Reachable-IsSound_example = Reachable-IsSound ended-Reachable

Reachable-IsPlaced_example : IsPlaced two_run
Reachable-IsPlaced_example = Reachable-IsPlaced two_run-Reachable

wait_round-returns_example :
    (np : ℕ) × (k' : Kernel) × ((ended.slot np).parent ≡ some 0)
    × ((ended.slot np).state ≡ zombie)
    × (wait_round ended 0 0 true ≡ (returns (pos (ended.slot np).pid), k'))
    × Freed ended np k'
unfolding userinit allocproc find_unused set_up schedule fork_copy fork_fill dup_files filedup idup
    copy_entries fork_adopt fork_start exit_zombie reparent reparent_loop wakeup
wait_round-returns_example = wait_round-returns 0 0 1 ended-Reachable refl refl refl

abbrev files : List (Option ℕ)
files = some 3 ∷ none ∷ some 3 ∷ []

abbrev counted : ℕ → ℕ
counted = elim (dup_files files (λ _. 1)) [ ok r ↦ r | _ ↦ λ _. 0 ]

dup_files-close_files_example :
    (r : ℕ → ℕ) × (close_files files counted ≡ ok r) × ((g : ℕ) → r g ≡ 1)
unfolding dup_files filedup
dup_files-close_files_example = dup_files-close_files files (λ _. 1) counted refl

kill_lem_example : Kills 64 started 2 0 (kill started 2)
kill_lem_example = kill_lem started 2

abbrev one_runs : Kernel
one_runs = record blank {
  slot = λ i. if i == 0 then record no_process { state = running; pid = 1 } else no_process;
}

zeros : (j : ℕ) → ((one_runs.slot j).pid == 0) ≡ is_unused (one_runs.slot j).state
zeros j = elim (Bool-cases (j == 0)) [ inl h ↦ rw h | inr h ↦ rw h ]

kill-allocproc_example :
    ((kill one_runs 0).0 ≡ pos 0)
    × (k' : Kernel) × (allocproc (kill one_runs 0).1 (some frame) (some 9) ≡ (some 1, k'))
    × ((k'.slot 1).killed ≡ true)
unfolding find_unused
kill-allocproc_example = kill-allocproc one_runs 1 9 frame zeros refl
