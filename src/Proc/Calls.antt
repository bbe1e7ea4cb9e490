-- ===== src/Proc/Calls.antt =====
-- `fork`, `exit` and `wait` of mp2/kernel/proc.c. The three sections of `fork` under different locks are
-- one step each. What `fileclose` does to the pipe or inode of a file that nothing refers to any more,
-- and what `iput` does to an inode on the disk, does not appear.
use operating_system.Common.{
  ℕ, zero, suc, ◌+◌, ◌-◌, Bool, false, not, ◌&&◌, ◌||◌, Option, none, some, List, [], ◌∷◌, ltb,
  ◌==◌, if◌then◌else◌, length, replicate, Run, ok, panic, fault, ◌>>=◌, ℤ, pos, minus_one,
}
use operating_system.Proc.{
  Proc, Kernel, Frame, nproc, runnable, zombie, proc_chan, is_zombie, points_to, put_proc, on_cpu,
  freeproc, allocproc, wakeup, sleep, reparent,
}

-- `filedup` and `fileclose` of file.c on the reference counts.
unfoldable pub filedup : (ℕ → ℕ) → ℕ → Run (ℕ → ℕ)
filedup refs f = if ltb (refs f) 1 then panic else ok (λ g. if g == f then refs g + 1 else refs g)

unfoldable pub fileclose : (ℕ → ℕ) → ℕ → Run (ℕ → ℕ)
fileclose refs f = if ltb (refs f) 1 then panic else ok (λ g. if g == f then refs g - 1 else refs g)

-- The loop of `fork` over the open files.
unfoldable pub dup_files : List (Option ℕ) → (ℕ → ℕ) → Run (ℕ → ℕ)
unfolding filedup
dup_files [] refs = ok refs
dup_files (none ∷ fs) refs = dup_files fs refs
dup_files (some f ∷ fs) refs = filedup refs f >>= λ refs'. dup_files fs refs'

-- The loop of `exit`.
unfoldable pub close_files : List (Option ℕ) → (ℕ → ℕ) → Run (ℕ → ℕ)
unfolding fileclose
close_files [] refs = ok refs
close_files (none ∷ fs) refs = close_files fs refs
close_files (some f ∷ fs) refs = fileclose refs f >>= λ refs'. close_files fs refs'

-- `idup` and `iput` on the reference counts, which are of type `int`; `idup` of no inode is not made.
unfoldable pub idup : (ℕ → ℕ) → Option ℕ → Run (ℕ → ℕ)
idup irefs none = fault
idup irefs (some i) = ok (λ j. if j == i then irefs j + 1 else irefs j)

unfoldable pub iput : (ℕ → ℕ) → Option ℕ → Run (ℕ → ℕ)
iput irefs none = fault
iput irefs (some i) = ok (λ j. if j == i then irefs j - 1 else irefs j)

-- An entry of the parent that is 0 leaves the child's entry.
unfoldable pub copy_entries : List (Option ℕ) → List (Option ℕ) → List (Option ℕ)
copy_entries (some f ∷ fs) (_ ∷ gs) = some f ∷ copy_entries fs gs
copy_entries (none ∷ fs) (g ∷ gs) = g ∷ copy_entries fs gs
copy_entries _ gs = gs

-- `fork` by process `p` when it has the slot `np`: the memory, the registers, the files and the directory.
unfoldable pub fork_fill : Kernel → (p np : ℕ) → (copied : Bool) → Run (Option ℕ × Kernel)
unfolding freeproc dup_files idup copy_entries
fork_fill k p np copied =
    if not copied then ok (none, freeproc k np) else elim (k.slot p).trapframe [
      | none ↦ fault
      | some f ↦ do
        refs ← dup_files (k.slot p).ofile k.refs
        irefs ← idup k.irefs (k.slot p).cwd
        ok (
          some np,
          record (put_proc k np (record (k.slot np) {
            sz = (k.slot p).sz;
            trapframe = some (record f { a0 = 0 });
            ofile = copy_entries (k.slot p).ofile (k.slot np).ofile;
            cwd = (k.slot p).cwd;
          })) { refs = refs; irefs = irefs },
        )
    ]

-- The first section of `fork` by process `p`: the child's slot, if there is one.
unfoldable pub fork_copy :
    Kernel
    → (p : ℕ) → (page : Option Frame) → (table : Option ℕ) → (copied : Bool)
    → Run (Option ℕ × Kernel)
unfolding allocproc fork_fill
fork_copy k p page table copied =
    let made = allocproc k page table in
    elim made.0 [ none ↦ ok (none, made.1) | some np ↦ fork_fill made.1 p np copied ]

-- The second, under `wait_lock`, and the third.
unfoldable pub fork_adopt : Kernel → (p np : ℕ) → Kernel
fork_adopt k p np = put_proc k np (record (k.slot np) { parent = some p })

unfoldable pub fork_start : Kernel → (np : ℕ) → Kernel
fork_start k np = put_proc k np (record (k.slot np) { state = runnable })

-- The first part of `exit` by process `p`: its files and its directory.
unfoldable pub exit_files : Kernel → (p : ℕ) → Run Kernel
unfolding close_files iput
exit_files k p = if p == k.initproc then panic else do
  refs ← close_files (k.slot p).ofile k.refs
  irefs ← iput k.irefs (k.slot p).cwd
  ok
      (record (put_proc k p
        (record (k.slot p) { ofile = replicate (length (k.slot p).ofile) none; cwd = none })) {
          refs = refs;
          irefs = irefs;
        })

-- `wakeup(p->parent)`; no process sleeps on 0.
abbrev pub wake_parent : Kernel → ℕ → Kernel
wake_parent k p = elim (k.slot p).parent [ none ↦ k | some q ↦ wakeup k (some p) (proc_chan q) ]

-- The rest, under `wait_lock`, up to the switch to the scheduler of CPU `c`.
unfoldable pub exit_zombie : Kernel → (c p status : ℕ) → Kernel
unfolding reparent wakeup
exit_zombie k c p status =
    let k' = wake_parent (reparent k p) p in
    on_cpu (put_proc k' p (record (k'.slot p) { xstate = status; state = zombie })) c none

-- What a round of the outer loop of `wait` finds in the table.
pub data Found : Type 0 where
  child : (np : ℕ) → Found
  no_zombie : (havekids : Bool) → Found

unfoldable pub scan : (rounds : ℕ) → (ℕ → Proc) → (p i : ℕ) → (havekids : Bool) → Found
scan zero slot p i havekids = no_zombie havekids
scan (suc n) slot p i havekids =
    let rest = scan n slot p (i + 1) (havekids || points_to (slot i).parent p) in
    if points_to (slot i).parent p && is_zombie (slot i).state then child i else rest

-- How such a round ends: `wait` returns, or it sleeps.
pub data Waited : Type 0 where
  returns : ℤ → Waited
  sleeps : Waited

-- A round of the outer loop of `wait` by the process `p` on CPU `c`, under `wait_lock`. `copied` says
-- whether `addr` is 0 or the exit status could be copied.
unfoldable pub wait_round : Kernel → (c p : ℕ) → (copied : Bool) → Waited × Kernel
unfolding scan sleep freeproc
wait_round k c p copied = elim (scan nproc k.slot p 0 false) [
  | child np ↦
      if copied then (returns (pos (k.slot np).pid), freeproc k np) else (returns minus_one, k)
  | no_zombie havekids ↦
      if not havekids || (k.slot p).killed
      then (returns minus_one, k)
      else (sleeps, sleep k c p (proc_chan p))
]
