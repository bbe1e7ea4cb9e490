-- ===== src/Proc.antt =====
-- The process table of mp2/kernel/proc.c. A slot of the table stands for the pointer to it. Each
-- function is what runs under its locks; the part of a process that `swtch` saves, its kernel stack and
-- its name do not appear. What other files decide is an argument: whether a page or a page table could
-- be had, and whether memory could be copied.

pub mod Calls
pub mod Calm
pub mod Step
pub mod Find
pub mod Fork
pub mod Table
pub mod Wake
pub mod Exit
pub mod Zombie
pub mod Family
pub mod Quiet
pub mod Safety
pub mod Freed
pub mod Invariant
pub mod Killed
pub mod Counts
mod Tests
use operating_system.Common.{
  ℕ, zero, suc, ◌+◌, ◌-◌, ◌*◌, ◌/◌, ◌%◌, ◌^◌, ◌≤◌, ◌<◌, min, max, ◌≡◌, refl, sym, ap, ap₂, ◌∙◌,
  subst, ◌≢◌, ◌↔◌, ◌⊎◌, inl, inr, Bool, true, false, not, ◌&&◌, ◌||◌, Option, none, some, List, [],
  ◌∷◌, ◌++◌, append-nil, append_assoc, arith, ltb, leb, ◌==◌, if◌then◌else◌, ltb→lt, lt→ltb, le→ltb,
  ==_iff, ==_refl, Bool-cases, Option-cases, length, get_elem?, get_or, set, take, drop, replicate,
  erase_idx, length-append, length-set, length-take, length-drop, length-replicate,
  length-erase_idx, take-set, get_or-take, get_or-set_self, contains, contains-append, IsDistinct,
  append-IsDistinct, get_elem?-lt, get_elem?-contains, Run, ok, panic, fault, out_of_fuel, ◌>>=◌,
  ◌>>◌, ℤ, pos, negsuc, minus_one, is_negative,
}

-- `enum procstate`
pub data ProcState : Type 0 where
  unused : ProcState
  used : ProcState
  sleeping : ProcState
  runnable : ProcState
  running : ProcState
  zombie : ProcState

-- What a process sleeps on: nothing, the address of a process, or another address.
pub data Chan : Type 0 where
  no_chan : Chan
  proc_chan : ℕ → Chan
  other_chan : ℕ → Chan

-- The saved user registers: a0, and the others by their place in `struct trapframe`.
pub record Frame : Type 0 where
  pub a0 : ℕ
  pub others : ℕ → ℕ

-- `struct proc`; pointers that are 0 are `none`.
pub record Proc : Type 0 where
  pub state : ProcState
  pub chan : Chan
  pub killed : Bool
  pub xstate : ℕ
  pub pid : ℕ
  pub parent : Option ℕ
  pub sz : ℕ
  pub pagetable : Option ℕ
  pub trapframe : Option Frame
  pub ofile : List (Option ℕ)
  pub cwd : Option ℕ

-- The table, `initproc`, `nextpid`, the process on each CPU, and the reference counts of the open
-- files and of the inodes.
pub record Kernel : Type 0 where
  pub slot : ℕ → Proc
  pub initproc : ℕ
  pub nextpid : ℕ
  pub cpu : ℕ → Option ℕ
  pub refs : ℕ → ℕ
  pub irefs : ℕ → ℕ

-- NPROC
abbrev pub nproc : ℕ
nproc = 64

abbrev pub is_unused : ProcState → Bool
is_unused unused = true
is_unused _ = false

abbrev pub is_sleeping : ProcState → Bool
is_sleeping sleeping = true
is_sleeping _ = false

abbrev pub is_runnable : ProcState → Bool
is_runnable runnable = true
is_runnable _ = false

abbrev pub is_zombie : ProcState → Bool
is_zombie zombie = true
is_zombie _ = false

abbrev pub same_chan : Chan → Chan → Bool
same_chan no_chan no_chan = true
same_chan (proc_chan p) (proc_chan q) = p == q
same_chan (other_chan p) (other_chan q) = p == q
same_chan _ _ = false

-- Whether a pointer is that to `p`.
abbrev pub points_to : Option ℕ → ℕ → Bool
points_to none p = false
points_to (some q) p = q == p

abbrev pub put_proc : Kernel → ℕ → Proc → Kernel
put_proc k p q = record k { slot = λ i. if i == p then q else k.slot i }

abbrev pub on_cpu : Kernel → ℕ → Option ℕ → Kernel
on_cpu k c p = record k { cpu = λ d. if d == c then p else k.cpu d }

-- `freeproc`; the pages that it gives back do not appear. `ofile` and `cwd` stay.
unfoldable pub freeproc : Kernel → ℕ → Kernel
freeproc k p = put_proc k p (record (k.slot p) {
  trapframe = none;
  pagetable = none;
  sz = 0;
  pid = 0;
  parent = none;
  chan = no_chan;
  killed = false;
  xstate = 0;
  state = unused;
})

-- The first slot that is UNUSED, from `i` on.
unfoldable pub find_unused : (rounds : ℕ) → (ℕ → Proc) → (i : ℕ) → Option ℕ
find_unused zero slot i = none
find_unused (suc n) slot i =
    let rest = find_unused n slot (i + 1) in if is_unused (slot i).state then some i else rest

-- The new process in slot `p`. The frame that `kalloc` returns holds `junk`.
unfoldable pub set_up :
    Kernel → (p : ℕ) → (page : Option Frame) → (table : Option ℕ) → Option ℕ × Kernel
unfolding freeproc
set_up k p page table =
    let fresh = record (put_proc k p (record (k.slot p) { pid = k.nextpid; state = used })) {
      nextpid = k.nextpid + 1;
    } in
    elim page [
      | none ↦ (none, freeproc fresh p)
      | some f ↦
          let framed =
            put_proc fresh p (record (fresh.slot p) { trapframe = some f; pagetable = table }) in
          elim table [ none ↦ (none, freeproc framed p) | some t ↦ (some p, framed) ]
    ]

unfoldable pub allocproc : Kernel → (page : Option Frame) → (table : Option ℕ) → Option ℕ × Kernel
unfolding find_unused set_up
allocproc k page table = elim (find_unused nproc k.slot 0) [
  | none ↦ (none, k)
  | some p ↦ set_up k p page table
]

-- `wakeup` by the process `self`; each round of its loop changes its own slot only.
unfoldable pub wakeup : Kernel → (self : Option ℕ) → Chan → Kernel
wakeup k self chan = record k {
  slot = λ i.
      if points_to self i
      then k.slot i
      else if is_sleeping (k.slot i).state && same_chan (k.slot i).chan chan
      then record (k.slot i) { state = runnable }
      else k.slot i;
}

-- `sleep` by the process on CPU `c`, up to its switch to the scheduler.
unfoldable pub sleep : Kernel → (c p : ℕ) → Chan → Kernel
sleep k c p chan =
    on_cpu (put_proc k p (record (k.slot p) { chan = chan; state = sleeping })) c none

-- The end of `sleep`, when the process runs again.
unfoldable pub awake : Kernel → (p : ℕ) → Kernel
awake k p = put_proc k p (record (k.slot p) { chan = no_chan })

unfoldable pub yield : Kernel → (c p : ℕ) → Kernel
yield k c p = on_cpu (put_proc k p (record (k.slot p) { state = runnable })) c none

-- A round of the loop of `scheduler` on CPU `c`, up to its switch to the process.
unfoldable pub schedule : Kernel → (c p : ℕ) → Kernel
schedule k c p =
    if is_runnable (k.slot p).state
    then on_cpu (put_proc k p (record (k.slot p) { state = running })) c (some p)
    else k

-- The loop of `kill`.
unfoldable pub kill_loop : (rounds : ℕ) → Kernel → (pid i : ℕ) → ℤ × Kernel
kill_loop zero k pid i = (minus_one, k)
kill_loop (suc n) k pid i =
    let rest = kill_loop n k pid (i + 1) in
    if (k.slot i).pid == pid
    then (
      pos 0,
      put_proc k i (record (k.slot i) {
        killed = true;
        state = if is_sleeping (k.slot i).state then runnable else (k.slot i).state;
      }),
    )
    else rest

unfoldable pub kill : Kernel → (pid : ℕ) → ℤ × Kernel
unfolding kill_loop
kill k pid = kill_loop nproc k pid 0

-- The loop of `reparent`, from slot `i` on.
unfoldable pub reparent_loop : (rounds : ℕ) → Kernel → (p i : ℕ) → Kernel
unfolding wakeup
reparent_loop zero k p i = k
reparent_loop (suc n) k p i =
    reparent_loop n
      (if points_to (k.slot i).parent p
        then wakeup (put_proc k i (record (k.slot i) { parent = some k.initproc })) (some p)
            (proc_chan k.initproc)
        else k)
      p (i + 1)

unfoldable pub reparent : Kernel → ℕ → Kernel
reparent k p = reparent_loop nproc k p 0

-- `epc` is at place 3 of the frame and `sp` at place 6.
abbrev pub start_registers : (ℕ → ℕ) → ℕ → ℕ
start_registers others r = if r == 3 then 0 else if r == 6 then 4096 else others r

-- `userinit`; `namei("/")` is an argument. `uvminit` does not appear, nor its failures.
unfoldable pub userinit : Kernel → (page : Option Frame) → (table cwd : Option ℕ) → Run Kernel
unfolding allocproc
userinit k page table cwd =
    let made = allocproc k page table in
    elim made.0 [
      | none ↦ fault
      | some p ↦ elim ((made.1).slot p).trapframe [
        | none ↦ fault
        | some f ↦
            ok
              (record (put_proc made.1 p (record ((made.1).slot p) {
                sz = 4096;
                trapframe = some (record f { others = start_registers f.others });
                cwd = cwd;
                state = runnable;
              })) { initproc = p })
      ]
    ]
