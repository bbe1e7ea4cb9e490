-- ===== src/Proc/Freed.antt =====
-- The slot that `freeproc` of mp2/kernel/proc.c gives back.
use operating_system.Common.{ℕ, ◌≡◌, refl, ap, ◌≢◌, false, none}
use operating_system.Proc.{unused, no_chan, Kernel, freeproc}
use operating_system.Proc.Table.{put_proc_self, put_proc-other}

-- What is left of the table when slot `np` is free again.
pub record Freed (k : Kernel) (np : ℕ) (k' : Kernel) : Type 0 where
  pub is_free : (k'.slot np).state ≡ unused
  pub orphan : (k'.slot np).parent ≡ none
  pub no_pid : (k'.slot np).pid ≡ 0
  pub spared : (k'.slot np).killed ≡ false
  pub waits_for_nothing : (k'.slot np).chan ≡ no_chan
  pub no_memory : ((k'.slot np).sz ≡ 0) × ((k'.slot np).pagetable ≡ none)
  pub no_frame : (k'.slot np).trapframe ≡ none
  pub others : (i : ℕ) → i ≢ np → k'.slot i ≡ k.slot i
  pub same_cpus : k'.cpu ≡ k.cpu

pub freeproc-Freed : (k : Kernel) (np : ℕ) → Freed k np (freeproc k np)
unfolding freeproc
freeproc-Freed k np =
    let own = put_proc_self k np _ in
    record {
      is_free = ap (λ q. q.state) own;
      orphan = ap (λ q. q.parent) own;
      no_pid = ap (λ q. q.pid) own;
      spared = ap (λ q. q.killed) own;
      waits_for_nothing = ap (λ q. q.chan) own;
      no_memory = (ap (λ q. q.sz) own, ap (λ q. q.pagetable) own);
      no_frame = ap (λ q. q.trapframe) own;
      others = put_proc-other k np _;
      same_cpus = refl;
    }
