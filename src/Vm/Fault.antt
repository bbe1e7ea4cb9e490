-- ===== src/Vm/Fault.antt =====
-- The page fault handler of mp2/kernel/paging.c. The faulting address is `r_stval()`, and the table
-- that of the current process.
pub mod Refill
use operating_system.Common.{
  ℕ, zero, ◌<◌, ◌==◌, if◌then◌else◌, Run, ok, panic, ◌>>=◌, ℤ, pos, Option, none, some,
}
use operating_system.Memory.{page_size, page_round_down, Mem, fill_page, kalloc}
use operating_system.Vm.{Vm, walk, mappages, max_va}
use operating_system.Common.{leb, true, false}

-- PTE_W | PTE_R | PTE_U | PTE_X
abbrev pub fault_perm : ℕ
fault_perm = 30

module _ {B : Type 0} (touch : B → ℕ → ℕ → Run B) where
  -- From the result of `kalloc` on; what `mappages` returns is not looked at.
  unfoldable pub map_fresh : ℕ × Mem → B → (table va : ℕ) → Run (ℤ × Vm B)
  map_fresh (p, m) b table va = if p == 0 then panic else do
    (_, s) ←
        mappages touch
          (record { mem = record { word = fill_page m.word p 0; freelist = m.freelist }; buf = b })
          table va page_size p fault_perm
    ok (pos 0, s)

  unfoldable pub handle_pgfault : Vm B → (table fault_va : ℕ) → Run (ℤ × Vm B)
  unfolding map_fresh
  handle_pgfault s table fault_va = if leb max_va fault_va then panic else do
    (pte, s') ← walk touch s table (page_round_down fault_va) true
    elim pte [
      | none ↦ panic
      | some _ ↦ map_fresh (kalloc s'.mem) s'.buf table (page_round_down fault_va)
    ]
