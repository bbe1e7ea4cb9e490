-- ===== src/Vm/Tests.antt =====
-- A small machine: an empty root table and three free pages.
mod Tree
use operating_system.Common.{
  zero, false, ◌≤◌, ◌<◌, ℕ, suc, ◌+◌, ◌*◌, ◌≡◌, refl, sym, ap, ◌∙◌, ◌≢◌, ◌⊎◌, inl, inr, true, [],
  ◌∷◌, arith, ◌==◌, if◌then◌else◌, Bool-cases, replicate, Run, ok, ℤ, pos, minus_one,
}
use operating_system.Memory.{page_size, page_round_down, Mem, store, fill_page, kalloc}
use operating_system.Memory.FreeList.{nil, cons}
use operating_system.Paging.Lru.{Lru, lru_find, lru_full, lru_pop, lru_push}
use operating_system.Paging.Replace.{
  Globals, lru_touch, lru_insert, lru_refresh, lru_push_back, is_first_three,
}
use operating_system.Paging.Search.{find_loop}
use operating_system.Paging.Buffer.{shift_down}
use operating_system.Vm.{
  Vm, mappages, map_loop, map_page, map_next, walk, walk_leaf, walk_second, walk_step,
  install_table, set_pte, px, pa_to_pte, pte_to_pa, walkaddr, has, pte_v, walk_tables, user_page,
}
use operating_system.Vm.Tables.{Roles, Tables, slot}
use operating_system.Vm.Locate.{Walked, walk_tables-Walked, Located, Located-injective}
use operating_system.Vm.Leaf.{Maps}
use operating_system.Vm.Map.{IsState, Keeps, walkaddr-Maps}
use operating_system.Vm.Map.Range.{walkaddr-mappages}
use operating_system.Vm.Pte.{leaf}
use operating_system.Vm.Claim.{claimed_roles}
use operating_system.Vm.Fault.{handle_pgfault, fault_perm}
use operating_system.Vm.Fault.Refill.{handle_pgfault-Refilled}
use operating_system.Vm.Unmap.{RangeUnmapped, uvmunmap-RangeUnmapped}
use operating_system.Vm.Kernels.{LruGood, lru_touch-LruGood}

abbrev root : ℕ
root = 0x80000000

abbrev words : ℕ → ℕ
words a = if a == 0x80001000 then 0x80002000 else if a == 0x80002000 then 0x80003000 else 0

abbrev memory : Mem
memory = record { word = words; freelist = 0x80001000 }

abbrev roles : Roles
roles = record {
  free = 0x80001000 ∷ 0x80002000 ∷ 0x80003000 ∷ [];
  rank = λ p. if p == root then 3 else 0;
  owner = λ _. 0;
}

not_valid : has 0 pte_v ≢ true
not_valid e = cc

memory-Tables : Tables memory roles
memory-Tables = record {
  chain =
      cons (λ e. cc e) refl refl refl
        (cons (λ e. cc e) refl refl refl (cons (λ e. cc e) refl refl refl nil));
  free_rank = λ p h. (ground arith, ground arith, ground arith);
  aligned = λ p h. ground arith;
  child = λ p i k r h v.
      let none_set : words (slot p i) ≡ 0 = ground arith in
      absurd (not_valid (ap (λ w. has w pte_v) (sym none_set) ∙ v));
}

abbrev globals : Globals
globals = record { first_three = 7 ∷ 7 ∷ 7 ∷ []; pinned = 0; fifo_flag = 0 }

abbrev machine : Vm Lru
machine = record { mem = memory; buf = record { size = 0; bucket = replicate 8 0 } }

machine-IsState : IsState (lru_touch globals) LruGood (lru_touch-LruGood globals) machine roles root
machine-IsState = record {
  tables = memory-Tables;
  root_rank = refl;
  good = (record { storage = refl; fits = omega arith }, tt);
}

-- Two pages of user memory, mapped with PTE_R | PTE_U.
abbrev mapped_run : Run (ℤ × Vm Lru)
mapped_run = mappages (lru_touch globals) machine root 0x1000 0x2000 0x87000000 18

abbrev value_or : {A : Type 0} → Run A → A → A
value_or (ok a) d = a
value_or r d = d

abbrev mapped_machine : Vm Lru
mapped_machine = (value_or mapped_run (minus_one, machine)).1

mapped_run_ok : mapped_run ≡ ok (pos 0, mapped_machine)
unfolding mappages map_loop map_next map_page walk walk_leaf walk_tables walk_second walk_step
    install_table kalloc fill_page store set_pte page_round_down px pa_to_pte pte_to_pa lru_touch
    lru_insert lru_refresh lru_push_back is_first_three lru_find find_loop lru_full lru_pop lru_push
    shift_down
mapped_run_ok = refl

walkaddr-mappages_example :
    (s : Vm Lru) × (walkaddr (lru_touch globals) mapped_machine root (0x1000 + 1 * page_size)
      ≡ ok (0x87000000 + 1 * page_size, s))
unfolding mappages
walkaddr-mappages_example =
    walkaddr-mappages (lru_touch globals) LruGood (lru_touch-LruGood globals) 0x1000 1 0x87000000 18
      machine-IsState (omega arith) (omega arith) (omega arith) (omega arith) (omega arith) refl
      mapped_run_ok 1 (omega arith)

walk_tables-Walked_example : Walked memory roles root 0x5000 (walk_tables memory root 0x5000 true)
walk_tables-Walked_example = walk_tables-Walked 0x5000 memory-Tables refl
