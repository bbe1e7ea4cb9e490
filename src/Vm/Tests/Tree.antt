-- ===== src/Vm/Tests/Tree.antt =====
-- A tree of page tables with mapped, empty and swapped entries.
use operating_system.Common.{
  zero, false, ◌≤◌, ◌<◌, ℕ, suc, ◌+◌, ◌*◌, ◌/◌, ◌≡◌, refl, ◌≢◌, ◌⊎◌, inl, inr, true, [], ◌∷◌, arith,
  ◌==◌, if◌then◌else◌, Bool-cases, replicate, ok, pos,
}
use operating_system.Memory.{page_size, page_round_down, Mem}
use operating_system.Memory.FreeList.{nil, cons}
use operating_system.Paging.Lru.{Lru}
use operating_system.Paging.Replace.{lru_touch}
use operating_system.Vm.{Vm, px, pte_to_pa, walkaddr, has, pte_v}
use operating_system.Vm.Tables.{Roles, Tables, slot}
use operating_system.Vm.Locate.{Located, Located-injective}
use operating_system.Vm.Leaf.{Maps}
use operating_system.Vm.Map.{IsState, Keeps, IsUserPage, walkaddr-Maps}
use operating_system.Vm.Pte.{leaf}
use operating_system.Vm.Claim.{claimed_roles}
use operating_system.Vm.Fault.{handle_pgfault, fault_perm}
use operating_system.Vm.Fault.Refill.{handle_pgfault-Refilled}
use operating_system.Vm.Unmap.{RangeUnmapped, uvmunmap-RangeUnmapped}
use operating_system.Vm.Kernels.{LruGood, lru_touch-LruGood}
use operating_system.Vm.{uvmunmap, pte_flags}
use operating_system.Vm.Tests.{root, globals, not_valid}

-- A tree with one table on each level, the page 0x1000 mapped, 0x3000 swapped out, and a page free.
abbrev mid_table : ℕ
mid_table = 0x80001000

abbrev low_table : ℕ
low_table = 0x80002000

-- The entry of a page that is swapped out to disk block 40.
abbrev swapped : ℕ
swapped = 41502

abbrev tree_words : ℕ → ℕ
tree_words a =
    if a == root
    then 0x20000401
    else if a == mid_table
    then 0x20000801
    else if a == low_table + 8
    then 0x21C00013
    else if a == low_table + 24
    then swapped
    else 0

abbrev tree_memory : Mem
tree_memory = record { word = tree_words; freelist = 0x80003000 }

abbrev tree_roles : Roles
tree_roles = record {
  free = 0x80003000 ∷ [];
  rank =
      λ p. if p == root then 3 else if p == mid_table then 2 else if p == low_table then 1 else 0;
  owner = λ p. if p == mid_table then root else mid_table;
}

swapped_out : has swapped pte_v ≢ true
swapped_out e = cc

-- The valid words of the tree.
tree_words-cases :
    (a : ℕ) → has (tree_words a) pte_v ≡ true → (a ≡ root) ⊎ ((a ≡ mid_table) ⊎ (a ≡ low_table + 8))
tree_words-cases a h = elim (Bool-cases (a == root)) [
  | inl e ↦ inl (ground arith)
  | inr n ↦ elim (Bool-cases (a == mid_table)) [
    | inl e ↦ inr (inl (ground arith))
    | inr n' ↦ elim (Bool-cases (a == low_table + 8)) [
      | inl e ↦ inr (inr (ground arith))
      | inr n'' ↦ elim (Bool-cases (a == low_table + 24)) [
        | inl e ↦ absurd (swapped_out (rw (n, n', n'', e) at h))
        | inr n₃ ↦ absurd (not_valid (rw (n, n', n'', n₃) at h))
      ]
    ]
  ]
]

tree_rank-cases :
    (p k : ℕ)
    → tree_roles.rank p ≡ suc (suc k)
    → ((p ≡ root) × (k ≡ 1)) ⊎ ((p ≡ mid_table) × (k ≡ 0))
tree_rank-cases p k h = ground arith

tree-Tables : Tables tree_memory tree_roles
unfolding pte_to_pa
tree-Tables = record {
  chain = cons (λ e. cc e) refl refl refl nil;
  free_rank = λ p h. (ground arith, ground arith, ground arith);
  aligned = λ p h. ground arith;
  child = λ p i k r h v. elim (tree_rank-cases p k r) [
    | inl (e, z) ↦ elim (tree_words-cases (slot p i) v) [
      | inl s ↦ rw (s, z) (refl, refl)
      | inr (inl s) ↦ absurd (omega arith)
      | inr (inr s) ↦ absurd (omega arith)
    ]
    | inr (e, z) ↦ elim (tree_words-cases (slot p i) v) [
      | inl s ↦ absurd (omega arith)
      | inr (inl s) ↦ rw (s, z) (refl, refl)
      | inr (inr s) ↦ absurd (omega arith)
    ]
  ];
}

tree-Located : Located tree_memory tree_roles root 0x1000 mid_table low_table
unfolding px pte_to_pa
tree-Located = record {
  root_rank = refl;
  mid_rank = refl;
  low_rank = refl;
  upper = record { valid = refl; target = refl };
  lower = record { valid = refl; target = refl };
}

tree-Maps : Maps tree_memory tree_roles root 0x1000 0x21C00013
unfolding px
tree-Maps = record { mid = mid_table; low = low_table; located = tree-Located; holds = refl }

abbrev tree_machine : Vm Lru
tree_machine = record { mem = tree_memory; buf = record { size = 0; bucket = replicate 8 0 } }

tree_machine-IsState :
    IsState (lru_touch globals) LruGood (lru_touch-LruGood globals) tree_machine tree_roles root
tree_machine-IsState = record {
  tables = tree-Tables;
  root_rank = refl;
  good = (record { storage = refl; fits = omega arith }, tt);
}

tree-Located_inside : Located tree_memory tree_roles root 0x1abc mid_table low_table
unfolding px pte_to_pa
tree-Located_inside = record {
  root_rank = refl;
  mid_rank = refl;
  low_rank = refl;
  upper = record { valid = refl; target = refl };
  lower = record { valid = refl; target = refl };
}

Located-injective_example : 0x1000 / page_size ≡ 0x1abc / page_size
unfolding px
Located-injective_example =
    Located-injective tree-Tables tree-Located tree-Located_inside (omega arith) (omega arith) refl

walkaddr-Maps_example :
    (pa : ℕ) × (s' : Vm Lru) × (walkaddr (lru_touch globals) tree_machine root 0x1000 ≡ ok (pa, s'))
    × IsUserPage 0x21C00013 pa
    × (s'.mem ≡ tree_memory)
    × LruGood s'.buf
walkaddr-Maps_example =
    walkaddr-Maps (lru_touch globals) LruGood (lru_touch-LruGood globals) tree_machine-IsState
      (omega arith) tree-Maps

swapped-Maps : Maps tree_memory tree_roles root (page_round_down 0x3abc) swapped
unfolding px pte_to_pa page_round_down
swapped-Maps = record {
  mid = mid_table;
  low = low_table;
  located = record {
    root_rank = refl;
    mid_rank = refl;
    low_rank = refl;
    upper = record { valid = refl; target = refl };
    lower = record { valid = refl; target = refl };
  };
  holds = refl;
}

handle_pgfault-Refilled_example :
    (s' : Vm Lru) × (handle_pgfault (lru_touch globals) tree_machine root 0x3abc ≡ ok (pos 0, s'))
    × IsState
        (lru_touch globals)
        LruGood
        (lru_touch-LruGood globals)
        s'
        (claimed_roles tree_roles [])
        root
    × Maps s'.mem
        (claimed_roles tree_roles [])
        root
        (page_round_down 0x3abc)
        (leaf 0x80003000 fault_perm)
    × ((x : ℕ) → 0x80003000 ≤ x → x < 0x80003000 + page_size → s'.mem.word x ≡ 0)
    × Keeps
        (lru_touch globals)
        LruGood
        (lru_touch-LruGood globals)
        (λ a. a / page_size ≢ page_round_down 0x3abc / page_size)
        tree_memory
        tree_roles
        s'.mem
        (claimed_roles tree_roles [])
        root
handle_pgfault-Refilled_example =
    handle_pgfault-Refilled (lru_touch globals) LruGood (lru_touch-LruGood globals)
      tree_machine-IsState (omega arith) swapped-Maps refl refl

-- The entries of the three pages from 0x1000: one valid, one empty, one swapped out.
abbrev entries : ℕ → ℕ
entries zero = 0x21C00013
entries (suc zero) = 0
entries (suc (suc _)) = swapped

tree_pages : (j : ℕ) → j < 3 → Maps tree_memory tree_roles root (0x1000 + j * page_size) (entries j)
unfolding px pte_to_pa
tree_pages zero h = tree-Maps
tree_pages (suc zero) h = record {
  mid = mid_table;
  low = low_table;
  located = record {
    root_rank = refl;
    mid_rank = refl;
    low_rank = refl;
    upper = record { valid = refl; target = refl };
    lower = record { valid = refl; target = refl };
  };
  holds = refl;
}
tree_pages (suc (suc zero)) h = record {
  mid = mid_table;
  low = low_table;
  located = record {
    root_rank = refl;
    mid_rank = refl;
    low_rank = refl;
    upper = record { valid = refl; target = refl };
    lower = record { valid = refl; target = refl };
  };
  holds = refl;
}
tree_pages (suc (suc (suc j))) h = absurd (omega arith)

entries_not_tables : (j : ℕ) → j < 3 → (pte_flags (entries j) == pte_v) ≡ false
unfolding pte_flags
entries_not_tables zero h = refl
entries_not_tables (suc zero) h = refl
entries_not_tables (suc (suc j)) h = refl

uvmunmap-RangeUnmapped_example :
    RangeUnmapped
      (lru_touch globals)
      LruGood
      (lru_touch-LruGood globals)
      0x80021000
      tree_machine
      tree_roles
      root
      0x1000
      3
      entries
      (uvmunmap (lru_touch globals) 0x80021000 tree_machine root 0x1000 3 false)
uvmunmap-RangeUnmapped_example =
    uvmunmap-RangeUnmapped (lru_touch globals) LruGood (lru_touch-LruGood globals) 0x80021000 0x1000
      3 entries tree_machine-IsState refl (omega arith) tree_pages entries_not_tables
