-- ===== src/Vm.antt =====
-- Page tables: the functions of mp2/kernel/vm.c over the memory of kalloc.c, with the macros of
-- mp2/kernel/riscv.h. What `walk` does to the page replacement buffer is the parameter `touch`.
pub mod Pte
pub mod Tables
pub mod Install
pub mod Walk
pub mod Locate
pub mod Leaf
pub mod Map
pub mod Claim
pub mod Fault
pub mod Unmap
pub mod Kernels
mod Tests
use operating_system.Common.{
  ℕ, zero, suc, ◌+◌, ◌-◌, ◌*◌, ◌/◌, ◌%◌, ◌^◌, ◌≤◌, ◌<◌, min, max, ◌≡◌, refl, sym, ap, ap₂, ◌∙◌,
  subst, ◌≢◌, ◌↔◌, ◌⊎◌, inl, inr, Bool, true, false, not, ◌&&◌, ◌||◌, Option, none, some, List, [],
  ◌∷◌, ◌++◌, append-nil, append_assoc, arith, ltb, leb, ◌==◌, if◌then◌else◌, ltb→lt, lt→ltb, le→ltb,
  ==_iff, ==_refl, Bool-cases, Option-cases, length, get_elem?, get_or, set, take, drop, replicate,
  erase_idx, length-append, length-set, length-take, length-drop, length-replicate,
  length-erase_idx, take-set, get_or-take, get_or-set_self, contains, contains-append, IsDistinct,
  Run, ok, panic, fault, out_of_fuel, ◌>>=◌, ◌>>◌, ℤ, pos, negsuc, minus_one, is_negative,
}
use Prim.Native.Nat.{bit_and, bit_or}
use operating_system.Memory.{
  page_size, page_round_up, page_round_down, Mem, store, fill_page, kalloc, kfree,
}
use operating_system.Common.Bits.{clear_bits}

abbrev pub pte_v : ℕ
pte_v = 1

abbrev pub pte_r : ℕ
pte_r = 2

abbrev pub pte_w : ℕ
pte_w = 4

abbrev pub pte_x : ℕ
pte_x = 8

abbrev pub pte_u : ℕ
pte_u = 16

abbrev pub pte_p : ℕ
pte_p = 256

abbrev pub pte_s : ℕ
pte_s = 512

-- `pte & flag` as a condition.
abbrev pub has : ℕ → ℕ → Bool
has e flag = not (bit_and e flag == 0)

-- PA2PTE, PTE2PA and PTE_FLAGS; shifts of `uint64`.
unfoldable pub pa_to_pte : ℕ → ℕ
pa_to_pte pa = pa / 2 ^ 12 * 2 ^ 10 % 2 ^ 64

unfoldable pub pte_to_pa : ℕ → ℕ
pte_to_pa e = e / 2 ^ 10 * 2 ^ 12 % 2 ^ 64

unfoldable pub pte_flags : ℕ → ℕ
pte_flags e = bit_and e 0x3ff

-- PX(level, va); `& 0x1ff` is `% 512`.
unfoldable pub px : ℕ → ℕ → ℕ
px level va = va / 2 ^ (12 + 9 * level) % 512

-- MAXVA
abbrev pub max_va : ℕ
max_va = 2 ^ 38

-- `&pagetable[PX(level, va)]`
abbrev pub entry : ℕ → ℕ → ℕ → ℕ
entry table level va = table + 8 * px level va

-- The new table of a level, if `kalloc` gave a page, and the entry that points to it.
unfoldable pub install_table : ℕ × Mem → ℕ → Option ℕ × Mem
install_table (p, m) pte =
    if p == 0
    then (none, m)
    else (some p, record m { word = store (fill_page m.word p 0) pte (bit_or (pa_to_pte p) pte_v) })

-- One round of the loop of `walk`: the next table, or `none` where it returns 0.
unfoldable pub walk_step : Mem → (table va level : ℕ) → (alloc : Bool) → Option ℕ × Mem
walk_step m table va level alloc =
    if has (m.word (entry table level va)) pte_v
    then (some (pte_to_pa (m.word (entry table level va))), m)
    else if alloc
    then install_table (kalloc m) (entry table level va)
    else (none, m)

-- The round for level 1, after that for level 2.
unfoldable pub walk_second : Option ℕ × Mem → (va : ℕ) → (alloc : Bool) → Option ℕ × Mem
walk_second (none, m) va alloc = (none, m)
walk_second (some table, m) va alloc = walk_step m table va 1 alloc

-- The loop, for levels 2 and 1: the table of level 0.
unfoldable pub walk_tables : Mem → (table va : ℕ) → (alloc : Bool) → Option ℕ × Mem
unfolding walk_second
walk_tables m table va alloc = walk_second (walk_step m table va 2 alloc) va alloc

-- Memory and the state of the page replacement buffer.
pub record Vm (B : Type 0) : Type 0 where
  pub mem : Mem
  pub buf : B

-- A store of `*pte = v`.
unfoldable pub set_pte : {B : Type 0} → Vm B → ℕ → ℕ → Vm B
set_pte s pte v = record {
  mem = record { word = store s.mem.word pte v; freelist = s.mem.freelist };
  buf = s.buf;
}

-- The tests of `walkaddr` on the entry that `walk` found.
unfoldable pub user_page : ℕ → ℕ
user_page e = if not (has e pte_v) then 0 else if not (has e pte_u) then 0 else pte_to_pa e

-- What `mappages` does after a round: it returns -1 or 0, or goes on.
unfoldable pub map_next :
    {B : Type 0} → (is_last : Bool) → (Vm B → Run (ℤ × Vm B)) → Bool × Vm B → Run (ℤ × Vm B)
map_next is_last more (false, s) = ok (minus_one, s)
map_next true more (true, s) = ok (pos 0, s)
map_next false more (true, s) = more s

-- One round of the loop of `uvmunmap` on the entry that `walk` found.
unfoldable pub unmap_entry :
    {B : Type 0} (kernel_end : ℕ) → Vm B → (pte : ℕ) → (do_free : Bool) → Run (Vm B)
unmap_entry kernel_end s pte do_free =
    if has (s.mem.word pte) pte_s
    then ok s
    else if not (has (s.mem.word pte) pte_v)
    then ok s
    else if pte_flags (s.mem.word pte) == pte_v
    then panic
    else if do_free
    then (do
      m ← kfree kernel_end s.mem (pte_to_pa (s.mem.word pte))
      ok (set_pte (record { mem = m; buf = s.buf }) pte 0))
    else ok (set_pte s pte 0)

-- A new root table, or 0.
unfoldable pub uvmcreate : {B : Type 0} → Vm B → ℕ × Vm B
uvmcreate s =
    let (p, m) = kalloc s.mem in
    if p == 0 then (0, record { mem = m; buf = s.buf }) else (
      p,
      record { mem = record { word = fill_page m.word p 0; freelist = m.freelist }; buf = s.buf },
    )

-- As `walk` panics from MAXVA on, no loop over pages makes more rounds than this.
abbrev pub page_rounds : ℕ
page_rounds = max_va / page_size + 2

module _ {B : Type 0} (touch : B → ℕ → ℕ → Run B) where
  -- `walk` after the loop: the entry in the last table is an access.
  unfoldable pub walk_leaf : Option ℕ × Mem → B → (va : ℕ) → Run (Option ℕ × Vm B)
  walk_leaf (none, m) b va = ok (none, record { mem = m; buf = b })
  walk_leaf (some table, m) b va = do
    b' ← touch b (entry table 0 va) (m.word (entry table 0 va))
    ok (some (entry table 0 va), record { mem = m; buf = b' })

  -- The address of the entry for `va`, or `none` where the source returns 0.
  unfoldable pub walk : Vm B → (table va : ℕ) → (alloc : Bool) → Run (Option ℕ × Vm B)
  unfolding walk_leaf
  walk s table va alloc =
      if leb max_va va then panic else walk_leaf (walk_tables s.mem table va alloc) s.buf va

  unfoldable pub walkaddr : Vm B → (table va : ℕ) → Run (ℕ × Vm B)
  unfolding walk user_page
  walkaddr s table va = if leb max_va va then ok (0, s) else do
    (pte, s') ← walk s table va false
    elim pte [ none ↦ ok (0, s') | some p ↦ ok (user_page (s'.mem.word p), s') ]

  -- One round of the loop of `mappages`: false where `walk` returned 0.
  unfoldable pub map_page : Vm B → (table a pa perm : ℕ) → Run (Bool × Vm B)
  map_page s table a pa perm = do
    (pte, s') ← walk s table a true
    elim pte [
      | none ↦ ok (false, s')
      | some p ↦
          if has (s'.mem.word p) pte_v
          then panic
          else ok (true, set_pte s' p (bit_or (bit_or (pa_to_pte pa) perm) pte_v))
    ]

  unfoldable pub map_loop : (fuel : ℕ) → Vm B → (table a last pa perm : ℕ) → Run (ℤ × Vm B)
  unfolding map_next
  map_loop zero s table a last pa perm = out_of_fuel
  map_loop (suc fuel) s table a last pa perm =
      map_page s table a pa perm
      >>= map_next (a == last) λ s'.
        map_loop fuel s' table ((a + page_size) % 2 ^ 64) last ((pa + page_size) % 2 ^ 64) perm

  unfoldable pub mappages : Vm B → (table va size pa perm : ℕ) → Run (ℤ × Vm B)
  mappages s table va size pa perm =
      if size == 0
      then panic
      else map_loop page_rounds s table (page_round_down va)
          (page_round_down ((va + size - 1) % 2 ^ 64)) pa perm

  unfoldable pub kvmmap : Vm B → (table va pa size perm : ℕ) → Run (Vm B)
  kvmmap s table va pa size perm = do
    (r, s') ← mappages s table va size pa perm
    elim r [ pos zero ↦ ok s' | pos (suc _) ↦ panic | negsuc _ ↦ panic ]

  unfoldable pub unmap_loop :
      (fuel kernel_end : ℕ) → Vm B → (table a end : ℕ) → (do_free : Bool) → Run (Vm B)
  unmap_loop zero kernel_end s table a end do_free = out_of_fuel
  unmap_loop (suc fuel) kernel_end s table a end do_free = elim (ltb a end) [
    | false ↦ ok s
    | true ↦ walk s table a false >>= λ r. elim r.0 [
      | none ↦ panic
      | some p ↦ unmap_entry kernel_end r.1 p do_free >>= λ s'.
          unmap_loop fuel kernel_end s' table ((a + page_size) % 2 ^ 64) end do_free
    ]
  ]

  unfoldable pub uvmunmap :
      (kernel_end : ℕ) → Vm B → (table va npages : ℕ) → (do_free : Bool) → Run (Vm B)
  uvmunmap kernel_end s table va npages do_free =
      if not (va % page_size == 0)
      then panic
      else unmap_loop page_rounds kernel_end s table va ((va + npages * page_size) % 2 ^ 64) do_free

  -- `npages` is an `int` in the source; that it fits is taken as given.
  unfoldable pub uvmdealloc : (kernel_end : ℕ) → Vm B → (table oldsz newsz : ℕ) → Run (ℕ × Vm B)
  uvmdealloc kernel_end s table oldsz newsz =
      if leb oldsz newsz
      then ok (oldsz, s)
      else if ltb (page_round_up newsz) (page_round_up oldsz)
      then (do
        s' ←
            uvmunmap kernel_end s table (page_round_up newsz)
              ((page_round_up oldsz - page_round_up newsz) / page_size) true
        ok (newsz, s'))
      else ok (newsz, s)

  unfoldable pub uvmclear : Vm B → (table va : ℕ) → Run (Vm B)
  uvmclear s table va = do
    (pte, s') ← walk s table va false
    elim pte [ none ↦ panic | some p ↦ ok (set_pte s' p (clear_bits (s'.mem.word p) pte_u)) ]
