-- ===== src/Memory.antt =====
-- Physical memory, and its page allocator in mp2/kernel/kalloc.c. The allocator's lock makes each
-- call one step, so `acquire` and `release` do not appear.
pub mod FreeList
mod Tests
use operating_system.Common.{
  out_of_fuel, ℕ, zero, suc, ◌+◌, ◌-◌, ◌*◌, ◌/◌, ◌%◌, ◌^◌, ◌≤◌, ◌<◌, min, max, ◌≡◌, refl, sym, ap,
  ap₂, ◌∙◌, subst, ◌≢◌, ◌↔◌, ◌⊎◌, inl, inr, Bool, true, false, not, ◌&&◌, ◌||◌, Option, none, some,
  List, [], ◌∷◌, ◌++◌, append-nil, append_assoc, arith, ltb, leb, ◌==◌, if◌then◌else◌, ltb→lt,
  lt→ltb, le→ltb, ==_iff, ==_refl, Bool-cases, Option-cases, length, get_elem?, get_or, set, take,
  drop, replicate, erase_idx, length-append, length-set, length-take, length-drop, length-replicate,
  length-erase_idx, take-set, get_or-take, get_or-set_self, contains, contains-append, IsDistinct,
  Run, ok, panic, fault, ◌>>=◌, ◌>>◌, ℤ, pos, negsuc, minus_one, is_negative,
}

-- PGSIZE and PHYSTOP of riscv.h and memlayout.h.
abbrev pub page_size : ℕ
page_size = 4096

abbrev pub phys_stop : ℕ
phys_stop = 0x88000000

unfoldable pub page_round_up : ℕ → ℕ
page_round_up sz = (sz + page_size - 1) % 2 ^ 64 / page_size * page_size

unfoldable pub page_round_down : ℕ → ℕ
page_round_down a = a / page_size * page_size

-- The 64-bit word at each address that is a multiple of 8, and `kmem.freelist`.
pub record Mem : Type 0 where
  pub word : ℕ → ℕ
  pub freelist : ℕ

unfoldable pub store : (ℕ → ℕ) → ℕ → ℕ → ℕ → ℕ
store w p v a = if a == p then v else w a

-- `memset(pa, c, PGSIZE)`, `v` being a word of eight bytes `c`.
unfoldable pub fill_page : (ℕ → ℕ) → ℕ → ℕ → ℕ → ℕ
fill_page w pa v a = if leb pa a && ltb a (pa + page_size) then v else w a

abbrev pub junk_free : ℕ
junk_free = 0x0101010101010101

abbrev pub junk_alloc : ℕ
junk_alloc = 0x0505050505050505

-- `kernel_end` is the linker's symbol `end`.
unfoldable pub kfree : (kernel_end : ℕ) → Mem → ℕ → Run Mem
kfree kernel_end m pa =
    if not (pa % page_size == 0) || (ltb pa kernel_end || leb phys_stop pa)
    then panic
    else ok (record { word = store (fill_page m.word pa junk_free) pa m.freelist; freelist = pa })

-- The page, or 0, and the new memory.
unfoldable pub kalloc : Mem → ℕ × Mem
kalloc m = if m.freelist == 0 then (0, m) else (
  m.freelist,
  record { word = fill_page m.word m.freelist junk_alloc; freelist = m.word m.freelist },
)

-- `for (; p + PGSIZE <= pa_end; p += PGSIZE) kfree(p);` with fuel for the rounds.
unfoldable pub freerange_loop : (fuel kernel_end : ℕ) → Mem → (p pa_end : ℕ) → Run Mem
freerange_loop zero kernel_end m p pa_end = out_of_fuel
freerange_loop (suc fuel) kernel_end m p pa_end = elim (leb (p + page_size) pa_end) [
  | true ↦ kfree kernel_end m p >>= λ m'. freerange_loop fuel kernel_end m' (p + page_size) pa_end
  | false ↦ ok m
]

unfoldable pub freerange : (kernel_end : ℕ) → Mem → (pa_start pa_end : ℕ) → Run Mem
freerange kernel_end m pa_start pa_end =
    freerange_loop (pa_end / page_size + 1) kernel_end m (page_round_up pa_start) pa_end

unfoldable pub kinit : (kernel_end : ℕ) → Mem → Run Mem
kinit kernel_end m = freerange kernel_end m kernel_end phys_stop
