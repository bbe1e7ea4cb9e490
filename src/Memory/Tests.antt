-- ===== src/Memory/Tests.antt =====
-- The allocator of mp2/kernel/kalloc.c with two free pages.
use operating_system.Common.{ℕ, ◌-◌, ◌/◌, ◌≡◌, refl, [], ◌∷◌, arith, ◌==◌, if◌then◌else◌, ok}
use operating_system.Memory.{page_size, phys_stop, page_round_up, Mem, kalloc, kfree, kinit}
use operating_system.Memory.FreeList.{nil, cons, Free, IsPage, kinit_lem, pages_from, kalloc-kfree}

abbrev kernel_end : ℕ
kernel_end = 0x80021000

abbrev words : ℕ → ℕ
words a = if a == 0x87001000 then 0x87000000 else 0

abbrev memory : Mem
memory = record { word = words; freelist = 0x87001000 }

memory-Free : Free memory (0x87001000 ∷ 0x87000000 ∷ [])
memory-Free = cons (λ e. cc e) refl refl refl (cons (λ e. cc e) refl refl refl nil)

freed-IsPage : IsPage kernel_end 0x87005000
freed-IsPage = record {
  aligned = refl;
  above = omega arith;
  below = omega arith;
  not_zero = λ e. cc e;
}

kinit_lem_example :
    (m' : Mem) × (kinit kernel_end (record { word = words; freelist = 0 }) ≡ ok m')
    × Free m' (
        pages_from
          ((phys_stop - page_round_up kernel_end) / page_size)
          (page_round_up kernel_end)
          [])
kinit_lem_example =
    kinit_lem kernel_end (record { word = words; freelist = 0 }) refl (omega arith) (omega arith)

kalloc-kfree_example :
    (m₁ : Mem) × (m₂ : Mem) × (kfree kernel_end memory 0x87005000 ≡ ok m₁)
    × (kalloc m₁ ≡ (0x87005000, m₂))
    × Free m₂ (0x87001000 ∷ 0x87000000 ∷ [])
kalloc-kfree_example = kalloc-kfree memory-Free freed-IsPage refl
