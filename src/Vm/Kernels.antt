-- ===== src/Vm/Kernels.antt =====
-- The two kernels that mp2/Makefile builds: page tables with the LRU and with the FIFO buffer.
use operating_system.Common.{ℕ, ◌≡◌, inl, inr, Bool-cases, IsDistinct, ok}
use operating_system.Paging.Buffer.{buf_size}
use operating_system.Paging.Lru.{Lru}
use operating_system.Paging.Lru.Laws
use operating_system.Paging.Replace.{Globals, FifoState, is_first_three, lru_touch, fifo_touch}
use operating_system.Paging.Replace.Recency.{last_n-IsDistinct, move_to_back-IsDistinct}
use operating_system.Paging.Replace.LruSpec.{lru_touch-Accessed, lru_touch_exempt}
use operating_system.Paging.Replace.FifoSpec.{Mirrors, fifo_touch_lem, fifo_touch_exempt}
use operating_system.Vm.{Vm}
use operating_system.Vm.Map.{IsState}
use operating_system.Vm.Tables.{Roles}

-- A sound LRU buffer holds no entry twice.
abbrev pub LruGood : Lru → Type 0
LruGood l = Laws.IsValid l × IsDistinct (Laws.contents l)

-- In the LRU kernel an access never fails and keeps the buffer sound.
pub lru_touch-LruGood :
    (g : Globals) (l : Lru) (pte t : ℕ)
    → LruGood l
    → (l' : Lru) × (lru_touch g l pte t ≡ ok l') × LruGood l'
lru_touch-LruGood g l pte t (v, d) = elim (Bool-cases (is_first_three g t)) [
  | inl e ↦ (l, lru_touch_exempt g l pte t e, (v, d))
  | inr e ↦
      let (l', done, c, v') = lru_touch-Accessed g pte t v e d in
      (
        l',
        done,
        (v', rw c (last_n-IsDistinct buf_size _ (move_to_back-IsDistinct pte (Laws.contents l) d))),
      )
]

-- So it does in the FIFO kernel.
pub fifo_touch-Mirrors :
    (g : Globals) (s : FifoState) (pte t : ℕ)
    → Mirrors s
    → (s' : FifoState) × (fifo_touch g s pte t ≡ ok s') × Mirrors s'
fifo_touch-Mirrors g s pte t m = elim (Bool-cases (is_first_three g t)) [
  | inl e ↦ (s, fifo_touch_exempt g s pte t e, m)
  | inr e ↦ let (s', done, c, m') = fifo_touch_lem g pte t m e in (s', done, m')
]

module _ (g : Globals) where
  abbrev pub LruState : Vm Lru → Roles → ℕ → Type 0
  LruState = IsState (lru_touch g) LruGood (lru_touch-LruGood g)

  abbrev pub FifoKernelState : Vm FifoState → Roles → ℕ → Type 0
  FifoKernelState = IsState (fifo_touch g) Mirrors (fifo_touch-Mirrors g)
