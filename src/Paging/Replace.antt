-- ===== src/Paging/Replace.antt =====
-- How `walk` of mp2/kernel/vm.c accounts for an access to the page-table entry that it returns, in
-- a kernel built with PG_REPLACEMENT_USE_LRU and in one built with PG_REPLACEMENT_USE_FIFO.
pub mod Recency
pub mod LruSpec
pub mod FifoSpec
use operating_system.Common.{
  ℕ, zero, suc, ◌+◌, ◌-◌, ◌*◌, ◌/◌, ◌%◌, ◌^◌, ◌≤◌, ◌<◌, min, max, ◌≡◌, refl, sym, ap, ap₂, ◌∙◌,
  subst, ◌≢◌, ◌↔◌, ◌⊎◌, inl, inr, Bool, true, false, not, ◌&&◌, ◌||◌, Option, none, some, List, [],
  ◌∷◌, ◌++◌, append-nil, append_assoc, arith, ltb, leb, ◌==◌, if◌then◌else◌, ltb→lt, lt→ltb, le→ltb,
  ==_iff, ==_refl, Bool-cases, Option-cases, length, get_elem?, get_or, set, take, drop, replicate,
  erase_idx, length-append, length-set, length-take, length-drop, length-replicate,
  length-erase_idx, take-set, get_or-take, get_or-set_self, contains, contains-append, IsDistinct,
  Run, ok, panic, fault, ◌>>=◌, ◌>>◌, ℤ, pos, negsuc, minus_one, is_negative,
}
use operating_system.Paging.Buffer.{buf_size, shift_down}
use operating_system.Paging.Fifo.{Queue, q_find, q_full, q_pop_idx, q_push}
use operating_system.Paging.Lru.{Lru, lru_find, lru_full, lru_pop, lru_push}

-- The globals `first_three`, `pinned` and `fifo_flag`.
pub record Globals : Type 0 where
  pub first_three : List ℕ
  pub pinned : ℕ
  pub fifo_flag : ℕ

-- The loop `for (i = 0; i < 3; i++) if (first_three[i] == t) return pte;`: whether it returns.
unfoldable pub is_first_three : Globals → ℕ → Bool
is_first_three g t = contains (take 3 g.first_three) t

unfoldable pub lru_push_back : Lru → ℕ → Run Lru
lru_push_back l pte = do (_, l') ← lru_push l pte; ok l'

-- The branch for an entry that the buffer lacks.
unfoldable pub lru_insert : Globals → Lru → ℕ → ℕ → Run Lru
unfolding lru_push_back is_first_three
lru_insert g l pte t = do
  l' ← if lru_full l then (do (_, l') ← lru_pop l (pos 0); ok l') else ok l
  if is_first_three g t then ok l' else lru_push_back l' pte

-- The branch for an entry at `idx`.
unfoldable pub lru_refresh : Globals → Lru → ℕ → ℕ → ℤ → Run Lru
unfolding lru_push_back is_first_three
lru_refresh g l pte t idx = do
  (_, l') ← lru_pop l idx
  if is_first_three g t then ok l' else lru_push_back l' pte

-- Lines 127 to 159: `pte` is the address of the entry and `t` its value.
unfoldable pub lru_touch : Globals → Lru → ℕ → ℕ → Run Lru
unfolding lru_insert lru_refresh is_first_three
lru_touch g l pte t = if is_first_three g t then ok l else do
  found ← lru_find l pte
  elim found [
    | pos i ↦ lru_refresh g l pte t (pos i)
    | negsuc zero ↦ lru_insert g l pte t
    | negsuc (suc _) ↦ ok l
  ]

-- `pr_buffer` with the array that shadows it. `array_index` is an `int`.
pub record FifoState : Type 0 where
  pub queue : Queue
  pub array : List ℕ
  pub array_index : ℕ

-- `q_pop_idx(&pr_buffer, idx)` and the same removal from `array`. An index at 0 would go negative,
-- and one above PG_BUF_SIZE leaves the array.
fifo_drop : FifoState → ℕ → Run FifoState
fifo_drop s idx = do
  (_, q) ← q_pop_idx s.queue (pos idx)
  if (s.array_index == 0) || ltb buf_size s.array_index
      then fault
      else ok (record {
        queue = q;
        array = shift_down (s.array_index - 1 - idx) idx s.array;
        array_index = s.array_index - 1;
      })

-- `q_push(&pr_buffer, pte, 0); array[array_index++] = pte;`
fifo_append : FifoState → ℕ → Run FifoState
fifo_append s pte = do
  (_, q) ← q_push s.queue pte 0
  if ltb s.array_index buf_size
      then ok (record {
        queue = q;
        array = set s.array s.array_index pte;
        array_index = s.array_index + 1;
      })
      else fault

-- The eviction from a full queue; the flag says whether `walk` returns at once.
fifo_evict : Globals → FifoState → ℕ → Run (Bool × FifoState)
unfolding fifo_drop
fifo_evict g s t =
    if g.pinned == t
    then (do s' ← fifo_drop s 1; ok (false, s'))
    else if get_or s.queue.bucket 0 0 == t
    then (do s' ← fifo_drop s 1; ok (false, s'))
    else if g.fifo_flag == 1
    then (do s' ← fifo_drop s 1; ok (true, s'))
    else (do s' ← fifo_drop s 0; ok (false, s'))

-- Lines 160 to 217.
unfoldable pub fifo_touch : Globals → FifoState → ℕ → ℕ → Run FifoState
unfolding fifo_evict fifo_append is_first_three
fifo_touch g s pte t = if is_first_three g t then ok s else do
  found ← q_find s.queue pte
  elim found [
    | pos i ↦ ok s
    | negsuc (suc _) ↦ ok s
    | negsuc zero ↦ do
      (done, s') ← if q_full s.queue then fifo_evict g s t else ok (false, s)
      if done then ok s' else if is_first_three g t then ok s' else fifo_append s' pte
  ]
