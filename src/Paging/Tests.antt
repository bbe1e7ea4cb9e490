-- ===== src/Paging/Tests.antt =====
-- Buffers of mp2/kernel/fifo.c and lru.c and runs of accesses, as concrete values.
use operating_system.Common.{ℕ, suc, ◌≡◌, refl, List, [], ◌∷◌, arith, IsDistinct, ok, pos}
use operating_system.Paging.Search.{index_from}
use operating_system.Paging.Fifo.{Queue, q_find}
use operating_system.Paging.Fifo.Laws.{q_pop_idx_lem, q_find_lem}
use operating_system.Paging.Fifo.Laws
use operating_system.Paging.Lru.{Lru, lru_pop}
use operating_system.Paging.Lru.Laws.{lru_push_room, lru_push_full, lru_pop_lem, lru_find_lem}
use operating_system.Paging.Lru.Laws as LruLaws
use operating_system.Paging.Replace.{Globals, FifoState, fifo_touch, is_first_three}
use operating_system.Paging.Replace.Recency.{history, last_n}
use operating_system.Paging.Replace.LruSpec.{Holds, lru_touches, counted, lru_touches-history}
use operating_system.Paging.Replace.FifoSpec.{Mirrors, fifo_spec, fifo_touch_lem}

abbrev globals : Globals
globals = record { first_three = 7 ∷ 8 ∷ 9 ∷ []; pinned = 0; fifo_flag = 0 }

abbrev full_bucket : List ℕ
full_bucket = 10 ∷ 20 ∷ 30 ∷ 40 ∷ 50 ∷ 60 ∷ 70 ∷ 80 ∷ []

abbrev three_queue : Queue
three_queue = record { size = 3; bucket = full_bucket; pin = 0 }

abbrev full_queue : Queue
full_queue = record { size = 8; bucket = full_bucket; pin = 0 }

abbrev three_lru : Lru
three_lru = record { size = 3; bucket = full_bucket }

abbrev full_lru : Lru
full_lru = record { size = 8; bucket = full_bucket }

abbrev full_state : FifoState
full_state = record { queue = full_queue; array = full_bucket; array_index = 8 }

three_queue-IsValid : Laws.IsValid three_queue
three_queue-IsValid = record { storage = refl; fits = omega arith }

full_queue-IsValid : Laws.IsValid full_queue
full_queue-IsValid = record { storage = refl; fits = omega arith }

three_lru-IsValid : LruLaws.IsValid three_lru
three_lru-IsValid = record { storage = refl; fits = omega arith }

full_lru-IsValid : LruLaws.IsValid full_lru
full_lru-IsValid = record { storage = refl; fits = omega arith }

-- Eight entries, one of them twice, then an exempt one (value 7), then two more.
abbrev accesses : List (ℕ × ℕ)
accesses =
    (10, 1)
    ∷ (20, 1)
    ∷ (30, 1)
    ∷ (40, 1)
    ∷ (50, 1)
    ∷ (60, 1)
    ∷ (70, 1)
    ∷ (10, 1)
    ∷ (80, 1)
    ∷ (99, 7)
    ∷ (90, 1)
    ∷ (95, 2)
    ∷ []

empty-Holds : Holds (record { size = 0; bucket = full_bucket }) []
unfolding last_n
empty-Holds = record { valid = record { storage = refl; fits = omega arith }; recent = refl }

lru_touches-history_example :
    (l' : Lru) × (lru_touches globals (record { size = 0; bucket = full_bucket }) accesses ≡ ok l')
    × Holds l' (history [] (counted globals accesses))
    × IsDistinct (LruLaws.contents l')
lru_touches-history_example = lru_touches-history globals accesses empty-Holds tt

full_state-Mirrors : Mirrors full_state
full_state-Mirrors = record {
  valid = full_queue-IsValid;
  storage = refl;
  index = refl;
  same = refl;
}

fifo_touch_lem_example :
    (s' : FifoState) × (fifo_touch globals full_state 99 5 ≡ ok s')
    × (Laws.contents s'.queue ≡ fifo_spec globals full_bucket 99 5)
    × Mirrors s'
unfolding is_first_three
fifo_touch_lem_example = fifo_touch_lem globals 99 5 full_state-Mirrors refl

q_find_lem_example : q_find three_queue 30 ≡ ok (index_from 0 (10 ∷ 20 ∷ 30 ∷ []) 30)
q_find_lem_example = q_find_lem 30 three_queue-IsValid

lru_pop_lem_example :
    (l' : Lru) × (lru_pop three_lru (pos 0) ≡ ok (10, l'))
    × (LruLaws.contents l' ≡ 20 ∷ 30 ∷ [])
    × (suc l'.size ≡ 3)
    × LruLaws.IsValid l'
lru_pop_lem_example = lru_pop_lem 0 three_lru-IsValid (omega arith)
