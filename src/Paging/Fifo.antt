-- ===== src/Paging/Fifo.antt =====
-- The functions of mp2/kernel/fifo.c over `queue_t` of mp2/kernel/fifo.h.
pub mod Laws
use operating_system.Common.{
  ℕ, zero, suc, ◌+◌, ◌-◌, ◌*◌, ◌/◌, ◌%◌, ◌^◌, ◌≤◌, ◌<◌, min, max, ◌≡◌, refl, sym, ap, ap₂, ◌∙◌,
  subst, ◌≢◌, ◌↔◌, ◌⊎◌, inl, inr, Bool, true, false, not, ◌&&◌, ◌||◌, Option, none, some, List, [],
  ◌∷◌, ◌++◌, append-nil, append_assoc, arith, ltb, leb, ◌==◌, if◌then◌else◌, ltb→lt, lt→ltb, le→ltb,
  ==_iff, ==_refl, Bool-cases, Option-cases, length, get_elem?, get_or, set, take, drop, replicate,
  erase_idx, length-append, length-set, length-take, length-drop, length-replicate,
  length-erase_idx, take-set, get_or-take, get_or-set_self, contains, contains-append, IsDistinct,
  Run, ok, panic, fault, ◌>>=◌, ◌>>◌, ℤ, pos, negsuc, minus_one, is_negative,
}
use operating_system.Paging.Buffer.{buf_size, shift_down}
use operating_system.Paging.Search.{find_loop}

-- `queue_t`; the array has PG_BUF_SIZE places.
pub record Queue : Type 0 where
  pub size : ℕ
  pub bucket : List ℕ
  pub pin : ℕ

unfoldable pub q_init : Queue → Queue
q_init q = record q { size = 0 }

-- The test lets `size = PG_BUF_SIZE` pass: then the store is outside the array.
unfoldable pub q_push : Queue → ℕ → ℕ → Run (ℤ × Queue)
q_push q e flag =
    if ltb buf_size q.size
    then ok (minus_one, q)
    else if ltb q.size buf_size
    then ok (
      pos 0,
      record q { size = (q.size + 1) % 2 ^ 32; bucket = set q.bucket q.size e; pin = flag },
    )
    else fault

-- With `size` above PG_BUF_SIZE the loop, or else the first read, leaves the array.
unfoldable pub q_pop_idx : Queue → ℤ → Run (ℕ × Queue)
q_pop_idx q (negsuc _) = panic
q_pop_idx q (pos idx) =
    if leb q.size idx
    then panic
    else if ltb buf_size q.size
    then fault
    else ok (
      get_or q.bucket idx 0,
      record q { bucket = shift_down (q.size - 1 - idx) idx q.bucket; size = q.size - 1 },
    )

unfoldable pub q_empty : Queue → Bool
q_empty q = q.size == 0

unfoldable pub q_full : Queue → Bool
q_full q = leb buf_size q.size

unfoldable pub q_clear : Queue → ℤ × Queue
q_clear q = (pos 0, record q { size = 0 })

unfoldable pub q_find : Queue → ℕ → Run ℤ
q_find q e = if q.size == 0 then ok minus_one else find_loop q.bucket e q.size 0
