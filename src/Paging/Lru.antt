-- ===== src/Paging/Lru.antt =====
-- The functions of mp2/kernel/lru.c over `lru_t` of mp2/kernel/lru.h.
pub mod Laws
use operating_system.Common.{
  ℕ, zero, suc, ◌+◌, ◌-◌, ◌*◌, ◌/◌, ◌%◌, ◌^◌, ◌≤◌, ◌<◌, min, max, ◌≡◌, refl, sym, ap, ap₂, ◌∙◌,
  subst, ◌≢◌, ◌↔◌, ◌⊎◌, inl, inr, Bool, true, false, not, ◌&&◌, ◌||◌, Option, none, some, List, [],
  ◌∷◌, ◌++◌, append-nil, append_assoc, arith, ltb, leb, ◌==◌, if◌then◌else◌, ltb→lt, lt→ltb, le→ltb,
  ==_iff, ==_refl, Bool-cases, Option-cases, length, get_elem?, get_or, set, take, drop, replicate,
  erase_idx, length-append, length-set, length-take, length-drop, length-replicate,
  length-erase_idx, take-set, get_or-take, get_or-set_self, contains, contains-append, IsDistinct,
  Run, ok, panic, fault, ◌>>=◌, ◌>>◌, ℤ, pos, negsuc, minus_one, is_negative,
}
use operating_system.Paging.Buffer.{buf_size, shift_down}
use operating_system.Paging.Search.{find_loop}

-- `lru_t`; the array has PG_BUF_SIZE places.
pub record Lru : Type 0 where
  pub size : ℕ
  pub bucket : List ℕ

unfoldable pub lru_init : Lru → Lru
lru_init l = record l { size = 0 }

unfoldable pub lru_push : Lru → ℕ → Run (ℤ × Lru)
lru_push l e =
    if l.size == buf_size
    then ok (minus_one, l)
    else if ltb l.size buf_size
    then ok (pos 0, record l { size = (l.size + 1) % 2 ^ 32; bucket = set l.bucket l.size e })
    else fault

-- With `size` above PG_BUF_SIZE the loop, or else the first read, leaves the array.
unfoldable pub lru_pop : Lru → ℤ → Run (ℕ × Lru)
lru_pop l (negsuc _) = panic
lru_pop l (pos idx) =
    if leb l.size idx
    then panic
    else if ltb buf_size l.size
    then fault
    else ok (
      get_or l.bucket idx 0,
      record l { bucket = shift_down (l.size - 1 - idx) idx l.bucket; size = l.size - 1 },
    )

unfoldable pub lru_empty : Lru → Bool
lru_empty l = l.size == 0

unfoldable pub lru_full : Lru → Bool
lru_full l = l.size == buf_size

unfoldable pub lru_clear : Lru → ℤ × Lru
lru_clear l = (pos 0, record l { size = 0 })

unfoldable pub lru_find : Lru → ℕ → Run ℤ
lru_find l e = if l.size == 0 then ok minus_one else find_loop l.bucket e l.size 0
