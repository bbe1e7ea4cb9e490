-- ===== src/Paging/Lru/Laws.antt =====
-- What lru.c does to the live part of its array.
use operating_system.Common.{
  ℕ, suc, ◌+◌, ◌-◌, ◌%◌, ◌^◌, ◌≤◌, ◌<◌, ◌≡◌, refl, sym, ap, ◌∙◌, inl, inr, true, List, [], ◌∷◌,
  ◌++◌, arith, ◌==◌, ==_iff, Bool-cases, length, get_or, set, take, erase_idx, length-set,
  length-take, take-set, get_or-take, ok, pos, minus_one,
}
use operating_system.Paging.Buffer.{buf_size, shift_down, take-shift_down, length-shift_down}
use operating_system.Paging.Search.{find_loop_lem, index_from}
use operating_system.Paging.Lru.{Lru, lru_push, lru_pop, lru_find, lru_full, lru_init}

-- The live elements, oldest first.
abbrev pub contents : Lru → List ℕ
contents l = take l.size l.bucket

pub record IsValid (l : Lru) : Type 0 where
  pub storage : length l.bucket ≡ buf_size
  pub fits : l.size ≤ buf_size

pub length-contents : {l : Lru} → IsValid l → length (contents l) ≡ l.size
length-contents {l} v = omega (arith, length-take l.size l.bucket)

-- With room left, `lru_push` returns 0, appends the element and keeps the buffer valid.
pub lru_push_room :
    {l : Lru} (e : ℕ)
    → IsValid l
    → l.size < buf_size
    → (l' : Lru) × (lru_push l e ≡ ok (pos 0, l'))
      × (contents l' ≡ contents l ++ e ∷ [])
      × IsValid l'
unfolding lru_push
lru_push_room {l} e v room = (
  record l { size = (l.size + 1) % 2 ^ 32; bucket = set l.bucket l.size e },
  ground arith,
  let s : (l.size + 1) % 2 ^ 32 ≡ suc l.size = omega arith in
      rw s (take-set l.size l.bucket e (omega arith)),
  record { storage = length-set l.bucket l.size e ∙ v.storage; fits = omega arith },
)

-- On a full buffer `lru_push` returns -1 and changes nothing.
pub lru_push_full : {l : Lru} (e : ℕ) → lru_full l ≡ true → lru_push l e ≡ ok (minus_one, l)
unfolding lru_push lru_full
lru_push_full e full = ground arith

-- `lru_pop` at a live place returns the element there and closes the gap, leaving the
-- order of the others.
pub lru_pop_lem :
    {l : Lru} (i : ℕ)
    → IsValid l
    → i < l.size
    → (l' : Lru) × (lru_pop l (pos i) ≡ ok (get_or (contents l) i 0, l'))
      × (contents l' ≡ erase_idx (contents l) i)
      × (suc l'.size ≡ l.size)
      × IsValid l'
unfolding lru_pop
lru_pop_lem {l} i v h = (
  record l { bucket = shift_down (l.size - 1 - i) i l.bucket; size = l.size - 1 },
  ground (arith, get_or-take l.size i l.bucket 0 h),
  take-shift_down i (l.size - 1) l.bucket (omega arith) (omega arith)
      ∙ ap (λ k. erase_idx (take k l.bucket) i) {x = suc (l.size - 1)} (omega arith),
  omega arith,
  record {
    storage = length-shift_down (l.size - 1 - i) i l.bucket ∙ v.storage;
    fits = omega arith;
  },
)

-- `lru_find` returns the first place of the element among the live ones, or -1.
pub lru_find_lem : {l : Lru} (e : ℕ) → IsValid l → lru_find l e ≡ ok (index_from 0 (contents l) e)
unfolding lru_find index_from
lru_find_lem {l} e v = elim (Bool-cases (l.size == 0)) [
  | inl z ↦
      let k : l.size ≡ 0 = (==_iff l.size 0).0 z in
      rw z (sym (ap (λ n. ok (index_from 0 (take n l.bucket) e)) k))
  | inr nz ↦ rw nz (find_loop_lem l.bucket e l.size (omega arith))
]

pub lru_init_lem : (l : Lru) → contents (lru_init l) ≡ []
unfolding lru_init
lru_init_lem l = refl
