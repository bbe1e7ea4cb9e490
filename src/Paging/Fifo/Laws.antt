-- ===== src/Paging/Fifo/Laws.antt =====
-- What fifo.c does to the live part of its array.
use operating_system.Common.{
  if◌then◌else◌, Run, ◌>>=◌, ℤ, is_negative, ℕ, suc, ◌+◌, ◌-◌, ◌%◌, ◌^◌, ◌≤◌, ◌<◌, ◌≡◌, refl, sym,
  ap, ◌∙◌, inl, inr, List, [], ◌∷◌, ◌++◌, arith, ◌==◌, ==_iff, Bool-cases, length, get_or, set,
  take, erase_idx, length-set, length-take, take-set, get_or-take, ok, pos,
}
use operating_system.Paging.Buffer.{buf_size, shift_down, take-shift_down, length-shift_down}
use operating_system.Paging.Search.{find_loop_lem, index_from}
use operating_system.Paging.Fifo.{Queue, q_push, q_pop_idx, q_find, q_init}

-- The live elements, oldest first.
abbrev pub contents : Queue → List ℕ
contents q = take q.size q.bucket

pub record IsValid (q : Queue) : Type 0 where
  pub storage : length q.bucket ≡ buf_size
  pub fits : q.size ≤ buf_size

pub length-contents : {q : Queue} → IsValid q → length (contents q) ≡ q.size
length-contents {q} v = omega (arith, length-take q.size q.bucket)

-- With room left, `q_push` returns 0, appends the element, records the flag and keeps the queue
-- valid.
pub q_push_room :
    {q : Queue} (e flag : ℕ)
    → IsValid q
    → q.size < buf_size
    → (q' : Queue) × (q_push q e flag ≡ ok (pos 0, q'))
      × (contents q' ≡ contents q ++ e ∷ [])
      × (q'.pin ≡ flag)
      × IsValid q'
unfolding q_push
q_push_room {q} e flag v room = (
  record q { size = (q.size + 1) % 2 ^ 32; bucket = set q.bucket q.size e; pin = flag },
  ground arith,
  let s : (q.size + 1) % 2 ^ 32 ≡ suc q.size = omega arith in
      rw s (take-set q.size q.bucket e (omega arith)),
  refl,
  record { storage = length-set q.bucket q.size e ∙ v.storage; fits = omega arith },
)

-- `q_push` of one element after the other, up to the first call that reports a failure.
unfoldable pub q_pushes : Queue → List ℕ → ℕ → Run (ℤ × Queue)
q_pushes q [] flag = ok (pos 0, q)
q_pushes q (e ∷ es) flag =
    q_push q e flag >>= λ (r, q'). if is_negative r then ok (r, q') else q_pushes q' es flag

-- `q_pop_idx` at a live place returns the element there and closes the gap, leaving the
-- order of the others.
pub q_pop_idx_lem :
    {q : Queue} (i : ℕ)
    → IsValid q
    → i < q.size
    → (q' : Queue) × (q_pop_idx q (pos i) ≡ ok (get_or (contents q) i 0, q'))
      × (contents q' ≡ erase_idx (contents q) i)
      × (suc q'.size ≡ q.size)
      × IsValid q'
unfolding q_pop_idx
q_pop_idx_lem {q} i v h = (
  record q { bucket = shift_down (q.size - 1 - i) i q.bucket; size = q.size - 1 },
  ground (arith, get_or-take q.size i q.bucket 0 h),
  take-shift_down i (q.size - 1) q.bucket (omega arith) (omega arith)
      ∙ ap (λ k. erase_idx (take k q.bucket) i) {x = suc (q.size - 1)} (omega arith),
  omega arith,
  record {
    storage = length-shift_down (q.size - 1 - i) i q.bucket ∙ v.storage;
    fits = omega arith;
  },
)

-- `q_find` returns the first place of the element among the live ones, or -1.
pub q_find_lem : {q : Queue} (e : ℕ) → IsValid q → q_find q e ≡ ok (index_from 0 (contents q) e)
unfolding q_find index_from
q_find_lem {q} e v = elim (Bool-cases (q.size == 0)) [
  | inl z ↦
      let k : q.size ≡ 0 = (==_iff q.size 0).0 z in
      rw z (sym (ap (λ n. ok (index_from 0 (take n q.bucket) e)) k))
  | inr nz ↦ rw nz (find_loop_lem q.bucket e q.size (omega arith))
]

pub q_init_lem : (q : Queue) → contents (q_init q) ≡ []
unfolding q_init
q_init_lem q = refl
