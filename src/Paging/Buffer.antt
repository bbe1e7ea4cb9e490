-- ===== src/Paging/Buffer.antt =====
-- The loop that fifo.c, lru.c and vm.c of mp2/kernel repeat: closing the gap at an index of an array.
use operating_system.Common.{
  ℕ, zero, suc, ◌-◌, ◌≤◌, ◌<◌, ◌≡◌, refl, ap, ◌∙◌, List, [], ◌∷◌, arith, length, get_or, set, take,
  erase_idx, length-set,
}

-- PG_BUF_SIZE
abbrev pub buf_size : ℕ
buf_size = 8

-- `n` rounds of `a[i] = a[i + 1]; i++`. A read past the end would be undefined in C; the lemmas
-- below are for rounds that stay inside.
unfoldable pub shift_down : ℕ → ℕ → List ℕ → List ℕ
shift_down zero i a = a
shift_down (suc n) i a = shift_down n (suc i) (set a i (get_or a (suc i) 0))

pub length-shift_down : (n i : ℕ) (a : List ℕ) → length (shift_down n i a) ≡ length a
unfolding shift_down
length-shift_down zero i a = refl
length-shift_down (suc n) i a = length-shift_down n (suc i) _ ∙ length-set a i (get_or a (suc i) 0)

-- The front of the array is not touched.
shift_down-cons : (n i x : ℕ) (a : List ℕ) → shift_down n (suc i) (x ∷ a) ≡ x ∷ shift_down n i a
unfolding shift_down
shift_down-cons zero i x a = refl
shift_down-cons (suc n) i x a = shift_down-cons n (suc i) x (set a i (get_or a (suc i) 0))

shift_down_front :
    (n x : ℕ) (a : List ℕ) → n ≤ length a → take n (shift_down n 0 (x ∷ a)) ≡ take n a
unfolding shift_down
shift_down_front zero x a h = refl
shift_down_front (suc n) x [] h = absurd (omega arith)
shift_down_front (suc n) x (y ∷ a) h =
    rw (shift_down-cons n 0 y (y ∷ a)) (ap (λ t. y ∷ t) (shift_down_front n y a (omega arith)))

-- Of `size` live places, the loop from `i` keeps those of the list without place `i`.
pub take-shift_down :
    (i m : ℕ) (a : List ℕ)
    → i ≤ m
    → m < length a
    → take m (shift_down (m - i) i a) ≡ erase_idx (take (suc m) a) i
take-shift_down i m [] le h = absurd (omega arith)
take-shift_down zero m (x ∷ a) le h =
    let e : m - 0 ≡ m = omega arith in rw e (shift_down_front m x a (omega arith))
take-shift_down (suc i) zero (x ∷ a) le h = absurd (omega arith)
take-shift_down (suc i) (suc m) (x ∷ a) le h =
    let e : suc m - suc i ≡ m - i = omega arith in
    rw (e, shift_down-cons (m - i) i x a)
      (ap (λ t. x ∷ t) (take-shift_down i m a (omega arith) (omega arith)))
