-- ===== src/Paging/Search.antt =====
-- The search loop that q_find of fifo.c and lru_find of lru.c share, and the place of a number in a
-- list.
use operating_system.Common.{
  ℕ, zero, suc, ◌+◌, ◌≤◌, ◌<◌, ◌≡◌, refl, ap, ◌∙◌, ◌⊎◌, inl, inr, true, false, none, some, List, [],
  ◌∷◌, arith, ◌==◌, if◌then◌else◌, ==_iff, Bool-cases, length, get_elem?, get_or, take, drop,
  contains, Run, ok, fault, ℤ, pos, minus_one,
}

-- `n` rounds of `if (a[i] == e) return i; i++`, then `return -1`. A read past the end is a fault.
unfoldable pub find_loop : List ℕ → ℕ → ℕ → ℕ → Run ℤ
find_loop a e zero i = ok minus_one
find_loop a e (suc n) i = elim (get_elem? a i) [
  | none ↦ fault
  | some x ↦ elim (x == e) [ true ↦ ok (pos i) | false ↦ find_loop a e n (suc i) ]
]

-- The first place of a number in a list, counted from `i`, or -1.
unfoldable pub index_from : ℕ → List ℕ → ℕ → ℤ
index_from i [] e = minus_one
index_from i (x ∷ xs) e = if x == e then pos i else index_from (suc i) xs e

pub get_elem?-drop :
    (i : ℕ) (a : List ℕ)
    → i < length a
    → (x : ℕ) × (get_elem? a i ≡ some x) × (drop i a ≡ x ∷ drop (suc i) a)
get_elem?-drop i [] h = absurd (omega arith)
get_elem?-drop zero (x ∷ a) h = (x, refl, refl)
get_elem?-drop (suc i) (x ∷ a) h = get_elem?-drop i a (omega arith)

find_loop-index_from :
    (a : List ℕ) (e n i : ℕ)
    → i + n ≤ length a
    → find_loop a e n i ≡ ok (index_from i (take n (drop i a)) e)
unfolding find_loop index_from
find_loop-index_from a e zero i h = refl
find_loop-index_from a e (suc n) i h =
    let (x, get, rest) = get_elem?-drop i a (omega arith) in
    ground (arith, get, rest, find_loop-index_from a e n (suc i) (omega arith))

-- Inside the array the loop from 0 finds the first place in its live part.
pub find_loop_lem :
    (a : List ℕ) (e n : ℕ) → n ≤ length a → find_loop a e n 0 ≡ ok (index_from 0 (take n a) e)
find_loop_lem a e n h = find_loop-index_from a e n 0 (omega arith)

-- -1 is returned exactly for a number that the list lacks.
pub index_from-contains :
    (i : ℕ) (xs : List ℕ) (e : ℕ)
    → ((contains xs e ≡ false) × (index_from i xs e ≡ minus_one))
      ⊎ ((j : ℕ) × (contains xs e ≡ true)
          × (index_from i xs e ≡ pos (i + j))
          × (j < length xs)
          × (get_or xs j 0 ≡ e))
unfolding index_from
index_from-contains i [] e = inl (refl, refl)
index_from-contains i (x ∷ xs) e = elim (Bool-cases (x == e)) [
  | inl hit ↦ inr (0, rw hit, rw hit (ap pos (omega arith)), omega arith, (==_iff x e).0 hit)
  | inr miss ↦ elim (index_from-contains (suc i) xs e) [
    | inl (a, b) ↦ inl (rw miss a, rw miss b)
    | inr (j, a, b, c, d) ↦
        inr (suc j, rw miss a, rw miss (b ∙ ap pos (omega arith)), omega arith, d)
  ]
]
