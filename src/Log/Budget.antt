-- ===== src/Log/Budget.antt =====
-- System calls and the numbers of blocks that they may still write.
use operating_system.Common.{
  ℕ, zero, suc, ◌+◌, ◌*◌, ◌≤◌, ◌≡◌, Bool, true, some, List, [], ◌∷◌, arith, length, get_elem?, set,
  erase_idx, ok,
}
use operating_system.Log.{Log, max_op_blocks, begin_op, end_op, end_commit, log_write}

-- From `m₀` on. Each call in progress is listed with the number of blocks that it may still write, of
-- the MAXOPBLOCKS that it may write in all.
pub data Runs {A : Type 0} (m₀ : Log A) : List ℕ → Log A → Type 0 where
  start : Runs m₀ [] m₀
  begins :
      {ops : List ℕ} {m : Log A} (m' : Log A)
      → begin_op m ≡ some m'
      → Runs m₀ ops m
      → Runs m₀ (max_op_blocks ∷ ops) m'
  writes :
      {ops : List ℕ} {m : Log A} (m' : Log A) (i k b : ℕ)
      → get_elem? ops i ≡ some (suc k)
      → log_write m b ≡ ok m'
      → Runs m₀ ops m
      → Runs m₀ (set ops i k) m'
  ends :
      {ops : List ℕ} {m : Log A} (m' : Log A) (i k : ℕ) (commits : Bool)
      → get_elem? ops i ≡ some k
      → end_op m ≡ ok (commits, m')
      → Runs m₀ ops m
      → Runs m₀ (erase_idx ops i) m'
  finishes :
      {ops : List ℕ} {m : Log A} → m.committing ≡ true → Runs m₀ ops m → Runs m₀ ops (end_commit m)

abbrev pub total : List ℕ → ℕ
total [] = 0
total (x ∷ xs) = x + total xs

-- No call may write more than MAXOPBLOCKS blocks.
abbrev pub Allowed : List ℕ → Type 0
Allowed [] = Unit {0}
Allowed (x ∷ xs) = (x ≤ max_op_blocks) × Allowed xs

pub total-le : (ops : List ℕ) → Allowed ops → total ops ≤ length ops * max_op_blocks
total-le [] a = omega arith
total-le (x ∷ xs) a = omega (arith, total-le xs a.1, a.0)

pub total-set :
    (ops : List ℕ) (i k : ℕ) → get_elem? ops i ≡ some (suc k) → total (set ops i k) + 1 ≡ total ops
total-set [] i k e = absurd (cc e)
total-set (x ∷ xs) zero k e = let same : x ≡ suc k = cc in omega arith
total-set (x ∷ xs) (suc i) k e = omega (arith, total-set xs i k e)

pub total-erase : (ops : List ℕ) (i : ℕ) → total (erase_idx ops i) ≤ total ops
total-erase [] i = omega arith
total-erase (x ∷ xs) zero = omega arith
total-erase (x ∷ xs) (suc i) = omega (arith, total-erase xs i)

pub set-Allowed :
    (ops : List ℕ) (i k : ℕ) → get_elem? ops i ≡ some (suc k) → Allowed ops → Allowed (set ops i k)
set-Allowed [] i k e a = tt
set-Allowed (x ∷ xs) zero k e a = let same : x ≡ suc k = cc in (omega (arith, a.0), a.1)
set-Allowed (x ∷ xs) (suc i) k e a = (a.0, set-Allowed xs i k e a.1)

pub erase-Allowed : (ops : List ℕ) (i : ℕ) → Allowed ops → Allowed (erase_idx ops i)
erase-Allowed [] i a = tt
erase-Allowed (x ∷ xs) zero a = a.1
erase-Allowed (x ∷ xs) (suc i) a = (a.0, erase-Allowed xs i a.1)
