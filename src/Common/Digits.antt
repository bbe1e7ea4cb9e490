-- ===== src/Common/Digits.antt =====
-- A word as its binary digits, and what `|` and `& ~` with the mask of one digit change.
use operating_system.Common.{
  ℕ, zero, suc, ◌+◌, ◌*◌, ◌/◌, ◌%◌, ◌≤◌, ◌≡◌, refl, ap, ◌∙◌, ◌≢◌, inl, inr, ◌⊎◌, arith,
}
use operating_system.Common.Bits.{bit_or-step, bit_and-one, bit_and-double, or_and, clear_bits}
use Prim.Native.Nat.{bit_and, bit_or}

abbrev pub bit : ℕ → ℕ → ℕ
bit a zero = a % 2
bit a (suc k) = bit (a / 2) k

-- `1 << k`
abbrev pub mask : ℕ → ℕ
mask zero = 1
mask (suc k) = 2 * mask k

pub bit-le : (k a : ℕ) → bit a k ≤ 1
bit-le zero a = omega arith
bit-le (suc k) a = bit-le k (a / 2)

pub mask-positive : (k : ℕ) → 1 ≤ mask k
mask-positive zero = omega arith
mask-positive (suc k) = omega (arith, mask-positive k)

-- `a & (1 << k)` is 0 or the mask.
pub bit_and-mask :
    (k a : ℕ)
    → ((bit a k ≡ 0) × (bit_and a (mask k) ≡ 0)) ⊎ ((bit a k ≡ 1) × (bit_and a (mask k) ≡ mask k))
bit_and-mask zero a = ground (arith, bit_and-one a)
bit_and-mask (suc k) a = elim (bit_and-mask k (a / 2)) [
  | inl (z, e) ↦ inl (z, omega (arith, bit_and-double a (mask k), e))
  | inr (o, e) ↦ inr (o, omega (arith, bit_and-double a (mask k), e))
]

bit_or-halved :
    (a m : ℕ) → (bit_or a (2 * m) / 2 ≡ bit_or (a / 2) m) × (bit_or a (2 * m) % 2 ≡ a % 2)
bit_or-halved a m =
    let e : 2 * m / 2 ≡ m = omega arith in
    let s : bit_or a (2 * m) ≡ 2 * bit_or (a / 2) m + a % 2 =
      rw (bit_or-step a (2 * m), e) (omega arith) in
    (omega (arith, s), omega (arith, s))

pub bit-set_self : (k a : ℕ) → bit (bit_or a (mask k)) k ≡ 1
bit-set_self zero a = omega (arith, bit_or-step a 1)
bit-set_self (suc k) a = rw ((bit_or-halved a (mask k)).0) (bit-set_self k (a / 2))

bit_or-one : (a : ℕ) → bit_or a 1 / 2 ≡ a / 2
bit_or-one a = omega (arith, or_and a 1, bit_and-one a)

pub bit-set_other : (k a j : ℕ) → j ≢ k → bit (bit_or a (mask k)) j ≡ bit a j
bit-set_other zero a zero ne = absurd (ne refl)
bit-set_other zero a (suc j) ne = ap (λ x. bit x j) (bit_or-one a)
bit-set_other (suc k) a zero ne = (bit_or-halved a (mask k)).1
bit-set_other (suc k) a (suc j) ne =
    rw ((bit_or-halved a (mask k)).0) (bit-set_other k (a / 2) j (λ e. ne (ap suc e)))

pub bit_and-le_self : (k a : ℕ) → bit_and a (mask k) ≤ a
bit_and-le_self zero a = omega (arith, bit_and-one a)
bit_and-le_self (suc k) a = omega (arith, bit_and-double a (mask k), bit_and-le_self k (a / 2))

clear_bits-halved :
    (k a : ℕ)
    → (clear_bits a (mask (suc k)) / 2 ≡ clear_bits (a / 2) (mask k))
      × (clear_bits a (mask (suc k)) % 2 ≡ a % 2)
unfolding clear_bits
clear_bits-halved k a = (
  omega (arith, bit_and-double a (mask k), bit_and-le_self k (a / 2)),
  omega (arith, bit_and-double a (mask k), bit_and-le_self k (a / 2)),
)

pub bit-cleared_self : (k a : ℕ) → bit (clear_bits a (mask k)) k ≡ 0
unfolding clear_bits
bit-cleared_self zero a = omega (arith, bit_and-one a)
bit-cleared_self (suc k) a =
    ap (λ x. bit x k) (clear_bits-halved k a).0 ∙ bit-cleared_self k (a / 2)

clear_bits-one : (a : ℕ) → clear_bits a 1 / 2 ≡ a / 2
unfolding clear_bits
clear_bits-one a = omega (arith, bit_and-one a)

pub bit-cleared_other : (k a j : ℕ) → j ≢ k → bit (clear_bits a (mask k)) j ≡ bit a j
bit-cleared_other zero a zero ne = absurd (ne refl)
bit-cleared_other zero a (suc j) ne = ap (λ x. bit x j) (clear_bits-one a)
bit-cleared_other (suc k) a zero ne = (clear_bits-halved k a).1
bit-cleared_other (suc k) a (suc j) ne =
    ap (λ x. bit x j) (clear_bits-halved k a).0 ∙ bit-cleared_other k (a / 2) j (λ e. ne (ap suc e))

-- A digit that is 0, set and then cleared.
pub clear_bits-set : (k a : ℕ) → bit a k ≡ 0 → clear_bits (bit_or a (mask k)) (mask k) ≡ a
unfolding clear_bits
clear_bits-set k a z = elim (bit_and-mask k a) [
  | inr (o, _) ↦ absurd (omega (arith, z, o))
  | inl (_, e) ↦ elim (bit_and-mask k (bit_or a (mask k))) [
    | inl (z', _) ↦ absurd (omega (arith, z', bit-set_self k a))
    | inr (_, e') ↦ omega (arith, e, e', or_and a (mask k))
  ]
]
