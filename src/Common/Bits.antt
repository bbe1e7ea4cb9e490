-- ===== src/Common/Bits.antt =====
-- Bitwise `&` and `|` of C, and the masks of one bit that the kernel tests, sets and clears.
use Prim.Native.Nat.{ℕ, zero, suc, ◌+◌, ◌-◌, ◌*◌, ◌/◌, ◌%◌, ◌≤◌, min, max}
use mathlib.Core.Path.{◌≡◌, refl}
use native.Mathlib.Omega.{arith}
use Prim.Native.Nat.{bit_and, bit_or, digits, bit_and-bitwise, bit_or-bitwise}

-- `digits` stops at 0, so fuel beyond the number itself changes nothing.
module _ (rest : ℕ → ℕ) (digit : ℕ → ℕ → ℕ) where
  less_fuel :
      (x fuel spare y : ℕ)
      → x ≤ fuel
      → fuel ≤ spare
      → digits rest digit spare x y ≡ digits rest digit fuel x y
  less_fuel zero zero zero y enough less = refl
  less_fuel zero zero (suc spare) y enough less = refl
  less_fuel zero (suc fuel) (suc spare) y enough less = refl
  less_fuel x (suc fuel) zero y enough less = absurd (omega arith)
  less_fuel (suc x) zero spare y enough less = absurd (omega arith)
  less_fuel (suc x) (suc fuel) (suc spare) y enough less =
      let higher = less_fuel (suc x / 2) fuel spare (y / 2) (omega arith) (omega arith) in
      rw higher refl

  halved_fuel :
      (x y : ℕ) → digits rest digit x (suc x / 2) y ≡ digits rest digit (suc x / 2) (suc x / 2) y
  halved_fuel x y = less_fuel (suc x / 2) (suc x / 2) x y (omega arith) (omega arith)

-- The lowest digit of both operations.
pub bit_and-step : (a b : ℕ) → bit_and a b ≡ 2 * bit_and (a / 2) (b / 2) + min (a % 2) (b % 2)
bit_and-step zero b = omega (arith, bit_and-bitwise zero b, bit_and-bitwise zero (b / 2))
bit_and-step (suc a) b =
    let higher = halved_fuel (λ _. zero) min a (b / 2) in
    omega (arith, higher, bit_and-bitwise (suc a) b, bit_and-bitwise (suc a / 2) (b / 2))

pub bit_or-step : (a b : ℕ) → bit_or a b ≡ 2 * bit_or (a / 2) (b / 2) + max (a % 2) (b % 2)
bit_or-step zero b = omega (arith, bit_or-bitwise zero b, bit_or-bitwise zero (b / 2))
bit_or-step (suc a) b =
    let higher = halved_fuel (λ n. n) max a (b / 2) in
    omega (arith, higher, bit_or-bitwise (suc a) b, bit_or-bitwise (suc a / 2) (b / 2))

-- `a | b` and `a & b` share the digits of `a` and `b` out between them.
or_and_fuel : (n a b : ℕ) → a ≤ n → bit_or a b + bit_and a b ≡ a + b
or_and_fuel n zero b h = omega (arith, bit_or-bitwise zero b, bit_and-bitwise zero b)
or_and_fuel zero (suc a) b h = absurd (omega arith)
or_and_fuel (suc n) (suc a) b h = omega (
  arith,
  bit_or-step (suc a) b,
  bit_and-step (suc a) b,
  or_and_fuel n (suc a / 2) (b / 2) (omega arith),
)

pub or_and : (a b : ℕ) → bit_or a b + bit_and a b ≡ a + b
or_and a b = or_and_fuel a a b (omega arith)

bit_and-zero_fuel : (n a : ℕ) → a ≤ n → bit_and a 0 ≡ 0
bit_and-zero_fuel n zero h = bit_and-bitwise zero 0
bit_and-zero_fuel zero (suc a) h = absurd (omega arith)
bit_and-zero_fuel (suc n) (suc a) h =
    omega (arith, bit_and-step (suc a) 0, bit_and-zero_fuel n (suc a / 2) (omega arith))

pub bit_and-zero : (a : ℕ) → bit_and a 0 ≡ 0
bit_and-zero a = bit_and-zero_fuel a a (omega arith)

-- `a & 1` is the lowest digit, and `a & 2 m` looks one digit further up.
pub bit_and-one : (a : ℕ) → bit_and a 1 ≡ a % 2
bit_and-one a = omega (arith, bit_and-step a 1, bit_and-zero (a / 2))

pub bit_and-double : (a m : ℕ) → bit_and a (2 * m) ≡ 2 * bit_and (a / 2) m
bit_and-double a m =
    let e : 2 * m / 2 ≡ m = omega arith in rw (bit_and-step a (2 * m), e) (omega arith)

-- `a & ~m`.
unfoldable pub clear_bits : ℕ → ℕ → ℕ
clear_bits a m = a - bit_and a m
