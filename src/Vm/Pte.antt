-- ===== src/Vm/Pte.antt =====
-- Arithmetic of page-table entries: what the shifts and masks of riscv.h read from a stored entry.
use operating_system.Common.{
  ℕ, zero, suc, ◌*◌, ◌/◌, ◌%◌, ◌^◌, ◌<◌, max, ◌≡◌, refl, sym, ap, ◌∙◌, true, arith, ◌==◌,
}
use Prim.Native.Nat.{bit_and, bit_or}
use operating_system.Common.Bits.{bit_or-step, bit_and-one, bit_and-double, bit_and-zero, or_and}
use operating_system.Memory.{page_size}
use operating_system.Vm.{has, pte_v, pte_u, pa_to_pte, pte_to_pa}

abbrev halves : ℕ → ℕ → ℕ
halves zero x = x
halves (suc k) x = halves k (x / 2)

bit_or-half : (a b : ℕ) → bit_or a b / 2 ≡ bit_or (a / 2) (b / 2)
bit_or-half a b = omega (arith, bit_or-step a b)

halves-bit_or : (k a b : ℕ) → halves k (bit_or a b) ≡ bit_or (halves k a) (halves k b)
halves-bit_or zero a b = refl
halves-bit_or (suc k) a b = rw (bit_or-half a b) (halves-bit_or k (a / 2) (b / 2))

pub bit_or-zero : (a : ℕ) → bit_or a 0 ≡ a
bit_or-zero a = omega (arith, or_and a 0, bit_and-zero a)

bit_or-mod : (a b : ℕ) → bit_or a b % 2 ≡ max (a % 2) (b % 2)
bit_or-mod a b = omega (arith, bit_or-step a b)

-- The valid bit is the lowest.
pub has_v : (e : ℕ) → has e pte_v ≡ (e % 2 == 1)
has_v e = ground (arith, bit_and-one e)

bit_and_16 : (e : ℕ) → bit_and e 16 ≡ 16 * (e / 16 % 2)
bit_and_16 e = omega (
  arith,
  bit_and-double e 8,
  bit_and-double (e / 2) 4,
  bit_and-double (e / 2 / 2) 2,
  bit_and-double (e / 2 / 2 / 2) 1,
  bit_and-one (e / 2 / 2 / 2 / 2),
)

pub has_u : (e : ℕ) → has e pte_u ≡ (e / 16 % 2 == 1)
has_u e = ground (arith, bit_and_16 e)

-- The entry that `mappages` stores.
abbrev pub leaf : ℕ → ℕ → ℕ
leaf pa perm = bit_or (bit_or (pa_to_pte pa) perm) pte_v

pub leaf-v : (pa perm : ℕ) → has (leaf pa perm) pte_v ≡ true
leaf-v pa perm =
    has_v (leaf pa perm) ∙ ground (arith, bit_or-mod (bit_or (pa_to_pte pa) perm) pte_v)

leaf-halves :
    (pa perm : ℕ)
    → halves 10 (leaf pa perm)
      ≡ bit_or (bit_or (halves 10 (pa_to_pte pa)) (halves 10 perm)) (halves 10 pte_v)
leaf-halves pa perm =
    halves-bit_or 10 (bit_or (pa_to_pte pa) perm) pte_v
    ∙ ap (λ x. bit_or x (halves 10 pte_v)) (halves-bit_or 10 (pa_to_pte pa) perm)

-- The address comes back from a stored entry.
pub pte_to_pa-leaf :
    (pa perm : ℕ) → pa % page_size ≡ 0 → pa < 2 ^ 64 → perm < 1024 → pte_to_pa (leaf pa perm) ≡ pa
unfolding pte_to_pa pa_to_pte
pte_to_pa-leaf pa perm al hp hf =
    let low : halves 10 perm ≡ 0 = omega arith in
    let high : halves 10 (pa_to_pte pa) ≡ pa / 4096 = omega arith in
    let e : halves 10 (leaf pa perm) ≡ pa / 4096 =
      leaf-halves pa perm ∙ rw (low, high) (bit_or-zero _ ∙ bit_or-zero _) in
    let shifts : leaf pa perm / 2 ^ 10 ≡ halves 10 (leaf pa perm) = omega arith in
    rw (shifts, e) (omega arith)

-- So does the user bit of the permissions.
pub leaf-u : (pa perm : ℕ) → has (leaf pa perm) pte_u ≡ has perm pte_u
unfolding pa_to_pte
leaf-u pa perm =
    let chain : halves 4 (leaf pa perm)
        ≡ bit_or (bit_or (halves 4 (pa_to_pte pa)) (halves 4 perm)) (halves 4 pte_v) =
      halves-bit_or 4 (bit_or (pa_to_pte pa) perm) pte_v
      ∙ ap (λ x. bit_or x (halves 4 pte_v)) (halves-bit_or 4 (pa_to_pte pa) perm) in
    let same : leaf pa perm / 16 % 2 ≡ perm / 16 % 2 = omega (
      arith,
      chain,
      bit_or-mod (bit_or (halves 4 (pa_to_pte pa)) (halves 4 perm)) (halves 4 pte_v),
      bit_or-mod (halves 4 (pa_to_pte pa)) (halves 4 perm),
    ) in
    has_u (leaf pa perm) ∙ ap (λ d. d == 1) same ∙ sym (has_u perm)

-- An entry that points to a table is a leaf with no permission.
pub table_entry : (p : ℕ) → bit_or (pa_to_pte p) pte_v ≡ leaf p 0
table_entry p = ap (λ x. bit_or x pte_v) (sym (bit_or-zero (pa_to_pte p)))
