-- ===== src/Bitmap/Place.antt =====
-- The bit of the map that stands for a block, and what the writes change of it.
use operating_system.Common.{
  ℕ, ◌+◌, ◌*◌, ◌/◌, ◌%◌, ◌<◌, ◌≡◌, refl, sym, ap, ap₂, ◌∙◌, ◌≢◌, ◌⊎◌, inl, inr, true, false, ◌&&◌,
  arith, ltb, ◌==◌, ==_refl, Bool-cases,
}
use operating_system.Common.Digits.{bit, mask, mask-positive, bit-le, bit_and-mask}
use Prim.Native.Nat.{bit_and}
use operating_system.Bitmap.{Fs, bpb, bsize, bblock, put_byte, bzero}

-- 1 when the block is in use.
abbrev pub used : Fs → ℕ → ℕ
used fs x = bit (fs.block (bblock fs x) (x % bpb / 8)) (x % 8)

-- The map has no block that is free.
abbrev pub IsApart : Fs → Type 0
IsApart fs = (x y : ℕ) → x < fs.size → y < fs.size → used fs x ≡ 0 → bblock fs y ≢ x

pub bits-cases : (fs : Fs) (x : ℕ) → (used fs x ≡ 0) ⊎ (used fs x ≡ 1)
bits-cases fs x = ground (arith, bit-le (x % 8) (fs.block (bblock fs x) (x % bpb / 8)))

-- Another block has another byte, or another bit of the same byte.
pub put_byte-used :
    (fs : Fs) (x v y : ℕ)
    → ((j : ℕ) → j ≢ x % 8 → bit v j ≡ bit (fs.block (bblock fs x) (x % bpb / 8)) j)
    → y ≢ x
    → used (put_byte fs (bblock fs x) (x % bpb / 8) v) y ≡ used fs y
put_byte-used fs x v y others ne =
    elim (Bool-cases (bblock fs y == bblock fs x && y % bpb / 8 == x % bpb / 8)) [
      | inl h ↦
          let same_block : bblock fs y ≡ bblock fs x = ground arith in
          let same_byte : y % bpb / 8 ≡ x % bpb / 8 = ground arith in
          let e : fs.block (bblock fs y) (y % bpb / 8) ≡ fs.block (bblock fs x) (x % bpb / 8) =
            ap₂ fs.block same_block same_byte in
          rw h (others (y % 8) (omega arith) ∙ ap (λ w. bit w (y % 8)) (sym e))
      | inr h ↦ rw h
    ]

pub put_byte_self : (fs : Fs) (n i v : ℕ) → (put_byte fs n i v).block n i ≡ v
put_byte_self fs n i v = rw (==_refl n, ==_refl i)

pub bzero-other : (fs : Fs) (b n j : ℕ) → n ≢ b → (bzero fs b).block n j ≡ fs.block n j
unfolding bzero
bzero-other fs b n j ne = let t : (n == b && ltb j bsize) ≡ false = ground arith in rw t

pub bzero_self : (fs : Fs) (b j : ℕ) → j < bsize → (bzero fs b).block b j ≡ 0
unfolding bzero
bzero_self fs b j lt = let t : (b == b && ltb j bsize) ≡ true = ground arith in rw t

-- The test of `balloc` and of `bfree`.
pub test_bit : (v k : ℕ) → (bit_and v (mask k) == 0) ≡ (bit v k == 0)
test_bit v k = elim (bit_and-mask k v) [
  | inl (z, e) ↦ ap₂ (λ a b. a == b) e refl ∙ ap (λ a. a == 0) (sym z)
  | inr (o, e) ↦
      let p : (mask k == 0) ≡ false = ground (arith, mask-positive k) in
      ap (λ a. a == 0) e ∙ p ∙ ap (λ a. a == 0) (sym o)
]

-- In the part of the map that begins at a multiple `b` of BPB.
pub in_part :
    (fs : Fs) (q bi : ℕ)
    → bi < bpb
    → used fs (q * bpb + bi) ≡ bit (fs.block (bblock fs (q * bpb)) (bi / 8)) (bi % 8)
in_part fs q bi lt =
    let a : (q * bpb + bi) / bpb ≡ q * bpb / bpb = omega arith in
    let b : (q * bpb + bi) % bpb ≡ bi = omega arith in
    let c : (q * bpb + bi) % 8 ≡ bi % 8 = omega arith in rw (a, b, c) refl
