-- ===== src/Bitmap/Taken.antt =====
-- Eight blocks that `balloc_page` of mp2/kernel/fs.c marks in the map and zeroes.
use operating_system.Common.{
  ℕ, zero, suc, ◌+◌, ◌/◌, ◌%◌, ◌≤◌, ◌<◌, ◌≡◌, refl, ap, ◌∙◌, subst, ◌≢◌, ◌⊎◌, inl, inr, false, ◌&&◌,
  arith, ◌==◌, ==_iff, Bool-cases,
}
use operating_system.Common.Bits.{or_and}
use Prim.Native.Nat.{bit_or, bit_and-bitwise}
use operating_system.Bitmap.{Fs, bsize, bpb, bblock, put_byte, bzero, bzero_loop}
use operating_system.Bitmap.Place.{bzero-other, bzero_self, put_byte_self}
use operating_system.Bitmap.ByteSearch.{map_byte}

bzero_loop-other :
    (n : ℕ) (fs : Fs) (b i m j : ℕ)
    → ((k : ℕ) → i ≤ k → k < i + n → m ≢ b + k)
    → (bzero_loop n fs b i).block m j ≡ fs.block m j
unfolding bzero_loop
bzero_loop-other zero fs b i m j away = refl
bzero_loop-other (suc n) fs b i m j away =
    bzero_loop-other n (bzero fs (b + i)) b (i + 1) m j
      (λ k lo hi. away k (omega arith) (omega arith))
    ∙ bzero-other fs (b + i) m j (away i (omega arith) (omega arith))

pub bzero_loop-zeroed :
    (n : ℕ) (fs : Fs) (b i k j : ℕ)
    → i ≤ k
    → k < i + n
    → j < bsize
    → (bzero_loop n fs b i).block (b + k) j ≡ 0
unfolding bzero_loop
bzero_loop-zeroed zero fs b i k j lo hi small = absurd (omega arith)
bzero_loop-zeroed (suc n) fs b i k j lo hi small = elim (Bool-cases (i == k)) [
  | inr later ↦
      bzero_loop-zeroed n (bzero fs (b + i)) b (i + 1) k j (ground arith) (omega arith) small
  | inl now ↦
      let same : i ≡ k = (==_iff i k).0 now in
      bzero_loop-other n (bzero fs (b + i)) b (i + 1) (b + k) j (λ l below above. omega arith)
      ∙ subst (λ l. (bzero fs (b + i)).block (b + l) j ≡ 0) same (bzero_self fs (b + i) j small)
]

pub put_byte_aside :
    (fs : Fs) (n i v m j : ℕ) → (m ≢ n) ⊎ (j ≢ i) → (put_byte fs n i v).block m j ≡ fs.block m j
put_byte_aside fs n i v m j away = let t : (m == n && j == i) ≡ false = ground arith in rw t

abbrev pub marked : Fs → ℕ → Fs
marked fs x = put_byte fs (bblock fs x) (x % bpb / 8) (bit_or (map_byte fs x) 255)

abbrev pub taken : Fs → ℕ → Fs
taken fs x = bzero_loop 8 (marked fs x) x 0

module _ (fs : Fs) (x : ℕ) (size : x < fs.size) (aligned : x % 8 ≡ 0) (free : map_byte fs x ≡ 0)
    (outside : (i : ℕ) → i < 8 → bblock fs x ≢ x + i) where
  pub taken-fields : ((taken fs x).size ≡ fs.size) × ((taken fs x).bmapstart ≡ fs.bmapstart)
  unfolding bzero_loop bzero
  taken-fields = (refl, refl)

  all_set : bit_or (map_byte fs x) 255 ≡ 255
  all_set = ap (λ w. bit_or w 255) free ∙ omega (arith, or_and 0 255, bit_and-bitwise 0 255)

  pub taken-byte : (taken fs x).block (bblock fs x) (x % bpb / 8) ≡ 255
  taken-byte =
      bzero_loop-other 8 (marked fs x) x 0 (bblock fs x) (x % bpb / 8) (λ k lo hi. outside k hi)
      ∙ put_byte_self fs (bblock fs x) (x % bpb / 8) (bit_or (map_byte fs x) 255)
      ∙ all_set

  pub taken-map_byte : map_byte (taken fs x) x ≡ 255
  taken-map_byte =
      ap (λ s. (taken fs x).block (x / bpb + s) (x % bpb / 8)) taken-fields.1 ∙ taken-byte

  pub taken-others :
      (m j : ℕ)
      → m ≢ bblock fs x
      → ((i : ℕ) → i < 8 → m ≢ x + i)
      → (taken fs x).block m j ≡ fs.block m j
  taken-others m j ne away =
      let t : (m == bblock fs x && j == x % bpb / 8) ≡ false = ground arith in
      bzero_loop-other 8 (marked fs x) x 0 m j (λ k lo hi. away k hi) ∙ rw t

  pub taken-map_stays :
      (j : ℕ) → j ≢ x % bpb / 8 → (taken fs x).block (bblock fs x) j ≡ fs.block (bblock fs x) j
  taken-map_stays j ne =
      bzero_loop-other 8 (marked fs x) x 0 (bblock fs x) j (λ k lo hi. outside k hi)
      ∙ put_byte_aside fs (bblock fs x) (x % bpb / 8) (bit_or (map_byte fs x) 255) (bblock fs x) j
          (inr ne)
