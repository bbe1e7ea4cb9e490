-- ===== src/Bitmap/Alloc.antt =====
-- `balloc` and `bfree`: the first free block, and back.
use operating_system.Common.{
  ℕ, zero, suc, ◌+◌, ◌-◌, ◌*◌, ◌/◌, ◌%◌, ◌≤◌, ◌<◌, ◌≡◌, refl, sym, ap, ap₂, ◌∙◌, subst, ◌≢◌, ◌⊎◌,
  inl, inr, true, false, ◌&&◌, arith, ltb, ◌==◌, ltb→lt, Bool-cases, Run, ok, panic,
}
use operating_system.Common.Bits.{clear_bits}
use operating_system.Common.Digits.{bit, mask, bit-set_self, bit-set_other, clear_bits-set}
use Prim.Native.Nat.{bit_and, bit_or}
use operating_system.Bitmap.{
  Fs, bpb, bsize, bblock, put_byte, bzero, take_bit, balloc_loop, balloc, bfree,
}
use operating_system.Bitmap.Place.{
  used, IsApart, put_byte-used, put_byte_self, bzero-other, bzero_self, test_bit,
}
use operating_system.Bitmap.Search.{find_bit_lem}

-- What `balloc` has done, when it returns `b`.
pub record Allocated (fs : Fs) (b : ℕ) (fs' : Fs) : Type 0 where
  pub in_size : b < fs.size
  pub was_free : used fs b ≡ 0
  pub is_first : (x : ℕ) → x < b → used fs x ≡ 1
  pub now_used : used fs' b ≡ 1
  pub others_stay : (x : ℕ) → x < fs.size → x ≢ b → used fs' x ≡ used fs x
  pub zeroed : (j : ℕ) → j < bsize → fs'.block b j ≡ 0
  pub rest : (n j : ℕ) → n ≢ b → n ≢ bblock fs b → fs'.block n j ≡ fs.block n j
  -- `bfree` finds the block in use, and leaves what was there but for the block itself.
  pub freed_again :
      (fs'' : Fs) × (bfree fs' b ≡ ok fs'') × ((n j : ℕ) → n ≢ b → fs''.block n j ≡ fs.block n j)

put_byte-hit :
    (fs : Fs) (n i v m j : ℕ) → (m == n && j == i) ≡ true → (put_byte fs n i v).block m j ≡ v
put_byte-hit fs n i v m j h = rw h

put_byte-miss :
    (fs : Fs) (n i v m j : ℕ)
    → (m == n && j == i) ≡ false
    → (put_byte fs n i v).block m j ≡ fs.block m j
put_byte-miss fs n i v m j h = rw h

bfree_ok :
    (fs : Fs) (x : ℕ)
    → used fs x ≡ 1
    → bfree fs x
      ≡ ok (
          put_byte fs
            (bblock fs x)
            (x % bpb / 8)
            (clear_bits (fs.block (bblock fs x) (x % bpb / 8)) (mask (x % 8))))
unfolding bfree
bfree_ok fs x one =
    let v : ℕ = fs.block (bblock fs x) (x % bpb / 8) in
    let low : x % bpb % 8 ≡ x % 8 = omega arith in
    let in_use : (bit_and v (mask (x % 8)) == 0) ≡ false =
      test_bit v (x % 8) ∙ ap (λ w. w == 0) one in
    rw (low, in_use) refl

-- `take_bit` for the block `x`, and `bfree` of it.
module _ (fs : Fs) (x : ℕ) where
  abbrev word : ℕ
  word = fs.block (bblock fs x) (x % bpb / 8)

  abbrev marked : Fs
  marked = put_byte fs (bblock fs x) (x % bpb / 8) (bit_or word (mask (x % 8)))

  marked-used_other : (y : ℕ) → y ≢ x → used marked y ≡ used fs y
  marked-used_other y =
      put_byte-used fs x (bit_or word (mask (x % 8))) y (λ j. bit-set_other (x % 8) word j)

  marked-used : used marked x ≡ 1
  marked-used =
      ap (λ w. bit w (x % 8))
        (put_byte_self fs (bblock fs x) (x % bpb / 8) (bit_or word (mask (x % 8))))
      ∙ bit-set_self (x % 8) word

  marked-rest : (n j : ℕ) → n ≢ bblock fs x → marked.block n j ≡ fs.block n j
  marked-rest n j ne = let t : (n == bblock fs x && j == x % bpb / 8) ≡ false = ground arith in rw t

  bzero-used : (y : ℕ) → bblock fs y ≢ x → used (bzero marked x) y ≡ used marked y
  unfolding bzero
  bzero-used y ne = ap (λ w. bit w (y % 8)) (bzero-other marked x (bblock fs y) (y % bpb / 8) ne)

  bfree-marked :
      bblock fs x ≢ x
      → used fs x ≡ 0
      → (fs'' : Fs) × (bfree (bzero marked x) x ≡ ok fs'')
        × ((n j : ℕ) → n ≢ x → fs''.block n j ≡ fs.block n j)
  unfolding bfree bzero
  bfree-marked apart free =
      let m : ℕ = mask (x % 8) in
      let fs' : Fs = bzero marked x in
      let v : ℕ = fs'.block (bblock fs x) (x % bpb / 8) in
      let is_set : v ≡ bit_or word m =
        bzero-other marked x (bblock fs x) (x % bpb / 8) apart
        ∙ put_byte_self fs (bblock fs x) (x % bpb / 8) (bit_or word m) in
      let one : bit v (x % 8) ≡ 1 = ap (λ w. bit w (x % 8)) is_set ∙ bit-set_self (x % 8) word in
      let back : clear_bits v m ≡ word =
        ap (λ w. clear_bits w m) is_set ∙ clear_bits-set (x % 8) word free in
      (
        put_byte fs' (bblock fs x) (x % bpb / 8) (clear_bits v m),
        bfree_ok (bzero marked x) x one,
        restored (clear_bits v m) back,
      )
    where
      restored :
          (w : ℕ)
          → w ≡ word
          → (n j : ℕ) → n ≢ x
          → (put_byte (bzero marked x) (bblock fs x) (x % bpb / 8) w).block n j ≡ fs.block n j
      restored w e n j ne = elim (Bool-cases (n == bblock fs x && j == x % bpb / 8)) [
        | inl h ↦
            let at : n ≡ bblock fs x = ground arith in
            let at' : j ≡ x % bpb / 8 = ground arith in
            put_byte-hit (bzero marked x) (bblock fs x) (x % bpb / 8) w n j h
            ∙ e
            ∙ sym (ap₂ fs.block at at')
        | inr h ↦
            put_byte-miss (bzero marked x) (bblock fs x) (x % bpb / 8) w n j h
            ∙ bzero-other marked x n j ne
            ∙ put_byte-miss fs (bblock fs x) (x % bpb / 8) (bit_or word (mask (x % 8))) n j h
      ]

  marked-Allocated :
      IsApart fs
      → x < fs.size
      → used fs x ≡ 0
      → ((y : ℕ) → y < x → used fs y ≡ 1)
      → Allocated fs x (bzero marked x)
  unfolding bzero
  marked-Allocated apart size free first = record {
    in_size = size;
    was_free = free;
    is_first = first;
    now_used = bzero-used x (apart x x size size free) ∙ marked-used;
    others_stay = λ y lt ne. bzero-used y (apart x y size lt free) ∙ marked-used_other y ne;
    zeroed = bzero_self marked x;
    rest = λ n j ne ne'. bzero-other marked x n j ne ∙ marked-rest n j ne';
    freed_again = bfree-marked (apart x x size size free) free;
  }

take_bit_lem :
    (fs : Fs) (q bi : ℕ)
    → bi < bpb
    → take_bit fs (q * bpb) bi ≡ bzero (marked fs (q * bpb + bi)) (q * bpb + bi)
unfolding take_bit
take_bit_lem fs q bi lt =
    let a : (q * bpb + bi) / bpb ≡ q * bpb / bpb = omega arith in
    let b : (q * bpb + bi) % bpb ≡ bi = omega arith in
    let c : (q * bpb + bi) % 8 ≡ bi % 8 = omega arith in
    let w : word fs (q * bpb + bi) ≡ fs.block (bblock fs (q * bpb)) (bi / 8) =
      ap₂ fs.block (ap (λ k. k + fs.bmapstart) a) (ap (λ k. k / 8) b) in
    rw (w, a, b, c) refl

-- How `balloc` ends: it has taken the first free block, or every block is in use.
abbrev pub Ends : Fs → Run (ℕ × Fs) → Type 0
Ends fs r =
    ((b : ℕ) × (fs' : Fs) × (r ≡ ok (b, fs')) × Allocated fs b fs')
    ⊎ ((r ≡ panic) × ((x : ℕ) → x < fs.size → used fs x ≡ 1))

pub not_below : (a b : ℕ) → ltb a b ≡ false → b ≤ a
not_below a b h = ground arith

-- The parts of the map before `q`, and the first `k` blocks of this one.
used_part :
    (fs : Fs) (q k : ℕ)
    → ((x : ℕ) → x < q * bpb → x < fs.size → used fs x ≡ 1)
    → ((x : ℕ) → x < k → q * bpb + x < fs.size → used fs (q * bpb + x) ≡ 1)
    → (y : ℕ) → y < q * bpb + k
    → y < fs.size
    → used fs y ≡ 1
used_part fs q k before here y below lt = elim (Bool-cases (ltb y (q * bpb))) [
  | inl t ↦ before y (ltb→lt _ _ t) lt
  | inr t ↦
      let le : q * bpb ≤ y = not_below y (q * bpb) t in
      let at : q * bpb + (y - q * bpb) ≡ y = omega arith in
      subst (λ z. used fs z ≡ 1) at (here (y - q * bpb) (omega arith) (omega arith))
]

balloc_loop_lem :
    (n : ℕ) (fs : Fs) (q : ℕ)
    → IsApart fs
    → fs.size + bpb < (q + n) * bpb
    → (0 < n)
    → ((x : ℕ) → x < q * bpb → x < fs.size → used fs x ≡ 1)
    → Ends fs (balloc_loop n fs (q * bpb))
unfolding balloc_loop
balloc_loop_lem zero fs q apart enough some_fuel before = absurd (omega arith)
balloc_loop_lem (suc n) fs q apart enough some_fuel before =
    elim (Bool-cases (ltb (q * bpb) fs.size)) [
      | inr h ↦ inr (rw h, λ x lt. before x (omega (arith, not_below _ _ h)) lt)
      | inl h ↦ elim (find_bit_lem bpb fs q 0 (omega arith)) [
        | inl (j, e, lt, size, free, first) ↦
            let x : ℕ = q * bpb + j in
            let all : (y : ℕ) → y < x → used fs y ≡ 1 = λ y below.
              used_part fs q j before (λ z lo _. first z (omega arith) lo) y below (omega arith) in
            inl (
              x,
              take_bit fs (q * bpb) j,
              rw (h, e, balloc_loop) refl,
              subst (λ m. Allocated fs x m) (sym (take_bit_lem fs q j lt))
                  (marked-Allocated fs x apart size free all),
            )
        | inr (e, full) ↦
            let next : balloc_loop (suc n) fs (q * bpb) ≡ balloc_loop n fs (q * bpb + bpb) =
              rw (h, e, balloc_loop) refl in
            let more : q * bpb + bpb ≡ (q + 1) * bpb = omega arith in
            let r : Ends fs (balloc_loop n fs ((q + 1) * bpb)) =
              balloc_loop_lem n fs (q + 1) apart (omega arith)
                (more_fuel n (ltb→lt _ _ h) (omega arith))
                (λ y below.
                  used_part fs q bpb before (λ z lo size. full z (omega arith) (omega arith) size) y
                    (omega arith)) in
            subst (λ m. Ends fs m) (sym (next ∙ ap (balloc_loop n fs) more)) r
      ]
    ]
  where
    more_fuel : (n : ℕ) → q * bpb < fs.size → fs.size + bpb < (q + suc n) * bpb → 0 < n
    more_fuel n a b = omega arith

-- While the blocks of the map are not free themselves, `balloc` either takes the first free block, marks
-- it and clears it, changes no other block but the one with its bit and no other bit, and `bfree` then
-- undoes the mark; or it panics, and every block is in use.
pub balloc_lem : (fs : Fs) → IsApart fs → Ends fs (balloc fs)
unfolding balloc
balloc_lem fs apart =
    balloc_loop_lem (fs.size / bpb + 2) fs 0 apart (omega arith) (omega arith)
      (λ x lt. absurd (omega arith))
