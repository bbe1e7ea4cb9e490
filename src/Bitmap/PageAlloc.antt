-- ===== src/Bitmap/PageAlloc.antt =====
-- `balloc_page` and `bfree_page`: eight blocks at once, for a page that is swapped out.
use operating_system.Common.{
  ℕ, zero, suc, ◌+◌, ◌-◌, ◌*◌, ◌/◌, ◌%◌, ◌^◌, ◌≤◌, ◌<◌, ◌≡◌, refl, sym, ap, ap₂, ◌∙◌, subst, ◌≢◌,
  ◌⊎◌, inl, inr, true, false, arith, ltb, ◌==◌, ltb→lt, lt→ltb, le→ltb, ==_iff, Bool-cases, Run, ok,
  panic,
}
use Prim.Native.Nat.{bit_or}
use operating_system.Bitmap.{
  Fs, bsize, bpb, bblock, put_byte, take_byte, bzero_loop, balloc_page_loop, balloc_page,
  bfree_page,
}
use operating_system.Bitmap.Place.{put_byte_self}
use operating_system.Bitmap.Alloc.{not_below}
use operating_system.Bitmap.ByteSearch.{map_byte, IsOutside, find_byte_lem}
use operating_system.Bitmap.Taken.{
  bzero_loop-zeroed, put_byte_aside, marked, taken, taken-fields, taken-map_byte, taken-others,
  taken-map_stays,
}

-- What `balloc_page` has done, when it returns `b`.
pub record PageAllocated (fs : Fs) (b : ℕ) (fs' : Fs) : Type 0 where
  pub in_size : b < fs.size
  pub aligned : b % 8 ≡ 0
  pub were_free : map_byte fs b ≡ 0
  pub now_used : map_byte fs' b ≡ 255
  pub zeroed : (i j : ℕ) → i < 8 → j < bsize → fs'.block (b + i) j ≡ 0
  -- Of the block of the map only the byte of `b` changes.
  pub map_stays : (j : ℕ) → j ≢ b % bpb / 8 → fs'.block (bblock fs b) j ≡ fs.block (bblock fs b) j
  pub others_stay :
      (m j : ℕ) → m ≢ bblock fs b → ((i : ℕ) → i < 8 → m ≢ b + i) → fs'.block m j ≡ fs.block m j
  pub same_super : (fs'.size ≡ fs.size) × (fs'.bmapstart ≡ fs.bmapstart)
  -- `bfree_page` frees the blocks again, when all eight are on the disk, and else panics.
  pub freed_again :
      b + 8 ≤ fs.size
      → (fs'' : Fs) × (bfree_page fs' b ≡ ok fs'')
        × (map_byte fs'' b ≡ 0)
        × ((m j : ℕ) → (m ≢ bblock fs b) ⊎ (j ≢ b % bpb / 8) → fs''.block m j ≡ fs'.block m j)
  pub past_the_end : fs.size < b + 8 → bfree_page fs' b ≡ panic

-- `bfree_page` of a block whose byte is set.
bfree_page_ok :
    (fs : Fs) (x : ℕ)
    → x % 8 ≡ 0
    → map_byte fs x ≡ 255
    → x + 8 ≤ fs.size
    → fs.size < 2 ^ 32
    → (fs'' : Fs) × (bfree_page fs x ≡ ok fs'')
      × (map_byte fs'' x ≡ 0)
      × ((m j : ℕ) → (m ≢ bblock fs x) ⊎ (j ≢ x % bpb / 8) → fs''.block m j ≡ fs.block m j)
unfolding bfree_page
bfree_page_ok fs x aligned full room word =
    let wrap : (x + 8) % 2 ^ 32 ≡ x + 8 = omega arith in
    let inside : ltb fs.size (x + 8) ≡ false = le→ltb fs.size (x + 8) room in
    let al : (x % 8 == 0) ≡ true = (==_iff _ 0).1 aligned in
    let part : (x - x % bpb) / bpb ≡ x / bpb = omega arith in
    let byte : (fs.block (x / bpb + fs.bmapstart) (x % bpb / 8) == 255) ≡ true =
      (==_iff _ 255).1 full in
    (
      put_byte fs (bblock fs x) (x % bpb / 8) 0,
      rw (wrap, inside, al, part, byte) refl,
      put_byte_self fs (bblock fs x) (x % bpb / 8) 0,
      put_byte_aside fs (bblock fs x) (x % bpb / 8) 0,
    )

bfree_page_past : (fs : Fs) (x : ℕ) → fs.size < x + 8 → x + 8 < 2 ^ 32 → bfree_page fs x ≡ panic
unfolding bfree_page
bfree_page_past fs x past word =
    let wrap : (x + 8) % 2 ^ 32 ≡ x + 8 = omega arith in
    let outside : ltb fs.size (x + 8) ≡ true = lt→ltb fs.size (x + 8) past in
    rw (wrap, outside) refl

taken-PageAllocated :
    (fs : Fs) (x : ℕ)
    → IsOutside fs
    → fs.size + 8 < 2 ^ 32
    → x < fs.size
    → x % 8 ≡ 0
    → map_byte fs x ≡ 0
    → PageAllocated fs x (taken fs x)
unfolding bzero_loop
taken-PageAllocated fs x out word size aligned free =
    let outside : (i : ℕ) → i < 8 → bblock fs x ≢ x + i = λ i. out x i size aligned free in
    let full : map_byte (taken fs x) x ≡ 255 = taken-map_byte fs x size aligned free outside in
    let same : (taken fs x).size ≡ fs.size = (taken-fields fs x size aligned free outside).0 in
    record {
      in_size = size;
      aligned = aligned;
      were_free = free;
      now_used = full;
      zeroed = λ i j lt. bzero_loop-zeroed 8 (marked fs x) x 0 i j (omega arith) lt;
      map_stays = taken-map_stays fs x size aligned free outside;
      same_super = taken-fields fs x size aligned free outside;
      others_stay = taken-others fs x size aligned free outside;
      freed_again = λ room.
          bfree_page_ok (taken fs x) x aligned full (omega (arith, same)) (omega (arith, same));
      past_the_end = λ past. bfree_page_past (taken fs x) x (omega (arith, same)) (omega arith);
    }

take_byte_lem :
    (fs : Fs) (q bi : ℕ) → bi < bpb → take_byte fs (q * bpb) bi ≡ taken fs (q * bpb + bi)
unfolding take_byte
take_byte_lem fs q bi lt =
    let a : (q * bpb + bi) / bpb ≡ q * bpb / bpb = omega arith in
    let b : (q * bpb + bi) % bpb ≡ bi = omega arith in
    ap₂
      (λ n i.
        bzero_loop 8
          (put_byte fs (n + fs.bmapstart) (i / 8)
            (bit_or (fs.block (n + fs.bmapstart) (i / 8)) 255))
          (q * bpb + bi) 0)
      (sym a) (sym b)

-- How `balloc_page` ends: it has taken eight free blocks, or there are no eight in a byte of the map.
abbrev pub PageEnds : Fs → Run (ℕ × Fs) → Type 0
PageEnds fs r =
    ((b : ℕ) × (fs' : Fs) × (r ≡ ok (b, fs')) × PageAllocated fs b fs')
    ⊎ ((r ≡ panic) × ((x : ℕ) → x < fs.size → x % 8 ≡ 0 → map_byte fs x ≢ 0))

balloc_page_loop_lem :
    (n : ℕ) (fs : Fs) (q : ℕ)
    → IsOutside fs
    → fs.size + 8 < 2 ^ 32
    → fs.size + bpb < (q + n) * bpb
    → 0 < n
    → ((x : ℕ) → x < q * bpb → x < fs.size → x % 8 ≡ 0 → map_byte fs x ≢ 0)
    → PageEnds fs (balloc_page_loop n fs (q * bpb))
unfolding balloc_page_loop
balloc_page_loop_lem zero fs q out word enough some_fuel before = absurd (omega arith)
balloc_page_loop_lem (suc n) fs q out word enough some_fuel before =
    elim (Bool-cases (ltb (q * bpb) fs.size)) [
      | inr h ↦ inr (rw h, λ x lt. before x (omega (arith, not_below _ _ h)) lt)
      | inl h ↦ elim (find_byte_lem (bpb / 8) fs q 0 refl refl) [
        | inl (j, e, lt, al, size, free) ↦ inl (
          q * bpb + j,
          take_byte fs (q * bpb) j,
          rw (h, e, balloc_page_loop) refl,
          subst (λ m. PageAllocated fs (q * bpb + j) m) (sym (take_byte_lem fs q j lt))
              (taken-PageAllocated fs (q * bpb + j) out word size (omega arith) free),
        )
        | inr (e, full) ↦
            let next : balloc_page_loop (suc n) fs (q * bpb)
                ≡ balloc_page_loop n fs (q * bpb + bpb) =
              rw (h, e, balloc_page_loop) refl in
            let more : q * bpb + bpb ≡ (q + 1) * bpb = omega arith in
            let r : PageEnds fs (balloc_page_loop n fs ((q + 1) * bpb)) =
              balloc_page_loop_lem n fs (q + 1) out word (omega arith)
                (more_fuel n (ltb→lt _ _ h) (omega arith))
                (λ y below size al. elim (Bool-cases (ltb y (q * bpb))) [
                  | inl t ↦ before y (ltb→lt _ _ t) size al
                  | inr t ↦ there full y (not_below _ _ t) (omega arith) al size
                ]) in
            subst (λ m. PageEnds fs m) (sym (next ∙ ap (balloc_page_loop n fs) more)) r
      ]
    ]
  where
    more_fuel : (n : ℕ) → q * bpb < fs.size → fs.size + bpb < (q + suc n) * bpb → 0 < n
    more_fuel n a b = omega arith

    there :
        ((x : ℕ)
          → 0 ≤ x
          → x < bpb
          → x % 8 ≡ 0
          → q * bpb + x < fs.size
          → map_byte fs (q * bpb + x) ≢ 0)
        → (y : ℕ) → q * bpb ≤ y
        → y < q * bpb + bpb
        → y % 8 ≡ 0
        → y < fs.size
        → map_byte fs y ≢ 0
    there full y le below al size =
        let at : q * bpb + (y - q * bpb) ≡ y = omega arith in
        subst (λ z. map_byte fs z ≢ 0) at
          (full (y - q * bpb) (omega arith) (omega arith) (omega arith) (omega arith))

-- On a disk of less than 2 ^ 32 - 8 blocks, whose map has no block in eight free ones, `balloc_page`
-- either takes eight free blocks in a row from a multiple of eight on, or panics, and no byte of the map
-- stands for eight free blocks. The blocks that it takes are zeroed, their byte of the map is 255, and every
-- other byte of the disk is as before. `bfree_page` of them makes that byte 0 again and changes no other,
-- when all eight are on the disk; when the size of the disk is no multiple of eight, they may reach past
-- its end, and then `bfree_page` panics.
pub balloc_page_lem : (fs : Fs) → IsOutside fs → fs.size + 8 < 2 ^ 32 → PageEnds fs (balloc_page fs)
unfolding balloc_page
balloc_page_lem fs out word =
    balloc_page_loop_lem (fs.size / bpb + 2) fs 0 out word (omega arith) (omega arith)
      (λ x lt. absurd (omega arith))
