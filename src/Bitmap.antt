-- ===== src/Bitmap.antt =====
-- The map of free blocks in mp2/kernel/fs.c. A block is read and changed as the buffer cache holds it:
-- `block n` has the bytes that `bread` of block `n` finds. The counters `int b` of `balloc` and
-- `balloc_page` are taken not to overflow: the disk has fewer than 2 ^ 31 blocks.
pub mod Place
pub mod Search
pub mod Alloc
pub mod ByteSearch
pub mod Taken
pub mod PageAlloc
mod Tests
use operating_system.Common.{
  ℕ, zero, suc, ◌+◌, ◌-◌, ◌*◌, ◌/◌, ◌%◌, ◌^◌, ◌≤◌, ◌<◌, min, max, ◌≡◌, refl, sym, ap, ap₂, ◌∙◌,
  subst, ◌≢◌, ◌↔◌, ◌⊎◌, inl, inr, Bool, true, false, not, ◌&&◌, ◌||◌, Option, none, some, List, [],
  ◌∷◌, ◌++◌, append-nil, append_assoc, arith, ltb, leb, ◌==◌, if◌then◌else◌, ltb→lt, lt→ltb, le→ltb,
  ==_iff, ==_refl, Bool-cases, Option-cases, length, get_elem?, get_or, set, take, drop, replicate,
  erase_idx, length-append, length-set, length-take, length-drop, length-replicate,
  length-erase_idx, take-set, get_or-take, get_or-set_self, contains, contains-append, IsDistinct,
  append-IsDistinct, get_elem?-lt, get_elem?-contains, Run, ok, panic, fault, out_of_fuel, ◌>>=◌,
  ◌>>◌, bind-ok, ℤ, pos, negsuc, minus_one, is_negative,
}
use operating_system.Common.Bits.{clear_bits}
use operating_system.Common.Digits.{mask}
use Prim.Native.Nat.{bit_and, bit_or}

-- The two numbers of the super block that the map needs, and the blocks.
pub record Fs : Type 0 where
  pub size : ℕ
  pub bmapstart : ℕ
  pub block : ℕ → ℕ → ℕ

-- BSIZE and BPB
abbrev pub bsize : ℕ
bsize = 1024

abbrev pub bpb : ℕ
bpb = 8192

-- BBLOCK
abbrev pub bblock : Fs → ℕ → ℕ
bblock fs b = b / bpb + fs.bmapstart

abbrev pub put_byte : Fs → (n i v : ℕ) → Fs
put_byte fs n i v = record fs { block = λ m j. if m == n && j == i then v else fs.block m j }

unfoldable pub bzero : Fs → ℕ → Fs
bzero fs bno = record fs { block = λ m j. if m == bno && ltb j bsize then 0 else fs.block m j }

-- The inner loop of `balloc` from `bi` on.
unfoldable pub find_bit : (rounds : ℕ) → Fs → (b bi : ℕ) → Option ℕ
find_bit zero fs b bi = none
find_bit (suc n) fs b bi =
    let rest = find_bit n fs b (bi + 1) in
    if not (ltb (b + bi) fs.size)
    then none
    else if bit_and (fs.block (bblock fs b) (bi / 8)) (mask (bi % 8)) == 0
    then some bi
    else rest

-- What it does with the bit that it has found.
unfoldable pub take_bit : Fs → (b bi : ℕ) → Fs
unfolding bzero
take_bit fs b bi =
    let n = bblock fs b in
    bzero (put_byte fs n (bi / 8) (bit_or (fs.block n (bi / 8)) (mask (bi % 8)))) (b + bi)

-- The outer loop from `b` on.
unfoldable pub balloc_loop : (rounds : ℕ) → Fs → (b : ℕ) → Run (ℕ × Fs)
balloc_loop zero fs b = out_of_fuel
balloc_loop (suc n) fs b =
    let rest = balloc_loop n fs (b + bpb) in
    if not (ltb b fs.size)
    then panic
    else elim (find_bit bpb fs b 0) [ some bi ↦ ok (b + bi, take_bit fs b bi) | none ↦ rest ]

unfoldable pub balloc : Fs → Run (ℕ × Fs)
unfolding balloc_loop
balloc fs = balloc_loop (fs.size / bpb + 2) fs 0

unfoldable pub bfree : Fs → (b : ℕ) → Run Fs
bfree fs b =
    let n = bblock fs b in
    let bi = b % bpb in
    let v = fs.block n (bi / 8) in
    if bit_and v (mask (bi % 8)) == 0
    then panic
    else ok (put_byte fs n (bi / 8) (clear_bits v (mask (bi % 8))))

-- The inner loop of `balloc_page`: eight blocks at a time.
unfoldable pub find_byte : (rounds : ℕ) → Fs → (b bi : ℕ) → Option ℕ
find_byte zero fs b bi = none
find_byte (suc n) fs b bi =
    let rest = find_byte n fs b (bi + 8) in
    if not (ltb bi bpb && ltb (b + bi) fs.size)
    then none
    else if fs.block (bblock fs b) (bi / 8) == 0
    then some bi
    else rest

unfoldable pub bzero_loop : (rounds : ℕ) → Fs → (b i : ℕ) → Fs
unfolding bzero
bzero_loop zero fs b i = fs
bzero_loop (suc n) fs b i = bzero_loop n (bzero fs (b + i)) b (i + 1)

unfoldable pub take_byte : Fs → (b bi : ℕ) → Fs
unfolding bzero_loop
take_byte fs b bi =
    let n = bblock fs b in
    bzero_loop 8 (put_byte fs n (bi / 8) (bit_or (fs.block n (bi / 8)) 255)) (b + bi) 0

unfoldable pub balloc_page_loop : (rounds : ℕ) → Fs → (b : ℕ) → Run (ℕ × Fs)
balloc_page_loop zero fs b = out_of_fuel
balloc_page_loop (suc n) fs b =
    let rest = balloc_page_loop n fs (b + bpb) in
    if not (ltb b fs.size) then panic else elim (find_byte (bpb / 8) fs b 0) [
      | some bi ↦ ok (b + bi, take_byte fs b bi)
      | none ↦ rest
    ]

unfoldable pub balloc_page : Fs → Run (ℕ × Fs)
unfolding balloc_page_loop
balloc_page fs = balloc_page_loop (fs.size / bpb + 2) fs 0

unfoldable pub bfree_page : Fs → (blockno : ℕ) → Run Fs
bfree_page fs blockno =
    if ltb fs.size ((blockno + 8) % 2 ^ 32)
    then panic
    else if not (blockno % 8 == 0)
    then panic
    else (let bi = blockno % bpb in
        let n = bblock fs (blockno - bi) in
        if not (fs.block n (bi / 8) == 255) then panic else ok (put_byte fs n (bi / 8) 0))
