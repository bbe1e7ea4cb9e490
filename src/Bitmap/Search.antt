-- ===== src/Bitmap/Search.antt =====
-- The inner loop of `balloc`.
use operating_system.Common.{
  ℕ, zero, suc, ◌+◌, ◌*◌, ◌/◌, ◌%◌, ◌≤◌, ◌<◌, ◌≡◌, refl, sym, ap, ◌∙◌, ◌≢◌, ◌⊎◌, inl, inr, Bool,
  true, false, Option, none, some, arith, ltb, ◌==◌, ltb→lt, lt→ltb, ==_iff, Bool-cases,
}
use operating_system.Common.Digits.{bit, mask}
use Prim.Native.Nat.{bit_and}
use operating_system.Bitmap.{Fs, bpb, bblock, find_bit}
use operating_system.Bitmap.Place.{used, bits-cases, test_bit, in_part}

-- What the inner loop finds: the first free block of its part of the map, or that none is free.
abbrev pub Finds : (n : ℕ) → Fs → (q bi : ℕ) → Option ℕ → Type 0
Finds n fs q bi r =
    ((j : ℕ) × (r ≡ some j)
      × (j < bpb)
      × (q * bpb + j < fs.size)
      × (used fs (q * bpb + j) ≡ 0)
      × ((x : ℕ) → bi ≤ x → x < j → used fs (q * bpb + x) ≡ 1))
    ⊎ ((r ≡ none)
        × ((x : ℕ) → bi ≤ x → x < bi + n → q * bpb + x < fs.size → used fs (q * bpb + x) ≡ 1))

pub find_bit_lem :
    (n : ℕ) (fs : Fs) (q bi : ℕ) → bi + n ≤ bpb → Finds n fs q bi (find_bit n fs (q * bpb) bi)
unfolding find_bit
find_bit_lem zero fs q bi room = inr (refl, λ x lo hi. absurd (omega arith))
find_bit_lem (suc n) fs q bi room =
    let out : Bool = ltb (q * bpb + bi) fs.size in
    let v : ℕ = fs.block (bblock fs (q * bpb)) (bi / 8) in
    let digit : used fs (q * bpb + bi) ≡ bit v (bi % 8) = in_part fs q bi (omega arith) in
    elim (Bool-cases out) [
      | inr h ↦ inr (rw h, λ x lo hi lt. absurd (past x lo lt h))
      | inl h ↦ elim (Bool-cases (bit_and v (mask (bi % 8)) == 0)) [
        | inl z ↦
            let is_zero : (bit v (bi % 8) == 0) ≡ true = sym (test_bit v (bi % 8)) ∙ z in
            inl (
              bi,
              rw (h, z) refl,
              omega arith,
              ltb→lt _ _ h,
              digit ∙ (==_iff _ 0).0 is_zero,
              λ x lo hi. absurd (omega arith),
            )
        | inr z ↦
            let not_zero : (bit v (bi % 8) == 0) ≡ false = sym (test_bit v (bi % 8)) ∙ z in
            let here : used fs (q * bpb + bi) ≡ 1 = elim (bits-cases fs (q * bpb + bi)) [
              | inl zero_bit ↦
                  let hit : (bit v (bi % 8) == 0) ≡ true = (==_iff _ 0).1 (sym digit ∙ zero_bit) in
                  absurd (cc (hit, not_zero))
              | inr one_bit ↦ one_bit
            ] in
            let next : find_bit (suc n) fs (q * bpb) bi ≡ find_bit n fs (q * bpb) (bi + 1) =
              rw (h, z) refl in
            elim (find_bit_lem n fs q (bi + 1) (omega arith)) [
              | inl (j, e, lt, size, free, before) ↦
                  inl (
                    j,
                    next ∙ e,
                    lt,
                    size,
                    free,
                    λ x lo hi. first x lo here (λ lo'. before x lo' hi),
                  )
              | inr (e, full) ↦
                  inr (next ∙ e, λ x lo hi lt. first x lo here (λ lo'. full x lo' (omega arith) lt))
            ]
      ]
    ]
  where
    past : (x : ℕ) → bi ≤ x → q * bpb + x < fs.size → ltb (q * bpb + bi) fs.size ≢ false
    past x lo lt h =
        let t : ltb (q * bpb + bi) fs.size ≡ true = lt→ltb _ _ (omega arith) in cc (t, h)

    first :
        (x : ℕ)
        → bi ≤ x
        → used fs (q * bpb + bi) ≡ 1
        → (bi + 1 ≤ x → used fs (q * bpb + x) ≡ 1)
        → used fs (q * bpb + x) ≡ 1
    first x lo here rest = elim (Bool-cases (x == bi)) [
      | inl h ↦ ap (λ y. used fs (q * bpb + y)) ((==_iff x bi).0 h) ∙ here
      | inr h ↦ rest (ground arith)
    ]
