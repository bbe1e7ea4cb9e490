-- ===== src/Bitmap/ByteSearch.antt =====
-- The inner loop of `balloc_page`.
use operating_system.Common.{
  ℕ, zero, suc, ◌+◌, ◌*◌, ◌/◌, ◌%◌, ◌≤◌, ◌<◌, ◌≡◌, refl, sym, ap, ap₂, ◌∙◌, ◌≢◌, ◌⊎◌, inl, inr,
  true, false, Option, none, some, arith, ltb, ◌==◌, ltb→lt, lt→ltb, ==_iff, Bool-cases,
}
use operating_system.Bitmap.{Fs, bpb, bblock, find_byte}

-- The byte of the map for the block `x` and its neighbours.
abbrev pub map_byte : Fs → ℕ → ℕ
map_byte fs x = fs.block (bblock fs x) (x % bpb / 8)

-- The map has no block that stands in eight free ones.
abbrev pub IsOutside : Fs → Type 0
IsOutside fs = (x i : ℕ) → x < fs.size → x % 8 ≡ 0 → map_byte fs x ≡ 0 → i < 8 → bblock fs x ≢ x + i

pub in_part_byte :
    (fs : Fs) (q bi : ℕ)
    → bi < bpb
    → map_byte fs (q * bpb + bi) ≡ fs.block (bblock fs (q * bpb)) (bi / 8)
in_part_byte fs q bi lt =
    let a : (q * bpb + bi) / bpb ≡ q * bpb / bpb = omega arith in
    let b : (q * bpb + bi) % bpb ≡ bi = omega arith in
    ap₂ fs.block (ap (λ k. k + fs.bmapstart) a) (ap (λ k. k / 8) b)

-- The first eight blocks that are free, or none are.
abbrev pub FindsByte : Fs → (q bi : ℕ) → Option ℕ → Type 0
FindsByte fs q bi r =
    ((j : ℕ) × (r ≡ some j)
      × (j < bpb)
      × (j % 8 ≡ 0)
      × (q * bpb + j < fs.size)
      × (map_byte fs (q * bpb + j) ≡ 0))
    ⊎ ((r ≡ none)
        × ((x : ℕ)
            → bi ≤ x
            → x < bpb
            → x % 8 ≡ 0
            → q * bpb + x < fs.size
            → map_byte fs (q * bpb + x) ≢ 0))

pub find_byte_lem :
    (n : ℕ) (fs : Fs) (q bi : ℕ)
    → bi + n * 8 ≡ bpb
    → bi % 8 ≡ 0
    → FindsByte fs q bi (find_byte n fs (q * bpb) bi)
unfolding find_byte
find_byte_lem zero fs q bi room aligned = inr (refl, λ x lo hi. absurd (omega arith))
find_byte_lem (suc n) fs q bi room aligned =
    let inside : ltb bi bpb ≡ true = lt→ltb bi bpb (omega arith) in
    let byte : map_byte fs (q * bpb + bi) ≡ fs.block (bblock fs (q * bpb)) (bi / 8) =
      in_part_byte fs q bi (omega arith) in
    elim (Bool-cases (ltb (q * bpb + bi) fs.size)) [
      | inr h ↦ inr (rw (inside, h) refl, λ x lo hi al lt. absurd (past x lo lt h))
      | inl h ↦ elim (Bool-cases (fs.block (bblock fs (q * bpb)) (bi / 8) == 0)) [
        | inl z ↦ inl (
          bi,
          rw (inside, h, z) refl,
          omega arith,
          aligned,
          ltb→lt _ _ h,
          byte ∙ (==_iff _ 0).0 z,
        )
        | inr z ↦
            let next : find_byte (suc n) fs (q * bpb) bi ≡ find_byte n fs (q * bpb) (bi + 8) =
              rw (inside, h, z) refl in
            elim (find_byte_lem n fs q (bi + 8) (omega arith) (omega arith)) [
              | inl (j, e, lt, al, size, free) ↦ inl (j, next ∙ e, lt, al, size, free)
              | inr (e, full) ↦ inr (
                next ∙ e,
                λ x lo hi al lt. elim (Bool-cases (x == bi)) [
                  | inl t ↦ λ zero_byte.
                      let here : map_byte fs (q * bpb + bi) ≡ 0 =
                        sym (ap (λ y. map_byte fs (q * bpb + y)) ((==_iff x bi).0 t)) ∙ zero_byte in
                      let hit : (fs.block (bblock fs (q * bpb)) (bi / 8) == 0) ≡ true =
                        (==_iff _ 0).1 (sym byte ∙ here) in
                      cc (hit, z)
                  | inr t ↦ full x (further x lo t al) hi al lt
                ],
              )
            ]
      ]
    ]
  where
    past : (x : ℕ) → bi ≤ x → q * bpb + x < fs.size → ltb (q * bpb + bi) fs.size ≢ false
    past x lo lt h =
        let t : ltb (q * bpb + bi) fs.size ≡ true = lt→ltb _ _ (omega arith) in cc (t, h)

    further : (x : ℕ) → bi ≤ x → (x == bi) ≡ false → x % 8 ≡ 0 → bi + 8 ≤ x
    further x lo t al = let ne : x ≢ bi = ground arith in omega (arith, ne)
