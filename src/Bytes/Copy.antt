-- ===== src/Bytes/Copy.antt =====
-- What the functions on blocks do, byte by byte.
use operating_system.Common.{
  ℤ, ℕ, zero, suc, ◌+◌, ◌-◌, ◌%◌, ◌≤◌, ◌<◌, ◌≡◌, refl, ◌∙◌, ◌⊎◌, inl, inr, ◌&&◌, arith, ltb, leb,
  ◌==◌, if◌then◌else◌, ltb→lt, ==_iff, Bool-cases, pos, negsuc,
}
use operating_system.Bytes.{write, memset, memset_loop, memcmp, copy_up, copy_down, memmove}

-- Memory in which the block at `dst` is a copy of the block at `src`.
unfoldable pub moved : (ℕ → ℕ) → (dst src n : ℕ) → ℕ → ℕ
moved h dst src n x = if leb dst x && ltb x (dst + n) then h (src + (x - dst)) else h x

copy_up-moved :
    (n : ℕ) (h : ℕ → ℕ) (d s x : ℕ) → (d ≤ s) ⊎ (s + n ≤ d) → copy_up n h d s x ≡ moved h d s n x
unfolding copy_up moved write
copy_up-moved zero h d s x away = ground arith
copy_up-moved (suc n) h d s x away =
    copy_up-moved n (write h d (h s)) (d + 1) (s + 1) x
      (elim away [ inl a ↦ inl (omega arith) | inr b ↦ inr (omega arith) ])
    ∙ elim (Bool-cases (ltb d x)) [
      | inl above ↦
          let place : s + 1 + (x - (d + 1)) ≡ s + (x - d) =
            let lt = ltb→lt d x above in omega arith in
          rw place (elim away [ inl a ↦ ground arith | inr b ↦ ground arith ])
      | inr below ↦ elim (Bool-cases (x == d)) [
        | inl at_d ↦
            let place : s + (x - d) ≡ s = let same = (==_iff x d).0 at_d in omega arith in
            rw place (ground arith)
        | inr under ↦ ground arith
      ]
    ]

copy_down-moved :
    (n : ℕ) (h : ℕ → ℕ) (d s x : ℕ) → s ≤ d → copy_down n h (d + n) (s + n) x ≡ moved h d s n x
unfolding copy_down moved write
copy_down-moved zero h d s x le = ground arith
copy_down-moved (suc n) h d s x le =
    let d_end : d + suc n - 1 ≡ d + n = omega arith in
    let s_end : s + suc n - 1 ≡ s + n = omega arith in
    rw (d_end, s_end)
      (copy_down-moved n (write h (d + n) (h (s + n))) d s x le ∙ elim (Bool-cases (x == d + n)) [
        | inl at_end ↦
            let place : s + (x - d) ≡ s + n =
              let same = (==_iff x (d + n)).0 at_end in omega arith in
            rw place (ground arith)
        | inr inside ↦ ground arith
      ])

-- `memmove` makes the destination a copy of what the source held, also where the two overlap, and
-- changes no other byte.
pub memmove-moved : (h : ℕ → ℕ) (dst src n x : ℕ) → memmove h dst src n x ≡ moved h dst src n x
unfolding memmove moved
memmove-moved h dst src n x = elim (Bool-cases (n == 0)) [
  | inl none_left ↦ rw none_left (ground arith)
  | inr some_left ↦ rw some_left (elim (Bool-cases (ltb src dst && ltb dst (src + n))) [
    | inl overlap ↦ rw overlap (copy_down-moved n h dst src x (ground arith))
    | inr apart ↦ rw apart (copy_up-moved n h dst src x (ground arith))
  ])
]

memset_loop-filled :
    (n : ℕ) (h : ℕ → ℕ) (dst c i x : ℕ)
    → memset_loop n h dst c i x ≡ (if leb (dst + i) x && ltb x (dst + i + n) then c % 256 else h x)
unfolding memset_loop write
memset_loop-filled zero h dst c i x = ground arith
memset_loop-filled (suc n) h dst c i x =
    memset_loop-filled n (write h (dst + i) (c % 256)) dst c (i + 1) x ∙ ground arith

-- `memset` makes every byte of the block the low byte of `c` and changes no other byte.
pub memset-filled :
    (h : ℕ → ℕ) (dst c n x : ℕ)
    → memset h dst c n x ≡ (if leb dst x && ltb x (dst + n) then c % 256 else h x)
unfolding memset
memset-filled h dst c n x =
    let first : dst + 0 ≡ dst = omega arith in rw first at (memset_loop-filled n h dst c 0 x)

-- What `memcmp` of `n` bytes at `a` and at `b` returns.
abbrev pub Compares : (ℕ → ℕ) → (a b n : ℕ) → ℤ → Type 0
Compares h a b n r =
    ((r ≡ pos 0) × ((i : ℕ) → i < n → h (a + i) ≡ h (b + i)))
    ⊎ ((i : ℕ) × (i < n)
        × ((j : ℕ) → j < i → h (a + j) ≡ h (b + j))
        × ((h (b + i) < h (a + i) × r ≡ pos (h (a + i) - h (b + i)))
            ⊎ (h (a + i) < h (b + i) × r ≡ negsuc (h (b + i) - h (a + i) - 1))))

-- When the first bytes are equal, the comparison is that of the bytes after them.
suc-Compares :
    (h : ℕ → ℕ) (a b n : ℕ) {r : ℤ}
    → h a ≡ h b
    → Compares h (a + 1) (b + 1) n r
    → Compares h a b (suc n) r
suc-Compares h a b n same c = elim c [
  | inl (z, e) ↦ inl (z, λ i lt. at_index i (λ j below next. e j (omega arith)))
  | inr (i, lt, e, d) ↦
      let ea : a + 1 + i ≡ a + suc i = omega arith in
      let eb : b + 1 + i ≡ b + suc i = omega arith in
      inr (
        suc i,
        omega arith,
        λ j below. at_index j (λ k under next. e k (omega arith)),
        rw (ea, eb) at d,
      )
]
  where
    at_index :
        (i : ℕ)
        → ((j : ℕ) → j < i → suc j ≡ i → h (a + 1 + j) ≡ h (b + 1 + j))
        → h (a + i) ≡ h (b + i)
    at_index zero rest =
        let za : a + 0 ≡ a = omega arith in let zb : b + 0 ≡ b = omega arith in rw (za, zb) same
    at_index (suc j) rest =
        let ea : a + 1 + j ≡ a + suc j = omega arith in
        let eb : b + 1 + j ≡ b + suc j = omega arith in rw (ea, eb) at (rest j (omega arith) refl)

-- `memcmp` returns 0 when the two blocks have the same bytes, and otherwise the difference of the two
-- bytes at the first place where the blocks differ, which is negative when the second is greater.
pub memcmp_lem : (n : ℕ) (h : ℕ → ℕ) (a b : ℕ) → Compares h a b n (memcmp h a b n)
unfolding memcmp
memcmp_lem zero h a b = inl (refl, λ i lt. absurd (omega arith))
memcmp_lem (suc n) h a b = elim (Bool-cases (h a == h b)) [
  | inl same ↦
      rw same (suc-Compares h a b n ((==_iff (h a) (h b)).0 same) (memcmp_lem n h (a + 1) (b + 1)))
  | inr differ ↦
      let za : a + 0 ≡ a = omega arith in
      let zb : b + 0 ≡ b = omega arith in
      inr (0, omega arith, λ j lt. absurd (omega arith), rw (za, zb, differ) (ground arith))
]
