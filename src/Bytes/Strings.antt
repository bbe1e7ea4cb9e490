-- ===== src/Bytes/Strings.antt =====
-- What the functions on strings copy and compare.
use operating_system.Common.{
  ℕ, zero, suc, ◌+◌, ◌-◌, ◌≤◌, ◌<◌, ◌≡◌, refl, sym, ap, ap₂, ◌∙◌, ◌≢◌, ◌⊎◌, inl, inr, true, false,
  arith, leb, ◌==◌, ==_iff, ==_refl, Bool-cases, pos,
}
use operating_system.Bytes.{write, strncmp, pad, strncpy, safe_loop, safestrcpy}

pub write_self : (h : ℕ → ℕ) (a v : ℕ) → write h a v a ≡ v
unfolding write
write_self h a v = rw (==_refl a)

pub write-other : (h : ℕ → ℕ) (a v x : ℕ) → x ≢ a → write h a v x ≡ h x
unfolding write
write-other h a v x ne = let t : (x == a) ≡ false = ground arith in rw t

pad-other : (n : ℕ) (h : ℕ → ℕ) (s x : ℕ) → (x < s) ⊎ (s + n ≤ x) → pad n h s x ≡ h x
unfolding pad
pad-other zero h s x away = refl
pad-other (suc n) h s x away =
    pad-other n (write h s 0) (s + 1) x
      (elim away [ inl lo ↦ inl (omega arith) | inr hi ↦ inr (omega arith) ])
    ∙ write-other h s 0 x (elim away [ inl lo ↦ omega arith | inr hi ↦ omega arith ])

-- `strncpy` writes `n` bytes and no other.
pub strncpy-other :
    (n : ℕ) (h : ℕ → ℕ) (s t x : ℕ) → (x < s) ⊎ (s + n ≤ x) → strncpy n h s t x ≡ h x
unfolding strncpy
strncpy-other zero h s t x away = refl
strncpy-other (suc n) h s t x away =
    let later : (x < s + 1) ⊎ (s + 1 + n ≤ x) = elim away [
      | inl lo ↦ inl (omega arith)
      | inr hi ↦ inr (omega arith)
    ] in
    let here : write h s (h t) x ≡ h x =
      write-other h s (h t) x (elim away [ inl lo ↦ omega arith | inr hi ↦ omega arith ]) in
    elim (Bool-cases (h t == 0)) [
      | inl z ↦ rw z (pad-other n (write h s (h t)) (s + 1) x later ∙ here)
      | inr z ↦ rw z (strncpy-other n (write h s (h t)) (s + 1) (t + 1) x later ∙ here)
    ]

-- The first bytes are those of the string.
strncpy-copied :
    (n : ℕ) (h : ℕ → ℕ) (s t i : ℕ)
    → (s + n ≤ t) ⊎ (t + n ≤ s)
    → i < n
    → ((j : ℕ) → j < i → h (t + j) ≢ 0)
    → strncpy n h s t (s + i) ≡ h (t + i)
unfolding strncpy
strncpy-copied zero h s t i apart lt string = absurd (omega arith)
strncpy-copied (suc n) h s t zero apart lt string =
    let h' : ℕ → ℕ = write h s (h t) in
    let at : s + 0 ≡ s = omega arith in
    let at' : t + 0 ≡ t = omega arith in
    let first : h' s ≡ h t = write_self h s (h t) in
    elim (Bool-cases (h t == 0)) [
      | inl z ↦ rw (at, at', z) (pad-other n h' (s + 1) s (inl (omega arith)) ∙ first)
      | inr z ↦ rw (at, at', z) (strncpy-other n h' (s + 1) (t + 1) s (inl (omega arith)) ∙ first)
    ]
strncpy-copied (suc n) h s t (suc i) apart lt string =
    let h' : ℕ → ℕ = write h s (h t) in
    let at : s + suc i ≡ s + 1 + i = omega arith in
    let at' : t + suc i ≡ t + 1 + i = omega arith in
    let same : (j : ℕ) → j < n → h' (t + 1 + j) ≡ h (t + 1 + j) = λ j lt'.
      write-other h s (h t) (t + 1 + j)
        (elim apart [ inl a ↦ omega arith | inr b ↦ omega arith ]) in
    let more : (h t == 0) ≡ false = first_is (string 0 (omega arith)) in
    rw (at, at', more)
      (strncpy-copied n h' (s + 1) (t + 1) i
          (elim apart [ inl a ↦ inl (omega arith) | inr b ↦ inr (omega arith) ]) (omega arith)
          (λ j lt' z.
            string (suc j) (omega arith) (ap h (shift j) ∙ sym (same j (omega arith)) ∙ z))
        ∙ same i (omega arith))
  where
    first_is : h (t + 0) ≢ 0 → (h t == 0) ≡ false
    first_is ne =
        let at : t + 0 ≡ t = omega arith in
        elim (Bool-cases (h t == 0)) [
          | inl z ↦ absurd (ne (ap h at ∙ (==_iff _ 0).0 z))
          | inr z ↦ z
        ]

    shift : (j : ℕ) → t + suc j ≡ t + 1 + j
    shift j = omega arith

-- Strings that agree up to the end of the second compare as equal.
strncmp_zero :
    (n : ℕ) (h : ℕ → ℕ) (p q : ℕ)
    → ((i : ℕ) → i < n → ((j : ℕ) → j < i → h (q + j) ≢ 0) → h (p + i) ≡ h (q + i))
    → strncmp n h p q ≡ pos 0
unfolding strncmp
strncmp_zero zero h p q agree = refl
strncmp_zero (suc n) h p q agree =
    let at : p + 0 ≡ p = omega arith in
    let at' : q + 0 ≡ q = omega arith in
    let same : h p ≡ h q =
      ap h (sym at) ∙ agree 0 (omega arith) (λ j lt. absurd (omega arith)) ∙ ap h at' in
    let equal : (h p == h q) ≡ true = (==_iff _ _).1 same in
    elim (Bool-cases (h p == 0)) [
      | inl z ↦
          let le : leb (h q) (h p) ≡ true = ground arith in
          let none_left : h p - h q ≡ 0 = omega (arith, same) in rw (z, le, none_left) refl
      | inr z ↦
          rw (z, equal)
            (strncmp_zero n h (p + 1) (q + 1) (λ i lt string.
              ap h (shift p i)
              ∙ agree (suc i) (omega arith) (tail z same string)
              ∙ ap h (sym (shift q i))))
    ]
  where
    shift : (a i : ℕ) → a + 1 + i ≡ a + suc i
    shift a i = omega arith

    tail :
        {i : ℕ}
        → (h p == 0) ≡ false
        → h p ≡ h q
        → ((j : ℕ) → j < i → h (q + 1 + j) ≢ 0)
        → (j : ℕ) → j < suc i
        → h (q + j) ≢ 0
    tail z same string zero lt e =
        let at : q ≡ q + 0 = omega arith in
        let hit : (h p == 0) ≡ true = (==_iff _ 0).1 (same ∙ ap h at ∙ e) in cc (hit, z)
    tail z same string (suc j) lt e = string j (omega arith) (ap h (shift q j) ∙ e)

-- A string that `strncpy` has copied to a place apart compares as equal to the original with `strncmp` of
-- the same length.
pub strncmp-strncpy :
    (n : ℕ) (h : ℕ → ℕ) (s t : ℕ)
    → (s + n ≤ t) ⊎ (t + n ≤ s)
    → strncmp n (strncpy n h s t) s t ≡ pos 0
strncmp-strncpy n h s t apart = strncmp_zero n (strncpy n h s t) s t (λ i lt string.
    strncpy-copied n h s t i apart lt (λ j below z. string j below (kept j (omega arith) ∙ z))
    ∙ sym (kept i lt))
  where
    kept : (i : ℕ) → i < n → strncpy n h s t (t + i) ≡ h (t + i)
    kept i lt =
        strncpy-other n h s t (t + i)
          (elim apart [ inl a ↦ inr (omega arith) | inr b ↦ inl (omega arith) ])

-- What `safestrcpy` leaves at `s`: the first `k` bytes of the string, and a 0 behind them.
pub record Terminated (n : ℕ) (h : ℕ → ℕ) (s t k : ℕ) (h' : ℕ → ℕ) : Type 0 where
  pub copied : (i : ℕ) → i < k → h' (s + i) ≡ h (t + i)
  pub ended : h' (s + k) ≡ 0
  pub others : (x : ℕ) → (x < s) ⊎ (s + n ≤ x) → h' x ≡ h x

safe_loop-other :
    (n : ℕ) (h : ℕ → ℕ) (s t x : ℕ) → (x < s) ⊎ (s + n < x) → safe_loop n h s t x ≡ h x
unfolding safe_loop
safe_loop-other zero h s t x away =
    write-other h s 0 x (elim away [ inl lo ↦ omega arith | inr hi ↦ omega arith ])
safe_loop-other (suc n) h s t x away =
    let h' : ℕ → ℕ = write h s (h t) in
    let here : h' x ≡ h x =
      write-other h s (h t) x (elim away [ inl lo ↦ omega arith | inr hi ↦ omega arith ]) in
    elim (Bool-cases (h t == 0)) [
      | inl z ↦ rw z (
          write-other h' (s + 1) 0 x (elim away [ inl lo ↦ omega arith | inr hi ↦ omega arith ])
          ∙ here)
      | inr z ↦ rw z (
          safe_loop-other n h' (s + 1) (t + 1) x
            (elim away [ inl lo ↦ inl (omega arith) | inr hi ↦ inr (omega arith) ])
          ∙ here)
    ]

-- Where the copy of at most `n` bytes ends.
abbrev pub EndsAt : (n : ℕ) → (ℕ → ℕ) → (s t : ℕ) → (ℕ → ℕ) → Type 0
EndsAt n h s t h' =
    (k : ℕ) × (k ≤ n)
    × ((i : ℕ) → i < k → h (t + i) ≢ 0)
    × ((k ≡ n) ⊎ (h (t + k) ≡ 0))
    × Terminated (suc n) h s t k h'

safe_loop_lem :
    (n : ℕ) (h : ℕ → ℕ) (s t : ℕ)
    → (s + suc n ≤ t) ⊎ (t + suc n ≤ s)
    → EndsAt n h s t (safe_loop n h s t)
unfolding safe_loop
safe_loop_lem zero h s t apart = (
  0,
  omega arith,
  λ i lt. absurd (omega arith),
  inl refl,
  record {
    copied = λ i lt. absurd (omega arith);
    ended = let at : s + 0 ≡ s = omega arith in rw at (write_self h s 0);
    others = λ x away.
        safe_loop-other 0 h s t x (elim away [ inl lo ↦ inl lo | inr hi ↦ inr (omega arith) ]);
  },
)
safe_loop_lem (suc n) h s t apart =
    let h' : ℕ → ℕ = write h s (h t) in
    let at : s + 0 ≡ s = omega arith in
    let at' : t + 0 ≡ t = omega arith in
    let frame : (x : ℕ) → (x < s) ⊎ (s + suc (suc n) ≤ x) → safe_loop (suc n) h s t x ≡ h x =
      λ x away.
        safe_loop-other (suc n) h s t x
          (elim away [ inl lo ↦ inl lo | inr hi ↦ inr (omega arith) ]) in
    elim (Bool-cases (h t == 0)) [
      | inl z ↦
          let out : safe_loop (suc n) h s t ≡ write h' (s + 1) 0 = rw z refl in
          let none_left : h t ≡ 0 = (==_iff _ 0).0 z in
          (
            0,
            omega arith,
            λ i lt. absurd (omega arith),
            inr (ap h at' ∙ none_left),
            record {
              copied = λ i lt. absurd (omega arith);
              ended =
                  ap₂ (λ f x. f x) out at
                  ∙ write-other h' (s + 1) 0 s (omega arith)
                  ∙ write_self h s (h t)
                  ∙ none_left;
              others = frame;
            },
          )
      | inr z ↦
          let out : safe_loop (suc n) h s t ≡ safe_loop n h' (s + 1) (t + 1) = rw z refl in
          let (k, le, string, stop, r) =
            safe_loop_lem n h' (s + 1) (t + 1)
              (elim apart [ inl a ↦ inl (omega arith) | inr b ↦ inr (omega arith) ]) in
          (
            suc k,
            omega arith,
            λ i lt. nonzero i z (λ j lt' e. string j (omega arith) (kept j (omega arith) ∙ e)),
            elim stop [ inl e ↦ inl (omega arith) | inr e ↦ inr (sym (kept k (omega arith)) ∙ e) ],
            record {
              copied = λ i lt.
                  ap (λ f. f (s + i)) out ∙ bytes i (λ j lt'. r.copied j (omega arith)) k le lt;
              ended =
                  ap (λ f. f (s + suc k)) out
                  ∙ ap (safe_loop n h' (s + 1) (t + 1)) (shift s k)
                  ∙ r.ended;
              others = frame;
            },
          )
    ]
  where
    shift : (a i : ℕ) → a + suc i ≡ a + 1 + i
    shift a i = omega arith

    kept : (j : ℕ) → j ≤ n → write h s (h t) (t + 1 + j) ≡ h (t + suc j)
    kept j le =
        write-other h s (h t) (t + 1 + j) (elim apart [ inl a ↦ omega arith | inr b ↦ omega arith ])
        ∙ ap h (sym (shift t j))

    nonzero :
        (i : ℕ) → (h t == 0) ≡ false → ((j : ℕ) → suc j ≡ i → h (t + suc j) ≢ 0) → h (t + i) ≢ 0
    nonzero zero z rest e =
        let at : t ≡ t + 0 = omega arith in
        let hit : (h t == 0) ≡ true = (==_iff _ 0).1 (ap h at ∙ e) in cc (hit, z)
    nonzero (suc i) z rest e = rest i refl e

    bytes :
        (i : ℕ)
        → ((j : ℕ)
            → suc j ≡ i
            → safe_loop n (write h s (h t)) (s + 1) (t + 1) (s + 1 + j)
              ≡ write h s (h t) (t + 1 + j))
        → (k : ℕ) → k ≤ n
        → i < suc k
        → safe_loop n (write h s (h t)) (s + 1) (t + 1) (s + i) ≡ h (t + i)
    bytes zero rest k le lt =
        let at : s + 0 ≡ s = omega arith in
        let at' : t ≡ t + 0 = omega arith in
        ap (safe_loop n (write h s (h t)) (s + 1) (t + 1)) at
        ∙ safe_loop-other n (write h s (h t)) (s + 1) (t + 1) s (inl (omega arith))
        ∙ write_self h s (h t)
        ∙ ap h at'
    bytes (suc i) rest k le lt =
        ap (safe_loop n (write h s (h t)) (s + 1) (t + 1)) (shift s i)
        ∙ rest i refl
        ∙ kept i (omega arith)

-- `safestrcpy` into a buffer of n + 1 bytes apart from the string copies the string up to its end or up to
-- `n` bytes, puts a 0 behind them, and writes no byte outside the buffer.
pub safestrcpy_lem :
    (n : ℕ) (h : ℕ → ℕ) (s t : ℕ)
    → (s + suc n ≤ t) ⊎ (t + suc n ≤ s)
    → EndsAt n h s t (safestrcpy (suc n) h s t)
unfolding safestrcpy
safestrcpy_lem = safe_loop_lem
