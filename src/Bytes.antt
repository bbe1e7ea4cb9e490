-- ===== src/Bytes.antt =====
-- The functions of mp2/kernel/string.c on blocks of bytes and on strings. Memory is a function from addresses to
-- bytes; a pointer is an address, and a block does not wrap around; `n` is not negative.
pub mod Copy
pub mod Strings
mod Tests
use operating_system.Common.{
  ℕ, zero, suc, ◌+◌, ◌-◌, ◌*◌, ◌/◌, ◌%◌, ◌^◌, ◌≤◌, ◌<◌, min, max, ◌≡◌, refl, sym, ap, ap₂, ◌∙◌,
  subst, ◌≢◌, ◌↔◌, ◌⊎◌, inl, inr, Bool, true, false, not, ◌&&◌, ◌||◌, Option, none, some, List, [],
  ◌∷◌, ◌++◌, append-nil, append_assoc, arith, ltb, leb, ◌==◌, if◌then◌else◌, ltb→lt, lt→ltb, le→ltb,
  ==_iff, ==_refl, Bool-cases, Option-cases, length, get_elem?, get_or, set, take, drop, replicate,
  erase_idx, length-append, length-set, length-take, length-drop, length-replicate,
  length-erase_idx, take-set, get_or-take, get_or-set_self, contains, contains-append, IsDistinct,
  append-IsDistinct, Run, ok, panic, fault, out_of_fuel, ◌>>=◌, ◌>>◌, ℤ, pos, negsuc, minus_one,
  is_negative,
}

unfoldable pub write : (ℕ → ℕ) → ℕ → ℕ → ℕ → ℕ
write h a v x = if x == a then v else h x

-- The loop of `memset`, for the places from `i` on.
unfoldable pub memset_loop : (rounds : ℕ) → (ℕ → ℕ) → (dst c i : ℕ) → ℕ → ℕ
memset_loop zero h dst c i = h
memset_loop (suc n) h dst c i = memset_loop n (write h (dst + i) (c % 256)) dst c (i + 1)

unfoldable pub memset : (ℕ → ℕ) → (dst c n : ℕ) → ℕ → ℕ
memset h dst c n = memset_loop n h dst c 0

-- `*s1 - *s2` of the first bytes that differ, or 0.
unfoldable pub memcmp : (ℕ → ℕ) → (s₁ s₂ n : ℕ) → ℤ
memcmp h s₁ s₂ zero = pos 0
memcmp h s₁ s₂ (suc n) =
    let rest = memcmp h (s₁ + 1) (s₂ + 1) n in
    if not (h s₁ == h s₂)
    then if leb (h s₂) (h s₁) then pos (h s₁ - h s₂) else negsuc (h s₂ - h s₁ - 1)
    else rest

-- `while(n-- > 0) *d++ = *s++;`
unfoldable pub copy_up : (n : ℕ) → (ℕ → ℕ) → (d s : ℕ) → ℕ → ℕ
copy_up zero h d s = h
copy_up (suc n) h d s = copy_up n (write h d (h s)) (d + 1) (s + 1)

-- `while(n-- > 0) *--d = *--s;`
unfoldable pub copy_down : (n : ℕ) → (ℕ → ℕ) → (d s : ℕ) → ℕ → ℕ
copy_down zero h d s = h
copy_down (suc n) h d s = copy_down n (write h (d - 1) (h (s - 1))) (d - 1) (s - 1)

unfoldable pub memmove : (ℕ → ℕ) → (dst src n : ℕ) → ℕ → ℕ
memmove h dst src n =
    if n == 0
    then h
    else if ltb src dst && ltb dst (src + n)
    then copy_down n h (dst + n) (src + n)
    else copy_up n h dst src

-- `strncmp`: 0, or the difference of the first bytes that differ.
unfoldable pub strncmp : (n : ℕ) → (ℕ → ℕ) → (p q : ℕ) → ℤ
strncmp zero h p q = pos 0
strncmp (suc n) h p q =
    let rest = strncmp n h (p + 1) (q + 1) in
    if not (h p == 0) && h p == h q
    then rest
    else if leb (h q) (h p)
    then pos (h p - h q)
    else negsuc (h q - h p - 1)

-- The second loop of `strncpy`.
unfoldable pub pad : (n : ℕ) → (ℕ → ℕ) → (s : ℕ) → ℕ → ℕ
pad zero h s = h
pad (suc n) h s = pad n (write h s 0) (s + 1)

unfoldable pub strncpy : (n : ℕ) → (ℕ → ℕ) → (s t : ℕ) → ℕ → ℕ
unfolding pad
strncpy zero h s t = h
strncpy (suc n) h s t =
    let h' = write h s (h t) in
    let rest = strncpy n h' (s + 1) (t + 1) in if h t == 0 then pad n h' (s + 1) else rest

-- The loop of `safestrcpy`, for `n` more bytes, and the 0 behind it. When the loop has copied a 0, that is
-- the second one.
unfoldable pub safe_loop : (n : ℕ) → (ℕ → ℕ) → (s t : ℕ) → ℕ → ℕ
safe_loop zero h s t = write h s 0
safe_loop (suc n) h s t =
    let h' = write h s (h t) in
    let rest = safe_loop n h' (s + 1) (t + 1) in if h t == 0 then write h' (s + 1) 0 else rest

unfoldable pub safestrcpy : (n : ℕ) → (ℕ → ℕ) → (s t : ℕ) → ℕ → ℕ
unfolding safe_loop
safestrcpy zero h s t = h
safestrcpy (suc n) h s t = safe_loop n h s t
