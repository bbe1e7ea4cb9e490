-- ===== src/Paging/Replace/Recency.antt =====
-- Recency lists: the specification of an LRU buffer.
use operating_system.Common.{
  append-IsDistinct, ℕ, zero, suc, ◌-◌, ◌≤◌, ◌<◌, ◌≡◌, refl, sym, ap, ◌∙◌, inl, inr, true, false,
  List, [], ◌∷◌, ◌++◌, append_assoc, arith, leb, ◌==◌, if◌then◌else◌, ==_refl, Bool-cases, length,
  get_or, take, drop, erase_idx, length-append, length-drop, contains, IsDistinct,
}

unfoldable pub remove : ℕ → List ℕ → List ℕ
remove p [] = []
remove p (x ∷ xs) = let rest = remove p xs in if x == p then rest else x ∷ rest

-- An access moves its entry to the end, where the most recent stands.
unfoldable pub move_to_back : List ℕ → ℕ → List ℕ
unfolding remove
move_to_back xs p = remove p xs ++ p ∷ []

-- The last `n` elements.
unfoldable pub last_n : ℕ → List ℕ → List ℕ
last_n n xs = drop (length xs - n) xs

-- Every entry that was ever accessed, in the order of its last access.
unfoldable pub history : List ℕ → List ℕ → List ℕ
unfolding move_to_back
history xs [] = xs
history xs (p ∷ ps) = history (move_to_back xs p) ps

pub remove-eq_of_not_contains : (p : ℕ) (xs : List ℕ) → contains xs p ≡ false → remove p xs ≡ xs
unfolding remove
remove-eq_of_not_contains p [] h = refl
remove-eq_of_not_contains p (x ∷ xs) h = ground (arith, remove-eq_of_not_contains p xs)

pub remove-append : (p : ℕ) (xs ys : List ℕ) → remove p (xs ++ ys) ≡ remove p xs ++ remove p ys
unfolding remove
remove-append p [] ys = refl
remove-append p (x ∷ xs) ys = ground (arith, remove-append p xs ys)

contains-get_or : (j : ℕ) (xs : List ℕ) → j < length xs → contains xs (get_or xs j 0) ≡ true
contains-get_or j [] h = absurd (omega arith)
contains-get_or zero (x ∷ xs) h = ground (arith, ==_refl x)
contains-get_or (suc j) (x ∷ xs) h = ground (arith, contains-get_or j xs (omega arith))

pub erase_idx-eq-remove :
    (p j : ℕ) (xs : List ℕ)
    → IsDistinct xs
    → j < length xs
    → get_or xs j 0 ≡ p
    → erase_idx xs j ≡ remove p xs
unfolding remove
erase_idx-eq-remove p j [] d h e = absurd (omega arith)
erase_idx-eq-remove p zero (x ∷ xs) d h e =
    ground (arith, remove-eq_of_not_contains p xs, ==_refl x)
erase_idx-eq-remove p (suc j) (x ∷ xs) d h e =
    ground
      (arith, erase_idx-eq-remove p j xs d.1 (omega arith) e, contains-get_or j xs (omega arith))

contains-remove_self : (p : ℕ) (xs : List ℕ) → contains (remove p xs) p ≡ false
unfolding remove
contains-remove_self p [] = refl
contains-remove_self p (x ∷ xs) = ground (arith, contains-remove_self p xs)

contains-remove : (p q : ℕ) (xs : List ℕ) → contains xs q ≡ false → contains (remove p xs) q ≡ false
unfolding remove
contains-remove p q [] h = refl
contains-remove p q (x ∷ xs) h = ground (arith, contains-remove p q xs)

remove-IsDistinct : (p : ℕ) (xs : List ℕ) → IsDistinct xs → IsDistinct (remove p xs)
unfolding remove
remove-IsDistinct p [] d = tt
remove-IsDistinct p (x ∷ xs) d = elim (Bool-cases (x == p)) [
  | inl e ↦ rw e (remove-IsDistinct p xs d.1)
  | inr e ↦ rw e (contains-remove p x xs d.0, remove-IsDistinct p xs d.1)
]

pub move_to_back-IsDistinct : (p : ℕ) (xs : List ℕ) → IsDistinct xs → IsDistinct (move_to_back xs p)
unfolding move_to_back
move_to_back-IsDistinct p xs d =
    append-IsDistinct p (remove p xs) (remove-IsDistinct p xs d) (contains-remove_self p xs)

drop-IsDistinct : (n : ℕ) (xs : List ℕ) → IsDistinct xs → IsDistinct (drop n xs)
drop-IsDistinct zero xs d = d
drop-IsDistinct (suc n) [] d = d
drop-IsDistinct (suc n) (x ∷ xs) d = drop-IsDistinct n xs d.1

pub last_n-IsDistinct : (n : ℕ) (xs : List ℕ) → IsDistinct xs → IsDistinct (last_n n xs)
unfolding last_n
last_n-IsDistinct n xs d = drop-IsDistinct (length xs - n) xs d

length-remove : (p : ℕ) (xs : List ℕ) → IsDistinct xs → length xs ≤ suc (length (remove p xs))
unfolding remove
length-remove p [] d = omega arith
length-remove p (x ∷ xs) d = ground (arith, length-remove p xs d.1, remove-eq_of_not_contains p xs)

pub last_n-eq : (n : ℕ) (xs : List ℕ) → length xs ≤ n → last_n n xs ≡ xs
unfolding last_n
last_n-eq n xs h = let e : length xs - n ≡ 0 = omega arith in rw e

last_n-append : (n : ℕ) (xs ys : List ℕ) → n ≤ length ys → last_n n (xs ++ ys) ≡ last_n n ys
unfolding last_n
last_n-append n [] ys h = refl
last_n-append n (x ∷ xs) ys h =
    let e : suc (length (xs ++ ys)) - n ≡ suc (length (xs ++ ys) - n) =
      omega (arith, length-append xs ys) in
    rw e (last_n-append n xs ys h)

pub take-append-drop : (n : ℕ) (xs : List ℕ) → take n xs ++ drop n xs ≡ xs
take-append-drop zero xs = refl
take-append-drop (suc n) [] = refl
take-append-drop (suc n) (x ∷ xs) = rw (take-append-drop n xs)

-- Cutting the list to its last `n` before an access or only after it makes no difference.
pub last_n-move_to_back :
    (n p : ℕ) (xs : List ℕ)
    → IsDistinct xs
    → last_n n (move_to_back (last_n n xs) p) ≡ last_n n (move_to_back xs p)
unfolding move_to_back last_n
last_n-move_to_back n p xs d = elim (Bool-cases (leb (length xs) n)) [
  | inl short ↦ rw (last_n-eq n xs (ground arith))
  | inr long ↦ long_case (ground arith)
]
  where
    front : List ℕ
    front = take (length xs - n) xs

    back : List ℕ
    back = drop (length xs - n) xs

    enough : n < length xs → n ≤ length (remove p back ++ p ∷ [])
    enough h = omega (
      arith,
      length-append (remove p back) (p ∷ []),
      length-remove p back (drop-IsDistinct (length xs - n) xs d),
      length-drop (length xs - n) xs,
    )

    split :
        n < length xs
        → last_n n (remove p (front ++ back) ++ p ∷ []) ≡ last_n n (remove p back ++ p ∷ [])
    split h =
        rw (remove-append p front back, append_assoc)
          (last_n-append n (remove p front) (remove p back ++ p ∷ []) (enough h))

    long_case :
        n < length xs
        → last_n n (remove p (last_n n xs) ++ p ∷ []) ≡ last_n n (remove p xs ++ p ∷ [])
    long_case h =
        sym (split h)
        ∙ ap (λ t. last_n n (remove p t ++ p ∷ [])) (take-append-drop (length xs - n) xs)
