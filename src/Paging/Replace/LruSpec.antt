-- ===== src/Paging/Replace/LruSpec.antt =====
-- The LRU buffer of mp2/kernel/vm.c against the recency list of all accesses.
use operating_system.Common.{
  ℕ, suc, ◌+◌, ◌-◌, ◌<◌, ◌≡◌, refl, sym, ap, ◌∙◌, inl, inr, true, false, List, [], ◌∷◌, ◌++◌, arith,
  ltb, ◌==◌, if◌then◌else◌, Bool-cases, length, get_or, erase_idx, length-append, contains,
  IsDistinct, Run, ok, ◌>>=◌, pos,
}
use operating_system.Paging.Buffer.{buf_size}
use operating_system.Paging.Search.{index_from-contains}
use operating_system.Paging.Lru.{Lru, lru_full}
use operating_system.Paging.Lru.Laws.{
  contents, IsValid, length-contents, lru_push_room, lru_pop_lem, lru_find_lem,
}
use operating_system.Paging.Replace.{Globals, is_first_three, lru_insert, lru_refresh, lru_touch}
use operating_system.Paging.Replace.Recency.{
  remove, move_to_back, last_n, history, remove-eq_of_not_contains, erase_idx-eq-remove,
  move_to_back-IsDistinct, last_n-IsDistinct, last_n-eq, last_n-move_to_back,
}

-- The buffer is sound and holds the last entries of the recency list `xs`.
pub record Holds (l : Lru) (xs : List ℕ) : Type 0 where
  pub valid : IsValid l
  pub recent : contents l ≡ last_n buf_size xs

-- What a step of the buffer must do for an access to `p`.
abbrev Accessed : Lru → ℕ → Run Lru → Type 0
Accessed l p r =
    (l' : Lru) × (r ≡ ok l')
    × (contents l' ≡ last_n buf_size (move_to_back (contents l) p))
    × IsValid l'

last_n-append_full :
    (xs : List ℕ) (p : ℕ)
    → length xs ≡ buf_size
    → last_n buf_size (xs ++ p ∷ []) ≡ erase_idx xs 0 ++ p ∷ []
unfolding last_n
last_n-append_full [] p h = absurd (omega arith)
last_n-append_full (x ∷ xs) p h =
    let e : suc (length (xs ++ p ∷ [])) - buf_size ≡ 1 = omega (arith, length-append xs (p ∷ [])) in
    rw e

module _ (g : Globals) {l : Lru} (pte t : ℕ) (v : IsValid l)
    (other : is_first_three g t ≡ false) where
  insert_room :
      contains (contents l) pte ≡ false → l.size < buf_size → Accessed l pte (lru_insert g l pte t)
  unfolding lru_insert lru_full move_to_back
  insert_room absent room =
      let (l', e, c, v') = lru_push_room pte v room in
      let not_full : (l.size == buf_size) ≡ false = ground arith in
      (
        l',
        rw (not_full, other, e),
        rw (remove-eq_of_not_contains pte (contents l) absent) (
            c
            ∙ sym (
                last_n-eq buf_size (contents l ++ pte ∷ [])
                  (omega (arith, length-append (contents l) (pte ∷ []), length-contents v)))),
        v',
      )

  insert_full :
      contains (contents l) pte ≡ false → l.size ≡ buf_size → Accessed l pte (lru_insert g l pte t)
  unfolding lru_insert lru_full move_to_back
  insert_full absent full =
      let (l₁, e₁, c₁, s₁, v₁) = lru_pop_lem 0 v (omega arith) in
      let (l₂, e₂, c₂, v₂) = lru_push_room pte v₁ (omega arith) in
      let is_full : (l.size == buf_size) ≡ true = ground arith in
      (
        l₂,
        rw (is_full, e₁, other, e₂),
        rw (remove-eq_of_not_contains pte (contents l) absent) (
            c₂
            ∙ ap (λ xs. xs ++ pte ∷ []) c₁
            ∙ sym (last_n-append_full (contents l) pte (length-contents v ∙ full))),
        v₂,
      )

  refresh_lem :
      (i : ℕ)
      → IsDistinct (contents l)
      → i < length (contents l)
      → get_or (contents l) i 0 ≡ pte
      → Accessed l pte (lru_refresh g l pte t (pos i))
  unfolding lru_refresh move_to_back
  refresh_lem i d h at_i =
      let live : i < l.size = omega (arith, length-contents v) in
      let (l₁, e₁, c₁, s₁, v₁) = lru_pop_lem i v live in
      let (l₂, e₂, c₂, v₂) = lru_push_room pte v₁ (omega arith) in
      let short : contents l₂ ≡ remove pte (contents l) ++ pte ∷ [] =
        c₂ ∙ ap (λ xs. xs ++ pte ∷ []) (c₁ ∙ erase_idx-eq-remove pte i (contents l) d h at_i) in
      (
        l₂,
        rw (e₁, other, e₂),
        short ∙ sym (last_n-eq buf_size _ (rw (← short) (omega (arith, length-contents v₂)))),
        v₂,
      )

  -- One access through `walk` to an entry that is not exempt never fails and makes the buffer the
  -- last eight of its own recency list.
  pub lru_touch-Accessed : IsDistinct (contents l) → Accessed l pte (lru_touch g l pte t)
  unfolding lru_touch
  lru_touch-Accessed d = elim (index_from-contains 0 (contents l) pte) [
    | inl (absent, e) ↦
        rw (other, lru_find_lem pte v, e)
          (elim (Bool-cases (ltb l.size buf_size)) [
            | inl room ↦ insert_room absent (ground arith)
            | inr none_left ↦ insert_full absent (ground (arith, v.fits))
          ])
    | inr (j, present, e, h, at_j) ↦
        rw (other, lru_find_lem pte v, e)
          (refresh_lem (0 + j) d (omega arith) (let z : 0 + j ≡ j = omega arith in rw z at_j))
  ]

-- An access to an entry whose value is one of the first three leaves the buffer alone.
pub lru_touch_exempt :
    (g : Globals) (l : Lru) (pte t : ℕ) → is_first_three g t ≡ true → lru_touch g l pte t ≡ ok l
unfolding lru_touch
lru_touch_exempt g l pte t h = rw h

-- A run of accesses, each to an entry address with the entry's value.
unfoldable pub lru_touches : Globals → Lru → List (ℕ × ℕ) → Run Lru
lru_touches g l [] = ok l
lru_touches g l ((pte, t) ∷ accs) = lru_touch g l pte t >>= λ l'. lru_touches g l' accs

-- The entries that a run counts: those that are not exempt.
unfoldable pub counted : Globals → List (ℕ × ℕ) → List ℕ
counted g [] = []
counted g ((pte, t) ∷ accs) =
    let rest = counted g accs in if is_first_three g t then rest else pte ∷ rest

-- From a sound buffer that holds the last of a list of distinct entries, after any run of accesses,
-- none of which fails, the buffer is sound, and it holds exactly the
-- eight counted entries that were accessed last (all, if they are fewer), each once, in the order
-- of their last access.
pub lru_touches-history :
    (g : Globals) (accs : List (ℕ × ℕ)) {l : Lru} {xs : List ℕ}
    → Holds l xs
    → IsDistinct xs
    → (l' : Lru) × (lru_touches g l accs ≡ ok l')
      × Holds l' (history xs (counted g accs))
      × IsDistinct (contents l')
unfolding lru_touches counted history
lru_touches-history g [] {l} {xs} v d = (l, refl, v, rw v.recent (last_n-IsDistinct buf_size xs d))
lru_touches-history g ((pte, t) ∷ accs) {l} {xs} v d = elim (Bool-cases (is_first_three g t)) [
  | inl exempt ↦ rw (exempt, lru_touch_exempt g l pte t exempt) (lru_touches-history g accs v d)
  | inr other ↦
      let (l', e, c, v') =
        lru_touch-Accessed g pte t v.valid other (rw v.recent (last_n-IsDistinct buf_size xs d)) in
      rw (other, e)
        (lru_touches-history g accs
          (record {
            valid = v';
            recent =
                c
                ∙ ap (λ ys. last_n buf_size (move_to_back ys pte)) v.recent
                ∙ last_n-move_to_back buf_size pte xs d;
          })
          (move_to_back-IsDistinct pte xs d))
]
