-- ===== src/Paging/Replace/FifoSpec.antt =====
-- The FIFO buffer of mp2/kernel/vm.c against a bounded queue on lists.
use operating_system.Common.{
  ℕ, suc, ◌+◌, ◌-◌, ◌<◌, ◌≡◌, refl, sym, ap, ◌∙◌, inl, inr, Bool, true, false, ◌||◌, List, [], ◌∷◌,
  ◌++◌, arith, ltb, leb, ◌==◌, if◌then◌else◌, Bool-cases, length, get_or, set, take, erase_idx,
  length-append, length-set, take-set, get_or-take, contains, Run, ok, ◌>>=◌,
}
use operating_system.Paging.Buffer.{buf_size, shift_down, take-shift_down, length-shift_down}
use operating_system.Paging.Search.{index_from-contains}
use operating_system.Paging.Fifo.{q_full}
use operating_system.Paging.Fifo.Laws
use operating_system.Paging.Fifo.Laws.{
  contents, length-contents, q_push_room, q_pop_idx_lem, q_find_lem,
}
use operating_system.Paging.Replace.{
  Globals, FifoState, is_first_three, fifo_drop, fifo_append, fifo_evict, fifo_touch,
}

-- The queue is sound, and `array` with `array_index` is a copy of it.
pub record Mirrors (s : FifoState) : Type 0 where
  pub valid : Laws.IsValid s.queue
  pub storage : length s.array ≡ buf_size
  pub index : s.array_index ≡ s.queue.size
  pub same : take s.array_index s.array ≡ contents s.queue

abbrev Becomes : Run FifoState → List ℕ → Type 0
Becomes r xs = (s' : FifoState) × (r ≡ ok s') × (contents s'.queue ≡ xs) × Mirrors s'

-- What one access does to a list of at most eight entries: an entry that is there stays where it
-- is; a new one goes to the end, after the oldest has gone. When the pin test or the test of the
-- oldest entry hits, the second oldest goes instead; under `fifo_flag` the second oldest goes and
-- the new entry is not recorded.
unfoldable pub fifo_spec : Globals → List ℕ → ℕ → ℕ → List ℕ
fifo_spec g xs pte t =
    if contains xs pte
    then xs
    else if ltb (length xs) buf_size
    then xs ++ pte ∷ []
    else if (g.pinned == t) || (get_or xs 0 0 == t)
    then erase_idx xs 1 ++ pte ∷ []
    else if g.fifo_flag == 1
    then erase_idx xs 1
    else erase_idx xs 0 ++ pte ∷ []

fifo_drop_lem :
    {s : FifoState} (i : ℕ)
    → Mirrors s
    → i < s.queue.size
    → (s' : FifoState) × (fifo_drop s i ≡ ok s')
      × (contents s'.queue ≡ erase_idx (contents s.queue) i)
      × (suc s'.queue.size ≡ s.queue.size)
      × Mirrors s'
unfolding fifo_drop
fifo_drop_lem {s} i m h =
    let (q, e, c, n, v) = q_pop_idx_lem i m.valid h in
    let inside : ((s.array_index == 0) || ltb buf_size s.array_index) ≡ false =
      ground (arith, m.valid.fits) in
    let next : FifoState = record {
      queue = q;
      array = shift_down (s.array_index - 1 - i) i s.array;
      array_index = s.array_index - 1;
    } in
    let kept : take (s.array_index - 1) (shift_down (s.array_index - 1 - i) i s.array)
        ≡ contents q =
      take-shift_down i (s.array_index - 1) s.array (omega arith) (omega (arith, m.valid.fits))
      ∙ ap (λ k. erase_idx (take k s.array) i) {x = suc (s.array_index - 1)} (omega arith)
      ∙ ap (λ xs. erase_idx xs i) m.same
      ∙ sym c in
    (
      next,
      rw (e, inside),
      c,
      n,
      record {
        valid = v;
        storage = length-shift_down (s.array_index - 1 - i) i s.array ∙ m.storage;
        index = omega arith;
        same = kept;
      },
    )

fifo_append_lem :
    {s : FifoState} (pte : ℕ)
    → Mirrors s
    → s.queue.size < buf_size
    → Becomes (fifo_append s pte) (contents s.queue ++ pte ∷ [])
unfolding fifo_append
fifo_append_lem {s} pte m room =
    let (q, e, c, p, v) = q_push_room pte 0 m.valid room in
    let fits : ltb s.array_index buf_size ≡ true = ground arith in
    let one_more : s.array_index + 1 ≡ suc s.array_index = omega arith in
    let grown : take (s.array_index + 1) (set s.array s.array_index pte) ≡ contents q =
      ap (λ k. take k (set s.array s.array_index pte)) one_more
      ∙ take-set s.array_index s.array pte (omega arith)
      ∙ ap (λ xs. xs ++ pte ∷ []) m.same
      ∙ sym c in
    let sizes : length (contents q) ≡ length (contents s.queue) + 1 =
      ap length c ∙ length-append (contents s.queue) (pte ∷ []) in
    (
      record { queue = q; array = set s.array s.array_index pte; array_index = s.array_index + 1 },
      rw (e, fits),
      c,
      record {
        valid = v;
        storage = length-set s.array s.array_index pte ∙ m.storage;
        index = omega (arith, length-contents v, length-contents m.valid);
        same = grown;
      },
    )

abbrev spared : Globals → ℕ → ℕ → Bool
spared g oldest t = (g.pinned == t) || (oldest == t)

abbrev evict_at : FifoState → ℕ → Bool → Run (Bool × FifoState)
evict_at s i done = fifo_drop s i >>= λ s'. ok (done, s')

module _ (g : Globals) (s : FifoState) (t : ℕ) where
  evict_second :
      spared g (get_or s.queue.bucket 0 0) t ≡ true → fifo_evict g s t ≡ evict_at s 1 false
  unfolding fifo_evict
  evict_second h = ground arith

  evict_only :
      spared g (get_or s.queue.bucket 0 0) t ≡ false
      → (g.fifo_flag == 1) ≡ true
      → fifo_evict g s t ≡ evict_at s 1 true
  unfolding fifo_evict
  evict_only h f = ground arith

  evict_oldest :
      spared g (get_or s.queue.bucket 0 0) t ≡ false
      → (g.fifo_flag == 1) ≡ false
      → fifo_evict g s t ≡ evict_at s 0 false
  unfolding fifo_evict
  evict_oldest h f = ground arith

module _ (g : Globals) {s : FifoState} (pte t : ℕ) (m : Mirrors s)
    (other : is_first_three g t ≡ false) where
  -- What follows the search for an entry that the queue lacks.
  abbrev rest : Run FifoState
  rest = (if q_full s.queue then fifo_evict g s t else ok (false, s)) >>= λ r.
      if r.0 then ok r.1 else if is_first_three g t then ok r.1 else fifo_append r.1 pte

  -- A removal at `i` followed by the new entry.
  replace_at :
      (i : ℕ)
      → s.queue.size ≡ buf_size
      → i < buf_size
      → Becomes
          (evict_at s i false >>= λ r.
            if r.0 then ok r.1 else if is_first_three g t then ok r.1 else fifo_append r.1 pte)
          (erase_idx (contents s.queue) i ++ pte ∷ [])
  replace_at i full h =
      let (s₁, e₁, c₁, n₁, m₁) = fifo_drop_lem i m (omega arith) in
      let (s₂, e₂, c₂, m₂) = fifo_append_lem pte m₁ (omega arith) in
      (s₂, rw (e₁, other) e₂, c₂ ∙ ap (λ xs. xs ++ pte ∷ []) c₁, m₂)

  full_case :
      s.queue.size ≡ buf_size
      → contains (contents s.queue) pte ≡ false
      → Becomes rest (fifo_spec g (contents s.queue) pte t)
  unfolding q_full fifo_spec
  full_case full absent =
      let is_full : leb buf_size s.queue.size ≡ true = ground arith in
      let long : ltb (length (contents s.queue)) buf_size ≡ false =
        ground (arith, length-contents m.valid) in
      let first : get_or (contents s.queue) 0 0 ≡ get_or s.queue.bucket 0 0 =
        get_or-take s.queue.size 0 s.queue.bucket 0 (omega arith) in
      rw (is_full, absent, long, first)
        (elim (Bool-cases (spared g (get_or s.queue.bucket 0 0) t)) [
          | inl hit ↦ rw (hit, evict_second g s t hit) (replace_at 1 full (omega arith))
          | inr miss ↦ rw miss (elim (Bool-cases (g.fifo_flag == 1)) [
            | inl flag ↦
                let (s₁, e₁, c₁, n₁, m₁) = fifo_drop_lem 1 m (omega arith) in
                rw (flag, evict_only g s t miss flag) (s₁, rw e₁, c₁, m₁)
            | inr no_flag ↦
                rw (no_flag, evict_oldest g s t miss no_flag) (replace_at 0 full (omega arith))
          ])
        ])

  room_case :
      s.queue.size < buf_size
      → contains (contents s.queue) pte ≡ false
      → Becomes rest (fifo_spec g (contents s.queue) pte t)
  unfolding q_full fifo_spec
  room_case room absent =
      let not_full : leb buf_size s.queue.size ≡ false = ground arith in
      let short : ltb (length (contents s.queue)) buf_size ≡ true =
        ground (arith, length-contents m.valid) in
      rw (not_full, absent, short, other) (fifo_append_lem pte m room)

  -- On a sound queue with its copy, and for an entry that is not exempt, `walk` in the FIFO kernel never fails, never leaves an array,
  -- keeps `array` a copy of the queue, and does to the queue what `fifo_spec` says.
  pub fifo_touch_lem : Becomes (fifo_touch g s pte t) (fifo_spec g (contents s.queue) pte t)
  unfolding fifo_touch
  fifo_touch_lem = elim (index_from-contains 0 (contents s.queue) pte) [
    | inl (absent, e) ↦
        rw (other, q_find_lem pte m.valid, e)
          (elim (Bool-cases (ltb s.queue.size buf_size)) [
            | inl room ↦ room_case (ground arith) absent
            | inr none_left ↦ full_case (ground (arith, m.valid.fits)) absent
          ])
    | inr (j, present, e, h, at_j) ↦
        rw (other, q_find_lem pte m.valid, e) (s, refl, unfold fifo_spec in rw present, m)
  ]

pub fifo_touch_exempt :
    (g : Globals) (s : FifoState) (pte t : ℕ)
    → is_first_three g t ≡ true
    → fifo_touch g s pte t ≡ ok s
unfolding fifo_touch
fifo_touch_exempt g s pte t h = rw h
