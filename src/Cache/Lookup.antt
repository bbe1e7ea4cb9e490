-- ===== src/Cache/Lookup.antt =====
-- What the two loops of `bget` find.
use operating_system.Common.{
  ℕ, ◌+◌, ◌%◌, ◌^◌, ◌≡◌, refl, sym, ap, ◌∙◌, subst, ◌≢◌, ◌⊎◌, inl, inr, true, false, none, some,
  List, [], ◌∷◌, ◌++◌, arith, ◌==◌, ==_iff, ==_refl, Bool-cases, Option-cases, contains, ok, panic,
}
use operating_system.Cache.{Buf, Cache, put_buf, is_block, find_buf, find_free, bget}

-- `b` is one of the buffers.
abbrev pub IsIn : ℕ → List ℕ → Type 0
IsIn b bs = contains bs b ≡ true

in_head : (b : ℕ) (bs : List ℕ) → IsIn b (b ∷ bs)
in_head b bs = rw (==_refl b)

in_tail : (a b : ℕ) (bs : List ℕ) → IsIn b bs → IsIn b (a ∷ bs)
in_tail a b bs h = ground arith

pub find_buf-some :
    (bs : List ℕ) (buf : ℕ → Buf) (dev n b : ℕ)
    → find_buf bs buf dev n ≡ some b
    → IsIn b bs × (is_block (buf b) dev n ≡ true)
unfolding find_buf
find_buf-some [] buf dev n b e = absurd (cc e)
find_buf-some (a ∷ bs) buf dev n b e = elim (Bool-cases (is_block (buf a) dev n)) [
  | inl h ↦
      let here : find_buf (a ∷ bs) buf dev n ≡ some a = rw h in
      let same : a ≡ b = cc (here, e) in
      subst (λ x. IsIn x (a ∷ bs) × (is_block (buf x) dev n ≡ true)) same (in_head a bs, h)
  | inr h ↦
      let later : find_buf (a ∷ bs) buf dev n ≡ find_buf bs buf dev n = rw h in
      let r : IsIn b bs × (is_block (buf b) dev n ≡ true) =
        find_buf-some bs buf dev n b (sym later ∙ e) in
      (in_tail a b bs r.0, r.1)
]

pub find_buf-none :
    (bs : List ℕ) (buf : ℕ → Buf) (dev n b : ℕ)
    → find_buf bs buf dev n ≡ none
    → IsIn b bs
    → is_block (buf b) dev n ≡ false
unfolding find_buf
find_buf-none [] buf dev n b e h = absurd (cc h)
find_buf-none (a ∷ bs) buf dev n b e h = elim (Bool-cases (is_block (buf a) dev n)) [
  | inl g ↦ let here : find_buf (a ∷ bs) buf dev n ≡ some a = rw g in absurd (cc (here, e))
  | inr g ↦
      let later : find_buf (a ∷ bs) buf dev n ≡ find_buf bs buf dev n = rw g in
      elim (Bool-cases (a == b)) [
        | inl at ↦ subst (λ x. is_block (buf x) dev n ≡ false) ((==_iff a b).0 at) g
        | inr other ↦ find_buf-none bs buf dev n b (sym later ∙ e) (ground arith)
      ]
]

pub find_free-none :
    (bs : List ℕ) (buf : ℕ → Buf)
    → find_free bs buf ≡ none
    → (a : ℕ) → IsIn a bs
    → (buf a).refcnt ≢ 0
unfolding find_free
find_free-none [] buf e a h = absurd (cc h)
find_free-none (b ∷ bs) buf e a h = elim (Option-cases (find_free bs buf)) [
  | inr (x, g) ↦ let here : find_free (b ∷ bs) buf ≡ some x = rw g in absurd (cc (here, e))
  | inl g ↦ elim (Bool-cases ((buf b).refcnt == 0)) [
    | inl z ↦ let here : find_free (b ∷ bs) buf ≡ some b = rw (g, z) refl in absurd (cc (here, e))
    | inr z ↦ elim (Bool-cases (b == a)) [
      | inl at ↦
          subst (λ x. (buf x).refcnt ≢ 0) ((==_iff b a).0 at)
            (λ q. let y : ((buf b).refcnt == 0) ≡ true = (==_iff _ 0).1 q in cc (y, z))
      | inr other ↦ find_free-none bs buf g a (ground arith)
    ]
  ]
]

-- The buffer that is recycled is unused, and all that were used less recently are in use.
pub find_free-some :
    (bs : List ℕ) (buf : ℕ → Buf) (b : ℕ)
    → find_free bs buf ≡ some b
    → (xs ys : List ℕ) × (bs ≡ xs ++ b ∷ ys)
      × ((buf b).refcnt ≡ 0)
      × ((a : ℕ) → IsIn a ys → (buf a).refcnt ≢ 0)
unfolding find_free
find_free-some [] buf b e = absurd (cc e)
find_free-some (x ∷ bs) buf b e = elim (Option-cases (find_free bs buf)) [
  | inr (a, g) ↦
      let here : find_free (x ∷ bs) buf ≡ some a = rw g in
      let same : a ≡ b = cc (here, e) in
      let (xs, ys, split, idle, busy) = find_free-some bs buf b (g ∙ ap some same) in
      (x ∷ xs, ys, ap (λ l. x ∷ l) split, idle, busy)
  | inl g ↦ elim (Bool-cases ((buf x).refcnt == 0)) [
    | inl z ↦
        let here : find_free (x ∷ bs) buf ≡ some x = rw (g, z) refl in
        let same : x ≡ b = cc (here, e) in
        (
          [],
          bs,
          ap (λ v. v ∷ bs) same,
          subst (λ v. (buf v).refcnt ≡ 0) same ((==_iff _ 0).0 z),
          find_free-none bs buf g,
        )
    | inr z ↦ let here : find_free (x ∷ bs) buf ≡ none = rw (g, z) refl in absurd (cc (here, e))
  ]
]

pub middle_in : (xs ys : List ℕ) (b : ℕ) → IsIn b (xs ++ b ∷ ys)
middle_in [] ys b = in_head b ys
middle_in (x ∷ xs) ys b = in_tail x b (xs ++ b ∷ ys) (middle_in xs ys b)

-- What `bget` has done, when it returns `b`.
pub record Got (c : Cache) (dev n b : ℕ) (c' : Cache) : Type 0 where
  pub member : IsIn b c.order
  pub same_order : c'.order ≡ c.order
  pub same_disk : c'.disk ≡ c.disk
  pub others : (a : ℕ) → a ≢ b → c'.buf a ≡ c.buf a
  pub is_it : ((c'.buf b).dev ≡ dev) × ((c'.buf b).blockno ≡ n)
  -- The block was in the cache, or it was not and the buffer was unused.
  pub before :
      (((c.buf b).dev ≡ dev)
        × ((c.buf b).blockno ≡ n)
        × ((c'.buf b).valid ≡ (c.buf b).valid)
        × ((c'.buf b).bytes ≡ (c.buf b).bytes)
        × ((c'.buf b).refcnt ≡ ((c.buf b).refcnt + 1) % 2 ^ 32))
      ⊎ (((a : ℕ) → IsIn a c.order → is_block (c.buf a) dev n ≡ false)
          × ((c.buf b).refcnt ≡ 0)
          × ((c'.buf b).valid ≡ false)
          × ((c'.buf b).refcnt ≡ 1))

is_block_lem : (q : Buf) (dev n : ℕ) → is_block q dev n ≡ true → (q.dev ≡ dev) × (q.blockno ≡ n)
is_block_lem q dev n h = ground arith

pub put_buf_self : (c : Cache) (b : ℕ) (q : Buf) → (put_buf c b q).buf b ≡ q
put_buf_self c b q = rw (==_refl b)

pub put_buf-other : (c : Cache) (b : ℕ) (q : Buf) (a : ℕ) → a ≢ b → (put_buf c b q).buf a ≡ c.buf a
put_buf-other c b q a ne = let other : (a == b) ≡ false = ground arith in rw other

-- `bget` returns a buffer for the block, the one that the block was in or one that nobody used, and
-- changes no other buffer and nothing on the disk; or it panics, and every buffer is in use.
pub bget_lem :
    (c : Cache) (dev n : ℕ)
    → ((b : ℕ) × (c' : Cache) × (bget c dev n ≡ ok (b, c')) × Got c dev n b c')
      ⊎ ((bget c dev n ≡ panic) × ((a : ℕ) → IsIn a c.order → (c.buf a).refcnt ≢ 0))
unfolding bget
bget_lem c dev n = elim (Option-cases (find_buf c.order c.buf dev n)) [
  | inr (b, e) ↦
      let q : Buf = record (c.buf b) { refcnt = ((c.buf b).refcnt + 1) % 2 ^ 32 } in
      let f : IsIn b c.order × (is_block (c.buf b) dev n ≡ true) =
        find_buf-some c.order c.buf dev n b e in
      let w : ((c.buf b).dev ≡ dev) × ((c.buf b).blockno ≡ n) = is_block_lem (c.buf b) dev n f.1 in
      let at : (put_buf c b q).buf b ≡ q = put_buf_self c b q in
      inl (
        b,
        put_buf c b q,
        rw (e, bget) refl,
        record {
          member = f.0;
          same_order = refl;
          same_disk = refl;
          others = put_buf-other c b q;
          is_it = (ap (λ r. r.dev) at ∙ w.0, ap (λ r. r.blockno) at ∙ w.1);
          before =
              inl (w.0, w.1, ap (λ r. r.valid) at, ap (λ r. r.bytes) at, ap (λ r. r.refcnt) at);
        },
      )
  | inl e ↦ elim (Option-cases (find_free c.order c.buf)) [
    | inl g ↦ inr (rw (e, g, bget) refl, find_free-none c.order c.buf g)
    | inr (b, g) ↦
        let q : Buf = record (c.buf b) { dev = dev; blockno = n; valid = false; refcnt = 1 } in
        let at : (put_buf c b q).buf b ≡ q = put_buf_self c b q in
        let (xs, ys, split, free, _) = find_free-some c.order c.buf b g in
        inl (
          b,
          put_buf c b q,
          rw (e, g, bget) refl,
          record {
            member = subst (λ l. IsIn b l) (sym split) (middle_in xs ys b);
            same_order = refl;
            same_disk = refl;
            others = put_buf-other c b q;
            is_it = (ap (λ r. r.dev) at, ap (λ r. r.blockno) at);
            before = inr (
              (λ a h. find_buf-none c.order c.buf dev n a e h),
              free,
              ap (λ r. r.valid) at,
              ap (λ r. r.refcnt) at,
            );
          },
        )
  ]
]
