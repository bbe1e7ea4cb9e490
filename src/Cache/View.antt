-- ===== src/Cache/View.antt =====
-- What the cache and the disk hold of a block, and how the functions of bio.c change it.
use operating_system.Common.{
  ℕ, ◌+◌, ◌-◌, ◌%◌, ◌^◌, ◌<◌, ◌≡◌, refl, sym, ap, ap₂, ◌∙◌, ◌≢◌, ◌⊎◌, inl, inr, Bool, true, false,
  ◌&&◌, ◌||◌, List, [], ◌∷◌, arith, ◌==◌, ==_iff, ==_refl, Bool-cases, contains,
}
use operating_system.Cache.{Buf, Cache, root_dev, put_buf, is_block, without, brelse}
use operating_system.Cache.Lookup.{IsIn, Got, put_buf_self, put_buf-other}

-- No two buffers are for the same block of the disk.
abbrev pub IsUnique : Cache → Type 0
IsUnique c =
    (a b : ℕ)
    → IsIn a c.order
    → IsIn b c.order
    → (c.buf a).dev ≡ root_dev
    → (c.buf b).dev ≡ root_dev
    → (c.buf a).blockno ≡ (c.buf b).blockno
    → a ≡ b

-- The first 512 bytes of block `x` are `f`, on the disk and in a buffer that is valid.
pub record Stored (c : Cache) (x : ℕ) (f : ℕ → ℕ) : Type 0 where
  pub on_disk : (i : ℕ) → i < 512 → c.disk x i ≡ f i
  pub cached :
      (b : ℕ)
      → IsIn b c.order
      → (c.buf b).dev ≡ root_dev
      → (c.buf b).blockno ≡ x
      → (c.buf b).valid ≡ true
      → (i : ℕ) → i < 512
      → (c.buf b).bytes i ≡ f i

abbrev pub HasFree : Cache → Type 0
HasFree c = (a : ℕ) × IsIn a c.order × ((c.buf a).refcnt ≡ 0)

pub same-cases : (a b : ℕ) → (a ≡ b) ⊎ (a ≢ b)
same-cases a b = elim (Bool-cases (a == b)) [
  | inl h ↦ inl ((==_iff a b).0 h)
  | inr h ↦ inr (λ e. let hit : (a == b) ≡ true = (==_iff a b).1 e in cc (hit, h))
]

module _ (c : Cache) (n b : ℕ) (c' : Cache) (g : Got c root_dev n b c') where
  is_in : (a : ℕ) → IsIn a c'.order → IsIn a c.order
  is_in a h = sym (ap (λ l. contains l a) g.same_order) ∙ h

  -- A buffer other than `b` for block `n` would have been found.
  unique_with :
      (a : ℕ)
      → IsUnique c
      → IsIn a c.order
      → a ≢ b
      → (c'.buf a).dev ≡ root_dev
      → (c'.buf a).blockno ≢ n
  unique_with a u h ne dev e =
      let old : c'.buf a ≡ c.buf a = g.others a ne in
      let dev' : (c.buf a).dev ≡ root_dev = sym (ap (λ q. q.dev) old) ∙ dev in
      let e' : (c.buf a).blockno ≡ n = sym (ap (λ q. q.blockno) old) ∙ e in
      elim g.before [
        | inl (d, m, _, _, _) ↦ ne (u a b h g.member dev' d (e' ∙ sym m))
        | inr (absent, _, _, _) ↦
            let hit : is_block (c.buf a) root_dev n ≡ true =
              ap₂ (λ x y. x == root_dev && y == n) dev' e' ∙ ==_refl n in
            let no : is_block (c.buf a) root_dev n ≡ false = absent a h in cc (hit, no)
      ]

  pub got-IsUnique : IsUnique c → IsUnique c'
  got-IsUnique u x y hx hy dx dy e = elim (same-cases x b) [
    | inl at ↦ elim (same-cases y b) [
      | inl at' ↦ at ∙ sym at'
      | inr ne ↦
          absurd (
            unique_with y u (is_in y hy) ne dy
              (sym e ∙ ap (λ v. (c'.buf v).blockno) at ∙ g.is_it.1))
    ]
    | inr ne ↦ elim (same-cases y b) [
      | inl at' ↦
          absurd
            (unique_with x u (is_in x hx) ne dx (e ∙ ap (λ v. (c'.buf v).blockno) at' ∙ g.is_it.1))
      | inr ne' ↦
          let ox : c'.buf x ≡ c.buf x = g.others x ne in
          let oy : c'.buf y ≡ c.buf y = g.others y ne' in
          u x y (is_in x hx) (is_in y hy) (sym (ap (λ q. q.dev) ox) ∙ dx)
            (sym (ap (λ q. q.dev) oy) ∙ dy)
            (sym (ap (λ q. q.blockno) ox) ∙ e ∙ ap (λ q. q.blockno) oy)
    ]
  ]

  pub got-Stored : (x : ℕ) (f : ℕ → ℕ) → Stored c x f → Stored c' x f
  got-Stored x f s = record {
    on_disk = λ i lt. ap (λ d. d x i) g.same_disk ∙ s.on_disk i lt;
    cached = λ a h dev e valid i lt. elim (same-cases a b) [
      | inl at ↦ elim g.before [
        | inl (d, m, v, same, _) ↦
            let e' : (c.buf b).blockno ≡ x =
              m ∙ sym g.is_it.1 ∙ sym (ap (λ j. (c'.buf j).blockno) at) ∙ e in
            ap (λ j. (c'.buf j).bytes i) at
            ∙ ap (λ r. r i) same
            ∙ s.cached b g.member d e' (sym v ∙ sym (ap (λ j. (c'.buf j).valid) at) ∙ valid) i lt
        | inr (_, _, invalid, _) ↦
            let off : (c'.buf a).valid ≡ false = ap (λ j. (c'.buf j).valid) at ∙ invalid in
            absurd (cc (off, valid))
      ]
      | inr ne ↦
          let old : c'.buf a ≡ c.buf a = g.others a ne in
          ap (λ q. q.bytes i) old
          ∙ s.cached a (is_in a h) (sym (ap (λ q. q.dev) old) ∙ dev)
              (sym (ap (λ q. q.blockno) old) ∙ e) (sym (ap (λ q. q.valid) old) ∙ valid) i lt
    ];
  }

-- The caches differ in the order of the buffers and in the reference counts only.
pub record SameView (c c' : Cache) : Type 0 where
  pub members : (a : ℕ) → contains c'.order a ≡ contains c.order a
  pub same_dev : (a : ℕ) → (c'.buf a).dev ≡ (c.buf a).dev
  pub same_blockno : (a : ℕ) → (c'.buf a).blockno ≡ (c.buf a).blockno
  pub same_valid : (a : ℕ) → (c'.buf a).valid ≡ (c.buf a).valid
  pub same_bytes : (a : ℕ) → (c'.buf a).bytes ≡ (c.buf a).bytes
  pub same_disk : c'.disk ≡ c.disk

pub view-IsUnique : (c c' : Cache) → SameView c c' → IsUnique c → IsUnique c'
view-IsUnique c c' v u a b ha hb da db e =
    u a b (sym (v.members a) ∙ ha) (sym (v.members b) ∙ hb) (sym (v.same_dev a) ∙ da)
      (sym (v.same_dev b) ∙ db) (sym (v.same_blockno a) ∙ e ∙ v.same_blockno b)

pub view-Stored : (c c' : Cache) (x : ℕ) (f : ℕ → ℕ) → SameView c c' → Stored c x f → Stored c' x f
view-Stored c c' x f v s = record {
  on_disk = λ i lt. ap (λ d. d x i) v.same_disk ∙ s.on_disk i lt;
  cached = λ b h d e valid i lt.
      ap (λ r. r i) (v.same_bytes b)
      ∙ s.cached b (sym (v.members b) ∙ h) (sym (v.same_dev b) ∙ d) (sym (v.same_blockno b) ∙ e)
          (sym (v.same_valid b) ∙ valid) i lt;
}

without-contains :
    (b : ℕ) (bs : List ℕ) (a : ℕ) → IsIn b bs → contains (b ∷ without b bs) a ≡ contains bs a
without-contains b [] a h = absurd (cc h)
without-contains b (x ∷ bs) a h = elim (Bool-cases (x == b)) [
  | inl g ↦
      let same : x ≡ b = (==_iff x b).0 g in
      let out : without b (x ∷ bs) ≡ bs = rw g in
      ap (λ l. contains (b ∷ l) a) out ∙ ap (λ y. contains (y ∷ bs) a) (sym same)
  | inr g ↦
      let out : without b (x ∷ bs) ≡ x ∷ without b bs = rw g in
      let r : contains (b ∷ without b bs) a ≡ contains bs a =
        without-contains b bs a (ground arith) in
      ap (λ l. contains (b ∷ l) a) out ∙ swap (b == a) (x == a) _ ∙ ap (λ t. (x == a) || t) r
]
  where
    swap : (p q r : Bool) → (p || (q || r)) ≡ (q || (p || r))
    swap true true r = refl
    swap true false r = refl
    swap false true r = refl
    swap false false r = refl

-- What remains of a count when the buffer is released.
abbrev pub one_less : ℕ → ℕ
one_less n = (n + 2 ^ 32 - 1) % 2 ^ 32

-- `brelse` changes nothing that can be seen of the blocks.
pub brelse-SameView : (c : Cache) (b : ℕ) → IsIn b c.order → SameView c (brelse c b)
unfolding brelse
brelse-SameView c b h = elim (Bool-cases (one_less (c.buf b).refcnt == 0)) [
  | inl z ↦ rw z (view (b ∷ without b c.order) (λ a. without-contains b c.order a h))
  | inr z ↦ rw z (view c.order (λ a. refl))
]
  where
    q : Buf
    q = record (c.buf b) { refcnt = one_less (c.buf b).refcnt }

    field :
        {A : Type 0} (pick : Buf → A)
        → pick q ≡ pick (c.buf b)
        → (a : ℕ) → pick ((put_buf c b q).buf a) ≡ pick (c.buf a)
    field pick same a = elim (same-cases a b) [
      | inl at ↦
          ap (λ j. pick ((put_buf c b q).buf j)) at
          ∙ ap pick (put_buf_self c b q)
          ∙ same
          ∙ ap (λ j. pick (c.buf j)) (sym at)
      | inr ne ↦ ap pick (put_buf-other c b q a ne)
    ]

    view :
        (order : List ℕ)
        → ((a : ℕ) → contains order a ≡ contains c.order a)
        → SameView c (record (put_buf c b q) { order = order })
    view order members = record {
      members = members;
      same_dev = field (λ r. r.dev) refl;
      same_blockno = field (λ r. r.blockno) refl;
      same_valid = field (λ r. r.valid) refl;
      same_bytes = field (λ r. r.bytes) refl;
      same_disk = refl;
    }

pub brelse-refcnt :
    (c : Cache) (b a : ℕ)
    → ((a ≡ b) × (((brelse c b).buf a).refcnt ≡ one_less (c.buf b).refcnt))
      ⊎ ((a ≢ b) × (((brelse c b).buf a).refcnt ≡ (c.buf a).refcnt))
unfolding brelse
brelse-refcnt c b a = elim (same-cases a b) [
  | inl at ↦ inl (
    at,
    either (λ d. (d.buf a).refcnt ≡ one_less (c.buf b).refcnt)
        (λ _.
          ap (λ j. ((put_buf c b q).buf j).refcnt) at ∙ ap (λ r. r.refcnt) (put_buf_self c b q)),
  )
  | inr ne ↦ inr (
    ne,
    either (λ d. (d.buf a).refcnt ≡ (c.buf a).refcnt)
        (λ _. ap (λ r. r.refcnt) (put_buf-other c b q a ne)),
  )
]
  where
    q : Buf
    q = record (c.buf b) { refcnt = one_less (c.buf b).refcnt }

    -- the order does not matter
    either :
        (P : Cache → Type 0)
        → ((order : List ℕ) → P (record (put_buf c b q) { order = order }))
        → P (brelse c b)
    either P h = elim (Bool-cases (one_less (c.buf b).refcnt == 0)) [
      | inl z ↦ rw z (h (b ∷ without b c.order))
      | inr z ↦ rw z (h c.order)
    ]
