-- ===== src/Cache/Write.antt =====
-- `bwrite` of a buffer with new bytes, and the blocks that the cache and the disk hold then.
use operating_system.Common.{
  ℕ, ◌≡◌, refl, sym, ap, ◌∙◌, ◌≢◌, inl, inr, true, false, ◌==◌, ==_iff, Bool-cases,
}
use operating_system.Cache.{Buf, Cache, root_dev, put_buf, bwrite}
use operating_system.Cache.Lookup.{IsIn, put_buf_self, put_buf-other}
use operating_system.Cache.View.{IsUnique, Stored, same-cases}

-- `bwrite` of the buffer `b` with new bytes.
abbrev pub filled : Cache → ℕ → (ℕ → ℕ) → Cache
filled c b f = put_buf c b (record (c.buf b) { bytes = f })

abbrev pub written : Cache → ℕ → (ℕ → ℕ) → Cache
written c b f = bwrite (filled c b f) b

module _ (c : Cache) (n b : ℕ) (new : ℕ → ℕ) (u : IsUnique c) (h : IsIn b c.order)
    (dev : (c.buf b).dev ≡ root_dev) (block : (c.buf b).blockno ≡ n) where
  field :
      {A : Type 0} (pick : Buf → A)
      → pick (record (c.buf b) { bytes = new }) ≡ pick (c.buf b)
      → (a : ℕ) → pick ((filled c b new).buf a) ≡ pick (c.buf a)
  field pick same a = elim (same-cases a b) [
    | inl at ↦
        ap (λ j. pick ((filled c b new).buf j)) at
        ∙ ap pick (put_buf_self c b (record (c.buf b) { bytes = new }))
        ∙ same
        ∙ ap (λ j. pick (c.buf j)) (sym at)
    | inr ne ↦ ap pick (put_buf-other c b (record (c.buf b) { bytes = new }) a ne)
  ]

  pub written-IsUnique : IsUnique (written c b new)
  unfolding bwrite
  written-IsUnique x y hx hy dx dy e =
      u x y hx hy (sym (field (λ r. r.dev) refl x) ∙ dx) (sym (field (λ r. r.dev) refl y) ∙ dy)
        (sym (field (λ r. r.blockno) refl x) ∙ e ∙ field (λ r. r.blockno) refl y)

  pub written-bytes : ((written c b new).buf b).bytes ≡ new
  unfolding bwrite
  written-bytes = ap (λ r. r.bytes) (put_buf_self c b (record (c.buf b) { bytes = new }))

  pub written-block : ((filled c b new).buf b).blockno ≡ n
  written-block = field (λ r. r.blockno) refl b ∙ block

  -- The block that is written, and another one.
  pub written-Stored : Stored (written c b new) n new
  unfolding bwrite
  written-Stored = record {
    on_disk = λ i lt. disk_is i;
    cached = λ a ha d e valid i lt.
        let same : a ≡ b =
          u a b ha h (sym (field (λ r. r.dev) refl a) ∙ d) dev
            (sym (field (λ r. r.blockno) refl a) ∙ e ∙ sym block) in
        ap (λ j. ((filled c b new).buf j).bytes i) same ∙ ap (λ f. f i) written-bytes;
  }
    where
      disk_is : (i : ℕ) → (written c b new).disk n i ≡ new i
      disk_is i =
          let hit : (n == ((filled c b new).buf b).blockno) ≡ true =
            (==_iff n _).1 (sym written-block) in
          rw hit (ap (λ f. f i) written-bytes)

  pub other-Stored : (x : ℕ) (f : ℕ → ℕ) → x ≢ n → Stored c x f → Stored (written c b new) x f
  unfolding bwrite
  other-Stored x f ne s = record {
    on_disk = λ i lt. disk_is i ∙ s.on_disk i lt;
    cached = λ a ha d e valid i lt. elim (same-cases a b) [
      | inl at ↦ absurd (ne (sym e ∙ ap (λ j. ((filled c b new).buf j).blockno) at ∙ written-block))
      | inr away ↦
          let old : (filled c b new).buf a ≡ c.buf a =
            put_buf-other c b (record (c.buf b) { bytes = new }) a away in
          ap (λ r. r.bytes i) old
          ∙ s.cached a ha (sym (ap (λ r. r.dev) old) ∙ d) (sym (ap (λ r. r.blockno) old) ∙ e)
              (sym (ap (λ r. r.valid) old) ∙ valid) i lt
    ];
  }
    where
      disk_is : (i : ℕ) → (written c b new).disk x i ≡ c.disk x i
      disk_is i =
          let miss : (x == ((filled c b new).buf b).blockno) ≡ false =
            elim (Bool-cases (x == ((filled c b new).buf b).blockno)) [
              | inl t ↦ absurd (ne ((==_iff x _).0 t ∙ written-block))
              | inr t ↦ t
            ] in
          rw miss

  pub written-refcnt : (a : ℕ) → ((written c b new).buf a).refcnt ≡ (c.buf a).refcnt
  unfolding bwrite
  written-refcnt = field (λ r. r.refcnt) refl
