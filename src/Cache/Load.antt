-- ===== src/Cache/Load.antt =====
-- `bread` after `bget`: the bytes come from the disk unless the buffer is valid.
use operating_system.Common.{ℕ, ◌<◌, ◌≡◌, refl, sym, ap, ◌∙◌, inl, inr, true, Bool-cases}
use operating_system.Cache.{Buf, Cache, root_dev, put_buf, load}
use operating_system.Cache.Lookup.{IsIn, put_buf_self, put_buf-other}
use operating_system.Cache.View.{IsUnique, Stored, same-cases}

-- The buffer `b` is read from the disk.
module _ (c : Cache) (b : ℕ) where
  abbrev fresh : Buf
  fresh = record (c.buf b) { bytes = c.disk (c.buf b).blockno; valid = true }

  abbrev read : Cache
  read = put_buf c b fresh

  fresh-field :
      {A : Type 0} (pick : Buf → A)
      → pick fresh ≡ pick (c.buf b)
      → (a : ℕ) → pick (read.buf a) ≡ pick (c.buf a)
  fresh-field pick same a = elim (same-cases a b) [
    | inl at ↦
        ap (λ j. pick (read.buf j)) at
        ∙ ap pick (put_buf_self c b fresh)
        ∙ same
        ∙ ap (λ j. pick (c.buf j)) (sym at)
    | inr ne ↦ ap pick (put_buf-other c b fresh a ne)
  ]

  read-IsUnique : IsUnique c → IsUnique read
  read-IsUnique u x y hx hy dx dy e =
      u x y hx hy (sym (fresh-field (λ r. r.dev) refl x) ∙ dx)
        (sym (fresh-field (λ r. r.dev) refl y) ∙ dy)
        (sym (fresh-field (λ r. r.blockno) refl x) ∙ e ∙ fresh-field (λ r. r.blockno) refl y)

  read-Stored : (x : ℕ) (f : ℕ → ℕ) → Stored c x f → Stored read x f
  read-Stored x f s = record {
    on_disk = s.on_disk;
    cached = λ a ha d e valid i lt. elim (same-cases a b) [
      | inl at ↦
          let block : (c.buf b).blockno ≡ x =
            sym (fresh-field (λ r. r.blockno) refl b)
            ∙ sym (ap (λ j. (read.buf j).blockno) at)
            ∙ e in
          ap (λ j. (read.buf j).bytes i) at
          ∙ ap (λ r. r.bytes i) (put_buf_self c b fresh)
          ∙ ap (λ n. c.disk n i) block
          ∙ s.on_disk i lt
      | inr ne ↦
          let old : read.buf a ≡ c.buf a = put_buf-other c b fresh a ne in
          ap (λ r. r.bytes i) old
          ∙ s.cached a ha (sym (ap (λ r. r.dev) old) ∙ d) (sym (ap (λ r. r.blockno) old) ∙ e)
              (sym (ap (λ r. r.valid) old) ∙ valid) i lt
    ];
  }

  -- `load` reads, or leaves the cache as it is.
  pub load-either : (P : Cache → Type 0) → ((c.buf b).valid ≡ true → P c) → P read → P (load c b)
  unfolding load
  load-either P kept new = elim (Bool-cases (c.buf b).valid) [
    | inl h ↦ rw h (kept h)
    | inr h ↦ rw h new
  ]

  pub load-IsUnique : IsUnique c → IsUnique (load c b)
  load-IsUnique u = load-either IsUnique (λ _. u) (read-IsUnique u)

  pub load-Stored : (x : ℕ) (f : ℕ → ℕ) → Stored c x f → Stored (load c b) x f
  load-Stored x f s = load-either (λ m. Stored m x f) (λ _. s) (read-Stored x f s)

  pub load-fields :
      ((load c b).order ≡ c.order) × ((a : ℕ) → ((load c b).buf a).refcnt ≡ (c.buf a).refcnt)
  load-fields =
      load-either (λ m. (m.order ≡ c.order) × ((a : ℕ) → (m.buf a).refcnt ≡ (c.buf a).refcnt))
        (λ _. (refl, λ a. refl)) (refl, fresh-field (λ r. r.refcnt) refl)

  pub load-bytes :
      (x : ℕ) (f : ℕ → ℕ)
      → Stored c x f
      → IsIn b c.order
      → (c.buf b).dev ≡ root_dev
      → (c.buf b).blockno ≡ x
      → (i : ℕ) → i < 512
      → ((load c b).buf b).bytes i ≡ f i
  load-bytes x f s h d e i lt =
      load-either (λ m. (m.buf b).bytes i ≡ f i) (λ valid. s.cached b h d e valid i lt)
        (ap (λ r. r.bytes i) (put_buf_self c b fresh) ∙ ap (λ n. c.disk n i) e ∙ s.on_disk i lt)
