-- ===== src/Log/Write.antt =====
-- What the loops of log.c leave on the disk, and a property of disks that each of their writes keeps.
use operating_system.Common.{
  ℕ, zero, suc, ◌+◌, ◌<◌, ◌≡◌, refl, ap, ◌∙◌, ◌≢◌, ◌⊎◌, inl, inr, false, some, List, [], ◌∷◌, arith,
  ◌==◌, ==_refl, length, get_elem?,
}
use operating_system.Log.{Disk, Log, store_block, bwrite, copy_block, write_log_loop}

abbrev pub All : {A : Type 0} → (Disk A → Type 0) → List (Disk A) → Type 0
All P [] = Unit {0}
All P (d ∷ ds) = P d × All P ds

-- The disk with `v` in block `b`.
abbrev pub changed : {A : Type 0} → Disk A → ℕ → A → Disk A
changed d b v = record { block = store_block d.block b v; head = d.head }

module _ {A : Type 0} where
  pub store_block_self : (f : ℕ → A) (b : ℕ) (v : A) → store_block f b v b ≡ v
  unfolding store_block
  store_block_self f b v = rw (==_refl b)

  pub store_block-other : (f : ℕ → A) (b : ℕ) (v : A) (x : ℕ) → x ≢ b → store_block f b v x ≡ f x
  unfolding store_block
  store_block-other f b v x ne = let other : (x == b) ≡ false = ground arith in rw other

  -- The first place and the others together.
  pub all_places :
      (f g : ℕ → A) (base tail b : ℕ) (bs : List ℕ)
      → f (base + tail + 1) ≡ g b
      → ((i c : ℕ) → get_elem? bs i ≡ some c → f (base + (tail + 1 + i) + 1) ≡ g c)
      → (i c : ℕ) → get_elem? (b ∷ bs) i ≡ some c
      → f (base + (tail + i) + 1) ≡ g c
  all_places f g base tail b bs first rest zero c e =
      let place : base + (tail + 0) + 1 ≡ base + tail + 1 = omega arith in
      let same : b ≡ c = cc in ap f place ∙ first ∙ ap g same
  all_places f g base tail b bs first rest (suc i) c e =
      let place : base + (tail + suc i) + 1 ≡ base + (tail + 1 + i) + 1 = omega arith in
      ap f place ∙ rest i c e

-- The rounds of `write_log` put the cached contents of the blocks into the log, and nothing else.
module _ {A : Type 0} (P Q : Disk A → Type 0) (start limit : ℕ)
    (keep : (d : Disk A) (x : ℕ) (v : A) → P d → start < x → x < limit → P (changed d x v))
    (weaken : (d : Disk A) → P d → Q d) where
  pub record Logged (bs : List ℕ) (tail : ℕ) (m m' : Log A) : Type 0 where
    pub same_start : m'.start ≡ m.start
    pub same_lh : m'.lh ≡ m.lh
    pub same_head : m'.disk.head ≡ m.disk.head
    pub on_disk :
        (i b : ℕ) → get_elem? bs i ≡ some b → m'.disk.block (m.start + (tail + i) + 1) ≡ m.cached b
    pub in_cache :
        (i b : ℕ) → get_elem? bs i ≡ some b → m'.cached (m.start + (tail + i) + 1) ≡ m.cached b
    pub disk_frame :
        (x : ℕ)
        → (x < m.start + tail + 1) ⊎ (m.start + tail + length bs < x)
        → m'.disk.block x ≡ m.disk.block x
    pub cache_frame :
        (x : ℕ)
        → (x < m.start + tail + 1) ⊎ (m.start + tail + length bs < x)
        → m'.cached x ≡ m.cached x
    pub before : All Q m'.past
    pub after : P m'.disk

  -- The blocks stand outside the part of the log that is still to be written.
  abbrev pub Away : ℕ → List ℕ → ℕ → Type 0
  Away first bs tail =
      (i b : ℕ) → get_elem? bs i ≡ some b → (b < first + tail + 1) ⊎ (first + tail + length bs < b)

  Away-tail :
      (first b : ℕ) (bs : List ℕ) (tail : ℕ) → Away first (b ∷ bs) tail → Away first bs (tail + 1)
  Away-tail first b bs tail away i c e = elim (away (suc i) c e) [
    | inl lo ↦ inl (omega arith)
    | inr hi ↦ inr (omega arith)
  ]

  pub write_log_loop-Logged :
      (bs : List ℕ) (tail : ℕ) (m : Log A)
      → m.start ≡ start
      → Away m.start bs tail
      → m.start + tail + length bs < limit
      → All Q m.past
      → P m.disk
      → Logged bs tail m (write_log_loop bs tail m)
  unfolding write_log_loop
  write_log_loop-Logged [] tail m same away room past now = record {
    same_start = refl;
    same_lh = refl;
    same_head = refl;
    on_disk = λ i b e. absurd (cc e);
    in_cache = λ i b e. absurd (cc e);
    disk_frame = λ x h. refl;
    cache_frame = λ x h. refl;
    before = past;
    after = now;
  }
  write_log_loop-Logged (b ∷ bs) tail m same away room past now =
      let x : ℕ = m.start + tail + 1 in
      let m₁ : Log A = bwrite (copy_block m x b) x in
      let r : Logged bs (tail + 1) m₁ (write_log_loop bs (tail + 1) m₁) =
        write_log_loop-Logged bs (tail + 1) m₁ same (Away-tail m.start b bs tail away) (omega arith)
          (weaken m.disk now, past)
          (keep m.disk x (store_block m.cached x (m.cached b) x) now (omega arith) (omega arith)) in
      let c_self : store_block m.cached x (m.cached b) x ≡ m.cached b =
        store_block_self m.cached x (m.cached b) in
      let d_self : store_block m.disk.block x (store_block m.cached x (m.cached b) x) x
          ≡ m.cached b =
        store_block_self m.disk.block x (store_block m.cached x (m.cached b) x) ∙ c_self in
      let kept : (i c : ℕ)
          → get_elem? bs i ≡ some c
          → store_block m.cached x (m.cached b) c ≡ m.cached c =
        λ i c e.
          store_block-other m.cached x (m.cached b) c
            (elim (away (suc i) c e) [ inl lo ↦ omega arith | inr hi ↦ omega arith ]) in
      record {
        same_start = r.same_start;
        same_lh = r.same_lh;
        same_head = r.same_head;
        on_disk =
            all_places (write_log_loop bs (tail + 1) m₁).disk.block m.cached m.start tail b bs
              (r.disk_frame x (inl (omega arith)) ∙ d_self) (λ i c e. r.on_disk i c e ∙ kept i c e);
        in_cache =
            all_places (write_log_loop bs (tail + 1) m₁).cached m.cached m.start tail b bs
              (r.cache_frame x (inl (omega arith)) ∙ c_self)
              (λ i c e. r.in_cache i c e ∙ kept i c e);
        disk_frame = λ y h.
            r.disk_frame y (elim h [ inl lo ↦ inl (omega arith) | inr hi ↦ inr (omega arith) ])
            ∙ store_block-other m.disk.block x _ y
                (elim h [ inl lo ↦ omega arith | inr hi ↦ omega arith ]);
        cache_frame = λ y h.
            r.cache_frame y (elim h [ inl lo ↦ inl (omega arith) | inr hi ↦ inr (omega arith) ])
            ∙ store_block-other m.cached x _ y
                (elim h [ inl lo ↦ omega arith | inr hi ↦ omega arith ]);
        before = r.before;
        after = r.after;
      }
