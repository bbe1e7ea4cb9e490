-- ===== src/Log/Install.antt =====
-- What `install_trans` of log.c leaves on the disk.
use operating_system.Common.{
  ℕ, suc, ◌+◌, ◌<◌, ◌≡◌, refl, sym, ap, ◌∙◌, ◌≢◌, ◌⊎◌, inl, inr, Bool, some, List, [], ◌∷◌, arith,
  ◌==◌, if◌then◌else◌, ==_iff, Bool-cases, length, get_elem?, get_elem?-lt, contains,
}
use operating_system.Log.{Disk, Log, store_block, bwrite, copy_block, bunpin, install_loop}
use operating_system.Log.Write.{All, changed, store_block_self, store_block-other}

-- Every write is to a target block and has its new contents, and keeps `P`.
module _ {A : Type 0} (P Q : Disk A → Type 0) (Target : ℕ → Type 0) (new : ℕ → A)
    (keep : (d : Disk A) (b : ℕ) (v : A) → P d → Target b → v ≡ new b → P (changed d b v))
    (weaken : (d : Disk A) → P d → Q d) where
  pub record Installed (bs : List ℕ) (m m' : Log A) : Type 0 where
    pub same_head : m'.disk.head ≡ m.disk.head
    pub same_start : m'.start ≡ m.start
    pub blocks : (x : ℕ) → m'.disk.block x ≡ (if contains bs x then new x else m.disk.block x)
    pub before : All Q m'.past
    pub after : P m'.disk

  -- The log places from `tail` on hold the new contents of the blocks.
  abbrev pub Ready : List ℕ → ℕ → Log A → Type 0
  Ready bs tail m =
      (i b : ℕ) → get_elem? bs i ≡ some b → m.cached (m.start + (tail + i) + 1) ≡ new b

  pub install_loop-Installed :
      (recovering : Bool) (bs : List ℕ) (tail : ℕ) (m : Log A)
      → ((i b : ℕ)
          → get_elem? bs i ≡ some b
          → (b < m.start + tail + 1) ⊎ (m.start + tail + length bs < b))
      → ((i b : ℕ) → get_elem? bs i ≡ some b → Target b)
      → Ready bs tail m
      → All Q m.past
      → P m.disk
      → Installed bs m (install_loop recovering bs tail m)
  unfolding install_loop
  install_loop-Installed recovering [] tail m away target ready past now = record {
    same_head = refl;
    same_start = refl;
    blocks = λ x. refl;
    before = past;
    after = now;
  }
  install_loop-Installed recovering (b ∷ bs) tail m away target ready past now =
      let x : ℕ = m.start + tail + 1 in
      let v : A = store_block m.cached b (m.cached x) b in
      let w : Log A = bwrite (copy_block m b x) b in
      let m₁ : Log A = record w { pins = if recovering then w.pins else (bunpin w b).pins } in
      let first : m.start + (tail + 0) + 1 ≡ x = omega arith in
      let v_new : v ≡ new b =
        store_block_self m.cached b (m.cached x) ∙ ap m.cached (sym first) ∙ ready 0 b refl in
      let r : Installed bs m₁ (install_loop recovering bs (tail + 1) m₁) =
        install_loop-Installed recovering bs (tail + 1) m₁
          (λ i c e. elim (away (suc i) c e) [
            | inl lo ↦ inl (omega arith)
            | inr hi ↦ inr (omega arith)
          ])
          (λ i c e. target (suc i) c e)
          (λ i c e.
            let place : m.start + (tail + suc i) + 1 ≡ m.start + (tail + 1 + i) + 1 = omega arith in
            let apart : m.start + (tail + 1 + i) + 1 ≢ b = elim (away 0 b refl) [
              | inl lo ↦ omega arith
              | inr hi ↦ (let lt = get_elem?-lt bs i e in omega arith)
            ] in
            store_block-other m.cached b (m.cached x) (m.start + (tail + 1 + i) + 1) apart
            ∙ ap m.cached (sym place)
            ∙ ready (suc i) c e)
          (weaken m.disk now, past) (keep m.disk b v now (target 0 b refl) v_new) in
      record {
        same_head = r.same_head;
        same_start = r.same_start;
        blocks = λ y. r.blocks y ∙ elim (Bool-cases (b == y)) [
          | inl e ↦
              let same : b ≡ y = (==_iff b y).0 e in
              let here : store_block m.disk.block b v y ≡ new y =
                ap (store_block m.disk.block b v) (sym same)
                ∙ store_block_self m.disk.block b v
                ∙ v_new
                ∙ ap new same in
              rw (e, here) (ground arith)
          | inr ne ↦
              let kept : store_block m.disk.block b v y ≡ m.disk.block y =
                store_block-other m.disk.block b v y (ground arith) in
              rw (ne, kept) refl
        ];
        before = r.before;
        after = r.after;
      }
