-- ===== src/Vm/Leaf.antt =====
-- A store to an entry of a last table: what it keeps, and the mappings that a tree holds.
use operating_system.Common.{
  ℕ, suc, ◌/◌, ◌%◌, ◌<◌, ◌≡◌, ap, ◌∙◌, ◌≢◌, ◌⊎◌, inl, inr, false, arith, ◌==◌, ==_iff, ==_refl,
  Bool-cases,
}
use operating_system.Memory.{page_size, Mem, store}
use operating_system.Memory.FreeList.{frame}
use operating_system.Vm.{px, max_va, entry}
use operating_system.Vm.Tables.{Roles, Tables, Extends, slot, slot-injective, px-lt}
use operating_system.Vm.Locate.{Located, Located-Extends, Located-injective}

-- In the tree from `root` the address `va` has the entry `e`.
pub record Maps (m : Mem) (g : Roles) (root va e : ℕ) : Type 0 where
  pub mid : ℕ
  pub low : ℕ
  pub located : Located m g root va mid low
  pub holds : m.word (entry low 0 va) ≡ e

pub Maps-Extends :
    {m m' : Mem} {g g' : Roles} {root va e : ℕ}
    → Extends m g m' g'
    → Maps m g root va e
    → Maps m' g' root va e
Maps-Extends {va} x p = record {
  mid = p.mid;
  low = p.low;
  located = Located-Extends x p.located;
  holds = x.leaves p.low (px 0 va) p.located.low_rank (px-lt 0 va) ∙ p.holds;
}

module _ (m : Mem) (g : Roles) (low i v : ℕ) (t : Tables m g) (r : g.rank low ≡ 1)
    (h : i < 512) where
  abbrev pub stored : Mem
  stored = record { word = store m.word (slot low i) v; freelist = m.freelist }

  low_aligned : low % page_size ≡ 0
  low_aligned = t.aligned low (λ z. absurd (omega arith))

  spared :
      (q j : ℕ)
      → g.rank q ≢ 0
      → j < 512
      → (q ≢ low) ⊎ (j ≢ i)
      → stored.word (slot q j) ≡ m.word (slot q j)
  unfolding store
  spared q j nz k ne =
      let apart : (slot q j == slot low i) ≡ false = elim (Bool-cases (slot q j == slot low i)) [
        | inl e ↦
            let both =
              slot-injective q low j i (t.aligned q nz) low_aligned k h
                ((==_iff (slot q j) (slot low i)).0 e) in
            absurd (elim ne [ inl a ↦ a both.0 | inr b ↦ b both.1 ])
        | inr e ↦ e
      ] in
      rw apart

  upper_spared :
      (q j k : ℕ) → g.rank q ≡ suc (suc k) → j < 512 → stored.word (slot q j) ≡ m.word (slot q j)
  upper_spared q j k e l =
      spared q j (λ z. absurd (omega arith)) l (inl (λ z. absurd (omega (arith, ap g.rank z))))

  pub Tables-stored : Tables stored g
  unfolding store
  Tables-stored = record {
    chain = frame t.chain λ a c al.
        let (r₀, _, _) = t.free_rank a c in
        let ne : a ≢ slot low i = λ e.
          let al' = low_aligned in
          let same : a ≡ low = omega arith in absurd (omega (arith, ap g.rank same)) in
        let other : (a == slot low i) ≡ false = ground arith in rw other;
    free_rank = t.free_rank;
    aligned = t.aligned;
    child = λ q j k e l v'.
        rw (upper_spared q j k e l) (t.child q j k e l (rw (upper_spared q j k e l) at v'));
  }

  pub Located-stored :
      {root va mid low' : ℕ} → Located m g root va mid low' → Located stored g root va mid low'
  Located-stored {root} {va} {mid} l =
      let up = upper_spared root (px 2 va) 1 l.root_rank (px-lt 2 va) in
      let dn = upper_spared mid (px 1 va) 0 l.mid_rank (px-lt 1 va) in
      record {
        root_rank = l.root_rank;
        mid_rank = l.mid_rank;
        low_rank = l.low_rank;
        upper = record { valid = rw up l.upper.valid; target = rw up l.upper.target };
        lower = record { valid = rw dn l.lower.valid; target = rw dn l.lower.target };
      }

-- The store for one address changes its entry and no other page's.
module _ {m : Mem} {g : Roles} {root va mid low : ℕ} (v : ℕ) (t : Tables m g)
    (l : Located m g root va mid low) where
  abbrev pub after : Mem
  after = stored m g low (px 0 va) v t l.low_rank (px-lt 0 va)

  pub Maps-self : Maps after g root va v
  unfolding store
  Maps-self = record {
    mid = mid;
    low = low;
    located = Located-stored m g low (px 0 va) v t l.low_rank (px-lt 0 va) l;
    holds = rw (==_refl (entry low 0 va));
  }

  pub Maps-other :
      {va' e : ℕ}
      → va < max_va
      → va' < max_va
      → va' / page_size ≢ va / page_size
      → Maps m g root va' e
      → Maps after g root va' e
  unfolding store
  Maps-other {va'} h h' ne p = record {
    mid = p.mid;
    low = p.low;
    located = Located-stored m g low (px 0 va) v t l.low_rank (px-lt 0 va) p.located;
    holds =
        let apart : (entry p.low 0 va' == entry low 0 va) ≡ false =
          elim (Bool-cases (entry p.low 0 va' == entry low 0 va)) [
            | inl e ↦ absurd (ne (Located-injective t p.located l h' h ((==_iff _ _).0 e)))
            | inr e ↦ e
          ] in
        rw apart p.holds;
  }
