-- ===== src/Vm/Unmap.antt =====
-- `uvmunmap` of mp2/kernel/vm.c without freeing: what becomes of each entry of the range.
use operating_system.Common.{
  ℕ, zero, suc, ◌+◌, ◌*◌, ◌/◌, ◌%◌, ◌^◌, ◌≤◌, ◌<◌, ◌≡◌, refl, ◌≢◌, ◌⊎◌, inl, inr, true, false, not,
  some, arith, ltb, leb, ◌==◌, if◌then◌else◌, Bool-cases, Run, ok,
}
use operating_system.Memory.{page_size, Mem}
use operating_system.Vm.{
  Vm, has, pte_v, pte_s, pte_flags, max_va, entry, px, walk, walk_leaf, set_pte, unmap_entry,
  unmap_loop, uvmunmap, page_rounds,
}
use operating_system.Vm.Tables.{Roles, px-lt}
use operating_system.Vm.Locate.{walk_tables-Located}
use operating_system.Vm.Leaf.{Maps, Tables-stored, Maps-self, Maps-other}
use operating_system.Vm.Map.{IsState, Keeps}

-- A swapped or invalid entry stays; any other is cleared.
abbrev pub unmapped : ℕ → ℕ
unmapped e = if has e pte_s then e else if not (has e pte_v) then e else 0

module _ {B : Type 0} (touch : B → ℕ → ℕ → Run B) (Good : B → Type 0)
    (keep : (b : B) (pte t : ℕ) → Good b → (b' : B) × (touch b pte t ≡ ok b') × Good b')
    (kernel_end : ℕ) where
  -- The entry for `a` has become `e`, and every other page is mapped as it was.
  abbrev Changed : Vm B → Roles → ℕ → ℕ → ℕ → Vm B → Type 0
  Changed s g root a e s' =
      IsState touch Good keep s' g root
      × Maps s'.mem g root a e
      × Keeps touch Good keep (λ va. va / page_size ≢ a / page_size) s.mem g s'.mem g root

  -- The search of a round.
  walk-Maps :
      {s : Vm B} {g : Roles} {root a e : ℕ}
      → IsState touch Good keep s g root
      → a < max_va
      → (p : Maps s.mem g root a e)
      → (b : B) × (walk touch s root a false
          ≡ ok (some (entry p.low 0 a), record { mem = s.mem; buf = b }))
        × Good b
  unfolding walk walk_leaf
  walk-Maps {s} {a = a} v h p =
      let (b, touched, good) = keep s.buf (entry p.low 0 a) (s.mem.word (entry p.low 0 a)) v.good in
      let small : leb max_va a ≡ false = ground arith in
      (b, rw (small, walk_tables-Located p.located false, touched) refl, good)

  -- The change of a round.
  unmap_entry-Changed :
      {s : Vm B} {g : Roles} {root a e : ℕ}
      → IsState touch Good keep s g root
      → a < max_va
      → (p : Maps s.mem g root a e) → (pte_flags e == pte_v) ≡ false
      → (s' : Vm B) × (unmap_entry kernel_end s (entry p.low 0 a) false ≡ ok s')
        × Changed s g root a (unmapped e) s'
  unfolding unmap_entry set_pte
  unmap_entry-Changed {s} {g} {root} {a} {e} v h p not_table = elim (Bool-cases (has e pte_s)) [
    | inl swapped ↦ (s, rw (p.holds, swapped) refl, (v, rw swapped p, λ va e' hv away q. q))
    | inr present ↦ elim (Bool-cases (has e pte_v)) [
      | inr invalid ↦ (
        s,
        rw (p.holds, present, invalid) refl,
        (v, rw (present, invalid) p, λ va e' hv away q. q),
      )
      | inl valid ↦ (
        set_pte s (entry p.low 0 a) 0,
        rw (p.holds, present, valid, not_table) refl,
        (
          record {
            tables = Tables-stored s.mem g p.low (px 0 a) 0 v.tables p.located.low_rank (px-lt 0 a);
            root_rank = v.root_rank;
            good = v.good;
          },
          rw (present, valid) (Maps-self 0 v.tables p.located),
          λ va e' hv away q. Maps-other 0 v.tables p.located h hv away q,
        ),
      )
    ]
  ]

  -- What a run over the `n` pages from `a`, with the entries `e`, does.
  abbrev pub RangeUnmapped : Vm B → Roles → (root a n : ℕ) → (ℕ → ℕ) → Run (Vm B) → Type 0
  RangeUnmapped s g root a n e r =
      (s' : Vm B) × (r ≡ ok s')
      × IsState touch Good keep s' g root
      × ((j : ℕ) → j < n → Maps s'.mem g root (a + j * page_size) (unmapped (e j)))
      × Keeps touch Good keep (λ va. (va < a) ⊎ (a + n * page_size ≤ va)) s.mem g s'.mem g root

  away_from :
      {va : ℕ} (a n : ℕ)
      → a % page_size ≡ 0
      → (va < a) ⊎ (a + suc n * page_size ≤ va)
      → (va / page_size ≢ a / page_size)
        × ((va < a + page_size) ⊎ (a + page_size + n * page_size ≤ va))
  away_from a n al (inl x) = (λ z. absurd (omega arith), inl (omega arith))
  away_from a n al (inr x) = (λ z. absurd (omega arith), inr (omega arith))

  unmap_loop-RangeUnmapped :
      (fuel n : ℕ) {s : Vm B} {g : Roles} {root : ℕ} (a end : ℕ) (e : ℕ → ℕ)
      → IsState touch Good keep s g root
      → a % page_size ≡ 0
      → end ≡ a + n * page_size
      → end ≤ max_va
      → n < fuel
      → ((j : ℕ) → j < n → Maps s.mem g root (a + j * page_size) (e j))
      → ((j : ℕ) → j < n → (pte_flags (e j) == pte_v) ≡ false)
      → RangeUnmapped s g root a n e (unmap_loop touch fuel kernel_end s root a end false)
  unfolding unmap_loop
  unmap_loop-RangeUnmapped zero n a end e v al ee he hf ps not_tables = absurd (omega arith)
  unmap_loop-RangeUnmapped (suc fuel) zero {s} a end e v al ee he hf ps not_tables =
      let stop : ltb a end ≡ false = ground arith in
      (s, rw (stop, unmap_loop) refl, v, λ j h. absurd (omega arith), λ va e' hv away q. q)
  unmap_loop-RangeUnmapped (suc fuel) (suc n) {s} {g} {root} a end e v al ee he hf ps not_tables =
      let go : ltb a end ≡ true = ground arith in
      let ea : a + 0 * page_size ≡ a = omega arith in
      let h : a < max_va = omega arith in
      let p : Maps s.mem g root a (e 0) = rw ea at (ps 0 (omega arith)) in
      let (b, found, good) = walk-Maps v h p in
      let v₁ : IsState touch Good keep (record { mem = s.mem; buf = b }) g root = record {
        tables = v.tables;
        root_rank = v.root_rank;
        good = good;
      } in
      let (s₁, changed, (v₂, first, kept)) =
        unmap_entry-Changed v₁ h p (not_tables 0 (omega arith)) in
      let (s₂, done, v₃, later, kept') =
        unmap_loop-RangeUnmapped fuel n (a + page_size) end (λ j. e (suc j)) v₂ (omega arith)
          (omega arith) he (omega arith)
          (λ j hj.
            let next : a + page_size + j * page_size ≡ a + suc j * page_size = omega arith in
            rw next (
              kept _ (e (suc j)) (omega arith) (λ z. absurd (omega arith))
                (ps (suc j) (omega arith))))
          (λ j hj. not_tables (suc j) (omega arith)) in
      let no_wrap : (a + page_size) % 2 ^ 64 ≡ a + page_size = omega arith in
      (
        s₂,
        rw (go, found, changed, no_wrap, unmap_loop) done,
        v₃,
        λ j hj.
            pages a n e {m = s₂.mem} {g = g} {root = root}
              (kept' a (unmapped (e 0)) h (inl (omega arith)) first) later j hj,
        λ va e' hv away q.
            let (other, rest) = away_from a n al away in
            kept' va e' hv rest (kept va e' hv other q),
      )
    where
      pages :
          (a n : ℕ) (e : ℕ → ℕ) {m : Mem} {g : Roles} {root : ℕ}
          → Maps m g root a (unmapped (e 0))
          → ((j : ℕ) → j < n → Maps m g root (a + page_size + j * page_size) (unmapped (e (suc j))))
          → (j : ℕ) → j < suc n
          → Maps m g root (a + j * page_size) (unmapped (e j))
      pages a n e first later zero hj = let ea : a + 0 * page_size ≡ a = omega arith in rw ea first
      pages a n e first later (suc j) hj =
          let ea : a + suc j * page_size ≡ a + page_size + j * page_size = omega arith in
          rw ea (later j (omega arith))

  -- `uvmunmap` without freeing, over pages that have entries in the tree of which none points to a
  -- table, always succeeds: it clears the valid entries, leaves those that are swapped out or invalid,
  -- and every other page is mapped as it was in a tree that is still well formed.
  pub uvmunmap-RangeUnmapped :
      {s : Vm B} {g : Roles} {root : ℕ} (va n : ℕ) (e : ℕ → ℕ)
      → IsState touch Good keep s g root
      → va % page_size ≡ 0
      → va + n * page_size ≤ max_va
      → ((j : ℕ) → j < n → Maps s.mem g root (va + j * page_size) (e j))
      → ((j : ℕ) → j < n → (pte_flags (e j) == pte_v) ≡ false)
      → RangeUnmapped s g root va n e (uvmunmap touch kernel_end s root va n false)
  unfolding uvmunmap
  uvmunmap-RangeUnmapped {s} {g} {root} va n e v al h ps not_tables =
      let aligned : (va % page_size == 0) ≡ true = ground arith in
      let no_wrap : (va + n * page_size) % 2 ^ 64 ≡ va + n * page_size = omega arith in
      rw (aligned, no_wrap)
        (unmap_loop-RangeUnmapped page_rounds n va (va + n * page_size) e v al refl h (omega arith)
          ps not_tables)
