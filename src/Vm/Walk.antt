-- ===== src/Vm/Walk.antt =====
-- `walk` on a tree of page tables: it keeps the shape, and the entry it returns is where `va` leads.
use operating_system.Common.{
  ℕ, suc, ◌≡◌, refl, ◌⊎◌, inl, inr, Bool, true, false, none, List, [], ◌∷◌, arith, ◌==◌, Bool-cases,
}
use operating_system.Memory.{Mem}
use operating_system.Memory.FreeList.{kalloc_cons, kalloc_nil, Chain-cons, Chain-nil}
use operating_system.Vm.{has, pte_v, pte_to_pa, px, install_table, walk_step}
use operating_system.Vm.Install.{Stepped-install}
use operating_system.Vm.Tables.{Roles, Tables, Stepped, Extends-refl, slot, px-lt}

module _ {m : Mem} {g : Roles} (t : Tables m g) {table k : ℕ} (r : g.rank table ≡ suc (suc k))
    (va level : ℕ) where
  abbrev i : ℕ
  i = px level va

  step_valid :
      has (m.word (slot table i)) pte_v ≡ true
      → (alloc : Bool) → Stepped m g table i k (walk_step m table va level alloc)
  unfolding walk_step
  step_valid v alloc = record {
    next = pte_to_pa (m.word (slot table i));
    mem = m;
    roles = g;
    result = rw v;
    tables = t;
    extends = Extends-refl m g;
    points = record { valid = v; target = refl };
    rank = (t.child table i k r (px-lt level va) v).0;
  }

  step_install :
      (p : ℕ) (xs : List ℕ)
      → g.free ≡ p ∷ xs
      → has (m.word (slot table i)) pte_v ≡ false
      → Stepped m g table i k (walk_step m table va level true)
  unfolding walk_step install_table
  step_install p xs is_free v =
      let (e, nz, al, out, c) = Chain-cons (rw is_free at t.chain) in
      let (m₁, got, rest, junk, same) =
        kalloc_cons {m = m} {p = p} {xs = xs} (rw is_free at t.chain) in
      let not_null : (p == 0) ≡ false = ground arith in
      Stepped-install m m₁ g table i k p xs t is_free r (px-lt level va) v rest same
        (rw (v, got, not_null))

  -- One round with allocation: it succeeds, or no page was free and nothing has changed.
  pub step_alloc :
      ((walk_step m table va level true ≡ (none, m)) × (m.freelist ≡ 0))
      ⊎ Stepped m g table i k (walk_step m table va level true)
  unfolding walk_step install_table
  step_alloc = elim (Bool-cases (has (m.word (slot table i)) pte_v)) [
    | inl v ↦ inr (step_valid v true)
    | inr v ↦ from_list g.free refl v
  ]
    where
      from_list :
          (xs : List ℕ)
          → g.free ≡ xs
          → has (m.word (slot table i)) pte_v ≡ false
          → ((walk_step m table va level true ≡ (none, m)) × (m.freelist ≡ 0))
            ⊎ Stepped m g table i k (walk_step m table va level true)
      from_list [] e v =
          inl (rw (v, kalloc_nil {m = m} (rw e at t.chain)), Chain-nil (rw e at t.chain))
      from_list (p ∷ xs) e v = inr (step_install p xs e v)
