-- ===== src/Vm/Install.antt =====
-- The branch of `walk` that allocates a table keeps the tree in shape.
use operating_system.Common.{
  ℕ, suc, ◌+◌, ◌%◌, ◌≤◌, ◌<◌, ◌≡◌, sym, ap, ◌∙◌, ◌≢◌, ◌⊎◌, inl, inr, true, false, Option, some,
  List, ◌∷◌, arith, ◌==◌, ==_iff, ==_refl, Bool-cases, contains,
}
use Prim.Native.Nat.{bit_or}
use operating_system.Memory.{page_size, phys_stop, Mem, store, fill_page}
use operating_system.Memory.FreeList.{
  Free, Chain, Chain-cons, frame, fill_page-inside, fill_page-outside, fill_page-other,
}
use operating_system.Vm.{has, pte_v, pa_to_pte, pte_to_pa}
use operating_system.Vm.Pte.{leaf, leaf-v, pte_to_pa-leaf, table_entry}
use operating_system.Vm.Tables.{Roles, Tables, Extends, Stepped, slot, update, slot-injective}

-- Page `p` comes off the free list `p ∷ xs` of `m` with memory `m₁`, and becomes the table behind
-- the invalid entry `i` of `table`.
module _ (m m₁ : Mem) (g : Roles) (table i k p : ℕ) (xs : List ℕ) (t : Tables m g)
    (is_free : g.free ≡ p ∷ xs) (rank : g.rank table ≡ suc (suc k)) (inside : i < 512)
    (invalid : has (m.word (slot table i)) pte_v ≡ false) (rest : Free m₁ xs)
    (same : (a : ℕ) → (a < p) ⊎ (p + page_size ≤ a) → m₁.word a ≡ m.word a) where
  abbrev word' : ℕ → ℕ
  word' = store (fill_page m₁.word p 0) (slot table i) (bit_or (pa_to_pte p) pte_v)

  abbrev pub mem' : Mem
  mem' = record m₁ { word = word' }

  abbrev pub roles' : Roles
  roles' = record {
    free = xs;
    rank = update g.rank p (suc k);
    owner = update g.owner p (slot table i);
  }

  p_free : contains g.free p ≡ true
  p_free = rw is_free (ground (arith, ==_refl p))

  p_rank : g.rank p ≡ 0
  p_rank = (t.free_rank p p_free).0

  p_aligned : p % page_size ≡ 0
  p_aligned = (t.free_rank p p_free).1

  p_low : p < phys_stop
  p_low = (t.free_rank p p_free).2

  p_out : contains xs p ≡ false
  p_out =
      let (e, n, al, out, c) = Chain-cons (rw is_free at t.chain) in ap (contains xs) (sym e) ∙ out

  -- A slot of a table that was there before lies outside the new page.
  outside : (q j : ℕ) → g.rank q ≢ 0 → j < 512 → (slot q j < p) ⊎ (p + page_size ≤ slot q j)
  outside q j r h =
      let ne : q ≢ p = λ e. r (ap g.rank e ∙ p_rank) in
      let al : q % page_size ≡ 0 = t.aligned q r in
      let pal : p % page_size ≡ 0 = p_aligned in ground arith

  -- The word at every other such slot is what it was.
  word'-slot :
      (q j : ℕ)
      → g.rank q ≢ 0
      → j < 512
      → slot q j ≢ slot table i
      → word' (slot q j) ≡ m.word (slot q j)
  unfolding store
  word'-slot q j r h ne =
      let other : (slot q j == slot table i) ≡ false = ground arith in
      rw other (
        fill_page-outside m₁.word p 0 (slot q j) (outside q j r h)
        ∙ same (slot q j) (outside q j r h))

  word'-self : word' (slot table i) ≡ leaf p 0
  unfolding store
  word'-self = rw (==_refl (slot table i)) (table_entry p)

  word'-new : (j : ℕ) → j < 512 → word' (slot p j) ≡ 0
  unfolding store
  word'-new j h =
      let out = outside table i (λ e. absurd (omega arith)) inside in
      let other : (slot p j == slot table i) ≡ false = ground arith in
      rw other (fill_page-inside m₁.word p 0 (slot p j) (omega arith) (omega arith))

  still_free : (q : ℕ) → contains xs q ≡ true → contains g.free q ≡ true
  still_free q h = rw is_free (ground (arith, h))

  table_rank : g.rank table ≢ 0
  table_rank e = absurd (omega arith)

  -- The entry is in no free page.
  is_not_slot : (a : ℕ) → g.rank a ≡ 0 → a % page_size ≡ 0 → a ≢ slot table i
  is_not_slot a r al e =
      let tal = t.aligned table table_rank in
      let first : a ≡ table = omega arith in table_rank (sym (ap g.rank first) ∙ r)

  not_leaf : (q j : ℕ) → g.rank q ≡ 1 → j < 512 → slot q j ≢ slot table i
  not_leaf q j r h e =
      let nz : g.rank q ≢ 0 = λ z. absurd (omega arith) in
      let (same_table, _) =
        slot-injective q table j i (t.aligned q nz) (t.aligned table table_rank) h inside e in
      absurd (omega (arith, ap g.rank same_table))

  chain' : Chain word' m₁.freelist xs
  unfolding store
  chain' = frame rest λ a h al.
      let (r, al', low) = t.free_rank a (still_free a h) in
      let ne : a ≢ p = λ e. cc (sym (rw e at h) ∙ p_out) in
      let not_slot : a ≢ slot table i = λ e. is_not_slot a r al e in
      let other : (a == slot table i) ≡ false = ground arith in
      rw other (fill_page-other m₁.word p 0 a p_aligned al ne)

  free_rank' :
      (q : ℕ) → contains xs q ≡ true → (roles'.rank q ≡ 0) × (q % page_size ≡ 0) × (q < phys_stop)
  unfolding update
  free_rank' q h =
      let ne : (q == p) ≡ false = ground (arith, p_out) in rw ne (t.free_rank q (still_free q h))

  aligned' : (q : ℕ) → roles'.rank q ≢ 0 → q % page_size ≡ 0
  unfolding update
  aligned' q h = elim (Bool-cases (q == p)) [
    | inl e ↦ rw ((==_iff q p).0 e) p_aligned
    | inr e ↦ t.aligned q (rw e at h)
  ]

  not_valid : has 0 pte_v ≢ true
  not_valid e = cc

  old_child :
      (q j n : ℕ)
      → g.rank q ≡ suc (suc n)
      → j < 512
      → has (word' (slot q j)) pte_v ≡ true
      → (roles'.rank (pte_to_pa (word' (slot q j))) ≡ suc n)
        × (roles'.owner (pte_to_pa (word' (slot q j))) ≡ slot q j)
  unfolding update
  old_child q j n r h v = elim (Bool-cases (slot q j == slot table i)) [
    | inl e ↦
        let at_slot : slot q j ≡ slot table i = (==_iff (slot q j) (slot table i)).0 e in
        let same_table =
          slot-injective q table j i (t.aligned q nz) (t.aligned table table_rank) h inside
            at_slot in
        let target : pte_to_pa (word' (slot q j)) ≡ p =
          ap (λ a. pte_to_pa (word' a)) at_slot
          ∙ ap pte_to_pa word'-self
          ∙ pte_to_pa-leaf p 0 p_aligned (omega (arith, p_low)) (omega arith) in
        rw (target, ==_refl p) (omega (arith, ap g.rank same_table.0), sym at_slot)
    | inr e ↦
        let kept : word' (slot q j) ≡ m.word (slot q j) =
          word'-slot q j nz h (λ z. cc ((==_iff (slot q j) (slot table i)).1 z)) in
        let (rank_q, owner_q) = t.child q j n r h (ap (λ w. has w pte_v) (sym kept) ∙ v) in
        let ne : (pte_to_pa (m.word (slot q j)) == p) ≡ false = ground (arith, p_rank) in
        rw (kept, ne) (rank_q, owner_q)
  ]
    where
      nz : g.rank q ≢ 0
      nz z = absurd (omega arith)

  child' :
      (q j n : ℕ)
      → roles'.rank q ≡ suc (suc n)
      → j < 512
      → has (word' (slot q j)) pte_v ≡ true
      → (roles'.rank (pte_to_pa (word' (slot q j))) ≡ suc n)
        × (roles'.owner (pte_to_pa (word' (slot q j))) ≡ slot q j)
  unfolding update
  child' q j n r h v = elim (Bool-cases (q == p)) [
    | inl e ↦
        let zero_word : word' (slot q j) ≡ 0 =
          ap (λ z. word' (slot z j)) ((==_iff q p).0 e) ∙ word'-new j h in
        absurd (not_valid (ap (λ w. has w pte_v) (sym zero_word) ∙ v))
    | inr e ↦ old_child q j n (rw e at r) h v
  ]

  Tables-install : Tables mem' roles'
  Tables-install = record {
    chain = chain';
    free_rank = free_rank';
    aligned = aligned';
    child = child';
  }

  Extends-install : Extends m g mem' roles'
  unfolding update
  Extends-install = record {
    ranks = λ q r. let ne : (q == p) ≡ false = ground (arith, p_rank) in rw ne;
    entries = λ q j r h v.
        word'-slot q j r h (λ e. cc (sym v ∙ ap (λ a. has (m.word a) pte_v) e ∙ invalid));
    leaves = λ q j r h. word'-slot q j (λ z. absurd (omega arith)) h (λ e. not_leaf q j r h e);
  }

  pub Stepped-install : {r : Option ℕ × Mem} → r ≡ (some p, mem') → Stepped m g table i k r
  unfolding update
  Stepped-install e = record {
    next = p;
    mem = mem';
    roles = roles';
    result = e;
    tables = Tables-install;
    extends = Extends-install;
    points = record {
      valid = ap (λ w. has w pte_v) word'-self ∙ leaf-v p 0;
      target =
          ap pte_to_pa word'-self
          ∙ pte_to_pa-leaf p 0 p_aligned (omega (arith, p_low)) (omega arith);
    };
    rank = rw (==_refl p);
  }
