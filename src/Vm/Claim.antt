-- ===== src/Vm/Claim.antt =====
-- Taking a page off the free list for data, and clearing it, keeps the tree of page tables.
use operating_system.Common.{
  ℕ, ◌+◌, ◌%◌, ◌≤◌, ◌<◌, ◌≡◌, refl, sym, ap, ◌∙◌, ◌≢◌, ◌⊎◌, List, ◌∷◌, arith, ==_refl, contains,
}
use operating_system.Memory.{page_size, phys_stop, Mem, fill_page}
use operating_system.Memory.FreeList.{Free, Chain-cons, frame-fill_page, fill_page-outside}
use operating_system.Vm.Tables.{Roles, Tables, Extends, slot}

-- The roles once the first free page is used for data.
abbrev pub claimed_roles : Roles → List ℕ → Roles
claimed_roles g xs = record g { free = xs }

-- Memory once that page is cleared.
abbrev pub cleared : Mem → ℕ → Mem
cleared m p = record { word = fill_page m.word p 0; freelist = m.freelist }

module _ (m m₁ : Mem) (g : Roles) (p : ℕ) (xs : List ℕ) (t : Tables m g) (is_free : g.free ≡ p ∷ xs)
    (rest : Free m₁ xs)
    (same : (a : ℕ) → (a < p) ⊎ (p + page_size ≤ a) → m₁.word a ≡ m.word a) where
  p_role : (g.rank p ≡ 0) × (p % page_size ≡ 0) × (p < phys_stop)
  p_role = t.free_rank p (rw is_free (ground (arith, ==_refl p)))

  -- No slot of a table lies in the page.
  pub slot-outside :
      (q j : ℕ) → g.rank q ≢ 0 → j < 512 → (slot q j < p) ⊎ (p + page_size ≤ slot q j)
  slot-outside q j r h =
      let ne : q ≢ p = λ e. r (ap g.rank e ∙ p_role.0) in
      let al : q % page_size ≡ 0 = t.aligned q r in
      let pal : p % page_size ≡ 0 = p_role.1 in ground arith

  cleared-slot :
      (q j : ℕ) → g.rank q ≢ 0 → j < 512 → fill_page m₁.word p 0 (slot q j) ≡ m.word (slot q j)
  cleared-slot q j r h =
      fill_page-outside m₁.word p 0 (slot q j) (slot-outside q j r h)
      ∙ same (slot q j) (slot-outside q j r h)

  pub Tables-claimed : Tables (cleared m₁ p) (claimed_roles g xs)
  Tables-claimed = record {
    chain =
        let (e, n, al, out, c) = Chain-cons (rw is_free at t.chain) in
        frame-fill_page p 0 rest p_role.1 (ap (contains xs) (sym e) ∙ out);
    free_rank = λ q h. t.free_rank q (rw is_free (ground (arith, h)));
    aligned = t.aligned;
    child = λ q j k r h v.
        let kept : fill_page m₁.word p 0 (slot q j) ≡ m.word (slot q j) =
          cleared-slot q j (λ z. absurd (omega arith)) h in
        rw kept (t.child q j k r h (rw kept at v));
  }

  pub Extends-claimed : Extends m g (cleared m₁ p) (claimed_roles g xs)
  Extends-claimed = record {
    ranks = λ q r. refl;
    entries = λ q j r h v. cleared-slot q j r h;
    leaves = λ q j r h. cleared-slot q j (λ z. absurd (omega arith)) h;
  }
