-- ===== src/Vm/Fault/Refill.antt =====
-- A fault at a page whose table exists: `handle_pgfault` maps a fresh page, whatever the entry held.
use operating_system.Common.{
  ℕ, suc, ◌+◌, ◌-◌, ◌*◌, ◌/◌, ◌%◌, ◌^◌, ◌≤◌, ◌<◌, ◌≡◌, refl, ap₂, ◌∙◌, ◌≢◌, ◌⊎◌, true, false, List,
  ◌∷◌, arith, leb, ◌==◌, ==_refl, Run, ok, pos,
}
use operating_system.Memory.{page_size, page_round_down, store}
use operating_system.Memory.FreeList.{kalloc_cons, fill_page-inside, Chain-cons}
use operating_system.Vm.{
  Vm, has, pte_v, max_va, entry, px, walk, walk_leaf, set_pte, map_page, map_loop, mappages,
  page_rounds,
}
use operating_system.Vm.Pte.{leaf}
use operating_system.Vm.Tables.{Roles, px-lt}
use operating_system.Vm.Locate.{walk_tables-Located}
use operating_system.Vm.Leaf.{Maps, Maps-Extends, Tables-stored, Maps-self, Maps-other}
use operating_system.Vm.Map.{IsState, Keeps}
use operating_system.Vm.Claim.{
  claimed_roles, cleared, slot-outside, Tables-claimed, Extends-claimed,
}
use operating_system.Vm.Fault.{handle_pgfault, map_fresh, fault_perm}

module _ {B : Type 0} (touch : B → ℕ → ℕ → Run B) (Good : B → Type 0)
    (keep : (b : B) (pte t : ℕ) → Good b → (b' : B) × (touch b pte t ≡ ok b') × Good b') where
  -- A round of `mappages` at a page whose table exists and whose entry is invalid.
  abbrev Filled : Vm B → Roles → ℕ → ℕ → ℕ → ℕ → Vm B → Type 0
  Filled s g root a low new s' =
      IsState touch Good keep s' g root
      × Maps s'.mem g root a new
      × Keeps touch Good keep (λ va. va / page_size ≢ a / page_size) s.mem g s'.mem g root
      × ((x : ℕ) → x ≢ entry low 0 a → s'.mem.word x ≡ s.mem.word x)

  map_page-fills :
      {s : Vm B} {g : Roles} {root a e : ℕ} (pa perm : ℕ)
      → IsState touch Good keep s g root
      → a < max_va
      → (p : Maps s.mem g root a e) → has e pte_v ≡ false
      → (s' : Vm B) × (map_page touch s root a pa perm ≡ ok (true, s'))
        × Filled s g root a p.low (leaf pa perm) s'
  unfolding map_page walk walk_leaf set_pte store
  map_page-fills {s} {g} {root} {a} {e} pa perm v h p unused =
      let (b, touched, good) = keep s.buf (entry p.low 0 a) (s.mem.word (entry p.low 0 a)) v.good in
      let small : leb max_va a ≡ false = ground arith in
      (
        set_pte (record { mem = s.mem; buf = b }) (entry p.low 0 a) (leaf pa perm),
        rw (small, walk_tables-Located p.located true, touched, p.holds, unused) refl,
        (
          record {
            tables =
                Tables-stored s.mem g p.low (px 0 a) (leaf pa perm) v.tables p.located.low_rank
                  (px-lt 0 a);
            root_rank = v.root_rank;
            good = good;
          },
          Maps-self (leaf pa perm) v.tables p.located,
          λ va e' hv away q. Maps-other (leaf pa perm) v.tables p.located h hv away q,
          λ x ne. let other : (x == entry p.low 0 a) ≡ false = ground arith in rw other,
        ),
      )

  map_loop-one :
      (fuel : ℕ) (s s' : Vm B) (root a pa perm : ℕ)
      → map_page touch s root a pa perm ≡ ok (true, s')
      → map_loop touch (suc fuel) s root a a pa perm ≡ ok (pos 0, s')
  unfolding map_loop
  map_loop-one fuel s s' root a pa perm e = rw (e, ==_refl a)

  mappages-one :
      (s s' : Vm B) (root a pa perm : ℕ)
      → a < max_va
      → a % page_size ≡ 0
      → map_page touch s root a pa perm ≡ ok (true, s')
      → mappages touch s root a page_size pa perm ≡ ok (pos 0, s')
  unfolding mappages page_round_down
  mappages-one s s' root a pa perm h al e =
      let first : a / page_size * page_size ≡ a = omega arith in
      let last : (a + page_size - 1) % 2 ^ 64 / page_size * page_size ≡ a = omega arith in
      ap₂ (λ x y. map_loop touch page_rounds s root x y pa perm) first last
      ∙ map_loop-one (max_va / page_size + 1) s s' root a pa perm e

  round-lt : (va : ℕ) → va < max_va → page_round_down va < max_va
  unfolding page_round_down
  round-lt va h = omega arith

  round_aligned : (va : ℕ) → page_round_down va % page_size ≡ 0
  unfolding page_round_down
  round_aligned va = omega arith

  first_page : (top p : ℕ) → top ≡ p → top ≢ 0 → (p == 0) ≡ false
  first_page top p e n = ground arith

  outside_page : (y p a : ℕ) → p ≤ y → y < p + page_size → (a < p) ⊎ (p + page_size ≤ a) → y ≢ a
  outside_page y p a lo hi h = ground arith

  -- While a page is free, a fault at an address whose entry exists and is invalid returns 0 and maps
  -- a page of zeros there for the user, readable, writable and executable, whatever the entry held; the
  -- tree stays well formed and every other page is mapped as it was.
  pub handle_pgfault-Refilled :
      {s : Vm B} {g : Roles} {root va e p : ℕ} {xs : List ℕ}
      → IsState touch Good keep s g root
      → va < max_va
      → Maps s.mem g root (page_round_down va) e
      → has e pte_v ≡ false
      → g.free ≡ p ∷ xs
      → (s' : Vm B) × (handle_pgfault touch s root va ≡ ok (pos 0, s'))
        × IsState touch Good keep s' (claimed_roles g xs) root
        × Maps s'.mem (claimed_roles g xs) root (page_round_down va) (leaf p fault_perm)
        × ((x : ℕ) → p ≤ x → x < p + page_size → s'.mem.word x ≡ 0)
        × Keeps touch Good keep
            (λ a. a / page_size ≢ page_round_down va / page_size)
            s.mem
            g
            s'.mem
            (claimed_roles g xs)
            root
  unfolding handle_pgfault map_fresh walk walk_leaf
  handle_pgfault-Refilled {s} {g} {root} {va} {e} {p} {xs} v h q unused is_free =
      let a : ℕ = page_round_down va in
      let low : ℕ = q.low in
      let (b, touched, good) = keep s.buf (entry low 0 a) (s.mem.word (entry low 0 a)) v.good in
      let (m₁, taken, rest, junk, same) = kalloc_cons (rw is_free at v.tables.chain) in
      let (top, not_null, _, _, _) = Chain-cons (rw is_free at v.tables.chain) in
      let x = Extends-claimed s.mem m₁ g p xs v.tables is_free rest same in
      let s₁ : Vm B = record { mem = cleared m₁ p; buf = b } in
      let v₁ : IsState touch Good keep s₁ (claimed_roles g xs) root = record {
        tables = Tables-claimed s.mem m₁ g p xs v.tables is_free rest same;
        root_rank = v.root_rank;
        good = good;
      } in
      let q₁ : Maps (cleared m₁ p) (claimed_roles g xs) root a e = Maps-Extends x q in
      let (s', filled, (v', mapped, kept, frame)) =
        map_page-fills p fault_perm v₁ (round-lt va h) q₁ unused in
      let small : leb max_va va ≡ false = ground arith in
      let small_page : leb max_va a ≡ false = ground (arith, round-lt va h) in
      let some_page : (p == 0) ≡ false = first_page s.mem.freelist p top not_null in
      (
        s',
        rw
            (
              small,
              small_page,
              walk_tables-Located q.located true,
              touched,
              taken,
              some_page,
              mappages-one s₁ s' root a p fault_perm (round-lt va h) (round_aligned va) filled,
            )
            refl,
        v',
        mapped,
        λ y lo hi.
            let outside =
              slot-outside s.mem m₁ g p xs v.tables is_free rest same q₁.low (px 0 a)
                (λ z. absurd (omega (arith, q₁.located.low_rank))) (px-lt 0 a) in
            let not_entry : y ≢ entry q₁.low 0 a =
              outside_page y p (entry q₁.low 0 a) lo hi outside in
            frame y not_entry ∙ fill_page-inside m₁.word p 0 y lo hi,
        λ a' e' ha away z. kept a' e' ha away (Maps-Extends x z),
      )
