-- ===== src/Vm/Map/Range.antt =====
-- `mappages` of mp2/kernel/vm.c over a whole range, and what `walkaddr` finds after it.
use operating_system.Common.{
  ℕ, zero, suc, ◌+◌, ◌-◌, ◌*◌, ◌/◌, ◌%◌, ◌^◌, ◌≤◌, ◌<◌, ◌≡◌, ap, ◌∙◌, ◌≢◌, ◌⊎◌, inl, inr, true,
  false, arith, ◌==◌, Run, ok, panic, ℤ, pos, minus_one,
}
use operating_system.Memory.{page_size, page_round_down, Mem}
use operating_system.Vm.{
  has, pte_v, pte_u, max_va, Vm, walkaddr, map_page, map_loop, mappages, page_rounds,
}
use operating_system.Vm.Pte.{leaf}
use operating_system.Vm.Tables.{Roles}
use operating_system.Vm.Leaf.{Maps, Maps-Extends}
use operating_system.Vm.Map.{
  IsState, Keeps, PageMapped, mapped, no_memory, remap, map_page-PageMapped, walkaddr_user,
  user_page-leaf,
}

module _ {B : Type 0} (touch : B → ℕ → ℕ → Run B) (Good : B → Type 0)
    (keep : (b : B) (pte t : ℕ) → Good b → (b' : B) × (touch b pte t ≡ ok b') × Good b') where
  -- The ways in which `mappages` over the `n + 1` pages from `a` ends.
  pub data PagesMapped (s : Vm B) (g : Roles) (root a n pa perm : ℕ) (r : Run (ℤ × Vm B))
      : Type 0 where
    all_mapped :
        (s' : Vm B) (g' : Roles)
        → r ≡ ok (pos 0, s')
        → IsState touch Good keep s' g' root
        → ((j : ℕ)
            → j ≤ n
            → Maps s'.mem g' root (a + j * page_size) (leaf (pa + j * page_size) perm))
        → Keeps touch Good keep
            (λ va. (va < a) ⊎ (a + suc n * page_size ≤ va))
            s.mem
            g
            s'.mem
            g'
            root
        → PagesMapped s g root a n pa perm r
    out_of_memory :
        (s' : Vm B) (g' : Roles)
        → r ≡ ok (minus_one, s')
        → s'.mem.freelist ≡ 0
        → IsState touch Good keep s' g' root
        → Keeps touch Good keep
            (λ va. (va < a) ⊎ (a + suc n * page_size ≤ va))
            s.mem
            g
            s'.mem
            g'
            root
        → PagesMapped s g root a n pa perm r
    remapped :
        (m' : Mem) (g' : Roles) (j old : ℕ)
        → r ≡ panic
        → j ≤ n
        → Keeps touch Good keep (λ va. (va < a) ⊎ (a + j * page_size ≤ va)) s.mem g m' g' root
        → Maps m' g' root (a + j * page_size) old
        → has old pte_v ≡ true
        → PagesMapped s g root a n pa perm r

  -- The first page and the rest together.
  all_pages :
      {m : Mem} {g : Roles} {root : ℕ} (a n pa perm : ℕ)
      → Maps m g root a (leaf pa perm)
      → ((j : ℕ)
          → j ≤ n
          → Maps m g root
              (a + page_size + j * page_size)
              (leaf (pa + page_size + j * page_size) perm))
      → (j : ℕ) → j ≤ suc n
      → Maps m g root (a + j * page_size) (leaf (pa + j * page_size) perm)
  all_pages a n pa perm first rest zero h =
      let ea : a + 0 * page_size ≡ a = omega arith in
      let ep : pa + 0 * page_size ≡ pa = omega arith in rw (ea, ep) first
  all_pages a n pa perm first rest (suc j) h =
      let ea : a + suc j * page_size ≡ a + page_size + j * page_size = omega arith in
      let ep : pa + suc j * page_size ≡ pa + page_size + j * page_size = omega arith in
      rw (ea, ep) (rest j (omega arith))

  pub map_loop-PagesMapped :
      (fuel n : ℕ) {s : Vm B} {g : Roles} {root : ℕ} (a last pa perm : ℕ)
      → IsState touch Good keep s g root
      → a % page_size ≡ 0
      → last ≡ a + n * page_size
      → last < max_va
      → pa + n * page_size < 2 ^ 64
      → n < fuel
      → PagesMapped s g root a n pa perm (map_loop touch fuel s root a last pa perm)
  unfolding map_loop
  map_loop-PagesMapped zero n a last pa perm v al el hl hp hf = absurd (omega arith)
  map_loop-PagesMapped (suc fuel) zero {s} {g} {root} a last pa perm v al el hl hp hf =
      one (map_page-PageMapped touch Good keep a pa perm v (omega arith))
    where
      is_last : (a == last) ≡ true
      is_last = ground arith

      at_zero :
          {m' : Mem} {g' : Roles}
          → Maps m' g' root a (leaf pa perm)
          → (j : ℕ) → j ≤ 0
          → Maps m' g' root (a + j * page_size) (leaf (pa + j * page_size) perm)
      at_zero p j h =
          let ea : a + j * page_size ≡ a = omega arith in
          let ep : pa + j * page_size ≡ pa = omega arith in rw (ea, ep) p

      one :
          PageMapped touch Good keep s g root a (leaf pa perm) (map_page touch s root a pa perm)
          → PagesMapped s g root a 0 pa perm (map_loop touch (suc fuel) s root a last pa perm)
      one (mapped s' g' e v' p k) =
          all_mapped s' g' (rw (e, is_last, map_loop)) v' (λ j h. at_zero p j h)
            (λ va e' hv away q. k va e' hv (omega arith) q)
      one (no_memory s' g' e none_free v' k) =
          out_of_memory s' g' (rw (e, map_loop)) none_free v' (λ va e' hv away q. k va e' hv tt q)
      one (remap m' g' old e x p w) =
          let ea : a + 0 * page_size ≡ a = omega arith in
          remapped m' g' 0 old (rw (e, map_loop)) (omega arith)
            (λ va e' hv away q. Maps-Extends x q) (rw ea p) w
  map_loop-PagesMapped (suc fuel) (suc n) {s} {g} {root} a last pa perm v al el hl hp hf =
      first
        (λ s' g' v'.
          map_loop-PagesMapped fuel n (a + page_size) last (pa + page_size) perm v' (omega arith)
            (omega arith) hl (omega arith) (omega arith))
        (map_page-PageMapped touch Good keep a pa perm v (omega arith))
    where
      not_last : (a == last) ≡ false
      not_last = ground arith

      next_a : (a + page_size) % 2 ^ 64 ≡ a + page_size
      next_a = omega arith

      next_pa : (pa + page_size) % 2 ^ 64 ≡ pa + page_size
      next_pa = omega arith

      shift :
          {va : ℕ}
          → (va < a) ⊎ (a + suc (suc n) * page_size ≤ va)
          → (va < a + page_size) ⊎ (a + page_size + suc n * page_size ≤ va)
      shift (inl x) = inl (omega arith)
      shift (inr x) = inr (omega arith)

      apart :
          {va : ℕ} → (va < a) ⊎ (a + suc (suc n) * page_size ≤ va) → va / page_size ≢ a / page_size
      apart (inl x) z = absurd (omega arith)
      apart (inr x) z = absurd (omega arith)

      shift_prefix :
          {va : ℕ} (j : ℕ)
          → (va < a) ⊎ (a + suc j * page_size ≤ va)
          → (va < a + page_size) ⊎ (a + page_size + j * page_size ≤ va)
      shift_prefix j (inl x) = inl (omega arith)
      shift_prefix j (inr x) = inr (omega arith)

      apart_prefix :
          {va : ℕ} (j : ℕ)
          → (va < a) ⊎ (a + suc j * page_size ≤ va)
          → va / page_size ≢ a / page_size
      apart_prefix j (inl x) z = absurd (omega arith)
      apart_prefix j (inr x) z = absurd (omega arith)

      later :
          (s' : Vm B) (g' : Roles)
          → map_page touch s root a pa perm ≡ ok (true, s')
          → IsState touch Good keep s' g' root
          → Maps s'.mem g' root a (leaf pa perm)
          → Keeps touch Good keep (λ va. va / page_size ≢ a / page_size) s.mem g s'.mem g' root
          → PagesMapped s' g' root
              (a + page_size)
              n
              (pa + page_size)
              perm
              (map_loop touch fuel s' root (a + page_size) last (pa + page_size) perm)
          → PagesMapped s g root a (suc n) pa perm (map_loop touch (suc fuel) s root a last pa perm)
      later s' g' e v' p k (all_mapped s₂ g₂ e₂ v₂ ps k₂) =
          all_mapped s₂ g₂ (rw (e, not_last, next_a, next_pa, map_loop) e₂) v₂
            (all_pages a n pa perm (k₂ a (leaf pa perm) (omega arith) (inl (omega arith)) p) ps)
            (λ va e' hv away q. k₂ va e' hv (shift away) (k va e' hv (apart away) q))
      later s' g' e v' p k (out_of_memory s₂ g₂ e₂ none_free v₂ k₂) =
          out_of_memory s₂ g₂ (rw (e, not_last, next_a, next_pa, map_loop) e₂) none_free v₂
            (λ va e' hv away q. k₂ va e' hv (shift away) (k va e' hv (apart away) q))
      later s' g' e v' p k (remapped m₂ g₂ j old e₂ h₂ k₂ p₂ w₂) =
          let ea : a + suc j * page_size ≡ a + page_size + j * page_size = omega arith in
          remapped m₂ g₂ (suc j) old (rw (e, not_last, next_a, next_pa, map_loop) e₂) (omega arith)
            (λ va e' hv away q.
              k₂ va e' hv (shift_prefix j away) (k va e' hv (apart_prefix j away) q))
            (rw ea p₂) w₂

      first :
          ((s' : Vm B) (g' : Roles)
            → IsState touch Good keep s' g' root
            → PagesMapped s' g' root
                (a + page_size)
                n
                (pa + page_size)
                perm
                (map_loop touch fuel s' root (a + page_size) last (pa + page_size) perm))
          → PageMapped touch Good keep s g root a (leaf pa perm) (map_page touch s root a pa perm)
          → PagesMapped s g root a (suc n) pa perm (map_loop touch (suc fuel) s root a last pa perm)
      first rest (no_memory s' g' e none_free v' k) =
          out_of_memory s' g' (rw (e, map_loop)) none_free v' (λ va e' hv away q. k va e' hv tt q)
      first rest (remap m' g' old e x p w) =
          let ea : a + 0 * page_size ≡ a = omega arith in
          remapped m' g' 0 old (rw (e, map_loop)) (omega arith)
            (λ va e' hv away q. Maps-Extends x q) (rw ea p) w
      first rest (mapped s' g' e v' p k) = later s' g' e v' p k (rest s' g' v')

  pub mappages-PagesMapped :
      {s : Vm B} {g : Roles} {root : ℕ} (va size pa perm : ℕ)
      → IsState touch Good keep s g root
      → 0 < size
      → va + size ≤ max_va
      → pa + size + page_size < 2 ^ 64
      → PagesMapped s g root
          (page_round_down va)
          ((page_round_down (va + size - 1) - page_round_down va) / page_size)
          pa
          perm
          (mappages touch s root va size pa perm)
  unfolding mappages page_round_down
  mappages-PagesMapped va size pa perm v pos_size hv hp =
      let nonzero : (size == 0) ≡ false = ground arith in
      let no_wrap : (va + size - 1) % 2 ^ 64 ≡ va + size - 1 = omega arith in
      rw (nonzero, no_wrap)
        (map_loop-PagesMapped page_rounds _ (page_round_down va) (page_round_down (va + size - 1))
          pa perm v (omega arith) (omega arith) (omega arith) (omega arith) (omega arith))

  -- When `mappages` over whole pages below MAXVA, to a page boundary and with permissions below bit 10
  -- that include PTE_U, has returned 0, `walkaddr` of each page of the range returns the page that it
  -- was mapped to.
  pub walkaddr-mappages :
      {s s' : Vm B} {g : Roles} {root : ℕ} (va n pa perm : ℕ)
      → IsState touch Good keep s g root
      → va % page_size ≡ 0
      → va + suc n * page_size ≤ max_va
      → pa % page_size ≡ 0
      → pa + suc n * page_size + page_size < 2 ^ 64
      → perm < 1024
      → has perm pte_u ≡ true
      → mappages touch s root va (suc n * page_size) pa perm ≡ ok (pos 0, s')
      → (j : ℕ) → j ≤ n
      → (s'' : Vm B) × (walkaddr touch s' root (va + j * page_size) ≡ ok (pa + j * page_size, s''))
  unfolding page_round_down
  walkaddr-mappages {s} {s'} {g} {root} va n pa perm v al hv alp hp hf u done j hj = from_cases (
      rw (first, pages) at
        (mappages-PagesMapped va (suc n * page_size) pa perm v (omega arith) hv (omega arith)))
    where
      first : page_round_down va ≡ va
      first = omega arith

      pages : (page_round_down (va + suc n * page_size - 1) - va) / page_size ≡ n
      pages = omega arith

      from_cases :
          PagesMapped s g root va n pa perm (mappages touch s root va (suc n * page_size) pa perm)
          → (s'' : Vm B) × (walkaddr touch s' root (va + j * page_size)
              ≡ ok (pa + j * page_size, s''))
      from_cases (all_mapped s₁ g₁ e v₁ ps k) =
          let same : s₁ ≡ s' = cc in
          let (s₂, w, m, good) = walkaddr_user touch Good keep v₁ (omega arith) (ps j hj) in
          (
            s₂,
            rw (← same) (
                w
                ∙ ap (λ p. ok (p, s₂))
                    (user_page-leaf (pa + j * page_size) perm (omega arith) (omega arith) hf u)),
          )
      from_cases (out_of_memory s₁ g₁ e none_free v₁ k) = absurd (cc)
      from_cases (remapped m₁ g₁ i old e h k p w) = absurd (cc)
