-- ===== src/Vm/Map.antt =====
-- `mappages` and `walkaddr` on a tree of page tables, for any page replacement buffer that `touch`
-- keeps good without failing.
pub mod Range
use operating_system.Common.{
  ℕ, zero, suc, ◌+◌, ◌-◌, ◌*◌, ◌/◌, ◌%◌, ◌^◌, ◌≤◌, ◌<◌, ◌≡◌, refl, ap, ◌∙◌, ◌≢◌, ◌⊎◌, inl, inr,
  Bool, true, false, arith, leb, ◌==◌, Bool-cases, Run, ok, panic, ℤ, pos, minus_one,
}
use operating_system.Memory.{page_size, page_round_down, Mem}
use operating_system.Vm.{
  has, pte_v, pte_u, px, max_va, entry, Vm, set_pte, walk_tables, walk_leaf, walk, walkaddr,
  user_page, pte_to_pa, map_page, map_loop, mappages, page_rounds,
}
use operating_system.Vm.Pte.{leaf, leaf-v, leaf-u, pte_to_pa-leaf}
use operating_system.Vm.Tables.{Roles, Tables, Extends, px-lt}
use operating_system.Vm.Locate.{Walked, reached, exhausted, walk_tables-Walked, walk_tables-Located}
use operating_system.Vm.Leaf.{Maps, Maps-Extends, Tables-stored, Maps-self, Maps-other}

user_page-leaf :
    (pa perm : ℕ)
    → pa % page_size ≡ 0
    → pa < 2 ^ 64
    → perm < 1024
    → has perm pte_u ≡ true
    → user_page (leaf pa perm) ≡ pa
unfolding user_page
user_page-leaf pa perm al hp hf u =
    rw (leaf-v pa perm, leaf-u pa perm, u) (pte_to_pa-leaf pa perm al hp hf)

-- What `walkaddr` may return for the entry `e`: its page, when the entry is valid and for the user, and
-- else 0. The page is `e >> 10`, times the size of a page.
abbrev pub IsUserPage : (e pa : ℕ) → Type 0
IsUserPage e pa =
    ((has e pte_v ≡ true) × (has e pte_u ≡ true) × (pa ≡ e / 2 ^ 10 * page_size % 2 ^ 64))
    ⊎ (((has e pte_v ≡ false) ⊎ (has e pte_u ≡ false)) × (pa ≡ 0))

user_page-IsUserPage : (e : ℕ) → IsUserPage e (user_page e)
unfolding user_page pte_to_pa
user_page-IsUserPage e = elim (Bool-cases (has e pte_v)) [
  | inr off ↦ inr (inl off, rw off)
  | inl on ↦ elim (Bool-cases (has e pte_u)) [
    | inr off ↦ inr (inr off, rw (on, off))
    | inl user ↦ inl (on, user, rw (on, user))
  ]
]

module _ {B : Type 0} (touch : B → ℕ → ℕ → Run B) (Good : B → Type 0)
    (keep : (b : B) (pte t : ℕ) → Good b → (b' : B) × (touch b pte t ≡ ok b') × Good b') where
  -- The buffer of a state that is good.
  pub record IsState (s : Vm B) (g : Roles) (root : ℕ) : Type 0 where
    pub tables : Tables s.mem g
    pub root_rank : g.rank root ≡ 3
    pub good : Good s.buf

  -- Everything mapped at an address that `Away` allows is still mapped so.
  abbrev pub Keeps : (ℕ → Type 0) → Mem → Roles → Mem → Roles → ℕ → Type 0
  Keeps Away m g m' g' root =
      (va e : ℕ) → va < max_va → Away va → Maps m g root va e → Maps m' g' root va e

  -- The ways in which one round of `mappages` ends.
  pub data PageMapped (s : Vm B) (g : Roles) (root a e : ℕ) (r : Run (Bool × Vm B)) : Type 0 where
    mapped :
        (s' : Vm B) (g' : Roles)
        → r ≡ ok (true, s')
        → IsState s' g' root
        → Maps s'.mem g' root a e
        → Keeps (λ va. va / page_size ≢ a / page_size) s.mem g s'.mem g' root
        → PageMapped s g root a e r
    no_memory :
        (s' : Vm B) (g' : Roles)
        → r ≡ ok (false, s')
        → s'.mem.freelist ≡ 0
        → IsState s' g' root
        → Keeps (λ _. Unit {0}) s.mem g s'.mem g' root
        → PageMapped s g root a e r
    remap :
        (m' : Mem) (g' : Roles) (old : ℕ)
        → r ≡ panic
        → Extends s.mem g m' g'
        → Maps m' g' root a old
        → has old pte_v ≡ true
        → PageMapped s g root a e r

  pub map_page-PageMapped :
      {s : Vm B} {g : Roles} {root : ℕ} (a pa perm : ℕ)
      → IsState s g root
      → a < max_va
      → PageMapped s g root a (leaf pa perm) (map_page touch s root a pa perm)
  unfolding map_page walk walk_leaf set_pte
  map_page-PageMapped {s} {g} {root} a pa perm v h =
      cases (walk_tables-Walked a v.tables v.root_rank)
    where
      small : leb max_va a ≡ false
      small = ground arith

      cases :
          Walked s.mem g root a (walk_tables s.mem root a true)
          → PageMapped s g root a (leaf pa perm) (map_page touch s root a pa perm)
      cases (exhausted m' g' e none_free t x) =
          no_memory (record { mem = m'; buf = s.buf }) g' (rw (small, e)) none_free
            (record {
              tables = t;
              root_rank = x.ranks root (λ z. absurd (omega (arith, v.root_rank))) ∙ v.root_rank;
              good = v.good;
            })
            (λ va e' hv away p. Maps-Extends x p)
      cases (reached mid low m' g' e t x l) =
          let (b, touched, good) = keep s.buf (entry low 0 a) (m'.word (entry low 0 a)) v.good in
          elim (Bool-cases (has (m'.word (entry low 0 a)) pte_v)) [
            | inl used ↦
                remap m' g' (m'.word (entry low 0 a)) (rw (small, e, touched, used)) x
                  (record { mid = mid; low = low; located = l; holds = refl }) used
            | inr unused ↦
                mapped (set_pte (record { mem = m'; buf = b }) (entry low 0 a) (leaf pa perm)) g'
                  (rw (small, e, touched, unused))
                  (record {
                    tables =
                        Tables-stored m' g' low (px 0 a) (leaf pa perm) t l.low_rank (px-lt 0 a);
                    root_rank = l.root_rank;
                    good = good;
                  })
                  (Maps-self (leaf pa perm) t l)
                  (λ va e' hv away p. Maps-other (leaf pa perm) t l h hv away (Maps-Extends x p))
          ]

  -- `walkaddr` finds the entry that the tree has for the address.
  pub walkaddr_user :
      {s : Vm B} {g : Roles} {root va e : ℕ}
      → IsState s g root
      → va < max_va
      → Maps s.mem g root va e
      → (s' : Vm B) × (walkaddr touch s root va ≡ ok (user_page e, s'))
        × (s'.mem ≡ s.mem)
        × Good s'.buf
  unfolding walkaddr walk walk_leaf
  walkaddr_user {s} {root} {va} v h p =
      let (b, touched, good) =
        keep s.buf (entry p.low 0 va) (s.mem.word (entry p.low 0 va)) v.good in
      let small : leb max_va va ≡ false = ground arith in
      (
        record { mem = s.mem; buf = b },
        rw (small, walk_tables-Located p.located false, touched, p.holds),
        refl,
        good,
      )

  -- `walkaddr` at an address that the tree maps returns the page of its entry when the entry is valid and
  -- for the user, and 0 when it is not; and it changes no memory.
  pub walkaddr-Maps :
      {s : Vm B} {g : Roles} {root va e : ℕ}
      → IsState s g root
      → va < max_va
      → Maps s.mem g root va e
      → (pa : ℕ) × (s' : Vm B) × (walkaddr touch s root va ≡ ok (pa, s'))
        × IsUserPage e pa
        × (s'.mem ≡ s.mem)
        × Good s'.buf
  walkaddr-Maps {e = e} v h p =
      let (s', out, same, good) = walkaddr_user v h p in
      (user_page e, s', out, user_page-IsUserPage e, same, good)
