-- ===== src/Vm/Locate.antt =====
-- Where a virtual address leads: the tables on its way, as the loop of `walk` finds them.
use operating_system.Common.{
  ℕ, suc, ◌/◌, ◌%◌, ◌<◌, ◌≡◌, sym, ap, ◌∙◌, ◌≢◌, ◌⊎◌, inl, inr, Bool, true, Option, none, some,
  arith,
}
use operating_system.Memory.{page_size, Mem}
use operating_system.Vm.{px, max_va, walk_step, walk_tables, entry}
use operating_system.Vm.Tables.{
  Roles, Tables, Points, Points-Extends, Extends, Extends-refl, Extends-trans, Stepped, slot,
  slot-injective, px-lt,
}
use operating_system.Vm.Walk.{step_alloc}

-- From `root` the valid entries for `va` lead through `mid` to the last table `low`.
pub record Located (m : Mem) (g : Roles) (root va mid low : ℕ) : Type 0 where
  pub root_rank : g.rank root ≡ 3
  pub mid_rank : g.rank mid ≡ 2
  pub low_rank : g.rank low ≡ 1
  pub upper : Points m root (px 2 va) mid
  pub lower : Points m mid (px 1 va) low

pub Located-Extends :
    {m m' : Mem} {g g' : Roles} {root va mid low : ℕ}
    → Extends m g m' g'
    → Located m g root va mid low
    → Located m' g' root va mid low
Located-Extends {root} {va} {mid} {low} x l = record {
  root_rank = x.ranks root (ne l.root_rank) ∙ l.root_rank;
  mid_rank = x.ranks mid (ne l.mid_rank) ∙ l.mid_rank;
  low_rank = x.ranks low (ne l.low_rank) ∙ l.low_rank;
  upper = Points-Extends x (ne l.root_rank) (px-lt 2 va) l.upper;
  lower = Points-Extends x (ne l.mid_rank) (px-lt 1 va) l.lower;
}
  where
    ne : {n k : ℕ} → n ≡ suc k → n ≢ 0
    ne e z = absurd (omega arith)

step-Points :
    {m : Mem} (table va level : ℕ) {q : ℕ}
    → Points m table (px level va) q
    → (alloc : Bool) → walk_step m table va level alloc ≡ (some q, m)
unfolding walk_step
step-Points table va level p alloc = rw (p.valid, p.target)

-- Where the tables are there, the loop finds them, whether or not it may allocate, and changes
-- nothing.
pub walk_tables-Located :
    {m : Mem} {g : Roles} {root va mid low : ℕ}
    → Located m g root va mid low
    → (alloc : Bool) → walk_tables m root va alloc ≡ (some low, m)
unfolding walk_tables
walk_tables-Located {m} {root} {va} {mid} l alloc =
    rw (step-Points {m = m} root va 2 l.upper alloc, step-Points {m = m} mid va 1 l.lower alloc)

-- What the loop does when it may allocate: it finds the last table in a tree that extends the old
-- one, or it runs out of pages and returns 0, with a tree that extends the old one all the same.
pub data Walked (m : Mem) (g : Roles) (root va : ℕ) (r : Option ℕ × Mem) : Type 0 where
  reached :
      (mid low : ℕ) (m' : Mem) (g' : Roles)
      → r ≡ (some low, m')
      → Tables m' g'
      → Extends m g m' g'
      → Located m' g' root va mid low
      → Walked m g root va r
  exhausted :
      (m' : Mem) (g' : Roles)
      → r ≡ (none, m')
      → m'.freelist ≡ 0
      → Tables m' g'
      → Extends m g m' g'
      → Walked m g root va r

-- On a well-formed tree the loop of `walk`, allowing allocation, finds the last table for the address in
-- a well-formed tree that extends the old one; or it returns 0, with such a tree all the same, and then
-- no page is free any more.
pub walk_tables-Walked :
    {m : Mem} {g : Roles} {root : ℕ} (va : ℕ)
    → Tables m g
    → g.rank root ≡ 3
    → Walked m g root va (walk_tables m root va true)
unfolding walk_tables
walk_tables-Walked {m} {g} {root} va t r = elim (step_alloc t r va 2) [
  | inl e ↦ exhausted m g (rw (e.0)) e.1 t (Extends-refl m g)
  | inr s ↦ second s (step_alloc s.tables s.rank va 1)
]
  where
    second :
        (s : Stepped m g root (px 2 va) 1 (walk_step m root va 2 true))
        → ((walk_step s.mem s.next va 1 true ≡ (none, s.mem)) × (s.mem.freelist ≡ 0))
          ⊎ Stepped s.mem s.roles s.next (px 1 va) 0 (walk_step s.mem s.next va 1 true)
        → Walked m g root va (walk_tables m root va true)
    second s (inl e) = exhausted s.mem s.roles (rw (s.result, e.0)) e.1 s.tables s.extends
    second s (inr u) =
        reached s.next u.next u.mem u.roles (rw (s.result, u.result)) u.tables
          (Extends-trans s.extends u.extends)
          (record {
            root_rank = keep root (s.extends.ranks root (omega arith) ∙ r);
            mid_rank = keep s.next s.rank;
            low_rank = u.rank;
            upper =
                Points-Extends u.extends
                  (λ z. absurd (omega (arith, s.extends.ranks root (omega arith)))) (px-lt 2 va)
                  s.points;
            lower = u.points;
          })
      where
        keep : {n : ℕ} (p : ℕ) → s.roles.rank p ≡ suc n → u.roles.rank p ≡ suc n
        keep p e = u.extends.ranks p (λ z. absurd (omega arith)) ∙ e

owner-Points :
    {m : Mem} {g : Roles} {p i q k : ℕ}
    → Tables m g
    → g.rank p ≡ suc (suc k)
    → i < 512
    → Points m p i q
    → g.owner q ≡ slot p i
owner-Points {g} {p} {i} {k} t r h pt = ap g.owner (sym pt.target) ∙ (t.child p i k r h pt.valid).1

-- In a well-formed tree two addresses share their last entry only if they lie in the same page.
pub Located-injective :
    {m : Mem} {g : Roles} {root va va' mid mid' low low' : ℕ}
    → Tables m g
    → Located m g root va mid low
    → Located m g root va' mid' low'
    → va < max_va
    → va' < max_va
    → entry low 0 va ≡ entry low' 0 va'
    → va / page_size ≡ va' / page_size
unfolding px
Located-injective {m} {g} {root} {va} {va'} {mid} {mid'} {low} {low'} t l l' h h' e =
    let al : low % page_size ≡ 0 = t.aligned low (λ z. absurd (omega (arith, l.low_rank))) in
    let al' : low' % page_size ≡ 0 = t.aligned low' (λ z. absurd (omega (arith, l'.low_rank))) in
    let am : mid % page_size ≡ 0 = t.aligned mid (λ z. absurd (omega (arith, l.mid_rank))) in
    let am' : mid' % page_size ≡ 0 = t.aligned mid' (λ z. absurd (omega (arith, l'.mid_rank))) in
    let ar : root % page_size ≡ 0 = t.aligned root (λ z. absurd (omega (arith, l.root_rank))) in
    let (same_low, i₀) =
      slot-injective low low' (px 0 va) (px 0 va') al al' (px-lt 0 va) (px-lt 0 va') e in
    let (same_mid, i₁) =
      slot-injective mid mid' (px 1 va) (px 1 va') am am' (px-lt 1 va) (px-lt 1 va') (
        sym (owner-Points t l.mid_rank (px-lt 1 va) l.lower)
        ∙ ap g.owner same_low
        ∙ owner-Points t l'.mid_rank (px-lt 1 va') l'.lower) in
    let (_, i₂) = slot-injective root root (px 2 va) (px 2 va') ar ar (px-lt 2 va) (px-lt 2 va') (
      sym (owner-Points t l.root_rank (px-lt 2 va) l.upper)
      ∙ ap g.owner same_mid
      ∙ owner-Points t l'.root_rank (px-lt 2 va') l'.upper) in
    omega arith
