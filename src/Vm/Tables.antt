-- ===== src/Vm/Tables.antt =====
-- The shape of a tree of page tables in memory, and what a call of `walk` may do to it.
use operating_system.Common.{
  ℕ, suc, ◌+◌, ◌*◌, ◌%◌, ◌<◌, ◌≡◌, refl, ◌∙◌, ◌≢◌, true, Option, some, List, arith, ◌==◌,
  if◌then◌else◌, contains,
}
use operating_system.Memory.{page_size, phys_stop, Mem}
use operating_system.Memory.FreeList.{Free}
use operating_system.Vm.{has, pte_v, pte_to_pa, px}

-- What the pages are used for. `rank p` is 0 for a page that holds no table, and otherwise one more
-- than the level of its table; `owner p` is the address of the entry that points to the table.
pub record Roles : Type 0 where
  pub free : List ℕ
  pub rank : ℕ → ℕ
  pub owner : ℕ → ℕ

-- The entry at place `i` of a table.
abbrev pub slot : ℕ → ℕ → ℕ
slot p i = p + 8 * i

pub record Tables (m : Mem) (g : Roles) : Type 0 where
  pub chain : Free m g.free
  pub free_rank :
      (p : ℕ) → contains g.free p ≡ true → (g.rank p ≡ 0) × (p % page_size ≡ 0) × (p < phys_stop)
  pub aligned : (p : ℕ) → g.rank p ≢ 0 → p % page_size ≡ 0
  pub child :
      (p i k : ℕ)
      → g.rank p ≡ suc (suc k)
      → i < 512
      → has (m.word (slot p i)) pte_v ≡ true
      → (g.rank (pte_to_pa (m.word (slot p i))) ≡ suc k)
        × (g.owner (pte_to_pa (m.word (slot p i))) ≡ slot p i)

-- The tables and all their valid entries are still there, and so is every word of a last table.
pub record Extends (m : Mem) (g : Roles) (m' : Mem) (g' : Roles) : Type 0 where
  pub ranks : (p : ℕ) → g.rank p ≢ 0 → g'.rank p ≡ g.rank p
  pub entries :
      (p i : ℕ)
      → g.rank p ≢ 0
      → i < 512
      → has (m.word (slot p i)) pte_v ≡ true
      → m'.word (slot p i) ≡ m.word (slot p i)
  pub leaves : (p i : ℕ) → g.rank p ≡ 1 → i < 512 → m'.word (slot p i) ≡ m.word (slot p i)

pub Extends-refl : (m : Mem) (g : Roles) → Extends m g m g
Extends-refl m g = record {
  ranks = λ p h. refl;
  entries = λ p i h k v. refl;
  leaves = λ p i h k. refl;
}

pub Extends-trans :
    {a b c : Mem} {f g h : Roles} → Extends a f b g → Extends b g c h → Extends a f c h
Extends-trans {a} {b} {f} {g} x y = record {
  ranks = λ p r. y.ranks p (rw (x.ranks p r) r) ∙ x.ranks p r;
  entries = λ p i r k v.
      y.entries p i (rw (x.ranks p r) r) k (rw (x.entries p i r k v) v) ∙ x.entries p i r k v;
  leaves = λ p i r k. y.leaves p i (x.ranks p (omega arith) ∙ r) k ∙ x.leaves p i r k;
}

unfoldable pub update : {A : Type 0} → (ℕ → A) → ℕ → A → ℕ → A
update f p x q = if q == p then x else f q

-- Two slots of tables coincide only as the same slot of the same table.
pub slot-injective :
    (p q i j : ℕ)
    → p % page_size ≡ 0
    → q % page_size ≡ 0
    → i < 512
    → j < 512
    → slot p i ≡ slot q j
    → (p ≡ q) × (i ≡ j)
slot-injective p q i j hp hq hi hj e = (omega arith, omega arith)

pub px-lt : (level va : ℕ) → px level va < 512
unfolding px
px-lt level va = omega arith

-- The entry at place `i` of `table` is valid and points to `q`.
pub record Points (m : Mem) (table i q : ℕ) : Type 0 where
  pub valid : has (m.word (slot table i)) pte_v ≡ true
  pub target : pte_to_pa (m.word (slot table i)) ≡ q

pub Points-Extends :
    {m m' : Mem} {g g' : Roles} {table i q : ℕ}
    → Extends m g m' g'
    → g.rank table ≢ 0
    → i < 512
    → Points m table i q
    → Points m' table i q
Points-Extends {m} {m'} {table} {i} x r h p =
    let same : m'.word (slot table i) ≡ m.word (slot table i) = x.entries table i r h p.valid in
    record { valid = rw same p.valid; target = rw same p.target }

-- Success of one round: a tree that extends the old one, in which the entry leads to the result.
pub record Stepped (m : Mem) (g : Roles) (table i k : ℕ) (r : Option ℕ × Mem) : Type 0 where
  pub next : ℕ
  pub mem : Mem
  pub roles : Roles
  pub result : r ≡ (some next, mem)
  pub tables : Tables mem roles
  pub extends : Extends m g mem roles
  pub points : Points mem table i next
  pub rank : roles.rank next ≡ suc k
