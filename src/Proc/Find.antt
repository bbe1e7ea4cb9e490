-- ===== src/Proc/Find.antt =====
-- What the tests on states say, and the search for a slot.
use operating_system.Common.{
  ℕ, zero, suc, ◌+◌, ◌<◌, ◌≡◌, refl, sym, ap, ◌∙◌, subst, inl, inr, true, Option, none, some, arith,
  ==_iff, ==_refl, Bool-cases,
}
use operating_system.Proc.{
  ProcState, unused, used, sleeping, runnable, running, zombie, Proc, is_unused, is_zombie,
  points_to, find_unused,
}

pub is_unused_lem : (s : ProcState) → is_unused s ≡ true → s ≡ unused
is_unused_lem unused h = refl
is_unused_lem used h = absurd (cc h)
is_unused_lem sleeping h = absurd (cc h)
is_unused_lem runnable h = absurd (cc h)
is_unused_lem running h = absurd (cc h)
is_unused_lem zombie h = absurd (cc h)

pub is_zombie_lem : (s : ProcState) → is_zombie s ≡ true → s ≡ zombie
is_zombie_lem zombie h = refl
is_zombie_lem unused h = absurd (cc h)
is_zombie_lem used h = absurd (cc h)
is_zombie_lem sleeping h = absurd (cc h)
is_zombie_lem runnable h = absurd (cc h)
is_zombie_lem running h = absurd (cc h)

pub points_to_lem : (o : Option ℕ) (p : ℕ) → points_to o p ≡ true → o ≡ some p
points_to_lem none p h = absurd (cc h)
points_to_lem (some q) p h = ap some ((==_iff q p).0 h)

pub points_to_refl : (p : ℕ) → points_to (some p) p ≡ true
points_to_refl p = ==_refl p

pub find_unused_lem :
    (n : ℕ) (slot : ℕ → Proc) (i p : ℕ)
    → find_unused n slot i ≡ some p
    → ((slot p).state ≡ unused) × (p < i + n)
unfolding find_unused
find_unused_lem zero slot i p e = absurd (cc e)
find_unused_lem (suc n) slot i p e = elim (Bool-cases (is_unused (slot i).state)) [
  | inl h ↦
      let here : find_unused (suc n) slot i ≡ some i = rw h in
      let same : i ≡ p = cc (here, e) in
      (subst (λ j. (slot j).state ≡ unused) same (is_unused_lem _ h), omega arith)
  | inr h ↦
      let later : find_unused (suc n) slot i ≡ find_unused n slot (i + 1) = rw h in
      let r : ((slot p).state ≡ unused) × (p < i + 1 + n) =
        find_unused_lem n slot (i + 1) p (sym later ∙ e) in
      (r.0, omega (arith, r.1))
]
