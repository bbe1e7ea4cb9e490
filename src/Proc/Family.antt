-- ===== src/Proc/Family.antt =====
-- `exit` and `wait` on the table: parents, children, and who sleeps.
use operating_system.Common.{
  ℕ, zero, suc, ◌+◌, ◌≤◌, ◌<◌, ◌≡◌, refl, sym, ap, ap₂, ◌∙◌, subst, ◌≢◌, inl, inr, Bool, true, ◌&&◌,
  ◌||◌, Option, none, some, arith, ◌==◌, if◌then◌else◌, Bool-cases, Option-cases,
}
use operating_system.Proc.{
  sleeping, running, zombie, proc_chan, Proc, Kernel, nproc, is_zombie, points_to, put_proc, on_cpu,
  wakeup, reparent, reparent_loop,
}
use operating_system.Proc.Calls.{exit_zombie, wake_parent, child, no_zombie, scan}
use operating_system.Proc.Calm.{StaysOn, wakeup-Calm, and_left, and_right}
use operating_system.Proc.Find.{points_to_lem, points_to_refl, is_zombie_lem}
use operating_system.Proc.Table.{IsSound, put_proc-other, slot-cases}
use operating_system.Proc.Exit.{Passing, Passed, wakeup-Passed, same-Passed, reparent_loop-Passed}
use operating_system.Proc.Wake.{wakeup-awake}
use operating_system.Proc.Zombie.{zombie-IsSound}

pub on_cpu-IsSound : (k : Kernel) (c : ℕ) (o : Option ℕ) → IsSound k → IsSound (on_cpu k c o)
on_cpu-IsSound k c o s = record {
  no_others = s.no_others;
  children = s.children;
  parents = s.parents;
  init_live = s.init_live;
  nothing_lost = s.nothing_lost;
}

-- After `wakeup(p->parent)` the parent does not sleep in `wait`.
wake_parent-Passed :
    (p init : ℕ) (k : Kernel)
    → Passing p init k
    → Passed p init k (wake_parent k p)
      × ((x i : ℕ)
          → ((wake_parent k p).slot p).parent ≡ some x
          → ((wake_parent k p).slot i).state ≡ sleeping
          → ((wake_parent k p).slot i).chan ≢ proc_chan x)
wake_parent-Passed p init k h = elim (Option-cases (k.slot p).parent) [
  | inl e ↦
      let same : k ≡ wake_parent k p = rw (e, wake_parent) in
      subst
        (λ m.
          Passed p init k m
          × ((x i : ℕ)
              → (m.slot p).parent ≡ some x
              → (m.slot i).state ≡ sleeping
              → (m.slot i).chan ≢ proc_chan x))
        same (same-Passed p init k h, λ x i own. absurd (cc (e, own)))
  | inr (x, e) ↦
      let k₁ : Kernel = wakeup k (some p) (proc_chan x) in
      let w : Passed p init k k₁ = wakeup-Passed p init k (proc_chan x) h in
      let same : k₁ ≡ wake_parent k p = rw (e, wake_parent) in
      subst
        (λ m.
          Passed p init k m
          × ((x i : ℕ)
              → (m.slot p).parent ≡ some x
              → (m.slot i).state ≡ sleeping
              → (m.slot i).chan ≢ proc_chan x))
        same
        (
          w,
          λ y i own asleep chan. wakeup-awake k p x i h.on asleep (
              chan
              ∙ ap proc_chan (heir x y e ((wakeup-Calm k (some p) (proc_chan x) p).child y own))),
        )
]
  where
    heir : (x y : ℕ) → (k.slot p).parent ≡ some x → (k.slot p).parent ≡ some y → y ≡ x
    heir x y a b = cc (a, b)

-- What a step of the running process `p` on CPU `c` does when the process leaves the CPU.
pub record Leaves (c p : ℕ) (k k' : Kernel) : Type 0 where
  pub sound : IsSound k'
  pub others_stay : (i : ℕ) → i ≢ p → StaysOn i (k.slot i) (k'.slot i)
  pub cpus : (d : ℕ) → k'.cpu d ≡ (if d == c then none else k.cpu d)

pub exit_zombie-Leaves :
    (k : Kernel) (c p status : ℕ)
    → IsSound k
    → (k.slot p).state ≡ running
    → p ≢ k.initproc
    → Leaves c p k (exit_zombie k c p status)
unfolding exit_zombie reparent
exit_zombie-Leaves k c p status s on last =
    let init : ℕ = k.initproc in
    let k₁ : Kernel = reparent_loop nproc k p 0 in
    let (a, gone) =
      reparent_loop-Passed nproc p init k 0 last (record { sound = s; on = on; the_init = refl }) in
    let (b, awake) = wake_parent-Passed p init k₁ a.passing in
    let k₂ : Kernel = wake_parent k₁ p in
    let q : Proc = record (k₂.slot p) { xstate = status; state = zombie } in
    record {
      sound = on_cpu-IsSound (put_proc k₂ p q) c none (
          zombie-IsSound k₂ p q b.passing.sound b.passing.on refl refl
            (λ e. last (e ∙ b.passing.the_init))
            (λ j n e. elim (b.kept j p e) [ inl e' ↦ gone j (omega arith) n e' | inr at ↦ last at ])
            awake);
      others_stay =
          λ i ne h. ap (λ r. r.state) (put_proc-other k₂ p q i ne) ∙ b.stay i (a.stay i h);
      cpus = λ d. ap (λ f. if d == c then none else f d) (b.same_cpus ∙ a.same_cpus);
    }

-- What the loop of `wait` finds: a child that has ended, or that there is none.
pub scan-child :
    (n : ℕ) (slot : ℕ → Proc) (p i : ℕ) (b : Bool) (np : ℕ)
    → scan n slot p i b ≡ child np
    → ((slot np).parent ≡ some p) × ((slot np).state ≡ zombie)
unfolding scan
scan-child zero slot p i b np e = absurd (cc e)
scan-child (suc n) slot p i b np e =
    let hit : Bool = points_to (slot i).parent p && is_zombie (slot i).state in
    elim (Bool-cases hit) [
      | inl h ↦
          let here : scan (suc n) slot p i b ≡ child i = rw h in
          let same : i ≡ np = cc (here, e) in
          subst (λ j. ((slot j).parent ≡ some p) × ((slot j).state ≡ zombie)) same
            (points_to_lem _ p (and_left _ _ h), is_zombie_lem _ (and_right _ _ h))
      | inr h ↦
          let later : scan (suc n) slot p i b
              ≡ scan n slot p (i + 1) (b || points_to (slot i).parent p) =
            rw h in
          scan-child n slot p (i + 1) _ np (sym later ∙ e)
    ]

pub scan-no_zombie :
    (n : ℕ) (slot : ℕ → Proc) (p i : ℕ) (b havekids : Bool)
    → scan n slot p i b ≡ no_zombie havekids
    → (z : ℕ) → i ≤ z
    → z < i + n
    → (slot z).parent ≡ some p
    → (slot z).state ≢ zombie
unfolding scan
scan-no_zombie zero slot p i b havekids e z lo hi mine dead = absurd (omega arith)
scan-no_zombie (suc n) slot p i b havekids e z lo hi mine dead =
    let hit : Bool = points_to (slot i).parent p && is_zombie (slot i).state in
    elim (Bool-cases hit) [
      | inl h ↦ let here : scan (suc n) slot p i b ≡ child i = rw h in cc (here, e)
      | inr h ↦
          let later : scan (suc n) slot p i b
              ≡ scan n slot p (i + 1) (b || points_to (slot i).parent p) =
            rw h in
          elim (slot-cases z i) [
            | inl at ↦
                let m : points_to (slot i).parent p ≡ true =
                  ap (λ j. points_to (slot j).parent p) (sym at)
                  ∙ ap (λ o. points_to o p) mine
                  ∙ points_to_refl p in
                let d : is_zombie (slot i).state ≡ true =
                  ap (λ j. is_zombie (slot j).state) (sym at) ∙ ap is_zombie dead in
                let found : hit ≡ true = ap₂ (λ x y. x && y) m d in cc (found, h)
            | inr ne ↦
                scan-no_zombie n slot p (i + 1) _ havekids (sym later ∙ e) z (omega arith)
                  (omega arith) mine dead
          ]
    ]
