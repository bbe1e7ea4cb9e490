-- ===== src/Proc/Exit.antt =====
-- The end of `exit`: the children go to the first process, and nobody sleeps on through it.
use operating_system.Common.{
  ℕ, zero, suc, ◌+◌, ◌≤◌, ◌<◌, ◌≡◌, refl, sym, ap, ◌∙◌, subst, ◌≢◌, ◌⊎◌, inl, inr, true, Option,
  some, arith, if◌then◌else◌, Bool-cases,
}
use operating_system.Proc.{
  running, Chan, proc_chan, Proc, Kernel, points_to, put_proc, wakeup, reparent_loop,
}
use operating_system.Proc.Calm.{is_live, StaysOn, put_proc-each, wakeup-Calm}
use operating_system.Proc.Find.{points_to_lem, points_to_refl}
use operating_system.Proc.Table.{
  IsSound, calm-IsSound, IsGiven, given-IsSound, put_proc_self, put_proc-other, slot-cases,
}
use operating_system.Proc.Wake.{wake, wake-parent, wakeup-StaysOn, wakeup-awake}

-- The state of the loop of `reparent` by the running process `p`.
pub record Passing (p init : ℕ) (k : Kernel) : Type 0 where
  pub sound : IsSound k
  pub on : (k.slot p).state ≡ running
  pub the_init : k.initproc ≡ init

-- A round, and what it leaves of the parents.
pub record Passed (p init : ℕ) (k k' : Kernel) : Type 0 where
  pub passing : Passing p init k'
  pub same_cpus : k'.cpu ≡ k.cpu
  pub stay : (i : ℕ) → StaysOn i (k.slot i) (k'.slot i)
  pub kept : (i x : ℕ) → (k'.slot i).parent ≡ some x → ((k.slot i).parent ≡ some x) ⊎ (x ≡ init)

abbrev round : Kernel → (p i : ℕ) → Kernel
round k p i =
    if points_to (k.slot i).parent p
    then wakeup (put_proc k i (record (k.slot i) { parent = some k.initproc })) (some p)
        (proc_chan k.initproc)
    else k

round-IsGiven :
    (k : Kernel) (p i : ℕ)
    → IsGiven i k.initproc (wakeup k (some p) (proc_chan k.initproc)) (
        wakeup
          (put_proc k i (record (k.slot i) { parent = some k.initproc }))
          (some p)
          (proc_chan k.initproc))
unfolding wakeup
round-IsGiven k p i =
    let w : ℕ → Proc → Proc = wake (some p) (proc_chan k.initproc) in
    let q : Proc = record (k.slot i) { parent = some k.initproc } in
    record {
      same_state =
          put_proc-each (λ j r r'. (w j r').state ≡ (w j r).state) k i q (λ j r. refl)
            (wake-parent (some p) (proc_chan k.initproc) i (k.slot i) (some k.initproc)).0;
      same_sleep =
          put_proc-each (λ j r r'. (w j r').chan ≡ (w j r).chan) k i q (λ j r. refl)
            (wake-parent (some p) (proc_chan k.initproc) i (k.slot i) (some k.initproc)).1;
      others = λ j ne. ap (λ r. (w j r).parent) (put_proc-other k i q j ne);
      given =
          ap (λ r. (w i r).parent) (put_proc_self k i q)
          ∙ (wake-parent (some p) (proc_chan k.initproc) i (k.slot i) (some k.initproc)).2;
      same_init = refl;
    }

pub wakeup-initproc :
    (k : Kernel) (self : Option ℕ) (chan : Chan)
    → ((wakeup k self chan).initproc ≡ k.initproc) × ((wakeup k self chan).cpu ≡ k.cpu)
unfolding wakeup
wakeup-initproc k self chan = (refl, refl)

-- `wakeup` by the running process `p`.
pub wakeup-Passed :
    (p init : ℕ) (k : Kernel) (chan : Chan)
    → Passing p init k
    → Passed p init k (wakeup k (some p) chan)
wakeup-Passed p init k chan h = record {
  passing = record {
    sound =
        calm-IsSound k _ (wakeup-Calm k (some p) chan) (wakeup-initproc k (some p) chan).0 h.sound;
    on = wakeup-StaysOn k (some p) chan p h.on;
    the_init = (wakeup-initproc k (some p) chan).0 ∙ h.the_init;
  };
  same_cpus = (wakeup-initproc k (some p) chan).1;
  stay = wakeup-StaysOn k (some p) chan;
  kept = λ i x e. inl ((wakeup-Calm k (some p) chan i).child x e);
}

-- The round with a child of `p` in slot `i`.
hand_over-Passed :
    (p init : ℕ) (k : Kernel) (i : ℕ)
    → (k.slot i).parent ≡ some p
    → Passing p init k
    → Passed p init k (
        wakeup
          (put_proc k i (record (k.slot i) { parent = some k.initproc }))
          (some p)
          (proc_chan k.initproc))
hand_over-Passed p init k i mine h =
    let q : Proc = record (k.slot i) { parent = some k.initproc } in
    let k₁ : Kernel = wakeup k (some p) (proc_chan k.initproc) in
    let w : Passed p init k k₁ = wakeup-Passed p init k (proc_chan k.initproc) h in
    let g : IsGiven i k.initproc k₁ (wakeup (put_proc k i q) (some p) (proc_chan k.initproc)) =
      round-IsGiven k p i in
    record {
      passing = record {
        sound =
            given-IsSound i k.initproc k₁ _ (h.sound.children i p mine)
              (subst (λ j. is_live (k₁.slot j).state ≡ true) (w.passing.the_init ∙ sym h.the_init)
                w.passing.sound.init_live)
              (λ _ j. wakeup-awake k p k.initproc j h.on) g w.passing.sound;
        on = g.same_state p ∙ w.passing.on;
        the_init = g.same_init ∙ w.passing.the_init;
      };
      same_cpus = (wakeup-initproc (put_proc k i q) (some p) (proc_chan k.initproc)).1;
      stay = λ j on. g.same_state j ∙ w.stay j on;
      kept = λ j x e. elim (slot-cases j i) [
        | inl at ↦
            let own : (((wakeup (put_proc k i q) (some p) (proc_chan k.initproc)).slot j).parent)
                ≡ some k.initproc =
              ap (λ v. ((wakeup (put_proc k i q) (some p) (proc_chan k.initproc)).slot v).parent) at
              ∙ g.given in
            let same : x ≡ k.initproc = cc (own, e) in inr (same ∙ h.the_init)
        | inr ne ↦ w.kept j x (sym (g.others j ne) ∙ e)
      ];
    }

pub same-Passed : (p init : ℕ) (k : Kernel) → Passing p init k → Passed p init k k
same-Passed p init k h = record {
  passing = h;
  same_cpus = refl;
  stay = λ i on. on;
  kept = λ i x e. inl e;
}

pub trans-Passed :
    (p init : ℕ) (k l m : Kernel) → Passed p init k l → Passed p init l m → Passed p init k m
trans-Passed p init k l m a b = record {
  passing = b.passing;
  same_cpus = b.same_cpus ∙ a.same_cpus;
  stay = λ i on. b.stay i (a.stay i on);
  kept = λ i x e. elim (b.kept i x e) [ inl e' ↦ a.kept i x e' | inr at ↦ inr at ];
}

round-Passed :
    (p init : ℕ) (k : Kernel) (i : ℕ)
    → p ≢ init
    → Passing p init k
    → Passed p init k (round k p i) × (((round k p i).slot i).parent ≢ some p)
round-Passed p init k i last h = elim (Bool-cases (points_to (k.slot i).parent p)) [
  | inl t ↦
      let mine : (k.slot i).parent ≡ some p = points_to_lem _ p t in
      let g : Passed p init k (round k p i) = rw t (hand_over-Passed p init k i mine h) in
      let given : ((round k p i).slot i).parent ≡ some k.initproc =
        rw t (round-IsGiven k p i).given in
      (g, λ e. let same : p ≡ k.initproc = cc (given, e) in last (same ∙ h.the_init))
  | inr t ↦
      let same : round k p i ≡ k = rw t in
      let not_mine : (k.slot i).parent ≢ some p = λ e.
        let hit : points_to (k.slot i).parent p ≡ true =
          ap (λ o. points_to o p) e ∙ points_to_refl p in
        cc (hit, t) in
      (
        subst (λ m. Passed p init k m) (sym same) (same-Passed p init k h),
        λ e. not_mine (sym (ap (λ m. (m.slot i).parent) same) ∙ e),
      )
]

pub reparent_loop-Passed :
    (n p init : ℕ) (k : Kernel) (i : ℕ)
    → p ≢ init
    → Passing p init k
    → Passed p init k (reparent_loop n k p i)
      × ((j : ℕ) → i ≤ j → j < i + n → ((reparent_loop n k p i).slot j).parent ≢ some p)
unfolding reparent_loop wakeup
reparent_loop-Passed zero p init k i last h =
    (same-Passed p init k h, λ j lo hi. absurd (omega arith))
reparent_loop-Passed (suc n) p init k i last h =
    let (one, gone) = round-Passed p init k i last h in
    let (rest, others) = reparent_loop-Passed n p init (round k p i) (i + 1) last one.passing in
    (
      trans-Passed p init k (round k p i) _ one rest,
      λ j lo hi e. elim (slot-cases j i) [
        | inl at ↦ elim (rest.kept j p e) [
          | inl e' ↦ gone (sym (ap (λ v. ((round k p i).slot v).parent) at) ∙ e')
          | inr same ↦ last same
        ]
        | inr ne ↦ others j (omega arith) (omega arith) e
      ],
    )
