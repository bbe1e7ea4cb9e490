-- ===== src/Proc/Table.antt =====
-- What holds of the process table and the CPUs after every step.
use operating_system.Common.{
  ℕ, ◌≤◌, ◌<◌, ◌≡◌, refl, sym, ap, ◌∙◌, subst, ◌≢◌, ◌⊎◌, inl, inr, true, false, some, arith, ltb,
  ◌==◌, ltb→lt, ==_iff, ==_refl, Bool-cases,
}
use operating_system.Proc.{unused, used, sleeping, zombie, proc_chan, Proc, Kernel, nproc, put_proc}
use operating_system.Proc.Calls.{fork_adopt}
use operating_system.Proc.Calm.{is_live, AllCalm, put_proc-each}

-- Only slots of the table hold processes and have parents; a parent is a process that can run now or
-- later, and so is the first process; a process that sleeps in `wait` has no child that has ended.
pub record IsSound (k : Kernel) : Type 0 where
  pub no_others : (i : ℕ) → nproc ≤ i → (k.slot i).state ≡ unused
  pub children : (i x : ℕ) → (k.slot i).parent ≡ some x → i < nproc
  pub parents : (i x : ℕ) → (k.slot i).parent ≡ some x → is_live (k.slot x).state ≡ true
  pub init_live : is_live (k.slot k.initproc).state ≡ true
  pub nothing_lost :
      (i x z : ℕ)
      → (k.slot i).state ≡ sleeping
      → (k.slot i).chan ≡ proc_chan x
      → (k.slot z).parent ≡ some x
      → (k.slot z).state ≢ zombie

pub calm-IsSound :
    (k k' : Kernel) → AllCalm k k' → k'.initproc ≡ k.initproc → IsSound k → IsSound k'
calm-IsSound k k' calm init s = record {
  no_others = λ i n. (calm i).outside n (s.no_others i n);
  children = λ i x h. s.children i x ((calm i).child x h);
  parents = λ i x h. (calm x).live (s.parents i x ((calm i).child x h));
  init_live =
      subst (λ j. is_live (k'.slot j).state ≡ true) (sym init) ((calm k.initproc).live s.init_live);
  nothing_lost = λ i x z h c p dead.
      let w : ((k.slot i).state ≡ sleeping) × ((k.slot i).chan ≡ proc_chan x) =
        (calm i).in_wait x h c in
      s.nothing_lost i x z w.0 w.1 ((calm z).child x p) ((calm z).dead dead);
}

-- At the slot that is changed, and at another one.
pub put_proc_self : (k : Kernel) (p : ℕ) (q : Proc) → (put_proc k p q).slot p ≡ q
put_proc_self k p q = rw (==_refl p)

pub put_proc-other :
    (k : Kernel) (p : ℕ) (q : Proc) (i : ℕ) → i ≢ p → (put_proc k p q).slot i ≡ k.slot i
put_proc-other k p q i ne = let other : (i == p) ≡ false = ground arith in rw other

pub slot-cases : (i p : ℕ) → (i ≡ p) ⊎ (i ≢ p)
slot-cases i p = elim (Bool-cases (i == p)) [
  | inl h ↦ inl ((==_iff i p).0 h)
  | inr h ↦ inr (λ e. let same : (i == p) ≡ true = (==_iff i p).1 e in cc (same, h))
]

-- `k'` is `k` but for the parent of slot `z`, which is `x`.
pub record IsGiven (z x : ℕ) (k k' : Kernel) : Type 0 where
  pub same_state : (i : ℕ) → (k'.slot i).state ≡ (k.slot i).state
  pub same_sleep : (i : ℕ) → (k'.slot i).chan ≡ (k.slot i).chan
  pub others : (i : ℕ) → i ≢ z → (k'.slot i).parent ≡ (k.slot i).parent
  pub given : (k'.slot z).parent ≡ some x
  pub same_init : k'.initproc ≡ k.initproc

pub given-IsSound :
    (z x : ℕ) (k k' : Kernel)
    → z < nproc
    → is_live (k.slot x).state ≡ true
    → ((k.slot z).state ≡ zombie
        → (i : ℕ) → (k.slot i).state ≡ sleeping
        → (k.slot i).chan ≢ proc_chan x)
    → IsGiven z x k k'
    → IsSound k
    → IsSound k'
given-IsSound z x k k' in_table can_run awake g s = record {
  no_others = λ i n. g.same_state i ∙ s.no_others i n;
  children = λ i y h. elim (slot-cases i z) [
    | inl e ↦ subst (λ j. j < nproc) (sym e) in_table
    | inr ne ↦ s.children i y (sym (g.others i ne) ∙ h)
  ];
  parents = λ i y h. ap is_live (g.same_state y) ∙ elim (slot-cases i z) [
    | inl e ↦ subst (λ v. is_live (k.slot v).state ≡ true) (adopted i y e h) can_run
    | inr ne ↦ s.parents i y (sym (g.others i ne) ∙ h)
  ];
  init_live =
      ap is_live (ap (λ j. (k'.slot j).state) g.same_init ∙ g.same_state k.initproc) ∙ s.init_live;
  nothing_lost = λ i y j h c p dead. elim (slot-cases j z) [
    | inl e ↦
        let same : x ≡ y = adopted j y e p in
        awake (sym (g.same_state z) ∙ ap (λ v. (k'.slot v).state) (sym e) ∙ dead) i
          (sym (g.same_state i) ∙ h) (sym (g.same_sleep i) ∙ c ∙ ap proc_chan (sym same))
    | inr ne ↦
        s.nothing_lost i y j (sym (g.same_state i) ∙ h) (sym (g.same_sleep i) ∙ c)
          (sym (g.others j ne) ∙ p) (sym (g.same_state j) ∙ dead)
  ];
}
  where
    adopted : (i y : ℕ) → i ≡ z → (k'.slot i).parent ≡ some y → x ≡ y
    adopted i y e h =
        let own : (k'.slot i).parent ≡ some x = ap (λ j. (k'.slot j).parent) e ∙ g.given in
        cc (own, h)

-- `fork` makes the running process `p` the parent of a new one.
pub fork_adopt-IsSound :
    (k : Kernel) (p np : ℕ)
    → is_live (k.slot p).state ≡ true
    → (k.slot np).state ≡ used
    → IsSound k
    → IsSound (fork_adopt k p np)
unfolding fork_adopt
fork_adopt-IsSound k p np can_run new s =
    given-IsSound np p k _ in_table can_run (λ dead. absurd (cc (new, dead)))
      (record {
        same_state = put_proc-each (λ i q q'. q'.state ≡ q.state) k np _ (λ i r. refl) refl;
        same_sleep = put_proc-each (λ i q q'. q'.chan ≡ q.chan) k np _ (λ i r. refl) refl;
        others = λ i ne. ap (λ q. q.parent) (put_proc-other k np _ i ne);
        given = ap (λ q. q.parent) (put_proc_self k np _);
        same_init = refl;
      })
      s
  where
    in_table : np < nproc
    in_table = elim (Bool-cases (ltb np nproc)) [
      | inl h ↦ ltb→lt np nproc h
      | inr h ↦ absurd (cc (new, s.no_others np (ground arith)))
    ]
