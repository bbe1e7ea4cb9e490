-- ===== src/Proc/Zombie.antt =====
-- The end of `exit`, and the sleep in `wait`.
use operating_system.Common.{ℕ, ◌≤◌, ◌<◌, ◌≡◌, refl, sym, ap, ◌∙◌, ◌≢◌, inl, inr, true, some, arith}
use operating_system.Proc.{
  unused, sleeping, running, zombie, proc_chan, Proc, Kernel, nproc, put_proc,
}
use operating_system.Proc.Calm.{is_live, put_proc-each}
use operating_system.Proc.Table.{IsSound, put_proc_self, put_proc-other, slot-cases}

-- The running process `p` becomes a ZOMBIE, or sleeps: no other slot changes.
module _ (k : Kernel) (p : ℕ) (q : Proc) (s : IsSound k) (on : (k.slot p).state ≡ running)
    (kin : q.parent ≡ (k.slot p).parent) where
  abbrev left : Kernel
  left = put_proc k p q

  left-parent : (i : ℕ) → (left.slot i).parent ≡ (k.slot i).parent
  left-parent = put_proc-each (λ i r r'. r'.parent ≡ r.parent) k p q (λ i r. refl) kin

  left-no_others : (i : ℕ) → nproc ≤ i → (left.slot i).state ≡ unused
  left-no_others i n = elim (slot-cases i p) [
    | inl e ↦
        let off : (k.slot p).state ≡ unused = s.no_others p (omega arith) in absurd (cc (on, off))
    | inr ne ↦ ap (λ r. r.state) (put_proc-other k p q i ne) ∙ s.no_others i n
  ]

  left-live : (i : ℕ) → i ≢ p → is_live (k.slot i).state ≡ true → is_live (left.slot i).state ≡ true
  left-live i ne h = ap (λ r. is_live r.state) (put_proc-other k p q i ne) ∙ h

  pub zombie-IsSound :
      q.state ≡ zombie
      → p ≢ k.initproc
      → ((j : ℕ) → j < nproc → (k.slot j).parent ≢ some p)
      → ((x i : ℕ)
          → (k.slot p).parent ≡ some x
          → (k.slot i).state ≡ sleeping
          → (k.slot i).chan ≢ proc_chan x)
      → IsSound left
  zombie-IsSound dead last childless awake = record {
    no_others = left-no_others;
    children = λ i x h. s.children i x (sym (left-parent i) ∙ h);
    parents = λ i x h.
        let h' : (k.slot i).parent ≡ some x = sym (left-parent i) ∙ h in
        left-live x (λ e. childless i (s.children i x h') (h' ∙ ap some e)) (s.parents i x h');
    init_live = left-live k.initproc (λ e. last (sym e)) s.init_live;
    nothing_lost = λ i x z h c kid gone.
        let kid' : (k.slot z).parent ≡ some x = sym (left-parent z) ∙ kid in
        let ne : i ≢ p = λ e.
          let z' : (left.slot i).state ≡ zombie =
            ap (λ j. (left.slot j).state) e ∙ ap (λ r. r.state) (put_proc_self k p q) ∙ dead in
          cc (z', h) in
        let same : left.slot i ≡ k.slot i = put_proc-other k p q i ne in
        let h' : (k.slot i).state ≡ sleeping = sym (ap (λ r. r.state) same) ∙ h in
        let c' : (k.slot i).chan ≡ proc_chan x = sym (ap (λ r. r.chan) same) ∙ c in
        elim (slot-cases z p) [
          | inl e ↦ awake x i (sym (ap (λ j. (k.slot j).parent) e) ∙ kid') h' c'
          | inr ne' ↦
              s.nothing_lost i x z h' c' kid'
                (sym (ap (λ r. r.state) (put_proc-other k p q z ne')) ∙ gone)
        ];
  }

  pub sleep-IsSound :
      q.state ≡ sleeping
      → q.chan ≡ proc_chan p
      → ((z : ℕ) → z < nproc → (k.slot z).parent ≡ some p → (k.slot z).state ≢ zombie)
      → IsSound left
  sleep-IsSound asleep chan none_dead = record {
    no_others = left-no_others;
    children = λ i x h. s.children i x (sym (left-parent i) ∙ h);
    parents = λ i x h. stays x (s.parents i x (sym (left-parent i) ∙ h));
    init_live = stays k.initproc s.init_live;
    nothing_lost = λ i x z h c kid gone.
        let kid' : (k.slot z).parent ≡ some x = sym (left-parent z) ∙ kid in
        let ne : z ≢ p = λ e.
          let up : (left.slot z).state ≡ sleeping =
            ap (λ j. (left.slot j).state) e ∙ ap (λ r. r.state) (put_proc_self k p q) ∙ asleep in
          cc (up, gone) in
        let gone' : (k.slot z).state ≡ zombie =
          sym (ap (λ r. r.state) (put_proc-other k p q z ne)) ∙ gone in
        elim (slot-cases i p) [
          | inl e ↦
              let own : (left.slot i).chan ≡ proc_chan p =
                ap (λ j. (left.slot j).chan) e ∙ ap (λ r. r.chan) (put_proc_self k p q) ∙ chan in
              let same : x ≡ p = cc (own, c) in
              none_dead z (s.children z x kid') (kid' ∙ ap some same) gone'
          | inr ne' ↦
              let same : left.slot i ≡ k.slot i = put_proc-other k p q i ne' in
              s.nothing_lost i x z (sym (ap (λ r. r.state) same) ∙ h)
                (sym (ap (λ r. r.chan) same) ∙ c) kid' gone'
        ];
  }
    where
      stays : (i : ℕ) → is_live (k.slot i).state ≡ true → is_live (left.slot i).state ≡ true
      stays i h = elim (slot-cases i p) [
        | inl e ↦
            ap (λ j. is_live (left.slot j).state) e
            ∙ ap (λ r. is_live r.state) (put_proc_self k p q)
            ∙ ap is_live asleep
        | inr ne ↦ left-live i ne h
      ]
