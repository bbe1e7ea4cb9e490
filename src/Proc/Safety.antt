-- ===== src/Proc/Safety.antt =====
-- Processes on CPUs.
use operating_system.Common.{
  ℕ, ◌≡◌, sym, ap, ◌∙◌, ◌≢◌, ◌⊎◌, inl, inr, true, Option, none, some, ◌==◌, if◌then◌else◌, ==_iff,
  Bool-cases,
}
use operating_system.Proc.{runnable, running, Proc, Kernel, put_proc, on_cpu}
use operating_system.Proc.Calm.{StaysOn}
use operating_system.Proc.Table.{put_proc_self, put_proc-other, slot-cases}

-- The process on a CPU is RUNNING, and is on no other CPU.
pub record IsPlaced (k : Kernel) : Type 0 where
  pub on : (c p : ℕ) → k.cpu c ≡ some p → (k.slot p).state ≡ running
  pub one : (c d p : ℕ) → k.cpu c ≡ some p → k.cpu d ≡ some p → c ≡ d

pub stay-IsPlaced :
    (k k' : Kernel)
    → ((i : ℕ) → StaysOn i (k.slot i) (k'.slot i))
    → k'.cpu ≡ k.cpu
    → IsPlaced k
    → IsPlaced k'
stay-IsPlaced k k' stay same s = record {
  on = λ c p h. stay p (s.on c p (before c p h));
  one = λ c d p h g. s.one c d p (before c p h) (before d p g);
}
  where
    before : (c p : ℕ) → k'.cpu c ≡ some p → k.cpu c ≡ some p
    before c p h = sym (ap (λ f. f c) same) ∙ h

-- The CPU of a process that is left idle.
idle-cases :
    (c d p : ℕ) (o : Option ℕ) → (if d == c then none else o) ≡ some p → (d ≢ c) × (o ≡ some p)
idle-cases c d p o h = elim (Bool-cases (d == c)) [
  | inl e ↦ let idle : (if d == c then none else o) ≡ none = rw e in absurd (cc (idle, h))
  | inr e ↦
      let same : (if d == c then none else o) ≡ o = rw e in
      ((λ at. let hit : (d == c) ≡ true = (==_iff d c).1 at in cc (hit, e)), sym same ∙ h)
]

pub leave-IsPlaced :
    (k k' : Kernel) (c p : ℕ)
    → k.cpu c ≡ some p
    → ((i : ℕ) → i ≢ p → StaysOn i (k.slot i) (k'.slot i))
    → ((d : ℕ) → k'.cpu d ≡ (if d == c then none else k.cpu d))
    → IsPlaced k
    → IsPlaced k'
leave-IsPlaced k k' c p at stay cpus s = record {
  on = λ d q h.
      let b : (d ≢ c) × (k.cpu d ≡ some q) = before d q h in
      stay q (λ e. b.0 (s.one d c q b.1 (at ∙ ap some (sym e)))) (s.on d q b.1);
  one = λ d d' q h g. s.one d d' q (before d q h).1 (before d' q g).1;
}
  where
    before : (d q : ℕ) → k'.cpu d ≡ some q → (d ≢ c) × (k.cpu d ≡ some q)
    before d q h = idle-cases c d q (k.cpu d) (sym (cpus d) ∙ h)

-- A process that is RUNNABLE is on no CPU, so it can be put on the idle CPU `c`.
pub enter-IsPlaced :
    (k : Kernel) (c p : ℕ) (q : Proc)
    → q.state ≡ running
    → (k.slot p).state ≡ runnable
    → IsPlaced k
    → IsPlaced (on_cpu (put_proc k p q) c (some p))
enter-IsPlaced k c p q up was s = record {
  on = λ d x h. elim (slot-cases x p) [
    | inl e ↦ ap (λ r. r.state) (ap (put_proc k p q).slot e ∙ put_proc_self k p q) ∙ up
    | inr ne ↦
        ap (λ r. r.state) (put_proc-other k p q x ne)
        ∙ s.on d x (elim (before d x h) [ inl b ↦ absurd (ne b.1) | inr b ↦ b ])
  ];
  one = λ d d' x h g. elim (before d x h) [
    | inl b ↦ elim (before d' x g) [
      | inl b' ↦ b.0 ∙ sym b'.0
      | inr b' ↦ absurd (not_on d' x b' b.1)
    ]
    | inr b ↦ elim (before d' x g) [
      | inl b' ↦ absurd (not_on d x b b'.1)
      | inr b' ↦ s.one d d' x b b'
    ]
  ];
}
  where
    not_on : (d x : ℕ) → k.cpu d ≡ some x → x ≢ p
    not_on d x h e =
        let on : (k.slot p).state ≡ running = ap (λ j. (k.slot j).state) (sym e) ∙ s.on d x h in
        cc (on, was)

    before :
        (d x : ℕ)
        → (if d == c then some p else k.cpu d) ≡ some x
        → ((d ≡ c) × (x ≡ p)) ⊎ (k.cpu d ≡ some x)
    before d x h = elim (Bool-cases (d == c)) [
      | inl e ↦
          let now : (if d == c then some p else k.cpu d) ≡ some p = rw e in
          let same : x ≡ p = cc (now, h) in inl ((==_iff d c).0 e, same)
      | inr e ↦ let now : (if d == c then some p else k.cpu d) ≡ k.cpu d = rw e in inr (sym now ∙ h)
    ]
