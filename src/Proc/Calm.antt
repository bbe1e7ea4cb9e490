-- ===== src/Proc/Calm.antt =====
-- Changes of the process table that neither end a process nor put one to sleep in `wait`.
use operating_system.Common.{
  ℕ, zero, suc, ◌+◌, ◌≤◌, ◌≡◌, refl, sym, ap, ◌∙◌, subst, ◌≢◌, ◌⊎◌, inl, inr, Bool, true, false,
  ◌&&◌, Option, some, ◌==◌, if◌then◌else◌, ==_iff, Bool-cases,
}
use operating_system.Proc.{
  ProcState, unused, used, sleeping, runnable, running, zombie, Chan, proc_chan, other_chan, Proc,
  Kernel, nproc, is_sleeping, is_runnable, same_chan, points_to, put_proc, freeproc, wakeup, sleep,
  awake, yield, schedule, kill_loop, kill,
}

-- A process that can run now or later.
abbrev pub is_live : ProcState → Bool
is_live sleeping = true
is_live runnable = true
is_live running = true
is_live _ = false

-- What may become of the process in slot `i`.
pub record Calm (i : ℕ) (q q' : Proc) : Type 0 where
  pub live : is_live q.state ≡ true → is_live q'.state ≡ true
  pub outside : nproc ≤ i → q.state ≡ unused → q'.state ≡ unused
  pub child : (x : ℕ) → q'.parent ≡ some x → q.parent ≡ some x
  pub in_wait :
      (x : ℕ)
      → q'.state ≡ sleeping
      → q'.chan ≡ proc_chan x
      → (q.state ≡ sleeping) × (q.chan ≡ proc_chan x)
  pub dead : q'.state ≡ zombie → q.state ≡ zombie

abbrev pub AllCalm : Kernel → Kernel → Type 0
AllCalm k k' = (i : ℕ) → Calm i (k.slot i) (k'.slot i)

-- A process that is on a CPU stays on it.
abbrev pub StaysOn : ℕ → Proc → Proc → Type 0
StaysOn i q q' = q.state ≡ running → q'.state ≡ running

-- A step that changes no CPU.
pub record Quiet (k k' : Kernel) : Type 0 where
  pub calm : AllCalm k k'
  pub running_stays : (i : ℕ) → StaysOn i (k.slot i) (k'.slot i)
  pub same_cpus : k'.cpu ≡ k.cpu
  pub same_init : k'.initproc ≡ k.initproc

pub same-Calm : (i : ℕ) (q : Proc) → Calm i q q
same-Calm i q = record {
  live = λ h. h;
  outside = λ _ h. h;
  child = λ _ h. h;
  in_wait = λ _ h c. (h, c);
  dead = λ h. h;
}

-- A property of the change of one slot holds for each slot.
pub put_proc-each :
    (R : ℕ → Proc → Proc → Type 0) (k : Kernel) (p : ℕ) (q : Proc)
    → ((i : ℕ) (r : Proc) → R i r r)
    → R p (k.slot p) q
    → (i : ℕ) → R i (k.slot i) ((put_proc k p q).slot i)
put_proc-each R k p q same one i = elim (Bool-cases (i == p)) [
  | inl h ↦ let e : i ≡ p = (==_iff i p).0 h in rw (h) (subst (λ j. R j (k.slot j) q) (sym e) one)
  | inr h ↦ rw (h) (same i (k.slot i))
]

pub trans-Calm : (i : ℕ) (q r s : Proc) → Calm i q r → Calm i r s → Calm i q s
trans-Calm i q r s a b = record {
  live = λ h. b.live (a.live h);
  outside = λ n h. b.outside n (a.outside n h);
  child = λ x h. a.child x (b.child x h);
  in_wait = λ x h c.
      let w : (r.state ≡ sleeping) × (r.chan ≡ proc_chan x) = b.in_wait x h c in
      a.in_wait x w.0 w.1;
  dead = λ h. a.dead (b.dead h);
}

pub same-Quiet : (k : Kernel) → Quiet k k
same-Quiet k = record {
  calm = λ i. same-Calm i (k.slot i);
  running_stays = λ i h. h;
  same_cpus = refl;
  same_init = refl;
}

pub trans-Quiet : (k l m : Kernel) → Quiet k l → Quiet l m → Quiet k m
trans-Quiet k l m a b = record {
  calm = λ i. trans-Calm i _ _ _ (a.calm i) (b.calm i);
  running_stays = λ i h. b.running_stays i (a.running_stays i h);
  same_cpus = b.same_cpus ∙ a.same_cpus;
  same_init = b.same_init ∙ a.same_init;
}

pub put_proc-Calm :
    (k : Kernel) (p : ℕ) (q : Proc) → Calm p (k.slot p) q → AllCalm k (put_proc k p q)
put_proc-Calm k p q = put_proc-each Calm k p q same-Calm

pub freeproc-Calm :
    (k : Kernel) (p : ℕ) → is_live (k.slot p).state ≡ false → AllCalm k (freeproc k p)
unfolding freeproc
freeproc-Calm k p off = put_proc-Calm k p _ (record {
  live = λ h. absurd (cc (h, off));
  outside = λ _ _. refl;
  child = λ x h. absurd (cc h);
  in_wait = λ x h c. absurd (cc h);
  dead = λ h. absurd (cc h);
})

pub yield-Calm : (k : Kernel) (c p : ℕ) → (k.slot p).state ≡ running → AllCalm k (yield k c p)
unfolding yield
yield-Calm k c p on = put_proc-Calm k p _ (record {
  live = λ _. refl;
  outside = λ _ h. absurd (cc (on, h));
  child = λ _ h. h;
  in_wait = λ x h c. absurd (cc h);
  dead = λ h. absurd (cc h);
})

pub sleep-Calm :
    (k : Kernel) (c p a : ℕ) → (k.slot p).state ≡ running → AllCalm k (sleep k c p (other_chan a))
unfolding sleep
sleep-Calm k c p a on = put_proc-Calm k p _ (record {
  live = λ _. refl;
  outside = λ _ h. absurd (cc (on, h));
  child = λ _ h. h;
  in_wait = λ x h c. absurd (cc c);
  dead = λ h. absurd (cc h);
})

pub awake-Calm : (k : Kernel) (p : ℕ) → AllCalm k (awake k p)
unfolding awake
awake-Calm k p = put_proc-Calm k p _ (record {
  live = λ h. h;
  outside = λ _ h. h;
  child = λ _ h. h;
  in_wait = λ x h c. absurd (cc c);
  dead = λ h. h;
})

-- A change to RUNNABLE or RUNNING from a state that is not UNUSED.
pub up-Calm :
    (k : Kernel) (p : ℕ) (q : Proc)
    → (k.slot p).state ≢ unused
    → (q.state ≡ runnable) ⊎ (q.state ≡ running)
    → q.parent ≡ (k.slot p).parent
    → AllCalm k (put_proc k p q)
up-Calm k p q not_free up same = put_proc-Calm k p q (record {
  live = λ h. elim up [ inl e ↦ ap is_live e | inr e ↦ ap is_live e ];
  outside = λ _ h. absurd (not_free h);
  child = λ x h. sym same ∙ h;
  in_wait = λ x h c. elim up [ inl e ↦ absurd (cc (e, h)) | inr e ↦ absurd (cc (e, h)) ];
  dead = λ h. elim up [ inl e ↦ absurd (cc (e, h)) | inr e ↦ absurd (cc (e, h)) ];
})

pub is_runnable_lem : (s : ProcState) → is_runnable s ≡ true → s ≡ runnable
is_runnable_lem runnable h = refl
is_runnable_lem unused h = absurd (cc h)
is_runnable_lem used h = absurd (cc h)
is_runnable_lem sleeping h = absurd (cc h)
is_runnable_lem running h = absurd (cc h)
is_runnable_lem zombie h = absurd (cc h)

is_sleeping_lem : (s : ProcState) → is_sleeping s ≡ true → s ≡ sleeping
is_sleeping_lem sleeping h = refl
is_sleeping_lem unused h = absurd (cc h)
is_sleeping_lem used h = absurd (cc h)
is_sleeping_lem runnable h = absurd (cc h)
is_sleeping_lem running h = absurd (cc h)
is_sleeping_lem zombie h = absurd (cc h)

pub schedule-Calm : (k : Kernel) (c p : ℕ) → AllCalm k (schedule k c p)
unfolding schedule
schedule-Calm k c p = elim (Bool-cases (is_runnable (k.slot p).state)) [
  | inl h ↦
      let e : (k.slot p).state ≡ runnable = is_runnable_lem _ h in
      rw (h) (up-Calm k p (record (k.slot p) { state = running }) (λ f. cc (e, f)) (inr refl) refl)
  | inr h ↦ rw (h) (λ i. same-Calm i (k.slot i))
]

pub and_left : (a b : Bool) → (a && b) ≡ true → a ≡ true
and_left true b h = refl
and_left false b h = absurd (cc h)

pub and_right : (a b : Bool) → (a && b) ≡ true → b ≡ true
and_right true b h = h
and_right false b h = absurd (cc h)

woken-Calm :
    (i : ℕ) (q : Proc) (b : Bool)
    → Calm i q (if is_sleeping q.state && b then record q { state = runnable } else q)
woken-Calm i q b = elim (Bool-cases (is_sleeping q.state && b)) [
  | inl h ↦
      let e : q.state ≡ sleeping = is_sleeping_lem _ (and_left _ b h) in
      rw (h) (record {
        live = λ _. refl;
        outside = λ _ f. absurd (cc (e, f));
        child = λ _ f. f;
        in_wait = λ x f c. absurd (cc f);
        dead = λ f. absurd (cc f);
      })
  | inr h ↦ rw (h) (same-Calm i q)
]

pub wakeup-Calm : (k : Kernel) (self : Option ℕ) (chan : Chan) → AllCalm k (wakeup k self chan)
unfolding wakeup
wakeup-Calm k self chan i = elim (Bool-cases (points_to self i)) [
  | inl h ↦ rw (h) (same-Calm i (k.slot i))
  | inr h ↦ rw (h) (woken-Calm i (k.slot i) (same_chan (k.slot i).chan chan))
]

-- What `kill` does to the state of its process.
killed-Calm :
    (i : ℕ) (q : Proc)
    → Calm i q
        (record q { killed = true; state = if is_sleeping q.state then runnable else q.state })
killed-Calm i q = elim (Bool-cases (is_sleeping q.state)) [
  | inl h ↦
      let e : q.state ≡ sleeping = is_sleeping_lem _ h in
      rw (h) (record {
        live = λ _. refl;
        outside = λ _ f. absurd (cc (e, f));
        child = λ _ f. f;
        in_wait = λ x f c. absurd (cc f);
        dead = λ f. absurd (cc f);
      })
  | inr h ↦ rw (h) (record {
    live = λ f. f;
    outside = λ _ f. f;
    child = λ _ f. f;
    in_wait = λ x f c. (f, c);
    dead = λ f. f;
  })
]

kill_loop-Calm : (n : ℕ) (k : Kernel) (pid i : ℕ) → AllCalm k (kill_loop n k pid i).1
unfolding kill_loop
kill_loop-Calm zero k pid i j = same-Calm j (k.slot j)
kill_loop-Calm (suc n) k pid i j = elim (Bool-cases ((k.slot i).pid == pid)) [
  | inl h ↦ rw (h) (put_proc-Calm k i _ (killed-Calm i (k.slot i)) j)
  | inr h ↦ rw (h) (kill_loop-Calm n k pid (i + 1) j)
]

pub kill-Calm : (k : Kernel) (pid : ℕ) → AllCalm k (kill k pid).1
unfolding kill
kill-Calm k pid = kill_loop-Calm nproc k pid 0
