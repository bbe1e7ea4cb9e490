-- ===== src/Proc/Wake.antt =====
-- What `wakeup` changes.
use operating_system.Common.{
  ℕ, ◌≡◌, refl, sym, ap, ap₂, ◌∙◌, ◌≢◌, inl, inr, true, false, ◌&&◌, Option, some, ◌==◌,
  if◌then◌else◌, ==_iff, ==_refl, Bool-cases,
}
use operating_system.Proc.{
  sleeping, runnable, running, Chan, proc_chan, Proc, Kernel, is_sleeping, same_chan, points_to,
  wakeup,
}
use operating_system.Proc.Calm.{StaysOn}

-- A round of the loop of `wakeup`.
abbrev pub wake : Option ℕ → Chan → ℕ → Proc → Proc
wake self chan i q =
    if points_to self i
    then q
    else if is_sleeping q.state && same_chan q.chan chan
    then record q { state = runnable }
    else q

pub wakeup_lem :
    (k : Kernel) (self : Option ℕ) (chan : Chan) (i : ℕ)
    → (wakeup k self chan).slot i ≡ wake self chan i (k.slot i)
unfolding wakeup
wakeup_lem k self chan i = refl

-- What a round leaves of a process: all but its state.
pub wake-parent :
    (self : Option ℕ) (chan : Chan) (i : ℕ) (q : Proc) (x : Option ℕ)
    → ((wake self chan i (record q { parent = x })).state ≡ (wake self chan i q).state)
      × ((wake self chan i (record q { parent = x })).chan ≡ (wake self chan i q).chan)
      × ((wake self chan i (record q { parent = x })).parent ≡ x)
wake-parent self chan i q x = elim (Bool-cases (points_to self i)) [
  | inl h ↦ rw h (refl, refl, refl)
  | inr h ↦ elim (Bool-cases (is_sleeping q.state && same_chan q.chan chan)) [
    | inl g ↦ rw (h, g) (refl, refl, refl)
    | inr g ↦ rw (h, g) (refl, refl, refl)
  ]
]

pub wakeup-StaysOn :
    (k : Kernel) (self : Option ℕ) (chan : Chan) (i : ℕ)
    → StaysOn i (k.slot i) ((wakeup k self chan).slot i)
unfolding wakeup
wakeup-StaysOn k self chan i on = elim (Bool-cases (points_to self i)) [
  | inl h ↦ rw h on
  | inr h ↦
      let calm : (is_sleeping (k.slot i).state && same_chan (k.slot i).chan chan) ≡ false =
        ap (λ s. is_sleeping s && same_chan (k.slot i).chan chan) on in
      rw (h, calm) on
]

-- Afterwards nobody but the caller sleeps on that process.
pub wakeup-awake :
    (k : Kernel) (p x i : ℕ)
    → (k.slot p).state ≡ running
    → ((wakeup k (some p) (proc_chan x)).slot i).state ≡ sleeping
    → ((wakeup k (some p) (proc_chan x)).slot i).chan ≢ proc_chan x
wakeup-awake k p x i on asleep chan =
    let self : Option ℕ = some p in
    elim (Bool-cases (p == i)) [
      | inl h ↦
          let here : wake self (proc_chan x) i (k.slot i) ≡ k.slot i = rw h in
          let e : p ≡ i = (==_iff p i).0 h in
          let still : (k.slot i).state ≡ running = ap (λ j. (k.slot j).state) (sym e) ∙ on in
          let gone : (k.slot i).state ≡ sleeping =
            sym (ap (λ q. q.state) (wakeup_lem k self (proc_chan x) i ∙ here)) ∙ asleep in
          cc (still, gone)
      | inr h ↦
          elim (Bool-cases
            (is_sleeping (k.slot i).state && same_chan (k.slot i).chan (proc_chan x))) [
              | inl g ↦
                  let up : (wake self (proc_chan x) i (k.slot i)).state ≡ runnable =
                    rw (h, g) refl in
                  let woken : ((wakeup k self (proc_chan x)).slot i).state ≡ runnable =
                    ap (λ q. q.state) (wakeup_lem k self (proc_chan x) i) ∙ up in
                  cc (woken, asleep)
              | inr g ↦
                  let here : wake self (proc_chan x) i (k.slot i) ≡ k.slot i = rw (h, g) refl in
                  let same : (wakeup k self (proc_chan x)).slot i ≡ k.slot i =
                    wakeup_lem k self (proc_chan x) i ∙ here in
                  let s : (k.slot i).state ≡ sleeping = sym (ap (λ q. q.state) same) ∙ asleep in
                  let c : (k.slot i).chan ≡ proc_chan x = sym (ap (λ q. q.chan) same) ∙ chan in
                  let hit : (is_sleeping (k.slot i).state
                        && same_chan (k.slot i).chan (proc_chan x))
                      ≡ true =
                    ap₂ (λ a b. is_sleeping a && same_chan b (proc_chan x)) s c ∙ ==_refl x in
                  cc (hit, g)
            ]
    ]
