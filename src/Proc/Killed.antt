-- ===== src/Proc/Killed.antt =====
-- `kill`: which process it marks, and what becomes of the mark on a free slot.
use operating_system.Common.{
  ℕ, zero, suc, ◌+◌, ◌≤◌, ◌<◌, ◌≡◌, refl, sym, ap, ap₂, ◌∙◌, ◌≢◌, ◌⊎◌, inl, inr, true, false, some,
  arith, ◌==◌, if◌then◌else◌, ==_iff, ==_refl, Bool-cases, ℤ, pos, minus_one,
}
use operating_system.Proc.Calm.{put_proc-each}
use operating_system.Proc.{
  ProcState, unused, used, sleeping, runnable, running, zombie, Proc, Kernel, Frame, nproc,
  is_unused, is_sleeping, put_proc, find_unused, set_up, allocproc, kill, kill_loop,
}

-- The process in slot `i` with the mark, and not asleep.
abbrev pub marked : Kernel → ℕ → Kernel
marked k i = put_proc k i (record (k.slot i) {
  killed = true;
  state = if is_sleeping (k.slot i).state then runnable else (k.slot i).state;
})

-- How `kill` ends: the first process with that pid is marked, or there is none.
abbrev pub Kills : (n : ℕ) → Kernel → (pid i : ℕ) → ℤ × Kernel → Type 0
Kills n k pid i r =
    ((j : ℕ) × (i ≤ j)
      × (j < i + n)
      × ((k.slot j).pid ≡ pid)
      × ((x : ℕ) → i ≤ x → x < j → (k.slot x).pid ≢ pid)
      × (r ≡ (pos 0, marked k j)))
    ⊎ (((x : ℕ) → i ≤ x → x < i + n → (k.slot x).pid ≢ pid) × (r ≡ (minus_one, k)))

kill_loop_lem : (n : ℕ) (k : Kernel) (pid i : ℕ) → Kills n k pid i (kill_loop n k pid i)
unfolding kill_loop
kill_loop_lem zero k pid i = inr (λ x lo hi. absurd (omega arith), refl)
kill_loop_lem (suc n) k pid i = elim (Bool-cases ((k.slot i).pid == pid)) [
  | inl h ↦
      inl (i, omega arith, omega arith, (==_iff _ pid).0 h, λ x lo hi. absurd (omega arith), rw h)
  | inr h ↦
      let not_here : (k.slot i).pid ≢ pid =
        λ e. let hit : ((k.slot i).pid == pid) ≡ true = (==_iff _ pid).1 e in cc (hit, h) in
      let later : kill_loop (suc n) k pid i ≡ kill_loop n k pid (i + 1) = rw h in
      elim (kill_loop_lem n k pid (i + 1)) [
        | inl (j, lo, hi, found, before, e) ↦ inl (
          j,
          omega arith,
          omega arith,
          found,
          λ x lo' hi'. first x lo' not_here (λ lo''. before x lo'' hi'),
          later ∙ e,
        )
        | inr (nowhere, e) ↦
            inr
              (λ x lo' hi'. first x lo' not_here (λ lo''. nowhere x lo'' (omega arith)), later ∙ e)
      ]
]
  where
    first :
        (x : ℕ)
        → i ≤ x
        → (k.slot i).pid ≢ pid
        → (i + 1 ≤ x → (k.slot x).pid ≢ pid)
        → (k.slot x).pid ≢ pid
    first x lo here rest = elim (Bool-cases (x == i)) [
      | inl h ↦ λ e. here (ap (λ v. (k.slot v).pid) (sym ((==_iff x i).0 h)) ∙ e)
      | inr h ↦ rest (ground arith)
    ]

-- `kill` marks the first process of the table with that pid, makes it RUNNABLE if it sleeps, and returns
-- 0; if there is none, it changes nothing and returns -1.
pub kill_lem : (k : Kernel) (pid : ℕ) → Kills nproc k pid 0 (kill k pid)
unfolding kill
kill_lem k pid = kill_loop_lem nproc k pid 0

same_search :
    (n : ℕ) (f g : ℕ → Proc) (i : ℕ)
    → ((j : ℕ) → is_unused (f j).state ≡ is_unused (g j).state)
    → find_unused n f i ≡ find_unused n g i
unfolding find_unused
same_search zero f g i same = refl
same_search (suc n) f g i same =
    ap₂ (λ b r. if b then some i else r) (same i) (same_search n f g (i + 1) same)

-- In lockstep, while the slots with pid 0 are the UNUSED ones.
kill_loop-find_unused :
    (n : ℕ) (k : Kernel) (i p : ℕ)
    → ((j : ℕ) → ((k.slot j).pid == 0) ≡ is_unused (k.slot j).state)
    → find_unused n k.slot i ≡ some p
    → kill_loop n k 0 i ≡ (pos 0, marked k p)
unfolding kill_loop find_unused
kill_loop-find_unused zero k i p zeros e = absurd (cc e)
kill_loop-find_unused (suc n) k i p zeros e = elim (Bool-cases (is_unused (k.slot i).state)) [
  | inl h ↦
      let here : find_unused (suc n) k.slot i ≡ some i = rw h in
      let same : i ≡ p = cc (here, e) in
      let hit : ((k.slot i).pid == 0) ≡ true = zeros i ∙ h in
      let out : kill_loop (suc n) k 0 i ≡ (pos 0, marked k i) = rw hit in
      out ∙ ap (λ j. (pos 0, marked k j)) same
  | inr h ↦
      let later : find_unused (suc n) k.slot i ≡ find_unused n k.slot (i + 1) = rw h in
      let miss : ((k.slot i).pid == 0) ≡ false = zeros i ∙ h in
      let out : kill_loop (suc n) k 0 i ≡ kill_loop n k 0 (i + 1) = rw miss in
      out ∙ kill_loop-find_unused n k (i + 1) p zeros (sym later ∙ e)
]

marked-is_unused :
    (k : Kernel) (p j : ℕ) → is_unused ((marked k p).slot j).state ≡ is_unused (k.slot j).state
marked-is_unused k p =
    put_proc-each (λ i r r'. is_unused r'.state ≡ is_unused r.state) k p _ (λ i r. refl)
      (same (k.slot p).state)
  where
    same : (s : ProcState) → is_unused (if is_sleeping s then runnable else s) ≡ is_unused s
    same unused = refl
    same used = refl
    same sleeping = refl
    same runnable = refl
    same running = refl
    same zombie = refl

-- While the slots with pid 0 are the UNUSED ones, `kill(0)` does not fail when a slot is free: it returns
-- 0, and the process that is next allocated, if a page and a page table can be had for it, starts with the
-- mark that it has been killed.
pub kill-allocproc :
    (k : Kernel) (p t : ℕ) (f : Frame)
    → ((j : ℕ) → ((k.slot j).pid == 0) ≡ is_unused (k.slot j).state)
    → find_unused nproc k.slot 0 ≡ some p
    → ((kill k 0).0 ≡ pos 0)
      × (k' : Kernel) × (allocproc (kill k 0).1 (some f) (some t) ≡ (some p, k'))
      × ((k'.slot p).killed ≡ true)
unfolding kill allocproc set_up
kill-allocproc k p t f zeros free =
    let out : kill k 0 ≡ (pos 0, marked k p) = kill_loop-find_unused nproc k 0 p zeros free in
    let m : Kernel = marked k p in
    let again : find_unused nproc m.slot 0 ≡ some p =
      same_search nproc m.slot k.slot 0 (marked-is_unused k p) ∙ free in
    let made : allocproc m (some f) (some t) ≡ set_up m p (some f) (some t) =
      rw (again, allocproc) in
    let mark : ((set_up m p (some f) (some t)).1.slot p).killed ≡ true = rw (==_refl p) in
    (
      ap (λ r. r.0) out,
      (set_up m p (some f) (some t)).1,
      ap (λ r. allocproc r.1 (some f) (some t)) out ∙ made,
      mark,
    )
