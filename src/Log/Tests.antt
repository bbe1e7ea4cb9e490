-- ===== src/Log/Tests.antt =====
-- A transaction of two blocks on a small disk, and a system call that writes.
use operating_system.Common.{
  Run, ◌>>=◌, length, ℕ, zero, suc, ◌+◌, ◌≤◌, ◌≡◌, refl, ◌⊎◌, inl, inr, false, some, List, [], ◌∷◌,
  arith, ◌==◌, if◌then◌else◌, get_elem?, ok, panic, ◌<◌,
}
use operating_system.Log.{
  log_size, Disk, Log, initlog, commit, begin_op, log_write, write_head, bpin,
}
use operating_system.Log.Recover.{Holds}
use operating_system.Log.Crash.{
  IsReady, In, disks, in_commit, in_recovery, AfterCrash-atomic, commit-Holds,
}
use operating_system.Log.Reserve.{log_write-Runs}
use operating_system.Log.Budget.{total, Runs, start, begins, writes}

-- The log is in the blocks 2 to 31; block 40 is to become 7, and block 41 is to become 8.
abbrev blocks : ℕ → ℕ
blocks b = if b == 40 then 5 else if b == 41 then 6 else 0

abbrev buffers : ℕ → ℕ
buffers b = if b == 40 then 7 else if b == 41 then 8 else 0

abbrev machine : (lh : List ℕ) → (outstanding : ℕ) → (ℕ → ℕ) → Log ℕ
machine lh n pins = record {
  disk = record { block = blocks; head = [] };
  past = [];
  cached = buffers;
  pins = pins;
  lh = lh;
  start = 2;
  size = 30;
  outstanding = n;
  committing = false;
}

abbrev ready : Log ℕ
ready = machine (40 ∷ 41 ∷ []) 0 (λ _. 0)

ready-IsReady : IsReady ready
ready-IsReady = record {
  head = refl;
  fits = record { homes = λ i b e. inr (home i b e); room = omega arith };
  clean = λ b h out. ground arith;
  no_writes = refl;
}
  where
    home : (i b : ℕ) → get_elem? (40 ∷ 41 ∷ []) i ≡ some b → 2 + 30 ≤ b
    home zero b e = ground arith
    home (suc zero) b e = ground arith
    home (suc (suc i)) b e = absurd (cc e)

abbrev second : {A : Type 0} → A → List A → A
second d [] = d
second d (x ∷ []) = d
second d (x ∷ y ∷ xs) = y

-- The disk before the last write of `commit`, with the transaction in the log, and one in the
-- middle of the recovery from it.
abbrev cut : Disk ℕ
cut = second ready.disk (disks (commit ready))

abbrev cut_again : Disk ℕ
cut_again = second cut (disks (initlog cut 2 30))

cut-In : In cut (disks (commit ready))
unfolding commit write_head
cut-In = inr (inl refl)

cut_again-In : In cut_again (disks (initlog cut 2 30))
unfolding initlog write_head
cut_again-In = inr (inl refl)

AfterCrash-atomic_example :
    ((initlog cut_again 2 30).disk.head ≡ [])
    × ((Holds 2 30 blocks (initlog cut_again 2 30).disk)
        ⊎ (Holds 2 30 buffers (initlog cut_again 2 30).disk))
AfterCrash-atomic_example =
    AfterCrash-atomic ready ready-IsReady cut_again
      (in_recovery cut cut_again (in_commit cut cut-In) cut_again-In)

commit-Holds_example : ((commit ready).disk.head ≡ []) × Holds 2 30 buffers (commit ready).disk
commit-Holds_example = commit-Holds ready ready-IsReady

abbrev idle : Log ℕ
idle = machine [] 0 (λ _. 0)

abbrev pinned : ℕ → ℕ
pinned x = if x == 40 then 0 + 1 else 0

one_write : Runs idle (9 ∷ []) (machine (40 ∷ []) 1 pinned)
unfolding begin_op log_write bpin
one_write =
    writes {ops = 10 ∷ []} {m = machine [] 1 (λ _. 0)} (machine (40 ∷ []) 1 pinned) 0 9 40 refl refl
      (begins {ops = []} {m = idle} (machine [] 1 (λ _. 0)) refl start)

log_write-Runs_example :
    ((m' : Log ℕ) × (log_write (machine (40 ∷ []) 1 pinned) 41 ≡ ok m') × (2 < log_size))
    ⊎ ((log_write (machine (40 ∷ []) 1 pinned) 41 ≡ panic) × (2 ≡ log_size) × (total (9 ∷ []) ≡ 1))
log_write-Runs_example = log_write-Runs 0 8 41 refl refl refl refl one_write refl

-- `log_write` of `n` blocks, none twice.
unfoldable fill : (n : ℕ) → Log ℕ → Run (Log ℕ)
fill zero m = ok m
fill (suc n) m = log_write m (40 + n) >>= λ m'. fill n m'

-- A third call may begin beside two that have not written yet. The three may write thirty blocks:
-- `log_write` takes 29 and panics at the thirtieth.
three_begin : begin_op (machine [] 2 (λ _. 0)) ≡ some (machine [] 3 (λ _. 0))
unfolding begin_op
three_begin = refl

abbrev logged : Run (Log ℕ) → ℕ
logged r = elim r [ ok m ↦ length m.lh | _ ↦ 0 ]

log_takes_29 : logged (fill 29 (machine [] 3 (λ _. 0))) ≡ 29
unfolding fill log_write bpin
log_takes_29 = refl

last_block_panics : fill 30 (machine [] 3 (λ _. 0)) ≡ panic
unfolding fill log_write bpin
last_block_panics = refl
