-- ===== src/Log/Crash.antt =====
-- Crashes in the middle of `commit` of log.c and of the recoveries after it.
use operating_system.Common.{
  ℕ, ◌+◌, ◌<◌, ◌≡◌, refl, sym, ◌∙◌, subst, ◌⊎◌, inl, inr, true, false, some, List, [], ◌∷◌, arith,
  ◌==◌, Bool-cases, length, get_elem?, contains,
}
use operating_system.Log.{
  Disk, Log, initlog, commit, write_head, write_log, write_log_loop, install_trans, install_loop,
}
use operating_system.Log.Write.{All, changed, store_block-other, Logged, write_log_loop-Logged}
use operating_system.Log.Recover.{
  Home, Holds, IsCommitted, Safe, is_old, is_committed, is_new, Fits, Recovered, initlog-Recovered,
  install-IsCommitted,
}

-- A transaction that `end_op` may commit: the log on the disk is empty, its blocks are outside the
-- log and fit into it, and the cache differs from the disk in these blocks only.
pub record IsReady {A : Type 0} (m : Log A) : Type 0 where
  pub head : m.disk.head ≡ []
  pub fits : Fits m.start m.size m.disk.block m.cached m.lh
  pub clean :
      (b : ℕ) → Home m.start m.size b → contains m.lh b ≡ false → m.cached b ≡ m.disk.block b
  pub no_writes : m.past ≡ []

abbrev pub In : {A : Type 0} → Disk A → List (Disk A) → Type 0
In d [] = ⊥
In d (e ∷ es) = (d ≡ e) ⊎ In d es

-- The disk of a machine after a piece of code, and all those that a crash in it could have left.
abbrev pub disks : {A : Type 0} → Log A → List (Disk A)
disks m = m.disk ∷ m.past

-- The disks that remain after a crash in `commit`, or in any recovery after that.
pub data AfterCrash {A : Type 0} (m : Log A) : Disk A → Type 0 where
  in_commit : (d : Disk A) → In d (disks (commit m)) → AfterCrash m d
  in_recovery :
      (d d' : Disk A) → AfterCrash m d → In d' (disks (initlog d m.start m.size)) → AfterCrash m d'

module _ {A : Type 0} (m : Log A) (r : IsReady m) where
  abbrev SafeFor : Disk A → Type 0
  SafeFor = Safe m.start m.size m.disk.block m.cached m.lh

  ready_old : Holds m.start m.size m.disk.block m.disk
  ready_old b h = refl

  abbrev IsOld : Disk A → Type 0
  IsOld d = (d.head ≡ []) × Holds m.start m.size m.disk.block d

  away :
      (i b : ℕ)
      → get_elem? m.lh i ≡ some b
      → (b < m.start + 0 + 1) ⊎ (m.start + 0 + length m.lh < b)
  away i b e =
      let f = r.fits.room in
      elim (r.fits.homes i b e) [ inl lo ↦ inl (omega arith) | inr hi ↦ inr (omega arith) ]

  IsOld-changed :
      (d : Disk A) (x : ℕ) (v : A)
      → IsOld d
      → m.start < x
      → x < m.start + m.size
      → IsOld (changed d x v)
  IsOld-changed d x v p lo hi = (
    p.0,
    λ b h.
        store_block-other d.block x v b (elim h [ inl l ↦ omega arith | inr g ↦ omega arith ])
        ∙ p.1 b h,
  )

  write_log-Logged :
      Logged IsOld SafeFor m.start
        (m.start + m.size)
        IsOld-changed
        (λ d p. is_old p.0 p.1)
        m.lh
        0
        m
        (write_log_loop m.lh 0 m)
  write_log-Logged =
      let f = r.fits.room in
      write_log_loop-Logged IsOld SafeFor m.start (m.start + m.size) IsOld-changed
        (λ d p. is_old p.0 p.1) m.lh 0 m refl away (omega arith)
        (subst (All SafeFor) (sym r.no_writes) tt) (r.head, ready_old)

  -- The last disk of `commit` is new, and those that it passes are safe.
  abbrev Done : Log A → Type 0
  Done m' = (m'.disk.head ≡ []) × Holds m.start m.size m.cached m'.disk × All SafeFor m'.past

  commit_writes : (length m.lh == 0) ≡ false → Done (commit m)
  unfolding commit write_log write_head install_trans
  commit_writes some_block =
      let l = write_log-Logged in
      let m₁ : Log A = write_log_loop m.lh 0 m in
      let m₂ : Log A = write_head m₁ in
      let c : IsCommitted m.start m.size m.disk.block m.cached m.lh m₂.disk = record {
        head = l.same_lh;
        logged = λ i b e. l.on_disk i b e;
        others = λ b h out. l.after.1 b h ∙ sym (r.clean b h out);
      } in
      let i =
        install-IsCommitted m.start m.size m.disk.block m.cached m.lh r.fits false m₂ l.same_start
          (λ i b e. l.in_cache i b e) (is_old l.after.0 l.after.1, l.before) c in
      let new : Holds m.start m.size m.cached (install_loop false m.lh 0 m₂).disk = λ b h.
        i.blocks b ∙ elim (Bool-cases (contains m.lh b)) [
          | inl in_lh ↦ rw in_lh
          | inr out ↦ rw out (c.others b h out)
        ] in
      rw some_block (
        subst (λ bs. Done (write_head (record (install_loop false bs 0 m₂) { lh = [] })))
          (sym l.same_lh) (refl, new, (is_committed i.after, i.before)))

  contains_empty : (xs : List ℕ) (b : ℕ) → (length xs == 0) ≡ true → contains xs b ≡ false
  contains_empty [] b e = refl
  contains_empty (x ∷ xs) b e = absurd (ground arith)

  commit_idle : (length m.lh == 0) ≡ true → Done (commit m)
  unfolding commit
  commit_idle none_left = rw none_left (
    r.head,
    λ b h. sym (r.clean b h (contains_empty m.lh b none_left)),
    subst (All SafeFor) (sym r.no_writes) tt,
  )

  commit-Done : Done (commit m)
  commit-Done = elim (Bool-cases (length m.lh == 0)) [
    | inl none_left ↦ commit_idle none_left
    | inr some_block ↦ commit_writes some_block
  ]

  commit-Safe : All SafeFor (disks (commit m))
  commit-Safe = (is_new commit-Done.0 commit-Done.1, commit-Done.2)

  All-In : (d : Disk A) (ds : List (Disk A)) → All SafeFor ds → In d ds → SafeFor d
  All-In d [] a i = absurd i
  All-In d (e ∷ es) a (inl same) = subst SafeFor (sym same) a.0
  All-In d (e ∷ es) a (inr later) = All-In d es a.1 later

  recovery :
      (d : Disk A)
      → SafeFor d
      → Recovered m.start m.size m.disk.block m.cached m.lh r.fits (initlog d m.start m.size)
  recovery d s = initlog-Recovered m.start m.size m.disk.block m.cached m.lh r.fits d s

  AfterCrash-Safe : (d : Disk A) → AfterCrash m d → SafeFor d
  AfterCrash-Safe _ (in_commit d i) = All-In d (disks (commit m)) commit-Safe i
  AfterCrash-Safe _ (in_recovery d d' c i) =
      let v = recovery d (AfterCrash-Safe d c) in
      let now : SafeFor (initlog d m.start m.size).disk = elim v.either [
        | inl o ↦ is_old v.empty o
        | inr n ↦ is_new v.empty n
      ] in
      All-In d' (disks (initlog d m.start m.size)) (now, v.past) i

  -- Wherever `commit` is cut off, and however often the recovery after that is cut off in its turn, a
  -- recovery that is not cut off empties the log and leaves every block outside it as it was before the
  -- transaction, or leaves every such block as the transaction meant it.
  pub AfterCrash-atomic :
      (d : Disk A)
      → AfterCrash m d
      → ((initlog d m.start m.size).disk.head ≡ [])
        × ((Holds m.start m.size m.disk.block (initlog d m.start m.size).disk)
            ⊎ (Holds m.start m.size m.cached (initlog d m.start m.size).disk))
  AfterCrash-atomic d c = let v = recovery d (AfterCrash-Safe d c) in (v.empty, v.either)

  -- A `commit` that is not cut off leaves every block outside the log as the transaction meant it, and
  -- the log empty.
  pub commit-Holds : ((commit m).disk.head ≡ []) × Holds m.start m.size m.cached (commit m).disk
  commit-Holds = (commit-Done.0, commit-Done.1)
