-- ===== src/Log/Reserve.antt =====
-- Room in the log: begin_op, log_write and end_op of log.c by any number of system calls at once.
use operating_system.Common.{
  ℕ, suc, ◌+◌, ◌-◌, ◌*◌, ◌≤◌, ◌<◌, ◌≡◌, refl, sym, ap, ◌∙◌, subst, ◌⊎◌, inl, inr, Bool, true, false,
  ◌||◌, some, List, [], ◌∷◌, ◌++◌, arith, ltb, leb, ◌==◌, ==_iff, Bool-cases, length, get_elem?,
  set, erase_idx, length-append, length-set, length-erase_idx, contains, get_elem?-lt, ok, panic,
}
use operating_system.Log.{
  Log, log_size, max_op_blocks, begin_op, end_op, end_commit, log_write, commit, bpin, write_head,
  write_log, write_log_loop, install_trans, install_loop,
}
use operating_system.Log.Budget.{
  Runs, total, Allowed, total-le, total-set, total-erase, set-Allowed, erase-Allowed, start, begins,
  writes, ends, finishes,
}

-- The log has room for all that the calls in progress may still write.
record Reserved {A : Type 0} (size : ℕ) (ops : List ℕ) (m : Log A) : Type 0 where
  same_size : m.size ≡ size
  counted : m.outstanding ≡ length ops
  allowed : Allowed ops
  room : (m.committing ≡ true) ⊎ (length m.lh + total ops ≤ log_size)
  idle : m.committing ≡ true → ops ≡ []

module _ {A : Type 0} where
  -- What `commit` leaves of the fields that the calls use.
  write_log_loop-fields :
      (bs : List ℕ) (tail : ℕ) (m : Log A)
      → ((write_log_loop bs tail m).size ≡ m.size)
        × ((write_log_loop bs tail m).outstanding ≡ m.outstanding)
  unfolding write_log_loop
  write_log_loop-fields [] tail m = (refl, refl)
  write_log_loop-fields (b ∷ bs) tail m = write_log_loop-fields bs (tail + 1) _

  install_loop-fields :
      (r : Bool) (bs : List ℕ) (tail : ℕ) (m : Log A)
      → ((install_loop r bs tail m).size ≡ m.size)
        × ((install_loop r bs tail m).outstanding ≡ m.outstanding)
  unfolding install_loop
  install_loop-fields r [] tail m = (refl, refl)
  install_loop-fields r (b ∷ bs) tail m = install_loop-fields r bs (tail + 1) _

  commit-fields :
      (m : Log A)
      → ((commit m).size ≡ m.size)
        × ((commit m).outstanding ≡ m.outstanding)
        × (length (commit m).lh ≡ 0)
  unfolding commit write_log write_head install_trans
  commit-fields m = elim (Bool-cases (length m.lh == 0)) [
    | inl none_left ↦ rw none_left (refl, refl, (==_iff _ _).0 none_left)
    | inr some_left ↦
        let l = write_log_loop-fields m.lh 0 m in
        let i =
          install_loop-fields false (write_log_loop m.lh 0 m).lh 0
            (write_head (write_log_loop m.lh 0 m)) in
        rw some_left (i.0 ∙ l.0, i.1 ∙ l.1, refl)
  ]

  begins-Reserved :
      {m m' : Log A} {size : ℕ} {ops : List ℕ}
      → begin_op m ≡ some m'
      → Reserved size ops m
      → Reserved size (max_op_blocks ∷ ops) m'
  unfolding begin_op
  begins-Reserved {m} {m'} {size} {ops} s v = elim (Bool-cases m.committing) [
    | inl busy ↦ absurd (cc (rw busy at s))
    | inr free ↦
        elim (Bool-cases (ltb log_size (length m.lh + (m.outstanding + 1) * max_op_blocks))) [
          | inl full ↦ absurd (cc (rw (free, full) at s))
          | inr room ↦
              let same : record m { outstanding = m.outstanding + 1 } ≡ m' =
                cc (rw (free, room) at s) in
              let n = v.counted in
              let le = total-le ops v.allowed in
              subst (Reserved size (max_op_blocks ∷ ops)) same (record {
                same_size = v.same_size;
                counted = omega arith;
                allowed = (omega arith, v.allowed);
                room = inr (enough (length m.lh) m.outstanding (total ops) (length ops) room n le);
                idle = λ busy. absurd (cc);
              })
        ]
  ]
    where
      enough :
          (used outstanding left calls : ℕ)
          → ltb log_size (used + (outstanding + 1) * max_op_blocks) ≡ false
          → outstanding ≡ calls
          → left ≤ calls * max_op_blocks
          → used + (max_op_blocks + left) ≤ log_size
      enough used outstanding left calls h e le = ground arith

  writes-Reserved :
      {m m' : Log A} {size : ℕ} {ops : List ℕ} (i k b : ℕ)
      → get_elem? ops i ≡ some (suc k)
      → log_write m b ≡ ok m'
      → Reserved size ops m
      → Reserved size (set ops i k) m'
  unfolding log_write bpin
  writes-Reserved {m} {m'} {size} {ops} i k b g s v =
      elim (Bool-cases (leb log_size (length m.lh) || leb (m.size - 1) (length m.lh))) [
        | inl full ↦ absurd (cc (rw full at s))
        | inr room ↦ elim (Bool-cases (m.outstanding == 0)) [
          | inl none_open ↦ absurd (cc (rw (room, none_open) at s))
          | inr open_call ↦ elim (Bool-cases (contains m.lh b)) [
            | inl absorbed ↦
                let same : m ≡ m' = cc (rw (room, open_call, absorbed) at s) in
                subst (Reserved size (set ops i k)) same (step m (omega arith) refl refl refl)
            | inr fresh ↦
                let same : record (bpin m b) { lh = m.lh ++ b ∷ [] } ≡ m' =
                  cc (rw (room, open_call, fresh) at s) in
                subst (Reserved size (set ops i k)) same (
                  step (record (bpin m b) { lh = m.lh ++ b ∷ [] })
                    (omega (arith, length-append m.lh (b ∷ []))) refl refl refl)
          ]
        ]
      ]
    where
      step :
          (n : Log A)
          → length n.lh ≤ length m.lh + 1
          → n.size ≡ m.size
          → n.outstanding ≡ m.outstanding
          → n.committing ≡ m.committing
          → Reserved size (set ops i k) n
      step n len zs os cs = record {
        same_size = zs ∙ v.same_size;
        counted = os ∙ v.counted ∙ sym (length-set ops i k);
        allowed = set-Allowed ops i k g v.allowed;
        room = elim v.room [
          | inl busy ↦ inl (cs ∙ busy)
          | inr room ↦ inr (omega (arith, total-set ops i k g))
        ];
        idle = λ busy. absurd (cc (ap (λ xs. get_elem? xs i) (v.idle (sym cs ∙ busy)), g));
      }

  ends-Reserved :
      {m m' : Log A} {size : ℕ} {commits : Bool} {ops : List ℕ} (i k : ℕ)
      → get_elem? ops i ≡ some k
      → end_op m ≡ ok (commits, m')
      → Reserved size ops m
      → Reserved size (erase_idx ops i) m'
  unfolding end_op
  ends-Reserved {m} {m'} {size} {commits} {ops} i k g s v = elim (Bool-cases (m.outstanding == 0)) [
    | inl none_open ↦ absurd (cc (rw none_open at s))
    | inr open_call ↦ elim (Bool-cases m.committing) [
      | inl busy ↦ absurd (cc (rw (open_call, busy) at s))
      | inr free ↦ elim (Bool-cases (m.outstanding == 1)) [
        | inl last ↦
            let same : record m { outstanding = 0; committing = true } ≡ m' =
              cc (rw (open_call, free, last) at s) in
            subst (Reserved size (erase_idx ops i)) same (record {
              same_size = v.same_size;
              counted = let one = (==_iff _ _).0 last in omega (arith, fewer, v.counted);
              allowed = erase-Allowed ops i v.allowed;
              room = inl refl;
              idle = λ _.
                  no_call (erase_idx ops i)
                    (let one = (==_iff _ _).0 last in omega (arith, fewer, v.counted));
            })
        | inr more ↦
            let same : record m { outstanding = m.outstanding - 1 } ≡ m' =
              cc (rw (open_call, free, more) at s) in
            subst (Reserved size (erase_idx ops i)) same (record {
              same_size = v.same_size;
              counted = omega (arith, fewer, v.counted);
              allowed = erase-Allowed ops i v.allowed;
              room = elim v.room [
                | inl busy ↦ absurd (cc)
                | inr room ↦ inr (omega (arith, total-erase ops i))
              ];
              idle = λ busy. absurd (cc);
            })
      ]
    ]
  ]
    where
      fewer : length (erase_idx ops i) + 1 ≡ length ops
      fewer = length-erase_idx ops i (get_elem?-lt ops i g)

      no_call : (xs : List ℕ) → length xs ≡ 0 → xs ≡ []
      no_call [] e = refl
      no_call (x ∷ xs) e = absurd (omega arith)

  finishes-Reserved :
      {m : Log A} {size : ℕ} {ops : List ℕ}
      → m.committing ≡ true
      → Reserved size ops m
      → Reserved size ops (end_commit m)
  unfolding end_commit
  finishes-Reserved {m} {size} {ops} busy v =
      let f = commit-fields m in
      record {
        same_size = f.0 ∙ v.same_size;
        counted = f.1 ∙ v.counted;
        allowed = v.allowed;
        room = inr (omega (arith, f.2, ap total (v.idle busy)));
        idle = λ again. absurd (cc again);
      }

  Runs-Reserved :
      {m₀ m : Log A} {ops : List ℕ}
      → m₀.outstanding ≡ 0
      → m₀.committing ≡ false
      → m₀.lh ≡ []
      → Runs m₀ ops m
      → Reserved m₀.size ops m
  Runs-Reserved o c e start = record {
    same_size = refl;
    counted = o;
    allowed = tt;
    room = inr (omega (arith, ap length e));
    idle = λ h. refl;
  }
  Runs-Reserved o c e (begins m' s t) = begins-Reserved s (Runs-Reserved o c e t)
  Runs-Reserved o c e (writes m' i k b g s t) = writes-Reserved i k b g s (Runs-Reserved o c e t)
  Runs-Reserved o c e (ends m' i k commits g s t) = ends-Reserved i k g s (Runs-Reserved o c e t)
  Runs-Reserved o c e (finishes busy t) = finishes-Reserved busy (Runs-Reserved o c e t)

  -- In a log of LOGSIZE blocks, the header counted, which is what mkfs makes, let any number of calls
  -- begin, write and end in any order, with commits between them. When a call has not yet written its
  -- MAXOPBLOCKS blocks, log_write of one more succeeds while the log holds fewer than LOGSIZE - 1 blocks.
  -- The only other case is that the log holds exactly LOGSIZE - 1; log_write then panics, and the
  -- block was the last one that the calls in progress had left between them.
  pub log_write-Runs :
      {m₀ m : Log A} {ops : List ℕ} (i k b : ℕ)
      → m₀.outstanding ≡ 0
      → m₀.committing ≡ false
      → m₀.lh ≡ []
      → m₀.size ≡ log_size
      → Runs m₀ ops m
      → get_elem? ops i ≡ some (suc k)
      → ((m' : Log A) × (log_write m b ≡ ok m') × (length m.lh + 1 < log_size))
        ⊎ ((log_write m b ≡ panic) × (length m.lh + 1 ≡ log_size) × (total ops ≡ 1))
  unfolding log_write
  log_write-Runs {m₀} {m} {ops} i k b o c e large t g =
      let v = Runs-Reserved o c e t in
      let used : length m.lh + total ops ≤ log_size = elim v.room [
        | inl busy ↦ absurd (cc (ap (λ xs. get_elem? xs i) (v.idle busy), g))
        | inr room ↦ room
      ] in
      let more = total-set ops i k g in
      let calls = get_elem?-lt ops i g in
      let n = v.counted in
      let z = v.same_size in
      let open_call : (m.outstanding == 0) ≡ false = ground arith in
      elim (Bool-cases (leb log_size (length m.lh) || leb (m.size - 1) (length m.lh))) [
        | inl full ↦ inr (rw full, ground arith, ground arith)
        | inr room ↦
            let below : length m.lh + 1 < log_size = ground arith in
            elim (Bool-cases (contains m.lh b)) [
              | inl absorbed ↦ inl (m, rw (room, open_call, absorbed), below)
              | inr fresh ↦
                  inl
                    (record (bpin m b) { lh = m.lh ++ b ∷ [] }, rw (room, open_call, fresh), below)
            ]
      ]
