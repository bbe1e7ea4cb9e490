-- ===== src/Log/Recover.antt =====
-- `initlog` of log.c on each of the disks that a crash can leave.
use operating_system.Common.{
  ℕ, ◌+◌, ◌≤◌, ◌<◌, ◌≡◌, refl, sym, ap, ◌∙◌, subst, ◌⊎◌, inl, inr, Bool, true, false, some, List,
  [], arith, Bool-cases, length, get_elem?, contains, get_elem?-lt, get_elem?-contains,
}
use operating_system.Log.{
  Disk, Log, initlog, recover_from_log, read_head, write_head, install_trans, install_loop,
}
use operating_system.Log.Write.{All, changed, store_block-other}
use operating_system.Log.Install.{Installed, install_loop-Installed}

-- The blocks outside the log.
abbrev pub Home : (start size : ℕ) → ℕ → Type 0
Home start size b = (b < start) ⊎ (start + size ≤ b)

abbrev pub Holds : {A : Type 0} (start size : ℕ) → (ℕ → A) → Disk A → Type 0
Holds start size f d = (b : ℕ) → Home start size b → d.block b ≡ f b

-- A transaction changes the blocks `bs` of a file system from `old` to `new`.
module _ {A : Type 0} (start size : ℕ) (old new : ℕ → A) (bs : List ℕ) where
  pub record IsCommitted (d : Disk A) : Type 0 where
    pub head : d.head ≡ bs
    pub logged : (i b : ℕ) → get_elem? bs i ≡ some b → d.block (start + (0 + i) + 1) ≡ new b
    pub others : (b : ℕ) → Home start size b → contains bs b ≡ false → d.block b ≡ new b

  -- The disks before the header is written, while it stands, and after it is cleared.
  pub data Safe (d : Disk A) : Type 0 where
    is_old : d.head ≡ [] → Holds start size old d → Safe d
    is_committed : IsCommitted d → Safe d
    is_new : d.head ≡ [] → Holds start size new d → Safe d

  -- The transaction's blocks are outside the log, which has room for them.
  pub record Fits : Type 0 where
    pub homes : (i b : ℕ) → get_elem? bs i ≡ some b → Home start size b
    pub room : length bs < size

  module _ (f : Fits) where
    pub IsCommitted-changed :
        (d : Disk A) (b : ℕ) (v : A)
        → IsCommitted d
        → (contains bs b ≡ true) × Home start size b
        → v ≡ new b
        → IsCommitted (changed d b v)
    IsCommitted-changed d b v c t e = record {
      head = c.head;
      logged = λ i x at_i.
          let lt = get_elem?-lt bs i at_i in
          let r = f.room in
          store_block-other d.block b v (start + (0 + i) + 1)
            (elim t.1 [ inl lo ↦ omega arith | inr hi ↦ omega arith ])
          ∙ c.logged i x at_i;
      others = λ x h out.
          store_block-other d.block b v x (λ same. cc (ap (contains bs) same, t.0, out))
          ∙ c.others x h out;
    }

    away : (i b : ℕ) → get_elem? bs i ≡ some b → (b < start + 0 + 1) ⊎ (start + 0 + length bs < b)
    away i b e =
        let r = f.room in
        elim (f.homes i b e) [ inl lo ↦ inl (omega arith) | inr hi ↦ inr (omega arith) ]

    -- The installation of a committed transaction, in `commit` or in recovery.
    pub install-IsCommitted :
        (recovering : Bool) (m : Log A)
        → m.start ≡ start
        → ((i b : ℕ) → get_elem? bs i ≡ some b → m.cached (start + (0 + i) + 1) ≡ new b)
        → All Safe m.past
        → IsCommitted m.disk
        → Installed IsCommitted Safe
            (λ b. (contains bs b ≡ true) × Home start size b)
            new
            (λ d b v. IsCommitted-changed d b v)
            (λ d. is_committed)
            bs
            m
            (install_loop recovering bs 0 m)
    install-IsCommitted recovering m same ready past now =
        install_loop-Installed IsCommitted Safe (λ b. (contains bs b ≡ true) × Home start size b)
          new (λ d b v. IsCommitted-changed d b v) (λ d. is_committed) recovering bs 0 m
          (λ i b e. subst (λ s. (b < s + 0 + 1) ⊎ (s + 0 + length bs < b)) (sym same) (away i b e))
          (λ i b e. (get_elem?-contains bs i b e, f.homes i b e))
          (λ i b e. subst (λ s. m.cached (s + (0 + i) + 1) ≡ new b) (sym same) (ready i b e)) past
          now

    -- What a recovery leaves: the file system before or after the transaction, an empty log, and
    -- only disks from which a further recovery would do the same.
    pub record Recovered (m : Log A) : Type 0 where
      pub empty : m.disk.head ≡ []
      pub either : (Holds start size old m.disk) ⊎ (Holds start size new m.disk)
      pub past : All Safe m.past

    -- The machine that `initlog` starts on, and the end of its recovery.
    abbrev booted : Disk A → List ℕ → Log A
    booted d lh = record {
      disk = d;
      past = [];
      cached = d.block;
      pins = λ _. 0;
      lh = lh;
      start = start;
      size = size;
      outstanding = 0;
      committing = false;
    }

    abbrev cleared : Log A → Log A
    cleared m = write_head (record m { lh = [] })

    Recovered-empty :
        (d : Disk A)
        → Safe d
        → (Holds start size old d) ⊎ (Holds start size new d)
        → Recovered (cleared (install_loop true [] 0 (booted d [])))
    unfolding install_loop write_head
    Recovered-empty d s e = record { empty = refl; either = e; past = (s, tt) }

    Recovered-committed :
        (d : Disk A) → IsCommitted d → Recovered (cleared (install_loop true bs 0 (booted d bs)))
    unfolding write_head
    Recovered-committed d c =
        let r = install-IsCommitted true (booted d bs) refl (λ i b e. c.logged i b e) tt c in
        record {
          empty = refl;
          either = inr λ b h. r.blocks b ∙ elim (Bool-cases (contains bs b)) [
            | inl in_bs ↦ rw in_bs
            | inr out ↦ rw out (c.others b h out)
          ];
          past = (is_committed r.after, r.before);
        }

    -- The recovery from each disk that a crash can leave.
    pub initlog-Recovered : (d : Disk A) → Safe d → Recovered (initlog d start size)
    unfolding initlog recover_from_log read_head install_trans
    initlog-Recovered d (is_old h o) =
        subst (λ lh. Recovered (cleared (install_loop true lh 0 (booted d lh)))) (sym h)
          (Recovered-empty d (is_old h o) (inl o))
    initlog-Recovered d (is_new h n) =
        subst (λ lh. Recovered (cleared (install_loop true lh 0 (booted d lh)))) (sym h)
          (Recovered-empty d (is_new h n) (inr n))
    initlog-Recovered d (is_committed c) =
        subst (λ lh. Recovered (cleared (install_loop true lh 0 (booted d lh)))) (sym c.head)
          (Recovered-committed d c)
