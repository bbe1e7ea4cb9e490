-- ===== src/Proc/Fork.antt =====
-- What `allocproc`, `fork`, `reparent` and the loop of `wait` do to the table.
use operating_system.Common.{
  ℕ, ◌+◌, ◌<◌, ◌≡◌, refl, sym, ap, ◌∙◌, subst, ◌⊎◌, inl, inr, Bool, true, false, Option, none, some,
  arith, ==_refl, Option-cases, Run, ok, fault, ◌>>=◌, bind-ok,
}
use operating_system.Proc.{
  unused, used, Proc, Kernel, Frame, nproc, put_proc, freeproc, find_unused, set_up, allocproc,
}
use operating_system.Proc.Calls.{dup_files, idup, copy_entries, fork_fill, fork_copy}
use operating_system.Proc.Calm.{
  is_live, Calm, AllCalm, StaysOn, Quiet, trans-Quiet, same-Calm, trans-Calm, put_proc-Calm,
  put_proc-each, freeproc-Calm,
}
use operating_system.Proc.Find.{find_unused_lem}

-- The new process of a step may only be in a slot that was UNUSED.
new-Calm :
    (i : ℕ) (q q' : Proc)
    → i < nproc
    → q.state ≡ unused
    → (q'.state ≡ unused) ⊎ (q'.state ≡ used)
    → ((x : ℕ) → q'.parent ≡ some x → q.parent ≡ some x)
    → Calm i q q'
new-Calm i q q' in_table free new kin = record {
  live = λ h. absurd (cc (h, free));
  outside = λ n _. absurd (omega (arith, n, in_table));
  child = kin;
  in_wait = λ x h c. elim new [ inl e ↦ absurd (cc (e, h)) | inr e ↦ absurd (cc (e, h)) ];
  dead = λ h. elim new [ inl e ↦ absurd (cc (e, h)) | inr e ↦ absurd (cc (e, h)) ];
}

-- `allocproc` in slot `p`, and what it leaves alone.
pub record Allocated (k : Kernel) (made : Option ℕ × Kernel) : Type 0 where
  pub quiet : Quiet k made.1
  pub is_new : (np : ℕ) → made.0 ≡ some np → (((made.1).slot np).state ≡ used) × (np < nproc)

pub freeproc-StaysOn :
    (k : Kernel) (p : ℕ)
    → (k.slot p).state ≡ used
    → (i : ℕ) → StaysOn i (k.slot i) ((freeproc k p).slot i)
unfolding freeproc
freeproc-StaysOn k p off = put_proc-each StaysOn k p _ (λ i r h. h) (λ h. absurd (cc (h, off)))

pub freeproc-cpu : (k : Kernel) (p : ℕ) → (freeproc k p).cpu ≡ k.cpu
unfolding freeproc
freeproc-cpu k p = refl

pub freeproc-initproc : (k : Kernel) (p : ℕ) → (freeproc k p).initproc ≡ k.initproc
unfolding freeproc
freeproc-initproc k p = refl

-- What `set_up` makes of the slot first, and then with a frame and a page table.
module _ (k : Kernel) (p : ℕ) (in_table : p < nproc) (free : (k.slot p).state ≡ unused) where
  abbrev fresh : Kernel
  fresh = record (put_proc k p (record (k.slot p) { pid = k.nextpid; state = used })) {
    nextpid = k.nextpid + 1;
  }

  abbrev framed : Frame → Option ℕ → Kernel
  framed f table =
      put_proc fresh p (record (fresh.slot p) { trapframe = some f; pagetable = table })

  fresh-Calm : AllCalm k fresh
  fresh-Calm = put_proc-Calm k p _ (new-Calm p _ _ in_table free (inr refl) (λ x h. h))

  fresh-used : (fresh.slot p).state ≡ used
  fresh-used = rw (==_refl p)

  framed-Calm : (f : Frame) (table : Option ℕ) → AllCalm fresh (framed f table)
  framed-Calm f table = put_proc-Calm fresh p _ (record {
    live = λ h. h;
    outside = λ _ h. h;
    child = λ _ h. h;
    in_wait = λ _ h c. (h, c);
    dead = λ h. h;
  })

  framed-used : (f : Frame) (table : Option ℕ) → ((framed f table).slot p).state ≡ used
  framed-used f table = rw (==_refl p)

  fresh-StaysOn : (i : ℕ) → StaysOn i (k.slot i) (fresh.slot i)
  fresh-StaysOn = put_proc-each StaysOn k p _ (λ i r h. h) (λ h. absurd (cc (h, free)))

  framed-StaysOn :
      (f : Frame) (table : Option ℕ) (i : ℕ) → StaysOn i (fresh.slot i) ((framed f table).slot i)
  framed-StaysOn f table = put_proc-each StaysOn fresh p _ (λ i r h. h) (λ h. h)

  set_up-Allocated : (page : Option Frame) (table : Option ℕ) → Allocated k (set_up k p page table)
  unfolding set_up
  set_up-Allocated none table = record {
    quiet = record {
      calm =
          λ i. trans-Calm i _ _ _ (fresh-Calm i) (freeproc-Calm fresh p (ap is_live fresh-used) i);
      running_stays = λ i h. freeproc-StaysOn fresh p fresh-used i (fresh-StaysOn i h);
      same_cpus = freeproc-cpu fresh p;
      same_init = freeproc-initproc fresh p;
    };
    is_new = λ np e. absurd (cc e);
  }
  set_up-Allocated (some f) none = record {
    quiet = record {
      calm = λ i.
          trans-Calm i _ _ _ (trans-Calm i _ _ _ (fresh-Calm i) (framed-Calm f none i))
            (freeproc-Calm (framed f none) p (ap is_live (framed-used f none)) i);
      running_stays = λ i h.
          freeproc-StaysOn (framed f none) p (framed-used f none) i
            (framed-StaysOn f none i (fresh-StaysOn i h));
      same_cpus = freeproc-cpu (framed f none) p;
      same_init = freeproc-initproc (framed f none) p;
    };
    is_new = λ np e. absurd (cc e);
  }
  set_up-Allocated (some f) (some t) = record {
    quiet = record {
      calm = λ i. trans-Calm i _ _ _ (fresh-Calm i) (framed-Calm f (some t) i);
      running_stays = λ i h. framed-StaysOn f (some t) i (fresh-StaysOn i h);
      same_cpus = refl;
      same_init = refl;
    };
    is_new = λ np e.
        let same : p ≡ np = cc e in
        subst (λ j. (((framed f (some t)).slot j).state ≡ used) × (j < nproc)) same
          (framed-used f (some t), in_table);
  }

pub allocproc-Allocated :
    (k : Kernel) (page : Option Frame) (table : Option ℕ) → Allocated k (allocproc k page table)
unfolding allocproc
allocproc-Allocated k page table = elim (Option-cases (find_unused nproc k.slot 0)) [
  | inl none_free ↦
      rw (none_free, allocproc)
        (record {
          quiet = record {
            calm = λ i. same-Calm i (k.slot i);
            running_stays = λ i h. h;
            same_cpus = refl;
            same_init = refl;
          };
          is_new = λ np e. absurd (cc e);
        })
  | inr (p, found) ↦
      let r : ((k.slot p).state ≡ unused) × (p < 0 + nproc) =
        find_unused_lem nproc k.slot 0 p found in
      rw (found, allocproc) (set_up-Allocated k p r.1 r.0 page table)
]

module _ (k : Kernel) (p np : ℕ) (new : (k.slot np).state ≡ used) where
  filled-Quiet :
      (q : Proc) (refs irefs : ℕ → ℕ)
      → q.state ≡ used
      → q.parent ≡ (k.slot np).parent
      → Quiet k (record (put_proc k np q) { refs = refs; irefs = irefs })
  filled-Quiet q refs irefs now kin = record {
    calm = put_proc-Calm k np q (record {
      live = λ h. absurd (cc (h, new));
      outside = λ _ h. absurd (cc (h, new));
      child = λ _ h. sym kin ∙ h;
      in_wait = λ _ h c. absurd (cc (h, now));
      dead = λ h. absurd (cc (h, now));
    });
    running_stays = put_proc-each StaysOn k np q (λ i r h. h) (λ h. absurd (cc (h, new)));
    same_cpus = refl;
    same_init = refl;
  }

  freed-Quiet : Quiet k (freeproc k np)
  freed-Quiet = record {
    calm = freeproc-Calm k np (ap is_live new);
    running_stays = freeproc-StaysOn k np new;
    same_cpus = freeproc-cpu k np;
    same_init = freeproc-initproc k np;
  }

  -- The child's slot, and the rest of `fork_fill` when the memory could be copied.
  abbrev child_proc : Frame → Proc
  child_proc f = record (k.slot np) {
    sz = (k.slot p).sz;
    trapframe = some (record f { a0 = 0 });
    ofile = copy_entries (k.slot p).ofile (k.slot np).ofile;
    cwd = (k.slot p).cwd;
  }

  abbrev fill : Frame → Run (Option ℕ × Kernel)
  fill f = dup_files (k.slot p).ofile k.refs >>= λ refs. idup k.irefs (k.slot p).cwd >>= λ irefs.
      ok (some np, record (put_proc k np (child_proc f)) { refs = refs; irefs = irefs })

  fork_fill-Quiet :
      (copied : Bool) (r : Option ℕ) (k' : Kernel)
      → fork_fill k p np copied ≡ ok (r, k')
      → Quiet k k'
  unfolding fork_fill
  fork_fill-Quiet false r k' e = subst (λ m. Quiet k m) (cc e) freed-Quiet
  fork_fill-Quiet true r k' e = elim (Option-cases (k.slot p).trapframe) [
    | inl no_frame ↦ let out : fork_fill k p np true ≡ fault = rw no_frame in absurd (cc (out, e))
    | inr (f, frame) ↦
        let out : fork_fill k p np true ≡ fill f = rw frame in
        let (refs, counted, e') = bind-ok (dup_files (k.slot p).ofile k.refs) _ _ (sym out ∙ e) in
        let (irefs, held, e'') = bind-ok (idup k.irefs (k.slot p).cwd) _ _ e' in
        subst (λ m. Quiet k m) (cc e'') (filled-Quiet (child_proc f) refs irefs new refl)
  ]

pub fork_copy-Quiet :
    (k : Kernel) (p : ℕ) (page : Option Frame) (table : Option ℕ) (copied : Bool) (r : Option ℕ)
    (k' : Kernel)
    → fork_copy k p page table copied ≡ ok (r, k')
    → Quiet k k'
unfolding fork_copy allocproc
fork_copy-Quiet k p page table copied r k' e =
    let made : Option ℕ × Kernel = allocproc k page table in
    let a : Allocated k made = allocproc-Allocated k page table in
    elim (Option-cases made.0) [
      | inl failed ↦
          let out : fork_copy k p page table copied ≡ ok (none, made.1) = rw (failed, fork_copy) in
          let same : made.1 ≡ k' = cc (out, e) in subst (λ m. Quiet k m) same a.quiet
      | inr (np, got) ↦
          let out : fork_copy k p page table copied ≡ fork_fill made.1 p np copied =
            rw (got, fork_copy) in
          trans-Quiet k made.1 k' a.quiet
            (fork_fill-Quiet made.1 p np (a.is_new np got).0 copied r k' (sym out ∙ e))
    ]
