-- ===== src/Pipe/Trace.antt =====
-- Any interleaving of the rounds of writers and readers and of closing an end of the pipe.
use operating_system.Common.{
  ℕ, ◌+◌, ◌-◌, ◌%◌, ◌^◌, ◌≤◌, ◌<◌, ◌≡◌, sym, ap, ap₂, ◌∙◌, subst, ◌≢◌, inl, inr, Bool, true, false,
  not, ◌||◌, Option, none, some, List, [], ◌∷◌, ◌++◌, append_assoc, arith, ◌==◌, Bool-cases,
  Option-cases, get_or,
}
use operating_system.Pipe.{
  Pipe, Round, goes_on, pipe_size, pipeclose, pipewrite_round, piperead_round,
}
use operating_system.Pipe.Contents.{
  contents, unread, IsPipe, pipewrite_round-appends, piperead_round-takes, contents_cons,
}

-- From `p₀`, with the bytes written and the bytes taken so far.
pub data Trace (p₀ : Pipe) : (ws rs : List ℕ) → Pipe → Type 0 where
  start : Trace p₀ [] [] p₀
  written :
      {ws rs : List ℕ} {p : Pipe} (p' : Pipe) (killed : Bool) (ch : ℕ)
      → pipewrite_round p killed (some ch) ≡ (goes_on, p')
      → Trace p₀ ws rs p
      → Trace p₀ (ws ++ ch ∷ []) rs p'
  not_written :
      {ws rs : List ℕ} {p : Pipe} (p' : Pipe) (r : Round) (killed : Bool) (copyin : Option ℕ)
      → pipewrite_round p killed copyin ≡ (r, p')
      → r ≢ goes_on
      → Trace p₀ ws rs p
      → Trace p₀ ws rs p'
  taken :
      {ws rs : List ℕ} {p : Pipe} (p' : Pipe) (r : Round) (copyout : Bool) (b : ℕ)
      → piperead_round p copyout ≡ (some b, (r, p'))
      → Trace p₀ ws rs p
      → Trace p₀ ws (rs ++ b ∷ []) p'
  nothing_taken :
      {ws rs : List ℕ} {p : Pipe} (p' : Pipe) (r : Round) (copyout : Bool)
      → piperead_round p copyout ≡ (none, (r, p'))
      → Trace p₀ ws rs p
      → Trace p₀ ws rs p'
  closed :
      {ws rs : List ℕ} {p : Pipe} (p' : Pipe) (writable freed : Bool)
      → pipeclose p writable ≡ (p', freed)
      → Trace p₀ ws rs p
      → Trace p₀ ws rs p'

module _ {p p' : Pipe} (v : IsPipe p) where
  written-contents :
      (killed : Bool) (ch : ℕ)
      → pipewrite_round p killed (some ch) ≡ (goes_on, p')
      → (contents p' ≡ contents p ++ ch ∷ []) × IsPipe p'
  unfolding pipewrite_round unread
  written-contents killed ch e = elim (Bool-cases (not p.readopen || killed)) [
    | inl over ↦ absurd (cc (rw over at e))
    | inr under ↦ elim (Bool-cases (p.nwrite == (p.nread + pipe_size) % 2 ^ 32)) [
      | inl full ↦ absurd (cc (rw (under, full) at e))
      | inr room ↦
          let open_end : p.readopen ≡ true = ground arith in
          let alive : killed ≡ false = ground arith in
          let r : p.nread < 2 ^ 32 = v.reads in
          let w : p.nwrite < 2 ^ 32 = v.writes in
          let f : (p.nwrite + 2 ^ 32 - p.nread) % 2 ^ 32 ≤ pipe_size = v.fits in
          let (q, goes, appended, v') = pipewrite_round-appends v ch open_end (ground arith) in
          let same : q ≡ p' =
            ap (λ x. x.1)
              (unfold pipewrite_round in
                sym goes ∙ ap (λ k. pipewrite_round p k (some ch)) (sym alive) ∙ e) in
          (ap contents (sym same) ∙ appended, subst IsPipe same v')
    ]
  ]

  not_written-same :
      (r : Round) (killed : Bool) (copyin : Option ℕ)
      → pipewrite_round p killed copyin ≡ (r, p')
      → r ≢ goes_on
      → p ≡ p'
  unfolding pipewrite_round
  not_written-same r killed copyin e other = elim (Bool-cases (not p.readopen || killed)) [
    | inl over ↦ ap (λ x. x.1) (rw over at e)
    | inr under ↦ elim (Bool-cases (p.nwrite == (p.nread + pipe_size) % 2 ^ 32)) [
      | inl full ↦ ap (λ x. x.1) (rw (under, full) at e)
      | inr room ↦ elim (Option-cases copyin) [
        | inl absent ↦ ap (λ x. x.1) (rw (under, room, absent) at e)
        | inr (ch, present) ↦ absurd (other (ap (λ x. x.0) (sym (rw (under, room, present) at e))))
      ]
    ]
  ]

  taken-contents :
      (r : Round) (copyout : Bool) (b : ℕ)
      → piperead_round p copyout ≡ (some b, (r, p'))
      → (contents p ≡ b ∷ contents p') × IsPipe p'
  unfolding piperead_round
  taken-contents r copyout b e = elim (Bool-cases (p.nread == p.nwrite)) [
    | inl empty ↦ absurd (cc (rw empty at e))
    | inr differ ↦
        let (bs, first) = contents_cons v differ in
        let (q, takes, rest, v') = piperead_round-takes v copyout _ bs first in
        let both = sym takes ∙ e in
        let same : q ≡ p' = ap (λ x. x.1.1) both in
        let byte : get_or p.bytes (p.nread % pipe_size) 0 ≡ b = cc in
        (first ∙ ap₂ (λ x ys. x ∷ ys) byte (sym rest ∙ ap contents same), subst IsPipe same v')
  ]

  nothing_taken-same :
      (r : Round) (copyout : Bool) → piperead_round p copyout ≡ (none, (r, p')) → p ≡ p'
  unfolding piperead_round
  nothing_taken-same r copyout e = elim (Bool-cases (p.nread == p.nwrite)) [
    | inl empty ↦ ap (λ x. x.1.1) (rw empty at e)
    | inr some_byte ↦ absurd (cc (rw some_byte at e))
  ]

  closed-contents :
      (writable freed : Bool)
      → pipeclose p writable ≡ (p', freed)
      → (contents p' ≡ contents p) × IsPipe p'
  unfolding pipeclose contents unread
  closed-contents true freed e =
      let same = ap (λ x. x.0) e in
      (
        ap contents (sym same),
        subst IsPipe same
            (record { storage = v.storage; reads = v.reads; writes = v.writes; fits = v.fits }),
      )
  closed-contents false freed e =
      let same = ap (λ x. x.0) e in
      (
        ap contents (sym same),
        subst IsPipe same
            (record { storage = v.storage; reads = v.reads; writes = v.writes; fits = v.fits }),
      )

-- Whatever the order of the rounds, the bytes taken are the first of those that were written, in their
-- order and each once, and the pipe holds the others, never more than its array has room for.
pub Trace-fifo :
    {p₀ p : Pipe} {ws rs : List ℕ}
    → IsPipe p₀
    → contents p₀ ≡ []
    → Trace p₀ ws rs p
    → (ws ≡ rs ++ contents p) × IsPipe p
Trace-fifo v e start = (sym e, v)
Trace-fifo v e (written {ws} {rs} {p} p' killed ch round t) =
    let (same, valid) = Trace-fifo v e t in
    let (appended, valid') = written-contents valid killed ch round in
    (
      ap (λ xs. xs ++ ch ∷ []) same
          ∙ append_assoc rs (contents p) (ch ∷ [])
          ∙ ap (λ xs. rs ++ xs) (sym appended),
      valid',
    )
Trace-fifo v e (not_written {ws} {rs} p' r killed copyin round other t) =
    let (same, valid) = Trace-fifo v e t in
    subst (λ q. (ws ≡ rs ++ contents q) × IsPipe q)
      (not_written-same valid r killed copyin round other) (same, valid)
Trace-fifo v e (taken {ws} {rs} p' r copyout b round t) =
    let (same, valid) = Trace-fifo v e t in
    let (first, valid') = taken-contents valid r copyout b round in
    (same ∙ ap (λ xs. rs ++ xs) first ∙ sym (append_assoc rs (b ∷ []) (contents p')), valid')
Trace-fifo v e (nothing_taken {ws} {rs} p' r copyout round t) =
    let (same, valid) = Trace-fifo v e t in
    subst (λ q. (ws ≡ rs ++ contents q) × IsPipe q) (nothing_taken-same valid r copyout round)
      (same, valid)
Trace-fifo v e (closed {ws} {rs} p' writable freed round t) =
    let (same, valid) = Trace-fifo v e t in
    let (kept, valid') = closed-contents valid writable freed round in
    (same ∙ ap (λ xs. rs ++ xs) (sym kept), valid')
