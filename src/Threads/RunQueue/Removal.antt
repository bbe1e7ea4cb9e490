-- ===== src/Threads/RunQueue/Removal.antt =====
-- `thread_exit` of mp1/xv6/user/threads.c on the run queue.
use operating_system.Common.{
  ℕ, ◌≡◌, refl, sym, ap, ◌∙◌, ◌≢◌, true, false, List, [], ◌∷◌, arith, ◌==◌, if◌then◌else◌, ==_iff,
  contains, IsDistinct,
}
use operating_system.Threads.{Thread, Sched, set_next, set_previous, thread_exit}
use operating_system.Threads.RunQueue.{
  IsRing, Linked, links, last_or, previous-last_or, contains-last_or, relink,
}

-- The links after the removal of a thread between `l` and `d`.
removed : (h : ℕ → Thread) (l d : ℕ) → ℕ → Thread
removed h l d = set_previous d l (set_next l d h)

module _ (h : ℕ → Thread) (l d : ℕ) where
  next-removed : (x : ℕ) → (removed h l d x).next ≡ (if l == x then d else (h x).next)
  unfolding removed
  next-removed x = simp links

  previous-removed : (x : ℕ) → (removed h l d x).previous ≡ (if d == x then l else (h x).previous)
  unfolding removed
  previous-removed x = simp links

thread_exit-removed :
    (s : Sched)
    → s.current ≢ 0
    → (s.threads s.current).next ≢ s.current
    → (s.threads s.current).previous ≢ s.current
    → thread_exit s ≡ (
      false,
      record s {
        threads = removed s.threads (s.threads s.current).previous (s.threads s.current).next;
        current = (s.threads s.current).next;
      },
    )
unfolding thread_exit removed
thread_exit-removed s nz others back =
    let not_empty : (s.current == 0) ≡ false = ground arith in
    let more : ((s.threads s.current).next == s.current) ≡ false = ground arith in
    let apart : ((s.threads s.current).previous == s.current) ≡ false = ground arith in
    rw (not_empty, more) (simp (links, apart))

Linked-removed :
    (h : ℕ → Thread) (c d : ℕ) (xs : List ℕ)
    → Linked h d xs c
    → IsDistinct (c ∷ d ∷ xs)
    → Linked (removed h (h c).previous d) d xs d
Linked-removed h c d xs k dist =
    let l : ℕ = (h c).previous in
    relink h (removed h l d) l c d d xs k (sym (previous-last_or h d xs c k)) dist.1
      (ground (arith, next-removed h l d l)) (ground (arith, previous-removed h l d d))
      (λ x i ne. ground (arith, next-removed h l d x))
      (λ x i. ground (arith, previous-removed h l d x, dist.1.0))

-- The exit of the current thread while others are queued takes it out of the queue, keeps the order
-- of the others and makes the next one current.
pub thread_exit-next :
    {s : Sched} {c d : ℕ} {xs : List ℕ}
    → IsRing s c (d ∷ xs)
    → ((thread_exit s).0 ≡ false) × IsRing (thread_exit s).1 d xs
thread_exit-next {s} {c} {d} {xs} r =
    let at_c : s.current ≡ c = r.current in
    let behind : (s.threads c).previous ≡ last_or d xs =
      previous-last_or s.threads d xs c r.linked.2 in
    let apart : (s.threads c).previous ≢ c = λ e.
      cc (sym (contains-last_or d xs) ∙ ap (contains (d ∷ xs)) (sym behind ∙ e) ∙ r.distinct.0) in
    let ahead : (s.threads c).next ≡ d = r.linked.0 in
    let not_alone : (s.threads c).next ≢ c = λ e. ground (arith, r.distinct) in
    rw
      (
        thread_exit-removed s (ground (arith, r.not_null)) (rw at_c not_alone) (rw at_c apart),
        at_c,
        ahead,
      )
      (
        refl,
        record {
          current = refl;
          not_null = ground (arith, r.not_null);
          distinct = r.distinct.1;
          linked = Linked-removed s.threads c d xs r.linked.2 r.distinct;
        },
      )

-- The exit of the last thread leaves the queue empty and ends the process.
pub thread_exit-last :
    {s : Sched} {c : ℕ} → IsRing s c [] → thread_exit s ≡ (true, record s { current = 0 })
unfolding thread_exit
thread_exit-last {s} {c} r =
    let some_thread : (s.current == 0) ≡ false = ground (arith, r.not_null) in
    let alone : ((s.threads s.current).next == s.current) ≡ true =
      (==_iff _ _).1 (ap (λ p. (s.threads p).next) r.current ∙ r.linked.0 ∙ sym r.current) in
    rw (some_thread, alone)
