-- ===== src/Threads/RunQueue.antt =====
-- The run queue: a circular doubly linked list against a list of threads with the current one first.
pub mod Removal
use operating_system.Common.{
  append-IsDistinct, ℕ, ◌≡◌, refl, sym, ap, ◌∙◌, ◌≢◌, true, false, List, [], ◌∷◌, ◌++◌, arith, ◌==◌,
  if◌then◌else◌, ==_iff, ==_refl, contains, contains-append, IsDistinct,
}
use operating_system.Threads.{
  Thread, Sched, set_next, set_previous, thread_add_runqueue, schedule, thread_exit,
}

-- What the two assignments do to each link.
next-set_next :
    (p q : ℕ) (h : ℕ → Thread) (x : ℕ)
    → (set_next p q h x).next ≡ (if p == x then q else (h x).next)
unfolding set_next
next-set_next p q h x = ground arith

previous-set_next :
    (p q : ℕ) (h : ℕ → Thread) (x : ℕ) → (set_next p q h x).previous ≡ (h x).previous
unfolding set_next
previous-set_next p q h x = ground arith

next-set_previous : (p q : ℕ) (h : ℕ → Thread) (x : ℕ) → (set_previous p q h x).next ≡ (h x).next
unfolding set_previous
next-set_previous p q h x = ground arith

previous-set_previous :
    (p q : ℕ) (h : ℕ → Thread) (x : ℕ)
    → (set_previous p q h x).previous ≡ (if p == x then q else (h x).previous)
unfolding set_previous
previous-set_previous p q h x = ground arith

ruleset links = (next-set_next, previous-set_next, next-set_previous, previous-set_previous)

-- From `a` on, `next` leads through `xs` to `z`, and `previous` leads back.
abbrev pub Linked : (ℕ → Thread) → ℕ → List ℕ → ℕ → Type 0
Linked h a [] z = ((h a).next ≡ z) × ((h z).previous ≡ a)
Linked h a (b ∷ xs) z = ((h a).next ≡ b) × ((h b).previous ≡ a) × Linked h b xs z

-- The run queue holds the distinct threads `c ∷ xs`, the current one first.
pub record IsRing (s : Sched) (c : ℕ) (xs : List ℕ) : Type 0 where
  pub current : s.current ≡ c
  pub not_null : contains (c ∷ xs) 0 ≡ false
  pub distinct : IsDistinct (c ∷ xs)
  pub linked : Linked s.threads c xs c

pub last_or : ℕ → List ℕ → ℕ
last_or a [] = a
last_or a (b ∷ xs) = last_or b xs

previous-last_or :
    (h : ℕ → Thread) (a : ℕ) (xs : List ℕ) (z : ℕ) → Linked h a xs z → (h z).previous ≡ last_or a xs
unfolding last_or
previous-last_or h a [] z l = l.1
previous-last_or h a (b ∷ xs) z l = previous-last_or h b xs z l.2

-- Linked lists can be joined and split at a node.
Linked-append :
    (h : ℕ → Thread) (a : ℕ) (xs : List ℕ) (b : ℕ) (ys : List ℕ) (z : ℕ)
    → Linked h a xs b
    → Linked h b ys z
    → Linked h a (xs ++ b ∷ ys) z
Linked-append h a [] b ys z l r = (l.0, l.1, r)
Linked-append h a (x ∷ xs) b ys z l r = (l.0, l.1, Linked-append h x xs b ys z l.2 r)

-- On a ring of at least two threads `schedule` turns the queue by one: the current thread goes to the
-- back, and the queue is still a ring.
pub schedule-rotates :
    {s : Sched} {c d : ℕ} {xs : List ℕ} → IsRing s c (d ∷ xs) → IsRing (schedule s) d (xs ++ c ∷ [])
unfolding schedule
schedule-rotates {s} {c} {d} {xs} r = record {
  current = ap (λ p. (s.threads p).next) r.current ∙ r.linked.0;
  not_null = ground (arith, contains-append xs (c ∷ []) 0, r.not_null);
  distinct = append-IsDistinct c (d ∷ xs) r.distinct.1 r.distinct.0;
  linked = Linked-append s.threads d xs c [] d r.linked.2 (r.linked.0, r.linked.1);
}

-- A thread that is alone stays the current one.
pub schedule-alone : {s : Sched} {c : ℕ} → IsRing s c [] → IsRing (schedule s) c []
unfolding schedule
schedule-alone {s} r = record {
  current = ap (λ p. (s.threads p).next) r.current ∙ r.linked.0;
  not_null = r.not_null;
  distinct = r.distinct;
  linked = r.linked;
}

contains-last_or : (a : ℕ) (xs : List ℕ) → contains (a ∷ xs) (last_or a xs) ≡ true
unfolding last_or
contains-last_or a [] = ground (arith, ==_refl a)
contains-last_or a (b ∷ xs) = ground (arith, contains-last_or b xs)

-- A list that led to `z` leads to `t` instead, once its last node `l` and `t` are joined.
relink :
    (h h' : ℕ → Thread) (l z t a : ℕ) (xs : List ℕ)
    → Linked h a xs z
    → last_or a xs ≡ l
    → IsDistinct (a ∷ xs)
    → (h' l).next ≡ t
    → (h' t).previous ≡ l
    → ((x : ℕ) → contains (a ∷ xs) x ≡ true → x ≢ l → (h' x).next ≡ (h x).next)
    → ((x : ℕ) → contains xs x ≡ true → (h' x).previous ≡ (h x).previous)
    → Linked h' a xs t
unfolding last_or
relink h h' l z t a [] k e d nl pt ns ps = (ap (λ x. (h' x).next) e ∙ nl, pt ∙ sym e)
relink h h' l z t a (b ∷ xs) k e d nl pt ns ps =
    let not_last : a ≢ l =
      λ q. cc (sym (contains-last_or b xs) ∙ ap (contains (b ∷ xs)) (e ∙ sym q) ∙ d.0) in
    (
      ns a (ground (arith, ==_refl a)) not_last ∙ k.0,
      ps b (ground (arith, ==_refl b)) ∙ k.1,
      relink h h' l z t b xs k.2 e d.1 nl pt (λ x i. ns x (ground arith))
          (λ x i. ps x (ground arith)),
    )

-- `thread_add_runqueue` on an empty queue makes the thread the only one.
pub thread_add_runqueue-first :
    (s : Sched) (t : ℕ) → s.current ≡ 0 → t ≢ 0 → IsRing (thread_add_runqueue s t) t []
unfolding thread_add_runqueue
thread_add_runqueue-first s t e nt = rw e (record {
  current = refl;
  not_null = ground arith;
  distinct = (refl, tt);
  linked = (simp (links, ==_refl), simp (links, ==_refl));
})

-- The links after the insertion of `t` before `c`, whose predecessor was `l`.
inserted : (h : ℕ → Thread) (l c t : ℕ) → ℕ → Thread
inserted h l c t = set_previous c t (set_next l t (set_next t c (set_previous t l h)))

thread_add_runqueue-inserted :
    (s : Sched) (t : ℕ)
    → s.current ≢ 0
    → t ≢ s.current
    → thread_add_runqueue s t
      ≡ record s { threads = inserted s.threads (s.threads s.current).previous s.current t }
unfolding thread_add_runqueue inserted
thread_add_runqueue-inserted s t nz ne =
    let c = s.current in
    let l : ℕ = (s.threads c).previous in
    let not_empty : (s.current == 0) ≡ false = ground arith in
    let other : (t == c) ≡ false = ground arith in
    let same : (set_next t c (set_previous t l s.threads) c).previous ≡ l =
      previous-set_next t c (set_previous t l s.threads) c
      ∙ previous-set_previous t l s.threads c
      ∙ rw other in
    rw (not_empty, same)

module _ (h : ℕ → Thread) (l c t : ℕ) where
  next-inserted :
      (x : ℕ) → (inserted h l c t x).next ≡ (if l == x then t else if t == x then c else (h x).next)
  unfolding inserted
  next-inserted x = simp links

  previous-inserted :
      (x : ℕ)
      → (inserted h l c t x).previous ≡ (if c == x then t else if t == x then l else (h x).previous)
  unfolding inserted
  previous-inserted x = simp links

Linked-inserted :
    (h : ℕ → Thread) (c t : ℕ) (xs : List ℕ)
    → Linked h c xs c
    → IsDistinct (c ∷ xs)
    → contains (c ∷ xs) t ≡ false
    → Linked (inserted h (h c).previous c t) c (xs ++ t ∷ []) c
Linked-inserted h c t xs k d out =
    let l : ℕ = (h c).previous in
    let is_last : last_or c xs ≡ l = sym (previous-last_or h c xs c k) in
    let l_in : contains (c ∷ xs) l ≡ true =
      ap (contains (c ∷ xs)) (sym is_last) ∙ contains-last_or c xs in
    let l_ne : l ≢ t = λ e. cc (sym (rw e at l_in) ∙ out) in
    let h' : ℕ → Thread = inserted h l c t in
    Linked-append h' c xs t [] c
      (relink h h' l c t c xs k is_last d (ground (arith, next-inserted h l c t l))
        (ground (arith, previous-inserted h l c t t, d.0))
        (λ x i ne. ground (arith, next-inserted h l c t x))
        (λ x i. ground (arith, previous-inserted h l c t x, d.0)))
      (ground (arith, next-inserted h l c t t), ground (arith, previous-inserted h l c t c))

-- `thread_add_runqueue` puts a thread that is not in the queue behind all others.
pub thread_add_runqueue-last :
    {s : Sched} {c : ℕ} {xs : List ℕ} (t : ℕ)
    → IsRing s c xs
    → contains (c ∷ xs) t ≡ false
    → t ≢ 0
    → IsRing (thread_add_runqueue s t) c (xs ++ t ∷ [])
thread_add_runqueue-last {s} {c} {xs} t r out nt =
    let at_c : s.current ≡ c = r.current in
    rw (thread_add_runqueue-inserted s t (ground (arith, r.not_null)) (ground arith), at_c)
      (record {
        current = refl;
        not_null = ground (arith, contains-append xs (t ∷ []) 0, r.not_null);
        distinct = append-IsDistinct t (c ∷ xs) r.distinct out;
        linked = Linked-inserted s.threads c t xs r.linked r.distinct out;
      })
