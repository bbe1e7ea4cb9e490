-- ===== src/Threads.antt =====
-- The user-level threads of mp1/xv6/user/threads.c. `setjmp` and `longjmp` are not under this model:
-- `dispatch` tells which saved context it jumps to or which function it calls.
pub mod RunQueue
pub mod Dispatch
mod Tests
use operating_system.Common.{
  ℕ, zero, suc, ◌+◌, ◌-◌, ◌*◌, ◌/◌, ◌%◌, ◌^◌, ◌≤◌, ◌<◌, min, max, ◌≡◌, refl, sym, ap, ap₂, ◌∙◌,
  subst, ◌≢◌, ◌↔◌, ◌⊎◌, inl, inr, Bool, true, false, not, ◌&&◌, ◌||◌, Option, none, some, List, [],
  ◌∷◌, ◌++◌, append-nil, append_assoc, arith, ltb, leb, ◌==◌, if◌then◌else◌, ltb→lt, lt→ltb, le→ltb,
  ==_iff, ==_refl, Bool-cases, Option-cases, length, get_elem?, get_or, set, take, drop, replicate,
  erase_idx, length-append, length-set, length-take, length-drop, length-replicate,
  length-erase_idx, take-set, get_or-take, get_or-set_self, contains, contains-append, IsDistinct,
  Run, ok, panic, fault, out_of_fuel, ◌>>=◌, ◌>>◌, ℤ, pos, negsuc, minus_one, is_negative,
}

-- `struct thread`, without the contents of the saved contexts. A flag `-1` is `minus_one`.
pub record Thread : Type 0 where
  pub fp : ℕ
  pub arg : ℕ
  pub stack : ℕ
  pub stack_p : ℕ
  pub buf_set : ℤ
  pub task_fp : List ℕ
  pub task_arg : List ℕ
  pub task_stack : List ℕ
  pub task_stack_p : List ℕ
  pub task_buf_set : List ℤ
  pub num_tasks : ℤ
  pub current_task : ℤ
  pub task_yield : ℕ
  pub thread_yield : ℕ
  pub id : ℕ
  pub previous : ℕ
  pub next : ℕ

-- The threads at their addresses, `current_thread` (0 for NULL) and the counter `id`.
pub record Sched : Type 0 where
  pub threads : ℕ → Thread
  pub current : ℕ
  pub next_id : ℕ

unfoldable pub put : (ℕ → Thread) → ℕ → Thread → ℕ → Thread
put h p t q = if p == q then t else h q

-- `p->next = q` and `p->previous = q`
unfoldable pub set_next : ℕ → ℕ → (ℕ → Thread) → ℕ → Thread
unfolding put
set_next p q h = put h p (record (h p) { next = q })

unfoldable pub set_previous : ℕ → ℕ → (ℕ → Thread) → ℕ → Thread
unfolding put
set_previous p q h = put h p (record (h p) { previous = q })

-- The number of places of the task arrays.
abbrev pub max_task : ℕ
max_task = 20

-- `thread_create`: `fresh` and `new_stack` are the results of `malloc`, and `junk` is what stands in
-- the task arrays before.
unfoldable pub thread_create : Sched → (fresh new_stack f arg : ℕ) → (junk : Thread) → Sched
unfolding put
thread_create s fresh new_stack f arg junk = record {
  threads = put s.threads fresh (record junk {
    fp = f;
    arg = arg;
    stack = new_stack;
    stack_p = new_stack + 0x100 * 8 - 0x2 * 8;
    buf_set = minus_one;
    num_tasks = minus_one;
    current_task = minus_one;
    task_yield = 0;
    thread_yield = 0;
    id = s.next_id;
    previous = 0;
    next = 0;
  });
  current = s.current;
  next_id = s.next_id + 1;
}

unfoldable pub thread_add_runqueue : Sched → ℕ → Sched
thread_add_runqueue s t =
    if s.current == 0
    then record {
      threads = set_next t t (set_previous t t s.threads);
      current = t;
      next_id = s.next_id;
    }
    else let c = s.current in
      let h₁ = set_previous t (s.threads c).previous s.threads in
      let h₂ = set_next t c h₁ in
      let h₃ = set_next (h₂ c).previous t h₂ in
      record { threads = set_previous c t h₃; current = c; next_id = s.next_id }

unfoldable pub schedule : Sched → Sched
schedule s = record s { current = (s.threads s.current).next }

-- `thread_exit` up to its call of `dispatch`: the flag says whether the process exits instead. The
-- memory that it frees is not reused in this model.
unfoldable pub thread_exit : Sched → Bool × Sched
thread_exit s =
    if s.current == 0
    then (false, s)
    else if (s.threads s.current).next == s.current
    then (true, record s { current = 0 })
    else let c = s.current in
      let h₁ = set_next (s.threads c).previous (s.threads c).next s.threads in
      let h₂ = set_previous (h₁ c).next (h₁ c).previous h₁ in
      (false, record s { threads = h₂; current = (h₂ c).next })
