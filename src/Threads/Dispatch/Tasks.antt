-- ===== src/Threads/Dispatch/Tasks.antt =====
-- Tasks run in last-come-first-served order, and a context that was saved is the one resumed.
use operating_system.Common.{
  ℕ, zero, suc, ◌+◌, ◌-◌, ◌*◌, ◌≤◌, ◌<◌, ◌≡◌, refl, sym, ap, ap₂, ◌∙◌, ◌⊎◌, inl, inr, true, false,
  some, List, [], ◌∷◌, arith, ltb, length, get_elem?, get_or, set, length-set, get_or-set_self, ok,
  fault, ℤ, pos, minus_one,
}
use operating_system.Threads.{Thread, max_task}
use operating_system.Threads.Dispatch.{
  resume_task, call_task, resume_thread, run_tasks, task_count, dispatch, after_tasks, yield_saves,
  assign_at, assign_next, thread_assign_task,
}

-- The arrays of a thread have their full length, and `num_tasks` is -1 or an index of them.
pub record IsThread (t : Thread) : Type 0 where
  pub count : task_count t.num_tasks ≤ max_task
  pub not_below : t.num_tasks ≡ minus_one ⊎ ((n : ℕ) × (t.num_tasks ≡ pos n))
  pub fps : length t.task_fp ≡ max_task
  pub args : length t.task_arg ≡ max_task
  pub stacks : length t.task_stack ≡ max_task
  pub stack_ps : length t.task_stack_p ≡ max_task
  pub flags : length t.task_buf_set ≡ max_task

pub get_elem?-set_self :
    (xs : List ℤ) (i : ℕ) (v : ℤ) → i < length xs → get_elem? (set xs i v) i ≡ some v
get_elem?-set_self [] i v h = absurd (omega arith)
get_elem?-set_self (x ∷ xs) zero v h = refl
get_elem?-set_self (x ∷ xs) (suc i) v h = get_elem?-set_self xs i v (omega arith)

run_tasks-resume :
    (i : ℕ) (t : Thread)
    → get_elem? t.task_buf_set i ≡ some (pos 1)
    → run_tasks (suc i) t ≡ ok (some (resume_task i), record t { current_task = pos i })
unfolding run_tasks
run_tasks-resume i t f = ground arith

abbrev pub called : Thread → ℕ → Thread
called t i = record t { current_task = pos i; task_buf_set = set t.task_buf_set i (pos 0) }

run_tasks-call :
    (i : ℕ) (t : Thread)
    → get_elem? t.task_buf_set i ≡ some minus_one
    → run_tasks (suc i) t
      ≡ ok (some (call_task i (get_or t.task_fp i 0) (get_or t.task_arg i 0)), called t i)
unfolding run_tasks
run_tasks-call i t f = ground arith

-- The topmost task decides: with the flag 1 its saved context is resumed, with -1 its function is
-- called, whatever tasks are below.
pub dispatch-top :
    (t : Thread) (n : ℕ)
    → t.num_tasks ≡ pos n
    → (get_elem? t.task_buf_set n ≡ some (pos 1)
        → dispatch t ≡ ok (resume_task n, record t { current_task = pos n }))
      × (get_elem? t.task_buf_set n ≡ some minus_one
          → dispatch t
            ≡ ok (call_task n (get_or t.task_fp n 0) (get_or t.task_arg n 0), called t n))
unfolding dispatch
dispatch-top t n e =
    let c : task_count t.num_tasks ≡ suc n = ap task_count e in
    (λ f. rw (c, run_tasks-resume n t f), λ f. rw (c, run_tasks-call n t f))

abbrev pub assigned : Thread → (n f arg new_stack : ℕ) → Thread
assigned t n f arg new_stack = record t {
  num_tasks = pos n;
  task_fp = set t.task_fp n f;
  task_arg = set t.task_arg n arg;
  task_stack = set t.task_stack n new_stack;
  task_stack_p = set t.task_stack_p n (new_stack + 0x100 * 8 - 0x2 * 8);
  task_buf_set = set t.task_buf_set n minus_one;
}

thread_assign_task-at :
    (t : Thread) (f arg new_stack : ℕ)
    → IsThread t
    → thread_assign_task t f arg new_stack ≡ assign_at (task_count t.num_tasks) t f arg new_stack
unfolding thread_assign_task task_count
thread_assign_task-at t f arg new_stack v = elim v.not_below [
  | inl e ↦ next_at e refl
  | inr (n, e) ↦ next_at e refl
]
  where
    next_at :
        {k : ℤ}
        → t.num_tasks ≡ k
        → assign_next k t f arg new_stack ≡ assign_at (task_count k) t f arg new_stack
        → assign_next t.num_tasks t f arg new_stack
          ≡ assign_at (task_count t.num_tasks) t f arg new_stack
    next_at e same =
        ap (λ k. assign_next k t f arg new_stack) e
        ∙ same
        ∙ sym (ap (λ k. assign_at (task_count k) t f arg new_stack) e)

pub assigned-IsThread :
    (t : Thread) (n f arg new_stack : ℕ)
    → IsThread t
    → n < max_task
    → IsThread (assigned t n f arg new_stack)
unfolding task_count
assigned-IsThread t n f arg new_stack v room = record {
  count = room;
  not_below = inr (n, refl);
  fps = length-set t.task_fp n f ∙ v.fps;
  args = length-set t.task_arg n arg ∙ v.args;
  stacks = length-set t.task_stack n new_stack ∙ v.stacks;
  stack_ps = length-set t.task_stack_p n _ ∙ v.stack_ps;
  flags = length-set t.task_buf_set n minus_one ∙ v.flags;
}

pub thread_assign_task_room :
    (t : Thread) (f arg new_stack : ℕ)
    → IsThread t
    → task_count t.num_tasks < max_task
    → thread_assign_task t f arg new_stack
      ≡ ok (assigned t (task_count t.num_tasks) f arg new_stack)
unfolding assign_at
thread_assign_task_room t f arg new_stack v room =
    let fits : ltb (task_count t.num_tasks) max_task ≡ true = ground arith in
    thread_assign_task-at t f arg new_stack v ∙ rw fits

-- The task that `dispatch` calls is the one assigned last.
pub dispatch-assigned :
    (t : Thread) (n f arg new_stack : ℕ)
    → IsThread t
    → n < max_task
    → dispatch (assigned t n f arg new_stack)
      ≡ ok (call_task n f arg, called (assigned t n f arg new_stack) n)
dispatch-assigned t n f arg new_stack v room =
    let t' : Thread = assigned t n f arg new_stack in
    let got_f : get_or t'.task_fp n 0 ≡ f =
      get_or-set_self t.task_fp n f 0 (omega (arith, v.fps)) in
    let got_arg : get_or t'.task_arg n 0 ≡ arg =
      get_or-set_self t.task_arg n arg 0 (omega (arith, v.args)) in
    let fresh = get_elem?-set_self t.task_buf_set n minus_one (omega (arith, v.flags)) in
    (dispatch-top t' n refl).1 fresh ∙ ap₂ (λ a b. ok (call_task n a b, called t' n)) got_f got_arg

-- With room in the arrays `thread_assign_task` succeeds with one task more, and `dispatch` then
-- calls the new task before any other that the thread has.
pub dispatch-thread_assign_task :
    (t : Thread) (f arg new_stack : ℕ)
    → IsThread t
    → task_count t.num_tasks < max_task
    → (t' : Thread) × (thread_assign_task t f arg new_stack ≡ ok t')
      × IsThread t'
      × (task_count t'.num_tasks ≡ suc (task_count t.num_tasks))
      × ((t'' : Thread) × (dispatch t' ≡ ok (call_task (task_count t.num_tasks) f arg, t'')))
unfolding task_count
dispatch-thread_assign_task t f arg new_stack v room = (
  assigned t (task_count t.num_tasks) f arg new_stack,
  thread_assign_task_room t f arg new_stack v room,
  assigned-IsThread t (task_count t.num_tasks) f arg new_stack v room,
  refl,
  (
    called (assigned t (task_count t.num_tasks) f arg new_stack) (task_count t.num_tasks),
    dispatch-assigned t (task_count t.num_tasks) f arg new_stack v room,
  ),
)

-- A twenty-first task is stored outside the arrays.
pub thread_assign_task-full :
    (t : Thread) (f arg new_stack : ℕ)
    → IsThread t
    → max_task ≤ task_count t.num_tasks
    → thread_assign_task t f arg new_stack ≡ fault
unfolding assign_at
thread_assign_task-full t f arg new_stack v full =
    let over : ltb (task_count t.num_tasks) max_task ≡ false = ground arith in
    thread_assign_task-at t f arg new_stack v ∙ rw over

-- When the running task is the last that its thread was given, and the thread does not yield itself,
-- `thread_yield` saves the task, and `dispatch` resumes just this task when the thread's turn comes.
pub dispatch-yield_saves :
    (t : Thread) (n : ℕ)
    → IsThread t
    → t.num_tasks ≡ pos n
    → t.current_task ≡ pos n
    → t.thread_yield ≡ 0
    → (t' : Thread) × (yield_saves t ≡ ok t')
      × (t'.task_yield ≡ 1)
      × ((t'' : Thread) × (dispatch t' ≡ ok (resume_task n, t'')))
unfolding yield_saves task_count
dispatch-yield_saves t n v e c y =
    let t' : Thread = record t { task_yield = 1; task_buf_set = set t.task_buf_set n (pos 1) } in
    let inside : n < max_task = omega (arith, v.count, ap task_count e) in
    let fits : ltb n max_task ≡ true = ground arith in
    (
      t',
      simp (e, c, y, fits),
      refl,
      (
        record t' { current_task = pos n },
        (dispatch-top t' n e).0
            (get_elem?-set_self t.task_buf_set n (pos 1) (omega (arith, v.flags))),
      ),
    )

-- A thread that yields outside its tasks and has none is the one resumed, and is marked as running.
pub dispatch-yield_saves_thread :
    (t : Thread)
    → t.num_tasks ≡ minus_one
    → t.task_yield ≡ 0
    → (t' : Thread) × (t'' : Thread) × (yield_saves t ≡ ok t')
      × (dispatch t' ≡ ok (resume_thread, t''))
      × (t''.thread_yield ≡ 1)
unfolding yield_saves dispatch run_tasks task_count after_tasks
dispatch-yield_saves_thread t e y = (
  record t { thread_yield = 0; buf_set = pos 1 },
  record t { thread_yield = 1; buf_set = pos 1; current_task = minus_one },
  simp e,
  simp (e, y),
  refl,
)
