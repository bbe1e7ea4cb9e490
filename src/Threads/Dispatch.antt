-- ===== src/Threads/Dispatch.antt =====
-- `dispatch`, `thread_yield` and `thread_assign_task` of mp1/xv6/user/threads.c: which context runs
-- next. `setjmp` returns 0 when it saves and not 0 when `longjmp` comes back; a function that is cut
-- in two by that is modelled as two.
pub mod Tasks
pub mod Assign
pub mod Returns
use operating_system.Common.{
  ℕ, zero, suc, ◌+◌, ◌-◌, ◌*◌, ◌/◌, ◌%◌, ◌^◌, ◌≤◌, ◌<◌, min, max, ◌≡◌, refl, sym, ap, ap₂, ◌∙◌,
  subst, ◌≢◌, ◌↔◌, ◌⊎◌, inl, inr, Bool, true, false, not, ◌&&◌, ◌||◌, Option, none, some, List, [],
  ◌∷◌, ◌++◌, append-nil, append_assoc, arith, ltb, leb, ◌==◌, if◌then◌else◌, ltb→lt, lt→ltb, le→ltb,
  ==_iff, ==_refl, Bool-cases, Option-cases, length, get_elem?, get_or, set, take, drop, replicate,
  erase_idx, length-append, length-set, length-take, length-drop, length-replicate,
  length-erase_idx, take-set, get_or-take, get_or-set_self, contains, contains-append, IsDistinct,
  append-IsDistinct, Run, ok, panic, fault, out_of_fuel, ◌>>=◌, ◌>>◌, ℤ, pos, negsuc, minus_one,
  is_negative,
}
use operating_system.Threads.{Thread, max_task}

-- Where control goes from `dispatch`: to a saved context, to a call, or to `thread_exit`.
pub data Action : Type 0 where
  resume_task : (index : ℕ) → Action
  call_task : (index f arg : ℕ) → Action
  resume_thread : Action
  call_thread : (f arg : ℕ) → Action
  exit_thread : Action

-- `i - 1`
unfoldable pub before : ℕ → ℤ
before zero = minus_one
before (suc n) = pos n

-- The loop of `dispatch` while `num_tasks >= 0`; the first argument is `num_tasks + 1`. The result is
-- the task that it runs, if one does, and the thread then. A flag that is neither 1 nor -1 means
-- that the task has ended; a task beyond the arrays is a fault.
unfoldable pub run_tasks : (count : ℕ) → Thread → Run (Option Action × Thread)
unfolding before
run_tasks zero t = ok (none, t)
run_tasks (suc i) t =
    let rest = run_tasks i (record t { current_task = pos i; num_tasks = before i }) in
    elim (get_elem? t.task_buf_set i) [
      | none ↦ fault
      | some (pos (suc zero)) ↦ ok (some (resume_task i), record t { current_task = pos i })
      | some (negsuc zero) ↦ ok (
        some (call_task i (get_or t.task_fp i 0) (get_or t.task_arg i 0)),
        record t { current_task = pos i; task_buf_set = set t.task_buf_set i (pos 0) },
      )
      | some _ ↦ rest
    ]

-- `num_tasks + 1`, or 0 where the loop is not entered.
unfoldable pub task_count : ℤ → ℕ
task_count (pos n) = suc n
task_count (negsuc _) = 0

-- The part of `dispatch` after the loop, under the flag `thread_yield` that it sets.
run_thread : (mark : ℕ) → Thread → Action × Thread
run_thread mark t = elim t.buf_set [
  | pos (suc zero) ↦ (resume_thread, record t { thread_yield = mark })
  | negsuc zero ↦ (call_thread t.fp t.arg, record t { buf_set = pos 0; thread_yield = mark })
  | _ ↦ (exit_thread, t)
]

unfoldable pub after_tasks : Thread → Action × Thread
unfolding run_thread
after_tasks t =
    if t.task_yield == 1
    then run_thread t.thread_yield (record t { current_task = minus_one; task_yield = 0 })
    else run_thread 1 (record t { current_task = minus_one })

unfoldable pub dispatch : Thread → Run (Action × Thread)
unfolding task_count
dispatch t = run_tasks (task_count t.num_tasks) t >>= λ r. elim r.0 [
  | some a ↦ ok (a, r.1)
  | none ↦ ok (after_tasks r.1)
]

-- `num_tasks--`
unfoldable pub one_less : ℤ → ℤ
one_less (pos zero) = minus_one
one_less (pos (suc n)) = pos n
one_less (negsuc n) = negsuc (suc n)

-- When a task's function returns, the loop of the `dispatch` that called it counts the task off and
-- goes on.
unfoldable pub task_returns : Thread → Run (Action × Thread)
unfolding one_less
task_returns t = dispatch (record t { num_tasks = one_less t.num_tasks })

-- `thread_yield` up to `schedule(); dispatch();`.
unfoldable pub yield_saves : Thread → Run Thread
yield_saves t =
    if not (is_negative t.num_tasks) && (t.thread_yield == 0)
    then elim t.current_task [
      | negsuc _ ↦ fault
      | pos i ↦
          if ltb i max_task
          then ok (record t { task_yield = 1; task_buf_set = set t.task_buf_set i (pos 1) })
          else fault
    ]
    else ok (record t { thread_yield = 0; buf_set = pos 1 })

-- `thread_yield` after the jump back to the context of task `i`: the flag is cleared, and set again
-- by the second `setjmp`.
unfoldable pub yield_back_task : ℕ → Thread → Thread
yield_back_task i t = record t { task_buf_set = set (set t.task_buf_set i (pos 0)) i (pos 1) }

-- `thread_yield` after the jump back to the thread's own context.
unfoldable pub yield_back_thread : Thread → Thread
yield_back_thread t = record t { buf_set = pos 0 }

-- The stores of `thread_assign_task` at the new index; the source does not check it against the
-- `max_task` places of the arrays.
unfoldable pub assign_at : (index : ℕ) → Thread → (f arg new_stack : ℕ) → Run Thread
assign_at n t f arg new_stack =
    if ltb n max_task
    then ok (record t {
      num_tasks = pos n;
      task_fp = set t.task_fp n f;
      task_arg = set t.task_arg n arg;
      task_stack = set t.task_stack n new_stack;
      task_stack_p = set t.task_stack_p n (new_stack + 0x100 * 8 - 0x2 * 8);
      task_buf_set = set t.task_buf_set n minus_one;
    })
    else fault

-- `t->num_tasks++`, and the stores there.
unfoldable pub assign_next : (num_tasks : ℤ) → Thread → (f arg new_stack : ℕ) → Run Thread
unfolding assign_at
assign_next (pos n) t f arg new_stack = assign_at (suc n) t f arg new_stack
assign_next (negsuc zero) t f arg new_stack = assign_at 0 t f arg new_stack
assign_next (negsuc (suc _)) t f arg new_stack = fault

unfoldable pub thread_assign_task : Thread → (f arg new_stack : ℕ) → Run Thread
unfolding assign_next
thread_assign_task t f arg new_stack = assign_next t.num_tasks t f arg new_stack
