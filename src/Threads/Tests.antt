-- ===== src/Threads/Tests.antt =====
-- Three threads of mp1/xv6/user/threads.c in a queue, and threads with tasks.
use operating_system.Common.{
  ◌⊎◌, ◌≤◌, ◌<◌, ◌++◌, ℕ, ◌≡◌, refl, inr, false, List, [], ◌∷◌, arith, ◌==◌, if◌then◌else◌, set,
  replicate, ok, fault, ℤ, pos, minus_one,
}
use operating_system.Threads.{Thread, Sched, max_task, schedule, thread_add_runqueue, thread_exit}
use operating_system.Threads.RunQueue.{IsRing, schedule-rotates, thread_add_runqueue-last}
use operating_system.Threads.RunQueue.Removal.{thread_exit-next}
use operating_system.Threads.Dispatch.{
  resume_task, call_task, dispatch, task_count, thread_assign_task, yield_saves, task_returns,
}
use operating_system.Threads.Dispatch.Tasks.{
  IsThread, dispatch-thread_assign_task, dispatch-yield_saves,
}
use operating_system.Threads.Dispatch.Assign.{assign_tasks, assign_tasks_lem, functions, arguments}
use operating_system.Threads.Dispatch.Returns.{task_returns-dispatch}

-- A thread between two others, with its task counters.
abbrev thread : (num_tasks current_task : ℤ) → (flags : List ℤ) → (previous next : ℕ) → Thread
thread n c flags p q = record {
  fp = 1;
  arg = 2;
  stack = 3;
  stack_p = 4;
  buf_set = minus_one;
  task_fp = replicate max_task 0;
  task_arg = replicate max_task 0;
  task_stack = replicate max_task 0;
  task_stack_p = replicate max_task 0;
  task_buf_set = flags;
  num_tasks = n;
  current_task = c;
  task_yield = 0;
  thread_yield = 0;
  id = 0;
  previous = p;
  next = q;
}

abbrev no_flags : List ℤ
no_flags = replicate max_task minus_one

abbrev threads : ℕ → Thread
threads a =
    if a == 100
    then thread minus_one minus_one no_flags 300 200
    else if a == 200
    then thread minus_one minus_one no_flags 100 300
    else if a == 300
    then thread minus_one minus_one no_flags 200 100
    else thread minus_one minus_one no_flags a a

abbrev queue : Sched
queue = record { threads = threads; current = 100; next_id = 3 }

abbrev lone : Sched
lone = record { threads = threads; current = 400; next_id = 3 }

queue-IsRing : IsRing queue 100 (200 ∷ 300 ∷ [])
queue-IsRing = record {
  current = refl;
  not_null = refl;
  distinct = (refl, (refl, (refl, tt)));
  linked = (refl, refl, (refl, refl, (refl, refl)));
}

lone-IsRing : IsRing lone 400 []
lone-IsRing = record {
  current = refl;
  not_null = refl;
  distinct = (refl, tt);
  linked = (refl, refl);
}

schedule-rotates_example : IsRing (schedule queue) 200 (300 ∷ 100 ∷ [])
schedule-rotates_example = schedule-rotates queue-IsRing

thread_add_runqueue-last_example : IsRing (thread_add_runqueue queue 400) 100 (200 ∷ 300 ∷ 400 ∷ [])
thread_add_runqueue-last_example = thread_add_runqueue-last 400 queue-IsRing refl (λ e. cc e)

thread_exit-next_example :
    ((thread_exit queue).0 ≡ false) × IsRing (thread_exit queue).1 200 (300 ∷ [])
thread_exit-next_example = thread_exit-next queue-IsRing

-- Two tasks, of which the second is running.
abbrev busy : Thread
busy = thread (pos 1) (pos 1) (set no_flags 0 (pos 1)) 100 100

busy-IsThread : IsThread busy
unfolding task_count
busy-IsThread = record {
  count = omega arith;
  not_below = inr (1, refl);
  fps = refl;
  args = refl;
  stacks = refl;
  stack_ps = refl;
  flags = refl;
}

abbrev crowded : Thread
crowded = thread (pos 19) (pos 19) no_flags 100 100

crowded-IsThread : IsThread crowded
unfolding task_count
crowded-IsThread = record {
  count = omega arith;
  not_below = inr (19, refl);
  fps = refl;
  args = refl;
  stacks = refl;
  stack_ps = refl;
  flags = refl;
}

dispatch-thread_assign_task_example :
    (t' : Thread) × (thread_assign_task busy 77 88 0x5000 ≡ ok t')
    × IsThread t'
    × (task_count t'.num_tasks ≡ 3)
    × ((t'' : Thread) × (dispatch t' ≡ ok (call_task 2 77 88, t'')))
unfolding task_count
dispatch-thread_assign_task_example =
    dispatch-thread_assign_task busy 77 88 0x5000 busy-IsThread (omega arith)

-- The arrays of `crowded` have no place left.
assign_tasks_lem_example :
    ((t' : Thread) × (assign_tasks crowded ((77, (88, 0x5000)) ∷ []) ≡ ok t')
      × (21 ≤ max_task)
      × (task_count t'.num_tasks ≡ 21)
      × (functions t' ≡ functions crowded ++ 77 ∷ [])
      × (arguments t' ≡ arguments crowded ++ 88 ∷ [])
      × IsThread t')
    ⊎ ((assign_tasks crowded ((77, (88, 0x5000)) ∷ []) ≡ fault) × (max_task < 21))
unfolding task_count
assign_tasks_lem_example = assign_tasks_lem crowded ((77, (88, 0x5000)) ∷ []) crowded-IsThread

dispatch-yield_saves_example :
    (t' : Thread) × (yield_saves busy ≡ ok t')
    × (t'.task_yield ≡ 1)
    × ((t'' : Thread) × (dispatch t' ≡ ok (resume_task 1, t'')))
dispatch-yield_saves_example = dispatch-yield_saves busy 1 busy-IsThread refl refl refl

-- The second task of `busy` has yielded.
abbrev paused : Thread
paused = thread (pos 1) (pos 1) (set no_flags 1 (pos 1)) 100 100

paused-IsThread : IsThread paused
unfolding task_count
paused-IsThread = record {
  count = omega arith;
  not_below = inr (1, refl);
  fps = refl;
  args = refl;
  stacks = refl;
  stack_ps = refl;
  flags = refl;
}

task_returns-dispatch_example :
    (t₁ : Thread) × (t₂ : Thread) × (t₃ : Thread) × (thread_assign_task paused 77 88 0x5000 ≡ ok t₁)
    × (dispatch t₁ ≡ ok (call_task 2 77 88, t₂))
    × (task_returns t₂ ≡ ok (resume_task 1, t₃))
    × (t₃.num_tasks ≡ pos 1)
    × (t₃.current_task ≡ pos 1)
task_returns-dispatch_example =
    task_returns-dispatch paused 1 77 88 0x5000 paused-IsThread refl (omega arith) refl
