-- ===== src/Threads/Dispatch/Returns.antt =====
-- What `dispatch` of mp1/xv6/user/threads.c goes on with when a task has returned.
use operating_system.Common.{
  ◌≢◌, ℕ, zero, suc, ◌<◌, ◌≡◌, refl, ap, ◌∙◌, some, List, [], ◌∷◌, arith, get_elem?, set, ok, ℤ,
  pos, minus_one,
}
use operating_system.Threads.{Thread, max_task}
use operating_system.Threads.Dispatch.{
  resume_task, call_task, run_tasks, task_count, dispatch, after_tasks, task_returns, one_less,
  thread_assign_task,
}
use operating_system.Threads.Dispatch.Tasks.{
  IsThread, called, assigned, dispatch-top, dispatch-assigned, thread_assign_task_room,
}

-- When the last task returns, `dispatch` goes on with the thread's own function.
pub task_returns-thread :
    (t : Thread)
    → t.num_tasks ≡ pos 0
    → task_returns t ≡ ok (after_tasks (record t { num_tasks = minus_one }))
unfolding task_returns dispatch run_tasks
task_returns-thread t e = ap (λ k. dispatch (record t { num_tasks = one_less k })) e

get_elem?-set-other :
    (xs : List ℤ) (i j : ℕ) (v : ℤ) → i ≢ j → get_elem? (set xs i v) j ≡ get_elem? xs j
get_elem?-set-other [] i j v ne = refl
get_elem?-set-other (x ∷ xs) zero zero v ne = absurd (ne refl)
get_elem?-set-other (x ∷ xs) zero (suc j) v ne = refl
get_elem?-set-other (x ∷ xs) (suc i) zero v ne = refl
get_elem?-set-other (x ∷ xs) (suc i) (suc j) v ne =
    get_elem?-set-other xs i j v (λ e. ne (ap suc e))

task_returns-resume :
    (t : Thread) (n : ℕ)
    → t.num_tasks ≡ pos (suc n)
    → get_elem? t.task_buf_set n ≡ some (pos 1)
    → task_returns t ≡ ok (resume_task n, record t { num_tasks = pos n; current_task = pos n })
unfolding task_returns
task_returns-resume t n e f =
    ap (λ k. dispatch (record t { num_tasks = one_less k })) e
    ∙ (dispatch-top (record t { num_tasks = pos n }) n refl).0 f

-- A well-formed thread whose last task has yielded is given one more task, for which it has room. `dispatch`
-- calls the new task, and when that returns, the task that has yielded is resumed, and is the thread's last
-- task again.
pub task_returns-dispatch :
    (t : Thread) (n f arg new_stack : ℕ)
    → IsThread t
    → t.num_tasks ≡ pos n
    → suc n < max_task
    → get_elem? t.task_buf_set n ≡ some (pos 1)
    → (t₁ : Thread) × (t₂ : Thread) × (t₃ : Thread) × (thread_assign_task t f arg new_stack ≡ ok t₁)
      × (dispatch t₁ ≡ ok (call_task (suc n) f arg, t₂))
      × (task_returns t₂ ≡ ok (resume_task n, t₃))
      × (t₃.num_tasks ≡ pos n)
      × (t₃.current_task ≡ pos n)
unfolding task_count
task_returns-dispatch t n f arg new_stack v e room saved =
    let c : task_count t.num_tasks ≡ suc n = ap task_count e in
    let t₁ : Thread = assigned t (suc n) f arg new_stack in
    let below : (xs : List ℤ) (w : ℤ) → get_elem? (set xs (suc n) w) n ≡ get_elem? xs n =
      λ xs w. get_elem?-set-other xs (suc n) n w (λ same. omega arith) in
    (
      t₁,
      called t₁ (suc n),
      record (called t₁ (suc n)) { num_tasks = pos n; current_task = pos n },
      thread_assign_task_room t f arg new_stack v (omega arith)
          ∙ ap (λ k. ok (assigned t k f arg new_stack)) c,
      dispatch-assigned t (suc n) f arg new_stack v room,
      task_returns-resume (called t₁ (suc n)) n refl
          (below t₁.task_buf_set (pos 0) ∙ below t.task_buf_set minus_one ∙ saved),
      refl,
      refl,
    )
