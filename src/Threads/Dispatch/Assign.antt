-- ===== src/Threads/Dispatch/Assign.antt =====
-- `thread_assign_task` of mp1/xv6/user/threads.c, called for one task after the other.
use operating_system.Common.{
  take, take-set, ◌++◌, append-nil, append_assoc, Bool-cases, ltb→lt, Run, ◌>>=◌, ℕ, ◌+◌, ◌≤◌, ◌<◌,
  ◌≡◌, refl, sym, ap, ◌∙◌, ◌⊎◌, inl, inr, List, [], ◌∷◌, arith, ltb, length, ok, fault,
}
use operating_system.Threads.{Thread, max_task}
use operating_system.Threads.Dispatch.{task_count, thread_assign_task}
use operating_system.Threads.Dispatch.Tasks.{
  IsThread, assigned, assigned-IsThread, thread_assign_task_room, thread_assign_task-full,
}

-- `thread_assign_task` for one function after the other, each with its argument and its stack.
unfoldable pub assign_tasks : Thread → List (ℕ × (ℕ × ℕ)) → Run Thread
assign_tasks t [] = ok t
assign_tasks t ((f, (arg, new_stack)) ∷ rest) =
    thread_assign_task t f arg new_stack >>= λ t'. assign_tasks t' rest

-- The functions of the tasks that a thread has, and their arguments, in the order in which it was given
-- them.
abbrev pub functions : Thread → List ℕ
functions t = take (task_count t.num_tasks) t.task_fp

abbrev pub arguments : Thread → List ℕ
arguments t = take (task_count t.num_tasks) t.task_arg

abbrev pub firsts : List (ℕ × (ℕ × ℕ)) → List ℕ
firsts [] = []
firsts ((f, rest) ∷ xs) = f ∷ firsts xs

abbrev pub seconds : List (ℕ × (ℕ × ℕ)) → List ℕ
seconds [] = []
seconds ((f, (arg, rest)) ∷ xs) = arg ∷ seconds xs

-- Tasks assigned one after the other to a well-formed thread are all stored, behind those that it has and in their
-- order, with their functions and their arguments, as long as it then has no more than MAX_TASK. When they
-- are more, the first task without room is stored outside the arrays.
pub assign_tasks_lem :
    (t : Thread) (tasks : List (ℕ × (ℕ × ℕ)))
    → IsThread t
    → ((t' : Thread) × (assign_tasks t tasks ≡ ok t')
        × (task_count t.num_tasks + length tasks ≤ max_task)
        × (task_count t'.num_tasks ≡ task_count t.num_tasks + length tasks)
        × (functions t' ≡ functions t ++ firsts tasks)
        × (arguments t' ≡ arguments t ++ seconds tasks)
        × IsThread t')
      ⊎ ((assign_tasks t tasks ≡ fault) × (max_task < task_count t.num_tasks + length tasks))
unfolding assign_tasks task_count
assign_tasks_lem t [] v = inl (
  t,
  refl,
  omega (arith, v.count),
  omega arith,
  sym (append-nil (functions t)),
  sym (append-nil (arguments t)),
  v,
)
assign_tasks_lem t ((f, (arg, new_stack)) ∷ rest) v =
    let n : ℕ = task_count t.num_tasks in
    elim (Bool-cases (ltb n max_task)) [
      | inr full ↦
          inr (rw (thread_assign_task-full t f arg new_stack v (ground arith)) refl, ground arith)
      | inl room ↦
          let lt : n < max_task = ltb→lt n max_task room in
          let out = thread_assign_task_room t f arg new_stack v lt in
          let t' : Thread = assigned t n f arg new_stack in
          elim (assign_tasks_lem t' rest (assigned-IsThread t n f arg new_stack v lt)) [
            | inl (t'', out', fits, counted, fs, args, v'') ↦ inl (
              t'',
              rw out out',
              omega arith,
              omega arith,
              fs
                  ∙ ap (λ xs. xs ++ firsts rest) (take-set n t.task_fp f (omega (arith, v.fps)))
                  ∙ append_assoc (functions t) (f ∷ []) (firsts rest),
              args
                  ∙ ap (λ xs. xs ++ seconds rest)
                      (take-set n t.task_arg arg (omega (arith, v.args)))
                  ∙ append_assoc (arguments t) (arg ∷ []) (seconds rest),
              v'',
            )
            | inr (out', over) ↦ inr (rw out out', omega arith)
          ]
    ]
