-- ===== src/TaskManager/Calls.antt =====
-- task_manager.c: `task_manager_get_next_task`, and the manager under runs of calls.
use c_simples.Prelude.{
  ℕ, ◌+◌, ◌≤◌, ◌<◌, ◌≡◌, refl, ◌∙◌, inl, inr, ◌⊎◌, Bool-cases, Option, none, some, List, [], ◌∷◌,
  ◌++◌, arith, ◌==◌, length, pos, ◌||◌, ℤ,
}
use c_simples.RingBuffer.{RingBuffer, Time, Wake, popped, pop_failed}
use c_simples.RingBuffer.Invariant.{Represents-size}
use c_simples.RingBuffer.Refinement.{pop_ready, pop_refused, pop_now-Represents}
use c_simples.TaskManager.{
  Task, Manager, create_task, get_next_task, assign_task, process_result, check_timeouts, handed_to,
  reported, Call, creates, gets_next, assigns, processes, checks, step, run, new_task,
}
use c_simples.TaskManager.Table.{change_loop-SameTasks, timeout_loop-SameTasks, Listed}
use c_simples.TaskManager.Invariant.{Holds, same_tasks, create_task_lem}

-- `task_manager_get_next_task` of a well-formed manager whose queue holds `q`: with tasks in the
-- queue it returns the oldest one, which is in the table, whatever the timeout, and leaves the
-- others, in their order; with none and timeout 0 it returns NULL.
pub get_next_task_lem :
    (m : Manager) (q : List Task) (clock : Option Time) (ws : List (Wake Task))
    → Holds m q
    → ((x : Task) × (rest : List Task) × (rb : RingBuffer Task) × (q ≡ x ∷ rest)
        × ((timeout : ℤ) → get_next_task (some m) timeout clock ws ≡ popped (some x) rb)
        × Listed m.tasks x
        × Holds (record m { task_queue = rb }) rest)
      ⊎ ((q ≡ []) × (get_next_task (some m) (pos 0) clock ws ≡ pop_failed (some m.task_queue)))
unfolding get_next_task
get_next_task_lem m [] clock ws h =
    let size = Represents-size m.task_queue [] h.queue in
    inr (refl, pop_refused m.task_queue clock ws size)
get_next_task_lem m (x ∷ rest) clock ws h =
    let size = Represents-size m.task_queue (x ∷ rest) h.queue in
    let (rb, e, r, c) = pop_now-Represents m.task_queue x rest h.queue in
    inl (
      x,
      rest,
      rb,
      refl,
      λ timeout. pop_ready m.task_queue timeout clock ws (omega arith) ∙ e,
      h.listed.0,
      record { queue = r; numbers = h.numbers; fits = h.fits; listed = h.listed.1 },
    )

abbrev Kept : Manager → Manager → Type 0
Kept m m' = ((q : List Task) × Holds m' q) × (m'.next_task_id ≤ m.next_task_id + 1)

create-Kept :
    (input_data : Option (List ℕ)) (input_size : ℕ) (memory : Option Task) (now : ℕ) (m : Manager)
    (q : List Task)
    → m.next_task_id < 4294967295
    → Holds m q
    → Kept m (create_task input_data input_size memory now m).1
unfolding create_task
create-Kept none input_size memory now m q l h = ((q, h), omega arith)
create-Kept (some input_data) input_size memory now m q l h =
    elim (create_task_lem input_data input_size memory now m q l h) [
      | inl (block, a, made) ↦ (
        (q ++ new_task m.next_task_id input_data input_size block ∷ [], made.3),
        omega (arith, made.2),
      )
      | inr (_, left) ↦ ((q, left.4), left.3)
    ]

step-Kept :
    (c : Call) (m : Manager) (q : List Task)
    → m.next_task_id < 4294967295
    → Holds m q
    → Kept m (step m c)
unfolding step assign_task process_result check_timeouts
step-Kept (creates input_data input_size memory now) m q l h =
    create-Kept input_data input_size memory now m q l h
step-Kept gets_next m q l h = elim (get_next_task_lem m q none [] h) [
  | inl (x, rest, rb, e, p, _, h') ↦ rw (p (pos 0), step) ((rest, h'), omega arith)
  | inr (e, p) ↦ rw (p, step) ((q, h), omega arith)
]
step-Kept (assigns task_id worker_id now) m q l h =
    elim (Bool-cases ((task_id == 0) || (worker_id == 0))) [
      | inl b ↦ rw (b, step, assign_task) ((q, h), omega arith)
      | inr b ↦
          let s = change_loop-SameTasks task_id (handed_to worker_id now) m.tasks (λ t. refl) in
          rw (b, step, assign_task) ((q, same_tasks m _ q s h), omega arith)
    ]
step-Kept (processes task_id status ms now) m q l h = elim (Bool-cases (task_id == 0)) [
  | inl b ↦ rw (b, step, process_result) ((q, h), omega arith)
  | inr b ↦
      let s = change_loop-SameTasks task_id (reported status ms now) m.tasks (λ t. refl) in
      rw (b, step, process_result) ((q, same_tasks m _ q s h), omega arith)
]
step-Kept (checks timeout_sec now) m q l h =
    ((q, same_tasks m _ q (timeout_loop-SameTasks now timeout_sec m.tasks) h), omega arith)

-- From a well-formed manager, any sequence of calls leads to a well-formed one while the task numbers
-- stay below 2 ^ 32 - 1: the numbers in the table are distinct, and every task of the queue is in the
-- table with the same data.
pub run-Holds :
    (cs : List Call) (m : Manager) (q : List Task)
    → m.next_task_id + length cs < 4294967296
    → Holds m q
    → (q' : List Task) × Holds (run m cs) q'
unfolding run
run-Holds [] m q l h = (q, h)
run-Holds (c ∷ cs) m q l h =
    let ((q', h'), n) = step-Kept c m q (omega arith) h in
    run-Holds cs (step m c) q' (omega arith) h'
