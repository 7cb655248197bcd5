-- ===== src/CentralServer/Assignment.antt =====
-- `assign_task_to_worker`: the task goes to the worker, and what is left when it cannot be sent.
use c_simples.Prelude.{
  ℕ, zero, suc, ◌<◌, ◌≡◌, refl, ap, inl, inr, Bool, true, false, none, some, List, [], ◌∷◌, pos,
  length, arith, ◌==◌, if◌then◌else◌,
}
use c_simples.TaskManager.{Task, TaskInfo, Manager, handed_to, assign_task, get_task}
use c_simples.TaskManager.Table.{
  Listed, find_loop-change_loop, find_loop-number, change_loop-SameTasks,
}
use c_simples.TaskManager.Invariant.{Holds, same_tasks}
use c_simples.TaskManager.Calls.{get_next_task_lem}
use c_simples.WorkerRegistry.{WorkerInfo, Registry, idle, busy, get, is_idle}
use c_simples.WorkerRegistry.Numbers.{get-update_status}
use c_simples.CentralServer.{Server, task_message, assign_task_to_worker, with_status}

assign_task-Listed :
    (x : Task) (id now : ℕ) (m : Manager) (q : List Task)
    → 0 < id
    → Holds m q
    → Listed m.tasks x
    → ((assign_task x.task_id id now m).0 ≡ true)
      × Holds (assign_task x.task_id id now m).1 q
      × ((t : TaskInfo) × (get_task (some (assign_task x.task_id id now m).1) x.task_id
            ≡ some (handed_to id now t))
          × (t.task ≡ x))
unfolding assign_task get_task
assign_task-Listed x id now m q p h (t, e, same) =
    let l = find_loop-number 1 x.task_id m.next_task_id m.tasks t h.numbers e in
    let (found, there) =
      find_loop-change_loop x.task_id (handed_to id now) m.tasks t (λ u. refl) e in
    let s = change_loop-SameTasks x.task_id (handed_to id now) m.tasks (λ u. refl) in
    let no_task : (x.task_id == 0) ≡ false = ground arith in
    let no_worker : (id == 0) ≡ false = ground arith in
    rw (no_task, no_worker) (found, same_tasks m _ q s h, (t, there, same))

get-positive : (id : ℕ) (r : Registry) (w : WorkerInfo) → get id r ≡ some w → 0 < id
unfolding get
get-positive zero r w e = cc
get-positive (suc n) r w e = omega arith

with_status-after :
    (id : ℕ) (sent : Bool) (r : Registry) (w : WorkerInfo)
    → get id r ≡ some w
    → get id (if sent then with_status id busy r else with_status id idle (with_status id busy r))
      ≡ some (record w { status = if sent then busy else idle })
with_status-after id true r w e = get-update_status id busy r w e
with_status-after id false r w e =
    get-update_status id idle (with_status id busy r) (record w { status = busy })
      (get-update_status id busy r w e)

-- With an idle worker and a well-formed task manager whose queue is not empty,
-- `assign_task_to_worker` takes the oldest task out of the queue, marks it as assigned to that
-- worker, sends it to the worker's socket, and returns 0 with the worker busy exactly if the message
-- could be sent. If it could not, the worker is idle again, but the task stays assigned and out of
-- the queue.
pub assign_task_to_worker_lem :
    (id : ℕ) (sent : Bool) (now : ℕ) (s : Server) (w : WorkerInfo) (q : List Task)
    → get id s.registry ≡ some w
    → is_idle w.status ≡ true
    → Holds s.manager q
    → 0 < length q
    → let (ok, messages, s') = assign_task_to_worker id sent now s in
      (x : Task) × (rest : List Task) × (t : TaskInfo) × (q ≡ x ∷ rest)
      × (ok ≡ sent)
      × (messages ≡ task_message w.sockfd x.task_id x.input_data ∷ [])
      × Holds s'.manager rest
      × (get_task (some s'.manager) x.task_id ≡ some (handed_to id now t))
      × (t.task ≡ x)
      × (get id s'.registry ≡ some (record w { status = if sent then busy else idle }))
unfolding assign_task_to_worker
assign_task_to_worker_lem id sent now s w q e i h p =
    elim (get_next_task_lem s.manager q none [] h) [
      | inr (empty, _) ↦ absurd (omega (arith, ap length empty))
      | inl (x, rest, rb, same, taken, listed, h') ↦
          let m : Manager = record s.manager { task_queue = rb } in
          let (found, kept, (t, there, task)) =
            assign_task-Listed x id now m rest (get-positive id s.registry w e) h' listed in
          rw (e, assign_task_to_worker, i, taken (pos 0), found)
            (
              x,
              rest,
              t,
              same,
              refl,
              refl,
              kept,
              there,
              task,
              with_status-after id sent s.registry w e,
            )
    ]
