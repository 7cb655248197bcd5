-- ===== src/CentralServer/Results.antt =====
-- The results that workers report: `handle_task_result` compares what `recv_payload` returns with the
-- size of the message, but it returns 0.
use c_simples.Prelude.{
  ℕ, ◌≡◌, refl, inl, inr, Bool, true, false, Bool-cases, Option-cases, Option, none, some, List, [],
  ◌∷◌, ◌++◌, ℤ, pos, All, ltb, ◌&&◌, ◌||◌, ◌==◌, length,
}
use c_simples.RingBuffer.{
  PushOutcome, PopOutcome, pushed, push_failed, push_waits, popped, pop_failed, pop_waits, push,
}
use c_simples.NetUtils.{RecvOutcome, received, recv_failed, recv_waits, recv_payload, return_value}
use c_simples.TaskManager.{
  Task, TaskInfo, TaskStatus, completed, failed, Manager, change_loop, handed_to, timeout_loop,
  has_timed_out, create_task, enter_task, assign_task, size_fits, new_task, new_info, get_next_task,
  check_timeouts, pending_count,
}
use c_simples.WorkerRegistry.{WorkerInfo, get, is_idle, add, update_heartbeat}
use c_simples.CentralServer.{
  Server, TaskResult, Event, connects, heartbeat, result_arrives, disconnects, checks_timeouts,
  creates_sample, step, run, handle_task_result, handle_worker_registration,
  handle_worker_heartbeat, assign_task_to_worker, assign_pending, take_task, hand_out,
  create_sample_task, same_value, result_size, sample_data,
}

other_value : (o : RecvOutcome) → same_value (return_value o) result_size ≡ false
other_value (received bytes) = refl
other_value recv_failed = refl
other_value recv_waits = refl

-- `handle_task_result` ignores every result, received in full or not: it sends no acknowledgement, and
-- changes neither the task nor the worker.
pub handle_task_result_lem :
    (decode : List ℕ → TaskResult) (worker_id : ℕ) (sockfd : ℤ) (reads : List (List ℕ)) (now : ℕ)
    (s : Server)
    → handle_task_result decode worker_id sockfd reads now s ≡ ([], s)
unfolding handle_task_result
handle_task_result_lem decode worker_id sockfd reads now s =
    rw (other_value (recv_payload result_size reads)) refl

-- No result of the task has been recorded.
abbrev pub is_unreported : TaskStatus → Bool
is_unreported completed = false
is_unreported failed = false
is_unreported _ = true

abbrev pub IsUnreported : TaskInfo → Type 0
IsUnreported t = is_unreported t.status ≡ true

change_loop-IsUnreported :
    (id worker_id now : ℕ) (ts : List TaskInfo)
    → All IsUnreported ts
    → All IsUnreported (change_loop id (handed_to worker_id now) ts).1
unfolding change_loop
change_loop-IsUnreported id worker_id now [] h = tt
change_loop-IsUnreported id worker_id now (t ∷ ts) h = elim (Bool-cases (t.task.task_id == id)) [
  | inl b ↦ rw (b, change_loop) (refl, h.1)
  | inr b ↦ rw (b, change_loop) (h.0, change_loop-IsUnreported id worker_id now ts h.1)
]

timeout_loop-IsUnreported :
    (now limit : ℕ) (ts : List TaskInfo)
    → All IsUnreported ts
    → All IsUnreported (timeout_loop now limit ts).1
unfolding timeout_loop
timeout_loop-IsUnreported now limit [] h = tt
timeout_loop-IsUnreported now limit (t ∷ ts) h = elim (Bool-cases (has_timed_out now limit t)) [
  | inl b ↦ rw (b, timeout_loop) (refl, timeout_loop-IsUnreported now limit ts h.1)
  | inr b ↦ rw (b, timeout_loop) (h.0, timeout_loop-IsUnreported now limit ts h.1)
]

append-IsUnreported :
    (ts : List TaskInfo) (t : TaskInfo)
    → All IsUnreported ts
    → IsUnreported t
    → All IsUnreported (ts ++ t ∷ [])
append-IsUnreported [] t h p = (p, tt)
append-IsUnreported (x ∷ ts) t h p = (h.0, append-IsUnreported ts t h.1 p)

abbrev Open : Server → Type 0
Open s = All IsUnreported s.manager.tasks

enter-Open :
    (task : Task) (now : ℕ) (m : Manager) (o : PushOutcome Task)
    → All IsUnreported m.tasks
    → All IsUnreported (enter_task task now m o).1.tasks
enter-Open task now m (pushed rb) h = append-IsUnreported m.tasks (new_info task now) h refl
enter-Open task now m (push_failed rb) h = h
enter-Open task now m push_waits h = h

create_task-Open :
    (bytes : List ℕ) (size : ℕ) (memory : Option Task) (now : ℕ) (m : Manager)
    → All IsUnreported m.tasks
    → All IsUnreported (create_task (some bytes) size memory now m).1.tasks
unfolding create_task
create_task-Open bytes size none now m h =
    elim (Bool-cases (size_fits size && ltb (length m.tasks) m.capacity)) [
      | inl b ↦ rw (b, create_task) h
      | inr b ↦ rw (b, create_task) h
    ]
create_task-Open bytes size (some block) now m h =
    elim (Bool-cases (size_fits size && ltb (length m.tasks) m.capacity)) [
      | inl b ↦
          let task = new_task m.next_task_id bytes size block in
          rw (b, create_task)
            (enter-Open task now m (push (some m.task_queue) (some task) (pos 0) none []) h)
      | inr b ↦ rw (b, create_task) h
    ]

hand_out-Open :
    (id : ℕ) (w : WorkerInfo) (task : Task) (sent : Bool) (now : ℕ) (s : Server)
    → Open s
    → Open (hand_out id w task sent now s).2
unfolding assign_task
hand_out-Open id w task sent now s h = elim (Bool-cases ((task.task_id == 0) || (id == 0))) [
  | inl b ↦ rw (b, assign_task) h
  | inr b ↦
      let kept = change_loop-IsUnreported task.task_id id now s.manager.tasks h in
      elim (Bool-cases (change_loop task.task_id (handed_to id now) s.manager.tasks).0) [
        | inl f ↦ rw (b, assign_task, f) kept
        | inr f ↦ rw (b, assign_task, f) kept
      ]
]

take_task-Open :
    (id : ℕ) (w : WorkerInfo) (o : PopOutcome Task) (sent : Bool) (now : ℕ) (s : Server)
    → Open s
    → Open (take_task id w o sent now s).2
take_task-Open id w (popped (some task) rb) sent now s h =
    hand_out-Open id w task sent now (record s { manager = record s.manager { task_queue = rb } }) h
take_task-Open id w (popped none rb) sent now s h = h
take_task-Open id w (pop_failed rb) sent now s h = h
take_task-Open id w pop_waits sent now s h = h

assign_task_to_worker-Open :
    (id : ℕ) (sent : Bool) (now : ℕ) (s : Server)
    → Open s
    → Open (assign_task_to_worker id sent now s).2
unfolding assign_task_to_worker
assign_task_to_worker-Open id sent now s h = elim (Option-cases (get id s.registry)) [
  | inl e ↦ rw (e, assign_task_to_worker) h
  | inr (w, e) ↦ elim (Bool-cases (is_idle w.status)) [
    | inl b ↦
        rw (e, assign_task_to_worker, b)
          (take_task-Open id w (get_next_task (some s.manager) (pos 0) none []) sent now s h)
    | inr b ↦ rw (e, assign_task_to_worker, b) h
  ]
]

assign_pending-Open :
    (id : ℕ) (sent : Bool) (now : ℕ) (s : Server) → Open s → Open (assign_pending id sent now s)
assign_pending-Open id sent now s h = elim (Bool-cases (ltb 0 (pending_count (some s.manager)))) [
  | inl b ↦ rw b (assign_task_to_worker-Open id sent now s h)
  | inr b ↦ rw b h
]

registration-manager :
    (sockfd : ℤ) (thread_id now : ℕ) (sent : Bool) (s : Server)
    → (handle_worker_registration sockfd thread_id now sent s).3.manager ≡ s.manager
unfolding handle_worker_registration
registration-manager sockfd thread_id now true s =
    elim (Bool-cases ((add sockfd thread_id now s.registry).0 == 0)) [
      | inl b ↦ rw (b, handle_worker_registration) refl
      | inr b ↦ rw (b, handle_worker_registration) refl
    ]
registration-manager sockfd thread_id now false s =
    elim (Bool-cases ((add sockfd thread_id now s.registry).0 == 0)) [
      | inl b ↦ rw (b, handle_worker_registration) refl
      | inr b ↦ rw (b, handle_worker_registration) refl
    ]

heartbeat-manager :
    (id : ℕ) (sockfd : ℤ) (now : ℕ) (s : Server)
    → (handle_worker_heartbeat id sockfd now s).1.manager ≡ s.manager
unfolding handle_worker_heartbeat
heartbeat-manager id sockfd now s = elim (Bool-cases (update_heartbeat id now s.registry).0) [
  | inl b ↦ rw (b, handle_worker_heartbeat) refl
  | inr b ↦ rw (b, handle_worker_heartbeat) refl
]

module _ (decode : List ℕ → TaskResult) where
  step-Open : (e : Event) (s : Server) → Open s → Open (step decode s e)
  unfolding step create_sample_task check_timeouts
  step-Open (connects sockfd thread_id now sent) s h =
      rw (registration-manager sockfd thread_id now sent s) h
  step-Open (heartbeat id sockfd now sent) s h =
      assign_pending-Open id sent now (handle_worker_heartbeat id sockfd now s).1
        (rw (heartbeat-manager id sockfd now s) h)
  step-Open (result_arrives id sockfd reads now sent) s h =
      assign_pending-Open id sent now (handle_task_result decode id sockfd reads now s).1
        (rw (handle_task_result_lem decode id sockfd reads now s) h)
  step-Open (disconnects id) s h = h
  step-Open (checks_timeouts now) s h = timeout_loop-IsUnreported now 60 s.manager.tasks h
  step-Open (creates_sample memory now) s h = create_task-Open sample_data 17 memory now s.manager h

  -- Whatever the workers send, and in whatever order, the server never records a task as completed or
  -- as failed: from a state without such a task, any run of its handlers leads to one without.
  pub run-IsUnreported :
      (es : List Event) (s : Server)
      → All IsUnreported s.manager.tasks
      → All IsUnreported (run decode s es).manager.tasks
  unfolding run
  run-IsUnreported [] s h = h
  run-IsUnreported (e ∷ es) s h = run-IsUnreported es (step decode s e) (step-Open e s h)
