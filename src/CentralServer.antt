-- ===== src/CentralServer.antt =====
-- distributed_worker_system/central_server/central_server.c: what the handlers of the central server do
-- to its worker registry and its task manager, each handler from start to end with no other thread in
-- between. Logging is left out; the clock, `read` and `send_message` enter as arguments.
pub mod Results
pub mod Assignment
mod Tests
use c_simples.Prelude.{
  ℕ, zero, suc, ltb, ◌==◌, if◌then◌else◌, ℤ, pos, negsuc, Bool, true, false, ◌&&◌, not, Option,
  none, some, List, [], ◌∷◌, ◌++◌, replicate,
}
use c_simples.RingBuffer.{RingBuffer, PopOutcome, popped, pop_failed, pop_waits}
use c_simples.NetUtils.{RecvOutcome, received, recv_payload, return_value}
use c_simples.TaskManager
use c_simples.TaskManager.{
  Task, Manager, get_next_task, assign_task, process_result, pending_count, create_task,
}
use c_simples.WorkerRegistry
use c_simples.WorkerRegistry.{
  Registry, WorkerInfo, WorkerStatus, idle, busy, add, remove, get, is_idle,
}

-- `worker_registry` and `task_manager`
pub record Server : Type 0 where
  pub registry : Registry
  pub manager : Manager

-- The messages that the server sends to a worker, with the socket.
pub data Sent : Type 0 where
  register_response : ℤ → ℕ → Sent
  heartbeat_response : ℤ → ℕ → Sent
  task_message : ℤ → ℕ → List ℕ → Sent
  result_ack : ℤ → ℕ → Sent

-- `task_result_t`
pub record TaskResult : Type 0 where
  pub task_id : ℕ
  pub status : ℕ
  pub exec_time_ms : ℕ

-- `WORKER_TIMEOUT_SEC` and `TASK_TIMEOUT_SEC`
abbrev pub worker_timeout_sec : ℕ
worker_timeout_sec = 30

abbrev pub task_timeout_sec : ℕ
task_timeout_sec = 60

-- `sizeof(task_result_t)`
abbrev pub result_size : ℕ
result_size = 12

-- `handle_worker_registration`: the number given (0 on failure), what is sent, the sockets closed.
unfoldable pub handle_worker_registration :
    ℤ → ℕ → ℕ → Bool → Server → ℕ × List Sent × List ℤ × Server
handle_worker_registration sockfd thread_id now sent s =
    let (id, r) = add sockfd thread_id now s.registry in
    if id == 0
    then (0, [], [], s)
    else if sent
    then (id, register_response sockfd id ∷ [], [], record s { registry = r })
    else let (_, closed, r') = remove id r in
      (0, register_response sockfd id ∷ [], closed, record s { registry = r' })

-- `handle_worker_heartbeat`
unfoldable pub handle_worker_heartbeat : ℕ → ℤ → ℕ → Server → List Sent × Server
handle_worker_heartbeat worker_id sockfd now s =
    let (found, r) = WorkerRegistry.update_heartbeat worker_id now s.registry in
    if found then (heartbeat_response sockfd worker_id ∷ [], record s { registry = r }) else ([], s)

abbrev pub same_value : ℤ → ℕ → Bool
same_value (pos n) m = n == m
same_value (negsuc n) m = false

abbrev pub tallied : ℕ → WorkerInfo → WorkerInfo
tallied zero w = record w { tasks_completed = suc w.tasks_completed }
tallied (suc n) w = record w { tasks_failed = suc w.tasks_failed }

-- What `handle_task_result` does with a result: `worker_registry_update_status` and the counter
-- behind the pointer that `worker_registry_get` returned.
unfoldable pub record_result : ℕ → TaskResult → ℕ → Server → Server
record_result worker_id result now s =
    let (_, m) = process_result result.task_id result.status result.exec_time_ms now s.manager in
    elim (get worker_id s.registry) [
      | none ↦ record s { manager = m }
      | some w ↦
          let (_, r) = WorkerRegistry.update_status worker_id idle s.registry in
          let (_, ws) = WorkerRegistry.change_loop worker_id (tallied result.status) r.workers in
          record { registry = record r { workers = ws }; manager = m }
    ]

-- `handle_task_result`, with the result that the bytes received stand for.
unfoldable pub handle_task_result :
    (List ℕ → TaskResult) → ℕ → ℤ → List (List ℕ) → ℕ → Server → List Sent × Server
handle_task_result decode worker_id sockfd reads now s =
    let outcome = recv_payload result_size reads in
    if not (same_value (return_value outcome) result_size) then ([], s) else elim outcome [
      | received bytes ↦
          let result = decode bytes in
          (result_ack sockfd result.task_id ∷ [], record_result worker_id result now s)
      | _ ↦ ([], s)
    ]

abbrev pub with_status : ℕ → WorkerStatus → Registry → Registry
with_status worker_id status r = (WorkerRegistry.update_status worker_id status r).1

-- The rest of `assign_task_to_worker` once the task is out of the queue of `s`.
abbrev pub hand_out : ℕ → WorkerInfo → Task → Bool → ℕ → Server → Bool × List Sent × Server
hand_out worker_id w task sent now s =
    let (found, m) = assign_task task.task_id worker_id now s.manager in
    if found
    then (
      sent,
      task_message w.sockfd task.task_id task.input_data ∷ [],
      record {
        registry =
            if sent
            then with_status worker_id busy s.registry
            else with_status worker_id idle (with_status worker_id busy s.registry);
        manager = m;
      },
    )
    else (false, [], record s { manager = m })

-- What `assign_task_to_worker` does with what `task_manager_get_next_task` returns.
abbrev pub take_task :
    ℕ → WorkerInfo → PopOutcome Task → Bool → ℕ → Server → Bool × List Sent × Server
take_task worker_id w (popped (some task) rb) sent now s =
    hand_out worker_id w task sent now (record s { manager = record s.manager { task_queue = rb } })
take_task worker_id w (popped none rb) sent now s =
    (false, [], record s { manager = record s.manager { task_queue = rb } })
take_task worker_id w _ sent now s = (false, [], s)

-- `assign_task_to_worker`: whether it returns 0, what it sends, and the state.
unfoldable pub assign_task_to_worker : ℕ → Bool → ℕ → Server → Bool × List Sent × Server
assign_task_to_worker worker_id sent now s = elim (get worker_id s.registry) [
  | none ↦ (false, [], s)
  | some w ↦
      if is_idle w.status
      then take_task worker_id w (get_next_task (some s.manager) (pos 0) none []) sent now s
      else (false, [], s)
]

-- The test for pending tasks in `worker_handler_thread`, and the assignment.
abbrev pub assign_pending : ℕ → Bool → ℕ → Server → Server
assign_pending worker_id sent now s =
    if ltb 0 (pending_count (some s.manager))
    then (assign_task_to_worker worker_id sent now s).2
    else s

-- "Sample task data" with its NUL, in an array of `MAX_DATA_SIZE` bytes.
abbrev pub sample_data : List ℕ
sample_data =
    83
    ∷ 97
    ∷ 109
    ∷ 112
    ∷ 108
    ∷ 101
    ∷ 32
    ∷ 116
    ∷ 97
    ∷ 115
    ∷ 107
    ∷ 32
    ∷ 100
    ∷ 97
    ∷ 116
    ∷ 97
    ∷ replicate 1008 0

-- `create_sample_task`
unfoldable pub create_sample_task : Option Task → ℕ → Server → Server
create_sample_task memory now s = record s {
  manager = (create_task (some sample_data) 17 memory now s.manager).1;
}

-- What the threads of the server do to its state: one message of a worker, a worker that comes or
-- goes, a round of `timeout_checker_thread`, and a sample task.
pub data Event : Type 0 where
  connects : ℤ → ℕ → ℕ → Bool → Event
  heartbeat : ℕ → ℤ → ℕ → Bool → Event
  result_arrives : ℕ → ℤ → List (List ℕ) → ℕ → Bool → Event
  disconnects : ℕ → Event
  checks_timeouts : ℕ → Event
  creates_sample : Option Task → ℕ → Event

module _ (decode : List ℕ → TaskResult) where
  unfoldable pub step : Server → Event → Server
  step s (connects sockfd thread_id now sent) =
      (handle_worker_registration sockfd thread_id now sent s).3
  step s (heartbeat worker_id sockfd now sent) =
      assign_pending worker_id sent now (handle_worker_heartbeat worker_id sockfd now s).1
  step s (result_arrives worker_id sockfd reads now sent) =
      assign_pending worker_id sent now (handle_task_result decode worker_id sockfd reads now s).1
  step s (disconnects worker_id) = record s { registry = (remove worker_id s.registry).2 }
  step s (checks_timeouts now) = record {
    registry = (WorkerRegistry.check_timeouts worker_timeout_sec now s.registry).1;
    manager = (TaskManager.check_timeouts task_timeout_sec now s.manager).1;
  }
  step s (creates_sample memory now) = create_sample_task memory now s

  unfoldable pub run : Server → List Event → Server
  run s [] = s
  run s (e ∷ es) = run (step s e) es
