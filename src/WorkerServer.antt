-- ===== src/WorkerServer.antt =====
-- distributed_worker_system/worker_server/worker_server.c: the program that connects to the central server,
-- registers, sends heartbeats and works on tasks. What the calls return and what the server answers enters
-- as arguments; `recv_payload` is that of NetUtils.
pub mod Registration
pub mod Tasks
pub mod Locking
mod Tests
use c_simples.Prelude.{
  ℕ, zero, suc, ◌%◌, ◌==◌, if◌then◌else◌, ℤ, pos, negsuc, ◌=ℤ◌, Bool, true, false, ◌&&◌, not,
  Option, none, some, List, [], ◌∷◌, ◌++◌,
}
use c_simples.NetUtils.{recv_payload, return_value}

-- The `MSG_TYPE_` constants that the program looks for.
pub data MessageType : Type 0 where
  register_response heartbeat_response task result_ack shutdown other_type : MessageType

-- `MessageHeader`
pub record Header : Type 0 where
  pub message_type : MessageType
  pub client_id : ℕ

abbrev pub is_register_response : Header → Bool
is_register_response h = elim h.message_type [ register_response ↦ true | _ ↦ false ]

-- The loop of `connect_to_server` from an attempt on, with the attempts left: whether `worker_running` is
-- set before each attempt, and the socket that it gives (`none` for -1).
unfoldable pub connect_loop : ℕ → ℕ → (ℕ → Bool) → (ℕ → Option ℕ) → Option ℕ
connect_loop zero attempt running sockets = none
connect_loop (suc left) attempt running sockets =
    let rest = connect_loop left (suc attempt) running sockets in
    if running attempt then elim (sockets attempt) [ none ↦ rest | some fd ↦ some fd ] else none

-- `connect_to_server`; `MAX_RECONNECT_ATTEMPTS` is 5, and -1 is `none`.
unfoldable pub connect_to_server : (ℕ → Bool) → (ℕ → Option ℕ) → Option ℕ
connect_to_server running sockets = connect_loop 5 0 running sockets

-- The loop of `register_with_server` with `retries` before its test: the value of `retries` after the loop,
-- and the header of the response. A header is `none` if `recv_header` fails.
unfoldable pub register_loop : ℕ → ℕ → (ℕ → Option Header) → ℤ × Option Header
register_loop zero attempt headers = (negsuc 0, none)
register_loop (suc retries) attempt headers =
    let rest = register_loop retries (suc attempt) headers in
    elim (headers attempt) [
      | none ↦ rest
      | some h ↦ if is_register_response h then (pos retries, some h) else rest
    ]

-- `retries <= 0`, and then the number that the server gives.
abbrev pub registered : ℤ × Option Header → Option ℕ
registered (retries, none) = none
registered (negsuc n, some h) = none
registered (pos zero, some h) = none
registered (pos (suc n), some h) = some h.client_id

-- `register_with_server`: the worker's number, or `none` for -1.
unfoldable pub register_with_server : Bool → (ℕ → Option Header) → Option ℕ
register_with_server sent headers = if sent then registered (register_loop 3 0 headers) else none

-- What is done with `socket_mutex`.
pub data LockStep : Type 0 where
  locks unlocks : LockStep

-- The switch at the end of `send_heartbeat`, after one unlock.
abbrev pub heartbeat_answered : MessageType → ℤ × List LockStep
heartbeat_answered heartbeat_response = (pos 0, [])
heartbeat_answered task = (pos 1, unlocks ∷ [])
heartbeat_answered _ = (negsuc 0, [])

abbrev pub after_heartbeat : Option Header → ℤ × List LockStep
after_heartbeat none = (negsuc 0, [])
after_heartbeat (some h) = heartbeat_answered h.message_type

-- `send_heartbeat`: its value, and its uses of the mutex.
unfoldable pub send_heartbeat : Bool → Option Header → ℤ × List LockStep
send_heartbeat sent header =
    let (value, more) = after_heartbeat header in
    if sent then (value, locks ∷ unlocks ∷ more) else (negsuc 0, locks ∷ unlocks ∷ [])

abbrev pub is_result_ack : Option Header → Bool
is_result_ack none = false
is_result_ack (some h) = elim h.message_type [ result_ack ↦ true | _ ↦ false ]

-- `send_task_result`: whether it returns 0, and its uses of the mutex.
unfoldable pub send_task_result : Bool → Option Header → Bool × List LockStep
send_task_result sent header = (sent && is_result_ack header, locks ∷ unlocks ∷ [])

-- `task_result_t` with `STATUS_SUCCESS`.
pub record TaskResult : Type 0 where
  pub task_id : ℕ
  pub exec_time_ms : ℕ

-- `process_task`, by the time that passes on the clock.
abbrev pub process_task : ℕ → ℕ → TaskResult
process_task task_id elapsed_ms = record {
  task_id = task_id;
  exec_time_ms = elapsed_ms % 4294967296;
}

-- A round of the main loop: `worker_running` before it, the header, whether a failure was an interrupt,
-- what `read` returns for the payload, the time of the work, and the sending of the result.
pub record Round : Type 0 where
  pub running : Bool
  pub header : Option Header
  pub interrupted : Bool
  pub reads : List (List ℕ)
  pub elapsed_ms : ℕ
  pub sent : Bool
  pub ack : Option Header

-- What a round does: the results that it sends, the uses of the mutex, and whether the loop goes on.
pub record Done : Type 0 where
  pub results : List TaskResult
  pub steps : List LockStep
  pub goes_on : Bool

-- `sizeof(task_t)`
abbrev pub task_size : ℕ
task_size = 2060

-- The case `MSG_TYPE_TASK`: the test of the value of `recv_payload`, and the work.
unfoldable pub work_on : Round → Header → Done
work_on r h =
    if return_value (recv_payload task_size r.reads) =ℤ pos task_size
    then record {
      results = process_task h.client_id r.elapsed_ms ∷ [];
      steps = locks ∷ unlocks ∷ (send_task_result r.sent r.ack).1;
      goes_on = true;
    }
    else record { results = []; steps = locks ∷ unlocks ∷ []; goes_on = true }

abbrev pub idle : Bool → Done
idle goes_on = record { results = []; steps = locks ∷ unlocks ∷ []; goes_on = goes_on }

-- The switch of the main loop.
abbrev pub on_message : Round → Header → MessageType → Done
on_message r h task = work_on r h
on_message r h shutdown = idle false
on_message r h _ = idle true

-- A round after `recv_header`.
abbrev pub on_header : Round → Option Header → Done
on_header r none = idle r.interrupted
on_header r (some h) = on_message r h h.message_type

-- A round, and what follows it if the loop goes on.
abbrev pub and_rest : Done → List TaskResult × List LockStep → List TaskResult × List LockStep
and_rest d (results, steps) =
    if d.goes_on then (d.results ++ results, d.steps ++ steps) else (d.results, d.steps)

-- The main loop: the results that it sends, and the uses of the mutex.
unfoldable pub main_loop : List Round → List TaskResult × List LockStep
main_loop [] = ([], [])
main_loop (r ∷ rs) =
    let all = and_rest (on_header r r.header) (main_loop rs) in if r.running then all else ([], [])

-- A round of `heartbeat_thread`: `worker_running` before it, and the heartbeat.
pub record Beat : Type 0 where
  pub running : Bool
  pub sent : Bool
  pub header : Option Header

-- `heartbeat_thread`, which only logs the value of `send_heartbeat`: the uses of the mutex.
unfoldable pub heartbeat_thread : List Beat → List LockStep
heartbeat_thread [] = []
heartbeat_thread (b ∷ bs) =
    let rest = heartbeat_thread bs in
    if b.running then (send_heartbeat b.sent b.header).1 ++ rest else []

-- The rest of `main` with its socket: whether it returns EXIT_SUCCESS, the sockets that it closes, and the
-- results that it sends.
abbrev pub with_socket : Option ℕ → Bool → Bool → List Round → Bool × List ℕ × List TaskResult
with_socket none enrolled created rounds = (false, [], [])
with_socket (some fd) enrolled created rounds =
    if enrolled && created then (true, fd ∷ [], (main_loop rounds).0) else (false, fd ∷ [], [])

abbrev is_some : Option ℕ → Bool
is_some none = false
is_some (some id) = true

-- `main`: whether `logger_init` succeeds, what the attempts to connect and to register give, whether
-- `pthread_create` succeeds, and the rounds of the loop.
unfoldable pub main :
    Bool
    → (ℕ → Bool)
    → (ℕ → Option ℕ)
    → Bool
    → (ℕ → Option Header)
    → Bool
    → List Round
    → Bool × List ℕ × List TaskResult
main logged running sockets sent headers created rounds =
    if logged
    then with_socket (connect_to_server running sockets)
        (is_some (register_with_server sent headers)) created rounds
    else (false, [], [])
