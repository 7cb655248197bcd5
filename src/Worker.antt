-- ===== src/Worker.antt =====
-- distributed_worker_system/worker/worker.c: the jobs that a worker does, and its session with the
-- server. The numbers of the job types are defined by no file of the repository and are parameters;
-- what the system calls and the server answer enters as arguments.
pub mod Jobs
pub mod Connection
pub mod Threads
pub mod Counts
pub mod Heartbeats
mod Tests
use c_simples.Prelude.{
  ℕ, zero, suc, ◌+◌, ◌-◌, leb, ◌==◌, if◌then◌else◌, ℤ, ◌=ℤ◌, pos, negsuc, Bool, true, false, ◌&&◌,
  not, Option, none, some, List, [], ◌∷◌, ◌++◌, get_or,
}

-- `JOB_TYPE_ECHO`, `JOB_TYPE_REVERSE` and `JOB_TYPE_UPPERCASE`
pub record JobTypes : Type 0 where
  pub echo : ℤ
  pub reversal : ℤ
  pub uppercase : ℤ

-- A loop `for (i = 0; i < input_size; i++)` that writes `data_copy[i]`, from `i` on with `n` rounds left.
unfoldable pub fill_loop : (ℕ → ℕ) → ℕ → ℕ → List ℕ
fill_loop f i zero = []
fill_loop f i (suc n) = f i ∷ fill_loop f (suc i) n

abbrev pub upper : ℕ → ℕ
upper byte = if leb 97 byte && leb byte 122 then byte - 97 + 65 else byte

-- `worker_process_job` with valid result pointers: the result, or none for -1; `ok` says whether `malloc`
-- succeeds.
unfoldable pub process_job : JobTypes → ℤ → List ℕ → ℕ → Bool → Option (List ℕ)
process_job types job_type input_data input_size ok =
    if job_type =ℤ types.echo
    then if ok then some (fill_loop (λ i. get_or input_data i 0) 0 input_size) else none
    else if job_type =ℤ types.reversal
    then if ok
      then some (fill_loop (λ i. get_or input_data (input_size - i - 1) 0) 0 input_size)
      else none
    else if job_type =ℤ types.uppercase
    then if ok then some (fill_loop (λ i. upper (get_or input_data i 0)) 0 input_size) else none
    else none

-- `g_worker`, without its configuration, its threads and its lock.
pub record Session : Type 0 where
  pub worker_id : ℤ
  pub server_socket : ℤ
  pub is_running : Bool
  pub is_connected : Bool

-- What `receive_message` gives: nothing, one of the answers that the worker looks for, or another one.
pub data Reply : Type 0 where
  no_reply : Reply
  connect_ack : Reply
  registered : ℕ → Reply
  other_reply : Reply

-- What the calls of `worker_connect_to_server` return: the socket (none if it fails), `inet_pton` and
-- `connect`, then the sending of the message and the answer.
pub record ConnectEnv : Type 0 where
  pub socket : Option ℕ
  pub address_ok : Bool
  pub connect_ok : Bool
  pub sent : Bool
  pub reply : Reply

pub record RegisterEnv : Type 0 where
  pub sent : Bool
  pub reply : Reply

-- `worker_init`
abbrev pub init : Session
init = record {
  worker_id = negsuc 0;
  server_socket = negsuc 0;
  is_running = false;
  is_connected = false;
}

abbrev pub is_connect_ack : Reply → Bool
is_connect_ack connect_ack = true
is_connect_ack _ = false

-- The end of `worker_connect_to_server`, with the socket and whether all later calls succeed.
abbrev pub answered : Option ℕ → Bool → Session → Bool × List ℕ × Session
answered none all_ok w = (false, [], w)
answered (some fd) all_ok w =
    if all_ok
    then (true, [], record w { server_socket = pos fd; is_connected = true })
    else (false, fd ∷ [], w)

abbrev pub all_ok : ConnectEnv → Bool
all_ok env = env.address_ok && env.connect_ok && env.sent && is_connect_ack env.reply

-- `worker_connect_to_server`: whether it returns 0, the sockets that it closes, and the session.
unfoldable pub connect_to_server : ConnectEnv → Session → Bool × List ℕ × Session
connect_to_server env w = answered env.socket (all_ok env) w

abbrev pub closing : ℤ → List ℕ
closing (pos fd) = fd ∷ []
closing (negsuc n) = []

-- `worker_disconnect_from_server`; it always returns 0.
unfoldable pub disconnect_from_server : Session → List ℕ × Session
disconnect_from_server w =
    if w.is_connected
    then (closing w.server_socket, record w { server_socket = negsuc 0; is_connected = false })
    else ([], w)

abbrev pub with_reply : Session → Reply → Bool × Session
with_reply w (registered id) = (true, record w { worker_id = pos id })
with_reply w _ = (false, w)

-- `worker_register`
unfoldable pub register : RegisterEnv → Session → Bool × Session
register env w = if w.is_connected && env.sent then with_reply w env.reply else (false, w)

-- Connect and register, and disconnect again if the second fails, as `worker_start` and
-- `heartbeat_thread_func` do.
unfoldable pub join : ConnectEnv → RegisterEnv → Session → Bool × List ℕ × Session
join connect_env register_env w =
    let (connected, closed, w1) = connect_to_server connect_env w in
    let (enrolled, w2) = register register_env w1 in
    let (closed', w3) = disconnect_from_server w2 in
    if connected
    then if enrolled then (true, closed, w2) else (false, closed ++ closed', w3)
    else (false, closed, w1)

abbrev pub stopped : Session → Session
stopped w = record w { is_running = false }

-- `worker_start`; the flags say whether the two threads can be created.
unfoldable pub start : ConnectEnv → RegisterEnv → Bool → Bool → Session → Bool × List ℕ × Session
start connect_env register_env heartbeat_ok job_ok w =
    let (joined, closed, w1) = join connect_env register_env (record w { is_running = true }) in
    let (closed', w2) = disconnect_from_server w1 in
    if w.is_running
    then (false, [], w)
    else if joined
    then if heartbeat_ok && job_ok
      then (true, closed, w1)
      else (false, closed ++ closed', stopped w2)
    else (false, closed, stopped w1)

-- `worker_stop`
unfoldable pub stop : Session → Bool × List ℕ × Session
stop w =
    let (closed, w') = disconnect_from_server (stopped w) in
    if w.is_running then (true, closed, w') else (false, [], w)

-- The part of `heartbeat_thread_func` after a heartbeat that failed.
unfoldable pub reconnect : ConnectEnv → RegisterEnv → Session → Bool × List ℕ × Session
reconnect connect_env register_env w =
    let (closed, w1) = disconnect_from_server w in
    let (joined, closed', w2) = join connect_env register_env w1 in (joined, closed ++ closed', w2)
