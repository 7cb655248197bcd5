-- ===== src/Worker/Threads.antt =====
-- worker.c: the heartbeat thread and the job thread with the messages that they exchange, and the
-- statistics. The session at each call, the answers and the clock enter as arguments.
use c_simples.Prelude.{
  ℕ, ◌+◌, ltb, if◌then◌else◌, ℤ, pos, negsuc, ◌+ℤ◌, Bool, true, false, ◌&&◌, Option, none, some,
  List, [], ◌∷◌, ◌++◌,
}
use c_simples.Worker.{JobTypes, process_job, Session, ConnectEnv, RegisterEnv, reconnect}

-- What a worker sends; the first number is its own, and `job_failed` has ERR_JOB_PROCESSING_FAILED.
pub data Packet : Type 0 where
  heartbeat : ℤ → Packet
  job_request : ℤ → Packet
  job_completed : ℤ → ℤ → List ℕ → ℕ → ℤ → Packet
  job_failed : ℤ → ℤ → Packet

-- Whether `send_message` succeeds, and whether `receive_message` gives the acknowledgment.
pub record Ack : Type 0 where
  pub sent : Bool
  pub acked : Bool

abbrev is_number : ℤ → Bool
is_number (pos n) = true
is_number (negsuc n) = false

-- The test at the start of each exchange.
abbrev pub is_ready : Session → Bool
is_ready w = w.is_connected && is_number w.worker_id

abbrev call : Session → Packet → Ack → Bool × List Packet
call w packet a = if is_ready w then (a.sent && a.acked, packet ∷ []) else (false, [])

-- `worker_send_heartbeat`, `worker_send_job_completion` and `worker_send_job_failure`: whether they return
-- 0, and what they send.
unfoldable pub send_heartbeat : Session → Ack → Bool × List Packet
send_heartbeat w a = call w (heartbeat w.worker_id) a

unfoldable pub send_job_completion : Session → ℤ → List ℕ → ℕ → ℤ → Ack → Bool × List Packet
send_job_completion w job_id result_data result_size processing_time a =
    call w (job_completed w.worker_id job_id result_data result_size processing_time) a

unfoldable pub send_job_failure : Session → ℤ → Ack → Bool × List Packet
send_job_failure w job_id a = call w (job_failed w.worker_id job_id) a

-- `g_jobs_processed`, `g_jobs_failed` and `g_total_processing_time_ms`
pub record Tally : Type 0 where
  pub jobs_processed : ℕ
  pub jobs_failed : ℕ
  pub total_processing_time_ms : ℤ

-- The answer to a request for a job; a job has its number, its type, its data and its size.
pub data Answer : Type 0 where
  no_answer no_job_available other_answer : Answer
  job_assigned : ℤ → ℤ → List ℕ → ℕ → Answer

-- A call of `worker_request_job`: the session when it starts and when it reports, the request and its answer,
-- `malloc`, the time between the two reads of the clock, and the report.
pub record Round : Type 0 where
  pub session : Session
  pub sent : Bool
  pub answer : Answer
  pub allocated : Bool
  pub processing_time : ℤ
  pub later : Session
  pub report : Ack

abbrev failed : Tally → Tally
failed t = record t { jobs_failed = t.jobs_failed + 1 }

abbrev processed : ℤ → Tally → Tally
processed time t = record t {
  jobs_processed = t.jobs_processed + 1;
  total_processing_time_ms = t.total_processing_time_ms +ℤ time;
}

-- After `send_job_completion`.
abbrev pub completed : ℤ → ℤ → Bool × List Packet → Tally → ℤ × List Packet × Tally
completed job_id time (true, packets) t = (job_id, packets, processed time t)
completed job_id time (false, packets) t = (job_id, packets, failed t)

-- After `worker_process_job`.
abbrev pub after_job : Round → ℤ → ℕ → Option (List ℕ) → Tally → ℤ × List Packet × Tally
after_job r job_id size none t = (job_id, (send_job_failure r.later job_id r.report).1, failed t)
after_job r job_id size (some result_data) t =
    completed job_id r.processing_time
      (send_job_completion r.later job_id result_data size r.processing_time r.report) t

abbrev pub after_answer : JobTypes → Round → Answer → Tally → ℤ × List Packet × Tally
after_answer types r no_job_available t = (pos 0, [], t)
after_answer types r (job_assigned job_id job_type input_data input_size) t =
    after_job r job_id input_size (process_job types job_type input_data input_size r.allocated) t
after_answer types r _ t = (negsuc 0, [], t)

-- `worker_request_job`: its value, what it sends, and the statistics.
unfoldable pub request_job : JobTypes → Round → Tally → ℤ × List Packet × Tally
request_job types r t =
    let (value, packets, t') = after_answer types r r.answer t in
    if is_ready r.session
    then if r.sent
      then (value, job_request r.session.worker_id ∷ packets, t')
      else (negsuc 0, job_request r.session.worker_id ∷ [], t)
    else (negsuc 0, [], t)

-- A round of `job_thread_func`: the flags that it reads, and the call.
pub record Turn : Type 0 where
  pub is_running : Bool
  pub is_connected : Bool
  pub round : Round

-- A round that runs.
abbrev pub turn : JobTypes → Turn → Tally → List Packet × Tally
turn types r t =
    let (value, packets, t') = request_job types r.round t in
    if r.is_connected then (packets, t') else ([], t)

-- `job_thread_func`: what it sends, and the statistics.
unfoldable pub job_thread : JobTypes → List Turn → Tally → List Packet × Tally
job_thread types [] t = ([], t)
job_thread types (r ∷ rs) t =
    let (packets, t1) = turn types r t in
    let (more, t2) = job_thread types rs t1 in
    if r.is_running then (packets ++ more, t2) else ([], t)

-- `worker_get_stats`; the quotient of two numbers of type double, and 0.0, are parameters.
unfoldable pub get_stats : {D : Type 0} → (ℤ → ℕ → D) → D → Tally → ℕ × ℕ × D
get_stats quotient nothing t = (
  t.jobs_processed,
  t.jobs_failed,
  if ltb 0 t.jobs_processed then quotient t.total_processing_time_ms t.jobs_processed else nothing,
)

-- A round of `heartbeat_thread_func`: the flag that it reads, the heartbeat, and a reconnection.
pub record Beat : Type 0 where
  pub is_running : Bool
  pub ack : Ack
  pub connect_env : ConnectEnv
  pub register_env : RegisterEnv

-- A round that runs: the sockets that it closes, and the session.
abbrev pub beat : Beat → Session → List ℕ × Session
beat b w =
    let (joined, closed, w') = reconnect b.connect_env b.register_env w in
    if (send_heartbeat w b.ack).0 then ([], w) else (closed, w')

-- `heartbeat_thread_func`
unfoldable pub heartbeat_thread : List Beat → Session → List ℕ × Session
heartbeat_thread [] w = ([], w)
heartbeat_thread (b ∷ bs) w =
    let (closed, w1) = beat b w in
    let (more, w2) = heartbeat_thread bs w1 in
    if b.is_running then (closed ++ more, w2) else ([], w)
