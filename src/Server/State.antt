-- ===== src/Server/State.antt =====
-- The state of distributed_worker_system/server/server.c and the messages of its connections.
use Prim.Native.String.{String}
use c_simples.Prelude.{ℕ, ℤ, Bool, Option, List}
use c_simples.JobHandler.{Handler, JobStatus, Sent}
use c_simples.WorkerManager.{Manager}

-- `is_running` of `g_server`, and the globals of the job handler and of the worker manager.
pub record System : Type 0 where
  pub is_running : Bool
  pub jobs : Handler
  pub workers : Manager

-- The messages of a client: the `MSG_TYPE_` constant that the switch tests, with the fields of the
-- body that the case reads.
pub data ClientBody : Type 0 where
  submit_job : ℤ → Option (List ℕ) → ℕ → ClientBody
  get_job_status : ℤ → ClientBody
  get_job_result : ℤ → ClientBody
  unknown_to_client : ClientBody

pub record ClientMessage : Type 0 where
  pub message_id : ℤ
  pub client_id : ℤ
  pub body : ClientBody

-- The messages of a worker.
pub data WorkerBody : Type 0 where
  worker_register : Option (List ℕ) → ℤ → Option (List ℤ) → ℤ → WorkerBody
  worker_heartbeat : WorkerBody
  request_job : WorkerBody
  job_done : ℤ → Option (List ℕ) → ℕ → ℤ → WorkerBody
  job_lost : ℤ → ℤ → WorkerBody
  worker_disconnect : WorkerBody
  unknown_to_worker : WorkerBody

pub record WorkerMessage : Type 0 where
  pub message_id : ℤ
  pub worker_id : ℤ
  pub body : WorkerBody

-- The `ERR_` constants.
pub data ErrorCode : Type 0 where
  job_submission_failed job_not_found job_not_completed internal_error : ErrorCode
  invalid_message worker_registration_failed worker_not_found : ErrorCode

-- What the server answers, with the fields of the body that it sets.
pub data ResponseBody : Type 0 where
  client_connect_ack worker_connect_ack : ResponseBody
  job_submitted : ℕ → ResponseBody
  job_status : ℤ → JobStatus → ResponseBody
  job_result : ℤ → Option (List ℕ) → ℕ → ResponseBody
  worker_registered : ℕ → ResponseBody
  worker_heartbeat_ack no_job_available worker_disconnect_ack : ResponseBody
  job_completion_ack job_failure_ack : ℤ → ResponseBody
  error : ErrorCode → String → ResponseBody

-- A response; `peer_id` is the `client_id` or the `worker_id` of its header.
pub record Response : Type 0 where
  pub message_id : ℤ
  pub peer_id : ℤ
  pub body : ResponseBody

-- What is passed to `send_message`: a response and its socket, or a message of the job handler.
pub data Packet : Type 0 where
  response_to : ℤ → Response → Packet
  job_message : Sent → Packet

-- What the environment answers while a message is handled: the clock, `malloc` in the job handler,
-- `send_message` in `job_handler_assign`, and `send_message` for the response.
pub record Answers : Type 0 where
  pub now : ℕ
  pub allocated : Bool
  pub delivered : Bool
  pub sent : Bool

-- Whether a handler returns 0, what it has sent, and the state that it leaves.
abbrev pub Outcome : Type 0
Outcome = Bool × List Packet × System
