-- ===== src/JobHandler/State.antt =====
-- The state of distributed_worker_system/server/job_handler.c and the structures of job_handler.h.
use c_simples.Prelude.{ℕ, ℤ, pos, negsuc, Bool, true, false, Option, none, List}

-- The `JOB_STATUS_` constants.
pub data JobStatus : Type 0 where
  pending assigned completed failed timeout : JobStatus

-- `Job`. A buffer is the list of its bytes, and NULL is `none`.
pub record Job : Type 0 where
  pub job_id : ℕ
  pub client_socket : ℤ
  pub worker_socket : ℤ
  pub job_type : ℤ
  pub input_data : Option (List ℕ)
  pub input_size : ℕ
  pub result_data : Option (List ℕ)
  pub result_size : ℕ
  pub status : JobStatus
  pub submit_time : ℕ
  pub start_time : ℕ
  pub end_time : ℕ
  pub retry_count : ℕ

-- `g_pending_jobs`, `g_running_jobs`, `g_completed_jobs` and `g_failed_jobs`
pub record Stats : Type 0 where
  pub pending_jobs : ℤ
  pub running_jobs : ℤ
  pub completed_jobs : ℤ
  pub failed_jobs : ℤ

-- The globals. `jobs` is the array `g_jobs` of `g_max_jobs` entries (none while it is NULL).
pub record Handler : Type 0 where
  pub jobs : List Job
  pub timeout_seconds : ℤ
  pub next_job_id : ℕ
  pub stats : Stats

-- The messages that the handler sends, with the fields that it sets.
pub data Message : Type 0 where
  job_assigned : ℕ → ℤ → Option (List ℕ) → ℕ → Message
  job_completed : ℕ → Message
  job_failed : ℕ → ℤ → Message

-- A message and the socket that it goes to.
pub record Sent : Type 0 where
  pub socket : ℤ
  pub message : Message

-- `MAX_JOB_RETRIES` and `ERR_JOB_TIMEOUT`
pub record Limits : Type 0 where
  pub max_retries : ℕ
  pub timeout_error : ℤ

-- An entry that `calloc` has cleared.
abbrev pub empty_job : Job
empty_job = record {
  job_id = 0;
  client_socket = pos 0;
  worker_socket = pos 0;
  job_type = pos 0;
  input_data = none;
  input_size = 0;
  result_data = none;
  result_size = 0;
  status = pending;
  submit_time = 0;
  start_time = 0;
  end_time = 0;
  retry_count = 0;
}

-- -1, the socket of a job that no worker has.
abbrev pub no_socket : ℤ
no_socket = negsuc 0

abbrev pub same_status : JobStatus → JobStatus → Bool
same_status pending pending = true
same_status assigned assigned = true
same_status completed completed = true
same_status failed failed = true
same_status timeout timeout = true
same_status _ _ = false
