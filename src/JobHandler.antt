-- ===== src/JobHandler.antt =====
-- distributed_worker_system/server/job_handler.c and job_handler.h: the table of jobs of the server,
-- with its statistics. Each call holds the mutex, so it is one function of the module's globals; the
-- clock, `malloc` and `send_message` enter as arguments. `MAX_JOB_RETRIES` and `ERR_JOB_TIMEOUT` are
-- defined by no file of the repository and are parameters.
mod State
pub use State.*
pub mod Table
pub mod Counts
pub mod Numbering
pub mod Moves
pub mod Invariant
pub mod Calls
pub mod Lifecycle
pub mod Schedule
pub mod Totals
pub mod Results
pub mod Races
pub mod Emptied
mod Tests
use c_simples.Prelude.{
  ℕ, zero, suc, ◌+◌, ◌*◌, ltb, ◌==◌, if◌then◌else◌, ℤ, pos, negsuc, inc, dec, Bool, true, false,
  ◌&&◌, not, Option, none, some, List, [], ◌∷◌, ◌++◌, set, take, replicate,
}

abbrev pub shifted : Option (ℕ × Job) → Option (ℕ × Job)
shifted none = none
shifted (some (i, j)) = some (suc i, j)

-- The loop of `find_job_by_id`: the pointer that it returns, as the index and the job there.
unfoldable pub find_loop : ℕ → List Job → Option (ℕ × Job)
find_loop id [] = none
find_loop id (j ∷ js) = if j.job_id == id then some (0, j) else shifted (find_loop id js)

unfoldable pub find_job_by_id : Handler → ℤ → Option (ℕ × Job)
find_job_by_id h (negsuc n) = none
find_job_by_id h (pos zero) = none
find_job_by_id h (pos (suc n)) =
    if ltb (suc n) h.next_job_id then find_loop (suc n) h.jobs else none

abbrev pub next_index : Option ℕ → Option ℕ
next_index none = none
next_index (some i) = some (suc i)

unfoldable pub find_free_job_slot : List Job → Option ℕ
find_free_job_slot [] = none
find_free_job_slot (j ∷ js) = if j.job_id == 0 then some 0 else next_index (find_free_job_slot js)

-- `job_handler_init`, called while `g_jobs` is NULL and `g_max_jobs` is 0, as they are at the start
-- and after `job_handler_cleanup`; `ok` says whether `calloc` succeeds. The statistics are left.
unfoldable pub init : ℤ → ℤ → Bool → Handler → Bool × Handler
init (negsuc n) timeout_seconds ok h = (false, h)
init (pos zero) timeout_seconds ok h = (false, h)
init (pos (suc n)) timeout_seconds ok h =
    if ok
    then (
      true,
      record h {
        jobs = replicate (suc n) empty_job;
        timeout_seconds = timeout_seconds;
        next_job_id = 1;
      },
    )
    else (false, record h { jobs = [] })

abbrev and_buffer : Option (List ℕ) → List (List ℕ) → List (List ℕ)
and_buffer none rest = rest
and_buffer (some b) rest = b ∷ rest

-- The loop of `job_handler_cleanup`: the buffers that it frees.
pub job_buffers : List Job → List (List ℕ)
job_buffers [] = []
job_buffers (j ∷ js) = and_buffer j.input_data (and_buffer j.result_data (job_buffers js))

-- `job_handler_cleanup`: the buffers freed, and the state.
unfoldable pub cleanup : Handler → List (List ℕ) × Handler
cleanup h = (job_buffers h.jobs, record h { jobs = [] })

-- The copy that a call makes of `size` bytes: nothing is allocated for none; `none` means that
-- `malloc` failed.
abbrev pub copy_bytes : Option (List ℕ) → ℕ → Bool → Option (Option (List ℕ))
copy_bytes from zero ok = some none
copy_bytes none (suc n) ok = none
copy_bytes (some bytes) (suc n) ok = if ok then some (some (take (suc n) bytes)) else none

-- The test `!data && size > 0` at the start of two calls.
abbrev pub missing : Option (List ℕ) → ℕ → Bool
missing none size = ltb 0 size
missing (some bytes) size = false

abbrev pub new_job : ℕ → ℤ → ℤ → Option (List ℕ) → ℕ → ℕ → Job
new_job id client_socket job_type data_copy input_size now = record {
  job_id = id;
  client_socket = client_socket;
  worker_socket = no_socket;
  job_type = job_type;
  input_data = data_copy;
  input_size = input_size;
  result_data = none;
  result_size = 0;
  status = pending;
  submit_time = now;
  start_time = 0;
  end_time = 0;
  retry_count = 0;
}

-- `job_handler_submit`: the job's number, or `none` for -1.
unfoldable pub submit : ℤ → ℤ → Option (List ℕ) → ℕ → Bool → ℕ → Handler → Option ℕ × Handler
submit client_socket job_type input_data input_size ok now h =
    if missing input_data input_size then (none, h) else elim (find_free_job_slot h.jobs) [
      | none ↦ (none, h)
      | some slot ↦ elim (copy_bytes input_data input_size ok) [
        | none ↦ (none, h)
        | some data_copy ↦ (
          some h.next_job_id,
          record h {
            jobs =
                set h.jobs slot
                  (new_job h.next_job_id client_socket job_type data_copy input_size now);
            next_job_id = h.next_job_id + 1;
            stats = record h.stats { pending_jobs = inc h.stats.pending_jobs };
          },
        )
      ]
    ]

-- The test `g_jobs[i].job_id > 0 && g_jobs[i].status == JOB_STATUS_PENDING`
abbrev pub is_pending : Job → Bool
is_pending j = ltb 0 j.job_id && same_status j.status pending

abbrev pub is_older : Job → Option (ℕ × Job) → Bool
is_older j none = true
is_older j (some (k, best)) = ltb j.submit_time best.submit_time

-- The loop of `job_handler_assign` at index `i`, with the oldest pending job so far.
unfoldable pub oldest_loop : ℕ → Option (ℕ × Job) → List Job → Option (ℕ × Job)
oldest_loop i best [] = best
oldest_loop i best (j ∷ js) =
    oldest_loop (suc i) (if is_pending j && is_older j best then some (i, j) else best) js

abbrev pub taken : Job → ℤ → ℕ → Job
taken j worker_socket now = record j {
  worker_socket = worker_socket;
  status = assigned;
  start_time = now;
}

abbrev pub assign_message : ℤ → Job → Sent
assign_message worker_socket j = record {
  socket = worker_socket;
  message = job_assigned j.job_id j.job_type j.input_data j.input_size;
}

-- The first critical section of `job_handler_assign`, lines 173 to 215; `none` if no job is pending.
unfoldable pub assign_begin : ℤ → ℕ → Handler → Option (ℕ × Sent × Handler)
assign_begin worker_socket now h = elim (oldest_loop 0 none h.jobs) [
  | none ↦ none
  | some (i, j) ↦ some (
    j.job_id,
    assign_message worker_socket j,
    record h {
      jobs = set h.jobs i (taken j worker_socket now);
      stats = record h.stats {
        pending_jobs = dec h.stats.pending_jobs;
        running_jobs = inc h.stats.running_jobs;
      };
    },
  )
]

-- The second one, after a failed `send_message`, lines 222 to 233.
pub assign_rollback : ℤ → Handler → Handler
assign_rollback id h = elim (find_job_by_id h id) [
  | none ↦ h
  | some (i, j) ↦ record h {
    jobs = set h.jobs i (record j { worker_socket = no_socket; status = pending; start_time = 0 });
    stats = record h.stats {
      pending_jobs = inc h.stats.pending_jobs;
      running_jobs = dec h.stats.running_jobs;
    };
  }
]

-- `job_handler_assign` when no other thread runs between its critical sections; `sent` says whether
-- `send_message` succeeds.
unfoldable pub assign : ℤ → Bool → ℕ → Handler → Option ℕ × List Sent × Handler
unfolding assign_begin assign_rollback
assign worker_socket sent now h = elim (assign_begin worker_socket now h) [
  | none ↦ (none, [], h)
  | some (id, message, h') ↦
      if sent
      then (some id, message ∷ [], h')
      else (none, message ∷ [], assign_rollback (pos id) h')
]

abbrev pub is_assigned : Job → Bool
is_assigned j = same_status j.status assigned

-- `job_handler_complete`: whether it returns 0, the notice to the client, and the new state.
pub complete : ℤ → Option (List ℕ) → ℕ → Bool → ℕ → Handler → Bool × List Sent × Handler
complete id result_data result_size ok now h =
    if missing result_data result_size then (false, [], h) else elim (find_job_by_id h id) [
      | none ↦ (false, [], h)
      | some (i, j) ↦
          if is_assigned j
          then elim (copy_bytes result_data result_size ok) [
            | none ↦ (false, [], h)
            | some data_copy ↦ (
              true,
              record { socket = j.client_socket; message = job_completed j.job_id } ∷ [],
              record h {
                jobs = set h.jobs i (record j {
                  result_data = data_copy;
                  result_size = result_size;
                  status = completed;
                  end_time = now;
                });
                stats = record h.stats {
                  running_jobs = dec h.stats.running_jobs;
                  completed_jobs = inc h.stats.completed_jobs;
                };
              },
            )
          ]
          else (false, [], h)
    ]

-- What a failed or late attempt does to a job: back in the queue, or over with status `s`.
abbrev pub retried : Job → Job
retried j = record j {
  status = pending;
  worker_socket = no_socket;
  start_time = 0;
  end_time = 0;
  retry_count = suc j.retry_count;
}

abbrev pub given_up : JobStatus → ℕ → Job → Job
given_up s now j = record j { status = s; end_time = now; retry_count = suc j.retry_count }

abbrev pub count_retry : Stats → Stats
count_retry s = record s { running_jobs = dec s.running_jobs; pending_jobs = inc s.pending_jobs }

abbrev pub count_failure : Stats → Stats
count_failure s = record s { running_jobs = dec s.running_jobs; failed_jobs = inc s.failed_jobs }

-- `job_handler_get_stats`, with its four pointers given.
unfoldable pub get_stats : Handler → ℤ × ℤ × ℤ × ℤ
get_stats h =
    (h.stats.pending_jobs, h.stats.running_jobs, h.stats.completed_jobs, h.stats.failed_jobs)

-- `job_handler_get_status`; `none` is -1.
pub get_status : ℤ → Handler → Option JobStatus
get_status id h = elim (find_job_by_id h id) [ none ↦ none | some (i, j) ↦ some j.status ]

-- `job_handler_get_result` with two valid pointers: the data and its size, or `none` for -1.
pub get_result : ℤ → Bool → Handler → Option (Option (List ℕ) × ℕ)
get_result id ok h = elim (find_job_by_id h id) [
  | none ↦ none
  | some (i, j) ↦
      if same_status j.status completed
      then elim (copy_bytes j.result_data j.result_size ok) [
        | none ↦ none
        | some data_copy ↦ some (data_copy, j.result_size)
      ]
      else none
]

-- `elapsed_ms > g_job_timeout_seconds * 1000`
abbrev pub is_late : ℕ → ℕ → ℤ → Bool
is_late now start_time (pos t) = ltb (start_time + t * 1000) now
is_late now start_time (negsuc t) = ltb start_time (now + suc t * 1000)

-- The test of the loop of `job_handler_check_timeouts`
abbrev pub has_timed_out : ℕ → ℤ → Job → Bool
has_timed_out now limit j = not (j.job_id == 0) && is_assigned j && is_late now j.start_time limit

-- What the loop of `job_handler_check_timeouts` carries.
pub record Sweep : Type 0 where
  pub stats : Stats
  pub sent : List Sent
  pub count : ℕ

module _ (limits : Limits) where
  -- `retry_count < MAX_JOB_RETRIES` after `retry_count++`
  abbrev pub may_retry : Job → Bool
  may_retry j = ltb (suc j.retry_count) limits.max_retries

  -- `job_handler_fail`
  pub fail : ℤ → ℤ → ℕ → Handler → Bool × List Sent × Handler
  fail id error_code now h = elim (find_job_by_id h id) [
    | none ↦ (false, [], h)
    | some (i, j) ↦
        if is_assigned j
        then if may_retry j
          then (true, [], record h { jobs = set h.jobs i (retried j); stats = count_retry h.stats })
          else (
            true,
            record { socket = j.client_socket; message = job_failed j.job_id error_code } ∷ [],
            record h { jobs = set h.jobs i (given_up failed now j); stats = count_failure h.stats },
          )
        else (false, [], h)
  ]

  -- The body of the loop for one job.
  pub sweep_job : ℕ → ℤ → Job → Sweep → Job × Sweep
  sweep_job now limit j s =
      if has_timed_out now limit j
      then if may_retry j
        then (retried j, record s { stats = count_retry s.stats; count = suc s.count })
        else (
          given_up timeout now j,
          record s {
            stats = count_failure s.stats;
            sent =
                s.sent
                ++ record {
                  socket = j.client_socket;
                  message = job_failed j.job_id limits.timeout_error;
                }
                  ∷ [];
            count = suc s.count;
          },
        )
      else (j, s)

  pub sweep : ℕ → ℤ → List Job → Sweep → List Job × Sweep
  sweep now limit [] s = ([], s)
  sweep now limit (j ∷ js) s =
      let (j', s') = sweep_job now limit j s in
      let (js', s'') = sweep now limit js s' in (j' ∷ js', s'')

  -- `job_handler_check_timeouts`: the number of late jobs, the notices, and the new state.
  pub check_timeouts : ℕ → Handler → ℕ × List Sent × Handler
  check_timeouts now h =
      let (jobs', s) =
        sweep now h.timeout_seconds h.jobs (record { stats = h.stats; sent = []; count = 0 }) in
      (s.count, s.sent, record h { jobs = jobs'; stats = s.stats })

-- The calls that change the state, with what the environment answers in each.
pub data Call : Type 0 where
  submits : ℤ → ℤ → Option (List ℕ) → ℕ → Bool → ℕ → Call
  assigns : ℤ → Bool → ℕ → Call
  completes : ℤ → Option (List ℕ) → ℕ → Bool → ℕ → Call
  fails : ℤ → ℤ → ℕ → Call
  checks : ℕ → Call

module _ (limits : Limits) where
  unfoldable pub step : Handler → Call → Handler
  step h (submits client job_type bytes size ok now) =
      (submit client job_type bytes size ok now h).1
  step h (assigns worker sent now) = (assign worker sent now h).2
  step h (completes id bytes size ok now) = (complete id bytes size ok now h).2
  step h (fails id code now) = (fail limits id code now h).2
  step h (checks now) = (check_timeouts limits now h).2

  unfoldable pub run : Handler → List Call → Handler
  run h [] = h
  run h (c ∷ cs) = run (step h c) cs
