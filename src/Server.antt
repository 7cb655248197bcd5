-- ===== src/Server.antt =====
-- distributed_worker_system/server/server.c and server.h: the messages of clients and workers, handled
-- over the job handler and the worker manager. A handler is modelled as one step: no other thread runs
-- between its calls of the two modules. The ids of the errors and messages are constructors, since the
-- repository defines only some of the constants.
mod State
pub use State.*
pub mod Events
pub mod Consistency
pub mod Replies
pub mod JobRequests
pub mod Results
pub mod Lifetime
pub mod Sessions
pub mod Accept
mod Tests
use Prim.Native.String.{String}
use c_simples.Prelude.{
  ℕ, ℤ, pos, negsuc, Bool, true, false, if◌then◌else◌, Option, none, some, List, [], ◌∷◌, ◌++◌,
}
use c_simples.JobHandler
use c_simples.JobHandler.{Handler, JobStatus, completed, same_status, Sent, Limits}
use c_simples.WorkerManager
use c_simples.WorkerManager.{Manager, worker_idle}

abbrev pub job_messages : List Sent → List Packet
job_messages [] = []
job_messages (m ∷ ms) = job_message m ∷ job_messages ms

-- A `send_message` at the end of a handler: -1 if it fails.
abbrev pub respond : Bool → ℤ → Response → System → Outcome
respond sent socket r s = (sent, response_to socket r ∷ [], s)

-- The response of `send_error_response`, whose header is cleared.
abbrev pub error_response : ErrorCode → String → Response
error_response code text = record { message_id = pos 0; peer_id = pos 0; body = error code text }

-- `send_error_response`
abbrev pub send_error_response : Bool → ℤ → ErrorCode → String → System → Outcome
send_error_response sent socket code text s = respond sent socket (error_response code text) s

-- The response to a message of a client, with the ids of the message.
abbrev pub to_client : ClientMessage → ResponseBody → Response
to_client msg body = record { message_id = msg.message_id; peer_id = msg.client_id; body = body }

module _ (a : Answers) (socket : ℤ) (msg : ClientMessage) where
  -- The case `MSG_TYPE_SUBMIT_JOB`, after `job_handler_submit`.
  abbrev pub after_submit : System → Option ℕ × Handler → Outcome
  after_submit s (none, h) =
      send_error_response a.sent socket job_submission_failed "Failed to submit job"
        (record s { jobs = h })
  after_submit s (some id, h) =
      respond a.sent socket (to_client msg (job_submitted id)) (record s { jobs = h })

  -- The case `MSG_TYPE_GET_JOB_STATUS`, after `job_handler_get_status`.
  abbrev pub after_status : System → ℤ → Option JobStatus → Outcome
  after_status s id none = send_error_response a.sent socket job_not_found "Job not found" s
  after_status s id (some status) = respond a.sent socket (to_client msg (job_status id status)) s

  -- The case `MSG_TYPE_GET_JOB_RESULT`, after `job_handler_get_result`.
  abbrev pub after_result : System → ℤ → Option (Option (List ℕ) × ℕ) → Outcome
  after_result s id none =
      send_error_response a.sent socket internal_error "Failed to get job result" s
  after_result s id (some (result_data, size)) =
      respond a.sent socket (to_client msg (job_result id result_data size)) s

  -- The same case, after `job_handler_get_status`.
  abbrev pub if_completed : System → ℤ → Option JobStatus → Outcome
  if_completed s id none = send_error_response a.sent socket job_not_found "Job not found" s
  if_completed s id (some status) =
      if same_status status completed
      then after_result s id (JobHandler.get_result id a.allocated s.jobs)
      else send_error_response a.sent socket job_not_completed "Job is not completed" s

  -- The switch of `server_handle_client_message`.
  abbrev pub dispatch_client : System → ClientBody → Outcome
  dispatch_client s (submit_job job_type input_data size) =
      after_submit s (JobHandler.submit socket job_type input_data size a.allocated a.now s.jobs)
  dispatch_client s (get_job_status id) = after_status s id (JobHandler.get_status id s.jobs)
  dispatch_client s (get_job_result id) = if_completed s id (JobHandler.get_status id s.jobs)
  dispatch_client s unknown_to_client =
      send_error_response a.sent socket invalid_message "Invalid message type" s

-- `server_handle_client_message`
unfoldable pub handle_client_message : Answers → ℤ → ClientMessage → System → Outcome
handle_client_message a socket msg s = dispatch_client a socket msg s msg.body

-- The response to a message of a worker, with the ids of the message.
abbrev pub to_worker : WorkerMessage → ResponseBody → Response
to_worker msg body = record { message_id = msg.message_id; peer_id = msg.worker_id; body = body }

-- `MAX_JOB_TYPES`, and the parameters of the job handler.
module _ (max_job_types : ℕ) (limits : Limits) (a : Answers) (socket : ℤ)
    (msg : WorkerMessage) where
  abbrev pub unknown_worker : System → Outcome
  unknown_worker s = send_error_response a.sent socket worker_not_found "Worker not found" s

  -- The case `MSG_TYPE_WORKER_REGISTER`, after `worker_manager_register`.
  abbrev pub after_register : System → Option ℕ × Manager → Outcome
  after_register s (none, m) =
      send_error_response a.sent socket worker_registration_failed "Failed to register worker"
        (record s { workers = m })
  after_register s (some id, m) =
      respond a.sent socket (to_worker msg (worker_registered id)) (record s { workers = m })

  -- The cases `MSG_TYPE_WORKER_HEARTBEAT` and `MSG_TYPE_WORKER_DISCONNECT`, after their call of the
  -- worker manager.
  abbrev pub acknowledge : ResponseBody → System → Bool × Manager → Outcome
  acknowledge ack s (false, m) = unknown_worker (record s { workers = m })
  acknowledge ack s (true, m) = respond a.sent socket (to_worker msg ack) (record s { workers = m })

  -- The case `MSG_TYPE_REQUEST_JOB`, after `worker_manager_assign_job`: there is no response.
  abbrev pub after_assign_job : List Packet → System → Bool × Manager → Outcome
  after_assign_job out s (done, m) = (done, out, record s { workers = m })

  -- The same case, after `job_handler_assign`.
  abbrev pub after_assign : System → Option ℕ × List Sent × Handler → Outcome
  after_assign s (none, sent, h) = (
    a.sent,
    job_messages sent ++ response_to socket (to_worker msg no_job_available) ∷ [],
    record s { jobs = h },
  )
  after_assign s (some id, sent, h) =
      after_assign_job (job_messages sent) (record s { jobs = h })
        (WorkerManager.assign_job msg.worker_id (pos id) s.workers)

  -- The same case, after `worker_manager_update_status`.
  abbrev pub after_idle : System → Bool × Manager → Outcome
  after_idle s (false, m) = unknown_worker (record s { workers = m })
  after_idle s (true, m) =
      after_assign (record s { workers = m }) (JobHandler.assign socket a.delivered a.now s.jobs)

  -- The cases of a job that has ended, after the worker manager's call: no response on -1.
  abbrev pub after_release : ResponseBody → List Packet → System → Bool × Manager → Outcome
  after_release ack out s (false, m) = (false, out, record s { workers = m })
  after_release ack out s (true, m) =
      (a.sent, out ++ response_to socket (to_worker msg ack) ∷ [], record s { workers = m })

  -- The same cases, after the job handler's call; `release` is the worker manager's.
  abbrev pub after_end :
      ResponseBody → (Manager → Bool × Manager) → System → Bool × List Sent × Handler → Outcome
  after_end ack release s (false, sent, h) = (
    a.sent,
    job_messages sent ++ response_to socket (error_response job_not_found "Job not found") ∷ [],
    record s { jobs = h },
  )
  after_end ack release s (true, sent, h) =
      after_release ack (job_messages sent) (record s { jobs = h }) (release s.workers)

  -- The switch of `server_handle_worker_message`.
  abbrev pub dispatch_worker : System → WorkerBody → Outcome
  dispatch_worker s (worker_register ip port types n) =
      after_register s (WorkerManager.register max_job_types socket ip port types n a.now s.workers)
  dispatch_worker s worker_heartbeat =
      acknowledge worker_heartbeat_ack s
        (WorkerManager.update_heartbeat msg.worker_id a.now s.workers)
  dispatch_worker s request_job =
      after_idle s (WorkerManager.update_status msg.worker_id worker_idle s.workers)
  dispatch_worker s (job_done id result_data size ms) =
      after_end (job_completion_ack id) (WorkerManager.complete_job msg.worker_id ms) s
        (JobHandler.complete id result_data size a.allocated a.now s.jobs)
  dispatch_worker s (job_lost id code) =
      after_end (job_failure_ack id) (WorkerManager.fail_job msg.worker_id) s
        (JobHandler.fail limits id code a.now s.jobs)
  dispatch_worker s worker_disconnect =
      acknowledge worker_disconnect_ack s
        (WorkerManager.unregister max_job_types msg.worker_id s.workers)
  dispatch_worker s unknown_to_worker =
      send_error_response a.sent socket invalid_message "Invalid message type" s

-- `server_handle_worker_message`
unfoldable pub handle_worker_message : ℕ → Limits → Answers → ℤ → WorkerMessage → System → Outcome
handle_worker_message max_job_types limits a socket msg s =
    dispatch_worker max_job_types limits a socket msg s msg.body
