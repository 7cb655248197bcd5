-- ===== src/Server/Replies.antt =====
-- server.c: the response to a message of a client.
use Prim.Native.String.{String}
use c_simples.Prelude.{
  ℕ, ℤ, pos, ◌≡◌, refl, inl, inr, Bool, true, false, if◌then◌else◌, Bool-cases, Option, none, some,
  List, [], ◌∷◌,
}
use c_simples.JobHandler
use c_simples.JobHandler.{Handler, JobStatus, same_status, completed}
use c_simples.Server.{
  System, ClientMessage, ClientBody, submit_job, get_job_status, get_job_result, unknown_to_client,
  Answers, job_submitted, job_status, job_result, Response, ResponseBody, Outcome, error,
  response_to, handle_client_message, dispatch_client, respond, send_error_response, to_client,
  ErrorCode, after_submit, after_status, after_result, if_completed,
}

abbrev pub is_error : ResponseBody → Bool
is_error (error code text) = true
is_error _ = false

abbrev pub is_submission : ClientBody → Bool
is_submission (submit_job job_type input_data size) = true
is_submission _ = false

-- One response, to the same socket and with the ids of the message unless it is an error.
pub record Replies (a : Answers) (socket : ℤ) (msg : ClientMessage) (o : Outcome) : Type 0 where
  pub response : Response
  pub only : o.1 ≡ response_to socket response ∷ []
  pub returned : o.0 ≡ a.sent
  pub answers_id : response.message_id ≡ (if is_error response.body then pos 0 else msg.message_id)
  pub answers_peer : response.peer_id ≡ (if is_error response.body then pos 0 else msg.client_id)

module _ (a : Answers) (socket : ℤ) (msg : ClientMessage) where
  answers :
      (body : ResponseBody) (s : System)
      → is_error body ≡ false
      → Replies a socket msg (respond a.sent socket (to_client msg body) s)
  answers body s e = record {
    response = to_client msg body;
    only = refl;
    returned = refl;
    answers_id = rw e refl;
    answers_peer = rw e refl;
  }

  refuses :
      (code : ErrorCode) (text : String) (s : System)
      → Replies a socket msg (send_error_response a.sent socket code text s)
  refuses code text s = record {
    response = _;
    only = refl;
    returned = refl;
    answers_id = refl;
    answers_peer = refl;
  }

  submitted-Replies :
      (s : System) (r : Option ℕ × Handler) → Replies a socket msg (after_submit a socket msg s r)
  submitted-Replies s (none, h) = refuses _ _ (record s { jobs = h })
  submitted-Replies s (some id, h) = answers (job_submitted id) (record s { jobs = h }) refl

  -- A query answers and leaves the state.
  abbrev Asks : System → Outcome → Type 0
  Asks s o = Replies a socket msg o × (o.2 ≡ s)

  status-Asks :
      (s : System) (id : ℤ) (r : Option JobStatus) → Asks s (after_status a socket msg s id r)
  status-Asks s id none = (refuses _ _ s, refl)
  status-Asks s id (some status) = (answers (job_status id status) s refl, refl)

  result-Asks :
      (s : System) (id : ℤ) (r : Option (Option (List ℕ) × ℕ))
      → Asks s (after_result a socket msg s id r)
  result-Asks s id none = (refuses _ _ s, refl)
  result-Asks s id (some (result_data, size)) =
      (answers (job_result id result_data size) s refl, refl)

  completed-Asks :
      (s : System) (id : ℤ) (r : Option JobStatus) → Asks s (if_completed a socket msg s id r)
  completed-Asks s id none = (refuses _ _ s, refl)
  completed-Asks s id (some status) = elim (Bool-cases (same_status status completed)) [
    | inl e ↦ rw e (result-Asks s id (JobHandler.get_result id a.allocated s.jobs))
    | inr e ↦ rw e (refuses _ _ s, refl)
  ]

  dispatch-Replies :
      (s : System) (body : ClientBody)
      → Replies a socket msg (dispatch_client a socket msg s body)
        × (is_submission body ≡ false → (dispatch_client a socket msg s body).2 ≡ s)
  dispatch-Replies s (submit_job job_type input_data size) = (
    submitted-Replies s
        (JobHandler.submit socket job_type input_data size a.allocated a.now s.jobs),
    λ e. cc,
  )
  dispatch-Replies s (get_job_status id) =
      let (r, e) = status-Asks s id (JobHandler.get_status id s.jobs) in (r, λ _. e)
  dispatch-Replies s (get_job_result id) =
      let (r, e) = completed-Asks s id (JobHandler.get_status id s.jobs) in (r, λ _. e)
  dispatch-Replies s unknown_to_client = (refuses _ _ s, λ _. refl)

  -- `server_handle_client_message` sends exactly one response, to the socket of the message, and returns
  -- 0 exactly if it is sent. An error has the message and client ids 0, and every other response those
  -- of the message. A message that is not a submission leaves the state as it is.
  pub handle_client_message-Replies :
      (s : System)
      → Replies a socket msg (handle_client_message a socket msg s)
        × (is_submission msg.body ≡ false → (handle_client_message a socket msg s).2 ≡ s)
  unfolding handle_client_message
  handle_client_message-Replies s = dispatch-Replies s msg.body
