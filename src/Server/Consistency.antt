-- ===== src/Server/Consistency.antt =====
-- server.c: the messages of the server as calls of the job handler and of the worker manager.
use c_simples.Prelude.{
  ℕ, ℤ, pos, negsuc, ◌<◌, ◌≡◌, refl, inl, inr, Bool, true, false, Bool-cases, Option, none, some,
  List, [], ◌∷◌, All,
}
use c_simples.JobHandler
use c_simples.JobHandler.{Handler, JobStatus, Sent, Limits, same_status, completed}
use c_simples.JobHandler.Emptied.{step-empty as jobs-empty}
use c_simples.WorkerManager.Emptied.{step-empty as workers-empty}
use c_simples.JobHandler.Invariant.{IsValid}
use c_simples.JobHandler.Calls.{step-IsValid}
use c_simples.WorkerManager
use c_simples.WorkerManager.{Manager}
use c_simples.WorkerManager.Invariant.{IsSound, step-IsSound}
use c_simples.Server.{
  System, ClientMessage, WorkerMessage, ClientBody, WorkerBody, submit_job, get_job_status,
  get_job_result, unknown_to_client, worker_register, worker_heartbeat, request_job, job_done,
  job_lost, worker_disconnect, unknown_to_worker, Answers, ResponseBody, Packet,
  handle_client_message, handle_worker_message, dispatch_client, dispatch_worker, after_submit,
  after_status, after_result, if_completed, after_register, acknowledge, after_assign, after_idle,
  after_release, after_end,
}
use c_simples.Server.Events.{
  Event, client_sends, worker_sends, worker_leaves, main_checks, clears_running, cleans_up,
  is_clean_up, clean_up, step, run, forget_worker, unregister_found, check_all,
}

-- `s'` is reached from `s` by calls of the two modules, and by writes of `is_running`.
pub data Reached (max_job_types : ℕ) (limits : Limits) (s : System) : System → Type 0 where
  start : Reached max_job_types limits s s
  by_jobs :
      {s' : System} (c : JobHandler.Call)
      → Reached max_job_types limits s s'
      → Reached max_job_types limits s (record s' { jobs = JobHandler.step limits s'.jobs c })
  by_workers :
      {s' : System} (c : WorkerManager.Call)
      → Reached max_job_types limits s s'
      → Reached max_job_types limits s
          (record s' { workers = WorkerManager.step max_job_types s'.workers c })
  by_flag :
      {s' : System} (b : Bool)
      → Reached max_job_types limits s s'
      → Reached max_job_types limits s (record s' { is_running = b })

-- The event is not the end of `server_stop`.
abbrev pub Keeps : Event → Type 0
Keeps e = is_clean_up e ≡ false

module _ (max_job_types : ℕ) (limits : Limits) where
  -- The calls, in order, on each of the two modules.
  pub Reached-trans :
      {s s' s'' : System}
      → Reached max_job_types limits s s'
      → Reached max_job_types limits s' s''
      → Reached max_job_types limits s s''
  Reached-trans r start = r
  Reached-trans r (by_jobs c q) = by_jobs c (Reached-trans r q)
  Reached-trans r (by_workers c q) = by_workers c (Reached-trans r q)
  Reached-trans r (by_flag b q) = by_flag b (Reached-trans r q)

  abbrev To : System → System → Type 0
  To s s' = Reached max_job_types limits s s'

  -- A case of a switch ends in the state that the last call left.
  module _ (a : Answers) (socket : ℤ) (msg : ClientMessage) where
    submitted-To :
        (s : System) (r : Option ℕ × Handler)
        → To s (record s { jobs = r.1 })
        → To s (after_submit a socket msg s r).2
    submitted-To s (none, h) t = t
    submitted-To s (some id, h) t = t

    status-To :
        (s : System) (id : ℤ) (r : Option JobStatus) → To s (after_status a socket msg s id r).2
    status-To s id none = start
    status-To s id (some status) = start

    result-To :
        (s : System) (id : ℤ) (r : Option (Option (List ℕ) × ℕ))
        → To s (after_result a socket msg s id r).2
    result-To s id none = start
    result-To s id (some (result_data, size)) = start

    completed-To :
        (s : System) (id : ℤ) (r : Option JobStatus) → To s (if_completed a socket msg s id r).2
    completed-To s id none = start
    completed-To s id (some status) = elim (Bool-cases (same_status status completed)) [
      | inl e ↦ rw e (result-To s id (JobHandler.get_result id a.allocated s.jobs))
      | inr e ↦ rw e start
    ]

    client-To : (s : System) (body : ClientBody) → To s (dispatch_client a socket msg s body).2
    unfolding JobHandler.step
    client-To s (submit_job job_type input_data size) =
        submitted-To s (JobHandler.submit socket job_type input_data size a.allocated a.now s.jobs)
          (by_jobs (JobHandler.submits socket job_type input_data size a.allocated a.now) start)
    client-To s (get_job_status id) = status-To s id (JobHandler.get_status id s.jobs)
    client-To s (get_job_result id) = completed-To s id (JobHandler.get_status id s.jobs)
    client-To s unknown_to_client = start

  module _ (a : Answers) (socket : ℤ) (msg : WorkerMessage) where
    registered-To :
        (s : System) (r : Option ℕ × Manager)
        → To s (record s { workers = r.1 })
        → To s (after_register max_job_types limits a socket msg s r).2
    registered-To s (none, m) t = t
    registered-To s (some id, m) t = t

    acknowledged-To :
        (ack : ResponseBody) (s : System) (r : Bool × Manager)
        → To s (record s { workers = r.1 })
        → To s (acknowledge max_job_types limits a socket msg ack s r).2
    acknowledged-To ack s (false, m) t = t
    acknowledged-To ack s (true, m) t = t

    released-To :
        (ack : ResponseBody) (out : List Packet) (s0 s : System) (r : Bool × Manager)
        → To s0 (record s { workers = r.1 })
        → To s0 (after_release max_job_types limits a socket msg ack out s r).2
    released-To ack out s0 s (false, m) t = t
    released-To ack out s0 s (true, m) t = t

    ended-To :
        (ack : ResponseBody) (release : Manager → Bool × Manager) (c : WorkerManager.Call)
        (s : System) (r : Bool × List Sent × Handler)
        → ((m : Manager) → (release m).1 ≡ WorkerManager.step max_job_types m c)
        → To s (record s { jobs = r.2 })
        → To s (after_end max_job_types limits a socket msg ack release s r).2
    ended-To ack release c s (false, sent, h) e t = t
    ended-To ack release c s (true, sent, h) e t =
        released-To ack _ s (record s { jobs = h }) (release s.workers)
          (rw (e s.workers) (by_workers c t))

    assigned-To :
        (s0 s : System) (r : Option ℕ × List Sent × Handler)
        → To s0 (record s { jobs = r.2 })
        → To s0 (after_assign max_job_types limits a socket msg s r).2
    unfolding WorkerManager.step
    assigned-To s0 s (none, sent, h) t = t
    assigned-To s0 s (some id, sent, h) t =
        by_workers (WorkerManager.assigns_job msg.worker_id (pos id)) t

    idle-To :
        (s : System) (r : Bool × Manager)
        → To s (record s { workers = r.1 })
        → To s (after_idle max_job_types limits a socket msg s r).2
    unfolding JobHandler.step
    idle-To s (false, m) t = t
    idle-To s (true, m) t =
        assigned-To s (record s { workers = m }) (JobHandler.assign socket a.delivered a.now s.jobs)
          (by_jobs (JobHandler.assigns socket a.delivered a.now) t)

    worker-To :
        (s : System) (body : WorkerBody)
        → To s (dispatch_worker max_job_types limits a socket msg s body).2
    unfolding JobHandler.step WorkerManager.step
    worker-To s (worker_register ip port types n) =
        registered-To s
          (WorkerManager.register max_job_types socket ip port types n a.now s.workers)
          (by_workers (WorkerManager.registers socket ip port types n a.now) start)
    worker-To s worker_heartbeat =
        acknowledged-To _ s (WorkerManager.update_heartbeat msg.worker_id a.now s.workers)
          (by_workers (WorkerManager.updates_heartbeat msg.worker_id a.now) start)
    worker-To s request_job =
        idle-To s (WorkerManager.update_status msg.worker_id WorkerManager.worker_idle s.workers)
          (by_workers (WorkerManager.updates_status msg.worker_id WorkerManager.worker_idle) start)
    worker-To s (job_done id result_data size ms) =
        ended-To _ (WorkerManager.complete_job msg.worker_id ms)
          (WorkerManager.completes_job msg.worker_id ms) s
          (JobHandler.complete id result_data size a.allocated a.now s.jobs) (λ m. refl)
          (by_jobs (JobHandler.completes id result_data size a.allocated a.now) start)
    worker-To s (job_lost id code) =
        ended-To _ (WorkerManager.fail_job msg.worker_id) (WorkerManager.fails_job msg.worker_id) s
          (JobHandler.fail limits id code a.now s.jobs) (λ m. refl)
          (by_jobs (JobHandler.fails id code a.now) start)
    worker-To s worker_disconnect =
        acknowledged-To _ s (WorkerManager.unregister max_job_types msg.worker_id s.workers)
          (by_workers (WorkerManager.unregisters msg.worker_id) start)
    worker-To s unknown_to_worker = start

  forget_worker-Reached :
      (socket : ℤ) (s : System) → To s (forget_worker max_job_types limits socket s)
  unfolding forget_worker WorkerManager.step
  forget_worker-Reached socket s = found (WorkerManager.find_by_socket socket s.workers)
    where
      found :
          (id : ℤ)
          → To s (record s { workers = unregister_found max_job_types limits id s.workers })
      found (negsuc n) = start
      found (pos n) = by_workers (WorkerManager.unregisters (pos n)) start

  pub step-Reached : (s : System) (e : Event) → Keeps e → To s (step max_job_types limits s e)
  unfolding step handle_client_message handle_worker_message check_all JobHandler.step
      WorkerManager.step
  step-Reached s (client_sends a socket msg) k = client-To a socket msg s msg.body
  step-Reached s (worker_sends a socket msg) k = worker-To a socket msg s msg.body
  step-Reached s (worker_leaves socket) k = forget_worker-Reached socket s
  step-Reached s (main_checks now later) k =
      by_workers (WorkerManager.checks_inactive (pos 60) later)
        (by_jobs (JobHandler.checks now) start)
  step-Reached s clears_running k = by_flag false start
  step-Reached s cleans_up k = cc

  pub run-Reached :
      (s : System) (es : List Event) → All Keeps es → To s (run max_job_types limits s es)
  unfolding run
  run-Reached s [] k = start
  run-Reached s (e ∷ es) k =
      Reached-trans (step-Reached s e k.0) (run-Reached (step max_job_types limits s e) es k.1)

  -- The invariants of the two modules.
  pub record IsConsistent (s : System) : Type 0 where
    pub jobs_valid : IsValid limits s.jobs
    pub workers_sound : IsSound s.workers

  pub Reached-IsConsistent :
      {s s' : System} → 0 < limits.max_retries → To s s' → IsConsistent s → IsConsistent s'
  Reached-IsConsistent p start v = v
  Reached-IsConsistent p (by_jobs {s'} c r) v =
      let v' = Reached-IsConsistent p r v in
      record {
        jobs_valid = step-IsValid limits p s'.jobs c v'.jobs_valid;
        workers_sound = v'.workers_sound;
      }
  Reached-IsConsistent p (by_workers {s'} c r) v =
      let v' = Reached-IsConsistent p r v in
      record {
        jobs_valid = v'.jobs_valid;
        workers_sound = step-IsSound max_job_types c s'.workers v'.workers_sound;
      }
  Reached-IsConsistent p (by_flag {s'} b r) v =
      let v' = Reached-IsConsistent p r v in
      record { jobs_valid = v'.jobs_valid; workers_sound = v'.workers_sound }

  -- Both tables are empty.
  abbrev pub IsEmpty : System → Type 0
  IsEmpty s = (s.jobs.jobs ≡ []) × (s.workers.workers ≡ [])

  Reached-IsEmpty : {s s' : System} → To s s' → IsEmpty s → IsEmpty s'
  Reached-IsEmpty start e = e
  Reached-IsEmpty (by_jobs {s'} c r) e =
      let (js, ws) = Reached-IsEmpty r e in (jobs-empty limits s'.jobs c js, ws)
  Reached-IsEmpty (by_workers {s'} c r) e =
      let (js, ws) = Reached-IsEmpty r e in (js, workers-empty max_job_types s'.workers c ws)
  Reached-IsEmpty (by_flag {s'} b r) e = Reached-IsEmpty r e

  step-IsEmpty : (s : System) (e : Event) → IsEmpty s → IsEmpty (step max_job_types limits s e)
  unfolding step JobHandler.cleanup WorkerManager.cleanup
  step-IsEmpty s cleans_up i = (refl, refl)
  step-IsEmpty s (client_sends a socket msg) i =
      Reached-IsEmpty (step-Reached s (client_sends a socket msg) refl) i
  step-IsEmpty s (worker_sends a socket msg) i =
      Reached-IsEmpty (step-Reached s (worker_sends a socket msg) refl) i
  step-IsEmpty s (worker_leaves socket) i =
      Reached-IsEmpty (step-Reached s (worker_leaves socket) refl) i
  step-IsEmpty s (main_checks now later) i =
      Reached-IsEmpty (step-Reached s (main_checks now later) refl) i
  step-IsEmpty s clears_running i = i

  run-IsEmpty : (s : System) (es : List Event) → IsEmpty s → IsEmpty (run max_job_types limits s es)
  unfolding run
  run-IsEmpty s [] i = i
  run-IsEmpty s (e ∷ es) i = run-IsEmpty (step max_job_types limits s e) es (step-IsEmpty s e i)

  cleaned-IsEmpty :
      (s : System) (es : List Event) → IsEmpty (run max_job_types limits s (cleans_up ∷ es))
  unfolding run step JobHandler.cleanup WorkerManager.cleanup
  cleaned-IsEmpty s es = run-IsEmpty (clean_up s) es (refl, refl)

  -- From a state in which the job table is valid and the worker numbers are distinct, below the next
  -- number and counted by the total, every sequence of messages from clients and workers, of workers
  -- that disconnect, of checks of the main loop and of stops up to the clean-up of the tables, with any
  -- answers of the environment, leads to such a state, if `MAX_JOB_RETRIES` is positive. Once `server_stop`
  -- has cleaned up, both tables are empty, and no later event puts a job or a worker into them.
  pub run-IsConsistent :
      (s : System) (es later : List Event)
      → 0 < limits.max_retries
      → IsConsistent s
      → All Keeps es
      → let s' = run max_job_types limits s es in
        IsConsistent s' × IsEmpty (run max_job_types limits s' (cleans_up ∷ later))
  run-IsConsistent s es later p v k = (
    Reached-IsConsistent p (run-Reached s es k) v,
    cleaned-IsEmpty (run max_job_types limits s es) later,
  )
