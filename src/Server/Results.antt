-- ===== src/Server/Results.antt =====
-- server.c: a worker reports the result of a job, and a client asks for it.
use c_simples.Prelude.{
  ℕ, ℤ, suc, ◌<◌, ◌≡◌, refl, sym, ap, ◌∙◌, Bool, true, false, Option, some, List, [], ◌∷◌, ◌++◌,
  take, All,
}
use c_simples.JobHandler
use c_simples.JobHandler.{
  Handler, Job, JobStatus, Limits, Sent, find_job_by_id, is_assigned, completed, same_status,
  complete, get_result, get_status,
}
use c_simples.JobHandler.Invariant.{IsValid}
use c_simples.JobHandler.Results.{get_result-complete, complete_running, status_of_result}
use c_simples.WorkerManager
use c_simples.WorkerManager.{Manager}
use c_simples.Server.{
  System, ClientMessage, WorkerMessage, get_job_result, job_done, job_result, Answers, Packet,
  ResponseBody, response_to, to_client, handle_client_message, handle_worker_message,
  dispatch_client, dispatch_worker, after_end, after_release,
}
use c_simples.Server.Events.{Event, run}
use c_simples.Server.Consistency.{Reached, start, by_jobs, by_workers, by_flag, run-Reached, Keeps}

run-snoc :
    (limits : Limits) (h : Handler) (cs : List JobHandler.Call) (c : JobHandler.Call)
    → JobHandler.run limits h (cs ++ c ∷ []) ≡ JobHandler.step limits (JobHandler.run limits h cs) c
unfolding JobHandler.run
run-snoc limits h [] c = refl
run-snoc limits h (d ∷ cs) c = run-snoc limits (JobHandler.step limits h d) cs c

-- The job table is reached by a history of calls of the job handler.
Reached-jobs :
    (max_job_types : ℕ) (limits : Limits) {s s' : System}
    → Reached max_job_types limits s s'
    → (cs : List JobHandler.Call) × (s'.jobs ≡ JobHandler.run limits s.jobs cs)
unfolding JobHandler.run
Reached-jobs k limits start = ([], refl)
Reached-jobs k limits {s} (by_jobs c r) =
    let (cs, e) = Reached-jobs k limits r in
    (cs ++ c ∷ [], ap (λ h. JobHandler.step limits h c) e ∙ sym (run-snoc limits s.jobs cs c))
Reached-jobs k limits (by_workers c r) = Reached-jobs k limits r
Reached-jobs k limits (by_flag b r) = Reached-jobs k limits r

module _ (max_job_types : ℕ) (limits : Limits) (a : Answers) (socket : ℤ)
    (msg : WorkerMessage) where
  released-jobs :
      (ack : ResponseBody) (out : List Packet) (s : System) (r : Bool × Manager)
      → (after_release max_job_types limits a socket msg ack out s r).2.jobs ≡ s.jobs
  released-jobs ack out s (false, m) = refl
  released-jobs ack out s (true, m) = refl

  ended-jobs :
      (ack : ResponseBody) (release : Manager → Bool × Manager) (s : System)
      (r : Bool × List Sent × Handler)
      → (after_end max_job_types limits a socket msg ack release s r).2.jobs ≡ r.2
  ended-jobs ack release s (false, sent, h) = refl
  ended-jobs ack release s (true, sent, h) =
      released-jobs ack _ (record s { jobs = h }) (release s.workers)

result_answer :
    (a : Answers) (socket : ℤ) (msg : ClientMessage) (s : System) (id : ℤ) (r : Option (List ℕ) × ℕ)
    → a.allocated ≡ true
    → get_result id true s.jobs ≡ some r
    → dispatch_client a socket msg s (get_job_result id)
      ≡ (a.sent, response_to socket (to_client msg (job_result id r.0 r.1)) ∷ [], s)
result_answer a socket msg s id r ok e =
    let (status, f, c) = status_of_result id true s.jobs r e in rw (f, c, ok, e) refl

-- If the table is valid and a worker reports a result of at least one byte for a job that is assigned,
-- then after any events but the clean-up of `server_stop` a client that asks for the result of that job gets
-- those bytes and their number, if `malloc` succeeds both times. In these events each call of
-- `job_handler_assign` is one step, so that none of them is between its two critical sections when the
-- result is reported. This holds whichever worker reports it, and also if the worker is not known to the
-- server; the request leaves the state as it is.
pub get_job_result-job_done :
    (max_job_types : ℕ) (limits : Limits) (s : System) (a b : Answers) (worker client id ms : ℤ)
    (msg : WorkerMessage) (ask : ClientMessage) (bytes : List ℕ) (n i : ℕ) (j : Job)
    (es : List Event)
    → All Keeps es
    → msg.body ≡ job_done id (some bytes) (suc n) ms
    → ask.body ≡ get_job_result id
    → 0 < limits.max_retries
    → IsValid limits s.jobs
    → find_job_by_id s.jobs id ≡ some (i, j)
    → is_assigned j ≡ true
    → a.allocated ≡ true
    → b.allocated ≡ true
    → let s' =
        run max_job_types limits (handle_worker_message max_job_types limits a worker msg s).2 es in
      handle_client_message b client ask s' ≡ (
        b.sent,
        response_to client (to_client ask (job_result id (some (take (suc n) bytes)) (suc n))) ∷ [],
        s',
      )
unfolding handle_client_message handle_worker_message
get_job_result-job_done k limits s a b worker client id ms msg ask bytes n i j es keeps mb ab p v f
      r am bm =
    let s1 = (handle_worker_message k limits a worker msg s).2 in
    let s' = run k limits s1 es in
    let (cs, e) = Reached-jobs k limits (run-Reached k limits s1 es keeps) in
    let h : s1.jobs ≡ (complete id (some bytes) (suc n) true a.now s.jobs).2 =
      ap (λ body. (dispatch_worker k limits a worker msg s body).2.jobs) mb
      ∙ ended-jobs k limits a worker msg _ (WorkerManager.complete_job msg.worker_id ms) s _
      ∙ ap (λ ok. (complete id (some bytes) (suc n) ok a.now s.jobs).2) am in
    let done = complete_running id bytes n a.now i j s.jobs f r in
    let got : get_result id true s'.jobs ≡ some (some (take (suc n) bytes), suc n) =
      rw (e, h) (get_result-complete limits s.jobs id bytes n a.now cs p v done) in
    ap (dispatch_client b client ask s') ab ∙ result_answer b client ask s' id _ bm got
