-- ===== src/Server/JobRequests.antt =====
-- server.c: a worker that asks for a job.
use c_simples.Prelude.{
  ℕ, ℤ, pos, negsuc, zero, suc, ◌<◌, ◌≡◌, refl, sym, ap, ◌∙◌, inl, inr, ◌⊎◌, Bool, true, false,
  Bool-cases, Option-cases, Option, none, some, List, [], ◌∷◌, set, ltb, ◌==◌, arith,
}
use c_simples.JobHandler.{Handler, Limits, Sent, assign_begin}
use c_simples.JobHandler.Invariant.{IsValid}
use c_simples.JobHandler.Calls.{assign_idle, assign_delivered, assign_undelivered}
use c_simples.WorkerManager.{
  Manager, Worker, Stats, find_loop, find_worker_by_id, shifted, update_status, assign_job,
  occupied, worker_idle,
}
use c_simples.Server.{
  System, WorkerMessage, request_job, Answers, Outcome, Packet, response_to, job_message, to_worker,
  error_response, no_job_available, worker_not_found, handle_worker_message, after_idle,
}

shifted-some :
    (o : Option (ℕ × Worker)) (i : ℕ) (w : Worker)
    → shifted o ≡ some (i, w)
    → (k : ℕ) × (i ≡ suc k) × (o ≡ some (k, w))
shifted-some none i w e = cc
shifted-some (some (k, u)) i w e = (k, ground arith, ground arith)

-- A write to the entry that the search points to, which keeps the number.
find_loop-set :
    (id : ℕ) (ws : List Worker) (i : ℕ) (w w' : Worker)
    → find_loop id ws ≡ some (i, w)
    → w'.worker_id ≡ w.worker_id
    → find_loop id (set ws i w') ≡ some (i, w')
unfolding find_loop
find_loop-set id [] i w w' e q = cc
find_loop-set id (x ∷ ws) i w w' e q = elim (Bool-cases (x.worker_id == id)) [
  | inl b ↦ at_head i b (rw b at e)
  | inr b ↦
      let (k, ei, f) = shifted-some (find_loop id ws) i w (rw b at e) in
      rw (ei, b, find_loop-set id ws k w w' f q) refl
]
  where
    at_head :
        (i : ℕ)
        → (x.worker_id == id) ≡ true
        → ◌≡◌ {A = Option (ℕ × Worker)} (some (0, x)) (some (i, w))
        → find_loop id (set (x ∷ ws) i w') ≡ some (i, w')
    at_head zero b e = let same : x ≡ w = cc in rw (q ∙ ap (λ v. v.worker_id) (sym same), b) refl
    at_head (suc i) b e = absurd (ground arith)

find_worker_by_id-set :
    (id : ℤ) (m : Manager) (s : Stats) (i : ℕ) (w w' : Worker)
    → find_worker_by_id m id ≡ some (i, w)
    → w'.worker_id ≡ w.worker_id
    → find_worker_by_id (record m { workers = set m.workers i w'; stats = s }) id ≡ some (i, w')
unfolding find_worker_by_id
find_worker_by_id-set (negsuc n) m s i w w' e q = cc
find_worker_by_id-set (pos zero) m s i w w' e q = cc
find_worker_by_id-set (pos (suc n)) m s i w w' e q =
    elim (Bool-cases (ltb (suc n) m.next_worker_id)) [
      | inl b ↦ rw b (find_loop-set (suc n) m.workers i w w' (rw b at e) q)
      | inr b ↦ ground arith
    ]

-- `worker_manager_update_status`, and `worker_manager_assign_job`, for a worker that is found.
find-update_status :
    (id status : ℤ) (m : Manager) (i : ℕ) (w : Worker)
    → find_worker_by_id m id ≡ some (i, w)
    → ((update_status id status m).0 ≡ true)
      × (find_worker_by_id (update_status id status m).1 id
          ≡ some (i, record w { status = status }))
unfolding update_status
find-update_status id status m i w e =
    rw (e, update_status)
      (refl, find_worker_by_id-set id m _ i w (record w { status = status }) e refl)

find-assign_job :
    (id job_id : ℤ) (m : Manager) (i : ℕ) (w : Worker)
    → find_worker_by_id m id ≡ some (i, w)
    → ((assign_job id job_id m).0 ≡ true)
      × (find_worker_by_id (assign_job id job_id m).1 id ≡ some (i, occupied w job_id))
unfolding assign_job
find-assign_job id job_id m i w e =
    rw (e, assign_job) (refl, find_worker_by_id-set id m _ i w (occupied w job_id) e refl)

update_status_unknown :
    (id status : ℤ) (m : Manager)
    → find_worker_by_id m id ≡ none
    → update_status id status m ≡ (false, m)
unfolding update_status
update_status_unknown id status m e = rw (e, update_status) refl

module _ (max_job_types : ℕ) (limits : Limits) (a : Answers) (socket : ℤ)
    (msg : WorkerMessage) where
  abbrev pub no_job : Packet
  no_job = response_to socket (to_worker msg no_job_available)

  -- The worker as the server knows it once it has asked.
  abbrev pub idle : Worker → Worker
  idle w = record w { status = worker_idle }

  -- How the server answers `MSG_TYPE_REQUEST_JOB` of a worker that it does not know.
  abbrev pub AsksUnknown : System → Outcome → Type 0
  AsksUnknown s o =
      (find_worker_by_id s.workers msg.worker_id ≡ none)
      × (o ≡ (
        a.sent,
        response_to socket (error_response worker_not_found "Worker not found") ∷ [],
        s,
      ))

  -- No job waits.
  abbrev pub AsksIdle : System → Outcome → Type 0
  AsksIdle s o =
      (assign_begin socket a.now s.jobs ≡ none)
      × (o.0 ≡ a.sent)
      × (o.1 ≡ no_job ∷ [])
      × (o.2.jobs ≡ s.jobs)

  -- The message with the job cannot be sent.
  abbrev pub AsksUnsent : System → Outcome → Type 0
  AsksUnsent s o =
      (id : ℕ) × (m : Sent) × (h : Handler) × (assign_begin socket a.now s.jobs ≡ some (id, m, h))
      × (a.delivered ≡ false)
      × (o.0 ≡ a.sent)
      × (o.1 ≡ job_message m ∷ no_job ∷ [])
      × (o.2.jobs ≡ s.jobs)

  -- The worker gets a job.
  abbrev pub AsksServed : System → ℕ → Worker → Outcome → Type 0
  AsksServed s i w o =
      (id : ℕ) × (m : Sent) × (h : Handler) × (assign_begin socket a.now s.jobs ≡ some (id, m, h))
      × (a.delivered ≡ true)
      × (o.0 ≡ true)
      × (o.1 ≡ job_message m ∷ [])
      × (o.2.jobs ≡ h)
      × (find_worker_by_id o.2.workers msg.worker_id ≡ some (i, occupied (idle w) (pos id)))

  -- The end of the case, with the worker idle.
  served :
      (s : System) (m : Manager) (i : ℕ) (w : Worker)
      → 0 < limits.max_retries
      → IsValid limits s.jobs
      → find_worker_by_id m msg.worker_id ≡ some (i, idle w)
      → let o = after_idle max_job_types limits a socket msg s (true, m) in
        (((AsksIdle s o ⊎ AsksUnsent s o)
            × (find_worker_by_id o.2.workers msg.worker_id ≡ some (i, idle w)))
          ⊎ AsksServed s i w o)
  served s m i w p v f = elim (Option-cases (assign_begin socket a.now s.jobs)) [
    | inl e ↦
        rw (assign_idle socket a.delivered a.now s.jobs e) (inl (inl (e, refl, refl, refl), f))
    | inr ((id, message, h), e) ↦ elim (Bool-cases a.delivered) [
      | inl d ↦
          let (done, g) = find-assign_job msg.worker_id (pos id) m i (idle w) f in
          rw (d, assign_delivered socket a.now id message s.jobs h e)
            (inr (id, message, h, e, refl, done, refl, refl, g))
      | inr d ↦
          rw (d, assign_undelivered limits p socket a.now id message s.jobs h v e)
            (inl (inr (id, message, h, e, refl, refl, refl, refl), f))
    ]
  ]

  asked :
      (s : System) (i : ℕ) (w : Worker) (r : Bool × Manager)
      → 0 < limits.max_retries
      → IsValid limits s.jobs
      → (r.0 ≡ true)
      → find_worker_by_id r.1 msg.worker_id ≡ some (i, idle w)
      → let o = after_idle max_job_types limits a socket msg s r in
        (((AsksIdle s o ⊎ AsksUnsent s o)
            × (find_worker_by_id o.2.workers msg.worker_id ≡ some (i, idle w)))
          ⊎ AsksServed s i w o)
  asked s i w (false, m) p v t f = cc
  asked s i w (true, m) p v t f = served s m i w p v f

  -- The answer to a worker that asks for a job, when the job table is valid. A worker that the server
  -- does not know gets an error, and nothing changes. One that it knows is idle afterwards and is told
  -- that there is no job if no job waits, or if the message with the job cannot be sent, and then the
  -- job table is as before. Otherwise the handler returns 0, its only message is the one with the job
  -- that `job_handler_assign` has taken, and the worker is busy with the number of that job. Apart from
  -- that case the handler returns 0 exactly if its response is sent.
  pub request_job_lem :
      (s : System)
      → msg.body ≡ request_job
      → 0 < limits.max_retries
      → IsValid limits s.jobs
      → let o = handle_worker_message max_job_types limits a socket msg s in
        AsksUnknown s o
        ⊎ ((i : ℕ) × (w : Worker) × (find_worker_by_id s.workers msg.worker_id ≡ some (i, w))
            × (((AsksIdle s o ⊎ AsksUnsent s o)
                  × (find_worker_by_id o.2.workers msg.worker_id ≡ some (i, idle w)))
                ⊎ AsksServed s i w o))
  unfolding handle_worker_message
  request_job_lem s b p v = elim (Option-cases (find_worker_by_id s.workers msg.worker_id)) [
    | inl e ↦ rw (b, update_status_unknown msg.worker_id worker_idle s.workers e) (inl (e, refl))
    | inr ((i, w), e) ↦
        let (t, f) = find-update_status msg.worker_id worker_idle s.workers i w e in
        rw b
          (inr (i, w, e, asked s i w (update_status msg.worker_id worker_idle s.workers) p v t f))
  ]
