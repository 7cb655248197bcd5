-- ===== src/JobHandler/Calls.antt =====
-- job_handler.c: each call as moves, histories of calls, and `job_handler_init`.
use c_simples.Prelude.{
  ℕ, zero, suc, ◌<◌, ◌≡◌, refl, sym, ap, ap₂, ◌∙◌, inl, inr, Bool, true, false, Bool-cases,
  Option-cases, Option, none, some, List, [], ◌∷◌, arith, length, set, pos, ℤ, subst, All-get,
  All-replicate, length-replicate, set-set, set_same, get_elem?-set_self, inc-dec, dec-inc, inc,
  dec, negsuc, pos_part,
}
use c_simples.JobHandler.{
  assign_begin, Job, pending, Stats, Handler, Limits, Sent, no_socket, empty_job, init, assign,
  oldest_loop, assign_rollback, taken, assign_message, find_job_by_id, Call, submits, assigns,
  completes, fails, checks, step, run,
}
use c_simples.JobHandler.Table.{At, oldest_loop-PendingAt}
use c_simples.JobHandler.Moves.{
  Moves, stay, take, one, Moves-trans, IsWaiting, IsWaiting-of_test, submit-Moves, complete-Moves,
  fail-Moves, check_timeouts-Moves,
}
use c_simples.JobHandler.Numbering.{Numbered-replicate, find_job_by_id-here}
use c_simples.JobHandler.Counts.{count_kind-empty, queued, running, done, lost}
use c_simples.JobHandler.Invariant.{IsValid, JobOk, waiting_ok, Move-IsValid, Moves-IsValid}

-- `assign` by the result of its first critical section.
abbrev assign_result : Bool → Handler → Option (ℕ × Sent × Handler) → Option ℕ × List Sent × Handler
assign_result sent h none = (none, [], h)
assign_result true h (some (id, message, h')) = (some id, message ∷ [], h')
assign_result false h (some (id, message, h')) = (none, message ∷ [], assign_rollback (pos id) h')

assign_lem :
    (worker : ℤ) (sent : Bool) (now : ℕ) (h : Handler)
    → assign worker sent now h ≡ assign_result sent h (assign_begin worker now h)
unfolding assign
assign_lem worker sent now h = elim (Option-cases (oldest_loop 0 none h.jobs)) [
  | inl e ↦ rw (e, assign, assign_begin) refl
  | inr ((i, j), e) ↦ elim (Bool-cases sent) [
    | inl b ↦ rw (e, b, assign, assign_begin) refl
    | inr b ↦ rw (e, b, assign, assign_begin) refl
  ]
]

pub assign_idle :
    (worker : ℤ) (sent : Bool) (now : ℕ) (h : Handler)
    → assign_begin worker now h ≡ none
    → assign worker sent now h ≡ (none, [], h)
assign_idle worker sent now h e = assign_lem worker sent now h ∙ ap (assign_result sent h) e

pub assign_delivered :
    (worker : ℤ) (now id : ℕ) (m : Sent) (h h' : Handler)
    → assign_begin worker now h ≡ some (id, m, h')
    → assign worker true now h ≡ (some id, m ∷ [], h')
assign_delivered worker now id m h h' e = assign_lem worker true now h ∙ ap (assign_result true h) e

-- The state after the first critical section of `job_handler_assign`.
abbrev with_taken : Handler → ℕ → Job → ℤ → ℕ → Handler
with_taken h i j worker now = record h {
  jobs = set h.jobs i (taken j worker now);
  stats = record h.stats {
    pending_jobs = dec h.stats.pending_jobs;
    running_jobs = inc h.stats.running_jobs;
  };
}

-- How `assign` goes on when a job is found.
assign_cases {ℓ} :
    (P : Option ℕ × List Sent × Handler → Type ℓ) (worker : ℤ) (sent : Bool) (now : ℕ) (h : Handler)
    → P (none, [], h)
    → ((i : ℕ) (j : Job)
        → At h.jobs i j
        → IsWaiting j
        → (sent ≡ true)
        → P (some j.job_id, assign_message worker j ∷ [], with_taken h i j worker now))
    → ((i : ℕ) (j : Job)
        → At h.jobs i j
        → IsWaiting j
        → (sent ≡ false)
        → P (
          none,
          assign_message worker j ∷ [],
          assign_rollback (pos j.job_id) (with_taken h i j worker now),
        ))
    → P (assign worker sent now h)
unfolding assign
assign_cases P worker sent now h idle yes_sent not_sent =
    elim (Option-cases (oldest_loop 0 none h.jobs)) [
      | inl n ↦ rw (n, assign) idle
      | inr ((i, j), f) ↦
          let (a, p) = oldest_loop-PendingAt h.jobs i j f in
          let w = IsWaiting-of_test j p in
          rw (f, assign)
            (elim (Bool-cases sent) [
              | inl b ↦ rw b (yes_sent i j a w b)
              | inr b ↦ rw b (not_sent i j a w b)
            ])
    ]

-- The two changes of the statistics cancel.
stats_back :
    (s : Stats)
    → record s { pending_jobs = inc (dec s.pending_jobs); running_jobs = dec (inc s.running_jobs) }
      ≡ s
stats_back s = rw (inc-dec s.pending_jobs, dec-inc s.running_jobs)

rollback_of_find :
    (h : Handler) (i : ℕ) (j : Job) (worker : ℤ) (now : ℕ)
    → find_job_by_id (with_taken h i j worker now) (pos j.job_id) ≡ some (i, taken j worker now)
    → assign_rollback (pos j.job_id) (with_taken h i j worker now) ≡ record h {
      jobs =
          set
            (set h.jobs i (taken j worker now))
            i
            (record j { worker_socket = no_socket; status = pending; start_time = 0 });
      stats = record h.stats {
        pending_jobs = inc (dec h.stats.pending_jobs);
        running_jobs = dec (inc h.stats.running_jobs);
      };
    }
unfolding assign_rollback
rollback_of_find h i j worker now f = rw (f, assign_rollback)

job_back :
    (j : Job)
    → IsWaiting j
    → j.worker_socket ≡ no_socket
    → j.start_time ≡ 0
    → record j { worker_socket = no_socket; status = pending; start_time = 0 } ≡ j
job_back j w e s = ground arith

module _ (limits : Limits) (p : 0 < limits.max_retries) where
  -- Undoing an assignment gives back the state before it.
  rollback_taken :
      (h : Handler) (i : ℕ) (j : Job) (worker : ℤ) (now : ℕ)
      → IsValid limits h
      → At h.jobs i j
      → IsWaiting j
      → assign_rollback (pos j.job_id) (with_taken h i j worker now) ≡ h
  rollback_taken h i j worker now v a w =
      let v' = Move-IsValid limits p (take i j worker now a w) v in
      let found =
        find_job_by_id-here (with_taken h i j worker now) i (taken j worker now) v'.numbered
          (get_elem?-set_self h.jobs i j (taken j worker now) a) w.0 in
      let (e, s, _, _) =
        waiting_ok limits.max_retries j (All-get (JobOk limits.max_retries) h.jobs i j v.jobs_ok a)
          w in
      rollback_of_find h i j worker now found
      ∙ ap₂ (λ js st. record h { jobs = js; stats = st })
          (set-set h.jobs i _ _ ∙ ap (set h.jobs i) (job_back j w e s) ∙ set_same h.jobs i j a)
          (stats_back h.stats)

  assign-Moves :
      (worker : ℤ) (sent : Bool) (now : ℕ) (h : Handler)
      → IsValid limits h
      → Moves limits h (assign worker sent now h).2
  assign-Moves worker sent now h v =
      assign_cases (λ r. Moves limits h r.2) worker sent now h stay
        (λ i j a w _. one limits (take i j worker now a w))
        (λ i j a w _. subst (Moves limits h) (sym (rollback_taken h i j worker now v a w)) stay)

  -- If `send_message` fails, `job_handler_assign` returns -1 and leaves the table and the statistics
  -- as they were, provided that no other thread runs between its two critical sections.
  pub assign_unsent :
      (worker : ℤ) (now : ℕ) (h : Handler)
      → IsValid limits h
      → ((assign worker false now h).0 ≡ none) × ((assign worker false now h).2 ≡ h)
  assign_unsent worker now h v =
      assign_cases (λ r. (r.0 ≡ none) × (r.2 ≡ h)) worker false now h (refl, refl)
        (λ i j a w bad. cc) (λ i j a w _. (refl, rollback_taken h i j worker now v a w))

  -- The same with the message that was not sent.
  pub assign_undelivered :
      (worker : ℤ) (now id : ℕ) (m : Sent) (h h' : Handler)
      → IsValid limits h
      → assign_begin worker now h ≡ some (id, m, h')
      → assign worker false now h ≡ (none, m ∷ [], h)
  assign_undelivered worker now id m h h' v e =
      let q = assign_lem worker false now h ∙ ap (assign_result false h) e in
      let back =
        ap (λ (r : Option ℕ × List Sent × Handler). r.2) (sym q)
        ∙ (assign_unsent worker now h v).1 in
      q ∙ ap (λ (k : Handler). (none, m ∷ [], k)) back

  pub step-Moves : (h : Handler) (c : Call) → IsValid limits h → Moves limits h (step limits h c)
  unfolding step
  step-Moves h (submits client job_type bytes size ok now) v =
      submit-Moves limits client job_type bytes size ok now h
  step-Moves h (assigns worker sent now) v = assign-Moves worker sent now h v
  step-Moves h (completes id bytes size ok now) v = complete-Moves limits id bytes size ok now h
  step-Moves h (fails id code now) v = fail-Moves limits id code now h
  step-Moves h (checks now) v = check_timeouts-Moves limits now h

  pub step-IsValid : (h : Handler) (c : Call) → IsValid limits h → IsValid limits (step limits h c)
  step-IsValid h c v = Moves-IsValid limits p (step-Moves h c v) v

  -- If `MAX_JOB_RETRIES` is positive, every history of calls keeps the invariant: entry `i` holds job
  -- `i + 1`, each of the four statistics counts the jobs of its state, and a job waits or runs only with
  -- attempts left.
  pub run-IsValid :
      (h : Handler) (cs : List Call) → IsValid limits h → IsValid limits (run limits h cs)
  unfolding run
  run-IsValid h [] v = v
  run-IsValid h (c ∷ cs) v = run-IsValid (step limits h c) cs (step-IsValid h c v)

  pub run-Moves :
      (h : Handler) (cs : List Call) → IsValid limits h → Moves limits h (run limits h cs)
  unfolding run
  run-Moves h [] v = stay
  run-Moves h (c ∷ cs) v =
      Moves-trans limits (step-Moves h c v) (run-Moves (step limits h c) cs (step-IsValid h c v))

-- If the statistics are 0, as they are at the start of the program, then the table that a successful
-- `job_handler_init` makes is valid and has `max_jobs` entries.
pub init-IsValid :
    (limits : Limits) (max_jobs timeout_seconds : ℤ) (ok : Bool) (h : Handler)
    → h.stats.pending_jobs ≡ pos 0
    → h.stats.running_jobs ≡ pos 0
    → h.stats.completed_jobs ≡ pos 0
    → h.stats.failed_jobs ≡ pos 0
    → (init max_jobs timeout_seconds ok h).0 ≡ true
    → IsValid limits (init max_jobs timeout_seconds ok h).1
      × (length (init max_jobs timeout_seconds ok h).1.jobs ≡ pos_part max_jobs)
unfolding init
init-IsValid limits (negsuc n) timeout_seconds ok h a b c d e = cc
init-IsValid limits (pos zero) timeout_seconds ok h a b c d e = cc
init-IsValid limits (pos (suc n)) timeout_seconds false h a b c d e = cc
init-IsValid limits (pos (suc n)) timeout_seconds true h a b c d e = (
  record {
    numbered = Numbered-replicate 1 1 (suc n) (omega arith);
    some_number = omega arith;
    in_table = omega arith;
    jobs_ok = All-replicate (JobOk limits.max_retries) (suc n) empty_job (inl refl);
    counted = record {
      pending_ok = a ∙ ap pos (sym (count_kind-empty queued (suc n) refl));
      running_ok = b ∙ ap pos (sym (count_kind-empty running (suc n) refl));
      completed_ok = c ∙ ap pos (sym (count_kind-empty done (suc n) refl));
      failed_ok = d ∙ ap pos (sym (count_kind-empty lost (suc n) refl));
    };
  },
  ap suc (length-replicate n empty_job),
)
