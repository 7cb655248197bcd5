-- ===== src/JobHandler/Moves.antt =====
-- job_handler.c: the atomic changes of the job table, as a step relation, and the calls.
use c_simples.Prelude.{
  ℕ, suc, ◌+◌, ◌≤◌, ◌<◌, ◌≡◌, refl, ap, ◌⊎◌, inl, inr, Bool, true, Bool-cases, Option-cases, Option,
  none, some, List, [], ◌∷◌, ◌++◌, arith, length, set, inc, dec, ℤ, subst, append_assoc,
}
use c_simples.JobHandler.{
  Job, JobStatus, pending, assigned, completed, failed, timeout, Stats, Handler, Limits, Sent,
  submit, assign_begin, complete, fail, check_timeouts, sweep, sweep_job, Sweep, find_free_job_slot,
  find_job_by_id, oldest_loop, new_job, taken, retried, given_up, copy_bytes, missing, may_retry,
  is_assigned, is_pending, has_timed_out, count_retry, count_failure,
}
use c_simples.JobHandler.Table.{At, find_job_by_id-At, oldest_loop-PendingAt}

-- A job that a worker has.
abbrev pub IsRunning : Job → Type 0
IsRunning j = (0 < j.job_id) × (j.status ≡ assigned)

abbrev pub IsWaiting : Job → Type 0
IsWaiting j = (0 < j.job_id) × (j.status ≡ pending)

-- The two ways to fail for good.
abbrev pub IsFailure : JobStatus → Type 0
IsFailure s = (s ≡ failed) ⊎ (s ≡ timeout)

some_state :
    {x y : ℕ} {m n : Sent} {h h' : Handler}
    → ◌≡◌ {A = Option (ℕ × Sent × Handler)} (some (x, m, h)) (some (y, n, h'))
    → h ≡ h'
some_state e = ground arith

pub IsWaiting-of_test : (j : Job) → is_pending j ≡ true → IsWaiting j
IsWaiting-of_test j p = ground arith

IsRunning-of_late : (now : ℕ) (limit : ℤ) (j : Job) → has_timed_out now limit j ≡ true → IsRunning j
IsRunning-of_late now limit j b = ground arith

get_elem?-middle :
    (front : List Job) (j : Job) (js : List Job) → At (front ++ j ∷ js) (length front) j
get_elem?-middle [] j js = refl
get_elem?-middle (x ∷ front) j js = get_elem?-middle front j js

set-middle :
    (front : List Job) (j new : Job) (js : List Job)
    → set (front ++ j ∷ js) (length front) new ≡ front ++ new ∷ js
set-middle [] j new js = refl
set-middle (x ∷ front) j new js = ap (◌∷◌ x) (set-middle front j new js)

module _ (limits : Limits) where
  pub data Move (h : Handler) : Handler → Type 0 where
    enqueue :
        (i : ℕ) (client job_type : ℤ) (bytes : Option (List ℕ)) (size now : ℕ)
        → find_free_job_slot h.jobs ≡ some i
        → Move h (record h {
          jobs = set h.jobs i (new_job h.next_job_id client job_type bytes size now);
          next_job_id = h.next_job_id + 1;
          stats = record h.stats { pending_jobs = inc h.stats.pending_jobs };
        })
    take :
        (i : ℕ) (j : Job) (worker : ℤ) (now : ℕ)
        → At h.jobs i j
        → IsWaiting j
        → Move h (record h {
          jobs = set h.jobs i (taken j worker now);
          stats = record h.stats {
            pending_jobs = dec h.stats.pending_jobs;
            running_jobs = inc h.stats.running_jobs;
          };
        })
    finish :
        (i : ℕ) (j : Job) (bytes : Option (List ℕ)) (size now : ℕ)
        → At h.jobs i j
        → IsRunning j
        → Move h (record h {
          jobs = set h.jobs i (record j {
            result_data = bytes;
            result_size = size;
            status = completed;
            end_time = now;
          });
          stats = record h.stats {
            running_jobs = dec h.stats.running_jobs;
            completed_jobs = inc h.stats.completed_jobs;
          };
        })
    retry :
        (i : ℕ) (j : Job)
        → At h.jobs i j
        → IsRunning j
        → suc j.retry_count < limits.max_retries
        → Move h (record h { jobs = set h.jobs i (retried j); stats = count_retry h.stats })
    give_up :
        (i : ℕ) (j : Job) (s : JobStatus) (now : ℕ)
        → At h.jobs i j
        → IsRunning j
        → limits.max_retries ≤ suc j.retry_count
        → IsFailure s
        → Move h
            (record h { jobs = set h.jobs i (given_up s now j); stats = count_failure h.stats })

  pub data Moves (h : Handler) : Handler → Type 0 where
    stay : Moves h h
    after : {h' h'' : Handler} → Moves h h' → Move h' h'' → Moves h h''

  pub Moves-trans : {h h' h'' : Handler} → Moves h h' → Moves h' h'' → Moves h h''
  Moves-trans p stay = p
  Moves-trans p (after q m) = after (Moves-trans p q) m

  pub one : {h h' : Handler} → Move h h' → Moves h h'
  one m = after stay m

  pub submit-Moves :
      (client job_type : ℤ) (bytes : Option (List ℕ)) (size : ℕ) (ok : Bool) (now : ℕ) (h : Handler)
      → Moves h (submit client job_type bytes size ok now h).1
  unfolding submit
  submit-Moves client job_type bytes size ok now h = elim (Bool-cases (missing bytes size)) [
    | inl b ↦ rw b stay
    | inr b ↦ rw b (elim (Option-cases (find_free_job_slot h.jobs)) [
      | inl e ↦ rw e stay
      | inr (i, e) ↦ rw e (elim (Option-cases (copy_bytes bytes size ok)) [
        | inl f ↦ rw f stay
        | inr (data_copy, f) ↦ rw f (one (enqueue i client job_type data_copy size now e))
      ])
    ])
  ]

  pub assign_begin-Move :
      (worker : ℤ) (now : ℕ) (h h' : Handler) (id : ℕ) (m : Sent)
      → assign_begin worker now h ≡ some (id, m, h')
      → Move h h'
  unfolding assign_begin
  assign_begin-Move worker now h h' id m e = elim (Option-cases (oldest_loop 0 none h.jobs)) [
    | inl n ↦ let bad = rw (n, assign_begin) at e in cc bad
    | inr ((i, j), f) ↦
        let (a, p) = oldest_loop-PendingAt h.jobs i j f in
        let same = rw (f, assign_begin) at e in
        subst (Move h) (some_state (same)) (take i j worker now a (IsWaiting-of_test j p))
  ]

  IsRunning-of_find :
      (h : Handler) (id : ℤ) (i : ℕ) (j : Job)
      → find_job_by_id h id ≡ some (i, j)
      → is_assigned j ≡ true
      → At h.jobs i j × IsRunning j
  IsRunning-of_find h id i j f b =
      let (a, _, p, _) = find_job_by_id-At h id i j f in (a, (p, ground arith))

  pub complete-Moves :
      (id : ℤ) (bytes : Option (List ℕ)) (size : ℕ) (ok : Bool) (now : ℕ) (h : Handler)
      → Moves h (complete id bytes size ok now h).2
  unfolding complete
  complete-Moves id bytes size ok now h = elim (Bool-cases (missing bytes size)) [
    | inl b ↦ rw b stay
    | inr b ↦ rw b (elim (Option-cases (find_job_by_id h id)) [
      | inl e ↦ rw e stay
      | inr ((i, j), f) ↦ rw f (elim (Bool-cases (is_assigned j)) [
        | inr b ↦ rw b stay
        | inl b ↦ rw b (elim (Option-cases (copy_bytes bytes size ok)) [
          | inl g ↦ rw g stay
          | inr (data_copy, g) ↦
              let (a, r) = IsRunning-of_find h id i j f b in
              rw g (one (finish i j data_copy size now a r))
        ])
      ])
    ])
  ]

  pub fail-Moves : (id code : ℤ) (now : ℕ) (h : Handler) → Moves h (fail limits id code now h).2
  unfolding fail
  fail-Moves id code now h = elim (Option-cases (find_job_by_id h id)) [
    | inl n ↦ rw (n, fail) stay
    | inr ((i, j), f) ↦
        rw (f, fail)
          (elim (Bool-cases (is_assigned j)) [
            | inr b ↦ rw b stay
            | inl b ↦
                let (a, r) = IsRunning-of_find h id i j f b in
                rw b (elim (Bool-cases (may_retry limits j)) [
                  | inl y ↦ rw y (one (retry i j a r (ground arith)))
                  | inr n ↦ rw n (one (give_up i j failed now a r (ground arith) (inl refl)))
                ])
          ])
  ]

  -- The handler's state with the given table and statistics.
  abbrev with_table : Handler → List Job → Stats → Handler
  with_table h js s = record h { jobs = js; stats = s }

  sweep_job-Moves :
      (h : Handler) (front js : List Job) (now : ℕ) (limit : ℤ) (j : Job) (s : Sweep)
      → let (j', s') = sweep_job limits now limit j s in
        Moves (with_table h (front ++ j ∷ js) s.stats) (with_table h (front ++ j' ∷ js) s'.stats)
  unfolding sweep_job
  sweep_job-Moves h front js now limit j s = elim (Bool-cases (has_timed_out now limit j)) [
    | inr b ↦ rw b stay
    | inl b ↦ rw b (elim (Bool-cases (may_retry limits j)) [
      | inl y ↦
          rw (y, ← set-middle front j (retried j) js)
            (one (
              retry (length front) j (get_elem?-middle front j js) (IsRunning-of_late now limit j b)
                (ground arith)))
      | inr n ↦
          rw (n, ← set-middle front j (given_up timeout now j) js)
            (one (
              give_up (length front) j timeout now (get_elem?-middle front j js)
                (IsRunning-of_late now limit j b) (ground arith) (inr refl)))
    ])
  ]

  sweep-Moves :
      (h : Handler) (js front : List Job) (now : ℕ) (limit : ℤ) (s : Sweep)
      → let (js', s') = sweep limits now limit js s in
        Moves (with_table h (front ++ js) s.stats) (with_table h (front ++ js') s'.stats)
  unfolding sweep
  sweep-Moves h [] front now limit s = stay
  sweep-Moves h (j ∷ js) front now limit s =
      let (j', s') = sweep_job limits now limit j s in
      Moves-trans (sweep_job-Moves h front js now limit j s) (
        rw
          (
            append_assoc front (j' ∷ []) js,
            append_assoc front (j' ∷ []) (sweep limits now limit js s').0,
          )
          at (sweep-Moves h js (front ++ j' ∷ []) now limit s'))

  pub check_timeouts-Moves : (now : ℕ) (h : Handler) → Moves h (check_timeouts limits now h).2
  unfolding check_timeouts
  check_timeouts-Moves now h = sweep-Moves h h.jobs [] now h.timeout_seconds _
