-- ===== src/JobHandler/Races.antt =====
-- job_handler.c: other threads between the two critical sections of `job_handler_assign`, and a
-- second initialisation.
use c_simples.Prelude.{
  ℕ, zero, suc, ◌<◌, ◌≡◌, ◌≢◌, refl, sym, ap, ◌∙◌, true, false, none, some, List, arith, set, ℤ,
  pos, dec, inl, inr, subst, some_eq, Option-cases, get_elem?-set_self,
}
use c_simples.JobHandler.{
  Job, pending, assigned, Handler, Limits, no_socket, find_job_by_id, assign_rollback, assign_begin,
  complete, completed, Sent, taken, oldest_loop, is_assigned, init, cleanup,
}
use c_simples.JobHandler.Table.{At, oldest_loop-PendingAt}
use c_simples.JobHandler.Moves.{IsWaiting-of_test, assign_begin-Move, complete-Moves}
use c_simples.JobHandler.Results.{complete_running, complete-At}
use c_simples.JobHandler.Numbering.{find_job_by_id-here}
use c_simples.JobHandler.Counts.{
  queued, running, done, lost, kind, count_kind, count_kind-empty, same_kind,
}
use c_simples.Prelude.{bit, count_if-set}
use c_simples.JobHandler.Invariant.{IsValid, Move-IsValid, Moves-IsValid}
use c_simples.JobHandler.Totals.{stats_total}

pos_eq : {a b : ℕ} → pos a ≡ pos b → a ≡ b
pos_eq e = ground arith

dec_ne : (n : ℕ) → dec (pos n) ≢ pos n
unfolding dec
dec_ne zero e = cc
dec_ne (suc n) e = ground arith

abbrev rolled_back : Job → Job
rolled_back j = record j { worker_socket = no_socket; status = pending; start_time = 0 }

rollback_stats :
    (h : Handler) (i : ℕ) (j : Job)
    → find_job_by_id h (pos j.job_id) ≡ some (i, j)
    → ((assign_rollback (pos j.job_id) h).jobs ≡ set h.jobs i (rolled_back j))
      × ((assign_rollback (pos j.job_id) h).stats.running_jobs ≡ dec h.stats.running_jobs)
unfolding assign_rollback
rollback_stats h i j f = rw (f, assign_rollback) (refl, refl)

not_running : (j : Job) → j.status ≢ assigned → same_kind (kind j) running ≡ false
not_running j n = ground arith

rolled_back_not_running : (j : Job) → same_kind (kind (rolled_back j)) running ≡ false
rolled_back_not_running j = ground arith

running_kept :
    (js : List Job) (i : ℕ) (j : Job)
    → At js i j
    → j.status ≢ assigned
    → count_kind running (set js i (rolled_back j)) ≡ count_kind running js
unfolding count_kind
running_kept js i j a n = omega (
  arith,
  count_if-set (λ k. same_kind (kind k) running) js i j (rolled_back j) a,
  ap bit (not_running j n),
  ap bit (rolled_back_not_running j),
)

-- If, while a thread is sending a job to a worker, another call has taken the job out of the
-- assigned state (a timeout check has put it back into the queue or given it up, or the worker has
-- completed or failed it), then undoing the assignment breaks the statistics.
pub rollback_breaks :
    (limits : Limits) (h : Handler) (i : ℕ) (j : Job)
    → IsValid limits h
    → At h.jobs i j
    → 0 < j.job_id
    → j.status ≢ assigned
    → ¬ IsValid limits (assign_rollback (pos j.job_id) h)
rollback_breaks limits h i j v a p n w =
    let f = find_job_by_id-here h i j v.numbered a p in
    let (js, st) = rollback_stats h i j f in
    dec_ne (count_kind running h.jobs) (
      ap dec (sym v.counted.running_ok)
      ∙ sym st
      ∙ w.counted.running_ok
      ∙ ap (λ l. pos (count_kind running l)) js
      ∙ ap pos (running_kept h.jobs i j a n))

-- The job that the first critical section takes.
begun :
    (worker : ℤ) (now : ℕ) (h h1 : Handler) (id : ℕ) (m : Sent)
    → assign_begin worker now h ≡ some (id, m, h1)
    → (i : ℕ) × (j : Job) × At h1.jobs i j
      × (j.job_id ≡ id)
      × (0 < j.job_id)
      × (is_assigned j ≡ true)
unfolding assign_begin
begun worker now h h1 id m e = elim (Option-cases (oldest_loop 0 none h.jobs)) [
  | inl n ↦ let bad = rw (n, assign_begin) at e in cc bad
  | inr ((i, j), f) ↦
      let (a, p) = oldest_loop-PendingAt h.jobs i j f in
      let same = some_eq (rw (f, assign_begin) at e) in
      (
        i,
        taken j worker now,
        subst (λ (k : Handler). At k.jobs i (taken j worker now)) (ap (λ r. r.2) same)
            (get_elem?-set_self h.jobs i j (taken j worker now) a),
        ap (λ r. r.0) same,
        (IsWaiting-of_test j p).0,
        refl,
      )
]

-- A completed job is pending after the rollback.
rollback_pending :
    (limits : Limits) (h : Handler) (i : ℕ) (j : Job)
    → IsValid limits h
    → At h.jobs i j
    → 0 < j.job_id
    → (k : Job) × At (assign_rollback (pos j.job_id) h).jobs i k
      × (k.job_id ≡ j.job_id)
      × (k.status ≡ pending)
rollback_pending limits h i j v a p =
    let (js, _) = rollback_stats h i j (find_job_by_id-here h i j v.numbered a p) in
    (
      rolled_back j,
      subst (λ l. At l i (rolled_back j)) (sym js)
          (get_elem?-set_self h.jobs i j (rolled_back j) a),
      refl,
      refl,
    )

-- A job is taken by the first critical section of `job_handler_assign`, its worker reports the result with
-- `job_handler_complete` before `send_message` returns, and then `send_message` fails, so that the second
-- section runs. If the table is valid at the start, `malloc` succeeds and `MAX_JOB_RETRIES` is positive, the
-- report is accepted and the table is valid with the job completed; after the second section this job is
-- pending again, and the statistics do not agree with the table.
pub assign-complete_races :
    (limits : Limits) (h h1 : Handler) (worker : ℤ) (now later id : ℕ) (m : Sent) (bytes : List ℕ)
    (n : ℕ)
    → 0 < limits.max_retries
    → IsValid limits h
    → assign_begin worker now h ≡ some (id, m, h1)
    → let (ok, sent, h2) = complete (pos id) (some bytes) (suc n) true later h1 in
      let h3 = assign_rollback (pos id) h2 in
      (ok ≡ true)
      × IsValid limits h2
      × ((i : ℕ) × (j : Job) × (k : Job) × At h2.jobs i j
          × (j.job_id ≡ id)
          × (j.status ≡ completed)
          × At h3.jobs i k
          × (k.job_id ≡ id)
          × (k.status ≡ pending))
      × ¬ IsValid limits h3
assign-complete_races limits h h1 worker now later id m bytes n positive v e =
    let v1 = Move-IsValid limits positive (assign_begin-Move limits worker now h h1 id m e) v in
    let (i, j, a, same, p, r) = begun worker now h h1 id m e in
    let f : find_job_by_id h1 (pos id) ≡ some (i, j) =
      ap (λ k. find_job_by_id h1 (pos k)) (sym same) ∙ find_job_by_id-here h1 i j v1.numbered a p in
    let ok = complete_running (pos id) bytes n later i j h1 f r in
    let h2 = (complete (pos id) (some bytes) (suc n) true later h1).2 in
    let v2 =
      Moves-IsValid limits positive
        (complete-Moves limits (pos id) (some bytes) (suc n) true later h1) v1 in
    let (i2, j2, a2, q, p2, s, _, _) = complete-At (pos id) bytes n later h1 ok in
    let number : j2.job_id ≡ id = sym (pos_eq q) in
    let (k, b, c, d) = rollback_pending limits h2 i2 j2 v2 a2 p2 in
    (
      ok,
      v2,
      (
        i2,
        j2,
        k,
        a2,
        number,
        s,
        subst (λ x. At (assign_rollback (pos x) h2).jobs i2 k) number b,
        c ∙ number,
        d,
      ),
      subst (λ x. ¬ IsValid limits (assign_rollback (pos x) h2)) number
          (rollback_breaks limits h2 i2 j2 v2 a2 p2 (λ t. cc)),
    )

-- `job_handler_cleanup` and a second `job_handler_init` leave the statistics of the old table: they
-- are wrong as soon as the old table had a job.
pub init-after-cleanup :
    (limits : Limits) (h : Handler) (n : ℕ) (timeout_seconds : ℤ)
    → IsValid limits h
    → 1 < h.next_job_id
    → ¬ IsValid limits (init (pos (suc n)) timeout_seconds true (cleanup h).1).1
unfolding init cleanup
init-after-cleanup limits h n timeout_seconds v p w =
    let (a, b, c, d, ea, eb, ec, ed, total) = stats_total limits h v in
    omega (
      arith,
      pos_eq (sym ea ∙ w.counted.pending_ok),
      pos_eq (sym eb ∙ w.counted.running_ok),
      pos_eq (sym ec ∙ w.counted.completed_ok),
      pos_eq (sym ed ∙ w.counted.failed_ok),
      count_kind-empty queued (suc n) refl,
      count_kind-empty running (suc n) refl,
      count_kind-empty done (suc n) refl,
      count_kind-empty lost (suc n) refl,
    )
