-- ===== src/Worker/Counts.antt =====
-- worker.c: the statistics of the job thread against the jobs that it takes and the reports that it sends.
use c_simples.Prelude.{
  ℕ, ◌+◌, ◌≤◌, ◌≡◌, inl, inr, if◌then◌else◌, ℤ, Bool, true, false, Bool-cases, ◌&&◌, Option, none,
  some, List, [], ◌∷◌, ◌++◌, count_if, arith,
}
use c_simples.Worker.{JobTypes, process_job}
use c_simples.Worker.Threads.{
  Packet, job_request, job_completed, job_failed, is_ready, send_job_completion, send_job_failure,
  Tally, Answer, no_answer, no_job_available, other_answer, job_assigned, Round, completed,
  after_job, after_answer, request_job, Turn, turn, job_thread,
}

abbrev pub is_completion : Packet → Bool
is_completion (job_completed worker job_id result_data size time) = true
is_completion _ = false

abbrev pub is_report : Packet → Bool
is_report (job_completed worker job_id result_data size time) = true
is_report (job_failed worker job_id) = true
is_report _ = false

-- Whether an answer brings a job, and the jobs that a call takes.
abbrev brings_job : Answer → ℕ
brings_job (job_assigned job_id job_type input_data input_size) = 1
brings_job _ = 0

abbrev taken_by : Round → ℕ
taken_by r = if is_ready r.session then if r.sent then brings_job r.answer else 0 else 0

-- The jobs that the thread takes until it stops.
abbrev pub jobs_taken : List Turn → ℕ
jobs_taken [] = 0
jobs_taken (r ∷ rs) =
    let rest = jobs_taken rs in
    if r.is_running then (if r.is_connected then taken_by r.round else 0) + rest else 0

-- `n` jobs are counted, no more of them as processed than results are sent, and there are no more reports
-- than jobs.
pub record Counted (t : Tally) (n : ℕ) (packets : List Packet) (t' : Tally) : Type 0 where
  pub each_once : t'.jobs_processed + t'.jobs_failed ≡ t.jobs_processed + t.jobs_failed + n
  pub never_less : t.jobs_processed ≤ t'.jobs_processed
  pub with_result : t'.jobs_processed ≤ t.jobs_processed + count_if is_completion packets
  pub one_report : count_if is_report packets ≤ n

nothing-Counted : (t : Tally) → Counted t 0 [] t
unfolding count_if
nothing-Counted t = record {
  each_once = omega arith;
  never_less = omega arith;
  with_result = omega arith;
  one_report = omega arith;
}

count_if-append :
    (p : Packet → Bool) (xs ys : List Packet)
    → count_if p (xs ++ ys) ≡ count_if p xs + count_if p ys
unfolding count_if
count_if-append p [] ys = omega arith
count_if-append p (x ∷ xs) ys = omega (arith, count_if-append p xs ys)

Counted-trans :
    (t u v : Tally) (m n : ℕ) (ps qs : List Packet)
    → Counted t m ps u
    → Counted u n qs v
    → Counted t (m + n) (ps ++ qs) v
Counted-trans t u v m n ps qs a b = record {
  each_once = omega (arith, a.each_once, b.each_once);
  never_less = omega (arith, a.never_less, b.never_less);
  with_result = omega (arith, a.with_result, b.with_result, count_if-append is_completion ps qs);
  one_report = omega (arith, a.one_report, b.one_report, count_if-append is_report ps qs);
}

-- A request before the packets changes no count.
after_request :
    (t t' : Tally) (n : ℕ) (worker : ℤ) (ps : List Packet)
    → Counted t n ps t'
    → Counted t n (job_request worker ∷ ps) t'
unfolding count_if
after_request t t' n worker ps a = record {
  each_once = a.each_once;
  never_less = a.never_less;
  with_result = omega (arith, a.with_result);
  one_report = omega (arith, a.one_report);
}

abbrev Outcome : Tally → ℕ → ℤ × List Packet × Tally → Type 0
Outcome t n (value, packets, t') = Counted t n packets t'

one_failed :
    (t : Tally) (packets : List Packet)
    → count_if is_report packets ≤ 1
    → Counted t 1 packets (record t { jobs_failed = t.jobs_failed + 1 })
one_failed t packets l = record {
  each_once = omega arith;
  never_less = omega arith;
  with_result = omega arith;
  one_report = l;
}

failure-Counted :
    (r : Round) (job_id : ℤ) (size : ℕ) (t : Tally) → Outcome t 1 (after_job r job_id size none t)
unfolding send_job_failure count_if
failure-Counted r job_id size t = elim (Bool-cases (is_ready r.later)) [
  | inl e ↦ rw e (one_failed t (job_failed r.later.worker_id job_id ∷ []) (omega arith))
  | inr e ↦ rw e (one_failed t [] (omega arith))
]

completion-Counted :
    (r : Round) (job_id : ℤ) (size : ℕ) (result_data : List ℕ) (t : Tally)
    → Outcome t 1 (after_job r job_id size (some result_data) t)
unfolding send_job_completion count_if
completion-Counted r job_id size result_data t = elim (Bool-cases (is_ready r.later)) [
  | inl e ↦ rw e (acknowledged (r.report.sent && r.report.acked))
  | inr e ↦ rw e (one_failed t [] (omega arith))
]
  where
    report : Packet
    report = job_completed r.later.worker_id job_id result_data size r.processing_time

    acknowledged : (b : Bool) → Outcome t 1 (completed job_id r.processing_time (b, report ∷ []) t)
    acknowledged true = record {
      each_once = omega arith;
      never_less = omega arith;
      with_result = omega arith;
      one_report = omega arith;
    }
    acknowledged false = one_failed t (report ∷ []) (omega arith)

after_job-Counted :
    (r : Round) (job_id : ℤ) (size : ℕ) (o : Option (List ℕ)) (t : Tally)
    → Outcome t 1 (after_job r job_id size o t)
after_job-Counted r job_id size none t = failure-Counted r job_id size t
after_job-Counted r job_id size (some result_data) t =
    completion-Counted r job_id size result_data t

after_answer-Counted :
    (types : JobTypes) (r : Round) (a : Answer) (t : Tally)
    → Outcome t (brings_job a) (after_answer types r a t)
after_answer-Counted types r no_answer t = nothing-Counted t
after_answer-Counted types r no_job_available t = nothing-Counted t
after_answer-Counted types r other_answer t = nothing-Counted t
after_answer-Counted types r (job_assigned job_id job_type input_data input_size) t =
    after_job-Counted r job_id input_size
      (process_job types job_type input_data input_size r.allocated) t

request_job-Counted :
    (types : JobTypes) (r : Round) (t : Tally) → Outcome t (taken_by r) (request_job types r t)
unfolding request_job
request_job-Counted types r t = elim (Bool-cases (is_ready r.session)) [
  | inr e ↦ rw e (nothing-Counted t)
  | inl e ↦ elim (Bool-cases r.sent) [
    | inr f ↦ rw (e, f) (after_request t t 0 r.session.worker_id [] (nothing-Counted t))
    | inl f ↦
        rw (e, f)
          (after_request t _ _ r.session.worker_id _ (after_answer-Counted types r r.answer t))
  ]
]

turn-Counted :
    (types : JobTypes) (r : Turn) (t : Tally)
    → let (packets, t') = turn types r t in
      Counted t (if r.is_connected then taken_by r.round else 0) packets t'
turn-Counted types r t = elim (Bool-cases r.is_connected) [
  | inl e ↦ rw e (request_job-Counted types r.round t)
  | inr e ↦ rw e (nothing-Counted t)
]

-- Of the jobs that the job thread takes, each one is counted once, as processed or as failed, in every run and
-- whatever its calls return. The count of the processed jobs grows by no more than the results that it has
-- sent, and it sends no more reports than it has taken jobs.
pub job_thread-Counted :
    (types : JobTypes) (rs : List Turn) (t : Tally)
    → let (packets, t') = job_thread types rs t in Counted t (jobs_taken rs) packets t'
unfolding job_thread
job_thread-Counted types [] t = nothing-Counted t
job_thread-Counted types (r ∷ rs) t =
    let (packets, t1) = turn types r t in
    let (more, t2) = job_thread types rs t1 in
    elim (Bool-cases r.is_running) [
      | inl e ↦ rw e (
          Counted-trans t t1 t2 _ _ packets more (turn-Counted types r t)
            (job_thread-Counted types rs t1))
      | inr e ↦ rw e (nothing-Counted t)
    ]
