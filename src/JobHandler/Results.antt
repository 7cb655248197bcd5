-- ===== src/JobHandler/Results.antt =====
-- `job_handler_get_status` and `job_handler_get_result` after a job has completed.
use c_simples.Prelude.{
  ℕ, suc, ◌<◌, ◌≡◌, refl, ap, ◌∙◌, inl, inr, arith, Bool, true, Option, some, List, take, take-take,
  ℤ, pos, Option-cases, Bool-cases, get_elem?-set_self,
}
use c_simples.JobHandler.{
  Job, completed, Handler, Limits, Call, run, complete, get_result, find_job_by_id, is_assigned,
  copy_bytes, get_status, JobStatus, same_status,
}
use c_simples.JobHandler.Table.{At, find_job_by_id-At}
use c_simples.JobHandler.Numbering.{find_job_by_id-here}
use c_simples.JobHandler.Invariant.{IsValid, Moves-IsValid}
use c_simples.JobHandler.Moves.{complete-Moves}
use c_simples.JobHandler.Lifecycle.{run-Later}
use c_simples.JobHandler.Calls.{run-IsValid}

-- What a successful `job_handler_complete` with data leaves in the table.
pub complete-At :
    (id : ℤ) (bytes : List ℕ) (n now : ℕ) (h : Handler)
    → (complete id (some bytes) (suc n) true now h).0 ≡ true
    → (i : ℕ) × (j : Job) × At (complete id (some bytes) (suc n) true now h).2.jobs i j
      × (id ≡ pos j.job_id)
      × (0 < j.job_id)
      × (j.status ≡ completed)
      × (j.result_data ≡ some (take (suc n) bytes))
      × (j.result_size ≡ suc n)
unfolding complete
complete-At id bytes n now h e = elim (Option-cases (find_job_by_id h id)) [
  | inl f ↦ let bad = rw (f, complete) at e in cc bad
  | inr ((i, j), f) ↦ elim (Bool-cases (is_assigned j)) [
    | inr b ↦ let bad = rw (f, complete, b) at e in cc bad
    | inl b ↦
        let (a, q, p, _) = find_job_by_id-At h id i j f in
        rw (f, complete, b)
          (
            i,
            record j {
              result_data = some (take (suc n) bytes);
              result_size = suc n;
              status = completed;
              end_time = now;
            },
            get_elem?-set_self h.jobs i j _ a,
            q,
            p,
            refl,
            refl,
            refl,
          )
  ]
]

copy_all :
    (o : Option (List ℕ)) (m n : ℕ) (b : List ℕ)
    → o ≡ some b
    → m ≡ suc n
    → copy_bytes o m true ≡ some (some (take (suc n) b))
copy_all o m n b e q = rw (e, q)

get_result-of_find :
    (h : Handler) (id : ℤ) (i : ℕ) (j : Job) (bytes : List ℕ) (n : ℕ)
    → find_job_by_id h id ≡ some (i, j)
    → j.status ≡ completed
    → j.result_data ≡ some (take (suc n) bytes)
    → j.result_size ≡ suc n
    → get_result id true h ≡ some (some (take (suc n) bytes), suc n)
unfolding get_result
get_result-of_find h id i j bytes n f s d z =
    rw (f, get_result, s, copy_all j.result_data j.result_size n (take (suc n) bytes) d z, z)
      (ap (λ r. some (some r, suc n)) (take-take (suc n) (suc n) bytes (omega arith)))

-- After a successful `job_handler_complete` with `result_size` bytes of data, and any history of
-- calls, `job_handler_get_result` of that job returns exactly those bytes and their number, if its
-- `malloc` succeeds.
pub get_result-complete :
    (limits : Limits) (h : Handler) (id : ℤ) (bytes : List ℕ) (n now : ℕ) (cs : List Call)
    → 0 < limits.max_retries
    → IsValid limits h
    → (complete id (some bytes) (suc n) true now h).0 ≡ true
    → get_result id true (run limits (complete id (some bytes) (suc n) true now h).2 cs)
      ≡ some (some (take (suc n) bytes), suc n)
get_result-complete limits h id bytes n now cs m v e =
    let h' = (complete id (some bytes) (suc n) true now h).2 in
    let v' = Moves-IsValid limits m (complete-Moves limits id (some bytes) (suc n) true now h) v in
    let (i, j, a, q, p, s, d, z) = complete-At id bytes n now h e in
    let (j', a', later) = run-Later limits h' cs i j m v' a p in
    let same = later.over (inl s) in
    let found =
      find_job_by_id-here (run limits h' cs) i j (run-IsValid limits m h' cs v').numbered
        (a' ∙ ap some same) p in
    get_result-of_find (run limits h' cs) id i j bytes n
      (ap (find_job_by_id (run limits h' cs)) q ∙ found) s d z

-- A job that `job_handler_complete` accepts.
pub complete_running :
    (id : ℤ) (bytes : List ℕ) (n now i : ℕ) (j : Job) (h : Handler)
    → find_job_by_id h id ≡ some (i, j)
    → is_assigned j ≡ true
    → (complete id (some bytes) (suc n) true now h).0 ≡ true
unfolding complete
complete_running id bytes n now i j h e r = rw (e, complete) (rw (r, complete) refl)

-- A job that has a result is completed.
pub status_of_result :
    (id : ℤ) (ok : Bool) (h : Handler) (r : Option (List ℕ) × ℕ)
    → get_result id ok h ≡ some r
    → (status : JobStatus) × (get_status id h ≡ some status) × (same_status status completed ≡ true)
unfolding get_result get_status
status_of_result id ok h r e = elim (Option-cases (find_job_by_id h id)) [
  | inl f ↦ absurd (ground arith)
  | inr ((i, j), f) ↦ elim (Bool-cases (same_status j.status completed)) [
    | inl c ↦ (j.status, rw (f, get_status) refl, c)
    | inr c ↦ absurd (ground arith)
  ]
]
