-- ===== src/JobHandler/Emptied.antt =====
-- job_handler.c: the calls on a table that has been cleaned up.
use c_simples.Prelude.{
  ℕ, ℤ, zero, suc, pos, negsuc, ◌≡◌, refl, ap, ◌∙◌, inl, inr, Bool-cases, ltb, none, Option, Bool,
  List, [],
}
use c_simples.JobHandler.{
  Handler, Limits, missing, Call, submits, assigns, completes, fails, checks, step, submit, assign,
  complete, fail, check_timeouts, sweep, assign_begin, oldest_loop, find_free_job_slot,
  find_job_by_id, find_loop,
}

abbrev no_jobs : Handler → Handler
no_jobs h = record h { jobs = [] }

find_nothing : (h : Handler) (id : ℤ) → find_job_by_id (no_jobs h) id ≡ none
unfolding find_job_by_id find_loop
find_nothing h (negsuc n) = refl
find_nothing h (pos zero) = refl
find_nothing h (pos (suc n)) = elim (Bool-cases (ltb (suc n) h.next_job_id)) [
  | inl e ↦ rw e refl
  | inr e ↦ rw e refl
]

complete_nothing :
    (h : Handler) (id : ℤ) (bytes : Option (List ℕ)) (size : ℕ) (ok : Bool) (now : ℕ)
    → (complete id bytes size ok now (no_jobs h)).2.jobs ≡ []
unfolding complete
complete_nothing h id bytes size ok now = elim (Bool-cases (missing bytes size)) [
  | inl e ↦ rw (e, complete) refl
  | inr e ↦ rw (e, complete, find_nothing h id) refl
]

fail_nothing :
    (limits : Limits) (h : Handler) (id code : ℤ) (now : ℕ)
    → (fail limits id code now (no_jobs h)).2.jobs ≡ []
unfolding fail
fail_nothing limits h id code now = rw (fail, find_nothing h id) refl

submit_nothing :
    (h : Handler) (client job_type : ℤ) (bytes : Option (List ℕ)) (size : ℕ) (ok : Bool) (now : ℕ)
    → (submit client job_type bytes size ok now (no_jobs h)).1.jobs ≡ []
unfolding submit find_free_job_slot
submit_nothing h client job_type bytes size ok now = elim (Bool-cases (missing bytes size)) [
  | inl e ↦ rw (e, submit) refl
  | inr e ↦ rw (e, submit) refl
]

no_jobs-step : (limits : Limits) (h : Handler) (c : Call) → (step limits (no_jobs h) c).jobs ≡ []
unfolding step assign assign_begin oldest_loop check_timeouts sweep
no_jobs-step limits h (submits client job_type bytes size ok now) =
    submit_nothing h client job_type bytes size ok now
no_jobs-step limits h (assigns worker sent now) = refl
no_jobs-step limits h (completes id bytes size ok now) = complete_nothing h id bytes size ok now
no_jobs-step limits h (fails id code now) = fail_nothing limits h id code now
no_jobs-step limits h (checks now) = refl

-- No call puts a job into an empty table.
pub step-empty :
    (limits : Limits) (h : Handler) (c : Call) → h.jobs ≡ [] → (step limits h c).jobs ≡ []
step-empty limits h c e =
    ap (λ js. (step limits (record h { jobs = js }) c).jobs) e ∙ no_jobs-step limits h c
