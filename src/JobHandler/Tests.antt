-- ===== src/JobHandler/Tests.antt =====
-- Runs of the job handler at concrete inputs.
use c_simples.Prelude.{
  ℕ, ◌+◌, ◌≤◌, ◌≡◌, refl, true, none, some, List, [], ◌∷◌, arith, length, pos, negsuc, inc, dec,
}
use c_simples.JobHandler.{
  Job, Handler, Limits, Stats, init, submit, assign, assign_begin, assign_rollback, check_timeouts,
  step, run, empty_job, Call, submits, assigns, fails, checks, find_free_job_slot, oldest_loop,
  sweep, sweep_job, new_job, taken, complete, completed, pending, assign_message,
}
use c_simples.JobHandler.Invariant.{IsValid}
use c_simples.JobHandler.Moves.{IsWaiting}
use c_simples.JobHandler.Table.{At}
use c_simples.JobHandler.Calls.{run-IsValid, init-IsValid}
use c_simples.JobHandler.Lifecycle.{Later, run-Later, submit_exhausted}
use c_simples.JobHandler.Schedule.{assign_begin_oldest}
use c_simples.JobHandler.Races.{assign-complete_races}

abbrev limits : Limits
limits = record { max_retries = 3; timeout_error = negsuc 19 }

abbrev no_stats : Stats
no_stats = record {
  pending_jobs = pos 0;
  running_jobs = pos 0;
  completed_jobs = pos 0;
  failed_jobs = pos 0;
}

-- The globals as the program starts.
abbrev start : Handler
start = record { jobs = []; timeout_seconds = pos 0; next_job_id = 1; stats = no_stats }

abbrev two_entries : Handler
two_entries = record {
  jobs = empty_job ∷ empty_job ∷ [];
  timeout_seconds = pos 5;
  next_job_id = 1;
  stats = no_stats;
}

abbrev text : List ℕ
text = 104 ∷ 105 ∷ []

abbrev first_job : Job
first_job = new_job 1 (pos 7) (pos 2) (some text) 2 1000

-- One job waits.
abbrev one_waiting : Handler
one_waiting = record two_entries {
  jobs = first_job ∷ empty_job ∷ [];
  next_job_id = 2;
  stats = record no_stats { pending_jobs = pos 1 };
}

-- A worker on socket 9 has it.
abbrev one_running : Handler
one_running = record two_entries {
  jobs = taken first_job (pos 9) 1100 ∷ empty_job ∷ [];
  next_job_id = 2;
  stats = record no_stats { running_jobs = pos 1 };
}

abbrev submit_first : Call
submit_first = submits (pos 7) (pos 2) (some text) 2 true 1000

abbrev submit_second : Call
submit_second = submits (pos 7) (pos 1) none 0 true 900

submit_runs : run limits two_entries (submit_first ∷ []) ≡ one_waiting
unfolding run step submit find_free_job_slot inc
submit_runs = refl

assign_runs : run limits one_waiting (assigns (pos 9) true 1100 ∷ []) ≡ one_running
unfolding run step assign oldest_loop inc dec
assign_runs = refl

-- An attempt that takes longer than five seconds goes back into the queue.
timeout_runs : (check_timeouts limits 6101 one_running).0 ≡ 1
unfolding check_timeouts sweep sweep_job
timeout_runs = refl

two_entries-IsValid : IsValid limits two_entries
unfolding init
two_entries-IsValid = (init-IsValid limits (pos 2) (pos 5) true start refl refl refl refl refl).0

run-IsValid_example : IsValid limits one_waiting
unfolding run step submit find_free_job_slot inc
run-IsValid_example =
    run-IsValid limits (omega arith) two_entries (submit_first ∷ []) two_entries-IsValid

one_waiting-IsValid : IsValid limits one_waiting
unfolding run step submit find_free_job_slot inc
one_waiting-IsValid =
    run-IsValid limits (omega arith) two_entries (submit_first ∷ []) two_entries-IsValid

one_running-IsValid : IsValid limits one_running
unfolding run step assign oldest_loop inc dec
one_running-IsValid =
    run-IsValid limits (omega arith) one_waiting (assigns (pos 9) true 1100 ∷ [])
      one_waiting-IsValid

both-IsValid : IsValid limits (run limits one_waiting (submit_second ∷ []))
both-IsValid = run-IsValid limits (omega arith) one_waiting (submit_second ∷ []) one_waiting-IsValid

both_full :
    (run limits one_waiting (submit_second ∷ [])).next_job_id
    ≡ length (run limits one_waiting (submit_second ∷ [])).jobs + 1
unfolding run step submit find_free_job_slot
both_full = refl

abbrev both : Handler
both = record two_entries {
  jobs = first_job ∷ new_job 2 (pos 7) (pos 1) none 0 900 ∷ [];
  next_job_id = 3;
  stats = record no_stats { pending_jobs = pos 2 };
}

run-Later_example :
    (j' : Job) × At
      (run limits one_running (fails (pos 1) (pos 5) 1200 ∷ checks 9000 ∷ [])).jobs
      0
      j'
    × Later (taken first_job (pos 9) 1100) j'
run-Later_example =
    run-Later limits one_running (fails (pos 1) (pos 5) 1200 ∷ checks 9000 ∷ []) 0
      (taken first_job (pos 9) 1100) (omega arith) one_running-IsValid refl (omega arith)

submit_exhausted_example :
    submit
      (pos 7)
      (pos 1)
      none
      0
      true
      950
      (run limits (run limits one_waiting (submit_second ∷ [])) (assigns (pos 9) true 1100 ∷ []))
    ≡ (
      none,
      run limits (run limits one_waiting (submit_second ∷ [])) (assigns (pos 9) true 1100 ∷ []),
    )
submit_exhausted_example =
    submit_exhausted limits (run limits one_waiting (submit_second ∷ []))
      (assigns (pos 9) true 1100 ∷ []) (pos 7) (pos 1) none 0 true 950 (omega arith) both-IsValid
      both_full

-- The second job is taken, as it was submitted first.
assign_begin_oldest_example :
    (i : ℕ) × (j : Job) × At both.jobs i j
    × IsWaiting j
    × (j.job_id ≡ 2)
    × ((k : ℕ) (j' : Job) → At both.jobs k j' → IsWaiting j' → j.submit_time ≤ j'.submit_time)
unfolding assign_begin oldest_loop
assign_begin_oldest_example = assign_begin_oldest (pos 9) 1100 both _ 2 _ refl

-- The waiting job is taken, and completed before the message to its worker fails.
abbrev begun : Handler
begun = record one_waiting {
  jobs = taken first_job (pos 9) 1100 ∷ empty_job ∷ [];
  stats = record no_stats { running_jobs = pos 1 };
}

begins : assign_begin (pos 9) 1100 one_waiting ≡ some (1, assign_message (pos 9) first_job, begun)
unfolding assign_begin oldest_loop inc dec
begins = refl

assign-complete_races_example :
    let (ok, sent, h2) = complete (pos 1) (some text) 2 true 1200 begun in
    let h3 = assign_rollback (pos 1) h2 in
    (ok ≡ true)
    × IsValid limits h2
    × ((i : ℕ) × (j : Job) × (k : Job) × At h2.jobs i j
        × (j.job_id ≡ 1)
        × (j.status ≡ completed)
        × At h3.jobs i k
        × (k.job_id ≡ 1)
        × (k.status ≡ pending))
    × ¬ IsValid limits h3
assign-complete_races_example =
    assign-complete_races limits one_waiting begun (pos 9) 1100 1200 1
      (assign_message (pos 9) first_job) text 1 (omega arith) one_waiting-IsValid begins
