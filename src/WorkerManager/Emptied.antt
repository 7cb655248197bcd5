-- ===== src/WorkerManager/Emptied.antt =====
-- worker_manager.c: the calls on a table that has been cleaned up.
use c_simples.Prelude.{
  ℕ, ℤ, zero, suc, pos, negsuc, ◌≡◌, refl, ap, ◌∙◌, inl, inr, Bool-cases, ltb, none, some, [],
}
use c_simples.WorkerManager.{
  Manager, Call, registers, unregisters, updates_status, updates_heartbeat, assigns_job,
  completes_job, fails_job, checks_inactive, step, register, types_fit, find_free_worker_slot,
  unregister, update_status, update_heartbeat, assign_job, complete_job, fail_job, check_inactive,
  check_loop, find_worker_by_id, find_loop,
}

abbrev no_workers : Manager → Manager
no_workers m = record m { workers = [] }

find_nothing : (m : Manager) (id : ℤ) → find_worker_by_id (no_workers m) id ≡ none
unfolding find_worker_by_id find_loop
find_nothing m (negsuc n) = refl
find_nothing m (pos zero) = refl
find_nothing m (pos (suc n)) = elim (Bool-cases (ltb (suc n) m.next_worker_id)) [
  | inl e ↦ rw e refl
  | inr e ↦ rw e refl
]

no_workers-step : (k : ℕ) (m : Manager) (c : Call) → (step k (no_workers m) c).workers ≡ []
unfolding step register find_free_worker_slot unregister update_status update_heartbeat assign_job
    complete_job fail_job check_inactive check_loop
no_workers-step k m (registers socket none port types n now) = refl
no_workers-step k m (registers socket (some ip) port none n now) = refl
no_workers-step k m (registers socket (some ip) port (some types) n now) =
    elim (Bool-cases (types_fit k n)) [
      | inl e ↦ rw (e, step, register) refl
      | inr e ↦ rw (e, step, register) refl
    ]
no_workers-step k m (unregisters id) = rw (find_nothing m id, step, unregister) refl
no_workers-step k m (updates_status id status) = rw (find_nothing m id, step, update_status) refl
no_workers-step k m (updates_heartbeat id now) = rw (find_nothing m id, step, update_heartbeat) refl
no_workers-step k m (assigns_job id job_id) = rw (find_nothing m id, step, assign_job) refl
no_workers-step k m (completes_job id ms) = rw (find_nothing m id, step, complete_job) refl
no_workers-step k m (fails_job id) = rw (find_nothing m id, step, fail_job) refl
no_workers-step k m (checks_inactive limit now) = refl

-- No call puts a worker into an empty table.
pub step-empty : (k : ℕ) (m : Manager) (c : Call) → m.workers ≡ [] → (step k m c).workers ≡ []
step-empty k m c e =
    ap (λ ws. (step k (record m { workers = ws }) c).workers) e ∙ no_workers-step k m c
