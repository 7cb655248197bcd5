-- ===== src/WorkerManager/Tests.antt =====
-- Runs of the worker manager, and the theorems at concrete inputs.
use c_simples.Prelude.{
  ◌≤◌, ℕ, ◌≡◌, ◌↔◌, refl, ◌⊎◌, none, some, List, [], ◌∷◌, pos, negsuc, count_if, inc, dec,
}
use c_simples.WorkerManager.{
  Manager, Worker, Call, empty_worker, socket_loop, complete_job, assign_job, register,
  find_free_worker_slot, find_loop, available_loop, registers, assigns_job, completes_job, init,
  run, step, find_available, find_by_socket, get_stats, supports, find_worker_by_id,
}
use c_simples.WorkerManager.Table.{Holds}
use c_simples.WorkerManager.Invariant.{IsSound, init-IsSound, run-IsSound}
use c_simples.WorkerManager.Statistics.{Counted, idlers, toilers}
use c_simples.WorkerManager.Lawful.{Lawful}
use c_simples.WorkerManager.Drift.{step-Counted-Lawful}
use c_simples.WorkerManager.Available.{CanDo, find_available_lem}

abbrev unset : Manager
unset = record {
  workers = [];
  next_worker_id = 1;
  stats = record { total_workers = pos 0; idle_workers = pos 0; busy_workers = pos 0 };
}

-- Room for two workers, each with up to two job types.
abbrev empty_table : Manager
empty_table = record unset { workers = empty_worker 2 ∷ empty_worker 2 ∷ [] }

abbrev arrivals : List Call
arrivals =
    registers (pos 7) (some (49 ∷ [])) (pos 80) (some (pos 3 ∷ pos 4 ∷ [])) (pos 2) 1000
    ∷ registers (pos 8) (some (50 ∷ [])) (pos 81) (some (pos 4 ∷ [])) (pos 1) 2000
    ∷ assigns_job (pos 1) (pos 5)
    ∷ completes_job (pos 1) (pos 12)
    ∷ []

abbrev staffed : Manager
staffed = run 2 empty_table arrivals

sockets : (find_by_socket (pos 8) staffed ≡ pos 2) × (find_by_socket (pos 9) staffed ≡ negsuc 0)
unfolding find_by_socket socket_loop run step complete_job find_worker_by_id assign_job register
    find_free_worker_slot find_loop inc dec
sockets = (refl, refl)

statistics : get_stats staffed ≡ (pos 2, pos 2, pos 0)
unfolding get_stats run step complete_job find_worker_by_id assign_job register
    find_free_worker_slot find_loop inc dec
statistics = refl

table-IsSound : IsSound empty_table
unfolding init
table-IsSound = init-IsSound 2 1 unset refl

run-IsSound_example : IsSound (run 2 empty_table arrivals)
run-IsSound_example = run-IsSound 2 arrivals empty_table table-IsSound

staffed-Counted : Counted staffed
unfolding Counted count_if run step complete_job find_worker_by_id assign_job register
    find_free_worker_slot find_loop inc dec
staffed-Counted idlers = refl
staffed-Counted toilers = refl

step-Counted-Lawful_example :
    Counted (step 2 staffed (completes_job (pos 1) (pos 3)))
    ↔ Lawful staffed (completes_job (pos 1) (pos 3))
step-Counted-Lawful_example =
    step-Counted-Lawful 2 (completes_job (pos 1) (pos 3)) staffed run-IsSound_example.some_number
      staffed-Counted

find_available_lem_example :
    ((find_available (pos 4) staffed ≡ none)
      × ((i : ℕ) (w : Worker) → Holds staffed.workers i w → ¬ CanDo (pos 4) w))
    ⊎ ((i : ℕ) × (w : Worker) × (find_available (pos 4) staffed ≡ some w.worker_id)
        × Holds staffed.workers i w
        × CanDo (pos 4) w
        × ((k : ℕ) (v : Worker)
            → Holds staffed.workers k v
            → CanDo (pos 4) v
            → w.job_count ≤ v.job_count))
find_available_lem_example = find_available_lem (pos 4) staffed

least_loaded : find_available (pos 4) staffed ≡ some 2
unfolding find_available available_loop supports run step complete_job find_worker_by_id assign_job
    register find_free_worker_slot find_loop inc dec
least_loaded = refl
