-- ===== src/CentralServer/Tests.antt =====
-- The central server with one worker and one task, and its theorems there.
use c_simples.Prelude.{ℕ, ◌≡◌, refl, true, false, none, some, List, [], ◌∷◌, arith, pos, All}
use c_simples.TaskManager.{Task, TaskInfo, new_info, get_task, handed_to, find_loop}
use c_simples.TaskManager.Invariant.{Holds}
use c_simples.WorkerRegistry
use c_simples.WorkerRegistry.{WorkerInfo, Registry, new_worker, get, idle, busy}
use c_simples.CentralServer.{
  Server, TaskResult, Event, heartbeat, result_arrives, task_message, assign_task_to_worker, run,
}
use c_simples.CentralServer.Results.{IsUnreported, run-IsUnreported}
use c_simples.CentralServer.Assignment.{assign_task_to_worker_lem}

abbrev task : Task
task = record {
  task_id = 1;
  input_data = 5 ∷ 6 ∷ [];
  output_data = [];
  input_size = 0;
  output_size = 0;
}

abbrev worker : WorkerInfo
worker = new_worker 1 (pos 7) 71 100

abbrev server : Server
server = record {
  registry = record { workers = worker ∷ []; capacity = 100 };
  manager = record {
    tasks = new_info task 90 ∷ [];
    capacity = 1000;
    next_task_id = 2;
    task_queue = record {
      buffer = some task ∷ none ∷ [];
      capacity = 2;
      size = 1;
      head = 0;
      tail = 1;
    };
  };
}

server-Holds : Holds server.manager (task ∷ [])
unfolding find_loop
server-Holds = record {
  queue = record {
    valid = record {
      array = refl;
      nonempty = omega arith;
      word = omega arith;
      head_in = omega arith;
      size_in = omega arith;
      tail_at = refl;
    };
    held = refl;
  };
  numbers = (omega arith, omega arith);
  fits = omega arith;
  listed = ((new_info task 90, refl, refl), tt);
}

worker_found : get 1 server.registry ≡ some worker
unfolding get WorkerRegistry.find_loop
worker_found = refl

assign_task_to_worker_lem_example :
    let (ok, messages, s') = assign_task_to_worker 1 false 120 server in
    (x : Task) × (rest : List Task) × (t : TaskInfo) × (task ∷ [] ≡ x ∷ rest)
    × (ok ≡ false)
    × (messages ≡ task_message (pos 7) x.task_id x.input_data ∷ [])
    × Holds s'.manager rest
    × (get_task (some s'.manager) x.task_id ≡ some (handed_to 1 120 t))
    × (t.task ≡ x)
    × (get 1 s'.registry ≡ some (record worker { status = idle }))
assign_task_to_worker_lem_example =
    assign_task_to_worker_lem 1 false 120 server worker (task ∷ []) worker_found refl server-Holds
      (omega arith)

-- A result of 12 bytes, of which the first is the number of the task.
abbrev decode : List ℕ → TaskResult
decode [] = record { task_id = 0; status = 1; exec_time_ms = 0 }
decode (id ∷ bytes) = record { task_id = id; status = 0; exec_time_ms = 3 }

abbrev result_bytes : List (List ℕ)
result_bytes = (1 ∷ 0 ∷ 0 ∷ 0 ∷ 0 ∷ 0 ∷ 0 ∷ 0 ∷ 3 ∷ 0 ∷ 0 ∷ 0 ∷ []) ∷ []

abbrev events : List Event
events = heartbeat 1 (pos 7) 120 true ∷ result_arrives 1 (pos 7) result_bytes 130 true ∷ []

run-IsUnreported_example : All IsUnreported (run decode server events).manager.tasks
run-IsUnreported_example = run-IsUnreported decode events server (refl, tt)
