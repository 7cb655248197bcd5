-- ===== src/TaskManager/Tests.antt =====
-- Runs of the task manager, and its theorems at concrete inputs.
use c_simples.Prelude.{refl, ◌⊎◌, none, some, List, [], ◌∷◌, arith}
use c_simples.RingBuffer.{RingBuffer}
use c_simples.TaskManager.{
  Task, Manager, create_task, new_task, Call, creates, gets_next, assigns, processes, checks, run,
}
use c_simples.TaskManager.Invariant.{Holds, Accepts, Created, Refused, create_task_lem}
use c_simples.TaskManager.Calls.{run-Holds}

abbrev queue : RingBuffer Task
queue = record { buffer = none ∷ none ∷ []; capacity = 2; size = 0; head = 0; tail = 0 }

abbrev empty_manager : Manager
empty_manager = record { tasks = []; capacity = 3; next_task_id = 1; task_queue = queue }

-- What `malloc` happens to return.
abbrev garbage : Task
garbage = record {
  task_id = 77;
  input_data = 9 ∷ 9 ∷ 9 ∷ [];
  output_data = [];
  input_size = 55;
  output_size = 66;
}

empty_manager-Holds : Holds empty_manager []
empty_manager-Holds = record {
  queue = record {
    valid = record {
      array = refl;
      nonempty = omega arith;
      word = omega arith;
      head_in = omega arith;
      size_in = omega arith;
      tail_at = refl;
    };
    held = refl;
  };
  numbers = omega arith;
  fits = omega arith;
  listed = tt;
}

create_task_lem_example :
    ((block : Task) × Accepts empty_manager [] 2 (some garbage) block
      × Created
          (new_task 1 (5 ∷ 6 ∷ []) 2 block)
          1000
          empty_manager
          []
          (create_task (some (5 ∷ 6 ∷ [])) 2 (some garbage) 1000 empty_manager))
    ⊎ (((block : Task) → Accepts empty_manager [] 2 (some garbage) block → ⊥)
        × Refused empty_manager []
            (create_task (some (5 ∷ 6 ∷ [])) 2 (some garbage) 1000 empty_manager))
create_task_lem_example =
    create_task_lem (5 ∷ 6 ∷ []) 2 (some garbage) 1000 empty_manager [] (omega arith)
      empty_manager-Holds

abbrev calls : List Call
calls =
    creates (some (5 ∷ 6 ∷ [])) 2 (some garbage) 1000
    ∷ gets_next
    ∷ assigns 1 4 1001
    ∷ checks 10 1005
    ∷ processes 1 0 3 1006
    ∷ []

run-Holds_example : (q : List Task) × Holds (run empty_manager calls) q
run-Holds_example = run-Holds calls empty_manager [] (omega arith) empty_manager-Holds

abbrev nothing : List Task
nothing = []
