-- ===== src/WorkerServer/Tests.antt =====
-- The worker server at concrete inputs.
use c_simples.Prelude.{
  ℕ, ◌≡◌, refl, true, false, not, ◌&&◌, ◌==◌, if◌then◌else◌, Option, none, some, [], ◌∷◌, replicate,
}
use c_simples.WorkerServer.{
  Header, register_response, task, Round, main_loop, send_heartbeat, send_task_result,
  connect_to_server, connect_loop, register_with_server,
}
use c_simples.WorkerServer.Registration.{response, or_else, register_with_server_lem}
use c_simples.WorkerServer.Tasks.{main_loop-no_results}
use c_simples.WorkerServer.Locking.{is_paired, is_task, socket_mutex_lem}

-- Each response names a number, and comes in time or not.
abbrev late : ℕ → Option Header
late k = if k == 2 then some (record { message_type = register_response; client_id = 7 }) else none

register_with_server_lem_example :
    register_with_server true late
    ≡ (if true then or_else (response (late 0)) (response (late 1)) else none)
register_with_server_lem_example = register_with_server_lem true late

too_late : register_with_server true late ≡ none
too_late = register_with_server_lem true late

abbrev third_time : ℕ → Option ℕ
third_time k = if k == 2 then some 5 else none

connected : connect_to_server (λ k. true) third_time ≡ some 5
unfolding connect_to_server connect_loop
connected = refl

-- A task of which every byte arrives.
abbrev whole_task : Round
whole_task = record {
  running = true;
  header = some (record { message_type = task; client_id = 3 });
  interrupted = false;
  reads = replicate 2060 1 ∷ [];
  elapsed_ms = 1200;
  sent = true;
  ack = none;
}

main_loop-no_results_example : (main_loop (whole_task ∷ [])).0 ≡ []
main_loop-no_results_example = main_loop-no_results (whole_task ∷ [])

socket_mutex_lem_example :
    (is_paired (main_loop (whole_task ∷ [])).1 ≡ true)
    × (is_paired (send_task_result true whole_task.header).1 ≡ true)
    × (is_paired (send_heartbeat true whole_task.header).1
        ≡ not (true && is_task whole_task.header))
socket_mutex_lem_example = socket_mutex_lem (whole_task ∷ []) true whole_task.header
