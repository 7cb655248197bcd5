-- ===== src/Worker/Tests.antt =====
-- The jobs and the session of a worker at concrete inputs.
use c_simples.Prelude.{Pointwise, ℕ, ◌≡◌, refl, true, false, some, none, List, [], ◌∷◌, pos}
use c_simples.Worker.{
  JobTypes, process_job, fill_loop, Session, init, ConnectEnv, RegisterEnv, connect_ack, registered,
  stop, disconnect_from_server, reconnect, join, connect_to_server, register,
}
use c_simples.Worker.Threads.{
  Beat, heartbeat_thread, send_heartbeat, Round, job_assigned, Turn, Tally, job_thread, request_job,
  job_request, job_completed, job_failed, send_job_completion, send_job_failure,
}
use c_simples.Worker.Heartbeats.{held, all_opened, Balanced, heartbeat_thread-Balanced}
use c_simples.Worker.Counts.{jobs_taken, Counted, job_thread-Counted}
use c_simples.Worker.Jobs.{backwards, Uppercased, process_job_lem}

abbrev types : JobTypes
types = record { echo = pos 1; reversal = pos 2; uppercase = pos 3 }

abbrev text : List ℕ
text = 97 ∷ 66 ∷ 122 ∷ []

shouted : process_job types (pos 3) text 3 true ≡ some (65 ∷ 66 ∷ 90 ∷ [])
unfolding process_job fill_loop
shouted = refl

unknown_type : process_job types (pos 4) text 3 true ≡ none
unfolding process_job
unknown_type = refl

process_job_lem_example :
    (process_job types (pos 1) text 3 true ≡ some text)
    × (process_job types (pos 2) text 3 true ≡ some (backwards text))
    × ((result : List ℕ) × (process_job types (pos 3) text 3 true ≡ some result)
        × Pointwise Uppercased text result)
process_job_lem_example = process_job_lem types text refl refl refl

abbrev line : ConnectEnv
line = record {
  socket = some 5;
  address_ok = true;
  connect_ok = true;
  sent = true;
  reply = connect_ack;
}

abbrev welcome : RegisterEnv
welcome = record { sent = true; reply = registered 3 }

abbrev at_work : Session
at_work = record {
  worker_id = pos 3;
  server_socket = pos 5;
  is_running = true;
  is_connected = true;
}

stopped_cleanly : stop at_work ≡ (true, 5 ∷ [], record init { worker_id = pos 3 })
unfolding stop disconnect_from_server
stopped_cleanly = refl

-- A heartbeat that is answered, and one that is not, with a new session after it.
abbrev answered_beat : Beat
answered_beat = record {
  is_running = true;
  ack = record { sent = true; acked = true };
  connect_env = line;
  register_env = welcome;
}

abbrev lost_beat : Beat
lost_beat = record answered_beat {
  ack = record { sent = true; acked = false };
  connect_env = record line { socket = some 6 };
}

heartbeat_thread-Balanced_example :
    Balanced
      (held at_work)
      (all_opened (answered_beat ∷ lost_beat ∷ []) at_work)
      (heartbeat_thread (answered_beat ∷ lost_beat ∷ []) at_work)
heartbeat_thread-Balanced_example =
    heartbeat_thread-Balanced (answered_beat ∷ lost_beat ∷ []) at_work

closes_old : (heartbeat_thread (answered_beat ∷ lost_beat ∷ []) at_work).0 ≡ 5 ∷ []
unfolding heartbeat_thread send_heartbeat reconnect join connect_to_server register
    disconnect_from_server
closes_old = refl

-- A job whose result is acknowledged, and one of a type that is not known.
abbrev good_round : Round
good_round = record {
  session = at_work;
  sent = true;
  answer = job_assigned (pos 11) (pos 3) text 3;
  allocated = true;
  processing_time = pos 40;
  later = at_work;
  report = record { sent = true; acked = true };
}

abbrev turns : List Turn
turns =
    record { is_running = true; is_connected = true; round = good_round }
    ∷ record {
      is_running = true;
      is_connected = true;
      round = record good_round { answer = job_assigned (pos 12) (pos 9) text 3 };
    }
    ∷ []

abbrev at_first : Tally
at_first = record { jobs_processed = 0; jobs_failed = 0; total_processing_time_ms = pos 0 }

job_thread-Counted_example :
    Counted at_first
      (jobs_taken turns)
      (job_thread types turns at_first).0
      (job_thread types turns at_first).1
job_thread-Counted_example = job_thread-Counted types turns at_first

messages_sent :
    (job_thread types turns at_first).0
    ≡ job_request (pos 3)
      ∷ job_completed (pos 3) (pos 11) (65 ∷ 66 ∷ 90 ∷ []) 3 (pos 40)
      ∷ job_request (pos 3)
      ∷ job_failed (pos 3) (pos 12)
      ∷ []
unfolding job_thread request_job process_job fill_loop send_job_completion send_job_failure
messages_sent = refl
