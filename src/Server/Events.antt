-- ===== src/Server/Events.antt =====
-- server.c and server_main.c: what the threads of the server do one after the other, and the loops of
-- its connections.
use c_simples.Prelude.{ℕ, ℤ, pos, negsuc, Bool, true, false, if◌then◌else◌, List, [], ◌∷◌, ◌++◌}
use c_simples.JobHandler
use c_simples.JobHandler.{Limits}
use c_simples.WorkerManager
use c_simples.WorkerManager.{Manager}
use c_simples.Server.{
  System, ClientMessage, WorkerMessage, Response, Packet, response_to, client_connect_ack,
  worker_connect_ack, Answers, Outcome, handle_client_message, handle_worker_message,
}

-- One step of some thread.
pub data Event : Type 0 where
  client_sends : Answers → ℤ → ClientMessage → Event
  worker_sends : Answers → ℤ → WorkerMessage → Event
  worker_leaves : ℤ → Event
  main_checks : ℕ → ℕ → Event
  clears_running cleans_up : Event

-- `server_stop` in two steps, between which it closes the socket and waits for the accept thread: its
-- first critical section, and the end, in which it cleans up both tables. It takes the second one only if the
-- flag was set before the first.
abbrev pub clear_running : System → System
clear_running s = record s { is_running = false }

abbrev pub clean_up : System → System
clean_up s = record s {
  jobs = (JobHandler.cleanup s.jobs).1;
  workers = WorkerManager.cleanup s.workers;
}

-- Whether an event is the end of `server_stop`.
abbrev pub is_clean_up : Event → Bool
is_clean_up cleans_up = true
is_clean_up _ = false

-- What `receive_message` reports.
pub data Received {ℓ} (M : Type ℓ) : Type ℓ where
  peer_closed receive_failed : Received M
  message : M → Received M

-- A round of the loop of a connection: what other threads do before `is_running` is read and then
-- before the message is handled, and what the environment answers.
pub record Round (M : Type 0) : Type 0 where
  pub before : List Event
  pub meanwhile : List Event
  pub received : Received M
  pub answers : Answers

-- A connection that has ended, with the value that its thread returns, or that waits for a message.
pub record Session : Type 0 where
  pub ended : Bool
  pub result : ℤ
  pub packets : List Packet
  pub system : System

abbrev pub over : System → Session
over s = record { ended = true; result = pos 0; packets = []; system = s }

-- The loop goes on, or ends after a handler that returned -1.
abbrev pub after_handler : (System → Session) → Outcome → Session
after_handler rest (false, out, s) = record (over s) { packets = out }
after_handler rest (true, out, s) =
    let next = rest s in record next { packets = out ++ next.packets }

module _ (max_job_types : ℕ) (limits : Limits) where
  -- The end of a worker that has disconnected, in `handle_worker_connection`.
  abbrev pub unregister_found : ℤ → Manager → Manager
  unregister_found (negsuc n) m = m
  unregister_found (pos n) m = (WorkerManager.unregister max_job_types (pos n) m).1

  unfoldable pub forget_worker : ℤ → System → System
  forget_worker socket s = record s {
    workers = unregister_found (WorkerManager.find_by_socket socket s.workers) s.workers;
  }

  -- The two checks in a round of the main loop of the program.
  unfoldable pub check_all : ℕ → ℕ → System → System
  check_all now later s = record s {
    jobs = (JobHandler.check_timeouts limits now s.jobs).2;
    workers = (WorkerManager.check_inactive (pos 60) later s.workers).1;
  }

  unfoldable pub step : System → Event → System
  step s (client_sends a socket msg) = (handle_client_message a socket msg s).2
  step s (worker_sends a socket msg) = (handle_worker_message max_job_types limits a socket msg s).2
  step s (worker_leaves socket) = forget_worker socket s
  step s (main_checks now later) = check_all now later s
  step s clears_running = clear_running s
  step s cleans_up = clean_up s

  unfoldable pub run : System → List Event → System
  run s [] = s
  run s (e ∷ es) = run (step s e) es

  -- A message of a client, received in its thread.
  abbrev pub client_receives :
      ℤ → Answers → (System → Session) → System → Received ClientMessage → Session
  client_receives socket a rest s peer_closed = over s
  client_receives socket a rest s receive_failed = over s
  client_receives socket a rest s (message msg) =
      after_handler rest (handle_client_message a socket msg s)

  -- The loop of `handle_client_connection`.
  unfoldable pub client_loop : ℤ → List (Round ClientMessage) → System → Session
  client_loop socket [] s = record { ended = false; result = pos 0; packets = []; system = s }
  client_loop socket (r ∷ rs) s =
      let s1 = run s r.before in
      let next =
        client_receives socket r.answers (client_loop socket rs) (run s1 r.meanwhile) r.received in
      if s1.is_running then next else over s1

  -- A message of a worker, received in its thread.
  abbrev pub worker_receives :
      ℤ → Answers → (System → Session) → System → Received WorkerMessage → Session
  worker_receives socket a rest s peer_closed = over (forget_worker socket s)
  worker_receives socket a rest s receive_failed = over s
  worker_receives socket a rest s (message msg) =
      after_handler rest (handle_worker_message max_job_types limits a socket msg s)

  -- The loop of `handle_worker_connection`.
  unfoldable pub worker_loop : ℤ → List (Round WorkerMessage) → System → Session
  worker_loop socket [] s = record { ended = false; result = pos 0; packets = []; system = s }
  worker_loop socket (r ∷ rs) s =
      let s1 = run s r.before in
      let next =
        worker_receives socket r.answers (worker_loop socket rs) (run s1 r.meanwhile) r.received in
      if s1.is_running then next else over s1

  -- The acknowledgment, and the loop if it is sent.
  abbrev pub acknowledged : Bool → ℤ → Response → System → Session → Session
  acknowledged false socket ack s rest = record {
    ended = true;
    result = negsuc 0;
    packets = response_to socket ack ∷ [];
    system = s;
  }
  acknowledged true socket ack s rest = record rest {
    packets = response_to socket ack ∷ rest.packets;
  }

  -- `handle_client_connection` for the socket that was accepted.
  unfoldable pub handle_client_connection : Bool → ℤ → List (Round ClientMessage) → System → Session
  handle_client_connection sent socket rounds s =
      acknowledged sent socket
        (record { message_id = pos 0; peer_id = pos 0; body = client_connect_ack }) s
        (client_loop socket rounds s)

  -- `handle_worker_connection` for the socket that was accepted.
  unfoldable pub handle_worker_connection : Bool → ℤ → List (Round WorkerMessage) → System → Session
  handle_worker_connection sent socket rounds s =
      acknowledged sent socket
        (record { message_id = pos 0; peer_id = pos 0; body = worker_connect_ack }) s
        (worker_loop socket rounds s)
