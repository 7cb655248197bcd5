-- ===== src/Server/Sessions.antt =====
-- server.c: the connections of clients and workers, among the events of the other threads.
use c_simples.Prelude.{ℕ, ℤ, ◌<◌, Bool, true, false, if◌then◌else◌, List, [], ◌∷◌, All, refl}
use c_simples.JobHandler.{Limits}
use c_simples.Server.{System, ClientMessage, WorkerMessage, Answers, Outcome}
use c_simples.Server.Events.{
  Received, peer_closed, receive_failed, message, Round, Session, run, client_sends, worker_sends,
  worker_leaves, step, after_handler, client_receives, worker_receives, client_loop, worker_loop,
  handle_client_connection, handle_worker_connection,
}
use c_simples.Server.Consistency.{
  Reached, start, Reached-trans, step-Reached, run-Reached, IsConsistent, Reached-IsConsistent,
  Keeps,
}

module _ (max_job_types : ℕ) (limits : Limits) where
  abbrev To : System → System → Type 0
  To s s' = Reached max_job_types limits s s'

  handled-To :
      (s : System) (rest : System → Session) (o : Outcome)
      → ((u : System) → To u (rest u).system)
      → To s o.2
      → To s (after_handler rest o).system
  handled-To s rest (false, out, u) h t = t
  handled-To s rest (true, out, u) h t = Reached-trans max_job_types limits t (h u)

  client_receives-To :
      (socket : ℤ) (a : Answers) (rest : System → Session) (s : System) (r : Received ClientMessage)
      → ((u : System) → To u (rest u).system)
      → To s (client_receives max_job_types limits socket a rest s r).system
  unfolding step
  client_receives-To socket a rest s peer_closed h = start
  client_receives-To socket a rest s receive_failed h = start
  client_receives-To socket a rest s (message msg) h =
      handled-To s rest _ h (step-Reached max_job_types limits s (client_sends a socket msg) refl)

  worker_receives-To :
      (socket : ℤ) (a : Answers) (rest : System → Session) (s : System) (r : Received WorkerMessage)
      → ((u : System) → To u (rest u).system)
      → To s (worker_receives max_job_types limits socket a rest s r).system
  unfolding step
  worker_receives-To socket a rest s peer_closed h =
      step-Reached max_job_types limits s (worker_leaves socket) refl
  worker_receives-To socket a rest s receive_failed h = start
  worker_receives-To socket a rest s (message msg) h =
      handled-To s rest _ h (step-Reached max_job_types limits s (worker_sends a socket msg) refl)

  -- No other thread cleans up in the round.
  abbrev pub Quiet : {M : Type 0} → Round M → Type 0
  Quiet r = All Keeps r.before × All Keeps r.meanwhile

  -- A round, after what the other threads do in it.
  round-To :
      {M : Type 0} (s : System) (r : Round M) (b : Bool) (next over : Session)
      → Quiet r
      → To (run max_job_types limits (run max_job_types limits s r.before) r.meanwhile) next.system
      → To (run max_job_types limits s r.before) over.system
      → To s (if b then next else over).system
  round-To s r true next over q n o =
      Reached-trans max_job_types limits (run-Reached max_job_types limits s r.before q.0) (
        Reached-trans max_job_types limits
          (run-Reached max_job_types limits (run max_job_types limits s r.before) r.meanwhile q.1)
          n)
  round-To s r false next over q n o =
      Reached-trans max_job_types limits (run-Reached max_job_types limits s r.before q.0) o

  client_loop-To :
      (socket : ℤ) (rounds : List (Round ClientMessage)) (s : System)
      → All Quiet rounds
      → To s (client_loop max_job_types limits socket rounds s).system
  unfolding client_loop
  client_loop-To socket [] s q = start
  client_loop-To socket (r ∷ rs) s q =
      let u = run max_job_types limits s r.before in
      round-To s r u.is_running _ _ q.0
        (client_receives-To socket r.answers (client_loop max_job_types limits socket rs)
          (run max_job_types limits u r.meanwhile) r.received (λ v. client_loop-To socket rs v q.1))
        start

  worker_loop-To :
      (socket : ℤ) (rounds : List (Round WorkerMessage)) (s : System)
      → All Quiet rounds
      → To s (worker_loop max_job_types limits socket rounds s).system
  unfolding worker_loop
  worker_loop-To socket [] s q = start
  worker_loop-To socket (r ∷ rs) s q =
      let u = run max_job_types limits s r.before in
      round-To s r u.is_running _ _ q.0
        (worker_receives-To socket r.answers (worker_loop max_job_types limits socket rs)
          (run max_job_types limits u r.meanwhile) r.received (λ v. worker_loop-To socket rs v q.1))
        start

  client_connection-To :
      (sent : Bool) (socket : ℤ) (rounds : List (Round ClientMessage)) (s : System)
      → All Quiet rounds
      → To s (handle_client_connection max_job_types limits sent socket rounds s).system
  unfolding handle_client_connection
  client_connection-To true socket rounds s q = client_loop-To socket rounds s q
  client_connection-To false socket rounds s q = start

  worker_connection-To :
      (sent : Bool) (socket : ℤ) (rounds : List (Round WorkerMessage)) (s : System)
      → All Quiet rounds
      → To s (handle_worker_connection max_job_types limits sent socket rounds s).system
  unfolding handle_worker_connection
  worker_connection-To true socket rounds s q = worker_loop-To socket rounds s q
  worker_connection-To false socket rounds s q = start

  -- A connection of a client and one of a worker, of any number of rounds and ended in any way, with
  -- any events of the other threads but the clean-up of `server_stop` in each round, leave the job table valid and the worker numbers
  -- distinct, below the next number and counted by the total, if they were so at its start and
  -- `MAX_JOB_RETRIES` is positive.
  pub connections-IsConsistent :
      (sent : Bool) (socket : ℤ) (clients : List (Round ClientMessage))
      (workers : List (Round WorkerMessage)) (s : System)
      → All Quiet clients
      → All Quiet workers
      → 0 < limits.max_retries
      → IsConsistent max_job_types limits s
      → IsConsistent max_job_types limits
          (handle_client_connection max_job_types limits sent socket clients s).system
        × IsConsistent max_job_types limits
            (handle_worker_connection max_job_types limits sent socket workers s).system
  connections-IsConsistent sent socket clients workers s qc qw p v = (
    Reached-IsConsistent max_job_types limits p (client_connection-To sent socket clients s qc) v,
    Reached-IsConsistent max_job_types limits p (worker_connection-To sent socket workers s qw) v,
  )
