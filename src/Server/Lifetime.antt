-- ===== src/Server/Lifetime.antt =====
-- server.c: `server_init`, `server_start`, `server_stop` and `server_get_stats`, with the resources that
-- they take and give back.
pub mod Resources
use c_simples.Prelude.{
  ℕ, ℤ, pos, Bool, true, false, if◌then◌else◌, Option, none, some, List, [], ◌∷◌, ◌++◌, not,
}
use c_simples.JobHandler
use c_simples.JobHandler.{Handler}
use c_simples.WorkerManager
use c_simples.WorkerManager.{Manager}
use c_simples.Server.{System}

-- `ServerConfig`
pub record ServerConfig : Type 0 where
  pub ip_address : List ℕ
  pub port : ℤ
  pub max_clients : ℤ
  pub max_workers : ℤ
  pub max_jobs : ℤ
  pub job_timeout_seconds : ℤ

-- The mutex of `g_server`, the initialised modules, the socket, and the accept thread.
pub data Resource : Type 0 where
  lock job_handler worker_manager server_socket accept_thread : Resource

pub data Action : Type 0 where
  acquires releases : Resource → Action

-- What the system calls of `server_init` answer, in the order of the calls.
pub record InitAnswers : Type 0 where
  pub mutex_ok : Bool
  pub jobs_allocated : Bool
  pub workers_allocated : Bool
  pub socket_ok : Bool
  pub option_ok : Bool
  pub address_ok : Bool
  pub bind_ok : Bool
  pub listen_ok : Bool

-- Whether a call returns 0, what it takes and gives back, and the state.
abbrev pub Change : Type 0
Change = Bool × List Action × System

-- `job_handler_cleanup` and `worker_manager_cleanup`
abbrev pub without_jobs : System → System
without_jobs s = record s { jobs = (JobHandler.cleanup s.jobs).1 }

abbrev pub without_workers : System → System
without_workers s = record s { workers = WorkerManager.cleanup s.workers }

-- The clean-up at the end of each failed path, after what it closes itself.
abbrev pub undo_modules : List Action
undo_modules = releases worker_manager ∷ releases job_handler ∷ releases lock ∷ []

abbrev pub taken : List Action
taken = acquires lock ∷ acquires job_handler ∷ acquires worker_manager ∷ []

-- The address test: an empty `ip_address` stands for any address.
abbrev pub address_accepted : List ℕ → Bool → Bool
address_accepted [] ok = true
address_accepted (c ∷ cs) ok = ok

-- Lines 345 to 394, from `setsockopt` on.
abbrev pub prepare_socket : ServerConfig → InitAnswers → System → Change
prepare_socket c a s =
    let undone : Change = (
      false,
      taken ++ acquires server_socket ∷ releases server_socket ∷ undo_modules,
      without_jobs (without_workers s),
    ) in
    if not a.option_ok
    then undone
    else if not (address_accepted c.ip_address a.address_ok)
    then undone
    else if not a.bind_ok
    then undone
    else if not a.listen_ok
    then undone
    else (true, taken ++ acquires server_socket ∷ [], s)

-- From `socket` on.
abbrev pub create_socket : ServerConfig → InitAnswers → System → Change
create_socket c a s =
    if a.socket_ok
    then prepare_socket c a s
    else (false, taken ++ undo_modules, without_jobs (without_workers s))

-- After `worker_manager_init`.
abbrev pub with_workers : ServerConfig → InitAnswers → System → Bool × Manager → Change
with_workers c a s (false, m) = (
  false,
  acquires lock ∷ acquires job_handler ∷ releases job_handler ∷ releases lock ∷ [],
  without_jobs (record s { workers = m }),
)
with_workers c a s (true, m) = create_socket c a (record s { workers = m })

module _ (max_job_types : ℕ) where
  -- After `job_handler_init`.
  abbrev pub with_jobs : ServerConfig → InitAnswers → System → Bool × Handler → Change
  with_jobs c a s (false, h) = (false, acquires lock ∷ releases lock ∷ [], record s { jobs = h })
  with_jobs c a s (true, h) =
      with_workers c a (record s { jobs = h })
        (WorkerManager.init max_job_types c.max_workers a.workers_allocated s.workers)

  -- `server_init`
  unfoldable pub server_init : Option ServerConfig → InitAnswers → System → Change
  server_init none a s = (false, [], s)
  server_init (some c) a s =
      let s0 = record s { is_running = false } in
      if a.mutex_ok
      then with_jobs c a s0
          (JobHandler.init c.max_jobs c.job_timeout_seconds a.jobs_allocated s0.jobs)
      else (false, [], s0)

-- `server_start`; `created` says whether `pthread_create` succeeds.
unfoldable pub server_start : Bool → System → Change
server_start created s =
    if s.is_running
    then (false, [], s)
    else if created
    then (true, acquires accept_thread ∷ [], record s { is_running = true })
    else (false, [], record s { is_running = false })

-- `server_stop`, when no other thread runs after its first critical section.
unfoldable pub server_stop : System → Change
server_stop s =
    if s.is_running
    then (
      true,
      releases server_socket ∷ releases accept_thread ∷ undo_modules,
      without_jobs (without_workers (record s { is_running = false })),
    )
    else (false, [], s)

-- What `server_get_stats` reports.
pub record ServerStats : Type 0 where
  pub active_clients : ℤ
  pub active_workers : ℤ
  pub pending_jobs : ℤ
  pub running_jobs : ℤ
  pub completed_jobs : ℤ
  pub failed_jobs : ℤ

-- `server_get_stats`, with its six pointers given.
unfoldable pub server_get_stats : System → ServerStats
server_get_stats s =
    let (total, idle, busy) = WorkerManager.get_stats s.workers in
    let (pending, running, completed, failed) = JobHandler.get_stats s.jobs in
    record {
      active_clients = pos 0;
      active_workers = total;
      pending_jobs = pending;
      running_jobs = running;
      completed_jobs = completed;
      failed_jobs = failed;
    }
