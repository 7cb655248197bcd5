-- ===== src/Server/Lifetime/Resources.antt =====
-- server.c: what `server_init`, `server_start` and `server_stop` take they give back.
use c_simples.Prelude.{
  ℕ, ℤ, pos, negsuc, zero, suc, ◌≡◌, refl, inl, inr, ◌⊎◌, Bool, true, false, Bool-cases,
  if◌then◌else◌, Option, none, some, List, [], ◌∷◌, ◌++◌, ◌==◌,
}
use c_simples.JobHandler
use c_simples.JobHandler.{Handler, Limits}
use c_simples.JobHandler.Invariant.{IsValid}
use c_simples.JobHandler.Calls.{init-IsValid}
use c_simples.WorkerManager
use c_simples.WorkerManager.{Manager}
use c_simples.WorkerManager.Invariant.{IsSound, init-IsSound}
use c_simples.Server.{System}
use c_simples.Server.Events.{Event, run}
use c_simples.Server.Consistency.{IsConsistent}
use c_simples.Server.Lifetime.{
  ServerConfig, Resource, lock, job_handler, worker_manager, server_socket, accept_thread, Action,
  acquires, releases, InitAnswers, Change, prepare_socket, create_socket, with_workers, with_jobs,
  address_accepted, server_init, server_start, server_stop,
}

abbrev rank : Resource → ℕ
rank lock = 0
rank job_handler = 1
rank worker_manager = 2
rank server_socket = 3
rank accept_thread = 4

abbrev with_first : Resource → Option (List Resource) → Option (List Resource)
with_first r none = none
with_first r (some rs) = some (r ∷ rs)

-- A resource is given back only while it is held.
abbrev remove : Resource → List Resource → Option (List Resource)
remove r [] = none
remove r (x ∷ xs) = if rank r == rank x then some xs else with_first x (remove r xs)

-- What is held after the actions; `none` if one of them gives back what is not held.
abbrev pub held : List Resource → List Action → Option (List Resource)
held rs [] = some rs
held rs (acquires r ∷ as') = held (r ∷ rs) as'
held rs (releases r ∷ as') = elim (remove r rs) [ none ↦ none | some rest ↦ held rest as' ]

abbrev pub AreEmpty : System → Type 0
AreEmpty s = (s.jobs.jobs ≡ []) × (s.workers.workers ≡ [])

-- A failed call: nothing is held, and both tables are gone.
abbrev pub Undone : Change → Type 0
Undone o = (o.0 ≡ false) × (held [] o.1 ≡ some []) × AreEmpty o.2

abbrev pub set_up : List Resource
set_up = server_socket ∷ worker_manager ∷ job_handler ∷ lock ∷ []

abbrev pub SetUp : Change → Type 0
SetUp o = (o.0 ≡ true) × (held [] o.1 ≡ some set_up)

-- The socket is prepared, or all is undone.
prepare_socket_cases :
    (c : ServerConfig) (a : InitAnswers) (s : System)
    → Undone (prepare_socket c a s)
      ⊎ (SetUp (prepare_socket c a s) × ((prepare_socket c a s).2 ≡ s))
unfolding JobHandler.cleanup WorkerManager.cleanup
prepare_socket_cases c a s = elim (Bool-cases a.option_ok) [
  | inr e ↦ rw e (inl (refl, refl, (refl, refl)))
  | inl e ↦ elim (Bool-cases (address_accepted c.ip_address a.address_ok)) [
    | inr f ↦ rw (e, f) (inl (refl, refl, (refl, refl)))
    | inl f ↦ elim (Bool-cases a.bind_ok) [
      | inr g ↦ rw (e, f, g) (inl (refl, refl, (refl, refl)))
      | inl g ↦ elim (Bool-cases a.listen_ok) [
        | inr h ↦ rw (e, f, g, h) (inl (refl, refl, (refl, refl)))
        | inl h ↦ rw (e, f, g, h) (inr ((refl, refl), refl))
      ]
    ]
  ]
]

create_socket_cases :
    (c : ServerConfig) (a : InitAnswers) (s : System)
    → Undone (create_socket c a s) ⊎ (SetUp (create_socket c a s) × ((create_socket c a s).2 ≡ s))
unfolding JobHandler.cleanup WorkerManager.cleanup
create_socket_cases c a s = elim (Bool-cases a.socket_ok) [
  | inl e ↦ rw e (prepare_socket_cases c a s)
  | inr e ↦ rw e (inl (refl, refl, (refl, refl)))
]

workers_of_init :
    (k : ℕ) (size : ℤ) (ok : Bool) (m : Manager)
    → m.workers ≡ []
    → m.stats.total_workers ≡ pos 0
    → (((WorkerManager.init k size ok m).0 ≡ false)
        × ((WorkerManager.init k size ok m).1.workers ≡ []))
      ⊎ (((WorkerManager.init k size ok m).0 ≡ true) × IsSound (WorkerManager.init k size ok m).1)
unfolding WorkerManager.init
workers_of_init k (negsuc n) ok m e t = inl (refl, e)
workers_of_init k (pos zero) ok m e t = inl (refl, e)
workers_of_init k (pos (suc n)) true m e t = inr (refl, init-IsSound k n m t)
workers_of_init k (pos (suc n)) false m e t = inl (refl, refl)

init_failed :
    (size timeout : ℤ) (ok : Bool) (h : Handler)
    → h.jobs ≡ []
    → (JobHandler.init size timeout ok h).0 ≡ false
    → (JobHandler.init size timeout ok h).1.jobs ≡ []
unfolding JobHandler.init
init_failed (negsuc n) timeout ok h e f = e
init_failed (pos zero) timeout ok h e f = e
init_failed (pos (suc n)) timeout true h e f = cc
init_failed (pos (suc n)) timeout false h e f = refl

-- The statistics of a program that starts.
pub record StatsZero (s : System) : Type 0 where
  pub no_pending : s.jobs.stats.pending_jobs ≡ pos 0
  pub no_running : s.jobs.stats.running_jobs ≡ pos 0
  pub no_completed : s.jobs.stats.completed_jobs ≡ pos 0
  pub no_failed : s.jobs.stats.failed_jobs ≡ pos 0
  pub no_workers : s.workers.stats.total_workers ≡ pos 0

jobs_of_init :
    (limits : Limits) (size timeout : ℤ) (ok : Bool) (s : System)
    → s.jobs.jobs ≡ []
    → StatsZero s
    → let r = JobHandler.init size timeout ok s.jobs in
      ((r.0 ≡ false) × (r.1.jobs ≡ [])) ⊎ ((r.0 ≡ true) × IsValid limits r.1)
jobs_of_init limits size timeout ok s e z =
    elim (Bool-cases (JobHandler.init size timeout ok s.jobs).0) [
      | inl t ↦ inr (
        t,
        (init-IsValid limits size timeout ok s.jobs z.no_pending z.no_running z.no_completed
            z.no_failed t).0,
      )
      | inr f ↦ inl (f, init_failed size timeout ok s.jobs e f)
    ]

module _ (max_job_types : ℕ) (limits : Limits) where
  abbrev Ready : System → Type 0
  Ready s = IsConsistent max_job_types limits s

  with_workers_cases :
      (c : ServerConfig) (a : InitAnswers) (s : System) (r : Bool × Manager)
      → IsValid limits s.jobs
      → ((r.0 ≡ false) × (r.1.workers ≡ [])) ⊎ ((r.0 ≡ true) × IsSound r.1)
      → Undone (with_workers c a s r)
        ⊎ (SetUp (with_workers c a s r) × Ready (with_workers c a s r).2)
  unfolding JobHandler.cleanup
  with_workers_cases c a s (false, m) v (inl (e, f)) = inl (refl, refl, (refl, f))
  with_workers_cases c a s (false, m) v (inr (e, f)) = cc
  with_workers_cases c a s (true, m) v (inl (e, f)) = cc
  with_workers_cases c a s (true, m) v (inr (e, f)) =
      elim (create_socket_cases c a (record s { workers = m })) [
        | inl u ↦ inl u
        | inr (d, q) ↦ inr (d, rw q (record { jobs_valid = v; workers_sound = f }))
      ]

  with_jobs_cases :
      (c : ServerConfig) (a : InitAnswers) (s : System) (r : Bool × Handler)
      → s.workers.workers ≡ []
      → s.workers.stats.total_workers ≡ pos 0
      → ((r.0 ≡ false) × (r.1.jobs ≡ [])) ⊎ ((r.0 ≡ true) × IsValid limits r.1)
      → Undone (with_jobs max_job_types c a s r)
        ⊎ (SetUp (with_jobs max_job_types c a s r) × Ready (with_jobs max_job_types c a s r).2)
  with_jobs_cases c a s (false, h) w t (inl (e, f)) = inl (refl, refl, (f, w))
  with_jobs_cases c a s (false, h) w t (inr (e, f)) = cc
  with_jobs_cases c a s (true, h) w t (inl (e, f)) = cc
  with_jobs_cases c a s (true, h) w t (inr (e, f)) =
      with_workers_cases c a (record s { jobs = h }) _ f
        (workers_of_init max_job_types c.max_workers a.workers_allocated s.workers w t)

  -- `server_init` on a program that starts, with no tables and with statistics of 0, whatever its system
  -- calls answer: either it returns -1, and has given back all that it has taken, each once, and both
  -- tables are gone; or it returns 0 and holds the socket, both modules and the mutex, and the job table
  -- is valid and the worker table sound.
  pub server_init_lem :
      (config : Option ServerConfig) (a : InitAnswers) (s : System)
      → AreEmpty s
      → StatsZero s
      → let o = server_init max_job_types config a s in
        Undone o ⊎ (SetUp o × IsConsistent max_job_types limits o.2)
  unfolding server_init
  server_init_lem none a s (j, w) z = inl (refl, refl, (j, w))
  server_init_lem (some c) a s (j, w) z = elim (Bool-cases a.mutex_ok) [
    | inr e ↦ rw e (inl (refl, refl, (j, w)))
    | inl e ↦
        let jobs = jobs_of_init limits c.max_jobs c.job_timeout_seconds a.jobs_allocated s j z in
        rw e (with_jobs_cases c a (record s { is_running = false }) _ w z.no_workers jobs)
  ]

abbrev stopping : List Action
stopping =
    releases server_socket
    ∷ releases accept_thread
    ∷ releases worker_manager
    ∷ releases job_handler
    ∷ releases lock
    ∷ []

stop_running :
    (s : System)
    → s.is_running ≡ true
    → ((server_stop s).0 ≡ true)
      × ((server_stop s).1 ≡ stopping)
      × ((server_stop s).2.is_running ≡ false)
      × AreEmpty (server_stop s).2
unfolding server_stop JobHandler.cleanup WorkerManager.cleanup
stop_running s e = rw e (refl, refl, refl, (refl, refl))

stop_stopped : (s : System) → s.is_running ≡ false → server_stop s ≡ (false, [], s)
unfolding server_stop
stop_stopped s e = rw (e, server_stop) refl

start_stopped :
    (s : System)
    → s.is_running ≡ false
    → ((server_start true s).0 ≡ true) × ((server_start true s).1 ≡ acquires accept_thread ∷ [])
unfolding server_start
start_stopped s e = rw e (refl, refl)

-- A server that has been set up and is started, and that still runs after any events, is stopped by
-- `server_stop`: it returns 0 and clears the flag, both tables are gone, and what `server_init` and
-- `server_start` have taken is given back, each once. A second `server_stop` returns -1 and does
-- nothing.
pub server_stop_lem :
    (max_job_types : ℕ) (limits : Limits) (s : System) (es : List Event)
    → s.is_running ≡ false
    → (run max_job_types limits (server_start true s).2 es).is_running ≡ true
    → let start = server_start true s in
      let stop = server_stop (run max_job_types limits start.2 es) in
      (start.0 ≡ true)
      × (stop.0 ≡ true)
      × (held set_up (start.1 ++ stop.1) ≡ some [])
      × (stop.2.is_running ≡ false)
      × AreEmpty stop.2
      × (server_stop stop.2 ≡ (false, [], stop.2))
server_stop_lem k limits s es stopped still =
    let (t, acts) = start_stopped s stopped in
    let u = run k limits (server_start true s).2 es in
    let (done, given, flag, gone) = stop_running u still in
    (t, done, rw (acts, given) refl, flag, gone, stop_stopped (server_stop u).2 flag)
