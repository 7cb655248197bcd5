-- ===== src/WorkerManager.antt =====
-- distributed_worker_system/server/worker_manager.c and worker_manager.h: the table of workers of the
-- server, with its statistics. Each call holds the mutex, so it is one function of the module's
-- globals; the clock and `calloc` enter as arguments. `MAX_JOB_TYPES` is defined by no file of the
-- repository and is a parameter.
mod State
pub use State.*
pub mod Table
pub mod Roster
pub mod Invariant
pub mod Statistics
pub mod Lawful
pub mod Drift
pub mod Available
pub mod Emptied
pub mod Inactive
mod Tests
use c_simples.Prelude.{
  ℕ, zero, suc, ◌+◌, ◌-◌, ◌*◌, ltb, ◌==◌, if◌then◌else◌, ℤ, ◌=ℤ◌, pos, negsuc, inc, dec, ◌+ℤ◌, Bool,
  true, false, ◌&&◌, ◌||◌, not, Option, none, some, List, [], ◌∷◌, ◌++◌, set, take, replicate,
}

abbrev pub shifted : Option (ℕ × Worker) → Option (ℕ × Worker)
shifted none = none
shifted (some (i, w)) = some (suc i, w)

-- The loop of `find_worker_by_id`: the pointer that it returns, as the index and the worker there.
unfoldable pub find_loop : ℕ → List Worker → Option (ℕ × Worker)
find_loop id [] = none
find_loop id (w ∷ ws) = if w.worker_id == id then some (0, w) else shifted (find_loop id ws)

unfoldable pub find_worker_by_id : Manager → ℤ → Option (ℕ × Worker)
find_worker_by_id m (negsuc n) = none
find_worker_by_id m (pos zero) = none
find_worker_by_id m (pos (suc n)) =
    if ltb (suc n) m.next_worker_id then find_loop (suc n) m.workers else none

abbrev pub next_index : Option ℕ → Option ℕ
next_index none = none
next_index (some i) = some (suc i)

unfoldable pub find_free_worker_slot : List Worker → Option ℕ
find_free_worker_slot [] = none
find_free_worker_slot (w ∷ ws) =
    if w.worker_id == 0 then some 0 else next_index (find_free_worker_slot ws)

-- The loop of `worker_manager_find_by_socket`; -1 if it ends.
unfoldable pub socket_loop : ℤ → List Worker → ℤ
socket_loop socket [] = negsuc 0
socket_loop socket (w ∷ ws) =
    if ltb 0 w.worker_id && (w.socket =ℤ socket) then pos w.worker_id else socket_loop socket ws

unfoldable pub find_by_socket : ℤ → Manager → ℤ
find_by_socket socket m = socket_loop socket m.workers

-- `elapsed_ms > timeout_seconds * 1000`
abbrev pub is_silent : ℕ → ℤ → Worker → Bool
is_silent now (pos t) w = ltb (w.last_heartbeat + t * 1000) now
is_silent now (negsuc t) w = ltb w.last_heartbeat (now + suc t * 1000)

abbrev pub count_leaving : ℤ → Stats → Stats
count_leaving status s =
    if status =ℤ worker_idle
    then record s { idle_workers = dec s.idle_workers }
    else if status =ℤ worker_busy
    then record s { busy_workers = dec s.busy_workers }
    else s

abbrev pub count_entering : ℤ → Stats → Stats
count_entering status s =
    if status =ℤ worker_idle
    then record s { idle_workers = inc s.idle_workers }
    else if status =ℤ worker_busy
    then record s { busy_workers = inc s.busy_workers }
    else s

-- `worker_manager_cleanup`
unfoldable pub cleanup : Manager → Manager
cleanup m = record m { workers = [] }

-- `worker_manager_update_heartbeat`
unfoldable pub update_heartbeat : ℤ → ℕ → Manager → Bool × Manager
update_heartbeat id now m = elim (find_worker_by_id m id) [
  | none ↦ (false, m)
  | some (i, w) ↦ (true, record m { workers = set m.workers i (record w { last_heartbeat = now }) })
]

-- `worker_manager_update_status`
unfoldable pub update_status : ℤ → ℤ → Manager → Bool × Manager
update_status id status m = elim (find_worker_by_id m id) [
  | none ↦ (false, m)
  | some (i, w) ↦ (
    true,
    record m {
      workers = set m.workers i (record w { status = status });
      stats =
          if w.status =ℤ status
          then m.stats
          else count_entering status (count_leaving w.status m.stats);
    },
  )
]

abbrev pub occupied : Worker → ℤ → Worker
occupied w job_id = record w { status = worker_busy; current_job_id = job_id }

-- `worker_manager_assign_job`
unfoldable pub assign_job : ℤ → ℤ → Manager → Bool × Manager
assign_job id job_id m = elim (find_worker_by_id m id) [
  | none ↦ (false, m)
  | some (i, w) ↦ (
    true,
    record m {
      workers = set m.workers i (occupied w job_id);
      stats = record m.stats {
        idle_workers = dec m.stats.idle_workers;
        busy_workers = inc m.stats.busy_workers;
      };
    },
  )
]

abbrev pub count_release : Stats → Stats
count_release s = record s { busy_workers = dec s.busy_workers; idle_workers = inc s.idle_workers }

abbrev pub succeeded : Worker → ℤ → Worker
succeeded w processing_time_ms = record w {
  status = worker_idle;
  current_job_id = negsuc 0;
  job_count = suc w.job_count;
  total_processing_time = w.total_processing_time +ℤ processing_time_ms;
}

-- `worker_manager_complete_job`
unfoldable pub complete_job : ℤ → ℤ → Manager → Bool × Manager
complete_job id processing_time_ms m = elim (find_worker_by_id m id) [
  | none ↦ (false, m)
  | some (i, w) ↦ (
    true,
    record m {
      workers = set m.workers i (succeeded w processing_time_ms);
      stats = count_release m.stats;
    },
  )
]

abbrev pub lost_job : Worker → Worker
lost_job w = record w {
  status = worker_idle;
  current_job_id = negsuc 0;
  failed_job_count = suc w.failed_job_count;
}

-- `worker_manager_fail_job`
unfoldable pub fail_job : ℤ → Manager → Bool × Manager
fail_job id m = elim (find_worker_by_id m id) [
  | none ↦ (false, m)
  | some (i, w) ↦
      (true, record m { workers = set m.workers i (lost_job w); stats = count_release m.stats })
]

-- The inner loop of `worker_manager_find_available`
unfoldable pub supports : ℤ → List ℤ → Bool
supports job_type [] = false
supports job_type (t ∷ ts) = (t =ℤ job_type) || supports job_type ts

-- The tests of the outer loop before the comparison.
abbrev pub is_candidate : ℤ → Worker → Bool
is_candidate job_type w =
    not (w.worker_id == 0) && is_idle w && supports job_type w.job_types_supported

-- `best_worker_id < 0 || worker->job_count < min_job_count`; `none` is the start, and no worker of
-- the table has a negative number.
abbrev pub is_better : Worker → Option (ℕ × ℕ) → Bool
is_better w none = true
is_better w (some (best_worker_id, min_job_count)) = ltb w.job_count min_job_count

unfoldable pub available_loop : ℤ → Option (ℕ × ℕ) → List Worker → Option (ℕ × ℕ)
available_loop job_type best [] = best
available_loop job_type best (w ∷ ws) =
    available_loop job_type
      (if is_candidate job_type w && is_better w best
        then some (w.worker_id, w.job_count)
        else best)
      ws

-- `worker_manager_find_available`; `none` is -1.
unfoldable pub find_available : ℤ → Manager → Option ℕ
find_available job_type m = elim (available_loop job_type none m.workers) [
  | none ↦ none
  | some (id, jobs) ↦ some id
]

-- The body of the loop of `worker_manager_check_inactive`, with the number of workers handled.
unfoldable pub check_worker : ℕ → ℤ → Worker → Stats → ℕ → Worker × Stats × ℕ
check_worker now limit w s n =
    if not (w.worker_id == 0) && is_silent now limit w
    then (record w { status = worker_offline }, count_leaving w.status s, suc n)
    else (w, s, n)

unfoldable pub check_loop : ℕ → ℤ → List Worker → Stats → ℕ → List Worker × Stats × ℕ
check_loop now limit [] s n = ([], s, n)
check_loop now limit (w ∷ ws) s n =
    let (w', s', n') = check_worker now limit w s n in
    let (ws', s'', n'') = check_loop now limit ws s' n' in (w' ∷ ws', s'', n'')

-- `worker_manager_check_inactive`
unfoldable pub check_inactive : ℤ → ℕ → Manager → ℕ × Manager
check_inactive limit now m =
    let (ws, s, n) = check_loop now limit m.workers m.stats 0 in
    (n, record m { workers = ws; stats = s })

-- `worker_manager_get_stats`, with its three pointers given.
unfoldable pub get_stats : Manager → ℤ × ℤ × ℤ
get_stats m = (m.stats.total_workers, m.stats.idle_workers, m.stats.busy_workers)

module _ (max_job_types : ℕ) where
  -- An entry that `calloc` or `memset` has cleared.
  abbrev pub empty_worker : Worker
  empty_worker = record {
    worker_id = 0;
    socket = pos 0;
    status = worker_idle;
    current_job_id = pos 0;
    ip_address = [];
    port = pos 0;
    last_heartbeat = 0;
    job_types_supported = replicate max_job_types (pos 0);
    job_count = 0;
    failed_job_count = 0;
    total_processing_time = pos 0;
  }

  -- `worker_manager_init`, called while the table is NULL and has 0 entries; `ok` says whether `calloc`
  -- succeeds. The statistics are left.
  unfoldable pub init : ℤ → Bool → Manager → Bool × Manager
  init (negsuc n) ok m = (false, m)
  init (pos zero) ok m = (false, m)
  init (pos (suc n)) ok m =
      if ok
      then (true, record m { workers = replicate (suc n) empty_worker; next_worker_id = 1 })
      else (false, record m { workers = [] })

  -- The job types copied over the cleared array.
  abbrev pub type_array : List ℤ → ℕ → List ℤ
  type_array types n = take n types ++ replicate (max_job_types - n) (pos 0)

  abbrev pub new_worker : ℕ → ℤ → List ℕ → ℤ → List ℤ → ℕ → ℕ → Worker
  new_worker id socket ip_address port types n now = record {
    worker_id = id;
    socket = socket;
    status = worker_idle;
    current_job_id = negsuc 0;
    ip_address = take 15 ip_address;
    port = port;
    last_heartbeat = now;
    job_types_supported = type_array types n;
    job_count = 0;
    failed_job_count = 0;
    total_processing_time = pos 0;
  }

  -- The test of `num_job_types`
  abbrev pub types_fit : ℤ → Bool
  types_fit (negsuc n) = false
  types_fit (pos zero) = false
  types_fit (pos (suc n)) = not (ltb max_job_types (suc n))

  abbrev pub natural : ℤ → ℕ
  natural (pos n) = n
  natural (negsuc n) = 0

  abbrev pub enroll : ℤ → List ℕ → ℤ → List ℤ → ℕ → ℕ → Manager → Option ℕ × Manager
  enroll socket ip_address port types n now m = elim (find_free_worker_slot m.workers) [
    | none ↦ (none, m)
    | some slot ↦ (
      some m.next_worker_id,
      record m {
        workers =
            set m.workers slot (new_worker m.next_worker_id socket ip_address port types n now);
        next_worker_id = m.next_worker_id + 1;
        stats = record m.stats {
          total_workers = inc m.stats.total_workers;
          idle_workers = inc m.stats.idle_workers;
        };
      },
    )
  ]

  -- `worker_manager_register`: the worker's number, or `none` for -1. The strings and arrays are `none`
  -- when NULL.
  unfoldable pub register :
      ℤ → Option (List ℕ) → ℤ → Option (List ℤ) → ℤ → ℕ → Manager → Option ℕ × Manager
  register socket none port types num_job_types now m = (none, m)
  register socket (some ip_address) port none num_job_types now m = (none, m)
  register socket (some ip_address) port (some types) num_job_types now m =
      if types_fit num_job_types
      then enroll socket ip_address port types (natural num_job_types) now m
      else (none, m)

  -- `worker_manager_unregister`
  unfoldable pub unregister : ℤ → Manager → Bool × Manager
  unregister id m = elim (find_worker_by_id m id) [
    | none ↦ (false, m)
    | some (i, w) ↦ (
      true,
      record m {
        workers = set m.workers i empty_worker;
        stats =
            count_leaving w.status (record m.stats { total_workers = dec m.stats.total_workers });
      },
    )
  ]

-- The calls that change the state, with what the environment answers in each.
pub data Call : Type 0 where
  registers : ℤ → Option (List ℕ) → ℤ → Option (List ℤ) → ℤ → ℕ → Call
  unregisters : ℤ → Call
  updates_status : ℤ → ℤ → Call
  updates_heartbeat : ℤ → ℕ → Call
  assigns_job : ℤ → ℤ → Call
  completes_job : ℤ → ℤ → Call
  fails_job : ℤ → Call
  checks_inactive : ℤ → ℕ → Call

module _ (max_job_types : ℕ) where
  unfoldable pub step : Manager → Call → Manager
  step m (registers socket ip port types n now) =
      (register max_job_types socket ip port types n now m).1
  step m (unregisters id) = (unregister max_job_types id m).1
  step m (updates_status id status) = (update_status id status m).1
  step m (updates_heartbeat id now) = (update_heartbeat id now m).1
  step m (assigns_job id job_id) = (assign_job id job_id m).1
  step m (completes_job id ms) = (complete_job id ms m).1
  step m (fails_job id) = (fail_job id m).1
  step m (checks_inactive limit now) = (check_inactive limit now m).1

  unfoldable pub run : Manager → List Call → Manager
  run m [] = m
  run m (c ∷ cs) = run (step m c) cs
