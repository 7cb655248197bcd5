-- ===== src/WorkerRegistry.antt =====
-- distributed_worker_system/central_server/worker_registry.c and worker_registry.h: the workers that
-- are connected to the central server. Each call holds the registry's mutex, so it is one function of
-- the registry; the clock and `malloc` enter as arguments.
pub mod Numbers
pub mod Removal
pub mod Timeouts
mod Tests
use c_simples.Prelude.{
  ℕ, zero, suc, ◌+◌, ltb, ◌==◌, if◌then◌else◌, ℤ, pos, negsuc, Bool, true, false, ◌&&◌, not, Option,
  none, some, List, [], ◌∷◌, ◌++◌, length,
}

-- `worker_status_t`
pub data WorkerStatus : Type 0 where
  idle busy disconnected : WorkerStatus

-- `worker_info_t`
pub record WorkerInfo : Type 0 where
  pub worker_id : ℕ
  pub sockfd : ℤ
  pub status : WorkerStatus
  pub last_heartbeat : ℕ
  pub tasks_completed : ℕ
  pub tasks_failed : ℕ
  pub thread_id : ℕ

-- `worker_registry_t`. `workers` holds the `count` entries of the array that are in use.
pub record Registry : Type 0 where
  pub workers : List WorkerInfo
  pub capacity : ℕ

-- `worker_registry_create`; the flags say whether the two `malloc` and `pthread_mutex_init` succeed.
unfoldable pub create : ℕ → Bool → Bool → Bool → Option Registry
create zero struct_ok array_ok mutex_ok = none
create (suc c) struct_ok array_ok mutex_ok =
    if struct_ok && array_ok && mutex_ok
    then some (record { workers = []; capacity = suc c })
    else none

abbrev pub is_open : ℤ → Bool
is_open (pos n) = true
is_open (negsuc n) = false

abbrev pub closing : ℤ → List ℤ → List ℤ
closing sockfd rest = if is_open sockfd then sockfd ∷ rest else rest

-- The loop of `worker_registry_destroy`: the sockets that it closes.
unfoldable pub close_loop : List WorkerInfo → List ℤ
close_loop [] = []
close_loop (w ∷ ws) = closing w.sockfd (close_loop ws)

-- `worker_registry_destroy`
unfoldable pub destroy : Option Registry → List ℤ
destroy none = []
destroy (some r) = close_loop r.workers

abbrev pub new_worker : ℕ → ℤ → ℕ → ℕ → WorkerInfo
new_worker id sockfd thread_id now = record {
  worker_id = id;
  sockfd = sockfd;
  status = idle;
  last_heartbeat = now;
  tasks_completed = 0;
  tasks_failed = 0;
  thread_id = thread_id;
}

-- `worker_registry_add` of a registry that is not NULL: the number given (0 on failure).
unfoldable pub add : ℤ → ℕ → ℕ → Registry → ℕ × Registry
add sockfd thread_id now r =
    if is_open sockfd && ltb (length r.workers) r.capacity
    then (
      length r.workers + 1,
      record r {
        workers = r.workers ++ new_worker (length r.workers + 1) sockfd thread_id now ∷ [];
      },
    )
    else (0, r)

abbrev pub keeping : WorkerInfo → Option (ℤ × List WorkerInfo) → Option (ℤ × List WorkerInfo)
keeping w none = none
keeping w (some (sockfd, ws)) = some (sockfd, w ∷ ws)

-- The search of `worker_registry_remove` and the shift of the entries after the one that it finds: its
-- socket and the entries left.
unfoldable pub remove_loop : ℕ → List WorkerInfo → Option (ℤ × List WorkerInfo)
remove_loop id [] = none
remove_loop id (w ∷ ws) =
    if w.worker_id == id then some (w.sockfd, ws) else keeping w (remove_loop id ws)

-- `worker_registry_remove`: whether it returns 0, the sockets closed, and the registry.
unfoldable pub remove : ℕ → Registry → Bool × List ℤ × Registry
remove zero r = (false, [], r)
remove (suc n) r = elim (remove_loop (suc n) r.workers) [
  | none ↦ (false, [], r)
  | some (sockfd, ws) ↦ (true, closing sockfd [], record r { workers = ws })
]

-- The loop of `worker_registry_get`
unfoldable pub find_loop : ℕ → List WorkerInfo → Option WorkerInfo
find_loop id [] = none
find_loop id (w ∷ ws) = if w.worker_id == id then some w else find_loop id ws

-- `worker_registry_get`
unfoldable pub get : ℕ → Registry → Option WorkerInfo
get zero r = none
get (suc n) r = find_loop (suc n) r.workers

abbrev pub behind : WorkerInfo → Bool × List WorkerInfo → Bool × List WorkerInfo
behind w (found, ws) = (found, w ∷ ws)

-- The loop that looks for a worker and changes it, with `found`.
unfoldable pub change_loop :
    ℕ → (WorkerInfo → WorkerInfo) → List WorkerInfo → Bool × List WorkerInfo
change_loop id f [] = (false, [])
change_loop id f (w ∷ ws) =
    if w.worker_id == id then (true, f w ∷ ws) else behind w (change_loop id f ws)

abbrev pub with_workers : Registry → Bool × List WorkerInfo → Bool × Registry
with_workers r (found, ws) = (found, record r { workers = ws })

-- `worker_registry_update_status`
unfoldable pub update_status : ℕ → WorkerStatus → Registry → Bool × Registry
update_status zero status r = (false, r)
update_status (suc n) status r =
    with_workers r (change_loop (suc n) (λ w. record w { status = status }) r.workers)

-- `worker_registry_update_heartbeat`
unfoldable pub update_heartbeat : ℕ → ℕ → Registry → Bool × Registry
update_heartbeat zero now r = (false, r)
update_heartbeat (suc n) now r =
    with_workers r (change_loop (suc n) (λ w. record w { last_heartbeat = now }) r.workers)

abbrev pub is_idle : WorkerStatus → Bool
is_idle idle = true
is_idle _ = false

abbrev pub is_disconnected : WorkerStatus → Bool
is_disconnected disconnected = true
is_disconnected _ = false

-- The loop of `worker_registry_find_idle`
unfoldable pub idle_loop : List WorkerInfo → ℕ
idle_loop [] = 0
idle_loop (w ∷ ws) = if is_idle w.status then w.worker_id else idle_loop ws

-- `worker_registry_find_idle`
unfoldable pub find_idle : Option Registry → ℕ
find_idle none = 0
find_idle (some r) = idle_loop r.workers

-- `worker_registry_count`
unfoldable pub count : Option Registry → ℕ
count none = 0
count (some r) = length r.workers

-- The test of the loop of `worker_registry_check_timeouts`
abbrev pub is_silent : ℕ → ℕ → WorkerInfo → Bool
is_silent now timeout_sec w =
    not (is_disconnected w.status) && ltb (w.last_heartbeat + timeout_sec) now

abbrev pub dropped : WorkerInfo → WorkerInfo
dropped w = record w { status = disconnected }

-- The loop of `worker_registry_check_timeouts`
unfoldable pub timeout_loop : ℕ → ℕ → List WorkerInfo → ℕ × List WorkerInfo
timeout_loop now timeout_sec [] = (0, [])
timeout_loop now timeout_sec (w ∷ ws) =
    let (n, ws') = timeout_loop now timeout_sec ws in
    if is_silent now timeout_sec w then (suc n, dropped w ∷ ws') else (n, w ∷ ws')

-- `worker_registry_check_timeouts`
unfoldable pub check_timeouts : ℕ → ℕ → Registry → ℕ × Registry
check_timeouts timeout_sec now r =
    let (n, ws) = timeout_loop now timeout_sec r.workers in (n, record r { workers = ws })
