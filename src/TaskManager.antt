-- ===== src/TaskManager.antt =====
-- distributed_worker_system/central_server/task_manager.c and task_manager.h: the table of tasks of the
-- central server and the queue of the tasks that wait. Each call holds the manager's mutex, but for
-- `task_manager_get_next_task`, which takes the queue's; the clock and `malloc` enter as arguments.
pub mod Table
pub mod Invariant
pub mod Calls
pub mod Timeouts
mod Tests
use c_simples.Prelude.{
  ℕ, zero, suc, ◌+◌, ltb, ◌==◌, if◌then◌else◌, ℤ, pos, Bool, true, false, ◌&&◌, ◌||◌, Option, none,
  some, List, [], ◌∷◌, ◌++◌, take, drop, replicate, length, inc32,
}
use c_simples.RingBuffer
use c_simples.RingBuffer.{
  RingBuffer, CreateEnv, Time, Wake, PushOutcome, PopOutcome, pushed, push_failed, push_waits, push,
  pop, pop_failed, popped, pop_waits, size_of,
}

-- `task_status_t`
pub data TaskStatus : Type 0 where
  pending assigned completed failed timeout : TaskStatus

-- `task_t`; the data arrays are lists of `MAX_DATA_SIZE` bytes.
pub record Task : Type 0 where
  pub task_id : ℕ
  pub input_data : List ℕ
  pub output_data : List ℕ
  pub input_size : ℕ
  pub output_size : ℕ

-- `task_info_t`
pub record TaskInfo : Type 0 where
  pub task : Task
  pub worker_id : ℕ
  pub status : TaskStatus
  pub created_time : ℕ
  pub assigned_time : ℕ
  pub completed_time : ℕ
  pub exec_time_ms : ℕ

-- `task_manager_t`. `tasks` holds the `count` entries of the array that are in use.
pub record Manager : Type 0 where
  pub tasks : List TaskInfo
  pub capacity : ℕ
  pub next_task_id : ℕ
  pub task_queue : RingBuffer Task

-- `MAX_DATA_SIZE`
abbrev pub max_data_size : ℕ
max_data_size = 1024

-- `task_manager_create`: `struct_ok`, `array_ok` and `mutex_ok` say whether the two `malloc` and
-- `pthread_mutex_init` succeed, `queue` is what `ring_buffer_create` returned. NULL is `none`.
unfoldable pub create : ℕ → ℕ → Bool → Bool → Bool → Option (RingBuffer Task) → Option Manager
create zero queue_size struct_ok array_ok mutex_ok queue = none
create (suc c) zero struct_ok array_ok mutex_ok queue = none
create (suc c) (suc s) struct_ok array_ok mutex_ok none = none
create (suc c) (suc s) struct_ok array_ok mutex_ok (some rb) =
    if struct_ok && array_ok && mutex_ok
    then some (record { tasks = []; capacity = suc c; next_task_id = 1; task_queue = rb })
    else none

-- `task_manager_destroy`: the tasks of the queue that it frees; the table goes with them.
unfoldable pub destroy : Option Manager → List (Option Task)
destroy none = []
destroy (some m) = RingBuffer.destroy (some m.task_queue) true

abbrev pub new_task : ℕ → List ℕ → ℕ → Task → Task
new_task id input_data input_size memory = record memory {
  task_id = id;
  input_data = take input_size input_data ++ drop input_size memory.input_data;
  output_data = replicate max_data_size 0;
}

abbrev pub new_info : Task → ℕ → TaskInfo
new_info task now = record {
  task = task;
  worker_id = 0;
  status = pending;
  created_time = now;
  assigned_time = 0;
  completed_time = 0;
  exec_time_ms = 0;
}

-- The test of the arguments of `task_manager_create_task`
abbrev pub size_fits : ℕ → Bool
size_fits zero = false
size_fits (suc n) = ltb n max_data_size

-- What `task_manager_create_task` does after `ring_buffer_push`, which no other thread interrupts as
-- the timeout is 0. A task number is used up in each case.
abbrev pub enter_task : Task → ℕ → Manager → PushOutcome Task → Option ℕ × Manager
enter_task task now m (pushed rb) = (
  some task.task_id,
  record m {
    tasks = m.tasks ++ new_info task now ∷ [];
    next_task_id = inc32 m.next_task_id;
    task_queue = rb;
  },
)
enter_task task now m _ = (none, record m { next_task_id = inc32 m.next_task_id })

-- `task_manager_create_task` of a manager that is not NULL: the task's number, or `none` for 0.
-- `memory` is what `malloc` returned: an uninitialised task, or none.
unfoldable pub create_task : Option (List ℕ) → ℕ → Option Task → ℕ → Manager → Option ℕ × Manager
create_task none input_size memory now m = (none, m)
create_task (some input_data) input_size memory now m =
    if size_fits input_size && ltb (length m.tasks) m.capacity
    then elim memory [
      | none ↦ (none, m)
      | some block ↦
          let task = new_task m.next_task_id input_data input_size block in
          enter_task task now m (push (some m.task_queue) (some task) (pos 0) none [])
    ]
    else (none, m)

-- `task_manager_get_next_task`: it uses the queue alone.
unfoldable pub get_next_task : Option Manager → ℤ → Option Time → List (Wake Task) → PopOutcome Task
get_next_task none timeout_ms clock ws = pop_failed none
get_next_task (some m) timeout_ms clock ws = pop (some m.task_queue) timeout_ms clock ws

abbrev pub behind : TaskInfo → Bool × List TaskInfo → Bool × List TaskInfo
behind t (found, ts) = (found, t ∷ ts)

-- The loop that looks for a task and changes it, with `found`.
unfoldable pub change_loop : ℕ → (TaskInfo → TaskInfo) → List TaskInfo → Bool × List TaskInfo
change_loop id f [] = (false, [])
change_loop id f (t ∷ ts) =
    if t.task.task_id == id then (true, f t ∷ ts) else behind t (change_loop id f ts)

abbrev pub with_tasks : Manager → Bool × List TaskInfo → Bool × Manager
with_tasks m (found, ts) = (found, record m { tasks = ts })

abbrev pub handed_to : ℕ → ℕ → TaskInfo → TaskInfo
handed_to worker_id now t = record t {
  worker_id = worker_id;
  status = assigned;
  assigned_time = now;
}

-- `task_manager_assign_task`
unfoldable pub assign_task : ℕ → ℕ → ℕ → Manager → Bool × Manager
assign_task task_id worker_id now m =
    if (task_id == 0) || (worker_id == 0)
    then (false, m)
    else with_tasks m (change_loop task_id (handed_to worker_id now) m.tasks)

abbrev pub outcome : ℕ → TaskStatus
outcome zero = completed
outcome (suc n) = failed

abbrev pub reported : ℕ → ℕ → ℕ → TaskInfo → TaskInfo
reported status exec_time_ms now t = record t {
  status = outcome status;
  completed_time = now;
  exec_time_ms = exec_time_ms;
}

-- `task_manager_process_result`
unfoldable pub process_result : ℕ → ℕ → ℕ → ℕ → Manager → Bool × Manager
process_result task_id status exec_time_ms now m =
    if task_id == 0
    then (false, m)
    else with_tasks m (change_loop task_id (reported status exec_time_ms now) m.tasks)

-- The loop of `task_manager_get_task`
unfoldable pub find_loop : ℕ → List TaskInfo → Option TaskInfo
find_loop id [] = none
find_loop id (t ∷ ts) = if t.task.task_id == id then some t else find_loop id ts

-- `task_manager_get_task`
unfoldable pub get_task : Option Manager → ℕ → Option TaskInfo
get_task none id = none
get_task (some m) id = if id == 0 then none else find_loop id m.tasks

-- `task_manager_count`
unfoldable pub count : Option Manager → ℕ
count none = 0
count (some m) = length m.tasks

-- `task_manager_pending_count`
unfoldable pub pending_count : Option Manager → ℕ
pending_count none = 0
pending_count (some m) = size_of (some m.task_queue)

abbrev pub is_assigned : TaskStatus → Bool
is_assigned assigned = true
is_assigned _ = false

-- The test of the loop of `task_manager_check_timeouts`
abbrev pub has_timed_out : ℕ → ℕ → TaskInfo → Bool
has_timed_out now timeout_sec t =
    is_assigned t.status && ltb 0 t.assigned_time && ltb (t.assigned_time + timeout_sec) now

abbrev pub timed_out : TaskInfo → TaskInfo
timed_out t = record t { status = timeout }

-- The loop of `task_manager_check_timeouts`
unfoldable pub timeout_loop : ℕ → ℕ → List TaskInfo → ℕ × List TaskInfo
timeout_loop now timeout_sec [] = (0, [])
timeout_loop now timeout_sec (t ∷ ts) =
    let (n, ts') = timeout_loop now timeout_sec ts in
    if has_timed_out now timeout_sec t then (suc n, timed_out t ∷ ts') else (n, t ∷ ts')

-- `task_manager_check_timeouts`
unfoldable pub check_timeouts : ℕ → ℕ → Manager → ℕ × Manager
check_timeouts timeout_sec now m =
    let (n, ts) = timeout_loop now timeout_sec m.tasks in (n, record m { tasks = ts })

-- The calls that change the manager, with what the environment answers in each; a call of
-- `task_manager_get_next_task` with timeout 0.
pub data Call : Type 0 where
  creates : Option (List ℕ) → ℕ → Option Task → ℕ → Call
  gets_next : Call
  assigns : ℕ → ℕ → ℕ → Call
  processes : ℕ → ℕ → ℕ → ℕ → Call
  checks : ℕ → ℕ → Call

abbrev pub with_queue : Manager → PopOutcome Task → Manager
with_queue m (popped task rb) = record m { task_queue = rb }
with_queue m (pop_failed rb) = m
with_queue m pop_waits = m

unfoldable pub step : Manager → Call → Manager
step m (creates input_data input_size memory now) =
    (create_task input_data input_size memory now m).1
step m gets_next = with_queue m (get_next_task (some m) (pos 0) none [])
step m (assigns task_id worker_id now) = (assign_task task_id worker_id now m).1
step m (processes task_id status ms now) = (process_result task_id status ms now m).1
step m (checks timeout_sec now) = (check_timeouts timeout_sec now m).1

unfoldable pub run : Manager → List Call → Manager
run m [] = m
run m (c ∷ cs) = run (step m c) cs
