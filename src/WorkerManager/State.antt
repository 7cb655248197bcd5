-- ===== src/WorkerManager/State.antt =====
-- The state of distributed_worker_system/server/worker_manager.c and the structure of worker_manager.h.
use c_simples.Prelude.{ℕ, ℤ, ◌=ℤ◌, pos, Bool, List}

-- `Worker`. `ip_address` is the C string in the array: the bytes before the first NUL.
pub record Worker : Type 0 where
  pub worker_id : ℕ
  pub socket : ℤ
  pub status : ℤ
  pub current_job_id : ℤ
  pub ip_address : List ℕ
  pub port : ℤ
  pub last_heartbeat : ℕ
  pub job_types_supported : List ℤ
  pub job_count : ℕ
  pub failed_job_count : ℕ
  pub total_processing_time : ℤ

-- `WORKER_STATUS_IDLE`, `WORKER_STATUS_BUSY` and `WORKER_STATUS_OFFLINE`
abbrev pub worker_idle : ℤ
worker_idle = pos 0

abbrev pub worker_busy : ℤ
worker_busy = pos 1

abbrev pub worker_offline : ℤ
worker_offline = pos 2

-- `g_total_workers`, `g_idle_workers` and `g_busy_workers`
pub record Stats : Type 0 where
  pub total_workers : ℤ
  pub idle_workers : ℤ
  pub busy_workers : ℤ

-- The globals. `workers` is the array `g_workers` of `g_max_workers` entries (none while it is NULL).
pub record Manager : Type 0 where
  pub workers : List Worker
  pub next_worker_id : ℕ
  pub stats : Stats

abbrev pub is_idle : Worker → Bool
is_idle w = w.status =ℤ worker_idle

abbrev pub is_busy : Worker → Bool
is_busy w = w.status =ℤ worker_busy
