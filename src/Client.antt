-- ===== src/Client.antt =====
-- distributed_worker_system/client/client.c: the session of a client with the server and its requests.
-- What the system calls return and what the server answers enters as arguments.
pub mod Requests
pub mod Waiting
pub mod Sockets
mod Tests
use c_simples.Prelude.{
  ℕ, zero, suc, ◌+◌, ◌-◌, ◌*◌, ◌%◌, ltb, leb, ◌==◌, if◌then◌else◌, ℤ, pos, negsuc, Bool, true,
  false, ◌&&◌, ◌||◌, not, Option, none, some, List, [], ◌∷◌, ◌++◌, take, drop, length, replicate,
}

-- `ClientConfig`
pub record ClientConfig : Type 0 where
  pub server_ip : List ℕ
  pub server_port : ℤ
  pub reconnect_interval_seconds : ℤ

-- `Client`, without its lock.
pub record Client : Type 0 where
  pub config : ClientConfig
  pub client_id : ℤ
  pub server_socket : ℤ
  pub is_connected : Bool

-- The six counts of the server, and a message that `receive_message` gives, by the `MSG_TYPE_`
-- constants that the client looks for, with the fields of the body that it reads. A `job_result` has the
-- array `result_data`, the memory behind it, and `result_size`.
pub record ServerStats : Type 0 where
  pub active_clients : ℕ
  pub active_workers : ℕ
  pub pending_jobs : ℕ
  pub running_jobs : ℕ
  pub completed_jobs : ℕ
  pub failed_jobs : ℕ

pub data Response : Type 0 where
  register_response : ℕ → Response
  job_submitted : ℕ → Response
  job_status : ℕ → Response
  job_result : List ℕ → List ℕ → ℕ → Response
  server_stats : ServerStats → Response
  error : Response
  other_type : Response

-- The messages that the client sends; the first number is the `client_id` of the header.
pub data Request : Type 0 where
  register : ℕ → Request
  client_disconnect : ℕ → Request
  submit_job : ℕ → ℕ → List ℕ → ℕ → Request
  get_job_status : ℕ → ℕ → Request
  get_job_result : ℕ → ℕ → Request
  get_server_stats : ℕ → Request

-- A call on a socket.
pub data Deed : Type 0 where
  opens : ℕ → Deed
  closes : ℤ → Deed
  sends : ℤ → Request → Deed

-- Whether `send_message` succeeds, and what `receive_message` gives (none if it fails).
pub record Exchange : Type 0 where
  pub sent : Bool
  pub answer : Option Response

-- A `uint32_t` from an `int`, and an `int` from a `uint32_t`.
abbrev pub as_uint32 : ℤ → ℕ
as_uint32 (pos n) = n % 4294967296
as_uint32 (negsuc n) = 4294967295 - n % 4294967296

abbrev pub as_int : ℕ → ℤ
as_int n = if ltb n 2147483648 then pos n else negsuc (4294967295 - n)

-- `client_init`; the flag says whether `pthread_mutex_init` succeeds. The value says whether it returns 0.
unfoldable pub init : Option ClientConfig → Bool → Client → Bool × Client
init none mutex_ok c = (false, c)
init (some config) mutex_ok c = (
  mutex_ok,
  record { config = config; client_id = negsuc 0; server_socket = negsuc 0; is_connected = false },
)

-- The end of `client_connect_to_server`, after `receive_message`.
abbrev pub after_register : ℕ → Option Response → Client → Bool × List Deed × Client
after_register fd (some (register_response id)) c =
    (true, [], record c { client_id = as_int id; server_socket = pos fd; is_connected = true })
after_register fd _ c = (false, closes (pos fd) ∷ [], c)

-- The calls on a new socket.
abbrev pub on_socket : Bool → Exchange → ℕ → Client → Bool × List Deed × Client
on_socket reachable x fd c =
    let (ok, deeds, c') = after_register fd x.answer c in
    if reachable
    then if x.sent
      then (ok, opens fd ∷ sends (pos fd) (register 1) ∷ deeds, c')
      else (false, opens fd ∷ sends (pos fd) (register 1) ∷ closes (pos fd) ∷ [], c)
    else (false, opens fd ∷ closes (pos fd) ∷ [], c)

-- `client_connect_to_server`: the result of `socket` (none for -1), and whether `inet_pton` and `connect`
-- succeed.
unfoldable pub connect_to_server : Option ℕ → Bool → Exchange → Client → Bool × List Deed × Client
connect_to_server none reachable x c = (false, [], c)
connect_to_server (some fd) reachable x c = on_socket reachable x fd c

-- `client_disconnect_from_server`, which always returns 0, whether its messages arrive or not.
unfoldable pub disconnect_from_server : Client → List Deed × Client
disconnect_from_server c =
    if c.is_connected
    then (
      sends c.server_socket (client_disconnect (as_uint32 c.client_id))
          ∷ closes c.server_socket
          ∷ [],
      record c { server_socket = negsuc 0; is_connected = false },
    )
    else ([], c)

-- `client_cleanup`
unfoldable pub cleanup : Client → List Deed × Client
cleanup c = disconnect_from_server c

-- What a request sends and receives, of a client that is connected.
abbrev pub exchange : Client → Request → Exchange → Option Response × List Deed
exchange c request x = (if x.sent then x.answer else none, sends c.server_socket request ∷ [])

-- The test `!input_data && input_size > 0`.
abbrev pub missing : Option (List ℕ) → ℕ → Bool
missing none size = ltb 0 size
missing (some bytes) size = false

-- The array `data` of a zeroed message after `memcpy` of so many bytes of the input; 1024 is
-- `MAX_DATA_SIZE` and the size of the array.
abbrev pub fill_data : Option (List ℕ) → ℕ → List ℕ
fill_data none size = replicate 1024 0
fill_data (some bytes) size = take size bytes ++ drop size (replicate 1024 0)

abbrev pub submitted_id : Option Response × List Deed → ℤ × List Deed
submitted_id (some (job_submitted id), deeds) = (as_int id, deeds)
submitted_id (_, deeds) = (negsuc 0, deeds)

-- `client_submit_job`: the number of the job, or -1.
unfoldable pub submit : ℤ → Option (List ℕ) → ℕ → Exchange → Client → ℤ × List Deed
submit job_type input_data input_size x c =
    if missing input_data input_size
    then (negsuc 0, [])
    else if c.is_connected
    then if ltb 1024 input_size
      then (negsuc 0, [])
      else submitted_id (
          exchange c
            (submit_job (as_uint32 c.client_id) (as_uint32 job_type)
              (fill_data input_data input_size) input_size)
            x)
    else (negsuc 0, [])

abbrev pub status_of : Option Response × List Deed → ℤ × List Deed
status_of (some (job_status status), deeds) = (as_int status, deeds)
status_of (_, deeds) = (negsuc 0, deeds)

-- `client_get_job_status`
unfoldable pub get_status : ℤ → Exchange → Client → ℤ × List Deed
get_status job_id x c =
    if c.is_connected
    then status_of (exchange c (get_job_status (as_uint32 c.client_id) (as_uint32 job_id)) x)
    else (negsuc 0, [])

-- What `client_get_job_result` gives: -1, or 0 with `*result_data` (none for NULL) and `*result_size`.
pub data ResultOutcome : Type 0 where
  no_result : ResultOutcome
  result : Option (List ℕ) → ℕ → ResultOutcome

-- `malloc`, whose success is the flag, and `memcpy`, which reads on behind the array.
abbrev pub copy_result : List ℕ → List ℕ → ℕ → Bool → ResultOutcome
copy_result array behind zero ok = result none 0
copy_result array behind (suc n) ok =
    if ok then result (some (take (suc n) (array ++ behind))) (suc n) else no_result

abbrev pub result_of : Bool → Option Response × List Deed → ResultOutcome × List Deed
result_of ok (some (job_result array behind size), deeds) =
    (copy_result array behind size ok, deeds)
result_of ok (_, deeds) = (no_result, deeds)

-- `client_get_job_result` with valid result pointers.
unfoldable pub get_result : ℤ → Bool → Exchange → Client → ResultOutcome × List Deed
get_result job_id ok x c =
    if c.is_connected
    then result_of ok (exchange c (get_job_result (as_uint32 c.client_id) (as_uint32 job_id)) x)
    else (no_result, [])

abbrev pub stats_of : Option Response × List Deed → Option ServerStats × List Deed
stats_of (some (server_stats stats), deeds) = (some stats, deeds)
stats_of (_, deeds) = (none, deeds)

-- `client_get_server_stats`: the counts that it gives by its pointers, or none for -1.
unfoldable pub get_stats : Exchange → Client → Option ServerStats × List Deed
get_stats x c =
    if c.is_connected
    then stats_of (exchange c (get_server_stats (as_uint32 c.client_id)) x)
    else (none, [])

-- A round of `client_wait_for_job`: the client when it asks for the status, what the server answers, and
-- the clock in milliseconds at the test of the timeout.
pub record Poll : Type 0 where
  pub client : Client
  pub exchange : Exchange
  pub now : ℕ

-- `status == JOB_STATUS_COMPLETED || status == JOB_STATUS_FAILED || status == JOB_STATUS_TIMEOUT`
abbrev pub is_final : ℕ → Bool
is_final n = n == 2 || (n == 3 || n == 4)

-- The test of the timeout, in whole seconds, of a wait that began at `start`.
abbrev pub timed_out : ℤ → ℕ → ℕ → Bool
timed_out (pos zero) start now = false
timed_out (pos (suc n)) start now = leb (start + suc n * 1000) now
timed_out (negsuc n) start now = false

-- A round with the status that it has got: the value that the loop returns, if it ends.
abbrev pub decide : ℤ → ℕ → ℕ → ℤ → Option ℤ
decide timeout start now (negsuc n) = some (negsuc 0)
decide timeout start now (pos n) =
    if is_final n
    then some (pos n)
    else if timed_out timeout start now
    then some (negsuc 0)
    else none

-- The loop of `client_wait_for_job` for so many rounds, from the `k`th on; none if it still waits.
unfoldable pub wait_loop : ℤ → ℤ → ℕ → (ℕ → Poll) → ℕ → ℕ → Option ℤ
wait_loop job_id timeout start polls zero k = none
wait_loop job_id timeout start polls (suc rounds) k =
    let rest = wait_loop job_id timeout start polls rounds (suc k) in
    let p = polls k in
    elim (decide timeout start p.now (get_status job_id p.exchange p.client).0) [
      | none ↦ rest
      | some v ↦ some v
    ]

-- `client_wait_for_job`, in so many rounds.
unfoldable pub wait_for_job : ℤ → ℤ → ℕ → (ℕ → Poll) → ℕ → Option ℤ
wait_for_job job_id timeout start polls rounds = wait_loop job_id timeout start polls rounds 0
