-- ===== src/Client/Tests.antt =====
-- The client at concrete inputs.
use c_simples.Prelude.{
  ℕ, ◌+◌, ◌*◌, ◌<◌, ◌≤◌, ◌≡◌, refl, ◌⊎◌, ◌==◌, if◌then◌else◌, ℤ, pos, negsuc, Bool, true, false,
  none, some, List, [], ◌∷◌, ◌++◌, length, arith, replicate,
}
use c_simples.JobHandler
use c_simples.JobHandler.{Handler}
use c_simples.Client.{
  Client, ClientConfig, Exchange, register_response, job_submitted, job_status, job_result,
  submit_job, sends, as_uint32, submit, Poll, wait_for_job, init, connect_to_server,
  disconnect_from_server, wait_loop, get_status,
}
use c_simples.Client.Requests.{accepted, submit-stored}
use c_simples.Client.Waiting.{decision, IsEnd, wait_for_job_lem}
use c_simples.Client.Sockets.{
  calls_init, calls_connect, calls_disconnect, Call, run, step, held, lost, open_after, run-open,
}

abbrev config : ClientConfig
config = record { server_ip = 49 ∷ []; server_port = pos 8080; reconnect_interval_seconds = pos 5 }

abbrev client : Client
client = record { config = config; client_id = pos 1; server_socket = pos 4; is_connected = true }

abbrev fresh : Client
fresh = record {
  config = config;
  client_id = negsuc 0;
  server_socket = negsuc 0;
  is_connected = false;
}

abbrev welcome : Exchange
welcome = record { sent = true; answer = some (register_response 9) }

abbrev refused : Exchange
refused = record { sent = true; answer = some (job_status 0) }

abbrev accepts : Exchange
accepts = record { sent = true; answer = some (job_submitted 12) }

abbrev hi : List ℕ
hi = 104 ∷ 105 ∷ []

submit-stored_example :
    ((1024 < length hi) × (submit (pos 2) (some hi) (length hi) accepts client ≡ (negsuc 0, [])))
    ⊎ ((array : List ℕ) × (length array ≡ 1024)
        × (submit (pos 2) (some hi) (length hi) accepts client ≡ (
          accepted accepts,
          sends (pos 4) (submit_job (as_uint32 (pos 1)) (as_uint32 (pos 2)) array (length hi)) ∷ [],
        ))
        × ((socket type : ℤ) (ok : Bool) (now : ℕ) (h : Handler)
            → JobHandler.submit socket type (some array) (length hi) ok now h
              ≡ JobHandler.submit socket type (some hi) (length hi) ok now h))
submit-stored_example = submit-stored (pos 2) hi accepts client refl

number : (submit (pos 2) (some hi) 2 accepts client).0 ≡ pos 12
unfolding submit
number = refl

-- A result whose size the server gives as 1026, in an array of 1024 bytes.
abbrev array : List ℕ
array = replicate 1024 7

abbrev long : Exchange
long = record { sent = true; answer = some (job_result array (8 ∷ 9 ∷ 10 ∷ []) 1026) }

-- A job that is over in the third round, and one that never is.
abbrev three_rounds : ℕ → Poll
three_rounds k = record {
  client = client;
  exchange = record { sent = true; answer = some (job_status (if k == 2 then 2 else 1)) };
  now = 5000 + k * 100;
}

abbrev always_running : ℕ → Poll
always_running k = record {
  client = client;
  exchange = record { sent = true; answer = some (job_status 1) };
  now = 5000 + k * 100;
}

over : wait_for_job (pos 12) (pos 1) 5000 three_rounds 20 ≡ some (pos 2)
unfolding wait_for_job wait_loop get_status
over = refl

gives_up : wait_for_job (pos 12) (pos 1) 5000 always_running 20 ≡ some (negsuc 0)
unfolding wait_for_job wait_loop get_status
gives_up = refl

waits : wait_for_job (pos 12) (pos 0) 5000 always_running 20 ≡ none
unfolding wait_for_job wait_loop get_status
waits = refl

wait_for_job_lem_example :
    (k : ℕ) × (v : ℤ) × (k ≤ 1 * 10)
    × (decision (pos 12) (pos 1) 5000 three_rounds k ≡ some v)
    × ((j : ℕ) → j < k → decision (pos 12) (pos 1) 5000 three_rounds j ≡ none)
    × ((rounds : ℕ) → k < rounds → wait_for_job (pos 12) (pos 1) 5000 three_rounds rounds ≡ some v)
    × IsEnd v
wait_for_job_lem_example =
    wait_for_job_lem (pos 12) 1 5000 three_rounds (omega arith) (λ k. omega arith)

-- A connection that is refused, two that succeed, and the end.
abbrev twice : List Call
twice =
    calls_init (some config) true
    ∷ calls_connect (some 4) true refused
    ∷ calls_connect (some 4) true welcome
    ∷ calls_connect (some 5) true welcome
    ∷ calls_disconnect
    ∷ []

run-open_example :
    open_after (held fresh ++ []) (run fresh twice).0
    ≡ held (run fresh twice).1 ++ lost fresh twice []
run-open_example = run-open twice fresh []

still_open : open_after [] (run fresh twice).0 ≡ 4 ∷ []
unfolding run step init connect_to_server disconnect_from_server
still_open = refl
