-- ===== src/Server/Tests.antt =====
-- The server at concrete inputs.
use c_simples.Prelude.{
  ℕ, pos, negsuc, ◌≡◌, refl, ◌⊎◌, true, false, some, List, [], ◌∷◌, arith, inc, dec, ◌++◌,
}
use c_simples.JobHandler
use c_simples.JobHandler.{Limits}
use c_simples.JobHandler.Calls.{init-IsValid}
use c_simples.WorkerManager
use c_simples.WorkerManager.{find_worker_by_id}
use c_simples.WorkerManager.Invariant.{init-IsSound}
use c_simples.Server.{
  System, ClientMessage, WorkerMessage, submit_job, get_job_result, worker_register, request_job,
  job_done, job_result, Answers, handle_client_message, handle_worker_message, response_to,
  to_client,
}
use c_simples.Server.Events.{
  cleans_up, Event, client_sends, worker_sends, main_checks, run, step, Round, message, peer_closed,
  Received,
}
use c_simples.Server.Consistency.{IsConsistent, IsEmpty, run-IsConsistent}
use c_simples.Server.Replies.{Replies, is_submission, handle_client_message-Replies}
use c_simples.Server.JobRequests.{
  AsksUnknown, AsksIdle, AsksUnsent, AsksServed, idle, request_job_lem,
}
use c_simples.Server.Results.{get_job_result-job_done}
use c_simples.Server.Lifetime.{ServerConfig, InitAnswers, server_init, server_start}
use c_simples.Server.Lifetime.Resources.{Undone, SetUp, server_init_lem}
use c_simples.Server.Accept.{AcceptRound, client_connect, accept_loop, let_go, let_go-accept_loop}

abbrev limits : Limits
limits = record { max_retries = 3; timeout_error = negsuc 19 }

-- The globals as the program starts.
abbrev unset : System
unset = record {
  is_running = false;
  jobs = record {
    jobs = [];
    timeout_seconds = pos 0;
    next_job_id = 1;
    stats = record {
      pending_jobs = pos 0;
      running_jobs = pos 0;
      completed_jobs = pos 0;
      failed_jobs = pos 0;
    };
  };
  workers = record {
    workers = [];
    next_worker_id = 1;
    stats = record { total_workers = pos 0; idle_workers = pos 0; busy_workers = pos 0 };
  };
}

-- Room for two jobs and two workers, each with up to two job types.
abbrev fresh : System
fresh = record {
  is_running = true;
  jobs = (JobHandler.init (pos 2) (pos 5) true unset.jobs).1;
  workers = (WorkerManager.init 2 (pos 2) true unset.workers).1;
}

fresh-IsConsistent : IsConsistent 2 limits fresh
unfolding JobHandler.init WorkerManager.init
fresh-IsConsistent = record {
  jobs_valid = (init-IsValid limits (pos 2) (pos 5) true unset.jobs refl refl refl refl refl).0;
  workers_sound = init-IsSound 2 1 unset.workers refl;
}

abbrev granted : Answers
granted = record { now = 1000; allocated = true; delivered = true; sent = true }

abbrev to_submit : ClientMessage
to_submit = record {
  message_id = pos 11;
  client_id = pos 3;
  body = submit_job (pos 2) (some (104 ∷ 105 ∷ [])) 2;
}

abbrev to_ask : ClientMessage
to_ask = record { message_id = pos 12; client_id = pos 3; body = get_job_result (pos 1) }

abbrev to_register : WorkerMessage
to_register = record {
  message_id = pos 21;
  worker_id = pos 0;
  body = worker_register (some (49 ∷ [])) (pos 80) (some (pos 2 ∷ [])) (pos 1);
}

abbrev to_request : WorkerMessage
to_request = record { message_id = pos 22; worker_id = pos 1; body = request_job }

abbrev to_report : WorkerMessage
to_report = record {
  message_id = pos 23;
  worker_id = pos 1;
  body = job_done (pos 1) (some (105 ∷ 104 ∷ [])) 2 (pos 30);
}

abbrev morning : List Event
morning = worker_sends granted (pos 9) to_register ∷ client_sends granted (pos 7) to_submit ∷ []

-- One job waits, and one worker is idle.
abbrev open_shop : System
open_shop = run 2 limits fresh morning

-- The worker has the job.
abbrev at_work : System
at_work = run 2 limits fresh (morning ++ worker_sends granted (pos 9) to_request ∷ [])

-- After the server has stopped a client submits a job.
abbrev evening : List Event
evening = client_sends granted (pos 7) to_submit ∷ []

run-IsConsistent_example :
    IsConsistent 2 limits open_shop
    × IsEmpty 2 limits (run 2 limits open_shop (cleans_up ∷ evening))
run-IsConsistent_example =
    run-IsConsistent 2 limits fresh morning evening (omega arith) fresh-IsConsistent
      (refl, (refl, tt))

open_shop-IsConsistent : IsConsistent 2 limits open_shop
open_shop-IsConsistent =
    (run-IsConsistent 2 limits fresh morning [] (omega arith) fresh-IsConsistent
      (refl, (refl, tt))).0

at_work-IsConsistent : IsConsistent 2 limits at_work
at_work-IsConsistent =
    (run-IsConsistent 2 limits fresh (morning ++ worker_sends granted (pos 9) to_request ∷ []) []
      (omega arith) fresh-IsConsistent (refl, (refl, (refl, tt)))).0

handle_client_message-Replies_example :
    Replies granted (pos 7) to_ask (handle_client_message granted (pos 7) to_ask open_shop)
    × (is_submission to_ask.body ≡ false
        → (handle_client_message granted (pos 7) to_ask open_shop).2 ≡ open_shop)
handle_client_message-Replies_example =
    handle_client_message-Replies granted (pos 7) to_ask open_shop

request_job_lem_example :
    let o = handle_worker_message 2 limits granted (pos 9) to_request open_shop in
    AsksUnknown 2 limits granted (pos 9) to_request open_shop o
    ⊎ ((i : ℕ) × (w : WorkerManager.Worker) × (find_worker_by_id open_shop.workers (pos 1)
          ≡ some (i, w))
        × (((AsksIdle 2 limits granted (pos 9) to_request open_shop o
                ⊎ AsksUnsent 2 limits granted (pos 9) to_request open_shop o)
              × (find_worker_by_id o.2.workers (pos 1)
                  ≡ some (i, idle 2 limits granted (pos 9) to_request w)))
            ⊎ AsksServed 2 limits granted (pos 9) to_request open_shop i w o))
request_job_lem_example =
    request_job_lem 2 limits granted (pos 9) to_request open_shop refl (omega arith)
      open_shop-IsConsistent.jobs_valid

abbrev running_job : JobHandler.Job
running_job =
    JobHandler.taken (JobHandler.new_job 1 (pos 7) (pos 2) (some (104 ∷ 105 ∷ [])) 2 1000) (pos 9)
      1000

job_at_work : JobHandler.find_job_by_id at_work.jobs (pos 1) ≡ some (0, running_job)
unfolding JobHandler.init WorkerManager.init run step handle_client_message handle_worker_message
    JobHandler.submit JobHandler.find_free_job_slot JobHandler.assign JobHandler.assign_begin
    JobHandler.oldest_loop JobHandler.find_job_by_id JobHandler.find_loop WorkerManager.register
    WorkerManager.find_free_worker_slot WorkerManager.update_status WorkerManager.assign_job
    WorkerManager.find_worker_by_id WorkerManager.find_loop inc dec
job_at_work = refl

get_job_result-job_done_example :
    let s' =
      run 2 limits
        (handle_worker_message 2 limits granted (pos 9) to_report at_work).2
        (main_checks 5000 5000 ∷ []) in
    handle_client_message granted (pos 7) to_ask s' ≡ (
      true,
      response_to (pos 7) (to_client to_ask (job_result (pos 1) (some (105 ∷ 104 ∷ [])) 2)) ∷ [],
      s',
    )
get_job_result-job_done_example =
    get_job_result-job_done 2 limits at_work granted granted (pos 9) (pos 7) (pos 1) (pos 30)
      to_report to_ask (105 ∷ 104 ∷ []) 1 0 running_job (main_checks 5000 5000 ∷ []) (refl, tt) refl
      refl (omega arith) at_work-IsConsistent.jobs_valid job_at_work refl refl refl

abbrev config : ServerConfig
config = record {
  ip_address = [];
  port = pos 8080;
  max_clients = pos 5;
  max_workers = pos 2;
  max_jobs = pos 2;
  job_timeout_seconds = pos 5;
}

-- `bind` fails.
abbrev port_taken : InitAnswers
port_taken = record {
  mutex_ok = true;
  jobs_allocated = true;
  workers_allocated = true;
  socket_ok = true;
  option_ok = true;
  address_ok = true;
  bind_ok = false;
  listen_ok = true;
}

server_init_lem_example :
    Undone (server_init 2 (some config) port_taken unset)
    ⊎ (SetUp (server_init 2 (some config) port_taken unset)
        × IsConsistent 2 limits (server_init 2 (some config) port_taken unset).2)
server_init_lem_example =
    server_init_lem 2 limits (some config) port_taken unset (refl, refl)
      (record {
        no_pending = refl;
        no_running = refl;
        no_completed = refl;
        no_failed = refl;
        no_workers = refl;
      })

abbrev idle_server : System
idle_server = record fresh { is_running = false }

still_running : (run 2 limits (server_start true idle_server).2 morning).is_running ≡ true
unfolding server_start run step handle_client_message handle_worker_message WorkerManager.register
    WorkerManager.find_free_worker_slot JobHandler.submit JobHandler.find_free_job_slot
    JobHandler.init WorkerManager.init
still_running = refl

abbrev quiet : {M : Type 0} → Received M → Round M
quiet r = record { before = []; meanwhile = []; received = r; answers = granted }

abbrev visit : List (Round ClientMessage)
visit = quiet (message to_submit) ∷ quiet (message to_ask) ∷ quiet peer_closed ∷ []

abbrev shift : List (Round WorkerMessage)
shift = quiet (message to_register) ∷ quiet (message to_request) ∷ quiet peer_closed ∷ []

-- The second socket cannot be given to a thread.
abbrev arrivals : List AcceptRound
arrivals =
    record {
      is_running = true;
      accepted = some (pos 7);
      first_message = some client_connect;
      allocated = true;
      created = true;
    }
    ∷ record {
      is_running = true;
      accepted = some (pos 8);
      first_message = some client_connect;
      allocated = true;
      created = false;
    }
    ∷ []

let_go-accept_loop_example : let_go (accept_loop arrivals) ≡ pos 7 ∷ pos 8 ∷ []
let_go-accept_loop_example = let_go-accept_loop arrivals
