-- ===== src/Lib.antt =====
-- A verification library for c.simples: models of its distributed worker system
-- (distributed_worker_system/), of its heartbeat server (heartbeat_server.c) and of a part of its
-- traffic analyzer (NetTrafficAnalyzer/) in a cubical type theory, with the theorems that make them
-- correct.
--
-- The program. A central server (central_server/) keeps the workers that are connected in a
-- registry (worker_registry.c) and the tasks that it hands out in a task manager
-- (task_manager.c), whose queue is a ring buffer of the shared library (lib/src/ring_buffer.c). A
-- second server (server/) keeps the jobs of its clients (client/client.c) in a job handler
-- (job_handler.c) and its workers in a worker manager (worker_manager.c); its workers are programs
-- of worker/worker.c, and those of the central server are programs of worker_server/worker_server.c.
-- Threads share each of these parts under its mutex. Apart from these, the heartbeat server takes
-- heartbeats over TCP and HTTP and keeps the latest 100, and the traffic analyzer keeps records of
-- connections.
--
-- The files.
--   Prelude        shared names; C arrays as lists, Boolean tests, signed counters, counting.
--   RingBuffer     lib/src/ring_buffer.c and lib/include/ring_buffer.h.
--     Invariant      well-formed buffers and the queue that one holds; create
--     Queue          the specification: a bounded first-in first-out queue
--     Refinement     the buffer against the specification
--     Waiting        calls that wait on a condition variable
--     Deadline       get_timeout_time
--     Destroy        ring_buffer_destroy
--   JobHandler     server/job_handler.c and server/job_handler.h.
--     State          the globals and the structures
--     Table          the searches of the table
--     Counts         the statistics against the table
--     Numbering      the numbers of the jobs
--     Moves          what the calls can do to one job, as a step relation
--     Invariant      the invariant of the table, and the moves
--     Calls          the calls as moves; runs; init; an assignment that is not sent
--     Lifecycle      what becomes of one job in a run
--     Schedule       which job is assigned
--     Totals         the statistics together
--     Results        complete and then get_result
--     Races          the window in assign, and init after cleanup
--     Emptied        the calls on a table that is cleaned up
--   WorkerManager  server/worker_manager.c and server/worker_manager.h.
--     State          the globals and the structures
--     Table          the searches of the table
--     Roster         the numbers of the workers and the total
--     Invariant      the numbers and the total under each call
--     Statistics     the idle and busy statistics against the table
--     Lawful         both under calls that respect the status of a worker
--     Drift          both under the other calls
--     Available      find_available
--     Inactive       check_inactive
--     Emptied        the calls on a table that is cleaned up
--   TaskManager    central_server/task_manager.c and central_server/task_manager.h, on RingBuffer.
--     Table          the numbers of the tasks and their data
--     Invariant      the table and the queue together; create_task
--     Calls          get_next_task, and runs
--     Timeouts       check_timeouts
--   WorkerRegistry central_server/worker_registry.c and central_server/worker_registry.h.
--     Numbers        add and get
--     Removal        remove, and what add does after it
--     Timeouts       check_timeouts
--   NetUtils       lib/src/net_utils.c: recv_payload.
--     Receive        a message that arrives in pieces
--   CentralServer  central_server/central_server.c: its handlers over WorkerRegistry and TaskManager.
--     Results        the results that workers report
--     Assignment     assign_task_to_worker
--   Server         server/server.c, server/server.h, and the loop of server/server_main.c: the
--                  messages of clients and workers over JobHandler and WorkerManager.
--     State          the messages, the responses and the state
--     Events         the steps of all threads, and the loops of the connections
--     Consistency    the messages as calls of the two modules; the clean-up of server_stop
--     Replies        the responses to a client
--     JobRequests    a worker that asks for a job
--     Results        a result that is reported and then asked for
--     Lifetime       server_init, server_start, server_stop and server_get_stats
--       Resources      what they take and give back
--     Sessions       whole connections
--     Accept         the accept thread
--   HeartbeatServer heartbeat_server.c and heartbeat_server.h: handle_client.
--     Urls           url_decode and parse_key_value
--     Decoding       encoded texts against both
--     Storage        the linked list of heartbeats
--     Recent         the list against the latest heartbeats
--     Readings       heartbeats from JSON and from a form
--     Validity       which of them are accepted
--     Serving        what a request does; the history after any requests
--     Forms          forms as lists of fields
--     Carried        the heartbeat that a text carries
--     Listening      run_tcp_server and run_http_server
--   WorkerServer   worker_server/worker_server.c: connecting, registering, heartbeats and tasks.
--     Registration   which answers count, and when it gives up
--     Tasks          the tasks that are received
--     Locking        the uses of socket_mutex
--   Client         client/client.c: the session with the server, and its requests.
--     Requests       what a submission stores, and the copy of a result
--     Waiting        client_wait_for_job
--     Sockets        the sockets of a session
--   Worker         worker/worker.c: the jobs that a worker does, and its session with the server.
--     Jobs           worker_process_job
--     Connection     worker_start and the reconnection
--     Threads        the messages and the statistics of its two threads
--     Heartbeats     the sockets of the heartbeat thread
--     Counts         the statistics against the jobs that are taken
--
--   NetTrafficAnalyzer NetTrafficAnalyzer/additional_functions.c: cleanup_old_records.
--     Cleanup        the records that stay
--
-- The module Tests below each part runs it, and applies its theorems, at concrete inputs.
--
-- How the state corresponds. A call holds its part's mutex from start to end, so it is one
-- function from the state before to the result and the state after; where a call gives the mutex
-- up in between, its critical sections are functions of their own (assign_begin and
-- assign_rollback of job_handler_assign), or the returns of the condition variable are a list of
-- wake-ups, each with the state that other threads left (RingBuffer). A function keeps the name
-- of its C function without the part's prefix. A static array with its size is a list, and a null
-- array the empty list; an array with a count of used entries is the list of these. A pointer
-- into a table is the index, with the record there. NULL is none, and a C string or byte buffer
-- is the list of its bytes. What the environment answers is an argument: the clock, whether
-- malloc, pthread_mutex_init and send_message succeed, what read returns, and the contents of
-- memory that malloc returns. MAX_JOB_RETRIES, ERR_JOB_TIMEOUT, MAX_JOB_TYPES and the JOB_TYPE_
-- numbers are parameters, since no file of the repository defines them; so are the numbers of type
-- double, inet_pton and the json-c library of the heartbeat server. A handler of Server is one
-- step: other threads run between messages and in the waits of a connection, which are lists of
-- their events, but not between two calls of one handler.
--
-- Numbers. The uint32_t sizes and indices of the ring buffer and the task numbers wrap at 2^32 in
-- the model (inc32, dec32). The counters of type int that go up and down are signed integers
-- without overflow, and those that only count up, identifiers and times, are natural numbers: the
-- overflow of a signed integer is undefined in C. Every loop is structural
-- recursion. Fuel is used in two places: in the loop of ring_buffer_destroy, which counts its size
-- down as the code does, and in that of client_wait_for_job, whose rounds are counted; ten of them for
-- each second of the timeout and one more are enough. The loops of connections and threads run through
-- a list of what they are given, and stop at its end.
--
-- Not modelled. Log output; in central_server.c start-up, the client's thread, and two handlers that
-- interleave; protocol.c and the rest of net_utils.c, which wrap system calls; the entry points; the
-- heartbeat client and sysinfo, which read /proc and send HTTP requests; the earlier copies of the
-- heartbeat server; the reports and the configuration of NetTrafficAnalyzer, c-client-server-app with
-- its vendored copy of Unity, and bin2arr. The memory that malloc gives is never aliased by the parts
-- that are modelled, so the store is not explicit.
pub mod Prelude
pub mod RingBuffer
pub mod JobHandler
pub mod WorkerManager
pub mod WorkerRegistry
pub mod TaskManager
pub mod NetUtils
pub mod CentralServer
pub mod Worker
pub mod Server
pub mod HeartbeatServer
pub mod WorkerServer
pub mod Client
pub mod NetTrafficAnalyzer
