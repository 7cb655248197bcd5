-- ===== src/WorkerServer/Tasks.antt =====
-- worker_server.c: the tasks that the worker receives.
use c_simples.Prelude.{
  ◌≡◌, refl, inl, inr, pos, ◌=ℤ◌, false, Bool-cases, if_both, Option, none, some, List, [], ◌∷◌,
}
use c_simples.NetUtils.{RecvOutcome, received, recv_failed, recv_waits, recv_payload, return_value}
use c_simples.WorkerServer.{
  Header, MessageType, register_response, heartbeat_response, task, result_ack, shutdown,
  other_type, Done, TaskResult, LockStep, and_rest, Round, on_header, on_message, work_on,
  task_size, main_loop,
}

-- The value of `recv_payload` is never the size of the task.
value_ne_size : (o : RecvOutcome) → (return_value o =ℤ pos task_size) ≡ false
value_ne_size (received buf) = refl
value_ne_size recv_failed = refl
value_ne_size recv_waits = refl

work_on_nothing : (r : Round) (h : Header) → (work_on r h).results ≡ []
unfolding work_on
work_on_nothing r h = rw (value_ne_size (recv_payload task_size r.reads)) refl

on_message_nothing : (r : Round) (h : Header) (t : MessageType) → (on_message r h t).results ≡ []
on_message_nothing r h task = work_on_nothing r h
on_message_nothing r h shutdown = refl
on_message_nothing r h register_response = refl
on_message_nothing r h heartbeat_response = refl
on_message_nothing r h result_ack = refl
on_message_nothing r h other_type = refl

on_header_nothing : (r : Round) (o : Option Header) → (on_header r o).results ≡ []
on_header_nothing r none = refl
on_header_nothing r (some h) = on_message_nothing r h h.message_type

and_rest_nothing :
    (d : Done) (rest : List TaskResult × List LockStep)
    → d.results ≡ []
    → rest.0 ≡ []
    → (and_rest d rest).0 ≡ []
and_rest_nothing d rest e f = elim (Bool-cases d.goes_on) [
  | inl more ↦ rw (more, e) f
  | inr last ↦ rw last e
]

-- Whatever the central server sends, and also when every task arrives completely, the main loop works on
-- no task and sends no result.
pub main_loop-no_results : (rs : List Round) → (main_loop rs).0 ≡ []
unfolding main_loop
main_loop-no_results [] = refl
main_loop-no_results (r ∷ rs) =
    if_both (λ (o : List TaskResult × List LockStep). o.0 ≡ []) r.running _ _
      (and_rest_nothing (on_header r r.header) (main_loop rs) (on_header_nothing r r.header)
        (main_loop-no_results rs))
      refl
