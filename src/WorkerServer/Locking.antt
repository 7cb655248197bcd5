-- ===== src/WorkerServer/Locking.antt =====
-- worker_server.c: the uses of `socket_mutex`.
use c_simples.Prelude.{
  ◌≡◌, refl, inl, inr, pos, ◌=ℤ◌, Bool, true, false, Bool-cases, if_both, not, ◌&&◌, Option, none,
  some, List, [], ◌∷◌, ◌++◌,
}
use c_simples.NetUtils.{recv_payload, return_value}
use c_simples.WorkerServer.{
  Header, MessageType, register_response, heartbeat_response, task, result_ack, shutdown,
  other_type, Done, TaskResult, and_rest, LockStep, locks, unlocks, Round, on_header, on_message,
  work_on, task_size, main_loop, send_heartbeat, send_task_result, after_heartbeat,
  heartbeat_answered,
}

-- Each lock is followed by one unlock, and nothing is unlocked that is not locked.
abbrev pub is_paired : List LockStep → Bool
is_paired [] = true
is_paired (locks ∷ unlocks ∷ steps) = is_paired steps
is_paired _ = false

abbrev pub is_task : Option Header → Bool
is_task none = false
is_task (some h) = elim h.message_type [ task ↦ true | _ ↦ false ]

heartbeat_paired :
    (h : Header) (t : MessageType)
    → h.message_type ≡ t
    → is_paired (locks ∷ unlocks ∷ (heartbeat_answered t).1)
      ≡ not (elim t [ task ↦ true | _ ↦ false ])
heartbeat_paired h task e = refl
heartbeat_paired h shutdown e = refl
heartbeat_paired h register_response e = refl
heartbeat_paired h heartbeat_response e = refl
heartbeat_paired h result_ack e = refl
heartbeat_paired h other_type e = refl

sent_paired :
    (o : Option Header) → is_paired (locks ∷ unlocks ∷ (after_heartbeat o).1) ≡ not (is_task o)
sent_paired none = refl
sent_paired (some h) = heartbeat_paired h h.message_type refl

-- The main loop only ever appends whole pairs.
paired_more :
    (xs ys : List LockStep)
    → is_paired xs ≡ true
    → is_paired ys ≡ true
    → is_paired (xs ++ ys) ≡ true
paired_more [] ys a b = b
paired_more (locks ∷ []) ys a b = cc
paired_more (locks ∷ locks ∷ xs) ys a b = cc
paired_more (locks ∷ unlocks ∷ xs) ys a b = paired_more xs ys a b
paired_more (unlocks ∷ xs) ys a b = cc

work_paired : (r : Round) (h : Header) → is_paired (work_on r h).steps ≡ true
unfolding work_on send_task_result
work_paired r h =
    elim (Bool-cases (return_value (recv_payload task_size r.reads) =ℤ pos task_size)) [
      | inl e ↦ rw e refl
      | inr e ↦ rw e refl
    ]

message_paired :
    (r : Round) (h : Header) (t : MessageType) → is_paired (on_message r h t).steps ≡ true
message_paired r h task = work_paired r h
message_paired r h shutdown = refl
message_paired r h register_response = refl
message_paired r h heartbeat_response = refl
message_paired r h result_ack = refl
message_paired r h other_type = refl

header_paired : (r : Round) (o : Option Header) → is_paired (on_header r o).steps ≡ true
header_paired r none = refl
header_paired r (some h) = message_paired r h h.message_type

and_rest_paired :
    (d : Done) (rest : List TaskResult × List LockStep)
    → is_paired d.steps ≡ true
    → is_paired rest.1 ≡ true
    → is_paired (and_rest d rest).1 ≡ true
and_rest_paired d rest e f = elim (Bool-cases d.goes_on) [
  | inl more ↦ rw more (paired_more d.steps rest.1 e f)
  | inr last ↦ rw last e
]

main_loop_paired : (rs : List Round) → is_paired (main_loop rs).1 ≡ true
unfolding main_loop
main_loop_paired [] = refl
main_loop_paired (r ∷ rs) =
    if_both (λ (o : List TaskResult × List LockStep). is_paired o.1 ≡ true) r.running _ _
      (and_rest_paired (on_header r r.header) (main_loop rs) (header_paired r r.header)
        (main_loop_paired rs))
      refl

-- In the main loop, in `send_task_result` and in `send_heartbeat` each lock of `socket_mutex` is followed by
-- exactly one unlock, with one exception: if the heartbeat is sent and a task is its answer,
-- `send_heartbeat` unlocks a second time.
pub socket_mutex_lem :
    (rs : List Round) (sent : Bool) (header : Option Header)
    → (is_paired (main_loop rs).1 ≡ true)
      × (is_paired (send_task_result sent header).1 ≡ true)
      × (is_paired (send_heartbeat sent header).1 ≡ not (sent && is_task header))
unfolding send_task_result send_heartbeat
socket_mutex_lem rs true header = (main_loop_paired rs, refl, sent_paired header)
socket_mutex_lem rs false header = (main_loop_paired rs, refl, refl)
