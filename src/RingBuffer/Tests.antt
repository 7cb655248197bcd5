-- ===== src/RingBuffer/Tests.antt =====
-- Runs of the ring buffer at concrete inputs.
use c_simples.Prelude.{
  ℕ, ◌<◌, ◌≡◌, refl, true, false, Option, none, some, List, [], ◌∷◌, ◌++◌, arith, length, pos,
  negsuc,
}
use c_simples.RingBuffer.{
  RingBuffer, CreateEnv, create, push, pop, pushed, popped, pop_now, destroy, get_timeout_time,
  push_now, push_blocked, pop_blocked, timed_wait, forever_wait,
}
use c_simples.RingBuffer.Invariant.{Represents}
use c_simples.RingBuffer.Queue.{
  Call, push_call, pop_call, size_call, queue_run, queue_step, stored, element, number,
}
use c_simples.RingBuffer.Refinement.{ring_run, ring_run-queue_run}
use c_simples.RingBuffer.Waiting.{Seen, push_waiting, pop_waiting}

abbrev storage : List (Option ℕ)
storage = none ∷ none ∷ none ∷ []

abbrev env : CreateEnv ℕ
env = record {
  struct_ok = true;
  array = some storage;
  mutex_ok = true;
  not_empty_ok = true;
  not_full_ok = true;
}

abbrev fresh : RingBuffer ℕ
fresh = record { buffer = storage; capacity = 3; size = 0; head = 0; tail = 0 }

-- 8, then 9, round the end of the array.
abbrev wrapped : RingBuffer ℕ
wrapped = record {
  buffer = some 9 ∷ none ∷ some 8 ∷ [];
  capacity = 3;
  size = 2;
  head = 2;
  tail = 1;
}

abbrev full : RingBuffer ℕ
full = record { buffer = some 9 ∷ some 4 ∷ some 8 ∷ []; capacity = 3; size = 3; head = 2; tail = 2 }

wrapped-Represents : Represents wrapped (8 ∷ 9 ∷ [])
wrapped-Represents = record { valid = omega arith; held = refl }

full-Represents : Represents full (8 ∷ 9 ∷ 4 ∷ [])
full-Represents = record { valid = omega arith; held = refl }

fresh-Represents : Represents fresh []
fresh-Represents = record { valid = omega arith; held = refl }

create_fails_on_zero : create 0 env ≡ none
unfolding create
create_fails_on_zero = refl

push_wraps : push (some wrapped) (some 4) (pos 0) none [] ≡ pushed full
unfolding push push_now
push_wraps = refl

-- A timed push waits, another thread pops, and the wake-up finds space.
push_after_wake :
    push
      (some full)
      (some 5)
      (pos 10)
      (some (record { sec = 1; frac = 0 }))
      (record { code = 0; seen = wrapped } ∷ [])
    ≡ pushed (push_now wrapped 5)
unfolding push push_blocked get_timeout_time timed_wait
push_after_wake = refl

destroy_frees : destroy (some wrapped) true ≡ some 8 ∷ some 9 ∷ []
unfolding destroy
destroy_frees = refl

abbrev calls : List (Call ℕ)
calls = push_call 1 ∷ push_call 2 ∷ size_call ∷ pop_call ∷ []

ring_run-queue_run_example :
    ring_run wrapped calls ≡ stored true ∷ stored false ∷ number 3 ∷ element (some 8) ∷ []
unfolding queue_run queue_step
ring_run-queue_run_example = ring_run-queue_run calls wrapped (8 ∷ 9 ∷ []) wrapped-Represents

push_waiting_example :
    (r : RingBuffer ℕ) × (q : List ℕ) × Seen r full (record { code = 0; seen = wrapped } ∷ [])
    × Represents r q
    × (length q < r.capacity)
    × Represents (push_now wrapped 5) (q ++ 5 ∷ [])
push_waiting_example =
    push_waiting full (push_now wrapped 5) 5 (pos 10) (some (record { sec = 1; frac = 0 }))
      (record { code = 0; seen = wrapped } ∷ []) (8 ∷ 9 ∷ 4 ∷ [], full-Represents)
      ((8 ∷ 9 ∷ [], wrapped-Represents), tt) push_after_wake

pop_waits_then_takes :
    pop (some fresh) (negsuc 0) none (record { code = 0; seen = wrapped } ∷ [])
    ≡ popped (some 8) (record {
      buffer = some 9 ∷ none ∷ some 8 ∷ [];
      capacity = 3;
      size = 1;
      head = 0;
      tail = 1;
    })
unfolding pop pop_blocked pop_now forever_wait
pop_waits_then_takes = refl

pop_waiting_example :
    (r : RingBuffer ℕ) × (y : ℕ) × (q : List ℕ) × Seen r fresh
      (record { code = 0; seen = wrapped } ∷ [])
    × Represents r (y ∷ q)
    × (some 8 ≡ some y)
    × Represents
        (record {
          buffer = some 9 ∷ none ∷ some 8 ∷ [];
          capacity = 3;
          size = 1;
          head = 0;
          tail = 1;
        })
        q
pop_waiting_example =
    pop_waiting fresh _ (some 8) (negsuc 0) none (record { code = 0; seen = wrapped } ∷ [])
      ([], fresh-Represents) ((8 ∷ 9 ∷ [], wrapped-Represents), tt) pop_waits_then_takes
