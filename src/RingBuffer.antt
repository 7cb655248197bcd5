-- ===== src/RingBuffer.antt =====
-- distributed_worker_system/lib/src/ring_buffer.c and lib/include/ring_buffer.h: a bounded queue of
-- pointers, shared by threads. A call runs under the mutex, so it is one function; across a wait
-- on a condition variable the other threads run, and the call sees the buffer that they left.
pub mod Invariant
pub mod Refinement
pub mod Waiting
pub mod Destroy
pub mod Deadline
mod Tests
pub mod Queue
use c_simples.Prelude.{
  ℕ, zero, suc, ◌+◌, ◌-◌, ◌*◌, ◌/◌, ◌%◌, ltb, leb, ◌==◌, if◌then◌else◌, inc32, ℤ, pos, negsuc, Bool,
  true, false, ◌&&◌, not, Option, none, some, List, [], ◌∷◌, get_or, set,
}

-- `ring_buffer_t` without its mutex and condition variables. A NULL slot is `none`.
pub record RingBuffer {ℓ} (A : Type ℓ) : Type ℓ where
  pub buffer : List (Option A)
  pub capacity : ℕ
  pub size : ℕ
  pub head : ℕ
  pub tail : ℕ

-- What the calls of `ring_buffer_create` return: `malloc` of the struct, `malloc` of the array with
-- whatever it holds, and the three initialisations.
pub record CreateEnv {ℓ} (A : Type ℓ) : Type ℓ where
  pub struct_ok : Bool
  pub array : Option (List (Option A))
  pub mutex_ok : Bool
  pub not_empty_ok : Bool
  pub not_full_ok : Bool

-- `struct timeval` and `struct timespec`: seconds, and microseconds or nanoseconds.
pub record Time : Type 0 where
  pub sec : ℕ
  pub frac : ℕ

-- One return of `pthread_cond_timedwait` or `pthread_cond_wait`: its result, and the buffer as the
-- other threads left it when the mutex is held again.
pub record Wake {ℓ} (A : Type ℓ) : Type ℓ where
  pub code : ℕ
  pub seen : RingBuffer A

-- `pushed` is 0 and `push_failed` is -1, with the buffer after the call; `push_waits` is a call
-- that is still blocked.
pub data PushOutcome {ℓ} (A : Type ℓ) : Type ℓ where
  pushed : RingBuffer A → PushOutcome A
  push_failed : Option (RingBuffer A) → PushOutcome A
  push_waits : PushOutcome A

-- `popped` has the pointer that the call returns; `pop_failed` is NULL.
pub data PopOutcome {ℓ} (A : Type ℓ) : Type ℓ where
  popped : Option A → RingBuffer A → PopOutcome A
  pop_failed : Option (RingBuffer A) → PopOutcome A
  pop_waits : PopOutcome A

-- `n--` on a `uint32_t`
abbrev pub dec32 : ℕ → ℕ
dec32 n = (n + 4294967295) % 4294967296

-- `get_timeout_time` for a positive timeout; `none` is a failed `gettimeofday`.
pub get_timeout_time : Option Time → ℕ → Option Time
get_timeout_time none timeout_ms = none
get_timeout_time (some tv) timeout_ms =
    let s = tv.sec + timeout_ms / 1000 in
    let ns = (tv.frac + timeout_ms % 1000 * 1000) * 1000 in
    some (
      if leb 1000000000 ns
      then record { sec = s + 1; frac = ns - 1000000000 }
      else record { sec = s; frac = ns })

module _ {ℓ} {A : Type ℓ} where
  new_buffer : ℕ → List (Option A) → RingBuffer A
  new_buffer cap storage = record { buffer = storage; capacity = cap; size = 0; head = 0; tail = 0 }

  pub create : ℕ → CreateEnv A → Option (RingBuffer A)
  unfolding new_buffer
  create cap env = if cap == 0 then none else if not env.struct_ok then none else elim env.array [
    | none ↦ none
    | some storage ↦
        if env.mutex_ok && (env.not_empty_ok && env.not_full_ok)
        then some (new_buffer cap storage)
        else none
  ]

  -- The loop of `ring_buffer_destroy` over `i`, with `n` rounds left: the pointers that it frees,
  -- in order, and the array that it leaves.
  pub free_loop : ℕ → ℕ → ℕ → ℕ → List (Option A) → List (Option A) × List (Option A)
  free_loop cap head i zero buf = ([], buf)
  free_loop cap head i (suc n) buf =
      let idx = (head + i) % 4294967296 % cap in
      let (freed, rest) = free_loop cap head (inc32 i) n (set buf idx none) in
      (get_or buf idx none ∷ freed, rest)

  -- The pointers that `ring_buffer_destroy` passes to `free` for the elements.
  pub destroy : Option (RingBuffer A) → Bool → List (Option A)
  unfolding free_loop
  destroy none free_elements = []
  destroy (some rb) free_elements =
      if free_elements && ltb 0 rb.size
      then (free_loop rb.capacity rb.head 0 rb.size rb.buffer).0
      else []

  abbrev pub is_full_now : RingBuffer A → Bool
  is_full_now rb = rb.size == rb.capacity

  abbrev pub is_empty_now : RingBuffer A → Bool
  is_empty_now rb = rb.size == 0

  -- `while (blocked && result == 0) result = pthread_cond_timedwait(...)`; `none` while it waits.
  pub timed_wait :
      (RingBuffer A → Bool) → List (Wake A) → RingBuffer A → ℕ → Option (ℕ × RingBuffer A)
  timed_wait blocked [] rb result = if blocked rb && result == 0 then none else some (result, rb)
  timed_wait blocked (w ∷ ws) rb result =
      if blocked rb && result == 0 then timed_wait blocked ws w.seen w.code else some (result, rb)

  -- `while (blocked) pthread_cond_wait(...)`
  pub forever_wait : (RingBuffer A → Bool) → List (Wake A) → RingBuffer A → Option (RingBuffer A)
  forever_wait blocked [] rb = if blocked rb then none else some rb
  forever_wait blocked (w ∷ ws) rb = if blocked rb then forever_wait blocked ws w.seen else some rb

  -- The writes of `ring_buffer_push` once there is space.
  pub push_now : RingBuffer A → A → RingBuffer A
  push_now rb element = record rb {
    buffer = set rb.buffer rb.tail (some element);
    tail = inc32 rb.tail % rb.capacity;
    size = inc32 rb.size;
  }

  push_timed : Option (ℕ × RingBuffer A) → A → PushOutcome A
  push_timed none element = push_waits
  push_timed (some (result, rb)) element =
      if result == 0 then pushed (push_now rb element) else push_failed (some rb)

  push_forever : Option (RingBuffer A) → A → PushOutcome A
  push_forever none element = push_waits
  push_forever (some rb) element = pushed (push_now rb element)

  push_blocked : RingBuffer A → A → ℤ → Option Time → List (Wake A) → PushOutcome A
  unfolding push_timed push_forever
  push_blocked rb element (pos zero) clock ws = push_failed (some rb)
  push_blocked rb element (pos (suc t)) clock ws = elim (get_timeout_time clock (suc t)) [
    | none ↦ push_failed (some rb)
    | some _ ↦ push_timed (timed_wait is_full_now ws rb 0) element
  ]
  push_blocked rb element (negsuc t) clock ws =
      push_forever (forever_wait is_full_now ws rb) element

  pub push : Option (RingBuffer A) → Option A → ℤ → Option Time → List (Wake A) → PushOutcome A
  unfolding push_blocked
  push none element timeout clock ws = push_failed none
  push (some rb) none timeout clock ws = push_failed (some rb)
  push (some rb) (some element) timeout clock ws =
      if is_full_now rb
      then push_blocked rb element timeout clock ws
      else pushed (push_now rb element)

  -- The read and the writes of `ring_buffer_pop` once there is an element.
  pub pop_now : RingBuffer A → PopOutcome A
  pop_now rb =
      popped (get_or rb.buffer rb.head none)
        (record rb { head = inc32 rb.head % rb.capacity; size = dec32 rb.size })

  pop_timed : Option (ℕ × RingBuffer A) → PopOutcome A
  pop_timed none = pop_waits
  pop_timed (some (result, rb)) = if result == 0 then pop_now rb else pop_failed (some rb)

  pop_forever : Option (RingBuffer A) → PopOutcome A
  pop_forever none = pop_waits
  pop_forever (some rb) = pop_now rb

  pop_blocked : RingBuffer A → ℤ → Option Time → List (Wake A) → PopOutcome A
  unfolding pop_timed pop_forever
  pop_blocked rb (pos zero) clock ws = pop_failed (some rb)
  pop_blocked rb (pos (suc t)) clock ws = elim (get_timeout_time clock (suc t)) [
    | none ↦ pop_failed (some rb)
    | some _ ↦ pop_timed (timed_wait is_empty_now ws rb 0)
  ]
  pop_blocked rb (negsuc t) clock ws = pop_forever (forever_wait is_empty_now ws rb)

  pub pop : Option (RingBuffer A) → ℤ → Option Time → List (Wake A) → PopOutcome A
  unfolding pop_blocked
  pop none timeout clock ws = pop_failed none
  pop (some rb) timeout clock ws =
      if is_empty_now rb then pop_blocked rb timeout clock ws else pop_now rb

  pub size_of : Option (RingBuffer A) → ℕ
  size_of none = 0
  size_of (some rb) = rb.size

  pub capacity_of : Option (RingBuffer A) → ℕ
  capacity_of none = 0
  capacity_of (some rb) = rb.capacity

  pub is_empty : Option (RingBuffer A) → Bool
  is_empty none = true
  is_empty (some rb) = rb.size == 0

  pub is_full : Option (RingBuffer A) → Bool
  is_full none = false
  is_full (some rb) = rb.size == rb.capacity
