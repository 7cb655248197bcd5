-- ===== src/RingBuffer/Queue.antt =====
-- The abstract specification: a first-in first-out queue of at most `cap` elements, the calls that a
-- client makes, and what it sees of each.
use c_simples.Prelude.{
  ℕ, ltb, ◌==◌, if◌then◌else◌, Bool, Option, none, some, List, [], ◌∷◌, ◌++◌, length,
}

-- A call of `ring_buffer_push` and of `ring_buffer_pop` with timeout 0, and the queries.
pub data Call {ℓ} (A : Type ℓ) : Type ℓ where
  push_call : A → Call A
  pop_call : Call A
  size_call : Call A
  is_empty_call : Call A
  is_full_call : Call A

pub data Reply {ℓ} (A : Type ℓ) : Type ℓ where
  stored : Bool → Reply A
  element : Option A → Reply A
  number : ℕ → Reply A
  flag : Bool → Reply A

module _ {ℓ} {A : Type ℓ} where
  unfoldable pub pop_queue : List A → Reply A × List A
  pop_queue [] = (element none, [])
  pop_queue (x ∷ q) = (element (some x), q)

module _ {ℓ} {A : Type ℓ} (cap : ℕ) where
  unfoldable pub queue_step : List A → Call A → Reply A × List A
  unfolding pop_queue
  queue_step q (push_call x) =
      if ltb (length q) cap then (stored Bool.true, q ++ x ∷ []) else (stored Bool.false, q)
  queue_step q pop_call = pop_queue q
  queue_step q size_call = (number (length q), q)
  queue_step q is_empty_call = (flag (length q == 0), q)
  queue_step q is_full_call = (flag (length q == cap), q)

  unfoldable pub queue_run : List A → List (Call A) → List (Reply A)
  queue_run q [] = []
  queue_run q (c ∷ cs) = let (r, q') = queue_step q c in r ∷ queue_run q' cs
