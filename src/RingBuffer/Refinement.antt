-- ===== src/RingBuffer/Refinement.antt =====
-- ring_buffer.c: the calls that do not wait, against the queue.
use c_simples.Prelude.{
  sym, ℕ, zero, suc, ◌+◌, ◌-◌, ◌%◌, ◌<◌, ◌≡◌, refl, ap, ap₂, true, false, Option, none, some, List,
  [], ◌∷◌, ◌++◌, arith, length, length-set, get_or, inc32, ◌==◌, pos, ℤ, dec_lt,
}
use c_simples.RingBuffer.{
  RingBuffer, push, pop, push_now, pop_now, pushed, push_failed, popped, pop_failed, PushOutcome,
  PopOutcome, Time, Wake, push_waits, pop_waits, push_blocked, pop_blocked, dec32, size_of,
  is_empty, is_full,
}
use c_simples.RingBuffer.Queue.{
  Call, push_call, pop_call, size_call, is_empty_call, is_full_call, Reply, stored, element, number,
  flag, queue_step, queue_run,
}
use c_simples.RingBuffer.Invariant.{
  IsValid, Represents, Represents-size, window, queued-append, window-set, mod-step,
}
use native.Mathlib.Nat.{mod-add-mod}
use mathlib.Core.Path.{◌∙◌}

inc32_lem : {n : ℕ} → n < 4294967295 → inc32 n ≡ n + 1
inc32_lem h = omega arith

mod-inc : (cap h n : ℕ) {t : ℕ} → t ≡ (h + n) % cap → (t + 1) % cap ≡ (h + suc n) % cap
mod-inc cap h n e = rw (e, mod-add-mod) (ap (λ (k : ℕ). k % cap) (omega arith))

module _ {ℓ} {A : Type ℓ} where
  push_now-IsValid :
      (rb : RingBuffer A) (x : A) → IsValid rb → rb.size < rb.capacity → IsValid (push_now rb x)
  unfolding push_now
  push_now-IsValid rb x v h = record {
    array = omega (arith, length-set rb.buffer rb.tail (some x), v.array);
    nonempty = v.nonempty;
    word = v.word;
    head_in = v.head_in;
    size_in = omega arith;
    tail_at =
        rw (inc32_lem {n = rb.tail} (omega arith), inc32_lem {n = rb.size} (omega arith))
          (mod-inc rb.capacity rb.head rb.size v.tail_at
            ∙ ap (λ (k : ℕ). (rb.head + k) % rb.capacity) (omega arith));
  }

  -- The writes of `ring_buffer_push`, made when there is space, add the element at the end.
  pub push_now-Represents :
      (rb : RingBuffer A) (q : List A) (x : A)
      → Represents rb q
      → rb.size < rb.capacity
      → Represents (push_now rb x) (q ++ x ∷ [])
  unfolding push_now
  push_now-Represents rb q x r h = record {
    valid = push_now-IsValid rb x r.valid h;
    held =
        let e : inc32 rb.size ≡ suc rb.size = omega arith in
        rw (e, queued-append)
          (window-set rb.tail rb.capacity rb.size rb.head (some x) rb.buffer r.valid.tail_at h
              r.valid.head_in (omega arith)
            ∙ ap (λ l. l ++ some x ∷ []) r.held);
  }

  window_of_pos :
      (buf : List (Option A)) (cap h n : ℕ)
      → 0 < n
      → window buf cap h n ≡ get_or buf h none ∷ window buf cap ((h + 1) % cap) (n - 1)
  window_of_pos buf cap h zero p = absurd (omega arith)
  window_of_pos buf cap h (suc n) p = ap (λ k. window buf cap h (suc k)) (omega arith)

  popped_rest : RingBuffer A → RingBuffer A
  popped_rest rb = record rb { head = inc32 rb.head % rb.capacity; size = dec32 rb.size }

  popped_rest-IsValid : (rb : RingBuffer A) → IsValid rb → 0 < rb.size → IsValid (popped_rest rb)
  unfolding popped_rest
  popped_rest-IsValid rb v p = record {
    array = v.array;
    nonempty = v.nonempty;
    word = v.word;
    head_in = omega arith;
    size_in = omega arith;
    tail_at =
        let e : dec32 rb.size ≡ rb.size - 1 = omega arith in
        let s : rb.size ≡ suc (rb.size - 1) = omega arith in
        rw (e, inc32_lem {n = rb.head} (omega arith))
          (v.tail_at
            ∙ ap (λ (k : ℕ). (rb.head + k) % rb.capacity) s
            ∙ mod-step rb.capacity rb.head (rb.size - 1));
  }

  pub pop_now-Represents :
      (rb : RingBuffer A) (x : A) (q : List A)
      → Represents rb (x ∷ q)
      → (rb' : RingBuffer A) × (pop_now rb ≡ popped (some x) rb')
        × Represents rb' q
        × (rb'.capacity ≡ rb.capacity)
  unfolding pop_now popped_rest
  pop_now-Represents rb x q r =
      let p : 0 < rb.size = omega (arith, Represents-size rb (x ∷ q) r) in
      let w = sym (window_of_pos rb.buffer rb.capacity rb.head rb.size p) ∙ r.held in
      let e : dec32 rb.size ≡ rb.size - 1 = omega arith in
      (
        popped_rest rb,
        ap (λ y. popped y (popped_rest rb)) (cc w),
        record {
          valid = popped_rest-IsValid rb r.valid p;
          held = rw (e, inc32_lem {n = rb.head} (omega arith)) (cc w);
        },
        refl,
      )

-- How a call starts, whatever its timeout.
module _ {ℓ} {A : Type ℓ} (rb : RingBuffer A) (timeout : ℤ) (clock : Option Time)
    (ws : List (Wake A)) where
  pub push_space :
      (x : A)
      → rb.size < rb.capacity
      → push (some rb) (some x) timeout clock ws ≡ pushed (push_now rb x)
  unfolding push
  push_space x h = ground arith

  pub pop_ready : 0 < rb.size → pop (some rb) timeout clock ws ≡ pop_now rb
  unfolding pop
  pop_ready h = ground arith

module _ {ℓ} {A : Type ℓ} (rb : RingBuffer A) (clock : Option Time) (ws : List (Wake A)) where
  pub push_refused :
      (x : A)
      → rb.size ≡ rb.capacity
      → push (some rb) (some x) (pos 0) clock ws ≡ push_failed (some rb)
  unfolding push push_blocked
  push_refused x h = ground arith

  pub pop_refused : rb.size ≡ 0 → pop (some rb) (pos 0) clock ws ≡ pop_failed (some rb)
  unfolding pop pop_blocked
  pop_refused h = ground arith

module _ {ℓ} {A : Type ℓ} where
  queue_space :
      (cap : ℕ) (q : List A) (x : A)
      → length q < cap
      → queue_step cap q (push_call x) ≡ (stored true, q ++ x ∷ [])
  unfolding queue_step
  queue_space cap q x h = ground arith

  queue_full :
      (cap : ℕ) (q : List A) (x : A)
      → length q ≡ cap
      → queue_step cap q (push_call x) ≡ (stored false, q)
  unfolding queue_step
  queue_full cap q x h = ground arith

  push_now-capacity : (rb : RingBuffer A) (x : A) → (push_now rb x).capacity ≡ rb.capacity
  unfolding push_now
  push_now-capacity rb x = refl

  after_push : RingBuffer A → PushOutcome A → Reply A × RingBuffer A
  after_push rb (pushed rb') = (stored true, rb')
  after_push rb (push_failed (some rb')) = (stored false, rb')
  after_push rb (push_failed none) = (stored false, rb)
  after_push rb push_waits = (stored false, rb)

  after_pop : RingBuffer A → PopOutcome A → Reply A × RingBuffer A
  after_pop rb (popped x rb') = (element x, rb')
  after_pop rb (pop_failed (some rb')) = (element none, rb')
  after_pop rb (pop_failed none) = (element none, rb)
  after_pop rb pop_waits = (element none, rb)

  -- What a client sees of one call, made with timeout 0.
  pub ring_step : RingBuffer A → Call A → Reply A × RingBuffer A
  unfolding after_push after_pop
  ring_step rb (push_call x) = after_push rb (push (some rb) (some x) (pos 0) none [])
  ring_step rb pop_call = after_pop rb (pop (some rb) (pos 0) none [])
  ring_step rb size_call = (number (size_of (some rb)), rb)
  ring_step rb is_empty_call = (flag (is_empty (some rb)), rb)
  ring_step rb is_full_call = (flag (is_full (some rb)), rb)

  pub ring_run : RingBuffer A → List (Call A) → List (Reply A)
  ring_run rb [] = []
  ring_run rb (c ∷ cs) = let (r, rb') = ring_step rb c in r ∷ ring_run rb' cs

  -- The step agrees with the queue's, and the buffer still holds the queue.
  record Agrees (cap : ℕ) (mine : Reply A × RingBuffer A) (spec : Reply A × List A) : Type ℓ where
    reply : mine.0 ≡ spec.0
    capacity : mine.1.capacity ≡ cap
    holds : Represents mine.1 spec.1

  push_step :
      (rb : RingBuffer A) (q : List A) (x : A)
      → Represents rb q
      → Agrees rb.capacity (ring_step rb (push_call x)) (queue_step rb.capacity q (push_call x))
  unfolding ring_step
  push_step rb q x r = elim (dec_lt rb.size rb.capacity) [
    | yes h ↦
        rw
          (
            push_space rb (pos 0) none [] x h,
            queue_space rb.capacity q x (omega (arith, Represents-size rb q r)),
          )
          (record {
            reply = refl;
            capacity = push_now-capacity rb x;
            holds = push_now-Represents rb q x r h;
          })
    | no h ↦
        rw
          (
            push_refused rb none [] x (omega arith),
            queue_full rb.capacity q x (omega (arith, Represents-size rb q r)),
          )
          (record { reply = refl; capacity = refl; holds = r })
  ]

  pop_step :
      (rb : RingBuffer A) (q : List A)
      → Represents rb q
      → Agrees rb.capacity (ring_step rb pop_call) (queue_step rb.capacity q pop_call)
  unfolding ring_step queue_step
  pop_step rb [] r =
      rw (pop_refused rb none [] (Represents-size rb [] r))
        (record { reply = refl; capacity = refl; holds = r })
  pop_step rb (x ∷ q) r =
      let (rb', e, r', c) = pop_now-Represents rb x q r in
      rw (pop_ready rb (pos 0) none [] (omega (arith, Represents-size rb (x ∷ q) r)), e)
        (record { reply = refl; capacity = c; holds = r' })

  -- Each call made with timeout 0 gets the reply of the bounded queue, and the buffer then holds the
  -- queue's new contents.
  step-Agrees :
      (rb : RingBuffer A) (q : List A) (c : Call A)
      → Represents rb q
      → Agrees rb.capacity (ring_step rb c) (queue_step rb.capacity q c)
  unfolding ring_step queue_step size_of is_empty is_full
  step-Agrees rb q (push_call x) r = push_step rb q x r
  step-Agrees rb q pop_call r = pop_step rb q r
  step-Agrees rb q size_call r = record {
    reply = ap number (Represents-size rb q r);
    capacity = refl;
    holds = r;
  }
  step-Agrees rb q is_empty_call r = record {
    reply = ap (λ k. flag (k == 0)) (Represents-size rb q r);
    capacity = refl;
    holds = r;
  }
  step-Agrees rb q is_full_call r = record {
    reply = ap (λ k. flag (k == rb.capacity)) (Represents-size rb q r);
    capacity = refl;
    holds = r;
  }

  -- No sequence of calls without waiting tells a well-formed ring buffer from the bounded
  -- first-in first-out queue of the elements that it holds.
  pub ring_run-queue_run :
      (cs : List (Call A)) (rb : RingBuffer A) (q : List A)
      → Represents rb q
      → ring_run rb cs ≡ queue_run rb.capacity q cs
  unfolding ring_run queue_run
  ring_run-queue_run [] rb q r = refl
  ring_run-queue_run (c ∷ cs) rb q r =
      let a = step-Agrees rb q c r in
      ap₂ ◌∷◌ a.reply (
        ring_run-queue_run cs (ring_step rb c).1 (queue_step rb.capacity q c).1 a.holds
        ∙ ap (λ k. queue_run k (queue_step rb.capacity q c).1 cs) a.capacity)
