-- ===== src/RingBuffer/Waiting.antt =====
-- Calls that wait on a condition variable, whatever the other threads do in between.
use c_simples.Prelude.{
  ℕ, zero, suc, ◌≤◌, ◌<◌, ◌≡◌, refl, sym, ◌∙◌, ◌⊎◌, inl, inr, Bool, false, Bool-cases, Option-cases,
  Option, none, some, List, [], ◌∷◌, ◌++◌, arith, length, ◌==◌, ◌&&◌, pos, negsuc, ℤ, All,
}
use c_simples.RingBuffer.{
  RingBuffer, Wake, Time, push, pop, push_now, pop_now, pushed, popped, push_blocked, pop_blocked,
  push_timed, push_forever, pop_timed, pop_forever, timed_wait, forever_wait, is_full_now,
  is_empty_now, get_timeout_time,
}
use c_simples.RingBuffer.Invariant.{Represents, Represents-size}
use c_simples.RingBuffer.Refinement.{push_now-Represents, pop_now-Represents}

module _ {ℓ} {A : Type ℓ} where
  popped-injective :
      {x y : Option A} {r s : RingBuffer A} → popped x r ≡ popped y s → (x ≡ y) × (r ≡ s)
  popped-injective e = ground arith

  -- The state is the one that the call found, or one that it saw after a wake-up.
  abbrev pub Seen : RingBuffer A → RingBuffer A → List (Wake A) → Type ℓ
  Seen r rb [] = r ≡ rb
  Seen r rb (w ∷ ws) = (r ≡ rb) ⊎ Seen r w.seen ws

  abbrev pub Held : RingBuffer A → Type ℓ
  Held rb = (q : List A) × Represents rb q

  Seen-here : (r : RingBuffer A) (ws : List (Wake A)) → Seen r r ws
  Seen-here r [] = refl
  Seen-here r (w ∷ ws) = inl refl

  Seen-Held :
      (r rb : RingBuffer A) (ws : List (Wake A))
      → Seen r rb ws
      → Held rb
      → All (λ w. Held w.seen) ws
      → Held r
  Seen-Held r rb [] e h hs = rw e h
  Seen-Held r rb (w ∷ ws) (inl e) h hs = rw e h
  Seen-Held r rb (w ∷ ws) (inr s) h hs = Seen-Held r w.seen ws s hs.0 hs.1

  timed_wait-ends :
      (blocked : RingBuffer A → Bool) (ws : List (Wake A)) (rb r : RingBuffer A) (code : ℕ)
      → timed_wait blocked ws rb code ≡ some (0, r)
      → (blocked r ≡ false) × Seen r rb ws
  unfolding timed_wait
  timed_wait-ends blocked [] rb r code e = ground arith
  timed_wait-ends blocked (w ∷ ws) rb r code e = elim (Bool-cases (blocked rb && code == 0)) [
    | inl b ↦ let (o, s) = timed_wait-ends blocked ws w.seen r w.code (rw b at e) in (o, inr s)
    | inr b ↦ ground arith
  ]

  forever_wait-ends :
      (blocked : RingBuffer A → Bool) (ws : List (Wake A)) (rb r : RingBuffer A)
      → forever_wait blocked ws rb ≡ some r
      → (blocked r ≡ false) × Seen r rb ws
  unfolding forever_wait
  forever_wait-ends blocked [] rb r e = ground arith
  forever_wait-ends blocked (w ∷ ws) rb r e = elim (Bool-cases (blocked rb)) [
    | inl b ↦ let (o, s) = forever_wait-ends blocked ws w.seen r (rw b at e) in (o, inr s)
    | inr b ↦ ground arith
  ]

  push_timed-writes :
      (ws : List (Wake A)) (rb r' : RingBuffer A) (x : A) (o : Option (ℕ × RingBuffer A))
      → timed_wait is_full_now ws rb 0 ≡ o
      → push_timed o x ≡ pushed r'
      → (r : RingBuffer A) × (r' ≡ push_now r x) × (is_full_now r ≡ false) × Seen r rb ws
  unfolding push_timed
  push_timed-writes ws rb r' x none w e = cc
  push_timed-writes ws rb r' x (some (zero, r)) w e =
      let (o, s) = timed_wait-ends is_full_now ws rb r 0 w in (r, ground arith, o, s)
  push_timed-writes ws rb r' x (some (suc c, r)) w e = ground arith

  push_forever-writes :
      (ws : List (Wake A)) (rb r' : RingBuffer A) (x : A) (o : Option (RingBuffer A))
      → forever_wait is_full_now ws rb ≡ o
      → push_forever o x ≡ pushed r'
      → (r : RingBuffer A) × (r' ≡ push_now r x) × (is_full_now r ≡ false) × Seen r rb ws
  unfolding push_forever
  push_forever-writes ws rb r' x none w e = cc
  push_forever-writes ws rb r' x (some r) w e =
      let (o, s) = forever_wait-ends is_full_now ws rb r w in (r, ground arith, o, s)

  push_blocked-writes :
      (ws : List (Wake A)) (rb r' : RingBuffer A) (x : A) (timeout : ℤ) (clock : Option Time)
      → push_blocked rb x timeout clock ws ≡ pushed r'
      → (r : RingBuffer A) × (r' ≡ push_now r x) × (is_full_now r ≡ false) × Seen r rb ws
  unfolding push_blocked
  push_blocked-writes ws rb r' x (pos zero) clock e = cc
  push_blocked-writes ws rb r' x (pos (suc t)) clock e =
      elim (Option-cases (get_timeout_time clock (suc t))) [
        | inl n ↦ let bad = rw (n, push_blocked) at e in cc bad
        | inr (d, n) ↦
            push_timed-writes ws rb r' x (timed_wait is_full_now ws rb 0) refl
              (rw (n, push_blocked) at e)
      ]
  push_blocked-writes ws rb r' x (negsuc t) clock e =
      push_forever-writes ws rb r' x (forever_wait is_full_now ws rb) refl e

  -- A successful push writes into a state that it has seen and that was not full then.
  push-writes :
      (ws : List (Wake A)) (rb r' : RingBuffer A) (x : A) (timeout : ℤ) (clock : Option Time)
      → push (some rb) (some x) timeout clock ws ≡ pushed r'
      → (r : RingBuffer A) × (r' ≡ push_now r x) × (is_full_now r ≡ false) × Seen r rb ws
  unfolding push
  push-writes ws rb r' x timeout clock e = elim (Bool-cases (is_full_now rb)) [
    | inl b ↦ push_blocked-writes ws rb r' x timeout clock (rw b at e)
    | inr b ↦ (rb, ground arith, b, Seen-here rb ws)
  ]

  lt_of_not_full :
      (r : RingBuffer A) → is_full_now r ≡ false → r.size ≤ r.capacity → r.size < r.capacity
  lt_of_not_full r b h = ground arith

  -- If the buffer is well-formed whenever the call holds the mutex, then a push that returns 0, with
  -- any timeout and after any number of wake-ups, has put its element behind the elements of a state
  -- that it saw, in which there was space.
  pub push_waiting :
      (rb r' : RingBuffer A) (x : A) (timeout : ℤ) (clock : Option Time) (ws : List (Wake A))
      → Held rb
      → All (λ w. Held w.seen) ws
      → push (some rb) (some x) timeout clock ws ≡ pushed r'
      → (r : RingBuffer A) × (q : List A) × Seen r rb ws
        × Represents r q
        × (length q < r.capacity)
        × Represents r' (q ++ x ∷ [])
  push_waiting rb r' x timeout clock ws h hs e =
      let (r, same, b, s) = push-writes ws rb r' x timeout clock e in
      let (q, rep) = Seen-Held r rb ws s h hs in
      let lt : r.size < r.capacity = lt_of_not_full r b rep.valid.size_in in
      (
        r,
        q,
        s,
        rep,
        omega (arith, Represents-size r q rep),
        rw same (push_now-Represents r q x rep lt),
      )

  pop_timed-reads :
      (ws : List (Wake A)) (rb r' : RingBuffer A) (x : Option A) (o : Option (ℕ × RingBuffer A))
      → timed_wait is_empty_now ws rb 0 ≡ o
      → pop_timed o ≡ popped x r'
      → (r : RingBuffer A) × (pop_now r ≡ popped x r') × (is_empty_now r ≡ false) × Seen r rb ws
  unfolding pop_timed
  pop_timed-reads ws rb r' x none w e = cc
  pop_timed-reads ws rb r' x (some (zero, r)) w e =
      let (o, s) = timed_wait-ends is_empty_now ws rb r 0 w in (r, ground arith, o, s)
  pop_timed-reads ws rb r' x (some (suc c, r)) w e = ground arith

  pop_forever-reads :
      (ws : List (Wake A)) (rb r' : RingBuffer A) (x : Option A) (o : Option (RingBuffer A))
      → forever_wait is_empty_now ws rb ≡ o
      → pop_forever o ≡ popped x r'
      → (r : RingBuffer A) × (pop_now r ≡ popped x r') × (is_empty_now r ≡ false) × Seen r rb ws
  unfolding pop_forever
  pop_forever-reads ws rb r' x none w e = cc
  pop_forever-reads ws rb r' x (some r) w e =
      let (o, s) = forever_wait-ends is_empty_now ws rb r w in (r, ground arith, o, s)

  pop_blocked-reads :
      (ws : List (Wake A)) (rb r' : RingBuffer A) (x : Option A) (timeout : ℤ) (clock : Option Time)
      → pop_blocked rb timeout clock ws ≡ popped x r'
      → (r : RingBuffer A) × (pop_now r ≡ popped x r') × (is_empty_now r ≡ false) × Seen r rb ws
  unfolding pop_blocked
  pop_blocked-reads ws rb r' x (pos zero) clock e = cc
  pop_blocked-reads ws rb r' x (pos (suc t)) clock e =
      elim (Option-cases (get_timeout_time clock (suc t))) [
        | inl n ↦ let bad = rw (n, pop_blocked) at e in cc bad
        | inr (d, n) ↦
            pop_timed-reads ws rb r' x (timed_wait is_empty_now ws rb 0) refl
              (rw (n, pop_blocked) at e)
      ]
  pop_blocked-reads ws rb r' x (negsuc t) clock e =
      pop_forever-reads ws rb r' x (forever_wait is_empty_now ws rb) refl e

  -- A successful pop reads from a state that it has seen and that was not empty then.
  pop-reads :
      (ws : List (Wake A)) (rb r' : RingBuffer A) (x : Option A) (timeout : ℤ) (clock : Option Time)
      → pop (some rb) timeout clock ws ≡ popped x r'
      → (r : RingBuffer A) × (pop_now r ≡ popped x r') × (is_empty_now r ≡ false) × Seen r rb ws
  unfolding pop
  pop-reads ws rb r' x timeout clock e = elim (Bool-cases (is_empty_now rb)) [
    | inl b ↦ pop_blocked-reads ws rb r' x timeout clock (rw b at e)
    | inr b ↦ (rb, ground arith, b, Seen-here rb ws)
  ]

  pos_of_not_empty : (r : RingBuffer A) → is_empty_now r ≡ false → 0 < r.size
  pos_of_not_empty r b = ground arith

  queue_of_pos :
      (r : RingBuffer A) (q : List A)
      → Represents r q
      → 0 < r.size
      → (y : A) × (rest : List A) × (q ≡ y ∷ rest)
  queue_of_pos r [] rep p = absurd (omega (arith, Represents-size r [] rep))
  queue_of_pos r (y ∷ rest) rep p = (y, rest, refl)

  -- If the buffer is well-formed whenever the call holds the mutex, then a pop that takes an
  -- element, with any timeout and after any number of wake-ups, returns the oldest element of a
  -- non-empty state that it saw, never NULL, and leaves the others in order.
  pub pop_waiting :
      (rb r' : RingBuffer A) (x : Option A) (timeout : ℤ) (clock : Option Time) (ws : List (Wake A))
      → Held rb
      → All (λ w. Held w.seen) ws
      → pop (some rb) timeout clock ws ≡ popped x r'
      → (r : RingBuffer A) × (y : A) × (q : List A) × Seen r rb ws
        × Represents r (y ∷ q)
        × (x ≡ some y)
        × Represents r' q
  pop_waiting rb r' x timeout clock ws h hs e =
      let (r, same, b, s) = pop-reads ws rb r' x timeout clock e in
      let (q, rep) = Seen-Held r rb ws s h hs in
      let (y, rest, split) = queue_of_pos r q rep (pos_of_not_empty r b) in
      let rep' : Represents r (y ∷ rest) = rw split at rep in
      let (r₂, took, rep₂, _) = pop_now-Represents r y rest rep' in
      let (ex, er) = popped-injective (sym same ∙ took) in (r, y, rest, s, rep', ex, rw er rep₂)
