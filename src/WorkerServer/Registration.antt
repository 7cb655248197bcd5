-- ===== src/WorkerServer/Registration.antt =====
-- worker_server.c: which answers make the worker registered, and when it gives up connecting.
use c_simples.Prelude.{
  ℕ, zero, suc, ◌+◌, ◌<◌, ◌≤◌, ◌≡◌, refl, ap, ◌∙◌, inl, inr, ◌⊎◌, Bool, true, false, Bool-cases,
  Option-cases, if◌then◌else◌, Option, none, some, dec_lt, arith, ℤ, pos, negsuc,
}
use c_simples.WorkerServer.{
  Header, is_register_response, connect_loop, connect_to_server, register_loop, registered,
  register_with_server,
}

-- The number in a response to the registration.
abbrev pub response : Option Header → Option ℕ
response none = none
response (some h) = if is_register_response h then some h.client_id else none

abbrev pub or_else : Option ℕ → Option ℕ → Option ℕ
or_else none b = b
or_else (some a) b = some a

-- One attempt of the loop, with what the later ones give.
abbrev attempt : ℕ → Option Header → ℤ × Option Header → ℤ × Option Header
attempt left none rest = rest
attempt left (some h) rest = if is_register_response h then (pos left, some h) else rest

registered-attempt :
    (left : ℕ) (o : Option Header) (rest : ℤ × Option Header)
    → registered (attempt (suc left) o rest) ≡ or_else (response o) (registered rest)
registered-attempt left none rest = refl
registered-attempt left (some h) rest = elim (Bool-cases (is_register_response h)) [
  | inl e ↦ rw e refl
  | inr e ↦ rw e refl
]

or_else-none : (o : Option ℕ) → or_else o none ≡ o
or_else-none none = refl
or_else-none (some a) = refl

-- A response to the last attempt comes too late.
registered-last : (o : Option Header) → registered (attempt 0 o (negsuc 0, none)) ≡ none
registered-last none = refl
registered-last (some h) = elim (Bool-cases (is_register_response h)) [
  | inl e ↦ rw e refl
  | inr e ↦ rw e refl
]

register_loop-attempt :
    (left k : ℕ) (headers : ℕ → Option Header)
    → register_loop (suc left) k headers
      ≡ attempt left (headers k) (register_loop left (suc k) headers)
unfolding register_loop
register_loop-attempt left k headers = elim (Option-cases (headers k)) [
  | inl e ↦ rw (e, register_loop) refl
  | inr (h, e) ↦ rw (e, register_loop) refl
]

three_attempts :
    (headers : ℕ → Option Header)
    → registered (register_loop 3 0 headers) ≡ or_else (response (headers 0)) (response (headers 1))
unfolding register_loop
three_attempts headers =
    ap registered (register_loop-attempt 2 0 headers)
    ∙ registered-attempt 1 (headers 0) (register_loop 2 1 headers)
    ∙ ap (or_else (response (headers 0))) (
        ap registered (register_loop-attempt 1 1 headers)
        ∙ registered-attempt 0 (headers 1) (register_loop 1 2 headers)
        ∙ ap (or_else (response (headers 1)))
            (ap registered (register_loop-attempt 0 2 headers) ∙ registered-last (headers 2))
        ∙ or_else-none (response (headers 1)))

-- `register_with_server` gives the number of the first response to the registration among the first two
-- headers that it receives, and fails if there is none or if its message cannot be sent. Of its three
-- attempts the last one never counts.
pub register_with_server_lem :
    (sent : Bool) (headers : ℕ → Option Header)
    → register_with_server sent headers
      ≡ (if sent then or_else (response (headers 0)) (response (headers 1)) else none)
unfolding register_with_server
register_with_server_lem false headers = refl
register_with_server_lem true headers = three_attempts headers

-- The attempts before the `k`th are made and fail.
abbrev pub FailBefore : ℕ → (ℕ → Option ℕ) → Type 0
FailBefore k sockets = (j : ℕ) → j < k → sockets j ≡ none

last_or_less : (j k : ℕ) → j < suc k → (j ≡ k) ⊎ (j < k)
last_or_less j k l = elim (dec_lt j k) [ yes p ↦ inr p | no p ↦ inl (omega arith) ]

connect_loop_lem :
    (left k : ℕ) (running : ℕ → Bool) (sockets : ℕ → Option ℕ)
    → FailBefore k sockets
    → ((i : ℕ) × (fd : ℕ) × (connect_loop left k running sockets ≡ some fd)
        × (i < k + left)
        × (sockets i ≡ some fd)
        × FailBefore i sockets)
      ⊎ ((i : ℕ) × (connect_loop left k running sockets ≡ none)
          × (i ≤ k + left)
          × FailBefore i sockets
          × ((i ≡ k + left) ⊎ (running i ≡ false)))
unfolding connect_loop
connect_loop_lem zero k running sockets f = inr (k, refl, omega arith, f, inl (omega arith))
connect_loop_lem (suc left) k running sockets f = elim (Bool-cases (running k)) [
  | inr off ↦ inr (k, rw (off, connect_loop) refl, omega arith, f, inr off)
  | inl on ↦ elim (Option-cases (sockets k)) [
    | inr (fd, e) ↦ inl (k, fd, rw (on, e, connect_loop) refl, omega arith, e, f)
    | inl e ↦ elim (connect_loop_lem left (suc k) running sockets (one_more e)) [
      | inl (i, fd, q, l, s, g) ↦ inl (i, fd, rw (on, e, connect_loop) q, omega arith, s, g)
      | inr (i, q, l, g, inl full) ↦
          inr (i, rw (on, e, connect_loop) q, omega arith, g, inl (omega arith))
      | inr (i, q, l, g, inr off) ↦ inr (i, rw (on, e, connect_loop) q, omega arith, g, inr off)
    ]
  ]
]
  where
    one_more : sockets k ≡ none → FailBefore (suc k) sockets
    one_more e j l = elim (last_or_less j k l) [ inl q ↦ rw q e | inr less ↦ f j less ]

-- `connect_to_server` always ends: it returns the socket of the first of at most five attempts that gives
-- one, or fails after five attempts, or when it finds that the worker no longer runs.
pub connect_to_server_lem :
    (running : ℕ → Bool) (sockets : ℕ → Option ℕ)
    → ((i : ℕ) × (fd : ℕ) × (connect_to_server running sockets ≡ some fd)
        × (i < 5)
        × (sockets i ≡ some fd)
        × FailBefore i sockets)
      ⊎ ((i : ℕ) × (connect_to_server running sockets ≡ none)
          × (i ≤ 5)
          × FailBefore i sockets
          × ((i ≡ 5) ⊎ (running i ≡ false)))
unfolding connect_to_server
connect_to_server_lem running sockets =
    connect_loop_lem 5 0 running sockets (λ j l. absurd (omega arith))
