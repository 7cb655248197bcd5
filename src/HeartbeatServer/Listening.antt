-- ===== src/HeartbeatServer/Listening.antt =====
-- heartbeat_server.c: `run_tcp_server` and `run_http_server`, which set up a socket and give each
-- connection to a thread of `handle_client`. The two functions differ in their port and their messages.
use c_simples.Prelude.{
  ℕ, zero, suc, ◌≡◌, refl, inl, inr, ℤ, pos, negsuc, ◌=ℤ◌, Bool, true, false, Bool-cases,
  if◌then◌else◌, not, List, [], ◌∷◌, ◌++◌,
}

-- `x < 0`
abbrev pub is_negative : ℤ → Bool
is_negative (pos n) = false
is_negative (negsuc n) = true

-- What the system calls return, in the order of the calls.
pub record SetupAnswers : Type 0 where
  pub socket_result : ℤ
  pub setsockopt_result : ℤ
  pub bind_result : ℤ
  pub listen_result : ℤ

-- The thread returns NULL after it has closed these sockets, or goes on to its loop.
pub data Setup : Type 0 where
  gives_up : List ℤ → Setup
  listens : ℤ → Setup

-- The start of `run_tcp_server` and of `run_http_server`.
unfoldable pub set_up : SetupAnswers → Setup
set_up a =
    let server_fd = a.socket_result in
    if server_fd =ℤ pos 0
    then gives_up []
    else if not (a.setsockopt_result =ℤ pos 0)
    then gives_up (server_fd ∷ [])
    else if is_negative a.bind_result
    then gives_up (server_fd ∷ [])
    else if is_negative a.listen_result
    then gives_up (server_fd ∷ [])
    else listens server_fd

-- A round of the loop: `malloc`, and the results of `accept` and of `pthread_create`.
pub record Arrival : Type 0 where
  pub allocated : Bool
  pub accept_result : ℤ
  pub create_result : ℤ

-- A `closes` or a `starts` ends the loop's part in a socket; `detaches` is `pthread_detach`.
pub data Deed : Type 0 where
  closes starts : ℤ → Deed
  detaches : Deed

-- `pthread_create` returns 0 or a positive error number; the test is `< 0`.
abbrev pub after_create : ℤ → ℤ → List Deed
after_create socket (pos zero) = starts socket ∷ detaches ∷ []
after_create socket (pos (suc n)) = detaches ∷ []
after_create socket (negsuc n) = closes socket ∷ detaches ∷ []

abbrev pub accept_round : Arrival → List Deed
accept_round r =
    if not r.allocated
    then []
    else if is_negative r.accept_result
    then []
    else after_create r.accept_result r.create_result

-- The loop of `run_tcp_server` and of `run_http_server`.
unfoldable pub accept_rounds : List Arrival → List Deed
accept_rounds [] = []
accept_rounds (r ∷ rs) = accept_round r ++ accept_rounds rs

-- The sockets that the loop closes or gives to a thread.
abbrev pub kept_track_of : List Deed → List ℤ
kept_track_of [] = []
kept_track_of (closes s ∷ ds) = s ∷ kept_track_of ds
kept_track_of (starts s ∷ ds) = s ∷ kept_track_of ds
kept_track_of (detaches ∷ ds) = kept_track_of ds

-- No `pthread_create` succeeds, with an error number each time.
abbrev pub AllFail : List Arrival → Type 0
AllFail [] = Unit
AllFail (r ∷ rs) = ((n : ℕ) × (r.create_result ≡ pos (suc n))) × AllFail rs

-- While `pthread_create` fails, the loop neither closes a socket nor gives it to a thread, although it
-- goes on accepting.
pub accept_rounds_leak : (rs : List Arrival) → AllFail rs → kept_track_of (accept_rounds rs) ≡ []
unfolding accept_rounds
accept_rounds_leak [] f = refl
accept_rounds_leak (r ∷ rs) ((n, e), f) = elim (Bool-cases r.allocated) [
  | inr a ↦ rw a (accept_rounds_leak rs f)
  | inl a ↦ elim (Bool-cases (is_negative r.accept_result)) [
    | inl b ↦ rw (a, b) (accept_rounds_leak rs f)
    | inr b ↦ rw (a, b, e) (accept_rounds_leak rs f)
  ]
]
