-- ===== src/Server/Accept.antt =====
-- server.c: `accept_thread_func`, and what becomes of each socket that it accepts.
use c_simples.Prelude.{
  ℤ, ◌≡◌, refl, ap, ◌∙◌, inl, inr, Bool, Bool-cases, if◌then◌else◌, not, Option, none, some, List,
  [], ◌∷◌, ◌++◌,
}
use c_simples.Server.{Packet, response_to, error_response, invalid_message}

-- The test of the type of the first message.
pub data FirstMessage : Type 0 where
  client_connect worker_connect other_message : FirstMessage

-- A round of the loop: the flag that it reads, the socket that `accept` returns (`none` for -1), the
-- first message (`none` if `receive_message` fails; any message if it returns 0, since `msg` is then
-- read as it is), and whether `malloc`, `pthread_create` and the sending of an error succeed.
pub record AcceptRound : Type 0 where
  pub is_running : Bool
  pub accepted : Option ℤ
  pub first_message : Option FirstMessage
  pub allocated : Bool
  pub created : Bool

-- What the thread does with a socket.
pub data Deed : Type 0 where
  closes starts_client starts_worker : ℤ → Deed
  refuses : Packet → Deed

-- A thread is started, or the socket is closed.
abbrev start_thread : AcceptRound → ℤ → Deed → List Deed
start_thread r socket deed =
    if not r.allocated
    then closes socket ∷ []
    else if r.created
    then deed ∷ []
    else closes socket ∷ []

-- A round after `accept` has returned `socket`.
abbrev greet : AcceptRound → ℤ → Option FirstMessage → List Deed
greet r socket none = closes socket ∷ []
greet r socket (some client_connect) = start_thread r socket (starts_client socket)
greet r socket (some worker_connect) = start_thread r socket (starts_worker socket)
greet r socket (some other_message) =
    refuses (response_to socket (error_response invalid_message "Invalid initial message"))
    ∷ closes socket
    ∷ []

abbrev serve : AcceptRound → Option ℤ → List Deed
serve r none = []
serve r (some socket) = greet r socket r.first_message

-- `accept_thread_func`
unfoldable pub accept_loop : List AcceptRound → List Deed
accept_loop [] = []
accept_loop (r ∷ rs) =
    let rest = serve r r.accepted ++ accept_loop rs in if r.is_running then rest else []

-- The sockets that leave the thread, closed or taken by a new thread, in order.
abbrev pub let_go : List Deed → List ℤ
let_go [] = []
let_go (refuses p ∷ ds) = let_go ds
let_go (closes s ∷ ds) = s ∷ let_go ds
let_go (starts_client s ∷ ds) = s ∷ let_go ds
let_go (starts_worker s ∷ ds) = s ∷ let_go ds

-- The sockets that `accept` returns until the thread stops, in order.
abbrev pub and_socket : Option ℤ → List ℤ → List ℤ
and_socket none ss = ss
and_socket (some s) ss = s ∷ ss

abbrev pub accepted_sockets : List AcceptRound → List ℤ
accepted_sockets [] = []
accepted_sockets (r ∷ rs) =
    let rest = and_socket r.accepted (accepted_sockets rs) in if r.is_running then rest else []

start_thread-let_go :
    (r : AcceptRound) (s : ℤ) (d : Deed) (ds : List Deed)
    → let_go (d ∷ ds) ≡ s ∷ let_go ds
    → let_go (start_thread r s d ++ ds) ≡ s ∷ let_go ds
start_thread-let_go r s d ds e = elim (Bool-cases r.allocated) [
  | inr a ↦ rw a refl
  | inl a ↦ elim (Bool-cases r.created) [ inl c ↦ rw (a, c) e | inr c ↦ rw (a, c) refl ]
]

greet-let_go :
    (r : AcceptRound) (s : ℤ) (m : Option FirstMessage) (ds : List Deed)
    → let_go (greet r s m ++ ds) ≡ s ∷ let_go ds
greet-let_go r s none ds = refl
greet-let_go r s (some client_connect) ds = start_thread-let_go r s (starts_client s) ds refl
greet-let_go r s (some worker_connect) ds = start_thread-let_go r s (starts_worker s) ds refl
greet-let_go r s (some other_message) ds = refl

serve-let_go :
    (r : AcceptRound) (s : Option ℤ) (ds : List Deed)
    → let_go (serve r s ++ ds) ≡ and_socket s (let_go ds)
serve-let_go r none ds = refl
serve-let_go r (some s) ds = greet-let_go r s r.first_message ds

-- The sockets that the accept thread closes or hands to a new thread are those that `accept` returned
-- until it stopped, each once and in the same order, whatever the first messages are and whichever
-- calls fail.
pub let_go-accept_loop : (rs : List AcceptRound) → let_go (accept_loop rs) ≡ accepted_sockets rs
unfolding accept_loop
let_go-accept_loop [] = refl
let_go-accept_loop (r ∷ rs) = elim (Bool-cases r.is_running) [
  | inl e ↦ rw e (
      serve-let_go r r.accepted (accept_loop rs)
      ∙ ap (and_socket r.accepted) (let_go-accept_loop rs))
  | inr e ↦ rw e refl
]
