-- ===== src/Client/Sockets.antt =====
-- client.c: the sockets that a client opens and closes.
use c_simples.Prelude.{
  ℕ, ◌==◌, ◌≡◌, refl, ap, ◌∙◌, inl, inr, if◌then◌else◌, ℤ, pos, negsuc, Bool, true, false,
  Bool-cases, Option, none, some, List, [], ◌∷◌, ◌++◌, arith,
}
use c_simples.Client.{
  client_disconnect, as_uint32, Client, ClientConfig, Exchange, Response, register_response,
  job_submitted, job_status, job_result, server_stats, error, other_type, Request, Deed, opens,
  closes, sends, init, connect_to_server, on_socket, disconnect_from_server,
}

-- The list without the first entry that is equal.
abbrev pub remove_first : ℕ → List ℕ → List ℕ
remove_first fd [] = []
remove_first fd (x ∷ xs) = if x == fd then xs else x ∷ remove_first fd xs

-- The open sockets after some calls on sockets, from those that are open before.
abbrev pub open_after : List ℕ → List Deed → List ℕ
open_after os [] = os
open_after os (opens fd ∷ ds) = open_after (fd ∷ os) ds
open_after os (closes (pos fd) ∷ ds) = open_after (remove_first fd os) ds
open_after os (closes (negsuc n) ∷ ds) = open_after os ds
open_after os (sends fd request ∷ ds) = open_after os ds

-- The calls of a session.
pub data Call : Type 0 where
  calls_init : Option ClientConfig → Bool → Call
  calls_connect : Option ℕ → Bool → Exchange → Call
  calls_disconnect : Call

abbrev without_value : Bool × List Deed × Client → List Deed × Client
without_value (ok, deeds, c) = (deeds, c)

-- What a call does to the sockets, and the client that it leaves.
unfoldable pub step : Call → Client → List Deed × Client
step (calls_init config mutex_ok) c = ([], (init config mutex_ok c).1)
step (calls_connect socket reachable x) c = without_value (connect_to_server socket reachable x c)
step calls_disconnect c = disconnect_from_server c

unfoldable pub run : Client → List Call → List Deed × Client
run c [] = ([], c)
run c (call ∷ calls) =
    let (deeds, c1) = step call c in let (more, c2) = run c1 calls in (deeds ++ more, c2)

abbrev socket_of : ℤ → List ℕ
socket_of (pos fd) = fd ∷ []
socket_of (negsuc n) = []

-- The socket of a client that is connected.
abbrev pub held : Client → List ℕ
held c = if c.is_connected then socket_of c.server_socket else []

-- The sockets that one call loses: the one that is held, if the client is initialised again, or connects
-- again with success.
abbrev pub lost_by : Call → Client → List ℕ
lost_by (calls_init none mutex_ok) c = []
lost_by (calls_init (some config) mutex_ok) c = held c
lost_by (calls_connect socket reachable x) c =
    if (connect_to_server socket reachable x c).0 then held c else []
lost_by calls_disconnect c = []

-- All that a sequence of calls loses, before those that are lost already.
abbrev pub lost : Client → List Call → List ℕ → List ℕ
lost c [] l = l
lost c (call ∷ calls) l = lost (step call c).1 calls (lost_by call c ++ l)

eq_self : (n : ℕ) → (n == n) ≡ true
eq_self n = ground arith

remove_first-head : (fd : ℕ) (l : List ℕ) → remove_first fd (fd ∷ l) ≡ l
remove_first-head fd l = rw (eq_self fd) refl

open_after-append :
    (os : List ℕ) (ds es : List Deed) → open_after os (ds ++ es) ≡ open_after (open_after os ds) es
open_after-append os [] es = refl
open_after-append os (opens fd ∷ ds) es = open_after-append (fd ∷ os) ds es
open_after-append os (closes (pos fd) ∷ ds) es = open_after-append (remove_first fd os) ds es
open_after-append os (closes (negsuc n) ∷ ds) es = open_after-append os ds es
open_after-append os (sends fd request ∷ ds) es = open_after-append os ds es

-- What a connection does to the open sockets.
abbrev Connected : Client → List ℕ → Bool × List Deed × Client → Type 0
Connected c l (ok, deeds, c') =
    open_after (held c ++ l) deeds ≡ held c' ++ ((if ok then held c else []) ++ l)

closed_again :
    (fd : ℕ) (c : Client) (l : List ℕ) → remove_first fd (fd ∷ (held c ++ l)) ≡ held c ++ l
closed_again fd c l = remove_first-head fd (held c ++ l)

on_socket-Connected :
    (reachable sent : Bool) (answer : Option Response) (fd : ℕ) (c : Client) (l : List ℕ)
    → Connected c l (on_socket reachable (record { sent = sent; answer = answer }) fd c)
on_socket-Connected false sent answer fd c l = closed_again fd c l
on_socket-Connected true false answer fd c l = closed_again fd c l
on_socket-Connected true true none fd c l = closed_again fd c l
on_socket-Connected true true (some (register_response id)) fd c l = refl
on_socket-Connected true true (some (job_submitted id)) fd c l = closed_again fd c l
on_socket-Connected true true (some (job_status n)) fd c l = closed_again fd c l
on_socket-Connected true true (some (job_result array behind n)) fd c l = closed_again fd c l
on_socket-Connected true true (some (server_stats s)) fd c l = closed_again fd c l
on_socket-Connected true true (some error) fd c l = closed_again fd c l
on_socket-Connected true true (some other_type) fd c l = closed_again fd c l

connect-Connected :
    (socket : Option ℕ) (reachable : Bool) (x : Exchange) (c : Client) (l : List ℕ)
    → Connected c l (connect_to_server socket reachable x c)
unfolding connect_to_server
connect-Connected none reachable x c l = refl
connect-Connected (some fd) reachable x c l = on_socket-Connected reachable x.sent x.answer fd c l

close_held :
    (socket : ℤ) (request : Request) (l : List ℕ)
    → open_after (socket_of socket ++ l) (sends socket request ∷ closes socket ∷ []) ≡ l
close_held (pos fd) request l = remove_first-head fd l
close_held (negsuc n) request l = refl

disconnect-closes :
    (c : Client) (l : List ℕ)
    → open_after (held c ++ l) (disconnect_from_server c).0 ≡ held (disconnect_from_server c).1 ++ l
unfolding disconnect_from_server
disconnect-closes c l = elim (Bool-cases c.is_connected) [
  | inl on ↦ rw on (close_held c.server_socket (client_disconnect (as_uint32 c.client_id)) l)
  | inr off ↦ rw off refl
]

step-open :
    (call : Call) (c : Client) (l : List ℕ)
    → open_after (held c ++ l) (step call c).0 ≡ held (step call c).1 ++ (lost_by call c ++ l)
unfolding step init
step-open (calls_init none mutex_ok) c l = refl
step-open (calls_init (some config) mutex_ok) c l = refl
step-open (calls_connect socket reachable x) c l = connect-Connected socket reachable x c l
step-open calls_disconnect c l = disconnect-closes c l

-- After any sequence of `client_init`, `client_connect_to_server` and `client_disconnect_from_server`, with
-- any outcome of their calls, the open sockets are exactly the one that the client holds while it is
-- connected, those that were lost before, and those that the sequence has lost: a socket is lost only if the
-- client is initialised, or connects with success, while it is connected. A connection that fails on any of
-- its calls closes its socket.
pub run-open :
    (calls : List Call) (c : Client) (l : List ℕ)
    → open_after (held c ++ l) (run c calls).0 ≡ held (run c calls).1 ++ lost c calls l
unfolding run
run-open [] c l = refl
run-open (call ∷ calls) c l =
    let (deeds, c1) = step call c in
    open_after-append (held c ++ l) deeds (run c1 calls).0
    ∙ ap (λ os. open_after os (run c1 calls).0) (step-open call c l)
    ∙ run-open calls c1 (lost_by call c ++ l)
