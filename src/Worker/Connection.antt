-- ===== src/Worker/Connection.antt =====
-- The session of a worker: what `worker_start` and a reconnection leave behind on each outcome.
use c_simples.Prelude.{
  ℕ, ◌≡◌, refl, ap, inl, inr, ◌⊎◌, Bool, true, false, Bool-cases, Option, none, some, List, [], ◌∷◌,
  pos, negsuc, ◌&&◌,
}
use c_simples.Worker.{
  Session, Reply, no_reply, connect_ack, registered, other_reply, ConnectEnv, RegisterEnv,
  connect_to_server, register, disconnect_from_server, join, start, stop, reconnect, answered,
  all_ok, with_reply,
}

-- The sockets that `socket` has opened.
abbrev pub opened : Option ℕ → List ℕ
opened none = []
opened (some fd) = fd ∷ []

abbrev pub Joined : ConnectEnv → Session → Bool × List ℕ × Session → Type 0
Joined env w (ok, closed, w') =
    (fd : ℕ) × (id : ℕ) × (env.socket ≡ some fd)
    × (ok ≡ true)
    × (closed ≡ [])
    × (w' ≡ record w { worker_id = pos id; server_socket = pos fd; is_connected = true })

abbrev pub Left : ConnectEnv → Session → Bool × List ℕ × Session → Type 0
Left env w (ok, closed, w') =
    (ok ≡ false)
    × (closed ≡ opened env.socket)
    × (w'.is_connected ≡ false)
    × (w'.is_running ≡ w.is_running)

abbrev connected_on : ℕ → Session → Session
connected_on fd w = record w { server_socket = pos fd; is_connected = true }

answered_cases :
    (o : Option ℕ) (b : Bool) (w : Session)
    → ((fd : ℕ) × (o ≡ some fd) × (answered o b w ≡ (true, [], connected_on fd w)))
      ⊎ (answered o b w ≡ (false, opened o, w))
answered_cases none b w = inr refl
answered_cases (some fd) true w = inl (fd, refl, refl)
answered_cases (some fd) false w = inr refl

connect_cases :
    (c : ConnectEnv) (w : Session)
    → ((fd : ℕ) × (c.socket ≡ some fd) × (connect_to_server c w ≡ (true, [], connected_on fd w)))
      ⊎ (connect_to_server c w ≡ (false, opened c.socket, w))
unfolding connect_to_server
connect_cases c w = answered_cases c.socket (all_ok c) w

with_reply-cases :
    (w : Session) (reply : Reply)
    → ((id : ℕ) × (with_reply w reply ≡ (true, record w { worker_id = pos id })))
      ⊎ (with_reply w reply ≡ (false, w))
with_reply-cases w no_reply = inr refl
with_reply-cases w connect_ack = inr refl
with_reply-cases w (registered id) = inl (id, refl)
with_reply-cases w other_reply = inr refl

register_cases :
    (r : RegisterEnv) (w : Session)
    → ((id : ℕ) × (register r w ≡ (true, record w { worker_id = pos id })))
      ⊎ (register r w ≡ (false, w))
unfolding register
register_cases r w = elim (Bool-cases (w.is_connected && r.sent)) [
  | inl b ↦ elim (with_reply-cases w r.reply) [
    | inl (id, e) ↦ inl (id, rw (b, register) e)
    | inr e ↦ inr (rw (b, register) e)
  ]
  | inr b ↦ inr (rw (b, register) refl)
]

pub join_cases :
    (c : ConnectEnv) (r : RegisterEnv) (w : Session)
    → w.is_connected ≡ false
    → Joined c w (join c r w) ⊎ Left c w (join c r w)
unfolding join disconnect_from_server
join_cases c r w off = elim (connect_cases c w) [
  | inl (fd, s, e) ↦ elim (register_cases r (connected_on fd w)) [
    | inl (id, q) ↦ inl (fd, id, s, rw (e, q) refl, rw (e, q) refl, rw (e, q) refl)
    | inr q ↦ inr (rw (e, q) refl, rw (e, q, s) refl, rw (e, q) refl, rw (e, q) refl)
  ]
  | inr e ↦ inr (rw e refl, rw e refl, rw e off, rw e refl)
]

-- What `worker_start` gives when it succeeds: connected, registered and running, with the socket open.
abbrev pub Started : ConnectEnv → Bool × List ℕ × Session → Type 0
Started env (ok, closed, w') =
    (fd : ℕ) × (id : ℕ) × (env.socket ≡ some fd)
    × (ok ≡ true)
    × (closed ≡ [])
    × (w' ≡ record {
      worker_id = pos id;
      server_socket = pos fd;
      is_running = true;
      is_connected = true;
    })

-- `worker_start` of a worker that is stopped and disconnected either succeeds, with the socket that it
-- opened kept open and the worker connected, registered and running; or it fails, and has then closed
-- the socket that it opened, if any, exactly once, and the worker is stopped and disconnected.
pub start_lem :
    (c : ConnectEnv) (r : RegisterEnv) (heartbeat_ok job_ok : Bool) (w : Session)
    → w.is_running ≡ false
    → w.is_connected ≡ false
    → Started c (start c r heartbeat_ok job_ok w) ⊎ Left c w (start c r heartbeat_ok job_ok w)
unfolding start disconnect_from_server
start_lem c r heartbeat_ok job_ok w stop off =
    elim (join_cases c r (record w { is_running = true }) off) [
      | inl (fd, id, s, ok, closed, after) ↦ elim (Bool-cases (heartbeat_ok && job_ok)) [
        | inl b ↦
            inl (fd, id, s, rw (stop, ok, b) refl, rw (stop, ok, b) closed, rw (stop, ok, b) after)
        | inr b ↦ inr (
          rw (stop, ok, b) refl,
          rw (stop, ok, b, closed, after, s) refl,
          rw (stop, ok, b, after) refl,
          rw (stop, ok, b) refl,
        )
      ]
      | inr (ok, closed, gone, running) ↦
          inr (rw (stop, ok) refl, rw (stop, ok) closed, rw (stop, ok) gone, rw (stop, ok) refl)
    ]

-- A reconnection after a failed heartbeat closes the old socket; if it succeeds the worker is connected on
-- the new socket under its new number, and otherwise the new socket is closed too, if there was one,
-- and the worker is disconnected.
pub reconnect_lem :
    (c : ConnectEnv) (r : RegisterEnv) (w : Session) (old : ℕ)
    → w.is_connected ≡ true
    → w.server_socket ≡ pos old
    → let (ok, closed, w') = reconnect c r w in
      ((fd : ℕ) × (id : ℕ) × (c.socket ≡ some fd)
        × (ok ≡ true)
        × (closed ≡ old ∷ [])
        × (w' ≡ record w { worker_id = pos id; server_socket = pos fd; is_connected = true }))
      ⊎ ((ok ≡ false)
          × (closed ≡ old ∷ opened c.socket)
          × (w'.is_connected ≡ false)
          × (w'.is_running ≡ w.is_running))
unfolding reconnect disconnect_from_server
reconnect_lem c r w old on at =
    let off : Session = record w { server_socket = negsuc 0; is_connected = false } in
    elim (join_cases c r off refl) [
      | inl (fd, id, s, ok, closed, after) ↦
          inl (fd, id, s, rw on ok, rw (on, at) (ap (λ l. old ∷ l) closed), rw on after)
      | inr (ok, closed, gone, running) ↦
          inr (rw on ok, rw (on, at) (ap (λ l. old ∷ l) closed), rw on gone, rw on running)
    ]
