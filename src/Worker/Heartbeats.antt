-- ===== src/Worker/Heartbeats.antt =====
-- worker.c: the sockets of the heartbeat thread, and when it is in session.
use c_simples.Prelude.{
  ℕ, ◌+◌, ◌≡◌, refl, ap, inl, inr, ◌⊎◌, if◌then◌else◌, Bool, false, Bool-cases, Option, List, [],
  ◌∷◌, ◌++◌, length, length-append, arith,
}
use c_simples.Worker.{
  Session, ConnectEnv, RegisterEnv, closing, disconnect_from_server, join, reconnect,
}
use c_simples.Worker.Connection.{opened, Joined, Left, join_cases}
use c_simples.Worker.Threads.{send_heartbeat, Beat, beat, heartbeat_thread}

-- The socket of a worker that is connected.
abbrev pub held : Session → List ℕ
held w = if w.is_connected then closing w.server_socket else []

-- The sockets that `socket` gives to the thread until it stops: one for each heartbeat that fails.
abbrev opened_by : Beat → Session → List ℕ
opened_by b w = if (send_heartbeat w b.ack).0 then [] else opened b.connect_env.socket

abbrev pub all_opened : List Beat → Session → List ℕ
all_opened [] w = []
all_opened (b ∷ bs) w =
    let rest = all_opened bs (beat b w).1 in if b.is_running then opened_by b w ++ rest else []

disconnected : (w : Session) → (disconnect_from_server w).1.is_connected ≡ false
unfolding disconnect_from_server
disconnected w = elim (Bool-cases w.is_connected) [ inl e ↦ rw e refl | inr e ↦ rw e refl ]

disconnect-closes : (w : Session) → (disconnect_from_server w).0 ≡ held w
unfolding disconnect_from_server
disconnect-closes w = elim (Bool-cases w.is_connected) [ inl e ↦ rw e refl | inr e ↦ rw e refl ]

-- What is closed and what is held afterwards are as many as what was held and what was opened.
abbrev pub Balanced : List ℕ → List ℕ → List ℕ × Session → Type 0
Balanced before new (closed, w') = length closed + length (held w') ≡ length before + length new

abbrev Settled : Option ℕ → Bool × List ℕ × Session → Type 0
Settled socket (ok, closed, w') = Balanced [] (opened socket) (closed, w')

Joined-Settled :
    (c : ConnectEnv) (w : Session) (o : Bool × List ℕ × Session)
    → Joined c w o ⊎ Left c w o
    → Settled c.socket o
Joined-Settled c w (ok, closed, w') (inl (fd, id, s, _, none_closed, after)) = omega (
  arith,
  ap (λ l. length l) none_closed,
  ap (λ x. length (held x)) after,
  ap (λ o. length (opened o)) s,
)
Joined-Settled c w (ok, closed, w') (inr (_, all_closed, gone, _)) =
    rw gone (omega (arith, ap (λ l. length l) all_closed))

join-Balanced :
    (c : ConnectEnv) (r : RegisterEnv) (w : Session)
    → w.is_connected ≡ false
    → Settled c.socket (join c r w)
join-Balanced c r w off = Joined-Settled c w (join c r w) (join_cases c r w off)

abbrev without_value : Bool × List ℕ × Session → List ℕ × Session
without_value (ok, closed, w) = (closed, w)

reconnect-Balanced :
    (c : ConnectEnv) (r : RegisterEnv) (w : Session)
    → Balanced (held w) (opened c.socket) (without_value (reconnect c r w))
unfolding reconnect
reconnect-Balanced c r w =
    let (first, w1) = disconnect_from_server w in
    let (ok, closed, w2) = join c r w1 in
    omega (
      arith,
      length-append first closed,
      ap (λ l. length l) (disconnect-closes w),
      join-Balanced c r w1 (disconnected w),
    )

beat-Balanced : (b : Beat) (w : Session) → Balanced (held w) (opened_by b w) (beat b w)
beat-Balanced b w = elim (Bool-cases (send_heartbeat w b.ack).0) [
  | inl e ↦ rw e (omega arith)
  | inr e ↦ rw e (reconnect-Balanced b.connect_env b.register_env w)
]

-- In every run of the heartbeat thread, whatever its heartbeats and reconnections return, the sockets that it
-- closes and the one that is held at the end are as many as the one held at the start and those that it has
-- opened: it loses no socket.
pub heartbeat_thread-Balanced :
    (bs : List Beat) (w : Session) → Balanced (held w) (all_opened bs w) (heartbeat_thread bs w)
unfolding heartbeat_thread
heartbeat_thread-Balanced [] w = omega arith
heartbeat_thread-Balanced (b ∷ bs) w =
    let (closed, w1) = beat b w in
    let (more, w2) = heartbeat_thread bs w1 in
    elim (Bool-cases b.is_running) [
      | inr e ↦ rw e (omega arith)
      | inl e ↦ rw e (
          omega (
            arith,
            length-append closed more,
            length-append (opened_by b w) (all_opened bs w1),
            beat-Balanced b w,
            heartbeat_thread-Balanced bs w1,
          ))
    ]
