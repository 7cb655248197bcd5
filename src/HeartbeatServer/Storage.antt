-- ===== src/HeartbeatServer/Storage.antt =====
-- heartbeat_server.c: the history of heartbeats. Each call holds the mutex, so it is one function of the
-- two globals.
use c_simples.Prelude.{
  ℕ, ltb, if◌then◌else◌, ℤ, pos, negsuc, inc, dec, Bool, true, false, List, [], ◌∷◌,
}

-- `HeartbeatNode` without its link.
pub record Node (Data : Type 0) : Type 0 where
  pub reading : Data
  pub timestamp : ℕ

-- `heartbeat_history`, from its first node on, and `heartbeat_count`
pub record History (Data : Type 0) : Type 0 where
  pub nodes : List (Node Data)
  pub count : ℤ

-- `MAX_HEARTBEATS`
abbrev pub max_heartbeats : ℕ
max_heartbeats = 100

-- `heartbeat_count > MAX_HEARTBEATS`
abbrev pub is_over : ℤ → Bool
is_over (pos n) = ltb max_heartbeats n
is_over (negsuc n) = false

module _ {Data : Type 0} where
  -- The walk to the last node from `current`, which stands before `rest`: the list without it.
  unfoldable pub walk : Node Data → List (Node Data) → List (Node Data)
  walk current [] = []
  walk current (next ∷ rest) = current ∷ walk next rest

  -- The removal of the oldest node. With a single node `prev` is NULL, and nothing is removed.
  unfoldable pub remove_oldest : History Data → History Data
  remove_oldest h = elim h.nodes [
    | [] ↦ h
    | current ∷ [] ↦ h
    | current ∷ next ∷ rest ↦ record { nodes = walk current (next ∷ rest); count = dec h.count }
  ]

  abbrev pub pushed : Data → ℕ → History Data → History Data
  pushed d now h = record {
    nodes = record { reading = d; timestamp = now } ∷ h.nodes;
    count = inc h.count;
  }

  abbrev pub trimmed : History Data → History Data
  trimmed h = if is_over h.count then remove_oldest h else h

  -- `add_to_history`; `ok` says whether `malloc` succeeds.
  unfoldable pub add_to_history : Data → Bool → ℕ → History Data → History Data
  add_to_history d false now h = h
  add_to_history d true now h = trimmed (pushed d now h)

  -- `clear_heartbeat_history`
  unfoldable pub clear_heartbeat_history : History Data → History Data
  clear_heartbeat_history h = record { nodes = []; count = pos 0 }
