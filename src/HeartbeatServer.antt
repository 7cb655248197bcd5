-- ===== src/HeartbeatServer.antt =====
-- heartbeat_server.c and heartbeat_server.h: the server that keeps the last heartbeats. Its TCP and its
-- HTTP port give each connection to `handle_client`.
pub mod Urls
pub mod Decoding
pub mod Storage
pub mod Recent
pub mod Readings
pub mod Validity
pub mod Serving
pub mod Forms
pub mod Carried
pub mod Listening
mod Tests
use Prim.Native.String.{String}
use c_simples.Prelude.{
  ℕ, zero, suc, ◌+◌, ◌-◌, ◌/◌, ltb, ◌==◌, if◌then◌else◌, Bool, true, false, ◌&&◌, Option, none,
  some, List, [], ◌∷◌, length, take, drop,
}
use c_simples.HeartbeatServer.Urls.{c_string}
use c_simples.HeartbeatServer.Storage.{Node, History, add_to_history}
use c_simples.HeartbeatServer.Readings.{
  Libraries, codes, HeartbeatData, process_json_data, process_form, get_history_json,
}

-- A text that is sent as it is, or an HTTP response: the status line, the `Content-Type`, the
-- `Content-Length` and the body. A `bare` one has only its status line.
pub data Response : Type 0 where
  plain : String → Response
  bare : String → Response
  http : String → String → ℕ → List ℕ → Response

-- What the environment answers: the bytes that `read` returns (`none` for 0 or -1), the clock, `malloc`
-- in `add_to_history`, and `strdup` in `get_history_json`.
pub record Request : Type 0 where
  pub bytes : Option (List ℕ)
  pub now : ℕ
  pub allocated : Bool
  pub duplicated : Bool

abbrev pub is_prefix : List ℕ → List ℕ → Bool
is_prefix [] s = true
is_prefix (p ∷ ps) [] = false
is_prefix (p ∷ ps) (c ∷ s) = (p == c) && is_prefix ps s

-- `strstr`: the text from the first occurrence on.
unfoldable pub strstr : List ℕ → List ℕ → Option (List ℕ)
strstr [] needle = if is_prefix needle [] then some [] else none
strstr (c ∷ s) needle =
    let rest = strstr s needle in if is_prefix needle (c ∷ s) then some (c ∷ s) else rest

abbrev pub occurs : Option (List ℕ) → Bool
occurs none = false
occurs (some s) = true

-- The number of decimal digits that `%zu` prints: a `size_t` has at most 20.
abbrev pub digits_of : ℕ → ℕ → ℕ
digits_of zero n = 1
digits_of (suc fuel) n = let more = suc (digits_of fuel (n / 10)) in if ltb n 10 then 1 else more

-- The history as a response, cut by `snprintf` to `BUFFER_SIZE - 1` bytes, of which the head takes 88
-- and the digits of the length.
abbrev pub history_response : Option (List ℕ) → Response
history_response none =
    http "500 Internal Server Error" "text/plain" 21 (codes "Failed to get history")
history_response (some json) =
    http "200 OK" "application/json" (length json)
      (take (4095 - (88 + digits_of 20 (length json))) json)

abbrev pub starts_with_brace : List ℕ → Bool
starts_with_brace [] = false
starts_with_brace (c ∷ s) = c == b'{'

module _ (lib : Libraries) where
  abbrev pub Store : Type 0
  Store = History (HeartbeatData (lib.Double))

  abbrev pub stored : Request → HeartbeatData (lib.Double) → Store → Store
  stored r d h = add_to_history d r.allocated r.now h

  -- The answer to JSON text on the connection itself.
  abbrev pub json_answer :
      Request → Store → Option (HeartbeatData (lib.Double)) → Option Response × Store
  json_answer r h none = (some (plain "Invalid JSON data"), h)
  json_answer r h (some d) = (some (plain "OK"), stored r d h)

  -- The answer to the body of a POST request.
  abbrev pub post_answer :
      Request → Store → Option (HeartbeatData (lib.Double)) → Option Response × Store
  post_answer r h none =
      (some (http "400 Bad Request" "text/plain" 16 (codes "Invalid data sent")), h)
  post_answer r h (some d) = (some (http "200 OK" "text/plain" 2 (codes "OK")), stored r d h)

  -- The body of a POST request: JSON or a form.
  abbrev pub read_body : List ℕ → Option (HeartbeatData (lib.Double))
  read_body body =
      if starts_with_brace body then process_json_data lib body else process_form lib body

  -- A POST request, by the result of `strstr(buffer, "\r\n\r\n")`.
  abbrev pub post : Request → Store → Option (List ℕ) → Option Response × Store
  post r h none = (some (bare "400 Bad Request"), h)
  post r h (some end) = post_answer r h (read_body (drop 4 end))

  -- The dispatch on the text in the buffer.
  abbrev pub dispatch : Request → Store → List ℕ → Option Response × Store
  dispatch r h text =
      if starts_with_brace text
      then json_answer r h (process_json_data lib text)
      else if occurs (strstr text (codes "GET /api/heartbeat/history"))
      then (some (history_response (get_history_json lib h.nodes r.duplicated)), h)
      else if occurs (strstr text (codes "POST /api/heartbeat"))
      then post r h (strstr text (13 ∷ 10 ∷ 13 ∷ 10 ∷ []))
      else (some (http "404 Not Found" "text/plain" 9 (codes "Not Found")), h)

  abbrev pub handle_bytes : Request → Store → Option (List ℕ) → Option Response × Store
  handle_bytes r h none = (none, h)
  handle_bytes r h (some bytes) = dispatch r h (c_string bytes)

  -- `handle_client`: the response, if any, and the history. Each call of it is one step: other threads
  -- change the history only before or after its own single critical section.
  unfoldable pub handle_client : Request → Store → Option Response × Store
  handle_client r h = handle_bytes r h r.bytes

  -- Connections handled one after the other.
  unfoldable pub run : List Request → Store → Store
  run [] h = h
  run (r ∷ rs) h = run rs (handle_client r h).1
