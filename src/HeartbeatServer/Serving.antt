-- ===== src/HeartbeatServer/Serving.antt =====
-- heartbeat_server.c: `handle_client` on every request, and what the history holds after any requests.
use text.Mathlib.Text.{◌==◌}
use c_simples.Prelude.{
  ℕ, zero, suc, ◌≡◌, refl, inl, inr, ◌⊎◌, Bool, true, false, ◌&&◌, Bool-cases, Option, none, some,
  List, [], ◌∷◌, take, drop, All, subst, sym, some_eq,
}
use c_simples.HeartbeatServer.{
  Request, Response, plain, bare, http, handle_client, handle_bytes, dispatch, json_answer,
  post_answer, post, read_body, Store, run, starts_with_brace, occurs, strstr, history_response,
}
use c_simples.HeartbeatServer.Urls.{c_string}
use c_simples.HeartbeatServer.Storage.{Node, add_to_history, max_heartbeats}
use c_simples.HeartbeatServer.Recent.{IsBounded, add_to_history-IsBounded, add_to_history-take}
use c_simples.HeartbeatServer.Readings.{
  Libraries, HeartbeatData, codes, process_json_data, process_form, get_history_json,
}
use c_simples.HeartbeatServer.Carried.{
  InJson, InForm, InJson-process_json_data, InForm-process_form,
}
use c_simples.HeartbeatServer.Validity.{IsValid, process_form-IsValid, process_json_data-IsValid}

-- The two answers that say that a heartbeat was accepted.
abbrev pub is_ok : Option Response → Bool
is_ok none = false
is_ok (some (plain text)) = text == "OK"
is_ok (some (bare status)) = false
is_ok (some (http status type n body)) = (status == "200 OK") && (type == "text/plain")

module _ (lib : Libraries) (low : lib.is_at_least_0 (lib.double_zero) ≡ true)
    (high : lib.is_at_most_100 (lib.double_zero) ≡ true) where
  -- The heartbeat of the body of a POST request, in JSON or in a form.
  abbrev pub InBody : List ℕ → HeartbeatData (lib.Double) → Type 0
  InBody body d =
      ((starts_with_brace body ≡ true) × InJson lib body d)
      ⊎ ((starts_with_brace body ≡ false) × InForm lib body d)

  -- The body is behind the first empty line.
  abbrev pub Behind : Option (List ℕ) → HeartbeatData (lib.Double) → Type 0
  Behind o d = (end : List ℕ) × (o ≡ some end) × InBody (drop 4 end) d

  -- The heartbeat of a text that is received: JSON, or a POST request that is no request for the history.
  abbrev pub InText : List ℕ → HeartbeatData (lib.Double) → Type 0
  InText text d =
      ((starts_with_brace text ≡ true) × InJson lib text d)
      ⊎ ((starts_with_brace text ≡ false)
          × (occurs (strstr text (codes "GET /api/heartbeat/history")) ≡ false)
          × (occurs (strstr text (codes "POST /api/heartbeat")) ≡ true)
          × Behind (strstr text (13 ∷ 10 ∷ 13 ∷ 10 ∷ [])) d)

  -- The heartbeat of a request.
  abbrev pub Carries : Option (List ℕ) → HeartbeatData (lib.Double) → Type 0
  Carries none d = ⊥
  Carries (some bytes) d = InText (c_string bytes) d

  -- The heartbeat that is looked for is there and valid, it is added, and the client is told so; or there is
  -- none, nothing is added, and the client is not told so.
  abbrev pub Answered :
      (HeartbeatData (lib.Double) → Type 0)
      → Request
      → Store lib
      → Option Response × Store lib
      → Type 0
  Answered Has r h o =
      ((d : HeartbeatData (lib.Double)) × Has d
        × IsValid lib d
        × (is_ok o.0 ≡ true)
        × (o.1 ≡ add_to_history d r.allocated r.now h))
      ⊎ (((d : HeartbeatData (lib.Double)) → ¬ Has d) × (is_ok o.0 ≡ false) × (o.1 ≡ h))

  abbrev pub Served : Request → Store lib → Option Response × Store lib → Type 0
  Served r h o = Answered (Carries r.bytes) r h o

  -- What a reader gives is what is there, and is valid.
  abbrev Reads :
      (HeartbeatData (lib.Double) → Type 0) → Option (HeartbeatData (lib.Double)) → Type 0
  Reads Has o =
      ((d : HeartbeatData (lib.Double)) → o ≡ some d → Has d × IsValid lib d)
      × ((d : HeartbeatData (lib.Double)) → Has d → o ≡ some d)

  json-Reads : (text : List ℕ) → Reads (InJson lib text) (process_json_data lib text)
  json-Reads text = (
    λ d e. ((InJson-process_json_data lib text d).0 e, (process_json_data-IsValid lib text d e).0),
    λ d i. (InJson-process_json_data lib text d).1 i,
  )

  form-Reads : (body : List ℕ) → Reads (InForm lib body) (process_form lib body)
  form-Reads body = (
    λ d e. ((InForm-process_form lib body d).0 e, process_form-IsValid lib body d low high e),
    λ d i. (InForm-process_form lib body d).1 i,
  )

  read_body-Reads : (body : List ℕ) → Reads (InBody body) (read_body lib body)
  read_body-Reads body = elim (Bool-cases (starts_with_brace body)) [
    | inl b ↦
        let (there, back) = json-Reads body in
        (
          λ d e. let (i, v) = there d (rw b at e) in (inl (b, i), v),
          λ d i. elim i [ inl (_, j) ↦ rw b (back d j) | inr (n, _) ↦ cc ],
        )
    | inr b ↦
        let (there, back) = form-Reads body in
        (
          λ d e. let (i, v) = there d (rw b at e) in (inr (b, i), v),
          λ d i. elim i [ inl (n, _) ↦ cc | inr (_, j) ↦ rw b (back d j) ],
        )
  ]

  json_answer-Answered :
      (Has : HeartbeatData (lib.Double) → Type 0) (r : Request) (h : Store lib)
      (o : Option (HeartbeatData (lib.Double)))
      → Reads Has o
      → Answered Has r h (json_answer lib r h o)
  json_answer-Answered Has r h none v = inr (λ d i. let bad = v.1 d i in cc, refl, refl)
  json_answer-Answered Has r h (some d) v = let (i, k) = v.0 d refl in inl (d, i, k, refl, refl)

  post_answer-Answered :
      (Has : HeartbeatData (lib.Double) → Type 0) (r : Request) (h : Store lib)
      (o : Option (HeartbeatData (lib.Double)))
      → Reads Has o
      → Answered Has r h (post_answer lib r h o)
  post_answer-Answered Has r h none v = inr (λ d i. let bad = v.1 d i in cc, refl, refl)
  post_answer-Answered Has r h (some d) v = let (i, k) = v.0 d refl in inl (d, i, k, refl, refl)

  -- The same heartbeats under another name.
  Answered-same :
      (Has Is : HeartbeatData (lib.Double) → Type 0) (r : Request) (h : Store lib)
      (o : Option Response × Store lib)
      → ((d : HeartbeatData (lib.Double)) → Has d → Is d)
      → ((d : HeartbeatData (lib.Double)) → Is d → Has d)
      → Answered Has r h o
      → Answered Is r h o
  Answered-same Has Is r h o to from (inl (d, i, v, ok, e)) = inl (d, to d i, v, ok, e)
  Answered-same Has Is r h o to from (inr (missing, ok, e)) =
      inr (λ d i. missing d (from d i), ok, e)

  post-Answered :
      (r : Request) (h : Store lib) (o : Option (List ℕ)) → Answered (Behind o) r h (post lib r h o)
  post-Answered r h none = inr (λ d (end, e, _). cc, refl, refl)
  post-Answered r h (some end) =
      Answered-same (InBody (drop 4 end)) (Behind (some end)) r h (post lib r h (some end))
        (λ d i. (end, refl, i))
        (λ d (e, q, i). subst (λ x. InBody (drop 4 x) d) (sym (some_eq q)) i)
        (post_answer-Answered (InBody (drop 4 end)) r h (read_body lib (drop 4 end))
          (read_body-Reads (drop 4 end)))

  history-refused : (o : Option (List ℕ)) → is_ok (some (history_response o)) ≡ false
  history-refused none = refl
  history-refused (some json) = refl

  dispatch-Answered :
      (r : Request) (h : Store lib) (text : List ℕ)
      → Answered (InText text) r h (dispatch lib r h text)
  dispatch-Answered r h text = elim (Bool-cases (starts_with_brace text)) [
    | inl a ↦
        Answered-same (InJson lib text) (InText text) r h (dispatch lib r h text)
          (λ d i. inl (a, i)) (λ d i. elim i [ inl (_, j) ↦ j | inr (n, _, _, _) ↦ cc ])
          (rw a (
            json_answer-Answered (InJson lib text) r h (process_json_data lib text)
              (json-Reads text)))
    | inr a ↦ elim (Bool-cases (occurs (strstr text (codes "GET /api/heartbeat/history")))) [
      | inl b ↦ inr (
        λ d i. elim i [ inl (n, _) ↦ cc | inr (_, n, _, _) ↦ cc ],
        rw (a, b) (history-refused (get_history_json lib h.nodes r.duplicated)),
        rw (a, b) refl,
      )
      | inr b ↦ elim (Bool-cases (occurs (strstr text (codes "POST /api/heartbeat")))) [
        | inl c ↦
            Answered-same (Behind (strstr text (13 ∷ 10 ∷ 13 ∷ 10 ∷ []))) (InText text) r h
              (dispatch lib r h text) (λ d i. inr (a, b, c, i))
              (λ d i. elim i [ inl (n, _) ↦ cc | inr (_, _, _, j) ↦ j ])
              (rw (a, b, c) (post-Answered r h (strstr text (13 ∷ 10 ∷ 13 ∷ 10 ∷ []))))
        | inr c ↦ inr (
          λ d i. elim i [ inl (n, _) ↦ cc | inr (_, _, n, _) ↦ cc ],
          rw (a, b, c) refl,
          rw (a, b, c) refl,
        )
      ]
    ]
  ]

  bytes-Answered :
      (r : Request) (h : Store lib) (o : Option (List ℕ))
      → Answered (Carries o) r h (handle_bytes lib r h o)
  bytes-Answered r h none = inr (λ d i. i, refl, refl)
  bytes-Answered r h (some bytes) = dispatch-Answered r h (c_string bytes)

  -- Where 0.0 lies between 0.0 and 100.0: whatever a client sends, either its request carries a heartbeat with
  -- valid fields, as JSON, or as the JSON or the form in the body of a POST request, and this one is added to
  -- the history and the answer is OK; or it carries none, the history stays as it is, and the answer, if there
  -- is one, is not OK. JSON carries the heartbeat of its seven members, with addresses that `inet_pton` takes
  -- and numbers in their ranges. A form carries one if exactly seven of its fields have valid values: the one
  -- in which these have been written in their order.
  pub handle_client_lem : (r : Request) (h : Store lib) → Served r h (handle_client lib r h)
  unfolding handle_client
  handle_client_lem r h = bytes-Answered r h r.bytes

  -- The history is bounded and holds valid heartbeats.
  abbrev pub Good : Store lib → Type 0
  Good h =
      IsBounded h × All (λ (n : Node (HeartbeatData (lib.Double))). IsValid lib n.reading) h.nodes

  All-take :
      (n : ℕ) (ns : List (Node (HeartbeatData (lib.Double))))
      → All (λ (n : Node (HeartbeatData (lib.Double))). IsValid lib n.reading) ns
      → All (λ (n : Node (HeartbeatData (lib.Double))). IsValid lib n.reading) (take n ns)
  All-take zero ns a = tt
  All-take (suc n) [] a = tt
  All-take (suc n) (x ∷ ns) a = (a.0, All-take n ns a.1)

  added-Good :
      (d : HeartbeatData (lib.Double)) (ok : Bool) (now : ℕ) (h : Store lib)
      → IsValid lib d
      → Good h
      → Good (add_to_history d ok now h)
  unfolding add_to_history
  added-Good d false now h v g = g
  added-Good d true now h v (b, a) = (
    add_to_history-IsBounded d true now h b,
    subst (λ ns. All (λ (n : Node (HeartbeatData (lib.Double))). IsValid lib n.reading) ns)
        (sym (add_to_history-take d now h b))
        (All-take max_heartbeats (record { reading = d; timestamp = now } ∷ h.nodes) (v, a)),
  )

  Served-Good :
      (r : Request) (h : Store lib) (o : Option Response × Store lib)
      → Served r h o
      → Good h
      → Good o.1
  Served-Good r h o (inl (d, i, v, ok, e)) g =
      subst Good (sym e) (added-Good d r.allocated r.now h v g)
  Served-Good r h o (inr (missing, ok, e)) g = subst Good (sym e) g

  -- Where 0.0 lies between 0.0 and 100.0: after any requests the history has at most 100 heartbeats,
  -- `heartbeat_count` is their number, each percentage lies between 0 and 100, each latency is at least
  -- 0, and each address is empty or the start of a text that `validate_ip` accepts, if this was so
  -- before.
  pub run-Good : (rs : List Request) (h : Store lib) → Good h → Good (run lib rs h)
  unfolding run
  run-Good [] h g = g
  run-Good (r ∷ rs) h g =
      run-Good rs (handle_client lib r h).1
        (Served-Good r h (handle_client lib r h) (handle_client_lem r h) g)
