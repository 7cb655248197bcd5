-- ===== src/HeartbeatServer/Carried.antt =====
-- heartbeat_server.c: the heartbeat that a text carries, as JSON or as a form.
use c_simples.Prelude.{
  [], ℕ, ◌==◌, ◌≡◌, refl, sym, ap, ◌∙◌, Bool, true, false, ◌&&◌, Option, none, some, List, take,
  length, ◌=ℤ◌, pos, some_eq, Bool-cases, inl, inr, if◌then◌else◌, subst, arith,
}
use c_simples.HeartbeatServer.Readings.{
  Libraries, HeartbeatData, JsonFields, find_fields, read_fields, check_fields, if_numbers_valid,
  numbers_valid, validate_ip, process_json_data, process_form, tokens, no_reading,
}
use c_simples.HeartbeatServer.Forms.{given, accepted, written_all, process_form-given}
use c_simples.HeartbeatServer.Validity.{bind_some, if_some, and_both, numbers_of}

module _ (lib : Libraries) where
  open lib use {
    Double, is_at_least_0, is_at_most_100, inet_pton, Json, parse, get, get_string, get_double,
  }

  -- The body of a form has exactly seven fields with valid values, which are written into a cleared heartbeat.
  abbrev pub InForm : List ℕ → HeartbeatData Double → Type 0
  InForm body d =
      let fs = accepted lib (given (tokens [] body)) in
      (length fs ≡ 7) × (written_all lib fs (no_reading lib) ≡ d)

  seven : (n : ℕ) → (n == 7) ≡ true → n ≡ 7
  seven n e = ground arith

  is_seven : (n : ℕ) → n ≡ 7 → (n == 7) ≡ true
  is_seven n e = ground arith

  pub InForm-process_form :
      (body : List ℕ) (d : HeartbeatData Double)
      → (process_form lib body ≡ some d → InForm body d)
        × (InForm body d → process_form lib body ≡ some d)
  InForm-process_form body d =
      let fs = accepted lib (given (tokens [] body)) in
      (
        λ e.
            let (n, same) =
              if_some (length fs == 7) (some (written_all lib fs (no_reading lib))) d
                (sym (process_form-given lib body) ∙ e) in
            (seven (length fs) n, some_eq same),
        λ (n, same).
            process_form-given lib body
            ∙ subst
                (λ (b : Bool).
                  (if b then some (written_all lib fs (no_reading lib)) else none) ≡ some d)
                (sym (is_seven (length fs) n)) (ap some same),
      )

  -- The seven members of an object.
  abbrev pub Members : Json → JsonFields Json → Type 0
  Members root f =
      (get root "local_ip" ≡ some f.local_ip)
      × (get root "public_ip" ≡ some f.public_ip)
      × (get root "cpu_usage" ≡ some f.cpu_usage)
      × (get root "memory_usage" ≡ some f.memory_usage)
      × (get root "disk_usage" ≡ some f.disk_usage)
      × (get root "availability" ≡ some f.availability)
      × (get root "latency" ≡ some f.latency)

  abbrev pub IsAddress : List ℕ → Type 0
  IsAddress ip = (inet_pton ip =ℤ pos 0) ≡ false

  abbrev pub IsPercentage : Double → Type 0
  IsPercentage v = (is_at_least_0 v ≡ true) × (is_at_most_100 v ≡ true)

  -- The numbers are in their ranges.
  abbrev pub InRange : JsonFields Json → Type 0
  InRange f =
      IsPercentage (get_double f.cpu_usage)
      × IsPercentage (get_double f.memory_usage)
      × IsPercentage (get_double f.disk_usage)
      × IsPercentage (get_double f.availability)
      × (is_at_least_0 (get_double f.latency) ≡ true)

  -- The heartbeat of the members.
  abbrev pub of_members : JsonFields Json → List ℕ → List ℕ → HeartbeatData Double
  of_members f local_ip public_ip = record {
    local_ip = take 15 local_ip;
    public_ip = take 15 public_ip;
    cpu_usage = get_double f.cpu_usage;
    memory_usage = get_double f.memory_usage;
    disk_usage = get_double f.disk_usage;
    availability = get_double f.availability;
    latency = get_double f.latency;
  }

  -- Both addresses are there and valid, the numbers are in their ranges, and all of them are the heartbeat.
  abbrev pub FromMembers :
      JsonFields Json → Option (List ℕ) → Option (List ℕ) → HeartbeatData Double → Type 0
  FromMembers f a b d =
      (local_ip : List ℕ) × (public_ip : List ℕ) × (a ≡ some local_ip)
      × (b ≡ some public_ip)
      × IsAddress local_ip
      × IsAddress public_ip
      × InRange f
      × (of_members f local_ip public_ip ≡ d)

  -- The text is a JSON object with the seven members, and these are the heartbeat.
  abbrev pub InJson : List ℕ → HeartbeatData Double → Type 0
  InJson text d =
      (root : Json) × (f : JsonFields Json) × (parse text ≡ some root)
      × Members root f
      × FromMembers f (get_string f.local_ip) (get_string f.public_ip) d

  find_fields-Members :
      (root : Json) (f : JsonFields Json) → find_fields lib root ≡ some f → Members root f
  unfolding find_fields
  find_fields-Members root f e0 =
      let (a, ga, e1) = bind_some (get root "local_ip") _ f e0 in
      let (b, gb, e2) = bind_some (get root "public_ip") _ f e1 in
      let (c, gc, e3) = bind_some (get root "cpu_usage") _ f e2 in
      let (m, gm, e4) = bind_some (get root "memory_usage") _ f e3 in
      let (k, gk, e5) = bind_some (get root "disk_usage") _ f e4 in
      let (v, gv, e6) = bind_some (get root "availability") _ f e5 in
      let (l, gl, e7) = bind_some (get root "latency") _ f e6 in
      subst (Members root) (some_eq e7) (ga, gb, gc, gm, gk, gv, gl)

  Members-find_fields :
      (root : Json) (f : JsonFields Json) → Members root f → find_fields lib root ≡ some f
  unfolding find_fields
  Members-find_fields root f (a, b, c, m, k, v, l) = rw (a, b, c, m, k, v, l) refl

  address : (ip : List ℕ) → validate_ip lib (some ip) ≡ true → IsAddress ip
  unfolding validate_ip
  address ip e = elim (Bool-cases (inet_pton ip =ℤ pos 0)) [
    | inl z ↦ let bad = rw z at e in cc
    | inr n ↦ n
  ]

  is_address : (ip : List ℕ) → IsAddress ip → validate_ip lib (some ip) ≡ true
  unfolding validate_ip
  is_address ip e = rw e refl

  percentage : (v : Double) → (is_at_least_0 v && is_at_most_100 v) ≡ true → IsPercentage v
  percentage v e = and_both (is_at_least_0 v) (is_at_most_100 v) e

  check_fields-FromMembers :
      (f : JsonFields Json) (a b : Option (List ℕ)) (d : HeartbeatData Double)
      → check_fields lib f a b ≡ some d
      → FromMembers f a b d
  check_fields-FromMembers f none b d e = cc
  check_fields-FromMembers f (some x) none d e = cc
  check_fields-FromMembers f (some x) (some y) d e =
      let r = read_fields lib f x y in
      let (t, e1) =
        if_some (validate_ip lib (some x) && validate_ip lib (some y)) (if_numbers_valid lib r) d
          e in
      let (u, e2) = if_some (numbers_valid lib r) (some r) d e1 in
      let (vx, vy) = and_both (validate_ip lib (some x)) (validate_ip lib (some y)) t in
      let (p1, p2, p3, p4, p5) = numbers_of lib r u in
      (
        x,
        y,
        refl,
        refl,
        address x vx,
        address y vy,
        (percentage _ p1, percentage _ p2, percentage _ p3, percentage _ p4, p5),
        some_eq e2,
      )

  FromMembers-check_fields :
      (f : JsonFields Json) (a b : Option (List ℕ)) (d : HeartbeatData Double)
      → FromMembers f a b d
      → check_fields lib f a b ≡ some d
  FromMembers-check_fields f a b d
        (x, y, ea, eb, ax, ay, ((c1, c2), (m1, m2), (k1, k2), (v1, v2), l), same) =
      rw (ea, eb, is_address x ax, is_address y ay, c1, c2, m1, m2, k1, k2, v1, v2, l)
        (ap some same)

  pub InJson-process_json_data :
      (text : List ℕ) (d : HeartbeatData Double)
      → (process_json_data lib text ≡ some d → InJson text d)
        × (InJson text d → process_json_data lib text ≡ some d)
  unfolding process_json_data
  InJson-process_json_data text d = (
    λ e.
        let (root, p, e0) = bind_some (parse text) _ d e in
        let (f, m, e1) = bind_some (find_fields lib root) _ d e0 in
        (
          root,
          f,
          p,
          find_fields-Members root f m,
          check_fields-FromMembers f (get_string f.local_ip) (get_string f.public_ip) d e1,
        ),
    λ (root, f, p, m, c).
        rw (p, Members-find_fields root f m)
          (FromMembers-check_fields f (get_string f.local_ip) (get_string f.public_ip) d c),
  )
