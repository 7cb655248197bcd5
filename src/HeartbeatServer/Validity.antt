-- ===== src/HeartbeatServer/Validity.antt =====
-- heartbeat_server.c: which heartbeats are accepted from JSON and from a form.
use c_simples.Prelude.{
  ℕ, ◌==◌, ◌≡◌, refl, inl, inr, ◌⊎◌, Bool, true, false, ◌&&◌, if◌then◌else◌, Option, none, some,
  List, [], ◌∷◌, subst, some_eq,
}
use c_simples.HeartbeatServer.Urls.{parse_key_value}
use c_simples.HeartbeatServer.Readings.{
  Libraries, HeartbeatData, ◌>>=◌, copy_ip, tokens, validate_ip, validate_percentage,
  validate_latency, numbers_valid, if_numbers_valid, JsonFields, find_fields, read_fields,
  check_fields, Field, field_of, put_field, local_ip_field, public_ip_field, cpu_usage_field,
  memory_usage_field, disk_usage_field, availability_field, latency_field, process_json_data,
  no_reading, put_if, set_parsed, form_loop, process_form,
}

pub bind_some :
    {A B : Type 0} (m : Option A) (k : A → Option B) (b : B)
    → (m >>= k) ≡ some b
    → (a : A) × (m ≡ some a) × (k a ≡ some b)
bind_some none k b e = cc
bind_some (some a) k b e = (a, refl, e)

pub if_some :
    {A : Type 0} (b : Bool) (o : Option A) (a : A)
    → (if b then o else none) ≡ some a
    → (b ≡ true) × (o ≡ some a)
if_some true o a e = (refl, e)
if_some false o a e = cc

pub and_both : (a b : Bool) → (a && b) ≡ true → (a ≡ true) × (b ≡ true)
and_both true true e = (refl, refl)
and_both true false e = cc
and_both false b e = cc

module _ (lib : Libraries) where
  open lib use {Double, double_zero, is_at_least_0, is_at_most_100}

  -- Not given, or the first 15 bytes of a text that `validate_ip` accepts.
  abbrev pub IpOk : List ℕ → Type 0
  IpOk ip =
      (ip ≡ []) ⊎ ((text : List ℕ) × (validate_ip lib (some text) ≡ true) × (ip ≡ copy_ip text))

  abbrev pub Percent : Double → Type 0
  Percent v = validate_percentage lib v ≡ true

  -- The fields are in their ranges.
  abbrev pub IsValid : HeartbeatData Double → Type 0
  IsValid d =
      IpOk d.local_ip
      × IpOk d.public_ip
      × Percent d.cpu_usage
      × Percent d.memory_usage
      × Percent d.disk_usage
      × Percent d.availability
      × (validate_latency lib d.latency ≡ true)

  -- Both addresses are given.
  abbrev pub HasIps : HeartbeatData Double → Type 0
  HasIps d =
      ((text : List ℕ) × (validate_ip lib (some text) ≡ true) × (d.local_ip ≡ copy_ip text))
      × ((text : List ℕ) × (validate_ip lib (some text) ≡ true) × (d.public_ip ≡ copy_ip text))

  -- One counted field, if its value is valid.
  put_if-IsValid :
      (ok : Bool) (d' d : HeartbeatData Double) (n : ℕ)
      → (ok ≡ true → IsValid d')
      → IsValid d
      → IsValid (put_if lib ok d' (d, n)).0
  put_if-IsValid true d' d n p v = p refl
  put_if-IsValid false d' d n p v = v

  put_field-IsValid :
      (o : Option Field) (value : List ℕ) (d : HeartbeatData Double) (n : ℕ)
      → IsValid d
      → IsValid (put_field lib o value (d, n)).0
  put_field-IsValid none value d n v = v
  put_field-IsValid (some local_ip_field) value d n v =
      put_if-IsValid _ _ d n (λ e. (inr (value, e, refl), v.1, v.2, v.3, v.4, v.5, v.6)) v
  put_field-IsValid (some public_ip_field) value d n v =
      put_if-IsValid _ _ d n (λ e. (v.0, inr (value, e, refl), v.2, v.3, v.4, v.5, v.6)) v
  put_field-IsValid (some cpu_usage_field) value d n v =
      put_if-IsValid _ _ d n (λ e. (v.0, v.1, e, v.3, v.4, v.5, v.6)) v
  put_field-IsValid (some memory_usage_field) value d n v =
      put_if-IsValid _ _ d n (λ e. (v.0, v.1, v.2, e, v.4, v.5, v.6)) v
  put_field-IsValid (some disk_usage_field) value d n v =
      put_if-IsValid _ _ d n (λ e. (v.0, v.1, v.2, v.3, e, v.5, v.6)) v
  put_field-IsValid (some availability_field) value d n v =
      put_if-IsValid _ _ d n (λ e. (v.0, v.1, v.2, v.3, v.4, e, v.6)) v
  put_field-IsValid (some latency_field) value d n v =
      put_if-IsValid _ _ d n (λ e. (v.0, v.1, v.2, v.3, v.4, v.5, e)) v

  set_parsed-IsValid :
      (o : Option (List ℕ × List ℕ)) (d : HeartbeatData Double) (n : ℕ)
      → IsValid d
      → IsValid (set_parsed lib o (d, n)).0
  set_parsed-IsValid none d n v = v
  set_parsed-IsValid (some (key, value)) d n v = put_field-IsValid (field_of key) value d n v

  form_loop-IsValid :
      (pairs : List (List ℕ)) (d : HeartbeatData Double) (n : ℕ)
      → IsValid d
      → IsValid (form_loop lib pairs (d, n)).0
  unfolding form_loop
  form_loop-IsValid [] d n v = v
  form_loop-IsValid (pair ∷ pairs) d n v =
      let f = set_parsed lib (parse_key_value pair 64 128) (d, n) in
      form_loop-IsValid pairs f.0 f.1 (set_parsed-IsValid (parse_key_value pair 64 128) d n v)

  -- Where 0.0 is at least 0.0 and at most 100.0, a form is accepted only with valid fields. An address
  -- that it does not give is empty.
  pub process_form-IsValid :
      (body : List ℕ) (d : HeartbeatData Double)
      → is_at_least_0 double_zero ≡ true
      → is_at_most_100 double_zero ≡ true
      → process_form lib body ≡ some d
      → IsValid d
  unfolding process_form
  process_form-IsValid body d low high e =
      let percent : Percent double_zero = rw (low, high) refl in
      let v : IsValid (no_reading lib) =
        (inl refl, inl refl, percent, percent, percent, percent, low) in
      let f = form_loop lib (tokens [] body) (no_reading lib, 0) in
      let (_, same) = if_some (f.1 == 7) (some f.0) d e in
      subst IsValid (some_eq same) (form_loop-IsValid (tokens [] body) (no_reading lib) 0 v)

  pub numbers_of :
      (d : HeartbeatData Double)
      → numbers_valid lib d ≡ true
      → Percent d.cpu_usage
        × Percent d.memory_usage
        × Percent d.disk_usage
        × Percent d.availability
        × (validate_latency lib d.latency ≡ true)
  numbers_of d e =
      let (e1, g) = and_both _ _ e in
      let (e2, f) = and_both _ _ e1 in
      let (e3, c) = and_both _ _ e2 in let (a, b) = and_both _ _ e3 in (a, b, c, f, g)

  check_fields-IsValid :
      (f : JsonFields (lib.Json)) (a b : Option (List ℕ)) (d : HeartbeatData Double)
      → check_fields lib f a b ≡ some d
      → IsValid d × HasIps d
  check_fields-IsValid f none b d e = cc
  check_fields-IsValid f (some x) none d e = cc
  check_fields-IsValid f (some x) (some y) d e =
      let r = read_fields lib f x y in
      let (t, e1) =
        if_some (validate_ip lib (some x) && validate_ip lib (some y)) (if_numbers_valid lib r) d
          e in
      let (u, e2) = if_some (numbers_valid lib r) (some r) d e1 in
      let (vx, vy) = and_both (validate_ip lib (some x)) (validate_ip lib (some y)) t in
      let (p1, p2, p3, p4, p5) = numbers_of r u in
      subst (λ k. IsValid k × HasIps k) (some_eq e2)
        ((inr (x, vx, refl), inr (y, vy, refl), p1, p2, p3, p4, p5), ((x, vx, refl), (y, vy, refl)))

  -- JSON text is accepted only with valid fields and both addresses.
  pub process_json_data-IsValid :
      (text : List ℕ) (d : HeartbeatData Double)
      → process_json_data lib text ≡ some d
      → IsValid d × HasIps d
  unfolding process_json_data
  process_json_data-IsValid text d e =
      let (root, _, e0) = bind_some (lib.parse text) _ d e in
      let (f, _, e1) = bind_some (find_fields lib root) _ d e0 in
      check_fields-IsValid f (lib.get_string f.local_ip) (lib.get_string f.public_ip) d e1
