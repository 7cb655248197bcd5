-- ===== src/HeartbeatServer/Readings.antt =====
-- heartbeat_server.c: a heartbeat read from JSON or from a form, with its validation. The numbers of type
-- double, `inet_pton` and the json-c library are parameters.
use Prim.Native.Char.{code}
use Prim.Native.String.{String}
use c_simples.Prelude.{
  ℕ, suc, ◌==◌, if◌then◌else◌, ℤ, pos, ◌=ℤ◌, Bool, true, false, ◌&&◌, not, Option, none, some, List,
  [], ◌∷◌, ◌++◌, take,
}
use c_simples.HeartbeatServer.Urls.{parse_key_value}
use c_simples.HeartbeatServer.Storage.{Node}

-- What the server uses of other code: doubles with `atof` and the two tests of a range, `inet_pton` for
-- IPv4, and json-c. `get` is `json_object_object_get_ex`, and a string is `none` where it is NULL.
pub record Libraries : Type 1 where
  pub Double : Type 0
  pub double_zero : Double
  pub atof : List ℕ → Double
  pub is_at_least_0 : Double → Bool
  pub is_at_most_100 : Double → Bool
  pub inet_pton : List ℕ → ℤ
  pub Json : Type 0
  pub parse : List ℕ → Option Json
  pub get : Json → String → Option Json
  pub get_string : Json → Option (List ℕ)
  pub get_double : Json → Double
  pub new_array : Option Json
  pub new_object : Json
  pub add : Json → String → Json → Json
  pub array_add : Json → Json → Json
  pub new_string : List ℕ → Json
  pub new_double : Double → Json
  pub new_int64 : ℕ → Json
  pub to_string : Json → List ℕ

-- `HeartbeatData`
pub record HeartbeatData (Double : Type 0) : Type 0 where
  pub local_ip : List ℕ
  pub public_ip : List ℕ
  pub cpu_usage : Double
  pub memory_usage : Double
  pub disk_usage : Double
  pub availability : Double
  pub latency : Double

-- The bytes of a text in ASCII.
abbrev pub codes : String → List ℕ
codes String.[] = []
codes (String.◌∷◌ c s) = code c ∷ codes s

-- `strcmp(a, b) == 0`
abbrev pub same_bytes : List ℕ → List ℕ → Bool
same_bytes [] [] = true
same_bytes (a ∷ as') (b ∷ bs) = (a == b) && same_bytes as' bs
same_bytes _ _ = false

-- The fields of a form, and the chain of `strcmp` tests.
pub data Field : Type 0 where
  local_ip_field public_ip_field cpu_usage_field memory_usage_field : Field
  disk_usage_field availability_field latency_field : Field

unfoldable pub field_of : List ℕ → Option Field
field_of key =
    if same_bytes key (codes "local_ip")
    then some local_ip_field
    else if same_bytes key (codes "public_ip")
    then some public_ip_field
    else if same_bytes key (codes "cpu_usage")
    then some cpu_usage_field
    else if same_bytes key (codes "memory_usage")
    then some memory_usage_field
    else if same_bytes key (codes "disk_usage")
    then some disk_usage_field
    else if same_bytes key (codes "availability")
    then some availability_field
    else if same_bytes key (codes "latency")
    then some latency_field
    else none

-- The seven members of the JSON object.
pub record JsonFields (Json : Type 0) : Type 0 where
  pub local_ip : Json
  pub public_ip : Json
  pub cpu_usage : Json
  pub memory_usage : Json
  pub disk_usage : Json
  pub availability : Json
  pub latency : Json

infixl 5 ◌>>=◌
abbrev pub ◌>>=◌ : {A B : Type 0} → Option A → (A → Option B) → Option B
none >>= k = none
some a >>= k = k a

-- `strncpy(dst, src, MAX_IP_LEN - 1)` into a cleared array.
abbrev pub copy_ip : List ℕ → List ℕ
copy_ip ip = take 15 ip

-- The loop of `strtok_r` with the delimiter `&`, with the token so far: an empty token is skipped.
abbrev pub and_token : List ℕ → List (List ℕ) → List (List ℕ)
and_token [] rest = rest
and_token (c ∷ cs) rest = (c ∷ cs) ∷ rest

unfoldable pub tokens : List ℕ → List ℕ → List (List ℕ)
tokens cur [] = and_token cur []
tokens cur (c ∷ s) =
    let rest = tokens (if c == b'&' then [] else cur ++ c ∷ []) s in
    if c == b'&' then and_token cur rest else rest

module _ (lib : Libraries) where
  open lib use {
    Double, double_zero, atof, is_at_least_0, is_at_most_100, inet_pton, Json, parse, get,
    get_string, get_double, new_array, new_object, add, array_add, new_string, new_double,
    new_int64, to_string,
  }

  abbrev pub Reading : Type 0
  Reading = HeartbeatData Double

  -- `validate_ip`
  unfoldable pub validate_ip : Option (List ℕ) → Bool
  validate_ip none = false
  validate_ip (some ip) = not (inet_pton ip =ℤ pos 0)

  -- `validate_percentage`
  abbrev pub validate_percentage : Double → Bool
  validate_percentage v = is_at_least_0 v && is_at_most_100 v

  -- `validate_latency`
  abbrev pub validate_latency : Double → Bool
  validate_latency v = is_at_least_0 v

  -- The tests at the end of `process_json_data`.
  abbrev pub numbers_valid : Reading → Bool
  numbers_valid d =
      validate_percentage d.cpu_usage
      && validate_percentage d.memory_usage
      && validate_percentage d.disk_usage
      && validate_percentage d.availability
      && validate_latency d.latency

  abbrev pub if_numbers_valid : Reading → Option Reading
  if_numbers_valid d = if numbers_valid d then some d else none

  -- The tests that all seven fields are there.
  unfoldable pub find_fields : Json → Option (JsonFields Json)
  find_fields parsed_json = do
    local_ip ← get parsed_json "local_ip"
    public_ip ← get parsed_json "public_ip"
    cpu_usage ← get parsed_json "cpu_usage"
    memory_usage ← get parsed_json "memory_usage"
    disk_usage ← get parsed_json "disk_usage"
    availability ← get parsed_json "availability"
    latency ← get parsed_json "latency"
    some (record {
      local_ip = local_ip;
      public_ip = public_ip;
      cpu_usage = cpu_usage;
      memory_usage = memory_usage;
      disk_usage = disk_usage;
      availability = availability;
      latency = latency;
    })

  -- The heartbeat that is written, with the two addresses.
  abbrev pub read_fields : JsonFields Json → List ℕ → List ℕ → Reading
  read_fields f local_ip public_ip = record {
    local_ip = copy_ip local_ip;
    public_ip = copy_ip public_ip;
    cpu_usage = get_double f.cpu_usage;
    memory_usage = get_double f.memory_usage;
    disk_usage = get_double f.disk_usage;
    availability = get_double f.availability;
    latency = get_double f.latency;
  }

  -- The tests of the addresses and of the numbers.
  abbrev pub check_fields : JsonFields Json → Option (List ℕ) → Option (List ℕ) → Option Reading
  check_fields f none public_ip = none
  check_fields f (some local_ip) none = none
  check_fields f (some local_ip) (some public_ip) =
      if validate_ip (some local_ip) && validate_ip (some public_ip)
      then if_numbers_valid (read_fields f local_ip public_ip)
      else none

  -- `process_json_data`: the heartbeat, if it returns true.
  unfoldable pub process_json_data : List ℕ → Option Reading
  process_json_data text = do
    parsed_json ← parse text
    f ← find_fields parsed_json
    check_fields f (get_string f.local_ip) (get_string f.public_ip)

  -- A cleared `HeartbeatData`.
  abbrev pub no_reading : Reading
  no_reading = record {
    local_ip = [];
    public_ip = [];
    cpu_usage = double_zero;
    memory_usage = double_zero;
    disk_usage = double_zero;
    availability = double_zero;
    latency = double_zero;
  }

  -- `hb_data` and `fields_set`
  abbrev pub Form : Type 0
  Form = Reading × ℕ

  -- One field is written and counted, if its value is valid.
  abbrev pub put_if : Bool → Reading → Form → Form
  put_if ok d' (d, fields_set) = if ok then (d', suc fields_set) else (d, fields_set)

  -- The field of the form that a key names is written, if the value is valid for it.
  abbrev pub put_field : Option Field → List ℕ → Form → Form
  put_field none value (d, n) = (d, n)
  put_field (some local_ip_field) value (d, n) =
      put_if (validate_ip (some value)) (record d { local_ip = copy_ip value }) (d, n)
  put_field (some public_ip_field) value (d, n) =
      put_if (validate_ip (some value)) (record d { public_ip = copy_ip value }) (d, n)
  put_field (some cpu_usage_field) value (d, n) =
      put_if (validate_percentage (atof value)) (record d { cpu_usage = atof value }) (d, n)
  put_field (some memory_usage_field) value (d, n) =
      put_if (validate_percentage (atof value)) (record d { memory_usage = atof value }) (d, n)
  put_field (some disk_usage_field) value (d, n) =
      put_if (validate_percentage (atof value)) (record d { disk_usage = atof value }) (d, n)
  put_field (some availability_field) value (d, n) =
      put_if (validate_percentage (atof value)) (record d { availability = atof value }) (d, n)
  put_field (some latency_field) value (d, n) =
      put_if (validate_latency (atof value)) (record d { latency = atof value }) (d, n)

  -- A pair of the form. A key that names an address fails the later tests of the chain, so an invalid
  -- address leaves the form.
  abbrev pub set_field : List ℕ → List ℕ → Form → Form
  set_field key value f = put_field (field_of key) value f

  abbrev pub set_parsed : Option (List ℕ × List ℕ) → Form → Form
  set_parsed none f = f
  set_parsed (some (key, value)) f = set_field key value f

  -- The loop over the pairs; `MAX_KEY_LEN` is 64 and `MAX_VALUE_LEN` is 128.
  unfoldable pub form_loop : List (List ℕ) → Form → Form
  form_loop [] f = f
  form_loop (pair ∷ pairs) f = form_loop pairs (set_parsed (parse_key_value pair 64 128) f)

  -- `valid_data = (fields_set == 7)`
  abbrev pub if_complete : Form → Option Reading
  if_complete (d, fields_set) = if fields_set == 7 then some d else none

  -- The heartbeat of a form, if it is valid.
  unfoldable pub process_form : List ℕ → Option Reading
  process_form body = if_complete (form_loop (tokens [] body) (no_reading, 0))

  -- The loop of `get_history_json`.
  unfoldable pub entries_loop : List (Node Reading) → Json → Json
  entries_loop [] array = array
  entries_loop (node ∷ nodes) array =
      let d = node.reading in
      let e1 = add new_object "local_ip" (new_string d.local_ip) in
      let e2 = add e1 "public_ip" (new_string d.public_ip) in
      let e3 = add e2 "cpu_usage" (new_double d.cpu_usage) in
      let e4 = add e3 "memory_usage" (new_double d.memory_usage) in
      let e5 = add e4 "disk_usage" (new_double d.disk_usage) in
      let e6 = add e5 "availability" (new_double d.availability) in
      let e7 = add e6 "latency" (new_double d.latency) in
      let entry = add e7 "timestamp" (new_int64 node.timestamp) in
      entries_loop nodes (array_add array entry)

  abbrev pub printed : List (Node Reading) → Option Json → Bool → Option (List ℕ)
  printed nodes none ok = none
  printed nodes (some array) ok = if ok then some (to_string (entries_loop nodes array)) else none

  -- `get_history_json`; `ok` says whether `strdup` succeeds.
  unfoldable pub get_history_json : List (Node Reading) → Bool → Option (List ℕ)
  get_history_json nodes ok = printed nodes new_array ok
