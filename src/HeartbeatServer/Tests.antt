-- ===== src/HeartbeatServer/Tests.antt =====
-- The heartbeat server at concrete inputs.
use c_simples.Prelude.{
  ℕ, ◌+◌, ◌*◌, ◌-◌, ◌<◌, ◌≤◌, ◌≡◌, refl, true, leb, pos, some, List, [], ◌∷◌, ◌++◌, length, take,
  replicate, arith, inc, dec, All,
}
use c_simples.HeartbeatServer.Urls.{
  parse_key_value, url_decode, c_string, split_at_eq, decode_loop, decode_one, hex_pair,
}
use c_simples.HeartbeatServer.Decoding.{
  Encodes, done, plain, blank, percent, parse_key_value-Encodes, parse_key_value-length,
}
use c_simples.HeartbeatServer.Storage.{
  History, max_heartbeats, add_to_history, clear_heartbeat_history, remove_oldest,
}
use c_simples.HeartbeatServer.Recent.{IsBounded, add_all, latest_first, add_all-take}
use c_simples.HeartbeatServer.Readings.{
  Libraries, HeartbeatData, codes, Field, local_ip_field, public_ip_field, cpu_usage_field,
  memory_usage_field, disk_usage_field, availability_field, latency_field, process_form,
  validate_ip, process_json_data, find_fields,
}
use c_simples.HeartbeatServer.Forms.{
  Entry, IsEntry, form_text, fields_of, accepted, of_seven, process_form-form_text,
}
use c_simples.HeartbeatServer.{Request, http, plain, handle_client, run, strstr}
use c_simples.HeartbeatServer.Serving.{Served, Good, handle_client_lem, run-Good}

-- Whole numbers for doubles, every text an IP address, and every text a JSON object that has itself as
-- the value of each key.
abbrev number : ℕ → List ℕ → ℕ
number n [] = n
number n (c ∷ s) = number (n * 10 + (c - 48)) s

abbrev simple : Libraries
simple = record {
  Double = ℕ;
  double_zero = 0;
  atof = number 0;
  is_at_least_0 = λ d. true;
  is_at_most_100 = λ d. leb d 100;
  inet_pton = λ ip. pos 1;
  Json = List ℕ;
  parse = λ text. some text;
  get = λ j key. some j;
  get_string = λ j. some j;
  get_double = λ j. length j;
  new_array = some [];
  new_object = [];
  add = λ o key v. o ++ v;
  array_add = λ a v. a ++ v;
  new_string = λ s. s;
  new_double = λ d. d ∷ [];
  new_int64 = λ n. n ∷ [];
  to_string = λ j. j;
}

-- `a+%62`, which stands for `a b`.
abbrev coded : List ℕ
coded = b'a' ∷ b'+' ∷ b'%' ∷ b'6' ∷ b'2' ∷ []

coded-Encodes : Encodes coded (codes "a b")
coded-Encodes = plain b'a' refl refl (blank (percent b'6' b'2' refl refl done))

decoded : (url_decode coded 128 ≡ codes "a b") × (url_decode coded 3 ≡ codes "a ")
unfolding url_decode decode_loop decode_one hex_pair
decoded = (refl, refl)

parse_key_value-Encodes_example :
    parse_key_value (codes "k" ++ b'=' ∷ coded) 64 128 ≡ some (codes "k", codes "a b")
parse_key_value-Encodes_example =
    parse_key_value-Encodes (codes "k") coded (codes "a b") 64 128 (refl, tt) coded-Encodes
      (refl, (refl, (refl, tt))) (omega arith) (omega arith)

parse_key_value-length_example :
    (s : List ℕ) × (split_at_eq (codes "k" ++ b'=' ∷ coded) ≡ some (codes "k", s))
    × (length (codes "k") < 64)
    × (length (url_decode s 128) < 128)
    × (length (url_decode s 128) ≤ length s)
    × (codes "a b" ≡ c_string (url_decode s 128))
parse_key_value-length_example =
    parse_key_value-length (codes "k" ++ b'=' ∷ coded) 64 128 (codes "k") (codes "a b")
      parse_key_value-Encodes_example

abbrev empty : History ℕ
empty = record { nodes = []; count = pos 0 }

empty-IsBounded : IsBounded empty
empty-IsBounded = record { counted = refl; bounded = omega arith }

abbrev readings : List (ℕ × ℕ)
readings = (7, 1000) ∷ (8, 1001) ∷ []

add_all-take_example :
    ((add_all readings empty).nodes ≡ take max_heartbeats (latest_first readings []))
    × IsBounded (add_all readings empty)
add_all-take_example = add_all-take readings empty empty-IsBounded

-- Beyond the maximum the oldest heartbeat goes.
forgets :
    (add_to_history {Data = ℕ} 9 true 2000 (record {
      nodes = replicate 100 (record { reading = 7; timestamp = 1000 });
      count = pos 100;
    })).count
    ≡ pos 100
unfolding add_to_history remove_oldest inc dec
forgets = refl

clears : clear_heartbeat_history (add_all readings empty) ≡ empty
unfolding clear_heartbeat_history
clears = refl

abbrev slow : Entry
slow = record { field = latency_field; text = codes "12"; value = codes "12" }

slow-IsEntry : IsEntry slow
slow-IsEntry = record {
  encoded = plain b'1' refl refl (plain b'2' refl refl done);
  no_nul = (refl, (refl, tt));
  one_pair = (refl, (refl, tt));
  fits = omega arith;
}

-- A form with each of the seven fields, and one more whose value is too large.
abbrev entry_of : Field → Entry
entry_of f = record slow { field = f }

abbrev large : Entry
large = record { field = cpu_usage_field; text = codes "101"; value = codes "101" }

large-IsEntry : IsEntry large
large-IsEntry = record {
  encoded = plain b'1' refl refl (plain b'0' refl refl (plain b'1' refl refl done));
  no_nul = (refl, (refl, (refl, tt)));
  one_pair = (refl, (refl, (refl, tt)));
  fits = omega arith;
}

entry_of-IsEntry : (f : Field) → IsEntry (entry_of f)
entry_of-IsEntry f = record {
  encoded = slow-IsEntry.encoded;
  no_nul = slow-IsEntry.no_nul;
  one_pair = slow-IsEntry.one_pair;
  fits = slow-IsEntry.fits;
}

abbrev full_form : List Entry
full_form =
    large
    ∷ entry_of latency_field
    ∷ entry_of local_ip_field
    ∷ entry_of public_ip_field
    ∷ entry_of cpu_usage_field
    ∷ entry_of memory_usage_field
    ∷ entry_of disk_usage_field
    ∷ entry_of availability_field
    ∷ []

full_form-IsEntry : All IsEntry full_form
full_form-IsEntry = (
  large-IsEntry,
  (
    entry_of-IsEntry latency_field,
    (
      entry_of-IsEntry local_ip_field,
      (
        entry_of-IsEntry public_ip_field,
        (
          entry_of-IsEntry cpu_usage_field,
          (
            entry_of-IsEntry memory_usage_field,
            (entry_of-IsEntry disk_usage_field, (entry_of-IsEntry availability_field, tt)),
          ),
        ),
      ),
    ),
  ),
)

process_form-form_text_example :
    process_form simple (form_text full_form)
    ≡ of_seven simple (accepted simple (fields_of full_form))
process_form-form_text_example = process_form-form_text simple full_form full_form-IsEntry

form_accepted :
    process_form simple (form_text full_form)
    ≡ some (record {
      local_ip = codes "12";
      public_ip = codes "12";
      cpu_usage = 12;
      memory_usage = 12;
      disk_usage = 12;
      availability = 12;
      latency = 12;
    })
form_accepted = process_form-form_text simple full_form full_form-IsEntry

abbrev no_history : History (HeartbeatData ℕ)
no_history = record { nodes = []; count = pos 0 }

abbrev json_request : Request
json_request = record {
  bytes = some (codes "{1}");
  now = 1000;
  allocated = true;
  duplicated = true;
}

json_accepted : (handle_client simple json_request no_history).0 ≡ some (plain "OK")
unfolding handle_client process_json_data find_fields validate_ip c_string
json_accepted = refl

lost :
    (handle_client simple (record json_request { bytes = some (codes "GET /") }) no_history).0
    ≡ some (http "404 Not Found" "text/plain" 9 (codes "Not Found"))
unfolding handle_client strstr c_string
lost = refl

handle_client_lem_example :
    Served simple refl refl json_request no_history (handle_client simple json_request no_history)
handle_client_lem_example = handle_client_lem simple refl refl json_request no_history

no_history-Good : Good simple refl refl no_history
no_history-Good = (record { counted = refl; bounded = omega arith }, tt)

run-Good_example : Good simple refl refl (run simple (json_request ∷ json_request ∷ []) no_history)
run-Good_example =
    run-Good simple refl refl (json_request ∷ json_request ∷ []) no_history no_history-Good
