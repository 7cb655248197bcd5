-- ===== src/HeartbeatServer/Forms.antt =====
-- heartbeat_server.c: the forms that are accepted.
use c_simples.Prelude.{
  ℕ, suc, ◌==◌, ◌<◌, ◌+◌, ◌≡◌, refl, sym, ap, ◌∙◌, false, some, List, [], ◌∷◌, ◌++◌, append_assoc,
  append-nil, length, All, arith, take, inl, inr, Bool, ◌&&◌, not, ◌=ℤ◌, pos, Option, none,
  Bool-cases, if◌then◌else◌,
}
use c_simples.HeartbeatServer.Urls.{parse_key_value}
use c_simples.HeartbeatServer.Decoding.{Encodes, IsText, IsKeyByte, parse_key_value-Encodes}
use c_simples.HeartbeatServer.Readings.{
  Libraries, HeartbeatData, codes, Field, local_ip_field, public_ip_field, cpu_usage_field,
  memory_usage_field, disk_usage_field, availability_field, latency_field, field_of, validate_ip,
  tokens, and_token, no_reading, put_field, set_parsed, Form, form_loop, if_complete, process_form,
}

abbrev pub key_of : Field → List ℕ
key_of local_ip_field = codes "local_ip"
key_of public_ip_field = codes "public_ip"
key_of cpu_usage_field = codes "cpu_usage"
key_of memory_usage_field = codes "memory_usage"
key_of disk_usage_field = codes "disk_usage"
key_of availability_field = codes "availability"
key_of latency_field = codes "latency"

-- A field of a form: the bytes of its value, and the text that encodes them.
pub record Entry : Type 0 where
  pub field : Field
  pub text : List ℕ
  pub value : List ℕ

abbrev pub IsInPair : ℕ → Type 0
IsInPair c = (c == b'&') ≡ false

-- The text encodes the value, has no `&`, and fits.
pub record IsEntry (e : Entry) : Type 0 where
  pub encoded : Encodes e.text e.value
  pub no_nul : All IsText e.value
  pub one_pair : All IsInPair e.text
  pub fits : length e.text < 128

abbrev pub pair_text : Entry → List ℕ
pair_text e = key_of e.field ++ b'=' ∷ e.text

-- The body of a form: the pairs with a `&` between them.
unfoldable pub form_text : List Entry → List ℕ
form_text [] = []
form_text (e ∷ []) = pair_text e
form_text (e ∷ d ∷ es) = pair_text e ++ b'&' ∷ form_text (d ∷ es)

All-append : (P : ℕ → Type 0) (xs ys : List ℕ) → All P xs → All P ys → All P (xs ++ ys)
All-append P [] ys a b = b
All-append P (x ∷ xs) ys a b = (a.0, All-append P xs ys a.1 b)

tokens-last : (cur t : List ℕ) → All IsInPair t → tokens cur t ≡ and_token (cur ++ t) []
unfolding tokens
tokens-last cur [] a = ap (λ s. and_token s []) (sym (append-nil cur))
tokens-last cur (c ∷ t) a =
    rw a.0
      (tokens-last (cur ++ c ∷ []) t a.1 ∙ ap (λ s. and_token s []) (append_assoc cur (c ∷ []) t))

tokens-more :
    (cur t s : List ℕ)
    → All IsInPair t
    → tokens cur (t ++ b'&' ∷ s) ≡ and_token (cur ++ t) (tokens [] s)
unfolding tokens
tokens-more cur [] s a = ap (λ k. and_token k (tokens [] s)) (sym (append-nil cur))
tokens-more cur (c ∷ t) s a = rw a.0 (
    tokens-more (cur ++ c ∷ []) t s a.1
    ∙ ap (λ k. and_token k (tokens [] s)) (append_assoc cur (c ∷ []) t))

key-IsInPair : (f : Field) → All IsInPair (key_of f)
key-IsInPair local_ip_field = ground arith
key-IsInPair public_ip_field = ground arith
key-IsInPair cpu_usage_field = ground arith
key-IsInPair memory_usage_field = ground arith
key-IsInPair disk_usage_field = ground arith
key-IsInPair availability_field = ground arith
key-IsInPair latency_field = ground arith

key-IsKeyByte : (f : Field) → All IsKeyByte (key_of f)
key-IsKeyByte local_ip_field = ground arith
key-IsKeyByte public_ip_field = ground arith
key-IsKeyByte cpu_usage_field = ground arith
key-IsKeyByte memory_usage_field = ground arith
key-IsKeyByte disk_usage_field = ground arith
key-IsKeyByte availability_field = ground arith
key-IsKeyByte latency_field = ground arith

key-fits : (f : Field) → length (key_of f) < 64
key-fits local_ip_field = omega arith
key-fits public_ip_field = omega arith
key-fits cpu_usage_field = omega arith
key-fits memory_usage_field = omega arith
key-fits disk_usage_field = omega arith
key-fits availability_field = omega arith
key-fits latency_field = omega arith

field_of-key_of : (f : Field) → field_of (key_of f) ≡ some f
unfolding field_of
field_of-key_of local_ip_field = refl
field_of-key_of public_ip_field = refl
field_of-key_of cpu_usage_field = refl
field_of-key_of memory_usage_field = refl
field_of-key_of disk_usage_field = refl
field_of-key_of availability_field = refl
field_of-key_of latency_field = refl

pair-IsInPair : (e : Entry) → IsEntry e → All IsInPair (pair_text e)
pair-IsInPair e v =
    All-append IsInPair (key_of e.field) (b'=' ∷ e.text) (key-IsInPair e.field) (refl, v.one_pair)

-- A pair is not empty.
and_token-pair :
    (e : Entry) (rest : List (List ℕ)) → and_token (pair_text e) rest ≡ pair_text e ∷ rest
and_token-pair e rest = some_key (key_of e.field)
  where
    some_key : (k : List ℕ) → and_token (k ++ b'=' ∷ e.text) rest ≡ (k ++ b'=' ∷ e.text) ∷ rest
    some_key [] = refl
    some_key (c ∷ k) = refl

abbrev pub pairs : List Entry → List (List ℕ)
pairs [] = []
pairs (e ∷ es) = pair_text e ∷ pairs es

tokens-form_text : (es : List Entry) → All IsEntry es → tokens [] (form_text es) ≡ pairs es
unfolding form_text tokens
tokens-form_text [] v = refl
tokens-form_text (e ∷ []) v =
    tokens-last [] (pair_text e) (pair-IsInPair e v.0) ∙ and_token-pair e []
tokens-form_text (e ∷ d ∷ es) v =
    tokens-more [] (pair_text e) (form_text (d ∷ es)) (pair-IsInPair e v.0)
    ∙ and_token-pair e (tokens [] (form_text (d ∷ es)))
    ∙ ap (◌∷◌ (pair_text e)) (tokens-form_text (d ∷ es) v.1)

-- The fields and the values of the entries.
abbrev pub fields_of : List Entry → List (Field × List ℕ)
fields_of [] = []
fields_of (e ∷ es) = (e.field, e.value) ∷ fields_of es

abbrev pub with_value : Option Field → List ℕ → Option (Field × List ℕ)
with_value none value = none
with_value (some f) value = some (f, value)

-- The field that a pair of a form names, with its value, if it parses and names one.
abbrev pub named : Option (List ℕ × List ℕ) → Option (Field × List ℕ)
named none = none
named (some (key, value)) = with_value (field_of key) value

abbrev pub and_named : Option (Field × List ℕ) → List (Field × List ℕ) → List (Field × List ℕ)
and_named none fs = fs
and_named (some f) fs = f ∷ fs

-- The fields that a form gives.
abbrev pub given : List (List ℕ) → List (Field × List ℕ)
given [] = []
given (pair ∷ ps) = and_named (named (parse_key_value pair 64 128)) (given ps)

module _ (lib : Libraries) where
  open lib use {Double, atof, is_at_least_0, is_at_most_100, inet_pton}

  abbrev is_percentage : Double → Bool
  is_percentage v = is_at_least_0 v && is_at_most_100 v

  -- The value is valid for the field: an address of `inet_pton`, a number from 0 to 100, or, for the
  -- latency, a number from 0 on.
  abbrev pub accepts : Field → List ℕ → Bool
  accepts local_ip_field value = not (inet_pton value =ℤ pos 0)
  accepts public_ip_field value = not (inet_pton value =ℤ pos 0)
  accepts cpu_usage_field value = is_percentage (atof value)
  accepts memory_usage_field value = is_percentage (atof value)
  accepts disk_usage_field value = is_percentage (atof value)
  accepts availability_field value = is_percentage (atof value)
  accepts latency_field value = is_at_least_0 (atof value)

  -- The write of one field.
  abbrev pub written : Field → List ℕ → HeartbeatData Double → HeartbeatData Double
  written local_ip_field value d = record d { local_ip = take 15 value }
  written public_ip_field value d = record d { public_ip = take 15 value }
  written cpu_usage_field value d = record d { cpu_usage = atof value }
  written memory_usage_field value d = record d { memory_usage = atof value }
  written disk_usage_field value d = record d { disk_usage = atof value }
  written availability_field value d = record d { availability = atof value }
  written latency_field value d = record d { latency = atof value }

  -- The fields with valid values, in their order.
  abbrev pub accepted : List (Field × List ℕ) → List (Field × List ℕ)
  accepted [] = []
  accepted ((f, value) ∷ fs) = if accepts f value then (f, value) ∷ accepted fs else accepted fs

  abbrev pub written_all : List (Field × List ℕ) → HeartbeatData Double → HeartbeatData Double
  written_all [] d = d
  written_all ((f, value) ∷ fs) d = written_all fs (written f value d)

  -- The heartbeat of seven fields with valid values.
  abbrev pub of_seven : List (Field × List ℕ) → Option (HeartbeatData Double)
  of_seven fs = if length fs == 7 then some (written_all fs (no_reading lib)) else none

  put_field-accepts :
      (f : Field) (value : List ℕ) (d : HeartbeatData Double) (n : ℕ)
      → put_field lib (some f) value (d, n)
        ≡ (if accepts f value then (written f value d, suc n) else (d, n))
  unfolding validate_ip
  put_field-accepts local_ip_field value d n = refl
  put_field-accepts public_ip_field value d n = refl
  put_field-accepts cpu_usage_field value d n = refl
  put_field-accepts memory_usage_field value d n = refl
  put_field-accepts disk_usage_field value d n = refl
  put_field-accepts availability_field value d n = refl
  put_field-accepts latency_field value d n = refl

  -- The fields written one after the other, and counted.
  abbrev put_all : List (Field × List ℕ) → Form lib → Form lib
  put_all [] f = f
  put_all ((f, value) ∷ fs) k = put_all fs (put_field lib (some f) value k)

  put_all-accepted :
      (fs : List (Field × List ℕ)) (d : HeartbeatData Double) (n : ℕ)
      → put_all fs (d, n) ≡ (written_all (accepted fs) d, length (accepted fs) + n)
  put_all-accepted [] d n = ap (λ x. (d, x)) (omega arith)
  put_all-accepted ((f, value) ∷ fs) d n = elim (Bool-cases (accepts f value)) [
    | inl a ↦
        ap (put_all fs) (put_field-accepts f value d n ∙ rw a refl)
        ∙ put_all-accepted fs (written f value d) (suc n)
        ∙ rw a (ap (λ x. (written_all (accepted fs) (written f value d), x)) (omega arith))
    | inr a ↦
        ap (put_all fs) (put_field-accepts f value d n ∙ rw a refl)
        ∙ put_all-accepted fs d n
        ∙ rw a refl
  ]

  put_field-named :
      (o : Option Field) (value : List ℕ) (fs : List (Field × List ℕ)) (k : Form lib)
      → put_all fs (put_field lib o value k) ≡ put_all (and_named (with_value o value) fs) k
  put_field-named none value fs k = refl
  put_field-named (some f) value fs k = refl

  set_parsed-named :
      (o : Option (List ℕ × List ℕ)) (fs : List (Field × List ℕ)) (k : Form lib)
      → put_all fs (set_parsed lib o k) ≡ put_all (and_named (named o) fs) k
  set_parsed-named none fs k = refl
  set_parsed-named (some (key, value)) fs k = put_field-named (field_of key) value fs k

  form_loop-given : (ps : List (List ℕ)) (k : Form lib) → form_loop lib ps k ≡ put_all (given ps) k
  unfolding form_loop
  form_loop-given [] k = refl
  form_loop-given (pair ∷ ps) k =
      form_loop-given ps (set_parsed lib (parse_key_value pair 64 128) k)
      ∙ set_parsed-named (parse_key_value pair 64 128) (given ps) k

  -- Any body, by the fields that it gives.
  pub process_form-given :
      (body : List ℕ) → process_form lib body ≡ of_seven (accepted (given (tokens [] body)))
  unfolding process_form
  process_form-given body =
      let fs = accepted (given (tokens [] body)) in
      let zero_more : length fs + 0 ≡ length fs = omega arith in
      ap (if_complete lib) (
        form_loop-given (tokens [] body) (no_reading lib, 0)
        ∙ put_all-accepted (given (tokens [] body)) (no_reading lib) 0)
      ∙ ap (λ x. if_complete lib (written_all fs (no_reading lib), x)) zero_more

given-pairs : (es : List Entry) → All IsEntry es → given (pairs es) ≡ fields_of es
given-pairs [] v = refl
given-pairs (e ∷ es) v =
    let parsed =
      parse_key_value-Encodes (key_of e.field) e.text e.value 64 128 (key-IsKeyByte e.field)
        v.0.encoded v.0.no_nul (key-fits e.field) v.0.fits in
    ap (λ o. and_named (named o) (given (pairs es))) parsed
    ∙ ap (λ o. and_named (with_value o e.value) (given (pairs es))) (field_of-key_of e.field)
    ∙ ap (◌∷◌ (e.field, e.value)) (given-pairs es v.1)

-- A form of any of the seven fields, in any order and number, each with a value that is encoded in a
-- text without `&` that fits into the buffer, is accepted exactly if seven of these values are valid for their
-- fields: an address that `inet_pton` takes, a latency of at least 0, or another number from 0 to 100. The
-- heartbeat is then the cleared one in which these seven have been written, in their order, addresses cut to
-- 15 bytes.
pub process_form-form_text :
    (lib : Libraries) (es : List Entry)
    → All IsEntry es
    → process_form lib (form_text es) ≡ of_seven lib (accepted lib (fields_of es))
process_form-form_text lib es v =
    process_form-given lib (form_text es)
    ∙ ap (λ ps. of_seven lib (accepted lib (given ps))) (tokens-form_text es v)
    ∙ ap (λ fs. of_seven lib (accepted lib fs)) (given-pairs es v)
