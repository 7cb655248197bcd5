-- ===== src/HeartbeatServer/Urls.antt =====
-- heartbeat_server.c: `url_decode` and `parse_key_value`. A C string is the list of its bytes, without the
-- NUL that ends it.
use c_simples.Prelude.{
  ℕ, zero, suc, ◌+◌, ◌-◌, ◌*◌, leb, ◌==◌, if◌then◌else◌, Bool, true, false, ◌&&◌, ◌||◌, Option,
  none, some, List, [], ◌∷◌, length,
}

-- `isxdigit`
abbrev pub isxdigit : ℕ → Bool
isxdigit c = (leb b'0' c && leb c b'9') || (leb b'a' c && leb c b'f') || (leb b'A' c && leb c b'F')

-- The value of a digit for `strtol` in base 16.
abbrev pub digit_value : ℕ → ℕ
digit_value c = if leb c b'9' then c - b'0' else if leb c b'F' then c - 55 else c - 87

-- The two digits after a `%`: their value, and what follows them. At the end of the string the NUL is
-- no digit.
unfoldable pub hex_pair : List ℕ → Option (ℕ × List ℕ)
hex_pair [] = none
hex_pair (a ∷ []) = none
hex_pair (a ∷ b ∷ s) =
    if isxdigit a && isxdigit b then some (digit_value a * 16 + digit_value b, s) else none

abbrev pub or_percent : List ℕ → Option (ℕ × List ℕ) → ℕ × List ℕ
or_percent s none = (b'%', s)
or_percent s (some r) = r

-- One round of the loop of `url_decode` at `c`: the byte that it writes, and what is left of `src`.
unfoldable pub decode_one : ℕ → List ℕ → ℕ × List ℕ
decode_one c s =
    if c == b'%' then or_percent s (hex_pair s) else if c == b'+' then (b' ', s) else (c, s)

-- The loop, with room for so many bytes before the NUL.
unfoldable pub decode_loop : ℕ → List ℕ → List ℕ
decode_loop zero s = []
decode_loop (suc room) [] = []
decode_loop (suc room) (c ∷ s) = let (byte, rest) = decode_one c s in byte ∷ decode_loop room rest

-- `url_decode`: what it writes before the NUL, for a `dst_size` that is positive.
unfoldable pub url_decode : List ℕ → ℕ → List ℕ
url_decode src dst_size = decode_loop (dst_size - 1) src

-- A buffer as a C string: the bytes before the first NUL.
unfoldable pub c_string : List ℕ → List ℕ
c_string [] = []
c_string (b ∷ bs) = let rest = b ∷ c_string bs in if b == 0 then [] else rest

abbrev pub with_head : ℕ → Option (List ℕ × List ℕ) → Option (List ℕ × List ℕ)
with_head c none = none
with_head c (some (k, v)) = some (c ∷ k, v)

-- `strchr(pair, '=')`: what stands before the first `=`, and what follows it.
unfoldable pub split_at_eq : List ℕ → Option (List ℕ × List ℕ)
split_at_eq [] = none
split_at_eq (c ∷ s) =
    let rest = with_head c (split_at_eq s) in if c == b'=' then some ([], s) else rest

-- What `parse_key_value` returns, and the C strings that it writes into the two buffers (none if it does
-- not write one).
pub record Parsed : Type 0 where
  pub ok : Bool
  pub key : Option (List ℕ)
  pub value : Option (List ℕ)

abbrev pub not_parsed : Option (List ℕ) → Parsed
not_parsed key = record { ok = false; key = key; value = none }

-- The tests of the sizes: the key is written before the size of the value is tested.
abbrev pub check_sizes : ℕ → ℕ → Option (List ℕ × List ℕ) → Parsed
check_sizes key_len value_len none = not_parsed none
check_sizes key_len value_len (some (key, val)) =
    if leb key_len (length key)
    then not_parsed none
    else if leb value_len (length val)
    then not_parsed (some key)
    else record { ok = true; key = some key; value = some (c_string (url_decode val value_len)) }

abbrev both : Option (List ℕ) → Option (List ℕ) → Option (List ℕ × List ℕ)
both none value = none
both (some key) none = none
both (some key) (some value) = some (key, value)

-- What the caller reads: the two strings if the result is true.
abbrev pub if_parsed : Parsed → Option (List ℕ × List ℕ)
if_parsed p = if p.ok then both p.key p.value else none

-- `parse_key_value`: the key and the value, as C strings, if it returns true.
unfoldable pub parse_key_value : List ℕ → ℕ → ℕ → Option (List ℕ × List ℕ)
parse_key_value pair key_len value_len =
    if_parsed (check_sizes key_len value_len (split_at_eq pair))
