-- ===== src/HeartbeatServer/Decoding.antt =====
-- heartbeat_server.c: encoded texts, and what `url_decode` and `parse_key_value` make of them.
use c_simples.Prelude.{
  ℕ, zero, suc, ◌+◌, ◌-◌, ◌*◌, ◌≤◌, ◌<◌, ◌≡◌, refl, ap, inl, inr, leb, ◌==◌, true, false, ◌&&◌,
  Bool-cases, Option-cases, some, List, [], ◌∷◌, ◌++◌, length, All, arith,
}
use c_simples.HeartbeatServer.Urls.{
  isxdigit, digit_value, hex_pair, decode_one, decode_loop, url_decode, c_string, with_head,
  split_at_eq, check_sizes, if_parsed, parse_key_value,
}

-- `Encodes text bytes`: a byte other than `%` and `+` may stand for itself, a `+` stands for a space, and
-- a `%` with two hexadecimal digits of either case stands for any byte.
pub data Encodes : List ℕ → List ℕ → Type 0 where
  done : Encodes [] []
  plain :
      {s bs : List ℕ} (c : ℕ)
      → (c == b'%') ≡ false
      → (c == b'+') ≡ false
      → Encodes s bs
      → Encodes (c ∷ s) (c ∷ bs)
  blank : {s bs : List ℕ} → Encodes s bs → Encodes (b'+' ∷ s) (b' ' ∷ bs)
  percent :
      {s bs : List ℕ} (a b : ℕ)
      → isxdigit a ≡ true
      → isxdigit b ≡ true
      → Encodes s bs
      → Encodes (b'%' ∷ a ∷ b ∷ s) ((digit_value a * 16 + digit_value b) ∷ bs)

decode_loop-Encodes :
    (room : ℕ) {s bs : List ℕ} → Encodes s bs → length bs ≤ room → decode_loop room s ≡ bs
unfolding decode_loop decode_one hex_pair
decode_loop-Encodes zero done l = refl
decode_loop-Encodes (suc n) done l = refl
decode_loop-Encodes zero (plain c p q e) l = absurd (omega arith)
decode_loop-Encodes (suc n) (plain c p q e) l =
    rw (p, q) (ap (◌∷◌ c) (decode_loop-Encodes n e (omega arith)))
decode_loop-Encodes zero (blank e) l = absurd (omega arith)
decode_loop-Encodes (suc n) (blank e) l = ap (◌∷◌ b' ') (decode_loop-Encodes n e (omega arith))
decode_loop-Encodes zero (percent a b p q e) l = absurd (omega arith)
decode_loop-Encodes (suc n) (percent a b p q e) l =
    rw (p, q)
      (ap (◌∷◌ (digit_value a * 16 + digit_value b)) (decode_loop-Encodes n e (omega arith)))

-- What the loop writes fits into the room, and is no longer than the text.
hex_pair-length : (s : List ℕ) (b : ℕ) (r : List ℕ) → hex_pair s ≡ some (b, r) → length r ≤ length s
unfolding hex_pair
hex_pair-length [] b r e = cc
hex_pair-length (x ∷ []) b r e = cc
hex_pair-length (x ∷ y ∷ s) b r e = elim (Bool-cases (isxdigit x && isxdigit y)) [
  | inl t ↦ let same : r ≡ s = ground arith in omega (arith, ap length same)
  | inr t ↦ ground arith
]

decode_one-length : (c : ℕ) (s : List ℕ) → length (decode_one c s).1 ≤ length s
unfolding decode_one
decode_one-length c s = elim (Option-cases (hex_pair s)) [
  | inl e ↦ rw e (ground arith)
  | inr ((b, r), e) ↦ let l = hex_pair-length s b r e in rw e (ground arith)
]

decode_loop-length :
    (room : ℕ) (s : List ℕ)
    → (length (decode_loop room s) ≤ room) × (length (decode_loop room s) ≤ length s)
unfolding decode_loop
decode_loop-length zero s = (omega arith, omega arith)
decode_loop-length (suc n) [] = (omega arith, omega arith)
decode_loop-length (suc n) (c ∷ s) =
    let (a, b) = decode_loop-length n (decode_one c s).1 in
    let l = decode_one-length c s in (omega arith, omega arith)

c_string-length : (bs : List ℕ) → length (c_string bs) ≤ length bs
unfolding c_string
c_string-length [] = omega arith
c_string-length (b ∷ bs) = let l = c_string-length bs in ground arith

Encodes-length : {s bs : List ℕ} → Encodes s bs → length bs ≤ length s
Encodes-length done = omega arith
Encodes-length (plain c p q e) = omega (arith, Encodes-length e)
Encodes-length (blank e) = omega (arith, Encodes-length e)
Encodes-length (percent a b p q e) = omega (arith, Encodes-length e)

-- A byte that is not NUL, and one that is not `=`.
abbrev pub IsText : ℕ → Type 0
IsText b = (b == 0) ≡ false

abbrev pub IsKeyByte : ℕ → Type 0
IsKeyByte b = (b == b'=') ≡ false

c_string-IsText : (bs : List ℕ) → All IsText bs → c_string bs ≡ bs
unfolding c_string
c_string-IsText [] h = refl
c_string-IsText (b ∷ bs) h = rw h.0 (ap (◌∷◌ b) (c_string-IsText bs h.1))

split_at_eq-append : (k v : List ℕ) → All IsKeyByte k → split_at_eq (k ++ b'=' ∷ v) ≡ some (k, v)
unfolding split_at_eq
split_at_eq-append [] v h = refl
split_at_eq-append (c ∷ k) v h = rw h.0 (ap (with_head c) (split_at_eq-append k v h.1))

url_decode-Encodes :
    (dst_size : ℕ) {s bs : List ℕ}
    → Encodes s bs
    → length bs < dst_size
    → url_decode s dst_size ≡ bs
unfolding url_decode
url_decode-Encodes dst_size e l = decode_loop-Encodes (dst_size - 1) e (omega arith)

-- A pair `key=text`, in which the key has no `=` and is shorter than its buffer, and in which the text is
-- shorter than the buffer of the value and encodes bytes without NUL, with any mix of plain bytes, `+`
-- for a space and `%` with two digits, gives exactly that key and those bytes.
pub parse_key_value-Encodes :
    (k s bs : List ℕ) (key_len value_len : ℕ)
    → All IsKeyByte k
    → Encodes s bs
    → All IsText bs
    → length k < key_len
    → length s < value_len
    → parse_key_value (k ++ b'=' ∷ s) key_len value_len ≡ some (k, bs)
unfolding parse_key_value
parse_key_value-Encodes k s bs key_len value_len h e t lk ls =
    let short = Encodes-length e in
    let decoded = url_decode-Encodes value_len e (omega arith) in
    let fits_key : leb key_len (length k) ≡ false = ground arith in
    let fits_value : leb value_len (length s) ≡ false = ground arith in
    rw (split_at_eq-append k s h, fits_key, fits_value, decoded, c_string-IsText bs t) refl

url_decode-length :
    (s : List ℕ) (dst_size : ℕ)
    → 0 < dst_size
    → (length (url_decode s dst_size) < dst_size) × (length (url_decode s dst_size) ≤ length s)
unfolding url_decode
url_decode-length s dst_size p =
    let (a, b) = decode_loop-length (dst_size - 1) s in (omega arith, b)

-- Both tests of the sizes passed.
sizes_passed :
    (key val : List ℕ) (key_len value_len : ℕ) (r : List ℕ × List ℕ)
    → if_parsed (check_sizes key_len value_len (some (key, val))) ≡ some r
    → (length key < key_len)
      × (length val < value_len)
      × (r ≡ (key, c_string (url_decode val value_len)))
sizes_passed key val key_len value_len r e = elim (Bool-cases (leb key_len (length key))) [
  | inl a ↦ absurd (ground arith)
  | inr a ↦ elim (Bool-cases (leb value_len (length val))) [
    | inl b ↦ absurd (ground arith)
    | inr b ↦ (ground arith, ground arith, cc (rw (a, b) at e))
  ]
]

-- The buffers are never overrun: `parse_key_value` returns true only if the pair has a `=`, and then the
-- key is what stands before the first one, and fits into its buffer with its NUL; what it writes into
-- the other buffer is the decoded text after it, fits with its NUL, and is no longer than that text; and
-- the value is what stands before the first NUL of it.
pub parse_key_value-length :
    (pair : List ℕ) (key_len value_len : ℕ) (k v : List ℕ)
    → parse_key_value pair key_len value_len ≡ some (k, v)
    → (s : List ℕ) × (split_at_eq pair ≡ some (k, s))
      × (length k < key_len)
      × (length (url_decode s value_len) < value_len)
      × (length (url_decode s value_len) ≤ length s)
      × (v ≡ c_string (url_decode s value_len))
unfolding parse_key_value
parse_key_value-length pair key_len value_len k v e = elim (Option-cases (split_at_eq pair)) [
  | inl f ↦ absurd (ground arith)
  | inr ((key, val), f) ↦
      let (a, b, q) = sizes_passed key val key_len value_len (k, v) (rw f at e) in
      let same : k ≡ key = ap (λ (r : List ℕ × List ℕ). r.0) q in
      let (c, d) = url_decode-length val value_len (omega arith) in
      (val, rw same f, rw same a, c, d, ap (λ (r : List ℕ × List ℕ). r.1) q)
]
