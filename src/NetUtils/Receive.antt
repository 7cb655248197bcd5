-- ===== src/NetUtils/Receive.antt =====
-- net_utils.c: `recv_payload` on a message that arrives in pieces.
use c_simples.Prelude.{
  ℕ, zero, suc, ◌-◌, ◌≤◌, ◌≡◌, ◌≢◌, sym, ap, ◌∙◌, ◌==◌, List, [], ◌∷◌, ◌++◌, length, take,
  length-take, length-append, append_assoc, append-nil, All, arith, false,
}
use c_simples.NetUtils.{received, recv_loop, recv_payload}

-- All that arrives, in order.
unfoldable pub stream : List (List ℕ) → List ℕ
stream [] = []
stream (bytes ∷ reads) = bytes ++ stream reads

abbrev pub IsPiece : List ℕ → Type 0
IsPiece bytes = length bytes ≢ 0

take-append : (n : ℕ) (xs ys : List ℕ) → take n (xs ++ ys) ≡ take n xs ++ take (n - length xs) ys
take-append zero xs ys = let e : 0 ≡ 0 - length xs = omega arith in ap (λ (k : ℕ). take k ys) e
take-append (suc n) [] ys = let e : suc n ≡ suc n - 0 = omega arith in ap (λ (k : ℕ). take k ys) e
take-append (suc n) (x ∷ xs) ys =
    let e : n - length xs ≡ suc n - suc (length xs) = omega arith in
    ap (◌∷◌ x) (take-append n xs ys ∙ ap (λ (k : ℕ). take n xs ++ take k ys) e)

recv_loop-stream :
    (n : ℕ) (buf : List ℕ) (reads : List (List ℕ))
    → All IsPiece reads
    → n ≤ length (stream reads)
    → recv_loop n buf reads ≡ received (buf ++ take n (stream reads))
unfolding recv_loop stream
recv_loop-stream zero buf reads h l = ap received (sym (append-nil buf))
recv_loop-stream (suc n) buf [] h l = absurd (omega arith)
recv_loop-stream (suc n) buf (bytes ∷ reads) h l =
    let got = take (suc n) bytes in
    let size = length-take (suc n) bytes in
    let total = length-append bytes (stream reads) in
    let left : suc n - length got ≤ length (stream reads) = omega arith in
    let rest = recv_loop-stream (suc n - length got) (buf ++ got) reads h.1 left in
    let more : (length got == 0) ≡ false = some_piece (length got) (λ z. h.0 (omega arith)) in
    let same : suc n - length got ≡ suc n - length bytes = omega arith in
    rw more (
      rest
      ∙ ap received (
          append_assoc buf got (take (suc n - length got) (stream reads))
          ∙ ap (λ k. buf ++ (got ++ take k (stream reads))) same
          ∙ ap (λ r. buf ++ r) (sym (take-append (suc n) bytes (stream reads)))))
  where
    some_piece : (b : ℕ) → b ≢ 0 → (b == 0) ≡ false
    some_piece b q = ground arith

-- If every `read` returns at least one byte, and `len` bytes arrive in all, `recv_payload` returns 0 with
-- the first `len` of them in the buffer, however they were cut into pieces.
pub recv_payload-stream :
    (len : ℕ) (reads : List (List ℕ))
    → All IsPiece reads
    → len ≤ length (stream reads)
    → recv_payload len reads ≡ received (take len (stream reads))
unfolding recv_payload
recv_payload-stream len reads h l = recv_loop-stream len [] reads h l
