-- ===== src/NetUtils/Tests.antt =====
-- `recv_payload` on pieces of a message.
use c_simples.Prelude.{ℕ, ◌≡◌, refl, List, [], ◌∷◌, take, All, arith}
use c_simples.NetUtils.{recv_payload, recv_loop, received, recv_failed, recv_waits}
use c_simples.NetUtils.Receive.{IsPiece, stream, recv_payload-stream}

abbrev pieces : List (List ℕ)
pieces = (1 ∷ 2 ∷ []) ∷ (3 ∷ []) ∷ (4 ∷ 5 ∷ []) ∷ []

pieces-IsPiece : All IsPiece pieces
pieces-IsPiece = ((λ e. omega arith), ((λ e. omega arith), ((λ e. omega arith), tt)))

recv_payload-stream_example : recv_payload 4 pieces ≡ received (take 4 (stream pieces))
unfolding stream
recv_payload-stream_example = recv_payload-stream 4 pieces pieces-IsPiece (omega arith)

closed_early : recv_payload 4 ((1 ∷ []) ∷ [] ∷ []) ≡ recv_failed
unfolding recv_payload recv_loop
closed_early = refl

still_waits : recv_payload 4 ((1 ∷ []) ∷ []) ≡ recv_waits
unfolding recv_payload recv_loop
still_waits = refl
