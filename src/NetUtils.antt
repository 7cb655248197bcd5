-- ===== src/NetUtils.antt =====
-- distributed_worker_system/lib/src/net_utils.c: the loop that receives a message of known size.
pub mod Receive
mod Tests
use c_simples.Prelude.{
  ℕ, zero, suc, ◌-◌, ◌==◌, if◌then◌else◌, ℤ, pos, negsuc, List, [], ◌∷◌, ◌++◌, length, take,
}

-- How a call of `recv_payload` ends: it returns 0 with the buffer, or -1, or still waits for `read`.
pub data RecvOutcome : Type 0 where
  received : List ℕ → RecvOutcome
  recv_failed : RecvOutcome
  recv_waits : RecvOutcome

-- The loop of `recv_payload` with `bytes_left` to go and `buf` filled so far. Each return of `read` is
-- the bytes that arrived, of which it takes at most `bytes_left`; none stands for a return of 0 or -1.
unfoldable pub recv_loop : ℕ → List ℕ → List (List ℕ) → RecvOutcome
recv_loop zero buf reads = received buf
recv_loop (suc n) buf [] = recv_waits
recv_loop (suc n) buf (bytes ∷ reads) =
    let got = take (suc n) bytes in
    let rest = recv_loop (suc n - length got) (buf ++ got) reads in
    if length got == 0 then recv_failed else rest

-- `recv_payload`
unfoldable pub recv_payload : ℕ → List (List ℕ) → RecvOutcome
recv_payload len reads = recv_loop len [] reads

-- The value that it returns; a call that waits has none, and a caller waits with it.
abbrev pub return_value : RecvOutcome → ℤ
return_value (received buf) = pos 0
return_value recv_failed = negsuc 0
return_value recv_waits = negsuc 0
