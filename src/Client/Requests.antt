-- ===== src/Client/Requests.antt =====
-- client.c: the requests, and what the job handler of the server stores of a job that is submitted.
use c_simples.Prelude.{
  ℕ, zero, suc, ◌<◌, ◌≤◌, ltb, ◌≡◌, refl, ap, inl, inr, ◌⊎◌, if◌then◌else◌, ℤ, negsuc, Bool, true,
  false, Option-cases, Option, none, some, List, [], ◌∷◌, ◌++◌, take, drop, length, replicate,
  length-append, length-take, length-drop, length-replicate, dec_lt, arith,
}
use c_simples.JobHandler
use c_simples.JobHandler.{Handler, copy_bytes}
use c_simples.Client.{
  Client, Exchange, Response, register_response, job_submitted, job_status, job_result,
  server_stats, error, other_type, submit_job, Deed, sends, as_uint32, submit, submitted_id,
  fill_data,
}

take-append : (n : ℕ) (xs ys : List ℕ) → n ≤ length xs → take n (take n xs ++ ys) ≡ take n xs
take-append zero xs ys l = refl
take-append (suc n) [] ys l = absurd (omega arith)
take-append (suc n) (x ∷ xs) ys l = ap (◌∷◌ x) (take-append n xs ys (omega arith))

length-fill_data :
    (bytes : List ℕ) → length bytes ≤ 1024 → length (fill_data (some bytes) (length bytes)) ≡ 1024
length-fill_data bytes l =
    let n = length bytes in
    omega (
      arith,
      length-append (take n bytes) (drop n (replicate 1024 0)),
      length-take n bytes,
      length-drop {A = ℕ} n (replicate 1024 0),
      length-replicate {A = ℕ} 1024 0,
    )

-- The copy that the job handler makes of the array is that of the input.
copy_bytes-fill_data :
    (bytes : List ℕ) (n : ℕ) (ok : Bool)
    → n ≤ length bytes
    → copy_bytes (some (fill_data (some bytes) n)) n ok ≡ copy_bytes (some bytes) n ok
copy_bytes-fill_data bytes zero ok l = refl
copy_bytes-fill_data bytes (suc n) false l = refl
copy_bytes-fill_data bytes (suc n) true l =
    ap (λ xs. some (some xs)) (take-append (suc n) bytes (drop (suc n) (replicate 1024 0)) l)

submit-fill_data :
    (bytes : List ℕ) (n : ℕ) (socket job_type : ℤ) (ok : Bool) (now : ℕ) (h : Handler)
    → n ≤ length bytes
    → JobHandler.submit socket job_type (some (fill_data (some bytes) n)) n ok now h
      ≡ JobHandler.submit socket job_type (some bytes) n ok now h
unfolding JobHandler.submit
submit-fill_data bytes n socket job_type ok now h l =
    elim (Option-cases (JobHandler.find_free_job_slot h.jobs)) [
      | inl full ↦ rw (full, JobHandler.submit) refl
      | inr (slot, e) ↦ rw (e, JobHandler.submit, copy_bytes-fill_data bytes n ok l) refl
    ]

-- The number in the answer to a submission, or -1 for every other outcome.
abbrev pub accepted : Exchange → ℤ
accepted x = (submitted_id (if x.sent then x.answer else none, [])).0

submitted_id-accepted :
    (sent : Bool) (answer : Option Response) (deeds : List Deed)
    → submitted_id (if sent then answer else none, deeds)
      ≡ (accepted (record { sent = sent; answer = answer }), deeds)
submitted_id-accepted false answer deeds = refl
submitted_id-accepted true none deeds = refl
submitted_id-accepted true (some (register_response id)) deeds = refl
submitted_id-accepted true (some (job_submitted id)) deeds = refl
submitted_id-accepted true (some (job_status n)) deeds = refl
submitted_id-accepted true (some (job_result array behind n)) deeds = refl
submitted_id-accepted true (some (server_stats s)) deeds = refl
submitted_id-accepted true (some error) deeds = refl
submitted_id-accepted true (some other_type) deeds = refl

-- A connected client that submits the bytes of an input: with more than 1024 bytes it returns -1 and sends
-- nothing. Else it sends one message, whose array has 1024 bytes, and returns the number in the answer, or -1
-- if there is none; and from that array and size, every job handler stores what it stores for the input
-- itself.
pub submit-stored :
    (job_type : ℤ) (bytes : List ℕ) (x : Exchange) (c : Client)
    → c.is_connected ≡ true
    → ((1024 < length bytes) × (submit job_type (some bytes) (length bytes) x c ≡ (negsuc 0, [])))
      ⊎ ((array : List ℕ) × (length array ≡ 1024)
          × (submit job_type (some bytes) (length bytes) x c ≡ (
            accepted x,
            sends c.server_socket
                  (submit_job (as_uint32 c.client_id) (as_uint32 job_type) array (length bytes))
                ∷ [],
          ))
          × ((socket type : ℤ) (ok : Bool) (now : ℕ) (h : Handler)
              → JobHandler.submit socket type (some array) (length bytes) ok now h
                ≡ JobHandler.submit socket type (some bytes) (length bytes) ok now h))
unfolding submit
submit-stored job_type bytes x c on = elim (dec_lt 1024 (length bytes)) [
  | yes l ↦ inl (l, rw (on, too_long l) refl)
  | no m ↦ inr (
    fill_data (some bytes) (length bytes),
    length-fill_data bytes (omega arith),
    rw (on, fits (omega arith)) (submitted_id-accepted x.sent x.answer _),
    λ socket type ok now h.
        submit-fill_data bytes (length bytes) socket type ok now h (omega arith),
  )
]
  where
    too_long : 1024 < length bytes → ltb 1024 (length bytes) ≡ true
    too_long l = ground arith

    fits : length bytes ≤ 1024 → ltb 1024 (length bytes) ≡ false
    fits l = ground arith
