-- ===== src/Client/Waiting.antt =====
-- client.c: client_wait_for_job.
use c_simples.Prelude.{
  ℕ, zero, suc, ◌+◌, ◌*◌, ◌<◌, ◌≤◌, leb, ◌≡◌, refl, subst, inl, inr, ◌⊎◌, ℤ, pos, negsuc, true,
  Bool-cases, Option-cases, Option, none, some, dec_lt, arith,
}
use c_simples.Client.{Poll, get_status, is_final, timed_out, decide, wait_loop, wait_for_job}

-- What the loop may return: -1, or the number of a status that is final, which are completed (2), failed (3)
-- and timeout (4).
abbrev pub IsEnd : ℤ → Type 0
IsEnd v = (v ≡ negsuc 0) ⊎ ((s : ℕ) × (v ≡ pos s) × ((s ≡ 2) ⊎ (s ≡ 3) ⊎ (s ≡ 4)))

final_status : (s : ℕ) → is_final s ≡ true → (s ≡ 2) ⊎ (s ≡ 3) ⊎ (s ≡ 4)
final_status s e = ground arith

decided-IsEnd :
    (timeout : ℤ) (start now : ℕ) (status v : ℤ)
    → decide timeout start now status ≡ some v
    → IsEnd v
decided-IsEnd timeout start now (negsuc n) v e = inl cc
decided-IsEnd timeout start now (pos n) v e = elim (Bool-cases (is_final n)) [
  | inl f ↦ let q = rw f at e in inr (n, cc, final_status n f)
  | inr f ↦ elim (Bool-cases (timed_out timeout start now)) [
    | inl t ↦ let q = rw (f, t) at e in inl cc
    | inr t ↦ let q = rw (f, t) at e in cc
  ]
]

decided_late :
    (n start now : ℕ) (status : ℤ)
    → start + suc n * 1000 ≤ now
    → (v : ℤ) × (decide (pos (suc n)) start now status ≡ some v)
decided_late n start now (negsuc m) l = (negsuc 0, refl)
decided_late n start now (pos m) l = elim (Bool-cases (is_final m)) [
  | inl f ↦ (pos m, rw f refl)
  | inr f ↦ (negsuc 0, rw (f, late) refl)
]
  where
    late : leb (start + suc n * 1000) now ≡ true
    late = ground arith

-- What the status of the `k`th round decides.
abbrev pub decision : ℤ → ℤ → ℕ → (ℕ → Poll) → ℕ → Option ℤ
decision job_id timeout start polls k =
    decide timeout start (polls k).now (get_status job_id (polls k).exchange (polls k).client).0

-- The first number below a bound at which a function gives something.
first_below :
    (f : ℕ → Option ℤ) (bound : ℕ)
    → ((j : ℕ) → j < bound → f j ≡ none)
      ⊎ ((k : ℕ) × (v : ℤ) × (k < bound) × (f k ≡ some v) × ((j : ℕ) → j < k → f j ≡ none))
first_below f zero = inl (λ j l. absurd (omega arith))
first_below f (suc bound) = elim (first_below f bound) [
  | inr (k, v, l, e, before) ↦ inr (k, v, omega arith, e, before)
  | inl before ↦ elim (Option-cases (f bound)) [
    | inr (v, e) ↦ inr (bound, v, omega arith, e, before)
    | inl e ↦ inl (λ j l. elim (dec_lt j bound) [
      | yes less ↦ before j less
      | no more ↦ subst (λ i. f i ≡ none) (omega arith) e
    ])
  ]
]

module _ (job_id timeout : ℤ) (start : ℕ) (polls : ℕ → Poll) where
  wait_loop-decided :
      (i rounds k : ℕ) (v : ℤ)
      → i < rounds
      → ((j : ℕ) → j < i → decision job_id timeout start polls (k + j) ≡ none)
      → decision job_id timeout start polls (k + i) ≡ some v
      → wait_loop job_id timeout start polls rounds k ≡ some v
  unfolding wait_loop
  wait_loop-decided i zero k v l before e = absurd (omega arith)
  wait_loop-decided zero (suc rounds) k v l before e = rw (at_k k e, wait_loop) refl
    where
      at_k :
          (k : ℕ)
          → decision job_id timeout start polls (k + 0) ≡ some v
          → decision job_id timeout start polls k ≡ some v
      at_k k e = subst (λ i. decision job_id timeout start polls i ≡ some v) (omega arith) e
  wait_loop-decided (suc i) (suc rounds) k v l before e =
      rw (waits, wait_loop)
        (wait_loop-decided i rounds (suc k) v (omega arith)
          (λ j l.
            subst (λ n. decision job_id timeout start polls n ≡ none) (omega arith)
              (before (suc j) (omega arith)))
          (subst (λ n. decision job_id timeout start polls n ≡ some v) (omega arith) e))
    where
      waits : decision job_id timeout start polls k ≡ none
      waits =
          subst (λ i. decision job_id timeout start polls i ≡ none) (omega arith)
            (before 0 (omega arith))

  -- The same from the first round on.
  wait_for_job-decided :
      (k rounds : ℕ) (v : ℤ)
      → k < rounds
      → ((j : ℕ) → j < k → decision job_id timeout start polls j ≡ none)
      → decision job_id timeout start polls k ≡ some v
      → wait_for_job job_id timeout start polls rounds ≡ some v
  unfolding wait_for_job
  wait_for_job-decided k rounds v l before e =
      wait_loop-decided k rounds 0 v l
        (λ j m.
          subst (λ i. decision job_id timeout start polls i ≡ none) (omega arith) (before j m))
        (subst (λ i. decision job_id timeout start polls i ≡ some v) (omega arith) e)

-- `client_wait_for_job` with a timeout of `seconds` > 0 ends, if each sleep lets at least 100 ms pass on the
-- clock: after at most 10 * `seconds` + 1 rounds, and in the first one whose status decides, it returns -1 or
-- a status that is final, and no status before that one decides.
pub wait_for_job_lem :
    (job_id : ℤ) (seconds start : ℕ) (polls : ℕ → Poll)
    → 0 < seconds
    → ((k : ℕ) → start + k * 100 ≤ (polls k).now)
    → (k : ℕ) × (v : ℤ) × (k ≤ seconds * 10)
      × (decision job_id (pos seconds) start polls k ≡ some v)
      × ((j : ℕ) → j < k → decision job_id (pos seconds) start polls j ≡ none)
      × ((rounds : ℕ) → k < rounds → wait_for_job job_id (pos seconds) start polls rounds ≡ some v)
      × IsEnd v
wait_for_job_lem job_id zero start polls l sleeps = absurd (omega arith)
wait_for_job_lem job_id (suc n) start polls l sleeps =
    elim (first_below (decision job_id (pos (suc n)) start polls) (suc (suc n * 10))) [
      | inr (k, v, less, e, before) ↦ (
        k,
        v,
        omega arith,
        e,
        before,
        λ rounds m. wait_for_job-decided job_id (pos (suc n)) start polls k rounds v m before e,
        decided-IsEnd (pos (suc n)) start (polls k).now
            (get_status job_id (polls k).exchange (polls k).client).0 v e,
      )
      | inl never ↦
          let last = suc n * 10 in
          let status = (get_status job_id (polls last).exchange (polls last).client).0 in
          let (v, e) = decided_late n start (polls last).now status (omega (arith, sleeps last)) in
          let waits = never last (omega arith) in absurd cc
    ]
