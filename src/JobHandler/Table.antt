-- ===== src/JobHandler/Table.antt =====
-- The searches of the job table: where `find_job_by_id`, `find_free_job_slot` and the scan of
-- `job_handler_assign` point to.
use c_simples.Prelude.{
  ℕ, zero, suc, ◌+◌, ◌<◌, ◌≡◌, sym, ap, ◌∙◌, ◌⊎◌, inl, inr, true, Bool-cases, Option, none, some,
  List, [], ◌∷◌, arith, ltb, ◌==◌, ◌&&◌, pos, negsuc, ℤ, get_elem?,
}
use native.Mathlib.Nat.{zero-add}
use c_simples.JobHandler.{
  Job, Handler, find_loop, shifted, find_job_by_id, find_free_job_slot, next_index, oldest_loop,
  is_pending, is_older,
}

-- Slot `i` holds job `j`.
abbrev pub At : List Job → ℕ → Job → Type 0
At js i j = get_elem? js i ≡ some j

shifted-some :
    (o : Option (ℕ × Job)) (i : ℕ) (j : Job)
    → shifted o ≡ some (i, j)
    → (k : ℕ) × (i ≡ suc k) × (o ≡ some (k, j))
shifted-some none i j e = cc
shifted-some (some (k, x)) i j e = (k, ground arith, ground arith)

pub find_loop-At :
    (id : ℕ) (js : List Job) (i : ℕ) (j : Job)
    → find_loop id js ≡ some (i, j)
    → At js i j × (j.job_id ≡ id)
unfolding find_loop
find_loop-At id [] i j e = cc
find_loop-At id (x ∷ js) i j e = elim (Bool-cases (x.job_id == id)) [
  | inl b ↦ ground arith
  | inr b ↦
      let (k, ei, f) = shifted-some (find_loop id js) i j (rw b at e) in
      let (a, q) = find_loop-At id js k j f in (rw ei a, q)
]

-- `find_job_by_id` returns a job of the table with that number, which is positive and has been given.
pub find_job_by_id-At :
    (h : Handler) (id : ℤ) (i : ℕ) (j : Job)
    → find_job_by_id h id ≡ some (i, j)
    → At h.jobs i j × (id ≡ pos j.job_id) × (0 < j.job_id) × (j.job_id < h.next_job_id)
unfolding find_job_by_id
find_job_by_id-At h (negsuc n) i j e = cc
find_job_by_id-At h (pos zero) i j e = cc
find_job_by_id-At h (pos (suc n)) i j e = elim (Bool-cases (ltb (suc n) h.next_job_id)) [
  | inl b ↦
      let (a, q) = find_loop-At (suc n) h.jobs i j (rw b at e) in
      (a, ap pos (sym q), omega (arith, q), rw q (below n h b))
  | inr b ↦ ground arith
]
  where
    below : (n : ℕ) (h : Handler) → ltb (suc n) h.next_job_id ≡ true → suc n < h.next_job_id
    below n h b = ground arith

-- A pending job at an index `k` that counts the slots of `js` from `i`.
abbrev pub PendingAt : List Job → ℕ → ℕ → Job → Type 0
PendingAt js i k j = (m : ℕ) × (k ≡ i + m) × At js m j × (is_pending j ≡ true)

PendingAt-cons :
    (x : Job) (js : List Job) (i k : ℕ) (j : Job)
    → PendingAt js (suc i) k j
    → PendingAt (x ∷ js) i k j
PendingAt-cons x js i k j (m, e, a, p) = (suc m, omega arith, a, p)

-- What the scan returns is the candidate that it began with, or a pending job of the rest.
pub oldest_loop-At :
    (js : List Job) (i : ℕ) (best : Option (ℕ × Job)) (k : ℕ) (j : Job)
    → oldest_loop i best js ≡ some (k, j)
    → (best ≡ some (k, j)) ⊎ PendingAt js i k j
unfolding oldest_loop
oldest_loop-At [] i best k j e = inl e
oldest_loop-At (x ∷ js) i best k j e = elim (Bool-cases (is_pending x && is_older x best)) [
  | inl b ↦ elim (oldest_loop-At js (suc i) (some (i, x)) k j (rw b at e)) [
    | inl same ↦ inr (0, ground arith, ground arith, ground arith)
    | inr found ↦ inr (PendingAt-cons x js i k j found)
  ]
  | inr b ↦ elim (oldest_loop-At js (suc i) best k j (rw b at e)) [
    | inl same ↦ inl same
    | inr found ↦ inr (PendingAt-cons x js i k j found)
  ]
]

pub oldest_loop-PendingAt :
    (js : List Job) (k : ℕ) (j : Job)
    → oldest_loop 0 none js ≡ some (k, j)
    → At js k j × (is_pending j ≡ true)
oldest_loop-PendingAt js k j e = elim (oldest_loop-At js 0 none k j e) [
  | inl bad ↦ cc
  | inr (m, q, a, p) ↦ (rw (q ∙ zero-add m) a, p)
]

pub next_index-some :
    (o : Option ℕ) (i : ℕ) → next_index o ≡ some i → (k : ℕ) × (i ≡ suc k) × (o ≡ some k)
next_index-some none i e = cc
next_index-some (some k) i e = (k, ground arith, ground arith)

-- `find_free_job_slot` returns an entry that no job uses.
pub find_free_job_slot-At :
    (js : List Job) (i : ℕ)
    → find_free_job_slot js ≡ some i
    → (j : Job) × At js i j × (j.job_id ≡ 0)
unfolding find_free_job_slot
find_free_job_slot-At [] i e = cc
find_free_job_slot-At (x ∷ js) i e = elim (Bool-cases (x.job_id == 0)) [
  | inl b ↦ (x, ground arith, ground arith)
  | inr b ↦
      let (k, ei, f) = next_index-some (find_free_job_slot js) i (rw b at e) in
      let (j, a, z) = find_free_job_slot-At js k f in (j, rw ei a, z)
]
