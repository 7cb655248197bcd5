-- ===== src/JobHandler/Numbering.antt =====
-- job_handler.c: the numbers of the jobs, with job `i + 1` in entry `i`.
use c_simples.Prelude.{
  ℕ, zero, suc, ◌+◌, ◌≤◌, ◌<◌, ◌≡◌, refl, ◌⊎◌, inl, inr, Bool-cases, Option, some, List, [], ◌∷◌,
  arith, ◌==◌, length, set, replicate, pos,
}
use c_simples.JobHandler.{Job, Handler, empty_job, find_free_job_slot, find_loop, find_job_by_id}
use c_simples.JobHandler.Table.{At, next_index-some}

-- Counting the entries from `k`, those below `n` hold the job of their number, the others none.
abbrev pub Numbered : ℕ → ℕ → List Job → Type 0
Numbered k n [] = Unit {0}
Numbered k n (j ∷ js) =
    (((k < n) × (j.job_id ≡ k)) ⊎ ((n ≤ k) × (j.job_id ≡ 0))) × Numbered (suc k) n js

pub Numbered-replicate : (k n m : ℕ) → n ≤ k → Numbered k n (replicate m empty_job)
Numbered-replicate k n zero h = tt
Numbered-replicate k n (suc m) h = (inr (h, refl), Numbered-replicate (suc k) n m (omega arith))

pub Numbered-set :
    (k n : ℕ) (js : List Job) (i : ℕ) (old new : Job)
    → At js i old
    → new.job_id ≡ old.job_id
    → Numbered k n js
    → Numbered k n (set js i new)
Numbered-set k n [] i old new a e h = tt
Numbered-set k n (x ∷ js) zero old new a e h = ground arith
Numbered-set k n (x ∷ js) (suc i) old new a e h = (h.0, Numbered-set (suc k) n js i old new a e h.1)

-- Above the last number given nothing changes when the next one is given.
Numbered-above : (k n : ℕ) (js : List Job) → n < k → Numbered k n js → Numbered k (suc n) js
Numbered-above k n [] l h = tt
Numbered-above k n (x ∷ js) l h = (ground arith, Numbered-above (suc k) n js (omega arith) h.1)

-- The first free entry is the one whose number is the next one.
pub free_slot-number :
    (k n : ℕ) (js : List Job) (i : ℕ)
    → 0 < k
    → k ≤ n
    → Numbered k n js
    → find_free_job_slot js ≡ some i
    → (k + i ≡ n) × (i < length js)
unfolding find_free_job_slot
free_slot-number k n [] i p l h e = cc
free_slot-number k n (x ∷ js) i p l h e = elim (Bool-cases (x.job_id == 0)) [
  | inl b ↦ ground arith
  | inr b ↦
      let (m, ei, f) = next_index-some (find_free_job_slot js) i (rw b at e) in
      let (q, r) = free_slot-number (suc k) n js m (omega arith) (ground arith) h.1 f in omega arith
]

pub Numbered-submit :
    (k n : ℕ) (js : List Job) (i : ℕ) (new : Job)
    → new.job_id ≡ n
    → k + i ≡ n
    → Numbered k n js
    → Numbered k (suc n) (set js i new)
Numbered-submit k n [] i new e l h = tt
Numbered-submit k n (x ∷ js) zero new e l h =
    (inl (omega arith), Numbered-above (suc k) n js (omega arith) h.1)
Numbered-submit k n (x ∷ js) (suc i) new e l h =
    (ground arith, Numbered-submit (suc k) n js i new e (omega arith) h.1)

pub Numbered-At :
    (k n : ℕ) (js : List Job) (i : ℕ) (j : Job)
    → Numbered k n js
    → At js i j
    → 0 < j.job_id
    → (j.job_id ≡ k + i) × (j.job_id < n)
Numbered-At k n [] i j h a p = cc
Numbered-At k n (x ∷ js) zero j h a p = ground arith
Numbered-At k n (x ∷ js) (suc i) j h a p =
    let (e, l) = Numbered-At (suc k) n js i j h.1 a p in (omega arith, l)

find_loop-here :
    (k n : ℕ) (js : List Job) (i : ℕ) (j : Job)
    → Numbered k n js
    → At js i j
    → 0 < j.job_id
    → find_loop j.job_id js ≡ some (i, j)
unfolding find_loop
find_loop-here k n [] i j h a p = cc
find_loop-here k n (x ∷ js) zero j h a p = ground arith
find_loop-here k n (x ∷ js) (suc i) j h a p =
    let (e, l) = Numbered-At (suc k) n js i j h.1 a p in
    let rest = find_loop-here (suc k) n js i j h.1 a p in ground arith

find_of_number :
    (h : Handler) (id : ℕ) (r : Option (ℕ × Job))
    → 0 < id
    → id < h.next_job_id
    → find_loop id h.jobs ≡ r
    → find_job_by_id h (pos id) ≡ r
unfolding find_job_by_id
find_of_number h zero r p l e = absurd (omega arith)
find_of_number h (suc id) r p l e = ground arith

-- A job of the table is found by its number, at its own entry.
pub find_job_by_id-here :
    (h : Handler) (i : ℕ) (j : Job)
    → Numbered 1 h.next_job_id h.jobs
    → At h.jobs i j
    → 0 < j.job_id
    → find_job_by_id h (pos j.job_id) ≡ some (i, j)
find_job_by_id-here h i j v a p =
    let (e, l) = Numbered-At 1 h.next_job_id h.jobs i j v a p in
    find_of_number h j.job_id _ p l (find_loop-here 1 h.next_job_id h.jobs i j v a p)
