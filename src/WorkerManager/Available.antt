-- ===== src/WorkerManager/Available.antt =====
-- worker_manager.c: `worker_manager_find_available` and its loops.
use c_simples.Prelude.{
  ℕ, zero, suc, ◌≡◌, ◌≤◌, refl, sym, inl, inr, ◌⊎◌, true, false, Bool-cases, Option-cases, Option,
  none, some, List, [], ◌∷◌, arith, ℤ, ◌&&◌, some_eq, ◌<◌, ◌=ℤ◌, pos, negsuc, get_elem?, ap, subst,
}
use c_simples.WorkerManager.{
  Worker, Manager, worker_idle, supports, is_candidate, is_better, available_loop, find_available,
}
use c_simples.WorkerManager.Table.{Holds}

-- `worker_id` and `job_count` of a candidate of the table.
abbrev pub Offered : ℤ → List Worker → ℕ → ℕ → Type 0
Offered job_type ws id jobs =
    (i : ℕ) × (w : Worker) × Holds ws i w
    × (is_candidate job_type w ≡ true)
    × (w.worker_id ≡ id)
    × (w.job_count ≡ jobs)

abbrev pub Least : ℤ → List Worker → ℕ → Type 0
Least job_type ws jobs =
    (i : ℕ) (w : Worker) → Holds ws i w → is_candidate job_type w ≡ true → jobs ≤ w.job_count

Offered-cons :
    (job_type : ℤ) (x : Worker) (ws : List Worker) (id jobs : ℕ)
    → Offered job_type ws id jobs
    → Offered job_type (x ∷ ws) id jobs
Offered-cons job_type x ws id jobs (i, w, a, c, e, k) = (suc i, w, a, c, e, k)

Least-cons :
    (job_type : ℤ) (x : Worker) (ws : List Worker) (jobs : ℕ)
    → (is_candidate job_type x ≡ true → jobs ≤ x.job_count)
    → Least job_type ws jobs
    → Least job_type (x ∷ ws) jobs
Least-cons job_type x ws jobs first rest zero w a c =
    rw (sym (some_eq a)) (first (rw (some_eq a) c))
Least-cons job_type x ws jobs first rest (suc i) w a c = rest i w a c

-- The loop ends with the candidate that it began with, or one of the rest; it has done no more jobs
-- than any other.
abbrev Best : ℤ → Option (ℕ × ℕ) → List Worker → ℕ → ℕ → Type 0
Best job_type best ws id jobs =
    ((best ≡ some (id, jobs)) ⊎ Offered job_type ws id jobs)
    × ((k b : ℕ) → best ≡ some (k, b) → jobs ≤ b)
    × Least job_type ws jobs

available_loop-Best :
    (job_type : ℤ) (ws : List Worker) (best : Option (ℕ × ℕ)) (id jobs : ℕ)
    → available_loop job_type best ws ≡ some (id, jobs)
    → Best job_type best ws id jobs
unfolding available_loop
available_loop-Best job_type [] best id jobs e = (inl e, λ k b q. ground arith, λ i w a c. cc)
available_loop-Best job_type (x ∷ ws) best id jobs e =
    elim (Bool-cases (is_candidate job_type x && is_better x best)) [
      | inl b ↦
          let (from, bound, least) =
            available_loop-Best job_type ws (some (x.worker_id, x.job_count)) id jobs (rw b at e) in
          let below = bound x.worker_id x.job_count refl in
          (
            elim from [
              | inl q ↦ inr (0, x, refl, candidate job_type x best b, ground arith, ground arith)
              | inr o ↦ inr (Offered-cons job_type x ws id jobs o)
            ],
            λ k c q. improved job_type x best k c jobs b q below,
            Least-cons job_type x ws jobs (λ c. below) least,
          )
      | inr b ↦
          let (from, bound, least) = available_loop-Best job_type ws best id jobs (rw b at e) in
          (
            elim from [ inl q ↦ inl q | inr o ↦ inr (Offered-cons job_type x ws id jobs o) ],
            bound,
            Least-cons job_type x ws jobs (λ c. passed job_type x best jobs b c bound) least,
          )
    ]
  where
    candidate :
        (job_type : ℤ) (x : Worker) (best : Option (ℕ × ℕ))
        → (is_candidate job_type x && is_better x best) ≡ true
        → is_candidate job_type x ≡ true
    candidate job_type x best b = ground arith

    improved :
        (job_type : ℤ) (x : Worker) (best : Option (ℕ × ℕ)) (k c jobs : ℕ)
        → (is_candidate job_type x && is_better x best) ≡ true
        → best ≡ some (k, c)
        → jobs ≤ x.job_count
        → jobs ≤ c
    improved job_type x none k c jobs b q l = cc
    improved job_type x (some (k', c')) k c jobs b q l = ground arith

    passed :
        (job_type : ℤ) (x : Worker) (best : Option (ℕ × ℕ)) (jobs : ℕ)
        → (is_candidate job_type x && is_better x best) ≡ false
        → is_candidate job_type x ≡ true
        → ((k b : ℕ) → best ≡ some (k, b) → jobs ≤ b)
        → jobs ≤ x.job_count
    passed job_type x none jobs b c bound = ground arith
    passed job_type x (some (k, m)) jobs b c bound = let l = bound k m refl in ground arith

-- The loop ends with none only if it began with none and no worker is a candidate.
available_loop-none :
    (job_type : ℤ) (ws : List Worker) (best : Option (ℕ × ℕ))
    → available_loop job_type best ws ≡ none
    → (best ≡ none) × ((i : ℕ) (w : Worker) → Holds ws i w → is_candidate job_type w ≡ false)
unfolding available_loop
available_loop-none job_type [] best e = (e, λ i w a. cc)
available_loop-none job_type (x ∷ ws) best e =
    elim (Bool-cases (is_candidate job_type x && is_better x best)) [
      | inl b ↦ cc (available_loop-none job_type ws (some (x.worker_id, x.job_count)) (rw b at e)).0
      | inr b ↦
          let (q, h) = available_loop-none job_type ws best (rw b at e) in
          (q, λ i w a. at_slot i w a (refused best q b) h)
    ]
  where
    refused :
        (best : Option (ℕ × ℕ))
        → best ≡ none
        → (is_candidate job_type x && is_better x best) ≡ false
        → is_candidate job_type x ≡ false
    refused none q b = ground arith
    refused (some p) q b = cc

    at_slot :
        (i : ℕ) (w : Worker)
        → Holds (x ∷ ws) i w
        → is_candidate job_type x ≡ false
        → ((i : ℕ) (w : Worker) → Holds ws i w → is_candidate job_type w ≡ false)
        → is_candidate job_type w ≡ false
    at_slot zero w a first h = rw (sym (some_eq a)) first
    at_slot (suc i) w a first h = h i w a

-- A worker of the table that is idle and has the job type among its own.
abbrev pub CanDo : ℤ → Worker → Type 0
CanDo job_type w =
    (0 < w.worker_id)
    × (w.status ≡ worker_idle)
    × ((k : ℕ) × (get_elem? w.job_types_supported k ≡ some job_type))

=ℤ-eq : (a b : ℤ) → (a =ℤ b) ≡ true → a ≡ b
=ℤ-eq (pos a) (pos b) e = ground arith
=ℤ-eq (pos a) (negsuc b) e = cc
=ℤ-eq (negsuc a) (pos b) e = cc
=ℤ-eq (negsuc a) (negsuc b) e = ground arith

=ℤ-same : (a : ℤ) → (a =ℤ a) ≡ true
=ℤ-same (pos n) = ground arith
=ℤ-same (negsuc n) = ground arith

supports-some :
    (job_type : ℤ) (ts : List ℤ)
    → supports job_type ts ≡ true
    → (k : ℕ) × (get_elem? ts k ≡ some job_type)
unfolding supports
supports-some job_type [] e = cc
supports-some job_type (t ∷ ts) e = elim (Bool-cases (t =ℤ job_type)) [
  | inl q ↦ (0, ap some (=ℤ-eq t job_type q))
  | inr q ↦ let (k, f) = supports-some job_type ts (rw q at e) in (suc k, f)
]

some-supports :
    (job_type : ℤ) (ts : List ℤ) (k : ℕ)
    → get_elem? ts k ≡ some job_type
    → supports job_type ts ≡ true
unfolding supports
some-supports job_type [] k e = cc
some-supports job_type (t ∷ ts) zero e = rw (some_eq e, =ℤ-same job_type) refl
some-supports job_type (t ∷ ts) (suc k) e = elim (Bool-cases (t =ℤ job_type)) [
  | inl q ↦ rw q refl
  | inr q ↦ rw q (some-supports job_type ts k e)
]

CanDo-of_candidate : (job_type : ℤ) (w : Worker) → is_candidate job_type w ≡ true → CanDo job_type w
CanDo-of_candidate job_type w e =
    let s : supports job_type w.job_types_supported ≡ true = ground arith in
    (ground arith, ground arith, supports-some job_type w.job_types_supported s)

candidate_of-CanDo : (job_type : ℤ) (w : Worker) → CanDo job_type w → is_candidate job_type w ≡ true
candidate_of-CanDo job_type w (p, s, (k, t)) =
    let u = some-supports job_type w.job_types_supported k t in ground arith

-- `worker_manager_find_available` returns -1 if the table has no worker that is idle and has the job type
-- in its list, and otherwise the number of such a worker that has done no more jobs than any other.
pub find_available_lem :
    (job_type : ℤ) (m : Manager)
    → ((find_available job_type m ≡ none)
        × ((i : ℕ) (w : Worker) → Holds m.workers i w → ¬ CanDo job_type w))
      ⊎ ((i : ℕ) × (w : Worker) × (find_available job_type m ≡ some w.worker_id)
          × Holds m.workers i w
          × CanDo job_type w
          × ((k : ℕ) (v : Worker)
              → Holds m.workers k v
              → CanDo job_type v
              → w.job_count ≤ v.job_count))
unfolding find_available
find_available_lem job_type m = elim (Option-cases (available_loop job_type none m.workers)) [
  | inl e ↦
      let (_, h) = available_loop-none job_type m.workers none e in
      inl (
        rw (e, find_available) refl,
        λ i w a c. let yes_ = candidate_of-CanDo job_type w c in let no_ = h i w a in cc,
      )
  | inr ((id, jobs), e) ↦
      let (from, bound, least) = available_loop-Best job_type m.workers none id jobs e in
      let (i, w, a, c, q, n) : Offered job_type m.workers id jobs = elim from [
        | inl q ↦ cc
        | inr o ↦ o
      ] in
      inr (
        i,
        w,
        rw (e, find_available) (ap some (sym q)),
        a,
        CanDo-of_candidate job_type w c,
        λ k v b d.
            subst (λ x. x ≤ v.job_count) (sym n) (least k v b (candidate_of-CanDo job_type v d)),
      )
]
