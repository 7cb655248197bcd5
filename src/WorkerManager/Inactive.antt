-- ===== src/WorkerManager/Inactive.antt =====
-- `worker_manager_check_inactive`: what it does to each worker, and what it reports.
use c_simples.Prelude.{
  ℕ, ◌+◌, ◌≡◌, refl, ap, inl, inr, Bool, Bool-cases, List, [], ◌∷◌, arith, ℤ, count_if, not, ◌&&◌,
  ◌==◌, bit, if◌then◌else◌, ap₂,
}
use c_simples.WorkerManager.{
  Worker, Manager, Stats, is_silent, worker_offline, check_loop, check_worker, check_inactive,
}

-- A worker of the table that has not been heard of for longer than the limit.
abbrev pub is_lost : ℕ → ℤ → Worker → Bool
is_lost now limit w = not (w.worker_id == 0) && is_silent now limit w

abbrev pub marked : ℕ → ℤ → Worker → Worker
marked now limit w = if is_lost now limit w then record w { status = worker_offline } else w

unfoldable pub mark_all : ℕ → ℤ → List Worker → List Worker
mark_all now limit [] = []
mark_all now limit (w ∷ ws) = marked now limit w ∷ mark_all now limit ws

check_worker-marked :
    (now : ℕ) (limit : ℤ) (w : Worker) (s : Stats) (n : ℕ)
    → ((check_worker now limit w s n).0 ≡ marked now limit w)
      × ((check_worker now limit w s n).2 ≡ n + bit (is_lost now limit w))
unfolding check_worker
check_worker-marked now limit w s n = elim (Bool-cases (is_lost now limit w)) [
  | inl b ↦ (rw (b, check_worker) refl, rw (b, check_worker) (omega arith))
  | inr b ↦ (rw (b, check_worker) refl, rw (b, check_worker) (omega arith))
]

check_loop-marked :
    (now : ℕ) (limit : ℤ) (ws : List Worker) (s : Stats) (n : ℕ)
    → ((check_loop now limit ws s n).0 ≡ mark_all now limit ws)
      × ((check_loop now limit ws s n).2 ≡ n + count_if (is_lost now limit) ws)
unfolding check_loop mark_all count_if
check_loop-marked now limit [] s n = (refl, omega arith)
check_loop-marked now limit (w ∷ ws) s n =
    let (_, s', n') = check_worker now limit w s n in
    let (e, k) = check_worker-marked now limit w s n in
    let (es, ks) = check_loop-marked now limit ws s' n' in (ap₂ ◌∷◌ e es, omega arith)

-- Exactly the workers not heard of for longer than the limit go offline, whatever their status was;
-- the others stay as they are; and the number returned is the number of such workers.
pub check_inactive-mark_all :
    (limit : ℤ) (now : ℕ) (m : Manager)
    → ((check_inactive limit now m).1.workers ≡ mark_all now limit m.workers)
      × ((check_inactive limit now m).0 ≡ count_if (is_lost now limit) m.workers)
unfolding check_inactive
check_inactive-mark_all limit now m =
    let (e, k) = check_loop-marked now limit m.workers m.stats 0 in (e, omega arith)

-- A check of marked workers.
again :
    (now : ℕ) (limit : ℤ) (w : Worker) (s : Stats) (n : ℕ)
    → check_worker now limit (marked now limit w) s n
      ≡ (marked now limit w, s, n + bit (is_lost now limit w))
unfolding check_worker
again now limit w s n = ground arith

marked-twice :
    (now : ℕ) (limit : ℤ) (ws : List Worker) (s : Stats) (n : ℕ)
    → check_loop now limit (mark_all now limit ws) s n
      ≡ (mark_all now limit ws, s, n + count_if (is_lost now limit) ws)
unfolding check_loop mark_all count_if
marked-twice now limit [] s n = ap (λ (k : ℕ). ([], s, k)) (omega arith)
marked-twice now limit (w ∷ ws) s n =
    rw (again now limit w s n, marked-twice now limit ws s (n + bit (is_lost now limit w)))
      (ap (λ (k : ℕ). (marked now limit w ∷ mark_all now limit ws, s, k)) (omega arith))

-- A second check at the same time changes nothing, and returns the number of the first again.
pub check_inactive-twice :
    (limit : ℤ) (now : ℕ) (m : Manager)
    → check_inactive limit now (check_inactive limit now m).1 ≡ check_inactive limit now m
unfolding check_inactive
check_inactive-twice limit now m =
    let (e, k) = check_loop-marked now limit m.workers m.stats 0 in
    let s = (check_loop now limit m.workers m.stats 0).1 in
    rw (e, k, marked-twice now limit m.workers s 0) refl
