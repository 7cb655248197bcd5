-- ===== src/WorkerRegistry/Timeouts.antt =====
-- `worker_registry_check_timeouts`: which workers it marks, and what it reports.
use c_simples.Prelude.{
  ℕ, ◌≡◌, refl, ap, inl, inr, false, Bool-cases, List, [], ◌∷◌, arith, count_if, if◌then◌else◌,
}
use c_simples.WorkerRegistry.{
  WorkerInfo, Registry, is_silent, dropped, timeout_loop, check_timeouts,
}

abbrev pub marked : ℕ → ℕ → WorkerInfo → WorkerInfo
marked now limit w = if is_silent now limit w then dropped w else w

unfoldable pub mark_all : ℕ → ℕ → List WorkerInfo → List WorkerInfo
mark_all now limit [] = []
mark_all now limit (w ∷ ws) = marked now limit w ∷ mark_all now limit ws

pub timeout_loop-mark_all :
    (now limit : ℕ) (ws : List WorkerInfo)
    → ((timeout_loop now limit ws).0 ≡ count_if (is_silent now limit) ws)
      × ((timeout_loop now limit ws).1 ≡ mark_all now limit ws)
unfolding timeout_loop mark_all count_if
timeout_loop-mark_all now limit [] = (refl, refl)
timeout_loop-mark_all now limit (w ∷ ws) =
    let (n, e) = timeout_loop-mark_all now limit ws in
    elim (Bool-cases (is_silent now limit w)) [
      | inl b ↦ (rw (b, timeout_loop) (omega arith), rw (b, timeout_loop) (ap (◌∷◌ (dropped w)) e))
      | inr b ↦ (rw (b, timeout_loop) (omega arith), rw (b, timeout_loop) (ap (◌∷◌ w) e))
    ]

marked_rests : (now limit : ℕ) (w : WorkerInfo) → is_silent now limit (marked now limit w) ≡ false
marked_rests now limit w = elim (Bool-cases (is_silent now limit w)) [
  | inl b ↦ rw b refl
  | inr b ↦ rw b b
]

mark_all_rests :
    (now limit : ℕ) (ws : List WorkerInfo)
    → timeout_loop now limit (mark_all now limit ws) ≡ (0, mark_all now limit ws)
unfolding timeout_loop mark_all
mark_all_rests now limit [] = refl
mark_all_rests now limit (w ∷ ws) = rw (mark_all_rests now limit ws, marked_rests now limit w) refl

-- A check marks as disconnected exactly the workers that were not, and whose last heartbeat is older
-- than the limit, keeps the others, and returns their number; a second check at the same time returns
-- 0 and changes nothing.
pub check_timeouts-mark_all :
    (limit now : ℕ) (r : Registry)
    → ((check_timeouts limit now r).0 ≡ count_if (is_silent now limit) r.workers)
      × ((check_timeouts limit now r).1.workers ≡ mark_all now limit r.workers)
      × (check_timeouts limit now (check_timeouts limit now r).1
          ≡ (0, (check_timeouts limit now r).1))
unfolding check_timeouts
check_timeouts-mark_all limit now r =
    let (n, e) = timeout_loop-mark_all now limit r.workers in
    (n, e, rw (e, mark_all_rests now limit r.workers) refl)
