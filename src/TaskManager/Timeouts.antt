-- ===== src/TaskManager/Timeouts.antt =====
-- `task_manager_check_timeouts`: which tasks it marks, and what it reports.
use c_simples.Prelude.{
  ℕ, ◌≡◌, refl, ap, inl, inr, false, Bool-cases, List, [], ◌∷◌, arith, count_if, if◌then◌else◌,
}
use c_simples.TaskManager.{
  TaskInfo, Manager, has_timed_out, timed_out, timeout_loop, check_timeouts,
}

abbrev pub marked : ℕ → ℕ → TaskInfo → TaskInfo
marked now limit t = if has_timed_out now limit t then timed_out t else t

unfoldable pub mark_all : ℕ → ℕ → List TaskInfo → List TaskInfo
mark_all now limit [] = []
mark_all now limit (t ∷ ts) = marked now limit t ∷ mark_all now limit ts

pub timeout_loop-mark_all :
    (now limit : ℕ) (ts : List TaskInfo)
    → ((timeout_loop now limit ts).0 ≡ count_if (has_timed_out now limit) ts)
      × ((timeout_loop now limit ts).1 ≡ mark_all now limit ts)
unfolding timeout_loop mark_all count_if
timeout_loop-mark_all now limit [] = (refl, refl)
timeout_loop-mark_all now limit (t ∷ ts) =
    let (n, e) = timeout_loop-mark_all now limit ts in
    elim (Bool-cases (has_timed_out now limit t)) [
      | inl b ↦
          (rw (b, timeout_loop) (omega arith), rw (b, timeout_loop) (ap (◌∷◌ (timed_out t)) e))
      | inr b ↦ (rw (b, timeout_loop) (omega arith), rw (b, timeout_loop) (ap (◌∷◌ t) e))
    ]

marked_rests : (now limit : ℕ) (t : TaskInfo) → has_timed_out now limit (marked now limit t) ≡ false
marked_rests now limit t = elim (Bool-cases (has_timed_out now limit t)) [
  | inl b ↦ rw b refl
  | inr b ↦ rw b b
]

mark_all_rests :
    (now limit : ℕ) (ts : List TaskInfo)
    → timeout_loop now limit (mark_all now limit ts) ≡ (0, mark_all now limit ts)
unfolding timeout_loop mark_all
mark_all_rests now limit [] = refl
mark_all_rests now limit (t ∷ ts) = rw (mark_all_rests now limit ts, marked_rests now limit t) refl

-- A check marks as timed out exactly the assigned tasks that were assigned, at a time other than 0,
-- longer ago than the limit, keeps the others, and returns their number; a second check at the same
-- time returns 0 and changes nothing.
pub check_timeouts_lem :
    (limit now : ℕ) (m : Manager)
    → ((check_timeouts limit now m).0 ≡ count_if (has_timed_out now limit) m.tasks)
      × ((check_timeouts limit now m).1.tasks ≡ mark_all now limit m.tasks)
      × (check_timeouts limit now (check_timeouts limit now m).1
          ≡ (0, (check_timeouts limit now m).1))
unfolding check_timeouts
check_timeouts_lem limit now m =
    let (n, e) = timeout_loop-mark_all now limit m.tasks in
    (n, e, rw (e, mark_all_rests now limit m.tasks) refl)
