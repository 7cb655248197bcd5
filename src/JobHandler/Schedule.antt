-- ===== src/JobHandler/Schedule.antt =====
-- Which job `job_handler_assign` takes.
use c_simples.Prelude.{
  ℕ, zero, suc, ◌≤◌, ◌≡◌, sym, inl, inr, true, Option, none, some, List, [], ◌∷◌, arith, ℤ, subst,
  Option-cases, Bool-cases, ◌&&◌, some_eq,
}
use c_simples.JobHandler.{Job, Handler, Sent, assign_begin, oldest_loop, is_pending, is_older}
use c_simples.JobHandler.Table.{At, oldest_loop-PendingAt}
use c_simples.JobHandler.Moves.{IsWaiting, IsWaiting-of_test}

-- The result of the scan is no younger than the candidate `best` and than each pending job.
abbrev NoYounger : Option (ℕ × Job) → Job → Type 0
NoYounger none j = ⊥
NoYounger (some (k, b)) j = b.submit_time ≤ j.submit_time

NoYounger-best :
    (js : List Job) (i k : ℕ) (b j : Job)
    → b.submit_time ≤ j.submit_time
    → NoYounger (oldest_loop i (some (k, b)) js) j
unfolding oldest_loop
NoYounger-best [] i k b j l = l
NoYounger-best (x ∷ js) i k b j l = elim (Bool-cases (is_pending x && is_older x (some (k, b)))) [
  | inl y ↦ rw y (NoYounger-best js (suc i) i x j (ground arith))
  | inr n ↦ rw n (NoYounger-best js (suc i) k b j l)
]

scan_first :
    (js : List Job) (i : ℕ) (best : Option (ℕ × Job)) (j : Job)
    → is_pending j ≡ true
    → NoYounger (oldest_loop i best (j ∷ js)) j
unfolding oldest_loop
scan_first js i none j p = rw p (NoYounger-best js (suc i) i j j (omega arith))
scan_first js i (some (k, b)) j p = elim (Bool-cases (is_older j (some (k, b)))) [
  | inl y ↦ rw (p, y) (NoYounger-best js (suc i) i j j (omega arith))
  | inr n ↦ rw (p, n) (NoYounger-best js (suc i) k b j (ground arith))
]

scan-NoYounger :
    (js : List Job) (i : ℕ) (best : Option (ℕ × Job)) (k : ℕ) (j : Job)
    → At js k j
    → is_pending j ≡ true
    → NoYounger (oldest_loop i best js) j
unfolding oldest_loop
scan-NoYounger [] i best k j a p = cc
scan-NoYounger (x ∷ js) i best zero j a p =
    subst (λ y. NoYounger (oldest_loop i best (y ∷ js)) j) (sym (some_eq a))
      (scan_first js i best j p)
scan-NoYounger (x ∷ js) i best (suc k) j a p = scan-NoYounger js (suc i) _ k j a p

test_of_waiting : (j : Job) → IsWaiting j → is_pending j ≡ true
test_of_waiting j w = ground arith

begin_idle :
    (worker : ℤ) (now : ℕ) (h : Handler)
    → assign_begin worker now h ≡ none
    → oldest_loop 0 none h.jobs ≡ none
unfolding assign_begin
begin_idle worker now h e = elim (Option-cases (oldest_loop 0 none h.jobs)) [
  | inl n ↦ n
  | inr ((i, j), f) ↦ let bad = rw (f, assign_begin) at e in cc bad
]

begin_found :
    (worker : ℤ) (now : ℕ) (h h' : Handler) (id : ℕ) (m : Sent)
    → assign_begin worker now h ≡ some (id, m, h')
    → (i : ℕ) × (j : Job) × (oldest_loop 0 none h.jobs ≡ some (i, j)) × (j.job_id ≡ id)
unfolding assign_begin
begin_found worker now h h' id m e = elim (Option-cases (oldest_loop 0 none h.jobs)) [
  | inl n ↦ let bad = rw (n, assign_begin) at e in cc bad
  | inr ((i, j), f) ↦ let same = rw (f, assign_begin) at e in (i, j, f, ground arith)
]

-- `job_handler_assign` finds nothing exactly when no job waits.
pub assign_begin-none :
    (worker : ℤ) (now : ℕ) (h : Handler)
    → assign_begin worker now h ≡ none
    → (k : ℕ) (j : Job) → At h.jobs k j
    → ¬ IsWaiting j
assign_begin-none worker now h e k j a w =
    subst (λ r. NoYounger r j) (begin_idle worker now h e)
      (scan-NoYounger h.jobs 0 none k j a (test_of_waiting j w))

-- The job that `job_handler_assign` takes waits in the table, and no waiting job was submitted
-- before it.
pub assign_begin_oldest :
    (worker : ℤ) (now : ℕ) (h h' : Handler) (id : ℕ) (m : Sent)
    → assign_begin worker now h ≡ some (id, m, h')
    → (i : ℕ) × (j : Job) × At h.jobs i j
      × IsWaiting j
      × (j.job_id ≡ id)
      × ((k : ℕ) (j' : Job) → At h.jobs k j' → IsWaiting j' → j.submit_time ≤ j'.submit_time)
assign_begin_oldest worker now h h' id m e =
    let (i, j, f, q) = begin_found worker now h h' id m e in
    let (a, p) = oldest_loop-PendingAt h.jobs i j f in
    (
      i,
      j,
      a,
      IsWaiting-of_test j p,
      q,
      λ k j' b w.
          subst (λ r. NoYounger r j') f
            (scan-NoYounger h.jobs 0 none k j' b (test_of_waiting j' w)),
    )
