-- ===== src/WorkerManager/Drift.antt =====
-- The idle and busy statistics of the worker manager under calls that are not lawful.
use c_simples.Prelude.{
  ◌=ℤ◌, ℕ, ◌<◌, ◌≤◌, ◌≡◌, ◌↔◌, refl, sym, ap, ◌∙◌, inl, inr, true, false, Bool-cases, arith, pos,
  set, count_if, dec, dec_ne, bit, count_if-split,
}
use c_simples.WorkerManager.{
  Worker, Manager, Call, registers, unregisters, updates_status, updates_heartbeat, assigns_job,
  completes_job, fails_job, checks_inactive, step, is_idle, is_busy, assign_job, complete_job,
  fail_job, occupied, succeeded, lost_job,
}
use c_simples.WorkerManager.Table.{Holds, find_worker_by_id-Holds}
use c_simples.WorkerManager.Lawful.{Lawful, step-Counted}
use c_simples.WorkerManager.Statistics.{
  Class, idlers, toilers, value, tally, is_in, Counted, is_in-used,
}

-- A statistic that went down by one and still counts the workers of its class has lost one: the worker
-- that was written was in the class.
was_in :
    (c : Class) (m : Manager) (i : ℕ) (w new : Worker)
    → Holds m.workers i w
    → 0 < w.worker_id
    → is_in c new ≡ false
    → Counted m
    → dec (tally c m.stats) ≡ pos (count_if (is_in c) (set m.workers i new))
    → (w.status =ℤ value c) ≡ true
unfolding Counted
was_in c m i w new a p out v after = elim (Bool-cases (w.status =ℤ value c)) [
  | inl b ↦ b
  | inr b ↦
      let (rest, e, g) = count_if-split (is_in c) m.workers i w a in
      let was : bit (is_in c w) ≡ 0 = ap bit (is_in-used c w p ∙ b) in
      let now : bit (is_in c new) ≡ 0 = ap bit out in
      let before : tally c m.stats ≡ pos rest = v c ∙ ap pos (omega arith) in
      absurd (dec_ne (tally c m.stats) (after ∙ ap pos (omega (arith, g new)) ∙ sym before))
]

not_toiling : (w : Worker) → is_idle w ≡ true → is_in toilers w ≡ false
not_toiling w e = ground arith

not_idling : (w : Worker) → is_busy w ≡ true → is_in idlers w ≡ false
not_idling w e = ground arith

module _ (max_job_types : ℕ) where
  Counted-Lawful :
      (c : Call) (m : Manager) → Counted m → Counted (step max_job_types m c) → Lawful m c
  unfolding step assign_job complete_job fail_job Counted
  Counted-Lawful (registers socket ip port types n now) m v after = tt
  Counted-Lawful (unregisters id) m v after = tt
  Counted-Lawful (updates_status id status) m v after = tt
  Counted-Lawful (updates_heartbeat id now) m v after = tt
  Counted-Lawful (assigns_job id job_id) m v after = λ i w e.
      let (a, _, p) = find_worker_by_id-Holds m id i w e in
      was_in idlers m i w (occupied w job_id) a p (not_idling (occupied w job_id) refl) v
        (rw (e, step, assign_job) at (after idlers))
  Counted-Lawful (completes_job id ms) m v after = λ i w e.
      let (a, _, p) = find_worker_by_id-Holds m id i w e in
      was_in toilers m i w (succeeded w ms) a p (not_toiling (succeeded w ms) refl) v
        (rw (e, step, complete_job) at (after toilers))
  Counted-Lawful (fails_job id) m v after = λ i w e.
      let (a, _, p) = find_worker_by_id-Holds m id i w e in
      was_in toilers m i w (lost_job w) a p (not_toiling (lost_job w) refl) v
        (rw (e, step, fail_job) at (after toilers))
  Counted-Lawful (checks_inactive limit now) m v after = tt

  -- While the next worker number is positive and the idle and busy statistics count the idle and the
  -- busy workers, they do so after a call exactly when it gives a job only to an idle worker and
  -- ends one only of a busy worker.
  pub step-Counted-Lawful :
      (c : Call) (m : Manager)
      → 1 ≤ m.next_worker_id
      → Counted m
      → Counted (step max_job_types m c) ↔ Lawful m c
  step-Counted-Lawful c m q v = (Counted-Lawful c m v, step-Counted max_job_types c m q v)
