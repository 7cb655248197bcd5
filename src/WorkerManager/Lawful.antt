-- ===== src/WorkerManager/Lawful.antt =====
-- `worker_manager_assign_job`, `worker_manager_complete_job` and `worker_manager_fail_job` change the
-- statistics without a look at the worker's status: the uses that respect it.
use c_simples.Prelude.{
  ◌=ℤ◌, ℕ, ◌+◌, ◌<◌, ◌≤◌, ◌≡◌, refl, sym, ap, ◌∙◌, inl, inr, true, Bool-cases, Option-cases, none,
  some, List, [], ◌∷◌, arith, pos, ℤ, set, count_if, dec, inc, dec_to, inc_to, bit, count_if-split,
  if◌then◌else◌,
}
use c_simples.WorkerManager.{
  Worker, Manager, Stats, find_worker_by_id, count_leaving, count_entering, count_release,
  check_loop, check_worker, check_inactive, Call, registers, unregisters, updates_status,
  updates_heartbeat, assigns_job, completes_job, fails_job, checks_inactive, step, is_idle, is_busy,
  update_status, update_heartbeat, assign_job, complete_job, fail_job, register, unregister, enroll,
  types_fit, natural, find_free_worker_slot, empty_worker, new_worker, occupied, succeeded,
  lost_job,
}
use c_simples.WorkerManager.Table.{Holds, find_worker_by_id-Holds, find_free_worker_slot-Holds}
use c_simples.WorkerManager.Statistics.{
  Class, idlers, toilers, tally, is_in, Counted, is_in-used, leave, move, check_worker-tally,
}

-- A job is given only to an idle worker, and only a busy worker is done with one.
abbrev pub Lawful : Manager → Call → Type 0
Lawful m (assigns_job id job_id) =
    (i : ℕ) (w : Worker) → find_worker_by_id m id ≡ some (i, w) → is_idle w ≡ true
Lawful m (completes_job id ms) =
    (i : ℕ) (w : Worker) → find_worker_by_id m id ≡ some (i, w) → is_busy w ≡ true
Lawful m (fails_job id) =
    (i : ℕ) (w : Worker) → find_worker_by_id m id ≡ some (i, w) → is_busy w ≡ true
Lawful m _ = Unit

-- One worker is replaced, and the statistics follow.
replaced :
    (m : Manager) (i : ℕ) (old new : Worker) (s : Stats)
    → Holds m.workers i old
    → ((c : Class) (a : ℕ)
        → tally c m.stats ≡ pos (bit (is_in c old) + a)
        → tally c s ≡ pos (bit (is_in c new) + a))
    → Counted m
    → Counted (record m { workers = set m.workers i new; stats = s })
unfolding Counted
replaced m i old new s a f counted c =
    let (rest, e, g) = count_if-split (is_in c) m.workers i old a in
    f c rest (counted c ∙ ap pos e) ∙ ap pos (sym (g new))

check_loop-tally :
    (c : Class) (now : ℕ) (limit : ℤ) (ws : List Worker) (s : Stats) (n k : ℕ)
    → tally c s ≡ pos (k + count_if (is_in c) ws)
    → tally c (check_loop now limit ws s n).1
      ≡ pos (k + count_if (is_in c) (check_loop now limit ws s n).0)
unfolding check_loop count_if
check_loop-tally c now limit [] s n k e = e
check_loop-tally c now limit (w ∷ ws) s n k e =
    let (w', s', n') = check_worker now limit w s n in
    let first =
      check_worker-tally c now limit w s n (k + count_if (is_in c) ws) (e ∙ ap pos (omega arith)) in
    check_loop-tally c now limit ws s' n' (k + bit (is_in c w')) (first ∙ ap pos (omega arith))
    ∙ ap pos (omega arith)

-- The changes of status of the three calls.
assigned-tally :
    (c : Class) (w : Worker) (job_id : ℤ) (s : Stats) (a : ℕ)
    → 0 < w.worker_id
    → is_idle w ≡ true
    → tally c s ≡ pos (bit (is_in c w) + a)
    → tally c (record s { idle_workers = dec s.idle_workers; busy_workers = inc s.busy_workers })
      ≡ pos (bit (is_in c (occupied w job_id)) + a)
assigned-tally idlers w job_id s a p i e = rw e (dec_to (ground arith))
assigned-tally toilers w job_id s a p i e = rw e (inc_to (ground arith))

released-tally :
    (c : Class) (old new : Worker) (s : Stats) (a : ℕ)
    → 0 < old.worker_id
    → new.worker_id ≡ old.worker_id
    → is_idle new ≡ true
    → is_busy old ≡ true
    → tally c s ≡ pos (bit (is_in c old) + a)
    → tally c (count_release s) ≡ pos (bit (is_in c new) + a)
released-tally idlers old new s a p q i b e = rw e (inc_to (ground arith))
released-tally toilers old new s a p q i b e = rw e (dec_to (ground arith))

registered-tally :
    (c : Class) (old new : Worker) (s : Stats) (a : ℕ)
    → old.worker_id ≡ 0
    → 0 < new.worker_id
    → is_idle new ≡ true
    → tally c s ≡ pos (bit (is_in c old) + a)
    → tally c (record s { total_workers = inc s.total_workers; idle_workers = inc s.idle_workers })
      ≡ pos (bit (is_in c new) + a)
registered-tally idlers old new s a z p i e = rw e (inc_to (ground arith))
registered-tally toilers old new s a z p i e = e ∙ ap pos (ground arith)

moved-tally :
    (c : Class) (w : Worker) (status : ℤ) (s : Stats) (a : ℕ)
    → 0 < w.worker_id
    → tally c s ≡ pos (bit (is_in c w) + a)
    → tally c (if w.status =ℤ status then s else count_entering status (count_leaving w.status s))
      ≡ pos (bit (is_in c (record w { status = status })) + a)
moved-tally c w status s a p e =
    let old = is_in-used c w p in
    let new = is_in-used c (record w { status = status }) p in
    move c w.status status s a (e ∙ ap (λ t. pos (bit t + a)) old)
    ∙ ap (λ t. pos (bit t + a)) (sym new)

gone-tally :
    (k : ℕ) (c : Class) (w : Worker) (s : Stats) (a : ℕ)
    → 0 < w.worker_id
    → tally c s ≡ pos (bit (is_in c w) + a)
    → tally c (count_leaving w.status (record s { total_workers = dec s.total_workers }))
      ≡ pos (bit (is_in c (empty_worker k)) + a)
gone-tally k c w s a p e =
    leave c w.status (record s { total_workers = dec s.total_workers }) a
      (total_only c s ∙ e ∙ ap (λ t. pos (bit t + a)) (is_in-used c w p))
    ∙ ap pos (empty_out c)
  where
    total_only :
        (c : Class) (s : Stats)
        → tally c (record s { total_workers = dec s.total_workers }) ≡ tally c s
    total_only idlers s = refl
    total_only toilers s = refl

    empty_out : (c : Class) → a ≡ bit (is_in c (empty_worker k)) + a
    empty_out c = omega arith

module _ (max_job_types : ℕ) where
  enroll-Counted :
      (socket : ℤ) (ip : List ℕ) (port : ℤ) (types : List ℤ) (n now : ℕ) (m : Manager)
      → 1 ≤ m.next_worker_id
      → Counted m
      → Counted (enroll max_job_types socket ip port types n now m).1
  unfolding Counted
  enroll-Counted socket ip port types n now m p v =
      elim (Option-cases (find_free_worker_slot m.workers)) [
        | inl e ↦ rw (e, enroll) v
        | inr (slot, e) ↦
            let (w, a, z) = find_free_worker_slot-Holds m.workers slot e in
            let new = new_worker max_job_types m.next_worker_id socket ip port types n now in
            rw (e, enroll)
              (replaced m slot w new _ a (λ c b h. registered-tally c w new m.stats b z p refl h) v)
      ]

  pub step-Counted :
      (c : Call) (m : Manager)
      → 1 ≤ m.next_worker_id
      → Counted m
      → Lawful m c
      → Counted (step max_job_types m c)
  unfolding step update_status update_heartbeat assign_job complete_job fail_job check_inactive
      register unregister Counted
  step-Counted (registers socket none port types n now) m q v l = v
  step-Counted (registers socket (some ip) port none n now) m q v l = v
  step-Counted (registers socket (some ip) port (some types) n now) m q v l =
      elim (Bool-cases (types_fit max_job_types n)) [
        | inl e ↦
            rw (e, step, register)
              (enroll-Counted socket ip port types (natural max_job_types n) now m q v)
        | inr e ↦ rw (e, step, register) v
      ]
  step-Counted (unregisters id) m q v l = elim (Option-cases (find_worker_by_id m id)) [
    | inl e ↦ rw (e, step, unregister) v
    | inr ((i, w), e) ↦
        let (a, _, p) = find_worker_by_id-Holds m id i w e in
        rw (e, step, unregister)
          (replaced m i w (empty_worker max_job_types) _ a
            (λ c b h. gone-tally max_job_types c w m.stats b p h) v)
  ]
  step-Counted (updates_status id status) m q v l = elim (Option-cases (find_worker_by_id m id)) [
    | inl e ↦ rw (e, step, update_status) v
    | inr ((i, w), e) ↦
        let (a, _, p) = find_worker_by_id-Holds m id i w e in
        rw (e, step, update_status)
          (replaced m i w (record w { status = status }) _ a
            (λ c b h. moved-tally c w status m.stats b p h) v)
  ]
  step-Counted (updates_heartbeat id now) m q v l = elim (Option-cases (find_worker_by_id m id)) [
    | inl e ↦ rw (e, step, update_heartbeat) v
    | inr ((i, w), e) ↦
        let (a, _, p) = find_worker_by_id-Holds m id i w e in
        rw (e, step, update_heartbeat)
          (replaced m i w (record w { last_heartbeat = now }) m.stats a (λ c b h. h) v)
  ]
  step-Counted (assigns_job id job_id) m q v l = elim (Option-cases (find_worker_by_id m id)) [
    | inl e ↦ rw (e, step, assign_job) v
    | inr ((i, w), e) ↦
        let (a, _, p) = find_worker_by_id-Holds m id i w e in
        rw (e, step, assign_job)
          (replaced m i w (occupied w job_id) _ a
            (λ c b h. assigned-tally c w job_id m.stats b p (l i w e) h) v)
  ]
  step-Counted (completes_job id ms) m q v l = elim (Option-cases (find_worker_by_id m id)) [
    | inl e ↦ rw (e, step, complete_job) v
    | inr ((i, w), e) ↦
        let (a, _, p) = find_worker_by_id-Holds m id i w e in
        rw (e, step, complete_job)
          (replaced m i w (succeeded w ms) _ a
            (λ c b h. released-tally c w (succeeded w ms) m.stats b p refl refl (l i w e) h) v)
  ]
  step-Counted (fails_job id) m q v l = elim (Option-cases (find_worker_by_id m id)) [
    | inl e ↦ rw (e, step, fail_job) v
    | inr ((i, w), e) ↦
        let (a, _, p) = find_worker_by_id-Holds m id i w e in
        rw (e, step, fail_job)
          (replaced m i w (lost_job w) _ a
            (λ c b h. released-tally c w (lost_job w) m.stats b p refl refl (l i w e) h) v)
  ]
  step-Counted (checks_inactive limit now) m q v l = λ c.
      check_loop-tally c now limit m.workers m.stats 0 0 (v c ∙ ap pos (omega arith))
      ∙ ap pos (omega arith)
