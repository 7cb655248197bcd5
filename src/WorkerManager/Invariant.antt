-- ===== src/WorkerManager/Invariant.antt =====
-- worker_manager.c: the worker numbers and the total under each call.
use c_simples.Prelude.{
  ◌=ℤ◌, ℕ, zero, suc, ◌≡◌, refl, ap, inl, inr, true, Bool-cases, Option-cases, Option, none, some,
  List, [], ◌∷◌, arith, pos, ℤ, set, replicate, ◌<◌, get_elem?, All-replicate, count_if-replicate,
  dec, ◌∙◌, if◌then◌else◌,
}
use c_simples.WorkerManager.{
  Worker, Manager, Stats, Call, registers, unregisters, updates_status, updates_heartbeat,
  assigns_job, completes_job, fails_job, checks_inactive, step, run, register, unregister, init,
  update_status, update_heartbeat, assign_job, complete_job, fail_job, check_inactive, check_loop,
  check_worker, find_worker_by_id, find_free_worker_slot, count_leaving, count_entering, enroll,
  natural, types_fit, empty_worker, new_worker, occupied, succeeded, lost_job, count_release,
}
use c_simples.WorkerManager.Table.{Holds, find_worker_by_id-Holds, find_free_worker_slot-Holds}
use c_simples.WorkerManager.Roster.{
  Roster, ids, ids-set, ids-kept, ids-Holds, in_use, Roster-register, Roster-unregister,
}

-- The workers' numbers are distinct and below the next one, and `g_total_workers` counts them.
abbrev pub IsSound : Manager → Type 0
IsSound m = Roster m.next_worker_id m.stats.total_workers (ids m.workers)

leaving-total : (status : ℤ) (s : Stats) → (count_leaving status s).total_workers ≡ s.total_workers
leaving-total status s = ground arith

entering-total :
    (status : ℤ) (s : Stats) → (count_entering status s).total_workers ≡ s.total_workers
entering-total status s = ground arith

-- One worker is replaced by one of the same number.
replaced :
    (m : Manager) (i : ℕ) (old new : Worker) (s : Stats)
    → Holds m.workers i old
    → new.worker_id ≡ old.worker_id
    → s.total_workers ≡ m.stats.total_workers
    → IsSound m
    → IsSound (record m { workers = set m.workers i new; stats = s })
replaced m i old new s a e t v = rw (ids-kept m.workers i old new a e, t) v

check_worker-id :
    (now : ℕ) (limit : ℤ) (w : Worker) (s : Stats) (n : ℕ)
    → ((check_worker now limit w s n).0.worker_id ≡ w.worker_id)
      × ((check_worker now limit w s n).1.total_workers ≡ s.total_workers)
unfolding check_worker
check_worker-id now limit w s n = (ground arith, ground arith)

check_loop-ids :
    (now : ℕ) (limit : ℤ) (ws : List Worker) (s : Stats) (n : ℕ)
    → (ids (check_loop now limit ws s n).0 ≡ ids ws)
      × ((check_loop now limit ws s n).1.total_workers ≡ s.total_workers)
unfolding check_loop ids
check_loop-ids now limit [] s n = (refl, refl)
check_loop-ids now limit (w ∷ ws) s n =
    let (_, s', n') = check_worker now limit w s n in
    let (e, t) = check_worker-id now limit w s n in
    let (es, ts) = check_loop-ids now limit ws s' n' in (rw (e, es) refl, rw (ts, t) refl)

ids-empty : (k n : ℕ) → ids (replicate n (empty_worker k)) ≡ replicate n 0
unfolding ids
ids-empty k zero = refl
ids-empty k (suc n) = ap (◌∷◌ 0) (ids-empty k n)

Roster-empty : (n : ℕ) → Roster 1 (pos 0) (replicate n 0)
Roster-empty n = record {
  some_number = omega arith;
  below = All-replicate (λ k. k < 1) n 0 (omega arith);
  distinct = λ i j k p ei ej. absurd (free_only n i k p ei);
  counted = rw (count_if-replicate in_use n 0 refl) refl;
}
  where
    free_only : (n i k : ℕ) → 0 < k → get_elem? (replicate n 0) i ≡ some k → ⊥
    free_only zero i k p e = cc
    free_only (suc n) zero k p e = ground arith
    free_only (suc n) (suc i) k p e = free_only n i k p e

module _ (max_job_types : ℕ) where
  enroll-IsSound :
      (socket : ℤ) (ip : List ℕ) (port : ℤ) (types : List ℤ) (n now : ℕ) (m : Manager)
      → IsSound m
      → IsSound (enroll max_job_types socket ip port types n now m).1
  enroll-IsSound socket ip port types n now m v =
      elim (Option-cases (find_free_worker_slot m.workers)) [
        | inl e ↦ rw (e, enroll) v
        | inr (slot, e) ↦
            let (w, a, z) = find_free_worker_slot-Holds m.workers slot e in
            let new = new_worker max_job_types m.next_worker_id socket ip port types n now in
            let free : get_elem? (ids m.workers) slot ≡ some 0 =
              ids-Holds m.workers slot w a ∙ ap some z in
            rw (e, enroll, ids-set m.workers slot new)
              (Roster-register m.next_worker_id m.stats.total_workers (ids m.workers) slot free v)
      ]

  register-IsSound :
      (socket : ℤ) (ip : Option (List ℕ)) (port : ℤ) (types : Option (List ℤ)) (n : ℤ) (now : ℕ)
      (m : Manager)
      → IsSound m
      → IsSound (register max_job_types socket ip port types n now m).1
  unfolding register
  register-IsSound socket none port types n now m v = v
  register-IsSound socket (some ip) port none n now m v = v
  register-IsSound socket (some ip) port (some types) n now m v =
      elim (Bool-cases (types_fit max_job_types n)) [
        | inl e ↦ rw e (enroll-IsSound socket ip port types (natural max_job_types n) now m v)
        | inr e ↦ rw e v
      ]

  unregister-IsSound :
      (id : ℤ) (m : Manager) → IsSound m → IsSound (unregister max_job_types id m).1
  unfolding unregister
  unregister-IsSound id m v = elim (Option-cases (find_worker_by_id m id)) [
    | inl e ↦ rw (e, unregister) v
    | inr ((i, w), e) ↦
        let (a, _, p) = find_worker_by_id-Holds m id i w e in
        let s : Stats = record m.stats { total_workers = dec m.stats.total_workers } in
        rw
          (
            e,
            unregister,
            ids-set m.workers i (empty_worker max_job_types),
            leaving-total w.status s,
          )
          (Roster-unregister m.next_worker_id m.stats.total_workers (ids m.workers) i w.worker_id
            (ids-Holds m.workers i w a) p v)
  ]

  abbrev restated : ℤ → Worker → Stats → Stats
  restated status w s =
      if w.status =ℤ status then s else count_entering status (count_leaving w.status s)

  status_total :
      (m : Manager) (status : ℤ) (w : Worker)
      → (restated status w m.stats).total_workers ≡ m.stats.total_workers
  status_total m status w = ground arith

  pub step-IsSound : (c : Call) (m : Manager) → IsSound m → IsSound (step max_job_types m c)
  unfolding step update_status update_heartbeat assign_job complete_job fail_job check_inactive
  step-IsSound (registers socket ip port types n now) m v =
      register-IsSound socket ip port types n now m v
  step-IsSound (unregisters id) m v = unregister-IsSound id m v
  step-IsSound (updates_status id status) m v = elim (Option-cases (find_worker_by_id m id)) [
    | inl e ↦ rw (e, step, update_status) v
    | inr ((i, w), e) ↦
        let (a, _, _) = find_worker_by_id-Holds m id i w e in
        rw (e, step, update_status)
          (replaced m i w (record w { status = status }) (restated status w m.stats) a refl
            (status_total m status w) v)
  ]
  step-IsSound (updates_heartbeat id now) m v = elim (Option-cases (find_worker_by_id m id)) [
    | inl e ↦ rw (e, step, update_heartbeat) v
    | inr ((i, w), e) ↦
        let (a, _, _) = find_worker_by_id-Holds m id i w e in
        rw (e, step, update_heartbeat)
          (replaced m i w (record w { last_heartbeat = now }) m.stats a refl refl v)
  ]
  step-IsSound (assigns_job id job_id) m v = elim (Option-cases (find_worker_by_id m id)) [
    | inl e ↦ rw (e, step, assign_job) v
    | inr ((i, w), e) ↦
        let (a, _, _) = find_worker_by_id-Holds m id i w e in
        rw (e, step, assign_job) (replaced m i w (occupied w job_id) m.stats a refl refl v)
  ]
  step-IsSound (completes_job id ms) m v = elim (Option-cases (find_worker_by_id m id)) [
    | inl e ↦ rw (e, step, complete_job) v
    | inr ((i, w), e) ↦
        let (a, _, _) = find_worker_by_id-Holds m id i w e in
        rw (e, step, complete_job)
          (replaced m i w (succeeded w ms) (count_release m.stats) a refl refl v)
  ]
  step-IsSound (fails_job id) m v = elim (Option-cases (find_worker_by_id m id)) [
    | inl e ↦ rw (e, step, fail_job) v
    | inr ((i, w), e) ↦
        let (a, _, _) = find_worker_by_id-Holds m id i w e in
        rw (e, step, fail_job) (replaced m i w (lost_job w) (count_release m.stats) a refl refl v)
  ]
  step-IsSound (checks_inactive limit now) m v =
      let (e, t) = check_loop-ids now limit m.workers m.stats 0 in rw (e, t) v

  -- From a state where the worker numbers are distinct, below the next number, and as many as
  -- `g_total_workers`, any sequence of calls, in any order and with any arguments, leads to such a state.
  pub run-IsSound : (cs : List Call) (m : Manager) → IsSound m → IsSound (run max_job_types m cs)
  unfolding run
  run-IsSound [] m v = v
  run-IsSound (c ∷ cs) m v = run-IsSound cs (step max_job_types m c) (step-IsSound c m v)

  -- If the total is 0, the table that `worker_manager_init` makes with a positive size, when
  -- `calloc` succeeds, has distinct worker numbers below the next one, as many as `g_total_workers`.
  pub init-IsSound :
      (n : ℕ) (m : Manager)
      → m.stats.total_workers ≡ pos 0
      → IsSound (init max_job_types (pos (suc n)) true m).1
  unfolding init
  init-IsSound n m e = rw (ids-empty max_job_types (suc n), e) (Roster-empty (suc n))
