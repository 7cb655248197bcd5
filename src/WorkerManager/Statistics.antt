-- ===== src/WorkerManager/Statistics.antt =====
-- worker_manager.c: `g_idle_workers` and `g_busy_workers` against the table.
use c_simples.Prelude.{
  ◌=ℤ◌, ℕ, ◌+◌, ◌<◌, ◌≡◌, refl, sym, ap, ◌∙◌, inl, inr, Bool, true, false, Bool-cases, arith, pos,
  negsuc, ℤ, count_if, not, ◌&&◌, ◌==◌, dec, inc, dec_to, inc_to, bit, if◌then◌else◌,
}
use c_simples.WorkerManager.{
  Worker, Manager, Stats, count_leaving, count_entering, is_silent, worker_idle, worker_busy,
  worker_offline, check_worker,
}

-- The two statistics that depend on the status.
pub data Class : Type 0 where
  idlers toilers : Class

abbrev pub value : Class → ℤ
value idlers = worker_idle
value toilers = worker_busy

abbrev pub tally : Class → Stats → ℤ
tally idlers s = s.idle_workers
tally toilers s = s.busy_workers

abbrev pub is_in : Class → Worker → Bool
is_in c w = not (w.worker_id == 0) && (w.status =ℤ value c)

-- Both statistics count the workers of their status.
unfoldable pub Counted : Manager → Type 0
Counted m = (c : Class) → tally c m.stats ≡ pos (count_if (is_in c) m.workers)

pub is_in-used : (c : Class) (w : Worker) → 0 < w.worker_id → is_in c w ≡ (w.status =ℤ value c)
is_in-used c w p = ground arith

not_idle : (status : ℤ) → (status =ℤ worker_busy) ≡ true → (status =ℤ worker_idle) ≡ false
not_idle (pos n) b = ground arith
not_idle (negsuc n) b = refl

pub leave :
    (c : Class) (status : ℤ) (s : Stats) (a : ℕ)
    → tally c s ≡ pos (bit (status =ℤ value c) + a)
    → tally c (count_leaving status s) ≡ pos a
leave idlers status s a e = elim (Bool-cases (status =ℤ worker_idle)) [
  | inl b ↦ rw b (rw (rw b at e) (dec_to (omega arith)))
  | inr b ↦ rw b (count_busy-idle (status =ℤ worker_busy) (rw b at e ∙ ap pos (omega arith)))
]
  where
    count_busy-idle :
        (t : Bool)
        → s.idle_workers ≡ pos a
        → (if t then record s { busy_workers = dec s.busy_workers } else s).idle_workers ≡ pos a
    count_busy-idle true e = e
    count_busy-idle false e = e
leave toilers status s a e = elim (Bool-cases (status =ℤ worker_busy)) [
  | inl b ↦ rw (not_idle status b, b) (rw (rw b at e) (dec_to (omega arith)))
  | inr b ↦ rw b (count_idle-busy (status =ℤ worker_idle) (rw b at e ∙ ap pos (omega arith)))
]
  where
    count_idle-busy :
        (t : Bool)
        → s.busy_workers ≡ pos a
        → (if t then record s { idle_workers = dec s.idle_workers } else s).busy_workers ≡ pos a
    count_idle-busy true e = e
    count_idle-busy false e = e

pub enter :
    (c : Class) (status : ℤ) (s : Stats) (a : ℕ)
    → tally c s ≡ pos a
    → tally c (count_entering status s) ≡ pos (bit (status =ℤ value c) + a)
enter idlers status s a e = elim (Bool-cases (status =ℤ worker_idle)) [
  | inl b ↦ rw b (rw e (inc_to (omega arith)))
  | inr b ↦ rw b (count_busy-idle (status =ℤ worker_busy) (e ∙ ap pos (omega arith)))
]
  where
    count_busy-idle :
        (t : Bool)
        → s.idle_workers ≡ pos (0 + a)
        → (if t then record s { busy_workers = inc s.busy_workers } else s).idle_workers
          ≡ pos (0 + a)
    count_busy-idle true e = e
    count_busy-idle false e = e
enter toilers status s a e = elim (Bool-cases (status =ℤ worker_busy)) [
  | inl b ↦ rw (not_idle status b, b) (rw e (inc_to (omega arith)))
  | inr b ↦ rw b (count_idle-busy (status =ℤ worker_idle) (e ∙ ap pos (omega arith)))
]
  where
    count_idle-busy :
        (t : Bool)
        → s.busy_workers ≡ pos (0 + a)
        → (if t then record s { idle_workers = inc s.idle_workers } else s).busy_workers
          ≡ pos (0 + a)
    count_idle-busy true e = e
    count_idle-busy false e = e

-- The statistics follow a change of status from the old to the new one.
pub move :
    (c : Class) (before after : ℤ) (s : Stats) (a : ℕ)
    → tally c s ≡ pos (bit (before =ℤ value c) + a)
    → tally c (if before =ℤ after then s else count_entering after (count_leaving before s))
      ≡ pos (bit (after =ℤ value c) + a)
move c before after s a e = elim (Bool-cases (before =ℤ after)) [
  | inl b ↦ rw (b, ← =ℤ-eq before after b) e
  | inr b ↦ rw b (enter c after (count_leaving before s) a (leave c before s a e))
]
  where
    =ℤ-eq : (a b : ℤ) → (a =ℤ b) ≡ true → a ≡ b
    =ℤ-eq (pos m) (pos n) e = ap pos (ground arith)
    =ℤ-eq (pos m) (negsuc n) e = cc
    =ℤ-eq (negsuc m) (pos n) e = cc
    =ℤ-eq (negsuc m) (negsuc n) e = ap negsuc (ground arith)

pub check_worker-tally :
    (c : Class) (now : ℕ) (limit : ℤ) (w : Worker) (s : Stats) (n a : ℕ)
    → tally c s ≡ pos (bit (is_in c w) + a)
    → tally c (check_worker now limit w s n).1
      ≡ pos (bit (is_in c (check_worker now limit w s n).0) + a)
unfolding check_worker
check_worker-tally c now limit w s n a e =
    elim (Bool-cases (not (w.worker_id == 0) && is_silent now limit w)) [
      | inl b ↦
          let p : 0 < w.worker_id = used w (is_silent now limit w) b in
          let off = record w { status = worker_offline } in
          let lost = leave c w.status s a (e ∙ ap (λ t. pos (bit t + a)) (is_in-used c w p)) in
          let none : a ≡ 0 + a = omega arith in
          rw (b, check_worker)
            (lost ∙ ap pos none ∙ ap (λ t. pos (bit t + a)) (sym (offline_out c off refl)))
      | inr b ↦ rw (b, check_worker) e
    ]
  where
    used : (w : Worker) (t : Bool) → (not (w.worker_id == 0) && t) ≡ true → 0 < w.worker_id
    used w t b = ground arith

    offline_out : (c : Class) (w : Worker) → w.status ≡ worker_offline → is_in c w ≡ false
    offline_out idlers w e = rw e (ground arith)
    offline_out toilers w e = rw e (ground arith)
