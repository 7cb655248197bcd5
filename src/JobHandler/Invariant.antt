-- ===== src/JobHandler/Invariant.antt =====
-- job_handler.c: the invariant of the job table, and the moves.
use c_simples.Prelude.{
  ℕ, ◌+◌, ◌≤◌, ◌<◌, ◌≡◌, refl, ap, ◌∙◌, ◌⊎◌, inl, inr, arith, length, set, subst, All, All-set,
  All-get, length-set,
}
use native.Mathlib.Numerals.{add-one}
use c_simples.JobHandler.{
  Job, JobStatus, pending, assigned, completed, failed, timeout, Stats, Handler, Limits, no_socket,
  new_job, taken, retried, given_up,
}
use c_simples.JobHandler.Table.{At, find_free_job_slot-At}
use c_simples.JobHandler.Counts.{
  unused, queued, running, lost, kind, kind_of, Counts, Counts-submit, Counts-assign,
  Counts-requeue, Counts-complete, Counts-fail,
}
use c_simples.JobHandler.Moves.{
  Move, enqueue, take, finish, retry, give_up, Moves, stay, after, IsRunning, IsWaiting, IsFailure,
}
use c_simples.JobHandler.Numbering.{Numbered, Numbered-set, Numbered-submit, free_slot-number}

-- What the fields of a job in each state are.
abbrev pub StatusOk : ℕ → JobStatus → Job → Type 0
StatusOk m pending j =
    (j.worker_socket ≡ no_socket) × (j.start_time ≡ 0) × (j.end_time ≡ 0) × (j.retry_count < m)
StatusOk m assigned j = (j.end_time ≡ 0) × (j.retry_count < m)
StatusOk m completed j = j.retry_count < m
StatusOk m failed j = j.retry_count ≡ m
StatusOk m timeout j = j.retry_count ≡ m

abbrev pub JobOk : ℕ → Job → Type 0
JobOk m j = (j.job_id ≡ 0) ⊎ StatusOk m j.status j

-- Entry `i` holds job `i + 1`; each statistic counts the jobs of its state; a job waits or runs only
-- with attempts left, and has failed for good exactly when it has used them all.
pub record IsValid (limits : Limits) (h : Handler) : Type 0 where
  pub numbered : Numbered 1 h.next_job_id h.jobs
  pub some_number : 1 ≤ h.next_job_id
  pub in_table : h.next_job_id ≤ length h.jobs + 1
  pub jobs_ok : All (JobOk limits.max_retries) h.jobs
  pub counted : Counts h.stats h.jobs

pub waiting_ok :
    (m : ℕ) (j : Job)
    → JobOk m j
    → IsWaiting j
    → (j.worker_socket ≡ no_socket) × (j.start_time ≡ 0) × (j.end_time ≡ 0) × (j.retry_count < m)
waiting_ok m j (inl e) w = absurd (omega arith)
waiting_ok m j (inr ok) w = subst (λ s. StatusOk m s j) w.1 ok

pub running_ok :
    (m : ℕ) (j : Job) → JobOk m j → IsRunning j → (j.end_time ≡ 0) × (j.retry_count < m)
running_ok m j (inl e) r = absurd (omega arith)
running_ok m j (inr ok) r = subst (λ s. StatusOk m s j) r.1 ok

failure_ok : (m : ℕ) (s : JobStatus) (j : Job) → IsFailure s → j.retry_count ≡ m → StatusOk m s j
failure_ok m s j (inl e) q = rw e q
failure_ok m s j (inr e) q = rw e q

unused_kind : (j : Job) → j.job_id ≡ 0 → kind j ≡ unused
unused_kind j e = ground arith

active_kind : (j : Job) → 0 < j.job_id → kind j ≡ kind_of j.status
active_kind j p = ground arith

waiting_kind : (j : Job) → IsWaiting j → kind j ≡ queued
waiting_kind j w = active_kind j w.0 ∙ ap kind_of w.1

running_kind : (j : Job) → IsRunning j → kind j ≡ running
running_kind j r = active_kind j r.0 ∙ ap kind_of r.1

failure_kind : (s : JobStatus) → IsFailure s → kind_of s ≡ lost
failure_kind s (inl e) = ap kind_of e
failure_kind s (inr e) = ap kind_of e

-- One job is replaced by one of the same number.
module _ (limits : Limits) where
  IsValid-set :
      (h : Handler) (s : Stats) (i : ℕ) (old new : Job)
      → IsValid limits h
      → At h.jobs i old
      → new.job_id ≡ old.job_id
      → JobOk limits.max_retries new
      → Counts s (set h.jobs i new)
      → IsValid limits (record h { jobs = set h.jobs i new; stats = s })
  IsValid-set h s i old new v a e ok c = record {
    numbered = Numbered-set 1 h.next_job_id h.jobs i old new a e v.numbered;
    some_number = v.some_number;
    in_table = omega (arith, v.in_table, length-set h.jobs i new);
    jobs_ok = All-set (JobOk limits.max_retries) h.jobs i new v.jobs_ok ok;
    counted = c;
  }

  pub Move-IsValid :
      {h h' : Handler}
      → 0 < limits.max_retries
      → Move limits h h'
      → IsValid limits h
      → IsValid limits h'
  Move-IsValid {h} p (enqueue i client job_type bytes size now e) v =
      let (old, a, z) = find_free_job_slot-At h.jobs i e in
      let (q, l) =
        free_slot-number 1 h.next_job_id h.jobs i (omega arith) v.some_number v.numbered e in
      let new = new_job h.next_job_id client job_type bytes size now in
      record {
        numbered =
            rw add-one (Numbered-submit 1 h.next_job_id h.jobs i new refl (omega arith) v.numbered);
        some_number = omega arith;
        in_table = omega (arith, length-set h.jobs i new);
        jobs_ok =
            All-set (JobOk limits.max_retries) h.jobs i new v.jobs_ok (inr (refl, refl, refl, p));
        counted =
            Counts-submit h.stats h.jobs i old new a v.counted (unused_kind old z)
              (active_kind new v.some_number);
      }
  Move-IsValid {h} p (take i j worker now a w) v =
      let m = limits.max_retries in
      let (_, _, e, l) = waiting_ok m j (All-get (JobOk m) h.jobs i j v.jobs_ok a) w in
      let new = taken j worker now in
      IsValid-set h _ i j new v a refl (inr (e, l)) (
        Counts-assign h.stats h.jobs i j new a v.counted (waiting_kind j w)
          (running_kind new (w.0, refl)))
  Move-IsValid {h} p (finish i j bytes size now a r) v =
      let m = limits.max_retries in
      let (_, l) = running_ok m j (All-get (JobOk m) h.jobs i j v.jobs_ok a) r in
      let new : Job = record j {
        result_data = bytes;
        result_size = size;
        status = completed;
        end_time = now;
      } in
      IsValid-set h _ i j new v a refl (inr l) (
        Counts-complete h.stats h.jobs i j new a v.counted (running_kind j r) (active_kind new r.0))
  Move-IsValid {h} p (retry i j a r l) v =
      let new = retried j in
      IsValid-set h _ i j new v a refl (inr (refl, refl, refl, l))
        (Counts-requeue h.stats h.jobs i j new a v.counted (running_kind j r) (active_kind new r.0))
  Move-IsValid {h} p (give_up i j s now a r l f) v =
      let m = limits.max_retries in
      let (_, u) = running_ok m j (All-get (JobOk m) h.jobs i j v.jobs_ok a) r in
      let new = given_up s now j in
      IsValid-set h _ i j new v a refl (inr (failure_ok m s new f (omega arith))) (
        Counts-fail h.stats h.jobs i j new a v.counted (running_kind j r)
          (active_kind new r.0 ∙ failure_kind s f))

  pub Moves-IsValid :
      {h h' : Handler}
      → 0 < limits.max_retries
      → Moves limits h h'
      → IsValid limits h
      → IsValid limits h'
  Moves-IsValid p stay v = v
  Moves-IsValid p (after ms m) v = Move-IsValid p m (Moves-IsValid p ms v)
