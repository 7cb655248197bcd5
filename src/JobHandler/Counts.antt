-- ===== src/JobHandler/Counts.antt =====
-- The statistics of the job handler against the jobs of the table: what each change of one job does.
use c_simples.Prelude.{
  ℕ, zero, suc, ◌+◌, ◌≡◌, refl, ap, Bool, true, false, List, arith, set, replicate, if◌then◌else◌,
  ℤ, pos, inc, dec, inc_to, dec_to, ◌==◌,
}
use c_simples.JobHandler.{
  Job, empty_job, JobStatus, pending, assigned, completed, failed, timeout, Stats, count_retry,
  count_failure,
}
use c_simples.JobHandler.Table.{At}
use c_simples.Prelude.{bit, count_if, count_if-set}

-- What an entry is in the statistics.
pub data Kind : Type 0 where
  unused queued running done lost : Kind

abbrev pub same_kind : Kind → Kind → Bool
same_kind unused unused = true
same_kind queued queued = true
same_kind running running = true
same_kind done done = true
same_kind lost lost = true
same_kind _ _ = false

abbrev pub kind_of : JobStatus → Kind
kind_of pending = queued
kind_of assigned = running
kind_of completed = done
kind_of failed = lost
kind_of timeout = lost

abbrev pub kind : Job → Kind
kind j = if j.job_id == 0 then unused else kind_of j.status

unfoldable pub count_kind : Kind → List Job → ℕ
count_kind k js = count_if (λ j. same_kind (kind j) k) js

-- Each statistic counts the jobs of its kind.
pub record Counts (s : Stats) (js : List Job) : Type 0 where
  pub pending_ok : s.pending_jobs ≡ pos (count_kind queued js)
  pub running_ok : s.running_jobs ≡ pos (count_kind running js)
  pub completed_ok : s.completed_jobs ≡ pos (count_kind done js)
  pub failed_ok : s.failed_jobs ≡ pos (count_kind lost js)

-- One entry of the table changes from kind `x` to kind `y`.
module _ (s : Stats) (js : List Job) (i : ℕ) (old new : Job) (at : At js i old) where
  moved :
      (k x y : Kind)
      → kind old ≡ x
      → kind new ≡ y
      → count_kind k (set js i new) + bit (same_kind x k) ≡ count_kind k js + bit (same_kind y k)
  unfolding count_kind
  moved k x y ex ey = rw (← ex, ← ey) (count_if-set (λ j. same_kind (kind j) k) js i old new at)

  unchanged :
      {v : ℤ} (k x y : Kind)
      → kind old ≡ x
      → kind new ≡ y
      → bit (same_kind x k) ≡ bit (same_kind y k)
      → v ≡ pos (count_kind k js)
      → v ≡ pos (count_kind k (set js i new))
  unchanged k x y ex ey same e = rw e (ap pos (omega (arith, moved k x y ex ey)))

  gained :
      {v : ℤ} (k x y : Kind)
      → kind old ≡ x
      → kind new ≡ y
      → suc (bit (same_kind x k)) ≡ bit (same_kind y k)
      → v ≡ pos (count_kind k js)
      → inc v ≡ pos (count_kind k (set js i new))
  gained k x y ex ey same e = rw e (inc_to (omega (arith, moved k x y ex ey)))

  given :
      {v : ℤ} (k x y : Kind)
      → kind old ≡ x
      → kind new ≡ y
      → bit (same_kind x k) ≡ suc (bit (same_kind y k))
      → v ≡ pos (count_kind k js)
      → dec v ≡ pos (count_kind k (set js i new))
  given k x y ex ey same e = rw e (dec_to (omega (arith, moved k x y ex ey)))

  pub Counts-submit :
      Counts s js
      → kind old ≡ unused
      → kind new ≡ queued
      → Counts (record s { pending_jobs = inc s.pending_jobs }) (set js i new)
  Counts-submit c o n = record {
    pending_ok = gained queued unused queued o n refl c.pending_ok;
    running_ok = unchanged running unused queued o n refl c.running_ok;
    completed_ok = unchanged done unused queued o n refl c.completed_ok;
    failed_ok = unchanged lost unused queued o n refl c.failed_ok;
  }

  pub Counts-assign :
      Counts s js
      → kind old ≡ queued
      → kind new ≡ running
      → Counts
          (record s { pending_jobs = dec s.pending_jobs; running_jobs = inc s.running_jobs })
          (set js i new)
  Counts-assign c o n = record {
    pending_ok = given queued queued running o n refl c.pending_ok;
    running_ok = gained running queued running o n refl c.running_ok;
    completed_ok = unchanged done queued running o n refl c.completed_ok;
    failed_ok = unchanged lost queued running o n refl c.failed_ok;
  }

  pub Counts-requeue :
      Counts s js → kind old ≡ running → kind new ≡ queued → Counts (count_retry s) (set js i new)
  Counts-requeue c o n = record {
    pending_ok = gained queued running queued o n refl c.pending_ok;
    running_ok = given running running queued o n refl c.running_ok;
    completed_ok = unchanged done running queued o n refl c.completed_ok;
    failed_ok = unchanged lost running queued o n refl c.failed_ok;
  }

  pub Counts-complete :
      Counts s js
      → kind old ≡ running
      → kind new ≡ done
      → Counts
          (record s { running_jobs = dec s.running_jobs; completed_jobs = inc s.completed_jobs })
          (set js i new)
  Counts-complete c o n = record {
    pending_ok = unchanged queued running done o n refl c.pending_ok;
    running_ok = given running running done o n refl c.running_ok;
    completed_ok = gained done running done o n refl c.completed_ok;
    failed_ok = unchanged lost running done o n refl c.failed_ok;
  }

  pub Counts-fail :
      Counts s js → kind old ≡ running → kind new ≡ lost → Counts (count_failure s) (set js i new)
  Counts-fail c o n = record {
    pending_ok = unchanged queued running lost o n refl c.pending_ok;
    running_ok = given running running lost o n refl c.running_ok;
    completed_ok = unchanged done running lost o n refl c.completed_ok;
    failed_ok = gained lost running lost o n refl c.failed_ok;
  }

-- A table of unused entries counts nothing.
pub count_kind-empty :
    (k : Kind) (n : ℕ) → same_kind unused k ≡ false → count_kind k (replicate n empty_job) ≡ 0
unfolding count_kind count_if
count_kind-empty k zero e = refl
count_kind-empty k (suc n) e = rw (e, count_kind-empty k n e)
