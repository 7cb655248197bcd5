-- ===== src/JobHandler/Totals.antt =====
-- The statistics together.
use c_simples.Prelude.{ℕ, suc, ◌+◌, ◌-◌, ◌≤◌, ◌<◌, ◌≡◌, inl, inr, List, [], ◌∷◌, arith, length, pos}
use c_simples.JobHandler.{Job, Handler, Limits}
use c_simples.JobHandler.Numbering.{Numbered}
use c_simples.Prelude.{bit, count_if}
use c_simples.JobHandler.Counts.{queued, running, done, lost, kind, same_kind, count_kind}
use c_simples.JobHandler.Invariant.{IsValid}

abbrev shares : Job → ℕ
shares j =
    bit (same_kind (kind j) queued)
    + bit (same_kind (kind j) running)
    + bit (same_kind (kind j) done)
    + bit (same_kind (kind j) lost)

shares_used : (j : Job) → 0 < j.job_id → shares j ≡ 1
shares_used j p = ground arith

shares_unused : (j : Job) → j.job_id ≡ 0 → shares j ≡ 0
shares_unused j e = ground arith

abbrev used : List Job → ℕ
used js = count_kind queued js + count_kind running js + count_kind done js + count_kind lost js

used-cons : (j : Job) (js : List Job) → used (j ∷ js) ≡ shares j + used js
unfolding count_kind count_if
used-cons j js = omega arith

used-Numbered :
    (k n : ℕ) (js : List Job) → 0 < k → n ≤ k + length js → Numbered k n js → used js ≡ n - k
unfolding count_kind count_if
used-Numbered k n [] p l h = omega arith
used-Numbered k n (j ∷ js) p l (inl (a, e), h) = omega (
  arith,
  used-cons j js,
  shares_used j (omega arith),
  used-Numbered (suc k) n js (omega arith) (omega arith) h,
)
used-Numbered k n (j ∷ js) p l (inr (a, e), h) = omega (
  arith,
  used-cons j js,
  shares_unused j e,
  used-Numbered (suc k) n js (omega arith) (omega arith) h,
)

-- In a valid state the four statistics are not negative and add up to the number of jobs accepted.
pub stats_total :
    (limits : Limits) (h : Handler)
    → IsValid limits h
    → (a : ℕ) × (b : ℕ) × (c : ℕ) × (d : ℕ) × (h.stats.pending_jobs ≡ pos a)
      × (h.stats.running_jobs ≡ pos b)
      × (h.stats.completed_jobs ≡ pos c)
      × (h.stats.failed_jobs ≡ pos d)
      × (a + b + c + d + 1 ≡ h.next_job_id)
stats_total limits h v = (
  count_kind queued h.jobs,
  count_kind running h.jobs,
  count_kind done h.jobs,
  count_kind lost h.jobs,
  v.counted.pending_ok,
  v.counted.running_ok,
  v.counted.completed_ok,
  v.counted.failed_ok,
  omega (arith, used-Numbered 1 h.next_job_id h.jobs (omega arith) (omega arith) v.numbered),
)
