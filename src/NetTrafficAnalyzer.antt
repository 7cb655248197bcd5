-- ===== src/NetTrafficAnalyzer.antt =====
-- NetTrafficAnalyzer/additional_functions.c: the removal of old records.
pub mod Cleanup
mod Tests
use c_simples.Prelude.{
  ℕ, zero, suc, ◌+◌, ltb, ◌==◌, if◌then◌else◌, Bool, true, false, Option, none, some, List, [], ◌∷◌,
  get_elem?, set,
}

-- `ConnectionRecord`
pub record ConnectionRecord : Type 0 where
  pub ip : List ℕ
  pub timestamp : ℕ
  pub bytes : ℕ

-- `IPStats`, without its history, its average and the texts that only the reports print.
pub record IpStats : Type 0 where
  pub ip : List ℕ
  pub request_count : ℕ
  pub window_requests : ℕ
  pub first_seen : ℕ
  pub last_seen : ℕ
  pub is_suspicious : Bool
  pub burst_count : ℕ
  pub adaptive_threshold : ℕ

-- `connections`, `connection_count`, `ip_stats` and `ip_stats_count`
pub record Analyzer : Type 0 where
  pub connections : List ConnectionRecord
  pub connection_count : ℕ
  pub ip_stats : List IpStats
  pub ip_stats_count : ℕ

-- `if (i != new_count)`, and the assignment to the slot.
abbrev pub moved {ℓ} : {A : Type ℓ} → ℕ → ℕ → A → List A → List A
moved i new_count x xs = if i == new_count then xs else set xs new_count x

-- A loop of `cleanup_old_records`, with so many entries left from `i` on: the array and `new_count`.
unfoldable pub compact_loop {ℓ} : {A : Type ℓ} → (A → Bool) → ℕ → ℕ → ℕ → List A → List A × ℕ
compact_loop stays zero i new_count xs = (xs, new_count)
compact_loop stays (suc left) i new_count xs = elim (get_elem? xs i) [
  | none ↦ (xs, new_count)
  | some x ↦
      let kept = compact_loop stays left (suc i) (suc new_count) (moved i new_count x xs) in
      let dropped = compact_loop stays left (suc i) new_count xs in
      if stays x then kept else dropped
]

-- `cleanup_old_records`
unfoldable pub cleanup_old_records : ℕ → Analyzer → Analyzer
cleanup_old_records cutoff_time a =
    let (connections, connection_count) =
      compact_loop (λ (c : ConnectionRecord). ltb cutoff_time c.timestamp) a.connection_count 0 0
        a.connections in
    let (ip_stats, ip_stats_count) =
      compact_loop (λ (s : IpStats). ltb cutoff_time s.last_seen) a.ip_stats_count 0 0 a.ip_stats in
    record {
      connections = connections;
      connection_count = connection_count;
      ip_stats = ip_stats;
      ip_stats_count = ip_stats_count;
    }
