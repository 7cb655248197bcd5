-- ===== src/NetTrafficAnalyzer/Tests.antt =====
-- The analyzer at concrete inputs.
use c_simples.Prelude.{ℕ, ◌≡◌, refl, false, [], ◌∷◌, ltb, length, arith}
use c_simples.NetTrafficAnalyzer.{
  ConnectionRecord, IpStats, Analyzer, cleanup_old_records, compact_loop,
}
use c_simples.NetTrafficAnalyzer.Cleanup.{
  staying, connections_of, stats_of, cleanup_old_records_lem,
}

abbrev seen_at : ℕ → ConnectionRecord
seen_at t = record { ip = 49 ∷ []; timestamp = t; bytes = 10 }

abbrev address : IpStats
address = record {
  ip = 49 ∷ [];
  request_count = 4;
  window_requests = 1;
  first_seen = 5;
  last_seen = 40;
  is_suspicious = false;
  burst_count = 0;
  adaptive_threshold = 100;
}

-- Four connections in use, and one entry that is not.
abbrev traffic : Analyzer
traffic = record {
  connections = seen_at 5 ∷ seen_at 20 ∷ seen_at 10 ∷ seen_at 30 ∷ seen_at 99 ∷ [];
  connection_count = 4;
  ip_stats = address ∷ [];
  ip_stats_count = 1;
}

cleanup_old_records_lem_example :
    let connections' = staying (λ c. ltb 10 c.timestamp) (connections_of traffic) in
    let stats' = staying (λ s. ltb 10 s.last_seen) (stats_of traffic) in
    let a' = cleanup_old_records 10 traffic in
    (connections_of a' ≡ connections')
    × (a'.connection_count ≡ length connections')
    × (stats_of a' ≡ stats')
    × (a'.ip_stats_count ≡ length stats')
cleanup_old_records_lem_example = cleanup_old_records_lem 10 traffic (omega arith) (omega arith)

left_over : connections_of (cleanup_old_records 10 traffic) ≡ seen_at 20 ∷ seen_at 30 ∷ []
unfolding cleanup_old_records compact_loop
left_over = refl
