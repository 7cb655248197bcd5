-- ===== src/NetTrafficAnalyzer/Cleanup.antt =====
-- additional_functions.c: cleanup_old_records against the list of the records that stay.
use c_simples.Prelude.{
  ℕ, zero, suc, ◌+◌, ◌≤◌, ltb, ◌==◌, ◌≡◌, refl, sym, ap, ◌∙◌, subst, inl, inr, if◌then◌else◌, Bool,
  true, false, Bool-cases, some, List, [], ◌∷◌, ◌++◌, append_assoc, append-nil, get_elem?, set,
  take, drop, length, length-append, length-take, arith,
}
use c_simples.NetTrafficAnalyzer.{
  ConnectionRecord, IpStats, Analyzer, moved, compact_loop, cleanup_old_records,
}

module _ {ℓ} {A : Type ℓ} where
  -- The entries that stay, in their order.
  abbrev pub staying : (A → Bool) → List A → List A
  staying stays [] = []
  staying stays (x ∷ xs) = if stays x then x ∷ staying stays xs else staying stays xs

  get_elem?-append :
      (xs : List A) (x : A) (ys : List A) → get_elem? (xs ++ (x ∷ ys)) (length xs) ≡ some x
  get_elem?-append [] x ys = refl
  get_elem?-append (z ∷ xs) x ys = get_elem?-append xs x ys

  set-append :
      (xs : List A) (y x : A) (ys : List A) → set (xs ++ (y ∷ ys)) (length xs) x ≡ xs ++ (x ∷ ys)
  set-append [] y x ys = refl
  set-append (z ∷ xs) y x ys = ap (◌∷◌ z) (set-append xs y x ys)

  take-append : (xs ys : List A) → take (length xs) (xs ++ ys) ≡ xs
  take-append [] ys = refl
  take-append (x ∷ xs) ys = ap (◌∷◌ x) (take-append xs ys)

  -- One entry goes over to the list before it.
  shift : (xs : List A) (x : A) (ys : List A) → xs ++ (x ∷ ys) ≡ (xs ++ x ∷ []) ++ ys
  shift [] x ys = refl
  shift (z ∷ xs) x ys = ap (◌∷◌ z) (shift xs x ys)

  length-one_more : (xs : List A) (x : A) → length (xs ++ x ∷ []) ≡ suc (length xs)
  length-one_more xs x = omega (arith, length-append xs (x ∷ []))

  -- The assignment, when the entries of `front` stay and those of `gap` do not.
  moved-front :
      (front gap : List A) (x : A) (rest : List A)
      → (gap' : List A) × (length gap' ≡ length gap)
        × (moved (length front + length gap) (length front) x (front ++ (gap ++ (x ∷ rest)))
            ≡ (front ++ x ∷ []) ++ (gap' ++ rest))
  moved-front front [] x rest = ([], refl, rw (same front) (shift front x rest))
    where
      same : (front : List A) → (length front + 0 == length front) ≡ true
      same front = ground arith
  moved-front front (y ∷ gap) x rest = (
    gap ++ x ∷ [],
    length-one_more gap x,
    rw (differs front gap) (
        set-append front y x (gap ++ (x ∷ rest))
        ∙ shift front x (gap ++ (x ∷ rest))
        ∙ ap (λ l. (front ++ x ∷ []) ++ l) (shift gap x rest)),
  )
    where
      differs : (front gap : List A) → (length front + suc (length gap) == length front) ≡ false
      differs front gap = ground arith

  take-drop : (n : ℕ) (xs : List A) → take n xs ++ drop n xs ≡ xs
  take-drop zero xs = refl
  take-drop (suc n) [] = refl
  take-drop (suc n) (x ∷ xs) = ap (◌∷◌ x) (take-drop n xs)

  module _ (stays : A → Bool) (beyond : List A) where
    -- The loop from the entries `rest` on, which are followed by others that it does not look at.
    compact_loop-front :
        (rest front gap : List A) (i k : ℕ) (xs : List A)
        → xs ≡ front ++ (gap ++ (rest ++ beyond))
        → i ≡ length front + length gap
        → k ≡ length front
        → let (ys, n) = compact_loop stays (length rest) i k xs in
          (take n ys ≡ front ++ staying stays rest)
          × (n ≡ length front + length (staying stays rest))
    unfolding compact_loop
    compact_loop-front [] front gap i k xs e a b =
        (rw (e, b) (take-append front (gap ++ beyond) ∙ sym (append-nil front)), omega (arith, b))
    compact_loop-front (x ∷ rest) front gap i k xs e a b =
        let at : get_elem? xs i ≡ some x =
          rw
            (
              e,
              a,
              sym (append_assoc front gap (x ∷ (rest ++ beyond))),
              sym (length-append front gap),
            )
            (get_elem?-append (front ++ gap) x (rest ++ beyond)) in
        elim (Bool-cases (stays x)) [
          | inl s ↦
              let (gap', l, m) = moved-front front gap x (rest ++ beyond) in
              let (taken, counted) =
                compact_loop-front rest (front ++ x ∷ []) gap' (suc i) (suc k) (moved i k x xs)
                  (rw (e, a, b) m) (omega (arith, length-one_more front x))
                  (omega (arith, length-one_more front x)) in
              rw (at, s, compact_loop)
                (
                  taken ∙ sym (shift front x (staying stays rest)),
                  omega (arith, counted, length-one_more front x),
                )
          | inr s ↦
              let (taken, counted) =
                compact_loop-front rest front (gap ++ x ∷ []) (suc i) k xs
                  (e ∙ ap (λ l. front ++ l) (shift gap x (rest ++ beyond)))
                  (omega (arith, length-one_more gap x)) b in
              rw (at, s, compact_loop) (taken, counted)
        ]

  compact_loop-staying :
      (stays : A → Bool) (count : ℕ) (xs : List A)
      → count ≤ length xs
      → let (ys, n) = compact_loop stays count 0 0 xs in
        (take n ys ≡ staying stays (take count xs)) × (n ≡ length (staying stays (take count xs)))
  compact_loop-staying stays count xs l =
      let counted : length (take count xs) ≡ count = omega (arith, length-take count xs) in
      let (taken, in_use) =
        compact_loop-front stays (drop count xs) (take count xs) [] [] 0 0 xs
          (sym (take-drop count xs)) refl refl in
      subst
        (λ m.
          let (ys, n) = compact_loop stays m 0 0 xs in
          (take n ys ≡ staying stays (take count xs))
          × (n ≡ length (staying stays (take count xs))))
        counted (taken, omega (arith, in_use))

-- The records in use.
abbrev pub connections_of : Analyzer → List ConnectionRecord
connections_of a = take a.connection_count a.connections

abbrev pub stats_of : Analyzer → List IpStats
stats_of a = take a.ip_stats_count a.ip_stats

-- `cleanup_old_records`, with counts that are within the arrays: the records in use are then those of before
-- that are later than the given time, in their order, and so are the statistics of the addresses by the time
-- they were last seen; the two counts are the numbers of these.
pub cleanup_old_records_lem :
    (cutoff_time : ℕ) (a : Analyzer)
    → a.connection_count ≤ length a.connections
    → a.ip_stats_count ≤ length a.ip_stats
    → let connections' = staying (λ c. ltb cutoff_time c.timestamp) (connections_of a) in
      let stats' = staying (λ s. ltb cutoff_time s.last_seen) (stats_of a) in
      let a' = cleanup_old_records cutoff_time a in
      (connections_of a' ≡ connections')
      × (a'.connection_count ≡ length connections')
      × (stats_of a' ≡ stats')
      × (a'.ip_stats_count ≡ length stats')
unfolding cleanup_old_records
cleanup_old_records_lem cutoff_time a l m =
    let (taken, counted) =
      compact_loop-staying (λ (c : ConnectionRecord). ltb cutoff_time c.timestamp)
        a.connection_count a.connections l in
    let (taken', counted') =
      compact_loop-staying (λ (s : IpStats). ltb cutoff_time s.last_seen) a.ip_stats_count
        a.ip_stats m in
    (taken, counted, taken', counted')
