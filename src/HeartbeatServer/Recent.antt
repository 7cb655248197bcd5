-- ===== src/HeartbeatServer/Recent.antt =====
-- heartbeat_server.c: the history is the most recent heartbeats.
use c_simples.Prelude.{
  ℕ, zero, suc, ◌≤◌, ◌≡◌, refl, sym, ap, ◌∙◌, inl, inr, ltb, Bool, true, false, Bool-cases, ℤ, pos,
  inc, dec, inc-pos, dec-pos, List, [], ◌∷◌, length, take, length-take, take-take, arith,
}
use c_simples.HeartbeatServer.Storage.{
  Node, History, max_heartbeats, walk, remove_oldest, trimmed, add_to_history,
}

module _ {Data : Type 0} where
  -- The count is the number of nodes, which is at most the maximum.
  pub record IsBounded (h : History Data) : Type 0 where
    pub counted : h.count ≡ pos (length h.nodes)
    pub bounded : length h.nodes ≤ max_heartbeats

  walk-take :
      (current : Node Data) (rest : List (Node Data))
      → walk current rest ≡ take (length rest) (current ∷ rest)
  unfolding walk
  walk-take current [] = refl
  walk-take current (next ∷ rest) = ap (◌∷◌ current) (walk-take next rest)

  take-all : (n : ℕ) (xs : List (Node Data)) → length xs ≤ n → take n xs ≡ xs
  take-all zero [] l = refl
  take-all zero (x ∷ xs) l = absurd (omega arith)
  take-all (suc n) [] l = refl
  take-all (suc n) (x ∷ xs) l = ap (◌∷◌ x) (take-all n xs (omega arith))

  Recent : Node Data → List (Node Data) → History Data → Type 0
  Recent new ns h = (h.nodes ≡ take max_heartbeats (new ∷ ns)) × (h.count ≡ pos (length h.nodes))

  -- At the maximum the walk drops one node, and the count follows.
  trimmed_full :
      (new x : Node Data) (ns : List (Node Data)) (c : ℤ)
      → c ≡ pos (suc (suc (length ns)))
      → suc (length ns) ≡ max_heartbeats
      → Recent new (x ∷ ns) (record { nodes = walk new (x ∷ ns); count = dec c })
  unfolding Recent
  trimmed_full new x ns c e full =
      let kept : walk new (x ∷ ns) ≡ take max_heartbeats (new ∷ x ∷ ns) =
        walk-take new (x ∷ ns) ∙ ap (λ (k : ℕ). take k (new ∷ x ∷ ns)) full in
      let size : suc (length ns) ≡ length (walk new (x ∷ ns)) =
        omega (
          arith,
          ap length (walk-take new (x ∷ ns)),
          length-take (suc (length ns)) (new ∷ x ∷ ns),
        ) in
      (kept, ap dec e ∙ dec-pos (suc (length ns)) ∙ ap pos size)

  trimmed-Recent :
      (new : Node Data) (ns : List (Node Data)) (c : ℤ)
      → c ≡ pos (suc (length ns))
      → length ns ≤ max_heartbeats
      → Recent new ns (trimmed (record { nodes = new ∷ ns; count = c }))
  unfolding Recent remove_oldest
  trimmed-Recent new [] c e l = rw e (refl, refl)
  trimmed-Recent new (x ∷ ns) c e l =
      elim (Bool-cases (ltb max_heartbeats (suc (suc (length ns))))) [
        | inl full ↦
            rw (e, full) (trimmed_full new x ns (pos (suc (suc (length ns)))) refl (ground arith))
        | inr short ↦
            rw (e, short) (sym (take-all max_heartbeats (new ∷ x ∷ ns) (ground arith)), refl)
      ]

  added-Recent :
      (d : Data) (now : ℕ) (h : History Data)
      → IsBounded h
      → Recent (record { reading = d; timestamp = now }) h.nodes (add_to_history d true now h)
  unfolding add_to_history
  added-Recent d now h v =
      trimmed-Recent (record { reading = d; timestamp = now }) h.nodes (inc h.count)
        (ap inc v.counted ∙ inc-pos (length h.nodes)) v.bounded

  pub add_to_history-IsBounded :
      (d : Data) (ok : Bool) (now : ℕ) (h : History Data)
      → IsBounded h
      → IsBounded (add_to_history d ok now h)
  unfolding add_to_history Recent
  add_to_history-IsBounded d false now h v = v
  add_to_history-IsBounded d true now h v =
      let (e, c) = added-Recent d now h v in
      record {
        counted = c;
        bounded = omega (
          arith,
          ap length e,
          length-take max_heartbeats (record { reading = d; timestamp = now } ∷ h.nodes),
        );
      }

  -- The nodes after an addition, when `malloc` succeeds.
  pub add_to_history-take :
      (d : Data) (now : ℕ) (h : History Data)
      → IsBounded h
      → (add_to_history d true now h).nodes
        ≡ take max_heartbeats (record { reading = d; timestamp = now } ∷ h.nodes)
  unfolding Recent
  add_to_history-take d now h v = (added-Recent d now h v).0

  -- Additions, the first of the list first, with the time of each.
  unfoldable pub add_all : List (Data × ℕ) → History Data → History Data
  add_all [] h = h
  add_all ((d, now) ∷ ds) h = add_all ds (add_to_history d true now h)

  -- All heartbeats, the latest first.
  unfoldable pub latest_first : List (Data × ℕ) → List (Node Data) → List (Node Data)
  latest_first [] ns = ns
  latest_first ((d, now) ∷ ds) ns = latest_first ds (record { reading = d; timestamp = now } ∷ ns)

  -- Lists that agree in their first elements still agree with more in front of them.
  latest_first-take :
      (n : ℕ) (ds : List (Data × ℕ)) (xs ys : List (Node Data))
      → take n xs ≡ take n ys
      → take n (latest_first ds xs) ≡ take n (latest_first ds ys)
  unfolding latest_first
  latest_first-take n [] xs ys e = e
  latest_first-take n ((d, now) ∷ ds) xs ys e = latest_first-take n ds _ _ (one_more n xs ys e)
    where
      one_more :
          (n : ℕ) (xs ys : List (Node Data))
          → take n xs ≡ take n ys
          → take n (record { reading = d; timestamp = now } ∷ xs)
            ≡ take n (record { reading = d; timestamp = now } ∷ ys)
      one_more zero xs ys e = refl
      one_more (suc n) xs ys e = ap (◌∷◌ (record { reading = d; timestamp = now })) (
          sym (take-take n (suc n) xs (omega arith))
          ∙ ap (take n) e
          ∙ take-take n (suc n) ys (omega arith))

  -- After any additions the history holds the latest 100 of all heartbeats, the old ones included, the
  -- latest first, and `heartbeat_count` is their number, if this number was right and at most 100
  -- before, and `malloc` succeeds.
  pub add_all-take :
      (ds : List (Data × ℕ)) (h : History Data)
      → IsBounded h
      → ((add_all ds h).nodes ≡ take max_heartbeats (latest_first ds h.nodes))
        × IsBounded (add_all ds h)
  unfolding add_all latest_first
  add_all-take [] h v = (sym (take-all max_heartbeats h.nodes v.bounded), v)
  add_all-take ((d, now) ∷ ds) h v =
      let (e, w) =
        add_all-take ds (add_to_history d true now h) (add_to_history-IsBounded d true now h v) in
      let added = add_to_history-take d now h v in
      (
        e
            ∙ latest_first-take max_heartbeats ds _ _ (
                ap (take max_heartbeats) added
                ∙ take-take max_heartbeats max_heartbeats
                    (record { reading = d; timestamp = now } ∷ h.nodes) (omega arith)),
        w,
      )
