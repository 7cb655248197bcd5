-- ===== src/WorkerManager/Table.antt =====
-- The searches of the worker table: where `find_worker_by_id` and `find_free_worker_slot` point to.
use c_simples.Prelude.{
  ℕ, zero, suc, ◌<◌, ◌≡◌, refl, sym, ap, inl, inr, Bool-cases, Option, none, some, List, [], ◌∷◌,
  arith, ltb, ◌==◌, pos, negsuc, ℤ, get_elem?,
}
use c_simples.WorkerManager.{
  Worker, Manager, find_loop, shifted, find_worker_by_id, find_free_worker_slot, next_index,
}

-- Slot `i` holds worker `w`.
abbrev pub Holds : List Worker → ℕ → Worker → Type 0
Holds ws i w = get_elem? ws i ≡ some w

find_loop-none_or_Holds :
    (id : ℕ) (ws : List Worker) (i : ℕ) (w : Worker)
    → find_loop id ws ≡ some (i, w)
    → Holds ws i w × (w.worker_id ≡ id)
unfolding find_loop
find_loop-none_or_Holds id [] i w e = cc
find_loop-none_or_Holds id (x ∷ ws) i w e = elim (Bool-cases (x.worker_id == id)) [
  | inl b ↦ ground arith
  | inr b ↦ from_rest id x ws i w (find_loop id ws) (find_loop-none_or_Holds id ws) (rw b at e)
]
  where
    from_rest :
        (id : ℕ) (x : Worker) (ws : List Worker) (i : ℕ) (w : Worker) (o : Option (ℕ × Worker))
        → ((k : ℕ) (v : Worker) → o ≡ some (k, v) → Holds ws k v × (v.worker_id ≡ id))
        → shifted o ≡ some (i, w)
        → Holds (x ∷ ws) i w × (w.worker_id ≡ id)
    from_rest id x ws i w none h e = cc
    from_rest id x ws i w (some (k, v)) h e = let (a, q) = h k v refl in ground arith

-- `find_worker_by_id` returns a worker of the table with that number, which is positive and given.
pub find_worker_by_id-Holds :
    (m : Manager) (id : ℤ) (i : ℕ) (w : Worker)
    → find_worker_by_id m id ≡ some (i, w)
    → Holds m.workers i w × (id ≡ pos w.worker_id) × (0 < w.worker_id)
unfolding find_worker_by_id
find_worker_by_id-Holds m (negsuc n) i w e = cc
find_worker_by_id-Holds m (pos zero) i w e = cc
find_worker_by_id-Holds m (pos (suc n)) i w e = elim (Bool-cases (ltb (suc n) m.next_worker_id)) [
  | inl b ↦
      let (a, q) = find_loop-none_or_Holds (suc n) m.workers i w (rw b at e) in
      (a, ap pos (sym q), omega (arith, q))
  | inr b ↦ ground arith
]

-- `find_free_worker_slot` returns an entry that no worker uses.
pub find_free_worker_slot-Holds :
    (ws : List Worker) (i : ℕ)
    → find_free_worker_slot ws ≡ some i
    → (w : Worker) × Holds ws i w × (w.worker_id ≡ 0)
unfolding find_free_worker_slot
find_free_worker_slot-Holds [] i e = cc
find_free_worker_slot-Holds (x ∷ ws) i e = elim (Bool-cases (x.worker_id == 0)) [
  | inl b ↦ (x, ground arith, ground arith)
  | inr b ↦ from_rest x ws i (find_free_worker_slot ws) (find_free_worker_slot-Holds ws) (rw b at e)
]
  where
    from_rest :
        (x : Worker) (ws : List Worker) (i : ℕ) (o : Option ℕ)
        → ((k : ℕ) → o ≡ some k → (w : Worker) × Holds ws k w × (w.worker_id ≡ 0))
        → next_index o ≡ some i
        → (w : Worker) × Holds (x ∷ ws) i w × (w.worker_id ≡ 0)
    from_rest x ws i none h e = cc
    from_rest x ws i (some k) h e = let (w, a, z) = h k refl in (w, ground arith, z)
