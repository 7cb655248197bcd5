-- ===== src/WorkerRegistry/Numbers.antt =====
-- worker_registry.c: the numbers that `worker_registry_add` gives, `count + 1`.
use c_simples.Prelude.{
  ℕ, ◌+◌, ◌<◌, ◌≡◌, refl, inl, inr, true, Bool-cases, some_eq, ◌==◌, ◌∙◌, zero, suc, ap, some, List,
  [], ◌∷◌, ◌++◌, arith, length, ltb, ℤ,
}
use c_simples.WorkerRegistry.{
  WorkerStatus, change_loop, update_status, WorkerInfo, Registry, add, get, find_loop, new_worker,
  is_open,
}

-- The workers have the numbers from `k + 1` on, in order.
abbrev pub Numbered : ℕ → List WorkerInfo → Type 0
Numbered k [] = Unit
Numbered k (w ∷ ws) = (w.worker_id ≡ k + 1) × Numbered (k + 1) ws

pub Numbered-append :
    (k : ℕ) (ws : List WorkerInfo) (w : WorkerInfo)
    → w.worker_id ≡ k + length ws + 1
    → Numbered k ws
    → Numbered k (ws ++ w ∷ [])
Numbered-append k [] w e h = (omega arith, tt)
Numbered-append k (x ∷ ws) w e h = (h.0, Numbered-append (k + 1) ws w (omega arith) h.1)

find_loop-append_new :
    (k : ℕ) (ws : List WorkerInfo) (w : WorkerInfo)
    → w.worker_id ≡ k + length ws + 1
    → Numbered k ws
    → find_loop w.worker_id (ws ++ w ∷ []) ≡ some w
unfolding find_loop
find_loop-append_new k [] w e h = ground arith
find_loop-append_new k (x ∷ ws) w e h =
    let rest = find_loop-append_new (k + 1) ws w (omega arith) h.1 in
    let first = h.0 in ground arith

-- Where the workers are numbered from 1 on, as they are while none has been removed, an accepted
-- `worker_registry_add` gives the next number, under which `worker_registry_get` finds the new worker,
-- and the workers are numbered from 1 on again.
pub get-add :
    (sockfd : ℤ) (thread_id now : ℕ) (r : Registry)
    → is_open sockfd ≡ true
    → length r.workers < r.capacity
    → Numbered 0 r.workers
    → let (id, r') = add sockfd thread_id now r in
      (id ≡ length r.workers + 1)
      × (get id r' ≡ some (new_worker id sockfd thread_id now))
      × Numbered 0 r'.workers
unfolding add get
get-add sockfd thread_id now r o room h = elim (Bool-cases (ltb (length r.workers) r.capacity)) [
  | inl b ↦
      let w = new_worker (length r.workers + 1) sockfd thread_id now in
      let found = find_loop-append_new 0 r.workers w (omega arith) h in
      rw (o, b)
        (
          refl,
          at_number (length r.workers) (r.workers ++ w ∷ []) w found,
          Numbered-append 0 r.workers w (omega arith) h,
        )
  | inr b ↦ absurd (ground arith)
]
  where
    at_number :
        (n : ℕ) (ws : List WorkerInfo) (w : WorkerInfo)
        → find_loop (n + 1) ws ≡ some w
        → get (n + 1) (record r { workers = ws }) ≡ some w
    at_number n ws w e = ground arith

find_loop-head :
    (id : ℕ) (w : WorkerInfo) (ws : List WorkerInfo)
    → (w.worker_id == id) ≡ true
    → find_loop id (w ∷ ws) ≡ some w
unfolding find_loop
find_loop-head id w ws b = rw b refl

-- A change finds the worker that a search finds, and the search finds it changed.
pub find_loop-change_loop :
    (id : ℕ) (f : WorkerInfo → WorkerInfo) (ws : List WorkerInfo) (w : WorkerInfo)
    → ((u : WorkerInfo) → (f u).worker_id ≡ u.worker_id)
    → find_loop id ws ≡ some w
    → find_loop id (change_loop id f ws).1 ≡ some (f w)
unfolding find_loop change_loop
find_loop-change_loop id f [] w same e = cc
find_loop-change_loop id f (x ∷ ws) w same e = elim (Bool-cases (x.worker_id == id)) [
  | inl b ↦
      let first : some x ≡ some w = rw b at e in
      let head = find_loop-head id (f x) ws (ap (λ (k : ℕ). k == id) (same x) ∙ b) in
      rw (b, change_loop) (head ∙ ap (λ u. some (f u)) (some_eq first))
  | inr b ↦ rw (b, change_loop) (rw b (find_loop-change_loop id f ws w same (rw b at e)))
]

pub get-update_status :
    (id : ℕ) (status : WorkerStatus) (r : Registry) (w : WorkerInfo)
    → get id r ≡ some w
    → get id (update_status id status r).1 ≡ some (record w { status = status })
unfolding get update_status
get-update_status zero status r w e = cc
get-update_status (suc n) status r w e =
    find_loop-change_loop (suc n) (λ u. record u { status = status }) r.workers w (λ u. refl) e
