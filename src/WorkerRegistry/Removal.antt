-- ===== src/WorkerRegistry/Removal.antt =====
-- What `worker_registry_remove` leaves, and how the number that `worker_registry_add` gives next
-- meets the ones in use.
use c_simples.Prelude.{
  ℕ, zero, suc, ◌+◌, ◌≤◌, ◌<◌, ◌≡◌, refl, sym, ap, ◌∙◌, inl, inr, ◌⊎◌, true, false, Bool-cases,
  none, some, List, [], ◌∷◌, ◌++◌, arith, ◌==◌, length, ltb, ℤ, subst, length-append,
}
use c_simples.WorkerRegistry.{
  WorkerInfo, Registry, add, remove, get, remove_loop, find_loop, new_worker, keeping, is_open,
  closing,
}
use c_simples.WorkerRegistry.Numbers.{Numbered}

-- No worker of the list has the number.
abbrev pub Absent : ℕ → List WorkerInfo → Type 0
Absent id [] = Unit
Absent id (w ∷ ws) = ((w.worker_id == id) ≡ false) × Absent id ws

-- The entries before and after the first worker with the number.
abbrev pub Splits : ℕ → List WorkerInfo → WorkerInfo → List WorkerInfo → List WorkerInfo → Type 0
Splits id ws w front back = (ws ≡ front ++ w ∷ back) × Absent id front × (w.worker_id ≡ id)

remove_loop-Splits :
    (id : ℕ) (ws : List WorkerInfo)
    → ((remove_loop id ws ≡ none) × Absent id ws)
      ⊎ ((w : WorkerInfo) × (front : List WorkerInfo) × (back : List WorkerInfo) × Splits id ws w
            front back
          × (remove_loop id ws ≡ some (w.sockfd, front ++ back)))
unfolding remove_loop
remove_loop-Splits id [] = inl (refl, tt)
remove_loop-Splits id (x ∷ ws) = elim (Bool-cases (x.worker_id == id)) [
  | inl b ↦ inr (x, [], ws, (refl, tt, ground arith), rw (b, remove_loop) refl)
  | inr b ↦ elim (remove_loop-Splits id ws) [
    | inl (e, a) ↦ inl (rw (b, remove_loop) (ap (keeping x) e), (b, a))
    | inr (w, front, back, (s, a, q), e) ↦
        inr (w, x ∷ front, back, (ap (◌∷◌ x) s, (b, a), q), rw (b, remove_loop) (ap (keeping x) e))
  ]
]

-- `worker_registry_remove` of a positive number takes the first worker with that number out of the
-- registry, keeps the others in their order, and closes its socket if it is open; if there is no such
-- worker it returns -1 and changes nothing.
pub remove_lem :
    (n : ℕ) (r : Registry)
    → ((remove (suc n) r ≡ (false, [], r)) × Absent (suc n) r.workers)
      ⊎ ((w : WorkerInfo) × (front : List WorkerInfo) × (back : List WorkerInfo) × Splits
            (suc n)
            r.workers
            w
            front
            back
          × (remove (suc n) r ≡ (true, closing w.sockfd [], record r { workers = front ++ back })))
unfolding remove
remove_lem n r = elim (remove_loop-Splits (suc n) r.workers) [
  | inl (e, a) ↦ inl (rw (e, remove) refl, a)
  | inr (w, front, back, s, e) ↦ inr (w, front, back, s, rw (e, remove) refl)
]

Numbered-split :
    (k : ℕ) (front : List WorkerInfo) (w : WorkerInfo) (back : List WorkerInfo)
    → Numbered k (front ++ w ∷ back)
    → Numbered k front × (w.worker_id ≡ k + length front + 1) × Numbered (k + length front + 1) back
Numbered-split k [] w back h = (tt, omega arith, subst (λ n. Numbered n back) (omega arith) h.1)
Numbered-split k (x ∷ front) w back h =
    let (f, e, b) = Numbered-split (k + 1) front w back h.1 in
    ((h.0, f), omega arith, subst (λ n. Numbered n back) (omega arith) b)

find_loop-skip :
    (k id : ℕ) (front ws : List WorkerInfo)
    → Numbered k front
    → k + length front < id
    → find_loop id (front ++ ws) ≡ find_loop id ws
unfolding find_loop
find_loop-skip k id [] ws h l = refl
find_loop-skip k id (x ∷ front) ws h l =
    let rest = find_loop-skip (k + 1) id front ws h.1 (omega arith) in
    let first = h.0 in ground arith

find_loop-append :
    (id : ℕ) (ws xs : List WorkerInfo) (w : WorkerInfo)
    → find_loop id ws ≡ some w
    → find_loop id (ws ++ xs) ≡ some w
unfolding find_loop
find_loop-append id [] xs w e = cc
find_loop-append id (x ∷ ws) xs w e = elim (Bool-cases (x.worker_id == id)) [
  | inl b ↦ rw b (rw b at e)
  | inr b ↦ rw b (find_loop-append id ws xs w (rw b at e))
]

find_loop-last :
    (k : ℕ) (ws : List WorkerInfo)
    → Numbered k ws
    → 0 < length ws
    → (w : WorkerInfo) × (find_loop (k + length ws) ws ≡ some w)
unfolding find_loop
find_loop-last k [] h p = absurd (omega arith)
find_loop-last k (x ∷ []) h p = (x, ground arith)
find_loop-last k (x ∷ y ∷ ws) h p =
    let (w, e) = find_loop-last (k + 1) (y ∷ ws) h.1 (omega arith) in
    let first = h.0 in
    let e' : find_loop (k + suc (suc (length ws))) (y ∷ ws) ≡ some w =
      subst (λ n. find_loop n (y ∷ ws) ≡ some w) (omega arith) e in
    (w, rw (unlike x.worker_id (k + suc (suc (length ws))) (omega arith)) e')
  where
    unlike : (a b : ℕ) → a < b → (a == b) ≡ false
    unlike a b l = ground arith

Numbered-present :
    (k id : ℕ) (ws : List WorkerInfo)
    → Numbered k ws
    → k < id
    → id ≤ k + length ws
    → Absent id ws
    → ⊥
Numbered-present k id [] h l m a = omega arith
Numbered-present k id (x ∷ ws) h l m a = elim (Bool-cases (k + 1 == id)) [
  | inl b ↦ clash x.worker_id (k + 1) id h.0 b a.0
  | inr b ↦ Numbered-present (k + 1) id ws h.1 (ground arith) (omega arith) a.1
]
  where
    clash : (a b c : ℕ) → a ≡ b → (b == c) ≡ true → (a == c) ≡ false → ⊥
    clash a b c e p q = ground arith

-- The registry without its entry `w`, which is not the last, and then with a new one.
gap :
    (front back : List WorkerInfo) (w : WorkerInfo) (new : WorkerInfo)
    → Numbered 0 (front ++ w ∷ back)
    → 0 < length back
    → (old : WorkerInfo) × (find_loop (length front + 1 + length back) (front ++ w ∷ back)
        ≡ some old)
      × (find_loop (length front + 1 + length back) ((front ++ back) ++ new ∷ []) ≡ some old)
unfolding find_loop
gap front back w new h p =
    let (f, e, b) = Numbered-split 0 front w back h in
    let (old, last) =
      find_loop-last (length front + 1) back (subst (λ n. Numbered n back) (omega arith) b) p in
    let top = length front + 1 + length back in
    let skip = find_loop-skip 0 top front in
    let other : (w.worker_id == top) ≡ false = unlike w.worker_id top (omega arith) in
    (
      old,
      skip (w ∷ back) f (omega arith) ∙ rw other last,
      find_loop-append top (front ++ back) (new ∷ []) old (skip back f (omega arith) ∙ last),
    )
  where
    unlike : (a b : ℕ) → a < b → (a == b) ≡ false
    unlike a b l = ground arith

add_open :
    (sockfd : ℤ) (thread_id now : ℕ) (r : Registry)
    → is_open sockfd ≡ true
    → length r.workers < r.capacity
    → add sockfd thread_id now r ≡ (
      length r.workers + 1,
      record r {
        workers = r.workers ++ new_worker (length r.workers + 1) sockfd thread_id now ∷ [];
      },
    )
unfolding add
add_open sockfd thread_id now r o l =
    let b : ltb (length r.workers) r.capacity ≡ true = ground arith in rw (o, b) refl

get_positive :
    (id : ℕ) (r : Registry) (w : WorkerInfo)
    → 0 < id
    → find_loop id r.workers ≡ some w
    → get id r ≡ some w
unfolding get
get_positive zero r w p e = absurd (omega arith)
get_positive (suc n) r w p e = e

-- Where the workers are numbered from 1 on and are no more than the capacity, let a worker that is
-- not the last be removed and one with an open socket be added. The number returned is that of the
-- worker that was the last, which is still in the registry, and `worker_registry_get` finds that one
-- under it and not the new one.
pub remove-add_collides :
    (n : ℕ) (sockfd : ℤ) (thread_id now : ℕ) (r : Registry)
    → Numbered 0 r.workers
    → length r.workers ≤ r.capacity
    → suc n < length r.workers
    → is_open sockfd ≡ true
    → let (id, r') = add sockfd thread_id now (remove (suc n) r).2 in
      (id ≡ length r.workers)
      × ((old : WorkerInfo) × (get id r ≡ some old) × (get id r' ≡ some old))
remove-add_collides n sockfd thread_id now r h room l o = elim (remove_lem n r) [
  | inl (e, a) ↦ absurd (Numbered-present 0 (suc n) r.workers h (omega arith) (omega arith) a)
  | inr (w, front, back, (s, a, q), e) ↦
      let split = Numbered-split 0 front w back (subst (Numbered 0) s h) in
      let size : length r.workers ≡ length front + suc (length back) =
        ap length s ∙ length-append front (w ∷ back) in
      let left = length-append front back in
      let r1 : Registry = record r { workers = front ++ back } in
      let new = new_worker (length (front ++ back) + 1) sockfd thread_id now in
      let (old, before, after) = gap front back w new (subst (Numbered 0) s h) (omega arith) in
      let number : length (front ++ back) + 1 ≡ length front + 1 + length back = omega arith in
      let next = length (front ++ back) + 1 in
      let r2 : Registry = record r1 { workers = (front ++ back) ++ new ∷ [] } in
      let before' =
        subst (λ k. find_loop k r.workers ≡ some old) (sym number)
          (subst (λ l. find_loop (length front + 1 + length back) l ≡ some old) (sym s) before) in
      let after' =
        subst (λ k. find_loop k ((front ++ back) ++ new ∷ []) ≡ some old) (sym number) after in
      rw (e, add_open sockfd thread_id now r1 o (omega arith))
        (
          omega arith,
          (
            old,
            get_positive next r old (omega arith) before',
            get_positive next r2 old (omega arith) after',
          ),
        )
]
