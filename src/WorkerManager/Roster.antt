-- ===== src/WorkerManager/Roster.antt =====
-- The numbers of the workers in the table: distinct, below the next one, and as many as the
-- statistics say.
use c_simples.Prelude.{
  ℕ, zero, suc, ◌+◌, ◌≤◌, ◌<◌, ◌≡◌, refl, sym, ap, ◌∙◌, inl, inr, Bool, not, some, List, [], ◌∷◌,
  arith, ◌==◌, pos, ℤ, inc, dec, inc_to, dec_to, get_elem?, set, set_same, All, All-set, count_if,
  count_if-set, get_elem?-set_cases, bit,
}
use c_simples.WorkerManager.{Worker}
use c_simples.WorkerManager.Table.{Holds}

unfoldable pub ids : List Worker → List ℕ
ids [] = []
ids (w ∷ ws) = w.worker_id ∷ ids ws

abbrev pub in_use : ℕ → Bool
in_use id = not (id == 0)

-- `next` is the next number, `total` the statistic, and entry `i` of the table has number `ns[i]`, 0
-- when it is free.
pub record Roster (next : ℕ) (total : ℤ) (ns : List ℕ) : Type 0 where
  pub some_number : 1 ≤ next
  pub below : All (λ n. n < next) ns
  pub distinct : (i j n : ℕ) → 0 < n → get_elem? ns i ≡ some n → get_elem? ns j ≡ some n → i ≡ j
  pub counted : total ≡ pos (count_if in_use ns)

pub ids-set :
    (ws : List Worker) (i : ℕ) (w : Worker) → ids (set ws i w) ≡ set (ids ws) i w.worker_id
unfolding ids
ids-set [] i w = refl
ids-set (x ∷ ws) zero w = refl
ids-set (x ∷ ws) (suc i) w = ap (◌∷◌ x.worker_id) (ids-set ws i w)

pub ids-Holds :
    (ws : List Worker) (i : ℕ) (w : Worker) → Holds ws i w → get_elem? (ids ws) i ≡ some w.worker_id
unfolding ids
ids-Holds [] i w a = cc
ids-Holds (x ∷ ws) zero w a = cc
ids-Holds (x ∷ ws) (suc i) w a = ids-Holds ws i w a

-- A write that keeps the number keeps the numbers.
pub ids-kept :
    (ws : List Worker) (i : ℕ) (old new : Worker)
    → Holds ws i old
    → new.worker_id ≡ old.worker_id
    → ids (set ws i new) ≡ ids ws
ids-kept ws i old new a e =
    ids-set ws i new ∙ set_same (ids ws) i new.worker_id (rw e (ids-Holds ws i old a))

All-weaken : (n : ℕ) (ns : List ℕ) → All (λ k. k < n) ns → All (λ k. k < n + 1) ns
All-weaken n [] h = tt
All-weaken n (k ∷ ns) h = (omega (arith, h.0), All-weaken n ns h.1)

All-below : (n i k : ℕ) (ns : List ℕ) → All (λ k. k < n) ns → get_elem? ns i ≡ some k → k < n
All-below n i k [] h e = cc
All-below n zero k (x ∷ ns) h e = ground arith
All-below n (suc i) k (x ∷ ns) h e = All-below n i k ns h.1 e

-- A free entry takes the next number.
pub Roster-register :
    (next : ℕ) (total : ℤ) (ns : List ℕ) (i : ℕ)
    → get_elem? ns i ≡ some 0
    → Roster next total ns
    → Roster (next + 1) (inc total) (set ns i next)
Roster-register next total ns i free r = record {
  some_number = omega arith;
  below = All-set (λ k. k < next + 1) ns i next (All-weaken next ns r.below) (omega arith);
  distinct = λ a b n p ea eb. elim (get_elem?-set_cases ns i a next n ea) [
    | inl (qa, ra) ↦ elim (get_elem?-set_cases ns i b next n eb) [
      | inl (qb, rb) ↦ qa ∙ sym qb
      | inr (qb, rb) ↦ absurd (omega (arith, All-below next b n ns r.below rb))
    ]
    | inr (qa, ra) ↦ elim (get_elem?-set_cases ns i b next n eb) [
      | inl (qb, rb) ↦ absurd (omega (arith, All-below next a n ns r.below ra))
      | inr (qb, rb) ↦ r.distinct a b n p ra rb
    ]
  ];
  counted =
      rw r.counted
        (inc_to (omega (arith, count_if-set in_use ns i 0 next free, used_bit next r.some_number)));
}
  where
    used_bit : (n : ℕ) → 1 ≤ n → bit (in_use n) ≡ 1
    used_bit n p = ground arith

-- A taken entry becomes free.
pub Roster-unregister :
    (next : ℕ) (total : ℤ) (ns : List ℕ) (i n : ℕ)
    → get_elem? ns i ≡ some n
    → 0 < n
    → Roster next total ns
    → Roster next (dec total) (set ns i 0)
Roster-unregister next total ns i n at p r = record {
  some_number = r.some_number;
  below = All-set (λ k. k < next) ns i 0 r.below r.some_number;
  distinct = λ a b k q ea eb. elim (get_elem?-set_cases ns i a 0 k ea) [
    | inl (qa, ra) ↦ absurd (omega arith)
    | inr (qa, ra) ↦ elim (get_elem?-set_cases ns i b 0 k eb) [
      | inl (qb, rb) ↦ absurd (omega arith)
      | inr (qb, rb) ↦ r.distinct a b k q ra rb
    ]
  ];
  counted = rw r.counted (dec_to (omega (arith, count_if-set in_use ns i n 0 at, used_bit n p)));
}
  where
    used_bit : (n : ℕ) → 0 < n → bit (in_use n) ≡ 1
    used_bit n p = ground arith
