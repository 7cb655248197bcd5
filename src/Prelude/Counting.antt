-- ===== src/Prelude/Counting.antt =====
-- How many elements of a list have a property, and what one write does to the number; where an
-- element of an updated list comes from.
use Prim.Native.Nat.{ℕ, zero, suc, ◌+◌}
use mathlib.Core.Path.{◌≡◌, refl, sym, ap}
use mathlib.Core.Logic.{◌≢◌, ◌⊎◌, inl, inr}
use mathlib.Core.Bool.{Bool, true, false}
use mathlib.Core.List.{List, [], ◌∷◌}
use mathlib.Core.Option.{some}
use native.Mathlib.Omega.{arith}
use c_simples.Prelude.Lists.{get_elem?, set, replicate, some_eq}

abbrev pub bit : Bool → ℕ
bit true = 1
bit false = 0

module _ {ℓ} {A : Type ℓ} where
  unfoldable pub count_if : (A → Bool) → List A → ℕ
  count_if p [] = 0
  count_if p (x ∷ xs) = bit (p x) + count_if p xs

  -- Writing `new` over `old` takes the old element's share away and adds the new one's.
  pub count_if-set :
      (p : A → Bool) (xs : List A) (i : ℕ) (old new : A)
      → get_elem? xs i ≡ some old
      → count_if p (set xs i new) + bit (p old) ≡ count_if p xs + bit (p new)
  unfolding count_if
  count_if-set p [] i old new a = cc
  count_if-set p (x ∷ xs) zero old new a =
      let e : x ≡ old = some_eq a in omega (arith, ap (λ y. bit (p y)) e)
  count_if-set p (x ∷ xs) (suc i) old new a = omega (arith, count_if-set p xs i old new a)

  pub count_if-replicate :
      (p : A → Bool) (n : ℕ) (x : A) → p x ≡ false → count_if p (replicate n x) ≡ 0
  unfolding count_if
  count_if-replicate p zero x e = refl
  count_if-replicate p (suc n) x e = rw (e, count_if-replicate p n x e)

  -- An element of an updated list is the new one at its slot, or an old one elsewhere.
  pub get_elem?-set_cases :
      (xs : List A) (i j : ℕ) (v u : A)
      → get_elem? (set xs i v) j ≡ some u
      → ((j ≡ i) × (u ≡ v)) ⊎ ((j ≢ i) × (get_elem? xs j ≡ some u))
  get_elem?-set_cases [] i j v u e = cc
  get_elem?-set_cases (x ∷ xs) zero zero v u e = inl (refl, sym (some_eq e))
  get_elem?-set_cases (x ∷ xs) zero (suc j) v u e = inr ((λ q. omega arith), e)
  get_elem?-set_cases (x ∷ xs) (suc i) zero v u e = inr ((λ q. omega arith), e)
  get_elem?-set_cases (x ∷ xs) (suc i) (suc j) v u e = elim (get_elem?-set_cases xs i j v u e) [
    | inl (q, r) ↦ inl (ap suc q, r)
    | inr (q, r) ↦ inr ((λ b. q (omega arith)), r)
  ]

  -- The share of one slot, and that of the others, which a write to the slot keeps.
  pub count_if-split :
      (p : A → Bool) (xs : List A) (i : ℕ) (old : A)
      → get_elem? xs i ≡ some old
      → (rest : ℕ) × (count_if p xs ≡ bit (p old) + rest)
        × ((new : A) → count_if p (set xs i new) ≡ bit (p new) + rest)
  unfolding count_if
  count_if-split p [] i old a = cc
  count_if-split p (x ∷ xs) zero old a =
      (count_if p xs, ap (λ y. bit (p y) + count_if p xs) (some_eq a), λ new. refl)
  count_if-split p (x ∷ xs) (suc i) old a =
      let (rest, e, f) = count_if-split p xs i old a in
      (bit (p x) + rest, omega arith, λ new. omega (arith, f new))
