-- ===== src/Prelude/Int.antt =====
-- Signed counters: a C `int` that is only incremented and decremented. Signed overflow is undefined
-- in C and is outside the model; a counter that falls below zero is not.
use Prim.Native.Nat.{ℕ, zero, suc}
use mathlib.Core.Path.{◌≡◌, refl, sym, ap}
use mathlib.Core.Logic.{◌≢◌}
use mathlib.Core.Bool.{Bool, false}
use c_simples.Prelude.Booleans.{◌==◌}
use native.Mathlib.Omega.{arith}

-- `negsuc n` is -(n + 1).
pub data ℤ : Type 0 where
  pos : ℕ → ℤ
  negsuc : ℕ → ℤ

-- The number, or 0 for a negative one.
abbrev pub pos_part : ℤ → ℕ
pos_part (pos n) = n
pos_part (negsuc n) = zero

-- `n++`
unfoldable pub inc : ℤ → ℤ
inc (pos n) = pos (suc n)
inc (negsuc zero) = pos zero
inc (negsuc (suc n)) = negsuc n

-- `n--`
unfoldable pub dec : ℤ → ℤ
dec (pos zero) = negsuc zero
dec (pos (suc n)) = pos n
dec (negsuc n) = negsuc (suc n)

-- `==` on signed numbers
infix 50 ◌=ℤ◌
abbrev pub ◌=ℤ◌ : ℤ → ℤ → Bool
pos a =ℤ pos b = a == b
negsuc a =ℤ negsuc b = a == b
_ =ℤ _ = false

-- Addition, as that many increments or decrements.
infixl 60 ◌+ℤ◌
abbrev pub ◌+ℤ◌ : ℤ → ℤ → ℤ
a +ℤ pos zero = a
a +ℤ pos (suc n) = inc (a +ℤ pos n)
a +ℤ negsuc zero = dec a
a +ℤ negsuc (suc n) = dec (a +ℤ negsuc n)

pub inc-pos : (n : ℕ) → inc (pos n) ≡ pos (suc n)
unfolding inc
inc-pos n = refl

pub dec-pos : (n : ℕ) → dec (pos (suc n)) ≡ pos n
unfolding dec
dec-pos n = refl

pub dec-inc : (a : ℤ) → dec (inc a) ≡ a
unfolding inc dec
dec-inc (pos n) = refl
dec-inc (negsuc zero) = refl
dec-inc (negsuc (suc n)) = refl

pub inc-dec : (a : ℤ) → inc (dec a) ≡ a
unfolding inc dec
inc-dec (pos zero) = refl
inc-dec (pos (suc n)) = refl
inc-dec (negsuc n) = refl

-- With the count that results.
pub inc_to : {n m : ℕ} → m ≡ suc n → inc (pos n) ≡ pos m
unfolding inc
inc_to e = ap pos (sym e)

pub dec_to : {n m : ℕ} → n ≡ suc m → dec (pos n) ≡ pos m
unfolding dec
dec_to {n = zero} e = absurd (omega arith)
dec_to {n = suc n} e = ap pos (omega arith)

pub dec_ne : (a : ℤ) → dec a ≢ a
unfolding dec
dec_ne (pos zero) e = cc
dec_ne (pos (suc n)) e = absurd (omega (arith, ap pos_part e))
dec_ne (negsuc n) e = absurd (omega (arith, ap neg_part e))
  where
    neg_part : ℤ → ℕ
    neg_part (pos n) = 0
    neg_part (negsuc n) = n
