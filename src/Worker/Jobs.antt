-- ===== src/Worker/Jobs.antt =====
-- What `worker_process_job` computes.
use c_simples.Prelude.{
  ◌=ℤ◌, ℕ, zero, suc, ◌+◌, ◌-◌, ◌<◌, ◌≡◌, refl, ap, ap₂, ◌∙◌, true, false, some, List, [], ◌∷◌,
  ◌++◌, get_or, length, arith, ℤ, pos, negsuc, length-append, ◌≤◌, ◌⊎◌, inl, inr, dec_lt, Pointwise,
}
use c_simples.Worker.{JobTypes, process_job, fill_loop, upper}

-- The bytes in the opposite order.
unfoldable pub backwards : List ℕ → List ℕ
backwards [] = []
backwards (x ∷ xs) = backwards xs ++ x ∷ []

-- Each byte changed.
unfoldable pub map_bytes : (ℕ → ℕ) → List ℕ → List ℕ
map_bytes g [] = []
map_bytes g (x ∷ xs) = g x ∷ map_bytes g xs

pub length-backwards : (xs : List ℕ) → length (backwards xs) ≡ length xs
unfolding backwards
length-backwards [] = refl
length-backwards (x ∷ xs) =
    omega (arith, length-append (backwards xs) (x ∷ []), length-backwards xs)

backwards-append : (xs : List ℕ) (x : ℕ) → backwards (xs ++ x ∷ []) ≡ x ∷ backwards xs
unfolding backwards
backwards-append [] x = refl
backwards-append (y ∷ xs) x = ap (λ l. l ++ y ∷ []) (backwards-append xs x)

pub backwards-twice : (xs : List ℕ) → backwards (backwards xs) ≡ xs
unfolding backwards
backwards-twice [] = refl
backwards-twice (x ∷ xs) = backwards-append (backwards xs) x ∙ ap (◌∷◌ x) (backwards-twice xs)

fill_loop-same :
    (f g : ℕ → ℕ) (i n : ℕ) → ((k : ℕ) → k < i + n → f k ≡ g k) → fill_loop f i n ≡ fill_loop g i n
unfolding fill_loop
fill_loop-same f g i zero h = refl
fill_loop-same f g i (suc n) h =
    ap₂ ◌∷◌ (h i (omega arith)) (fill_loop-same f g (suc i) n (λ k l. h k (omega arith)))

fill_loop-shift : (f : ℕ → ℕ) (i n : ℕ) → fill_loop f (suc i) n ≡ fill_loop (λ k. f (suc k)) i n
unfolding fill_loop
fill_loop-shift f i zero = refl
fill_loop-shift f i (suc n) = ap (◌∷◌ (f (suc i))) (fill_loop-shift f (suc i) n)

fill_loop-map :
    (g : ℕ → ℕ) (xs : List ℕ) → fill_loop (λ i. g (get_or xs i 0)) 0 (length xs) ≡ map_bytes g xs
unfolding fill_loop map_bytes
fill_loop-map g [] = refl
fill_loop-map g (x ∷ xs) =
    ap (◌∷◌ (g x))
      (fill_loop-shift (λ i. g (get_or (x ∷ xs) i 0)) 0 (length xs) ∙ fill_loop-map g xs)

fill_loop-last : (f : ℕ → ℕ) (i n : ℕ) → fill_loop f i (suc n) ≡ fill_loop f i n ++ f (i + n) ∷ []
unfolding fill_loop
fill_loop-last f i zero = let e : i ≡ i + 0 = omega arith in ap (λ k. f k ∷ []) e
fill_loop-last f i (suc n) =
    let e : suc i + n ≡ i + suc n = omega arith in
    ap (◌∷◌ (f i)) (fill_loop-last f (suc i) n ∙ ap (λ k. fill_loop f (suc i) n ++ f k ∷ []) e)

fill_loop-backwards :
    (xs : List ℕ) → fill_loop (λ i. get_or xs (length xs - i - 1) 0) 0 (length xs) ≡ backwards xs
unfolding backwards fill_loop
fill_loop-backwards [] = refl
fill_loop-backwards (x ∷ xs) =
    let f : ℕ → ℕ = λ i. get_or (x ∷ xs) (suc (length xs) - i - 1) 0 in
    let g : ℕ → ℕ = λ i. get_or xs (length xs - i - 1) 0 in
    let last : suc (length xs) - (0 + length xs) - 1 ≡ 0 = omega arith in
    fill_loop-last f 0 (length xs)
    ∙ ap₂ (λ (l : List ℕ) (k : ℕ). l ++ k ∷ [])
        (fill_loop-same f g 0 (length xs) (λ k l. inner k (omega arith)) ∙ fill_loop-backwards xs)
        (ap (λ (k : ℕ). get_or (x ∷ xs) k 0) last)
  where
    inner :
        (k : ℕ)
        → k < length xs
        → get_or (x ∷ xs) (suc (length xs) - k - 1) 0 ≡ get_or xs (length xs - k - 1) 0
    inner k l =
        let e : suc (length xs) - k - 1 ≡ suc (length xs - k - 1) = omega arith in
        ap (λ (j : ℕ). get_or (x ∷ xs) j 0) e

=ℤ-same : (a : ℤ) → (a =ℤ a) ≡ true
=ℤ-same (pos n) = ground arith
=ℤ-same (negsuc n) = ground arith

map_bytes-same : (xs : List ℕ) → map_bytes (λ b. b) xs ≡ xs
unfolding map_bytes
map_bytes-same [] = refl
map_bytes-same (x ∷ xs) = ap (◌∷◌ x) (map_bytes-same xs)

-- A byte from a (97) to z (122) and the letter 32 before it, or another byte and itself.
abbrev pub Uppercased : ℕ → ℕ → Type 0
Uppercased b c = ((97 ≤ b) × (b ≤ 122) × (c + 32 ≡ b)) ⊎ (((b < 97) ⊎ (122 < b)) × (c ≡ b))

upper-Uppercased : (b : ℕ) → Uppercased b (upper b)
upper-Uppercased b = elim (dec_lt b 97) [
  | yes l ↦ inr (inl l, ground arith)
  | no m ↦ elim (dec_lt 122 b) [
    | yes l ↦ inr (inr l, ground arith)
    | no k ↦ inl (omega arith, omega arith, ground arith)
  ]
]

map_bytes-Uppercased : (xs : List ℕ) → Pointwise Uppercased xs (map_bytes upper xs)
unfolding map_bytes
map_bytes-Uppercased [] = tt
map_bytes-Uppercased (x ∷ xs) = (upper-Uppercased x, map_bytes-Uppercased xs)

-- When `malloc` succeeds and the numbers of the three job types are distinct, `worker_process_job` of
-- all the input returns the input for an echo job, its bytes in the opposite order for a reverse job,
-- and for an uppercase job a result of the same length with each byte from a to z (97 to 122) replaced by
-- the one 32 before it, and every other byte as it is.
pub process_job_lem :
    (types : JobTypes) (input : List ℕ)
    → (types.reversal =ℤ types.echo) ≡ false
    → (types.uppercase =ℤ types.echo) ≡ false
    → (types.uppercase =ℤ types.reversal) ≡ false
    → (process_job types types.echo input (length input) true ≡ some input)
      × (process_job types types.reversal input (length input) true ≡ some (backwards input))
      × ((result : List ℕ) × (process_job types types.uppercase input (length input) true
            ≡ some result)
          × Pointwise Uppercased input result)
unfolding process_job
process_job_lem types input re ue ur =
    let echo : fill_loop (λ i. get_or input i 0) 0 (length input) ≡ input =
      fill_loop-map (λ b. b) input ∙ map_bytes-same input in
    (
      rw (=ℤ-same types.echo) (ap some echo),
      rw (re, =ℤ-same types.reversal) (ap some (fill_loop-backwards input)),
      (
        map_bytes upper input,
        rw (ue, ur, =ℤ-same types.uppercase) (ap some (fill_loop-map upper input)),
        map_bytes-Uppercased input,
      ),
    )

-- When `malloc` succeeds and the numbers of the reverse and the echo job are distinct, a reverse job
-- on the result of a reverse job gives the input back.
pub process_job-twice :
    (types : JobTypes) (input : List ℕ)
    → (types.reversal =ℤ types.echo) ≡ false
    → (result : List ℕ) × (process_job types types.reversal input (length input) true ≡ some result)
      × (process_job types types.reversal result (length result) true ≡ some input)
unfolding process_job
process_job-twice types input re = (
  backwards input,
  rw (re, =ℤ-same types.reversal) (ap some (fill_loop-backwards input)),
  rw (re, =ℤ-same types.reversal)
      (ap some (fill_loop-backwards (backwards input) ∙ backwards-twice input)),
)
