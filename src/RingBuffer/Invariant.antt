-- ===== src/RingBuffer/Invariant.antt =====
-- Well-formed ring buffers: the indices stay inside the array and no `uint32_t` wraps.
use c_simples.Prelude.{
  ◌↔◌, ◌⊎◌, sym, false, ℕ, zero, suc, ◌+◌, ◌-◌, ◌%◌, ◌≤◌, ◌<◌, ◌≡◌, refl, ap, ◌≢◌, Option, none,
  some, List, [], ◌∷◌, ◌++◌, arith, length, get_or, set, get_or-set_self, get_or-set_ne, dec_lt,
}
use c_simples.RingBuffer.{RingBuffer, CreateEnv, create, new_buffer}
use native.Mathlib.Nat.{mod-add-mod, mod-eq_of_lt, mod-eq-sub-mod, add-zero}
use mathlib.Core.Path.{◌∙◌, ap₂}

-- Well-formedness; `capacity` is a `uint32_t`.
pub record IsValid {ℓ} {A : Type ℓ} (rb : RingBuffer A) : Type 0 where
  pub array : length rb.buffer ≡ rb.capacity
  pub nonempty : 0 < rb.capacity
  pub word : rb.capacity < 4294967296
  pub head_in : rb.head < rb.capacity
  pub size_in : rb.size ≤ rb.capacity
  pub tail_at : rb.tail ≡ (rb.head + rb.size) % rb.capacity

module _ {ℓ} {A : Type ℓ} where
  -- The `n` pointers from index `h` on, going round at `cap`.
  abbrev pub window : List (Option A) → ℕ → ℕ → ℕ → List (Option A)
  window buf cap h zero = []
  window buf cap h (suc n) = get_or buf h none ∷ window buf cap ((h + 1) % cap) n

  abbrev pub queued : List A → List (Option A)
  queued [] = []
  queued (x ∷ xs) = some x ∷ queued xs

  pub queued-append : (xs ys : List A) → queued (xs ++ ys) ≡ queued xs ++ queued ys
  queued-append [] ys = refl
  queued-append (x ∷ xs) ys = ap (◌∷◌ (some x)) (queued-append xs ys)

  pub length-queued : (xs : List A) → length (queued xs) ≡ length xs
  length-queued [] = refl
  length-queued (x ∷ xs) = ap suc (length-queued xs)

  pub length-window : (buf : List (Option A)) (cap h n : ℕ) → length (window buf cap h n) ≡ n
  length-window buf cap h zero = refl
  length-window buf cap h (suc n) = ap suc (length-window buf cap ((h + 1) % cap) n)

-- The buffer holds the elements `q`, oldest first.
pub record Represents {ℓ} {A : Type ℓ} (rb : RingBuffer A) (q : List A) : Type ℓ where
  pub valid : IsValid rb
  pub held : window rb.buffer rb.capacity rb.head rb.size ≡ queued q

pub Represents-size {ℓ} :
    {A : Type ℓ} (rb : RingBuffer A) (q : List A) → Represents rb q → rb.size ≡ length q
Represents-size rb q r =
    omega (
      arith,
      ap length r.held,
      length-window rb.buffer rb.capacity rb.head rb.size,
      length-queued q,
    )

-- An index less than twice the capacity wraps by one subtraction.
mod_wrap : (a cap : ℕ) → cap ≤ a → a < cap + cap → a % cap ≡ a - cap
mod_wrap a cap above below = mod-eq-sub-mod above ∙ mod-eq_of_lt (omega arith)

-- Going on by fewer than `cap` steps does not come back to the start.
pub mod-add-ne : {cap h k : ℕ} → h < cap → suc k < cap → (h + suc k) % cap ≢ h
mod-add-ne {cap} {h} {k} inside short back = elim (dec_lt (h + suc k) cap) [
  | yes below ↦ absurd (omega (arith, mod-eq_of_lt below))
  | no over ↦ absurd (omega (arith, mod_wrap (h + suc k) cap (omega arith) (omega arith)))
]

pub mod-step : (cap h n : ℕ) → (h + suc n) % cap ≡ ((h + 1) % cap + n) % cap
mod-step cap h n = rw mod-add-mod (ap (λ (k : ℕ). k % cap) (omega arith))

-- A write at the slot after a window extends the window by one.
pub window-set {ℓ} :
    {A : Type ℓ} (slot cap n start : ℕ) (p : Option A) (array : List (Option A))
    → slot ≡ (start + n) % cap
    → n < cap
    → start < cap
    → cap ≤ length array
    → window (set array slot p) cap start (suc n) ≡ window array cap start n ++ p ∷ []
window-set slot cap zero start p array at short inside fits =
    rw (at, add-zero, mod-eq_of_lt inside)
      (ap (λ o. o ∷ []) (get_or-set_self array start p none (omega arith)))
window-set slot cap (suc n) start p array at short inside fits =
    let rest =
      window-set slot cap n ((start + 1) % cap) p array (at ∙ mod-step cap start n) (omega arith)
        (omega arith) fits in
    let first = get_or-set_ne array p none (rw at (mod-add-ne inside short)) in ap₂ ◌∷◌ first rest

new_buffer-Represents {ℓ} :
    {A : Type ℓ} (cap : ℕ) (storage : List (Option A))
    → 0 < cap
    → cap < 4294967296
    → length storage ≡ cap
    → Represents (new_buffer cap storage) []
unfolding new_buffer
new_buffer-Represents cap storage p w l = record {
  valid = record {
    array = l;
    nonempty = p;
    word = w;
    head_in = p;
    size_in = omega arith;
    tail_at = sym (mod-eq_of_lt p);
  };
  held = refl;
}

create-some {ℓ} :
    {A : Type ℓ} (cap : ℕ) (env : CreateEnv A) (storage : List (Option A)) (rb : RingBuffer A)
    → env.array ≡ some storage
    → create cap env ≡ some rb
    → (rb ≡ new_buffer cap storage) × (0 < cap)
unfolding create
create-some cap env storage rb e h = ground arith

-- If `malloc` gives an array of `capacity` slots, then whatever `ring_buffer_create` returns is a
-- well-formed, empty buffer of that capacity.
pub create-Represents {ℓ} :
    {A : Type ℓ} (cap : ℕ) (env : CreateEnv A) (storage : List (Option A)) (rb : RingBuffer A)
    → cap < 4294967296
    → env.array ≡ some storage
    → length storage ≡ cap
    → create cap env ≡ some rb
    → Represents rb [] × (rb.capacity ≡ cap)
unfolding new_buffer
create-Represents cap env storage rb w e l h =
    let (same, p) = create-some cap env storage rb e h in
    (rw same (new_buffer-Represents cap storage p w l), ap (λ r. r.capacity) same)

-- `ring_buffer_create` returns NULL for capacity 0 and when any of its five calls fails, and a
-- buffer otherwise.
pub create-none {ℓ} :
    {A : Type ℓ} (cap : ℕ) (env : CreateEnv A)
    → (create cap env ≡ none) ↔ (
        (cap ≡ 0)
        ⊎ (env.struct_ok ≡ false)
        ⊎ (env.array ≡ none)
        ⊎ (env.mutex_ok ≡ false)
        ⊎ (env.not_empty_ok ≡ false)
        ⊎ (env.not_full_ok ≡ false))
unfolding create
create-none cap env = ground arith
