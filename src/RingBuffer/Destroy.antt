-- ===== src/RingBuffer/Destroy.antt =====
-- `ring_buffer_destroy`: which elements it frees.
use c_simples.Prelude.{
  ℕ, zero, suc, ◌+◌, ◌%◌, ◌≤◌, ◌<◌, ◌≡◌, refl, ap, true, Option, none, some, List, [], ◌∷◌, arith,
  get_or, set, get_or-set_ne, inc32, ltb, if◌then◌else◌, ◌∙◌, ap₂, sym,
}
use native.Mathlib.Nat.{add-zero, mod-add-mod, mod-eq_of_lt}
use c_simples.RingBuffer.{RingBuffer, destroy, free_loop}
use c_simples.RingBuffer.Invariant.{Represents, window, queued, mod-add-ne}

next_index : (cap h k : ℕ) → ((h + k) % cap + 1) % cap ≡ (h + suc k) % cap
next_index cap h k = rw mod-add-mod (ap (λ (j : ℕ). j % cap) (omega arith))

module _ {ℓ} {A : Type ℓ} where
  -- Clearing the slot just before a window leaves the window.
  window-set_before :
      (buf : List (Option A)) (cap n h k : ℕ) (x : Option A)
      → h < cap
      → suc k + n ≤ cap
      → window (set buf h x) cap ((h + suc k) % cap) n ≡ window buf cap ((h + suc k) % cap) n
  window-set_before buf cap zero h k x hh b = refl
  window-set_before buf cap (suc n) h k x hh b =
      ap₂ ◌∷◌ (get_or-set_ne buf x none (λ e. mod-add-ne {h = h} {k = k} hh (omega arith) (sym e)))
        (rw (next_index cap h (suc k)) (window-set_before buf cap n h (suc k) x hh (omega arith)))

  free_loop-window :
      (cap head i n : ℕ) (buf : List (Option A))
      → cap ≤ 2147483648
      → head < cap
      → i + n ≤ cap
      → (free_loop cap head i n buf).0 ≡ window buf cap ((head + i) % cap) n
  unfolding free_loop
  free_loop-window cap head i zero buf w hh b = refl
  free_loop-window cap head i (suc n) buf w hh b =
      let j = (head + i) % cap in
      let here : (head + i) % 4294967296 % cap ≡ j = ap (λ (k : ℕ). k % cap) (omega arith) in
      let there : (head + inc32 i) % cap ≡ (j + 1) % cap =
        sym (next_index cap head i ∙ ap (λ (k : ℕ). k % cap) (omega arith)) in
      rw here (
        ap (◌∷◌ (get_or buf j none)) (
          free_loop-window cap head (inc32 i) n (set buf j none) w hh (omega arith)
          ∙ ap (λ k. window (set buf j none) cap k n) there
          ∙ window-set_before buf cap n j 0 none (omega arith) (omega arith)))

  guard-free_loop :
      (cap head n : ℕ) (buf : List (Option A))
      → (if ltb 0 n then (free_loop cap head 0 n buf).0 else []) ≡ (free_loop cap head 0 n buf).0
  unfolding free_loop
  guard-free_loop cap head zero buf = refl
  guard-free_loop cap head (suc n) buf = ground arith

  -- With `free_elements`, a well-formed buffer of at most 2^31 slots frees exactly the elements that
  -- it holds, each once, oldest first; without it, none.
  pub destroy_lem :
      (rb : RingBuffer A) (q : List A)
      → Represents rb q
      → rb.capacity ≤ 2147483648
      → destroy (some rb) true ≡ queued q
  unfolding destroy
  destroy_lem rb q r w =
      guard-free_loop rb.capacity rb.head rb.size rb.buffer
      ∙ free_loop-window rb.capacity rb.head 0 rb.size rb.buffer w r.valid.head_in (omega arith)
      ∙ ap (λ h. window rb.buffer rb.capacity h rb.size)
          (ap (λ (k : ℕ). k % rb.capacity) (add-zero rb.head) ∙ mod-eq_of_lt r.valid.head_in)
      ∙ r.held
