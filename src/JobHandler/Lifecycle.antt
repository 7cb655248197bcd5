-- ===== src/JobHandler/Lifecycle.antt =====
-- What a history of calls can do to one job.
use c_simples.Prelude.{
  ℕ, zero, suc, ◌+◌, ◌≤◌, ◌<◌, ◌≡◌, refl, sym, ◌∙◌, ◌⊎◌, inl, inr, Bool, Option, none, List, [],
  ◌∷◌, arith, length, set, length-set, some_eq, subst, ℤ, Option-cases, Bool-cases,
}
use c_simples.JobHandler.{
  Job, completed, Handler, Limits, Call, run, submit, find_free_job_slot, missing, taken, retried,
  given_up,
}
use c_simples.JobHandler.Table.{At, find_free_job_slot-At}
use c_simples.JobHandler.Numbering.{free_slot-number}
use c_simples.JobHandler.Moves.{
  Move, enqueue, take, finish, retry, give_up, Moves, stay, after, IsRunning, IsWaiting, IsFailure,
}
use c_simples.JobHandler.Invariant.{IsValid}
use c_simples.JobHandler.Calls.{run-Moves, run-IsValid}

-- A job that no call touches any more.
abbrev pub IsOver : Job → Type 0
IsOver j = (j.status ≡ completed) ⊎ IsFailure j.status

-- `j'` is the same job at a later time.
pub record Later (j j' : Job) : Type 0 where
  pub number : j'.job_id ≡ j.job_id
  pub client : j'.client_socket ≡ j.client_socket
  pub type : j'.job_type ≡ j.job_type
  pub input : j'.input_data ≡ j.input_data
  pub size : j'.input_size ≡ j.input_size
  pub submitted : j'.submit_time ≡ j.submit_time
  pub attempts : j.retry_count ≤ j'.retry_count
  pub over : IsOver j → j' ≡ j

Later-refl : (j : Job) → Later j j
Later-refl j = record {
  number = refl;
  client = refl;
  type = refl;
  input = refl;
  size = refl;
  submitted = refl;
  attempts = omega arith;
  over = λ _. refl;
}

Later-trans : (j k l : Job) → Later j k → Later k l → Later j l
Later-trans j k l a b = record {
  number = b.number ∙ a.number;
  client = b.client ∙ a.client;
  type = b.type ∙ a.type;
  input = b.input ∙ a.input;
  size = b.size ∙ a.size;
  submitted = b.submitted ∙ a.submitted;
  attempts = omega arith;
  over = λ o. b.over (subst IsOver (sym (a.over o)) o) ∙ a.over o;
}

not_over_running : (j : Job) → IsRunning j → IsOver j → ⊥
not_over_running j r o = ground arith

not_over_waiting : (j : Job) → IsWaiting j → IsOver j → ⊥
not_over_waiting j w o = ground arith

-- A job that is not over, with the fields that no call changes.
changed :
    (old new : Job)
    → (IsOver old → ⊥)
    → new.job_id ≡ old.job_id
    → new.client_socket ≡ old.client_socket
    → new.job_type ≡ old.job_type
    → new.input_data ≡ old.input_data
    → new.input_size ≡ old.input_size
    → new.submit_time ≡ old.submit_time
    → old.retry_count ≤ new.retry_count
    → Later old new
changed old new live a b c d e f g = record {
  number = a;
  client = b;
  type = c;
  input = d;
  size = e;
  submitted = f;
  attempts = g;
  over = λ o. absurd (live o);
}

-- What a write of `new` over `old` at entry `k` does to the job at entry `i`.
Later-set :
    (js : List Job) (i k : ℕ) (j old new : Job)
    → At js i j
    → At js k old
    → 0 < j.job_id
    → (old.job_id ≡ 0) ⊎ Later old new
    → (j' : Job) × At (set js k new) i j' × Later j j'
Later-set [] i k j old new a b p l = cc
Later-set (x ∷ js) zero zero j old new a b p (inl z) = absurd (ground arith)
Later-set (x ∷ js) zero zero j old new a b p (inr l) =
    (new, refl, subst (λ y. Later y new) (sym (some_eq b) ∙ some_eq a) l)
Later-set (x ∷ js) zero (suc k) j old new a b p l = (j, a, Later-refl j)
Later-set (x ∷ js) (suc i) zero j old new a b p l = (j, a, Later-refl j)
Later-set (x ∷ js) (suc i) (suc k) j old new a b p l = Later-set js i k j old new a b p l

module _ (limits : Limits) where
  Move-Later :
      {h h' : Handler} (i : ℕ) (j : Job)
      → Move limits h h'
      → At h.jobs i j
      → 0 < j.job_id
      → (j' : Job) × At h'.jobs i j' × Later j j'
  Move-Later {h} i j (enqueue k client job_type bytes size now e) a p =
      let (old, b, z) = find_free_job_slot-At h.jobs k e in
      Later-set h.jobs i k j old _ a b p (inl z)
  Move-Later {h} i j (take k old worker now b w) a p =
      Later-set h.jobs i k j old (taken old worker now) a b p (
        inr (
          changed old (taken old worker now) (not_over_waiting old w) refl refl refl refl refl refl
            (omega arith)))
  Move-Later {h} i j (finish k old bytes size now b r) a p =
      let new : Job = record old {
        result_data = bytes;
        result_size = size;
        status = completed;
        end_time = now;
      } in
      Later-set h.jobs i k j old new a b p
        (inr (changed old new (not_over_running old r) refl refl refl refl refl refl (omega arith)))
  Move-Later {h} i j (retry k old b r l) a p = Later-set h.jobs i k j old (retried old) a b p (
      inr (
        changed old (retried old) (not_over_running old r) refl refl refl refl refl refl
          (omega arith)))
  Move-Later {h} i j (give_up k old s now b r l f) a p =
      Later-set h.jobs i k j old (given_up s now old) a b p (
        inr (
          changed old (given_up s now old) (not_over_running old r) refl refl refl refl refl refl
            (omega arith)))

  Moves-Later :
      {h h' : Handler} (i : ℕ) (j : Job)
      → Moves limits h h'
      → At h.jobs i j
      → 0 < j.job_id
      → (j' : Job) × At h'.jobs i j' × Later j j'
  Moves-Later i j stay a p = (j, a, Later-refl j)
  Moves-Later i j (after ms m) a p =
      let (k, b, l) = Moves-Later i j ms a p in
      let (j', c, l') = Move-Later i k m b (subst (λ (n : ℕ). 0 < n) (sym l.number) p) in
      (j', c, Later-trans j k j' l l')

  -- Under every history of calls a job stays in its entry of the table, with its number, client,
  -- type, input and time of submission; its failed attempts are never forgotten; and once it has
  -- completed, failed for good or timed out for good, nothing of it changes any more.
  pub run-Later :
      (h : Handler) (cs : List Call) (i : ℕ) (j : Job)
      → 0 < limits.max_retries
      → IsValid limits h
      → At h.jobs i j
      → 0 < j.job_id
      → (j' : Job) × At (run limits h cs).jobs i j' × Later j j'
  run-Later h cs i j m v a p = Moves-Later i j (run-Moves limits m h cs v) a p

  -- The table keeps its size, and numbers are only given.
  Moves-length :
      {h h' : Handler}
      → Moves limits h h'
      → (length h'.jobs ≡ length h.jobs) × (h.next_job_id ≤ h'.next_job_id)
  Moves-length stay = (refl, omega arith)
  Moves-length (after {h'} ms (enqueue i client job_type bytes size now e)) =
      let (l, n) = Moves-length ms in (length-set h'.jobs i _ ∙ l, omega arith)
  Moves-length (after {h'} ms (take i j worker now a w)) =
      let (l, n) = Moves-length ms in (length-set h'.jobs i _ ∙ l, n)
  Moves-length (after {h'} ms (finish i j bytes size now a r)) =
      let (l, n) = Moves-length ms in (length-set h'.jobs i _ ∙ l, n)
  Moves-length (after {h'} ms (retry i j a r q)) =
      let (l, n) = Moves-length ms in (length-set h'.jobs i _ ∙ l, n)
  Moves-length (after {h'} ms (give_up i j s now a r q f)) =
      let (l, n) = Moves-length ms in (length-set h'.jobs i _ ∙ l, n)

  no_free_slot :
      (h : Handler)
      → IsValid limits h
      → h.next_job_id ≡ length h.jobs + 1
      → find_free_job_slot h.jobs ≡ none
  no_free_slot h v full = elim (Option-cases (find_free_job_slot h.jobs)) [
    | inl n ↦ n
    | inr (i, e) ↦
        let (q, l) =
          free_slot-number 1 h.next_job_id h.jobs i (omega arith) v.some_number v.numbered e in
        absurd (omega arith)
  ]

  submit-refused :
      (client job_type : ℤ) (bytes : Option (List ℕ)) (size : ℕ) (ok : Bool) (now : ℕ) (h : Handler)
      → find_free_job_slot h.jobs ≡ none
      → submit client job_type bytes size ok now h ≡ (none, h)
  unfolding submit
  submit-refused client job_type bytes size ok now h e = elim (Bool-cases (missing bytes size)) [
    | inl b ↦ rw b
    | inr b ↦ rw b (rw e)
  ]

  -- Once as many jobs have been accepted as the table has entries, every later submission is
  -- refused, whatever calls come in between.
  pub submit_exhausted :
      (h : Handler) (cs : List Call) (client job_type : ℤ) (bytes : Option (List ℕ)) (size : ℕ)
      (ok : Bool) (now : ℕ)
      → 0 < limits.max_retries
      → IsValid limits h
      → h.next_job_id ≡ length h.jobs + 1
      → submit client job_type bytes size ok now (run limits h cs) ≡ (none, run limits h cs)
  submit_exhausted h cs client job_type bytes size ok now m v full =
      let v' = run-IsValid limits m h cs v in
      let (l, n) = Moves-length (run-Moves limits m h cs v) in
      submit-refused client job_type bytes size ok now (run limits h cs)
        (no_free_slot (run limits h cs) v' (omega (arith, v'.in_table)))
