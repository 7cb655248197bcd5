-- ===== src/TaskManager/Table.antt =====
-- The table of tasks: their numbers ascend, and a change of one task keeps them and the task's data.
use c_simples.Prelude.{
  ℕ, suc, ◌+◌, ◌≤◌, ◌≡◌, refl, ap, ◌∙◌, inl, inr, Bool-cases, true, some_eq, some, List, [], ◌∷◌,
  ◌++◌, arith, ◌==◌, length,
}
use c_simples.TaskManager.{Task, TaskInfo, change_loop, find_loop, timeout_loop, has_timed_out}

-- The numbers from `lo` on ascend and are below `hi`.
abbrev pub Ascending : ℕ → List TaskInfo → ℕ → Type 0
Ascending lo [] hi = lo ≤ hi
Ascending lo (t ∷ ts) hi = (lo ≤ t.task.task_id) × Ascending (t.task.task_id + 1) ts hi

-- The task is in the table, with these data.
abbrev pub Listed : List TaskInfo → Task → Type 0
Listed ts task = (t : TaskInfo) × (find_loop task.task_id ts ≡ some t) × (t.task ≡ task)

pub Ascending-le : (lo : ℕ) (ts : List TaskInfo) (hi : ℕ) → Ascending lo ts hi → lo ≤ hi
Ascending-le lo [] hi h = h
Ascending-le lo (t ∷ ts) hi h = omega (arith, Ascending-le (t.task.task_id + 1) ts hi h.1, h.0)

pub Ascending-append :
    (lo : ℕ) (ts : List TaskInfo) (hi : ℕ) (t : TaskInfo)
    → t.task.task_id ≡ hi
    → Ascending lo ts hi
    → Ascending lo (ts ++ t ∷ []) (hi + 1)
Ascending-append lo [] hi t e h = (omega arith, omega arith)
Ascending-append lo (x ∷ ts) hi t e h = (h.0, Ascending-append (x.task.task_id + 1) ts hi t e h.1)

pub Ascending-up :
    (lo : ℕ) (ts : List TaskInfo) (hi : ℕ) → Ascending lo ts hi → Ascending lo ts (hi + 1)
Ascending-up lo [] hi h = omega arith
Ascending-up lo (t ∷ ts) hi h = (h.0, Ascending-up (t.task.task_id + 1) ts hi h.1)

-- Each entry keeps its task.
abbrev pub SameTasks : List TaskInfo → List TaskInfo → Type 0
SameTasks [] [] = Unit
SameTasks [] (u ∷ us) = ⊥
SameTasks (t ∷ ts) [] = ⊥
SameTasks (t ∷ ts) (u ∷ us) = (u.task ≡ t.task) × SameTasks ts us

pub SameTasks-refl : (ts : List TaskInfo) → SameTasks ts ts
SameTasks-refl [] = tt
SameTasks-refl (t ∷ ts) = (refl, SameTasks-refl ts)

pub SameTasks-length : (ts us : List TaskInfo) → SameTasks ts us → length us ≡ length ts
SameTasks-length [] [] h = refl
SameTasks-length [] (u ∷ us) h = absurd h
SameTasks-length (t ∷ ts) [] h = absurd h
SameTasks-length (t ∷ ts) (u ∷ us) h = ap suc (SameTasks-length ts us h.1)

pub SameTasks-Ascending :
    (lo : ℕ) (ts us : List TaskInfo) (hi : ℕ)
    → SameTasks ts us
    → Ascending lo ts hi
    → Ascending lo us hi
SameTasks-Ascending lo [] [] hi h a = a
SameTasks-Ascending lo [] (u ∷ us) hi h a = absurd h
SameTasks-Ascending lo (t ∷ ts) [] hi h a = absurd h
SameTasks-Ascending lo (t ∷ ts) (u ∷ us) hi h a =
    rw h.0 (a.0, SameTasks-Ascending (t.task.task_id + 1) ts us hi h.1 a.1)

pub SameTasks-Listed :
    (ts us : List TaskInfo) (task : Task) → SameTasks ts us → Listed ts task → Listed us task
unfolding find_loop
SameTasks-Listed [] [] task h (t, e, q) = (t, e, q)
SameTasks-Listed [] (u ∷ us) task h l = absurd h
SameTasks-Listed (t ∷ ts) [] task h l = absurd h
SameTasks-Listed (t ∷ ts) (u ∷ us) task h (x, e, q) =
    elim (Bool-cases (t.task.task_id == task.task_id)) [
      | inl b ↦ (u, rw (h.0, b) refl, h.0 ∙ first (rw b at e) q)
      | inr b ↦
          let (v, f, r) = SameTasks-Listed ts us task h.1 (x, rw b at e, q) in (v, rw (h.0, b) f, r)
    ]
  where
    first : {t x : TaskInfo} → some t ≡ some x → x.task ≡ task → t.task ≡ task
    first e q = cc

pub change_loop-SameTasks :
    (id : ℕ) (f : TaskInfo → TaskInfo) (ts : List TaskInfo)
    → ((t : TaskInfo) → (f t).task ≡ t.task)
    → SameTasks ts (change_loop id f ts).1
unfolding change_loop
change_loop-SameTasks id f [] same = tt
change_loop-SameTasks id f (t ∷ ts) same = elim (Bool-cases (t.task.task_id == id)) [
  | inl b ↦ rw (b, change_loop) (same t, SameTasks-refl ts)
  | inr b ↦ rw (b, change_loop) (refl, change_loop-SameTasks id f ts same)
]

pub timeout_loop-SameTasks :
    (now limit : ℕ) (ts : List TaskInfo) → SameTasks ts (timeout_loop now limit ts).1
unfolding timeout_loop
timeout_loop-SameTasks now limit [] = tt
timeout_loop-SameTasks now limit (t ∷ ts) = elim (Bool-cases (has_timed_out now limit t)) [
  | inl b ↦ rw (b, timeout_loop) (refl, timeout_loop-SameTasks now limit ts)
  | inr b ↦ rw (b, timeout_loop) (refl, timeout_loop-SameTasks now limit ts)
]

-- A number above those of the table is not found, and a task put at the end is found by its own.
pub find_loop-append_new :
    (lo : ℕ) (ts : List TaskInfo) (t : TaskInfo)
    → Ascending lo ts t.task.task_id
    → find_loop t.task.task_id (ts ++ t ∷ []) ≡ some t
unfolding find_loop
find_loop-append_new lo [] t h = ground arith
find_loop-append_new lo (x ∷ ts) t h =
    let below = Ascending-le (x.task.task_id + 1) ts t.task.task_id h.1 in
    let rest = find_loop-append_new (x.task.task_id + 1) ts t h.1 in ground arith

pub find_loop-append :
    (id : ℕ) (ts : List TaskInfo) (new t : TaskInfo)
    → find_loop id ts ≡ some t
    → find_loop id (ts ++ new ∷ []) ≡ some t
unfolding find_loop
find_loop-append id [] new t e = cc
find_loop-append id (x ∷ ts) new t e = elim (Bool-cases (x.task.task_id == id)) [
  | inl b ↦ rw b (rw b at e)
  | inr b ↦ rw b (find_loop-append id ts new t (rw b at e))
]

find_loop-head :
    (id : ℕ) (t : TaskInfo) (ts : List TaskInfo)
    → (t.task.task_id == id) ≡ true
    → find_loop id (t ∷ ts) ≡ some t
unfolding find_loop
find_loop-head id t ts b = rw b refl

-- A change finds the task that a search finds, and the search finds it changed.
pub find_loop-change_loop :
    (id : ℕ) (f : TaskInfo → TaskInfo) (ts : List TaskInfo) (t : TaskInfo)
    → ((u : TaskInfo) → (f u).task ≡ u.task)
    → find_loop id ts ≡ some t
    → ((change_loop id f ts).0 ≡ true) × (find_loop id (change_loop id f ts).1 ≡ some (f t))
unfolding find_loop change_loop
find_loop-change_loop id f [] t same e = cc
find_loop-change_loop id f (x ∷ ts) t same e = elim (Bool-cases (x.task.task_id == id)) [
  | inl b ↦
      let first : some x ≡ some t = rw b at e in
      let head = find_loop-head id (f x) ts (ap (λ (k : Task). k.task_id == id) (same x) ∙ b) in
      rw (b, change_loop) (refl, head ∙ ap (λ u. some (f u)) (some_eq first))
  | inr b ↦
      let (found, there) = find_loop-change_loop id f ts t same (rw b at e) in
      rw (b, change_loop) (found, rw b there)
]

pub find_loop-number :
    (lo id hi : ℕ) (ts : List TaskInfo) (t : TaskInfo)
    → Ascending lo ts hi
    → find_loop id ts ≡ some t
    → lo ≤ id
unfolding find_loop
find_loop-number lo id hi [] t h e = cc
find_loop-number lo id hi (x ∷ ts) t h e = elim (Bool-cases (x.task.task_id == id)) [
  | inl b ↦ let l = h.0 in ground arith
  | inr b ↦
      let l = find_loop-number (x.task.task_id + 1) id hi ts t h.1 (rw b at e) in omega (arith, h.0)
]
