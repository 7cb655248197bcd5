-- ===== src/TaskManager/Invariant.antt =====
-- task_manager.c: the table and the queue together, and `task_manager_create_task` on them.
use c_simples.Prelude.{
  ℕ, zero, suc, ◌+◌, ◌≤◌, ◌<◌, ◌≡◌, refl, inl, inr, ◌⊎◌, true, false, Bool-cases, Option, none,
  some, List, [], ◌∷◌, ◌++◌, arith, ◌==◌, if◌then◌else◌, length, pos, ltb, ◌&&◌, All, dec_lt, inc32,
  length-append,
}
use native.Mathlib.Nat.{mod-eq_of_lt}
use c_simples.RingBuffer.{push, push_now, pushed, push_failed}
use c_simples.RingBuffer.Invariant.{Represents, Represents-size}
use c_simples.RingBuffer.Refinement.{push_space, push_refused, push_now-Represents}
use c_simples.TaskManager.{
  Task, TaskInfo, Manager, new_task, new_info, size_fits, enter_task, create_task, get_task,
  find_loop,
}
use c_simples.TaskManager.Table.{
  Ascending, Ascending-le, Ascending-append, Ascending-up, Listed, SameTasks, SameTasks-length,
  SameTasks-Ascending, SameTasks-Listed, find_loop-append_new, find_loop-append,
}

-- The queue holds `q`, oldest first, and each task of it is in the table with the same data; the
-- numbers of the table ascend, from 1 and below the next one.
pub record Holds (m : Manager) (q : List Task) : Type 0 where
  pub queue : Represents m.task_queue q
  pub numbers : Ascending 1 m.tasks m.next_task_id
  pub fits : length m.tasks ≤ m.capacity
  pub listed : All (Listed m.tasks) q

Listed-append :
    (ts : List TaskInfo) (new : TaskInfo) (q : List Task)
    → All (Listed ts) q
    → All (Listed (ts ++ new ∷ [])) q
Listed-append ts new [] h = tt
Listed-append ts new (x ∷ q) ((t, e, same), h) =
    ((t, find_loop-append x.task_id ts new t e, same), Listed-append ts new q h)

All-append : (P : Task → Type 0) (q : List Task) (x : Task) → All P q → P x → All P (q ++ x ∷ [])
All-append P [] x h p = (p, tt)
All-append P (y ∷ q) x h p = (h.0, All-append P q x h.1 p)

SameTasks-All :
    (ts us : List TaskInfo) (q : List Task)
    → SameTasks ts us
    → All (Listed ts) q
    → All (Listed us) q
SameTasks-All ts us [] s h = tt
SameTasks-All ts us (x ∷ q) s h = (SameTasks-Listed ts us x s h.0, SameTasks-All ts us q s h.1)

-- A change that keeps the tasks of the table.
pub same_tasks :
    (m : Manager) (ts : List TaskInfo) (q : List Task)
    → SameTasks m.tasks ts
    → Holds m q
    → Holds (record m { tasks = ts }) q
same_tasks m ts q s h = record {
  queue = h.queue;
  numbers = SameTasks-Ascending 1 m.tasks ts m.next_task_id s h.numbers;
  fits = omega (arith, SameTasks-length m.tasks ts s, h.fits);
  listed = SameTasks-All m.tasks ts q s h.listed;
}

-- What `task_manager_create_task` has done.
abbrev pub Created : Task → ℕ → Manager → List Task → Option ℕ × Manager → Type 0
Created task now m q (r, m') =
    (r ≡ some task.task_id)
    × (get_task (some m') task.task_id ≡ some (new_info task now))
    × (m'.next_task_id ≡ m.next_task_id + 1)
    × Holds m' (q ++ task ∷ [])

-- What it leaves when it fails: the table and the queue as they were.
abbrev pub Refused : Manager → List Task → Option ℕ × Manager → Type 0
Refused m q (r, m') =
    (r ≡ none)
    × (m'.tasks ≡ m.tasks)
    × (m'.task_queue ≡ m.task_queue)
    × (m'.next_task_id ≤ m.next_task_id + 1)
    × Holds m' q

next_number : (n : ℕ) → n < 4294967295 → inc32 n ≡ n + 1
next_number n l = mod-eq_of_lt (omega arith)

enter-Created :
    (task : Task) (now : ℕ) (m : Manager) (q : List Task)
    → m.next_task_id < 4294967295
    → task.task_id ≡ m.next_task_id
    → length m.tasks < m.capacity
    → m.task_queue.size < m.task_queue.capacity
    → Holds m q
    → Created task now m q (enter_task task now m (pushed (push_now m.task_queue task)))
unfolding get_task
enter-Created task now m q l e room space h =
    let info = new_info task now in
    let above : Ascending 1 m.tasks task.task_id = rw e h.numbers in
    let found = find_loop-append_new 1 m.tasks info above in
    let positive : 1 ≤ task.task_id = Ascending-le 1 m.tasks task.task_id above in
    (
      refl,
      at_end (m.tasks ++ info ∷ []) task.task_id info positive found,
      next_number m.next_task_id l,
      record {
        queue = push_now-Represents m.task_queue q task h.queue space;
        numbers =
            rw (next_number m.next_task_id l)
              (Ascending-append 1 m.tasks m.next_task_id info e h.numbers);
        fits = omega (arith, length-append m.tasks (info ∷ []));
        listed =
            All-append (Listed (m.tasks ++ info ∷ [])) q task
              (Listed-append m.tasks info q h.listed) (info, found, refl);
      },
    )
  where
    at_end :
        (ts : List TaskInfo) (id : ℕ) (t : TaskInfo)
        → 1 ≤ id
        → find_loop id ts ≡ some t
        → (if id == 0 then none else find_loop id ts) ≡ some t
    at_end ts id t p e = ground arith

enter-Refused :
    (task : Task) (now : ℕ) (m : Manager) (q : List Task)
    → m.next_task_id < 4294967295
    → Holds m q
    → Refused m q (enter_task task now m (push_failed (some m.task_queue)))
enter-Refused task now m q l h = (
  refl,
  refl,
  refl,
  omega (arith, next_number m.next_task_id l),
  record {
    queue = h.queue;
    numbers = rw (next_number m.next_task_id l) (Ascending-up 1 m.tasks m.next_task_id h.numbers);
    fits = h.fits;
    listed = h.listed;
  },
)

-- The conditions of `task_manager_create_task`, with the memory that `malloc` gives.
abbrev pub Accepts : Manager → List Task → ℕ → Option Task → Task → Type 0
Accepts m q input_size memory block =
    (0 < input_size)
    × (input_size ≤ 1024)
    × (length m.tasks < m.capacity)
    × (memory ≡ some block)
    × (length q < m.task_queue.capacity)

-- On a well-formed manager that holds the queue `q`, with data that is not NULL and task numbers below
-- 2 ^ 32 - 1, `task_manager_create_task` accepts exactly if the size is between 1 and 1024, the table
-- and the queue have room, and `malloc` succeeds. It then returns the next number,
-- `task_manager_get_task` finds the pending task under it, and the task is behind the others in the
-- queue; otherwise the table and the queue are as they were.
pub create_task_lem :
    (input_data : List ℕ) (input_size : ℕ) (memory : Option Task) (now : ℕ) (m : Manager)
    (q : List Task)
    → m.next_task_id < 4294967295
    → Holds m q
    → ((block : Task) × Accepts m q input_size memory block
        × Created
            (new_task m.next_task_id input_data input_size block)
            now
            m
            q
            (create_task (some input_data) input_size memory now m))
      ⊎ (((block : Task) → Accepts m q input_size memory block → ⊥)
          × Refused m q (create_task (some input_data) input_size memory now m))
unfolding create_task
create_task_lem input_data input_size memory now m q l h =
    elim (Bool-cases (size_fits input_size && ltb (length m.tasks) m.capacity)) [
      | inl b ↦ rw (b, create_task) (with_memory memory (fitting input_size m b))
      | inr b ↦ inr (
        λ block a. unfitting input_size m b a.0 a.1 a.2,
        rw (b, create_task) (refl, refl, refl, omega arith, h),
      )
    ]
  where
    fitting :
        (n : ℕ) (m : Manager)
        → (size_fits n && ltb (length m.tasks) m.capacity) ≡ true
        → (0 < n) × (n ≤ 1024) × (length m.tasks < m.capacity)
    fitting zero m b = cc
    fitting (suc n) m b = ground arith

    unfitting :
        (n : ℕ) (m : Manager)
        → (size_fits n && ltb (length m.tasks) m.capacity) ≡ false
        → 0 < n
        → n ≤ 1024
        → length m.tasks < m.capacity
        → ⊥
    unfitting zero m b p l r = omega arith
    unfitting (suc n) m b p l r = ground arith

    room : m.task_queue.size ≤ m.task_queue.capacity
    room = h.queue.valid.size_in

    with_memory :
        (memory : Option Task)
        → (0 < input_size) × (input_size ≤ 1024) × (length m.tasks < m.capacity)
        → ((block : Task) × Accepts m q input_size memory block
            × Created (new_task m.next_task_id input_data input_size block) now m q (elim memory [
              | none ↦ (none, m)
              | some block ↦
                  let task = new_task m.next_task_id input_data input_size block in
                  enter_task task now m (push (some m.task_queue) (some task) (pos 0) none [])
            ]))
          ⊎ (((block : Task) → Accepts m q input_size memory block → ⊥)
              × Refused m q (elim memory [
                | none ↦ (none, m)
                | some block ↦
                    let task = new_task m.next_task_id input_data input_size block in
                    enter_task task now m (push (some m.task_queue) (some task) (pos 0) none [])
              ]))
    with_memory none f = inr (λ block a. cc, (refl, refl, refl, omega arith, h))
    with_memory (some block) f =
        let task = new_task m.next_task_id input_data input_size block in
        let size = Represents-size m.task_queue q h.queue in
        elim (dec_lt (length q) m.task_queue.capacity) [
          | yes space ↦
              let space' : m.task_queue.size < m.task_queue.capacity = omega arith in
              inl (
                block,
                (f.0, f.1, f.2, refl, space),
                rw (push_space m.task_queue (pos 0) none [] task space')
                    (enter-Created task now m q l refl f.2 space' h),
              )
          | no full ↦ inr (
            λ b a. full a.4,
            rw (push_refused m.task_queue none [] task (omega arith))
                (enter-Refused task now m q l h),
          )
        ]
