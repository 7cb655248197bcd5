-- ===== src/WorkerRegistry/Tests.antt =====
-- Runs of the worker registry, and its theorems at concrete inputs.
use c_simples.Prelude.{◌≡◌, refl, some, [], ◌∷◌, arith, pos}
use c_simples.WorkerRegistry.{WorkerInfo, Registry, add, remove, get, new_worker}
use c_simples.WorkerRegistry.Numbers.{Numbered}
use c_simples.WorkerRegistry.Removal.{remove-add_collides}

-- Three workers, as three calls of `worker_registry_add` leave them.
abbrev three : Registry
three = record {
  workers =
      new_worker 1 (pos 7) 71 100 ∷ new_worker 2 (pos 8) 72 200 ∷ new_worker 3 (pos 9) 73 300 ∷ [];
  capacity = 4;
}

three_added :
    (add
      (pos 9)
      73
      300
      (add (pos 8) 72 200 (add (pos 7) 71 100 (record { workers = []; capacity = 4 })).1).1).1
    ≡ three
unfolding add
three_added = refl

three-Numbered : Numbered 0 three.workers
three-Numbered = (refl, (refl, (refl, tt)))

remove-add_collides_example :
    let (id, r') = add (pos 10) 74 400 (remove 1 three).2 in
    (id ≡ 3) × ((old : WorkerInfo) × (get id three ≡ some old) × (get id r' ≡ some old))
remove-add_collides_example =
    remove-add_collides 0 (pos 10) 74 400 three three-Numbered (omega arith) (omega arith) refl
