-- ===== src/LockHashMap/Tests.antt =====
-- Runs of task04-concurrency/src/lockhashmap.c on small tables, and the results at them.
use systems_programming_labs.Prelude.{
  ℕ, ◌≡◌, refl, true, false, none, some, List, [], ◌∷◌, ◌++◌, length,
}
use systems_programming_labs.LockHashMap.Spinlock.{cspin_lock, cspin_unlock}
use systems_programming_labs.LockHashMap.Bucket.{
  Bucket, Op, insert, remove, lookup, waiting, holding, returned, enter, remove_round, lookup_round,
  acquire, advance,
}
use systems_programming_labs.LockHashMap.Table.{
  run, bucket_of, call_item, insert_item, remove_item, lookup_item, alloc_hashmap,
}
use systems_programming_labs.LockHashMap.Exclusion.{System, schedule, IsLocked}
use systems_programming_labs.LockHashMap.Runs.{
  Obeys, Runs, begin, run_on, acts_at, Runs-IsLocked, Runs-Obeys,
}
use systems_programming_labs.LockHashMap.Counts.{table_of}
use systems_programming_labs.LockHashMap.Bag.{occurrences, alloc_hashmap-empty}

abbrev two_nodes : Bucket
two_nodes = record { slock = some false; sentinel = 5 ∷ 7 ∷ [] }

abbrev three_threads : System
three_threads = record {
  bucket = two_nodes;
  threads = waiting (insert 3) ∷ waiting (remove 5) ∷ waiting (lookup 7) ∷ [];
}

three_threads-IsLocked : IsLocked three_threads
three_threads-IsLocked = record {
  flag = false;
  lock = refl;
  holder = refl;
  searching = (tt, (tt, (tt, tt)));
}

-- Thread 0 gets the lock, thread 1 finds it taken, thread 0 inserts and releases, thread 1 gets the lock.
abbrev scheduled : System
scheduled = schedule (schedule (schedule (schedule (schedule three_threads 0) 1) 0) 0) 1

abbrev events : List (Op × ℕ)
events =
    (((([] ++ acts_at three_threads 0) ++ acts_at (schedule three_threads 0) 1)
        ++ acts_at (schedule (schedule three_threads 0) 1) 0)
      ++ acts_at (schedule (schedule (schedule three_threads 0) 1) 0) 0)
    ++ acts_at (schedule (schedule (schedule (schedule three_threads 0) 1) 0) 0) 1

scheduled-Runs : Runs three_threads events scheduled
scheduled-Runs = run_on (run_on (run_on (run_on (run_on begin 0) 1) 0) 0) 1

run_schedule : scheduled ≡ record {
  bucket = record { slock = some true; sentinel = 3 ∷ 5 ∷ 7 ∷ [] };
  threads = returned (insert 3) 0 ∷ holding (remove 5) 0 ∷ waiting (lookup 7) ∷ [];
}
unfolding schedule advance acquire cspin_lock cspin_unlock
run_schedule = refl

run_remove :
    run 6 two_nodes (enter true (remove 7))
    ≡ some (0, record { slock = some false; sentinel = 5 ∷ [] })
unfolding run enter advance acquire remove_round cspin_lock cspin_unlock
run_remove = refl

run_insert :
    insert_item true 6 (table_of ([] ∷ (5 ∷ []) ∷ [])) 8
    ≡ some (0, table_of ((8 ∷ []) ∷ (5 ∷ []) ∷ []))
unfolding insert_item call_item bucket_of run enter advance acquire cspin_lock cspin_unlock
run_insert = refl

run_absent :
    lookup_item 6 (table_of ([] ∷ (5 ∷ []) ∷ [])) 7 ≡ some (1, table_of ([] ∷ (5 ∷ []) ∷ []))
unfolding lookup_item call_item bucket_of run enter advance acquire lookup_round cspin_lock
    cspin_unlock
run_absent = refl

run_no_table :
    remove_item 6 (record { n_buckets = 0; buckets = none }) 7
    ≡ some (1, record { n_buckets = 0; buckets = none })
unfolding remove_item call_item bucket_of
run_no_table = refl

Runs-IsLocked_example : IsLocked scheduled
Runs-IsLocked_example =
    Runs-IsLocked three_threads scheduled events three_threads-IsLocked scheduled-Runs

Runs-Obeys_example : Obeys (5 ∷ 7 ∷ []) ((insert 3, 0) ∷ []) (3 ∷ 5 ∷ 7 ∷ [])
unfolding schedule advance acquire cspin_lock cspin_unlock
Runs-Obeys_example = Runs-Obeys three_threads scheduled events three_threads-IsLocked scheduled-Runs

run_alloc_hashmap :
    (lists : List (List ℕ)) × (alloc_hashmap true true (λ i. (true, true)) 3
      ≡ some (table_of lists))
    × (length lists ≡ 3)
    × (occurrences lists 4 ≡ 0)
run_alloc_hashmap = alloc_hashmap-empty true true 3 4
