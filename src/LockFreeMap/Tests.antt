-- ===== src/LockFreeMap/Tests.antt =====
-- Runs of task04-concurrency/src/lockfreehashmap.c on a small bucket, and the result at one.
use systems_programming_labs.Prelude.{
  ◌≡◌, refl, true, false, none, some, [], ◌∷◌, length, get_elem?, arith,
}
use systems_programming_labs.LockFreeMap.Bucket.{
  Node, inserting, removing, returned, publish, try_mark, unlink, advance,
}
use systems_programming_labs.LockFreeMap.Chain.{reaches}
use systems_programming_labs.LockFreeMap.Runs.{
  System, schedule, Runs, begin, run_on, IsSound, Runs-reaches,
}

abbrev start : System
start = record {
  bucket = record { sentinel = none; nodes = [] };
  threads = inserting 5 ∷ inserting 7 ∷ removing 5 ∷ [];
}

start-IsSound : IsSound start
start-IsSound = record {
  chain = record {
    head = record { low = omega arith; dead = λ z n from to held. cc };
    next = λ x n held. cc;
  };
  seen = (tt, (tt, (tt, tt)));
}

-- Both inserts load the null sentinel; the second exchange fails once. Then 5 is marked and unlinked.
abbrev both : System
both =
    schedule false (schedule false (schedule false (schedule false (schedule false start 0) 1) 0) 1)
      1

abbrev removed : System
removed =
    schedule false
      (schedule false
        (schedule false (schedule false (schedule false (schedule false both 2) 2) 2) 2) 2)
      2

removed-Runs : Runs start removed
removed-Runs =
    run_on
      (run_on
        (run_on
          (run_on
            (run_on
              (run_on
                (run_on (run_on (run_on (run_on (run_on begin false 0) false 1) false 0) false 1)
                  false 1)
                false 2)
              false 2)
            false 2)
          false 2)
        false 2)
      false 2

abbrev node_5 : Node
node_5 = record { m_val = 5; m_next = none; is_deleted = true }

abbrev node_7 : Node
node_7 = record { m_val = 7; m_next = none; is_deleted = false }

run_removed : removed ≡ record {
  bucket = record { sentinel = some 1; nodes = node_5 ∷ node_7 ∷ [] };
  threads = returned 0 ∷ returned 0 ∷ returned 0 ∷ [];
}
unfolding schedule advance publish try_mark unlink
run_removed = refl

held_7 : get_elem? removed.bucket.nodes 1 ≡ some node_7
unfolding schedule advance publish try_mark unlink
held_7 = refl

Runs-reaches_example :
    reaches (length removed.bucket.nodes) removed.bucket.nodes removed.bucket.sentinel 1 ≡ true
Runs-reaches_example = Runs-reaches start removed 1 node_7 start-IsSound removed-Runs held_7 refl
