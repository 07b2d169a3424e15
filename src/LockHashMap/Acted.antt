-- ===== src/LockHashMap/Acted.antt =====
-- A call on a bucket of task04-concurrency/src/lockhashmap.c that returns has acted, with the code that it
-- returns.
use systems_programming_labs.Prelude.{ℕ, ◌≡◌, ◌⊎◌, List, [], ◌∷◌}
use systems_programming_labs.LockHashMap.Bucket.{
  Bucket, Op, Thread, waiting, holding, leaving, returned,
}
use systems_programming_labs.LockHashMap.Runs.{Runs}

-- The call is among those that have acted, with this code.
abbrev pub Among : Op → ℕ → List (Op × ℕ) → Type 0
Among op code [] = ⊥
Among op code (c ∷ calls) = (c ≡ (op, code)) ⊎ Among op code calls

-- A thread behind its act has its call among those.
abbrev pub Recorded : List (Op × ℕ) → Thread → Type 0
Recorded calls (waiting op) = Unit {0}
Recorded calls (holding op k) = Unit {0}
Recorded calls (leaving op code) = Among op code calls
Recorded calls (returned op code) = Among op code calls

abbrev pub AllRecorded : List (Op × ℕ) → List Thread → Type 0
AllRecorded calls [] = Unit {0}
AllRecorded calls (t ∷ ts) = Recorded calls t × AllRecorded calls ts
