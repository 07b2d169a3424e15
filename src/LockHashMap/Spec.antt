-- ===== src/LockHashMap/Spec.antt =====
-- What a bucket of task04-concurrency/src/lockhashmap.c promises: each call acts at one moment on a list of
-- values.
use systems_programming_labs.Prelude.{ℕ, ◌+◌, Bool, true, false, List, [], ◌∷◌, ◌==◌, if◌then◌else◌}
use systems_programming_labs.LockHashMap.Bucket.{Op, insert, remove, lookup}

unfoldable pub contains : ℕ → List ℕ → Bool
contains val [] = false
contains val (x ∷ xs) = let rest = contains val xs in if x == val then true else rest

-- Without the first occurrence.
unfoldable pub erase : ℕ → List ℕ → List ℕ
erase val [] = []
erase val (x ∷ xs) = let rest = erase val xs in if x == val then xs else x ∷ rest

-- The code and the list afterwards.
unfoldable pub perform : Op → List ℕ → ℕ × List ℕ
perform (insert val) xs = (0, val ∷ xs)
perform (remove val) xs = (if contains val xs then 0 else 1, erase val xs)
perform (lookup val) xs = (if contains val xs then 0 else 1, xs)

-- How often a value occurs.
unfoldable pub count : ℕ → List ℕ → ℕ
count val [] = 0
count val (x ∷ xs) = (if x == val then 1 else 0) + count val xs
