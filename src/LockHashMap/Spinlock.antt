-- ===== src/LockHashMap/Spinlock.antt =====
-- task04-concurrency/src/cspinlock.c. A lock is its flag; `none` is the null pointer.
use systems_programming_labs.Prelude.{ℕ, Bool, true, false, Option, none, some, if◌then◌else◌}

-- `atomic_flag_test_and_set`: the old flag, and the new one.
abbrev pub test_and_set : Bool → Bool × Bool
test_and_set flag = (flag, true)

abbrev pub code_of : Bool → ℕ
code_of set_before = if set_before then 1 else 0

unfoldable pub cspin_trylock : Option Bool → ℕ × Option Bool
cspin_trylock none = (1, none)
cspin_trylock (some flag) = (code_of (test_and_set flag).0, some (test_and_set flag).1)

-- One round of the loop of `cspin_lock`: whether the loop ends, and the lock.
unfoldable pub cspin_lock : Option Bool → Bool × Option Bool
cspin_lock none = (true, none)
cspin_lock (some true) = (false, some (test_and_set true).1)
cspin_lock (some false) = (true, some (test_and_set false).1)

unfoldable pub cspin_unlock : Option Bool → ℕ × Option Bool
cspin_unlock none = (1, none)
cspin_unlock (some flag) = (0, some false)

-- `malloc_ok` says whether `malloc` succeeds.
unfoldable pub cspin_alloc : Bool → Option Bool
cspin_alloc malloc_ok = if malloc_ok then some false else none
