-- ===== src/LockHashMap/Alone.antt =====
-- A thread alone on a bucket of task04-concurrency/src/lockhashmap.c: its call ends, and does what the
-- specification says.
use systems_programming_labs.Prelude.{
  ℕ, zero, suc, ◌+◌, ◌-◌, ◌≤◌, ◌<◌, ◌≡◌, refl, sym, ◌∙◌, ap, true, false, Option, some, List,
  length, arith,
}
use systems_programming_labs.LockHashMap.Spinlock.{cspin_lock, cspin_unlock}
use systems_programming_labs.LockHashMap.Bucket.{
  Bucket, Op, insert, remove, lookup, Thread, waiting, holding, leaving, enter, acquire, advance,
}
use systems_programming_labs.LockHashMap.Table.{run}
use systems_programming_labs.LockHashMap.Spec.{perform}
use systems_programming_labs.LockHashMap.Exclusion.{Searching}
use systems_programming_labs.LockHashMap.Linear.{Access, acts, searches, advance-Access}
use systems_programming_labs.LockHashMap.Runs.{fresh}

abbrev pub performed : Op → List ℕ → Option (ℕ × Bucket)
performed op xs =
    some ((perform op xs).0, record { slock = some false; sentinel = (perform op xs).1 })

run_leaving :
    (rounds : ℕ) (b : Bucket) (op : Op) (code : ℕ)
    → b.slock ≡ some true
    → run (suc rounds) b (leaving op code)
      ≡ some (code, record { slock = some false; sentinel = b.sentinel })
unfolding run advance cspin_unlock
run_leaving zero b op code lock = rw (lock, cspin_unlock) refl
run_leaving (suc rounds) b op code lock = rw (lock, cspin_unlock) refl

run-Access :
    (rounds : ℕ) (b : Bucket) (op : Op) (k : ℕ) (to : Bucket × Thread)
    → b.slock ≡ some true
    → (k < length b.sentinel
        → Searching b.sentinel (holding op (suc k))
        → run (suc rounds) b (holding op (suc k)) ≡ performed op b.sentinel)
    → Access b op k to
    → run (suc rounds) to.0 to.1 ≡ performed op b.sentinel
run-Access rounds b op k _ lock go (acts b' code same does) =
    run_leaving rounds b' op code (same ∙ lock)
    ∙ ap (λ p. some (p.0, record { slock = some false; sentinel = p.1 })) (sym does)
run-Access rounds b op k _ lock go (searches inside_list new) = go inside_list new

run_holding :
    (rounds : ℕ) (b : Bucket) (op : Op) (k : ℕ)
    → b.slock ≡ some true
    → Searching b.sentinel (holding op k)
    → length b.sentinel - k + 1 < rounds
    → run rounds b (holding op k) ≡ performed op b.sentinel
unfolding run
run_holding zero b op k lock s enough = absurd (omega arith)
run_holding (suc zero) b op k lock s enough = absurd (omega arith)
run_holding (suc (suc rounds)) b op k lock s enough =
    run-Access rounds b op k (advance b (holding op k)) lock
      (λ inside_list new. run_holding (suc rounds) b op (suc k) lock new (omega arith))
      (advance-Access b op k s)

run_waiting :
    (rounds : ℕ) (b : Bucket) (op : Op)
    → b.slock ≡ some false
    → length b.sentinel + 3 ≤ rounds
    → run rounds b (waiting op) ≡ performed op b.sentinel
unfolding run acquire advance cspin_lock
run_waiting zero b op lock enough = absurd (omega arith)
run_waiting (suc rounds) b op lock enough =
    rw (lock, cspin_lock)
      (run_holding rounds (record { slock = some true; sentinel = b.sentinel }) op 0 refl
        (fresh b.sentinel op) (omega arith))

entered : (op : Op) → enter true op ≡ waiting op
unfolding enter
entered (insert val) = refl
entered (remove val) = refl
entered (lookup val) = refl

pub run-perform :
    (rounds : ℕ) (b : Bucket) (op : Op)
    → b.slock ≡ some false
    → length b.sentinel + 3 ≤ rounds
    → run rounds b (enter true op) ≡ performed op b.sentinel
run-perform rounds b op lock enough =
    ap (run rounds b) (entered op) ∙ run_waiting rounds b op lock enough
