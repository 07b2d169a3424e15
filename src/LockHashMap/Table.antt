-- ===== src/LockHashMap/Table.antt =====
-- The table of task04-concurrency/src/lockhashmap.c and its calls by one thread alone. `none` stands for a
-- null pointer, and as a result for a loop that the rounds did not suffice for.
use systems_programming_labs.Prelude.{
  ℕ, zero, suc, ◌+◌, ◌%◌, Bool, true, ◌||◌, not, Option, none, some, List, [], ◌∷◌, ◌==◌,
  if◌then◌else◌, get_elem?, set,
}
use systems_programming_labs.LockHashMap.Spinlock.{cspin_alloc}
use systems_programming_labs.LockHashMap.Bucket.{
  Bucket, Op, insert, remove, lookup, Thread, waiting, holding, leaving, returned, enter, advance,
}

pub record Hm : Type 0 where
  pub n_buckets : ℕ
  pub buckets : Option (List (Option Bucket))

-- The loop of `alloc_hashmap`. For each bucket, whether `malloc` of it and of its lock succeed.
unfoldable pub alloc_buckets : (ℕ → Bool × Bool) → ℕ → ℕ → Option (List (Option Bucket))
alloc_buckets mem i zero = some []
alloc_buckets mem i (suc left) =
    let rest = alloc_buckets mem (i + 1) left in
    if (mem i).0
    then elim (cspin_alloc (mem i).1) [
      | none ↦ none
      | some flag ↦ elim rest [
        | none ↦ none
        | some bs ↦ some (some (record { slock = some flag; sentinel = [] }) ∷ bs)
      ]
    ]
    else none

-- `mem_hm` and `mem_array` say whether the first two allocations succeed.
unfoldable pub alloc_hashmap : Bool → Bool → (ℕ → Bool × Bool) → ℕ → Option Hm
alloc_hashmap mem_hm mem_array mem n_buckets =
    if n_buckets == 0 || (not mem_hm || not mem_array)
    then none
    else elim (alloc_buckets mem 0 n_buckets) [
      | none ↦ none
      | some bs ↦ some (record { n_buckets = n_buckets; buckets = some bs })
    ]

-- A thread alone on a bucket.
unfoldable pub run : ℕ → Bucket → Thread → Option (ℕ × Bucket)
run rounds b (returned op code) = some (code, b)
run zero b (waiting op) = none
run zero b (holding op k) = none
run zero b (leaving op code) = none
run (suc rounds) b (waiting op) = run rounds (advance b (waiting op)).0 (advance b (waiting op)).1
run (suc rounds) b (holding op k) =
    run rounds (advance b (holding op k)).0 (advance b (holding op k)).1
run (suc rounds) b (leaving op code) =
    run rounds (advance b (leaving op code)).0 (advance b (leaving op code)).1

abbrev pub val_of : Op → ℕ
val_of (insert val) = val
val_of (remove val) = val
val_of (lookup val) = val

-- The bucket of a value: those that the three calls go on with.
unfoldable pub bucket_of : Hm → ℕ → Option (List (Option Bucket) × Bucket)
bucket_of hm val = if hm.n_buckets == 0 then none else elim hm.buckets [
  | none ↦ none
  | some bs ↦ elim (get_elem? bs (val % hm.n_buckets)) [
    | none ↦ none
    | some none ↦ none
    | some (some b) ↦ elim b.slock [ none ↦ none | some flag ↦ some (bs, b) ]
  ]
]

-- `insert_item`, `remove_item` and `lookup_item`, up to what `advance` does on the bucket: the code that is
-- returned, and the table.
unfoldable pub call_item : Bool → ℕ → Hm → Op → Option (ℕ × Hm)
call_item malloc_ok rounds hm op = elim (bucket_of hm (val_of op)) [
  | none ↦ some (1, hm)
  | some (bs, b) ↦ elim (run rounds b (enter malloc_ok op)) [
    | none ↦ none
    | some (code, b') ↦
        some (code, record hm { buckets = some (set bs (val_of op % hm.n_buckets) (some b')) })
  ]
]

unfoldable pub insert_item : Bool → ℕ → Hm → ℕ → Option (ℕ × Hm)
insert_item malloc_ok rounds hm val = call_item malloc_ok rounds hm (insert val)

unfoldable pub remove_item : ℕ → Hm → ℕ → Option (ℕ × Hm)
remove_item rounds hm val = call_item true rounds hm (remove val)

unfoldable pub lookup_item : ℕ → Hm → ℕ → Option (ℕ × Hm)
lookup_item rounds hm val = call_item true rounds hm (lookup val)
