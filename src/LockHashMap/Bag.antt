-- ===== src/LockHashMap/Bag.antt =====
-- The table of task04-concurrency/src/lockhashmap.c as a bag of values.
use systems_programming_labs.Prelude.{
  ℕ, zero, suc, ◌+◌, ◌-◌, ◌%◌, ◌≡◌, refl, ap, Bool, true, none, some, List, [], ◌∷◌, ◌==◌, ◌||◌,
  not, if◌then◌else◌, length, get_elem?, arith,
}
use systems_programming_labs.LockHashMap.Spinlock.{cspin_alloc}
use systems_programming_labs.LockHashMap.Bucket.{Op, insert, remove, lookup}
use systems_programming_labs.LockHashMap.Table.{alloc_buckets, alloc_hashmap}
use systems_programming_labs.LockHashMap.Spec.{count}
use systems_programming_labs.LockHashMap.Counts.{free_buckets, table_of, list_at}

-- How often a value is in the table.
abbrev pub occurrences : List (List ℕ) → ℕ → ℕ
occurrences lists w = count w (list_at lists w)

-- How often `w` is in the bag after a call, if it was `c` times before.
abbrev pub counted : Op → ℕ → ℕ → ℕ
counted (insert val) w c = if val == w then c + 1 else c
counted (remove val) w c = if val == w then c - 1 else c
counted (lookup val) w c = c

-- The code of a call for a value that is in the bag `c` times.
abbrev pub bag_code : Op → ℕ → ℕ
bag_code (insert val) c = 0
bag_code (remove val) c = if c == 0 then 1 else 0
bag_code (lookup val) c = if c == 0 then 1 else 0

abbrev list_in : List (List ℕ) → ℕ → List ℕ
list_in lists i = elim (get_elem? lists i) [ none ↦ [] | some xs ↦ xs ]

abbrev empty : ℕ → List (List ℕ)
empty zero = []
empty (suc n) = [] ∷ empty n

length-empty : (n : ℕ) → length (empty n) ≡ n
length-empty zero = refl
length-empty (suc n) = ap suc (length-empty n)

alloc_buckets-empty :
    (i n : ℕ) → alloc_buckets (λ k. (true, true)) i n ≡ some (free_buckets (empty n))
unfolding alloc_buckets cspin_alloc
alloc_buckets-empty i zero = refl
alloc_buckets-empty i (suc n) = ground (arith, alloc_buckets-empty (i + 1) n)

count-empty : (w m i : ℕ) → count w (list_in (empty m) i) ≡ 0
unfolding count
count-empty w zero i = refl
count-empty w (suc m) zero = refl
count-empty w (suc m) (suc i) = count-empty w m i

-- If all memory is there, `alloc_hashmap` of at least one bucket makes a table without values and with
-- free locks; of none, or without the memory for the table, it gives null.
pub alloc_hashmap-empty :
    (mem_hm mem_array : Bool) (n w : ℕ)
    → (lists : List (List ℕ)) × (alloc_hashmap mem_hm mem_array (λ i. (true, true)) n
        ≡ (if n == 0 || (not mem_hm || not mem_array) then none else some (table_of lists)))
      × (length lists ≡ n)
      × (occurrences lists w ≡ 0)
unfolding alloc_hashmap
alloc_hashmap-empty mem_hm mem_array n w = (
  empty n,
  rw (alloc_buckets-empty 0 n) (ground (arith, length-empty n)),
  length-empty n,
  count-empty w n (w % length (empty n)),
)
