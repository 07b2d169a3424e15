-- ===== src/LockHashMap/Counts.antt =====
-- The calls of task04-concurrency/src/lockhashmap.c by one thread on a whole table: the table is a bag of
-- values.
use systems_programming_labs.Prelude.{
  ℕ, zero, suc, ◌+◌, ◌%◌, ◌≤◌, ◌<◌, ◌≡◌, refl, sym, ◌∙◌, ap, true, false, Option, none, some, List,
  [], ◌∷◌, length, length-set, get_elem?, set, arith,
}
use systems_programming_labs.LockHashMap.Bucket.{Bucket, Op, enter}
use systems_programming_labs.LockHashMap.Table.{Hm, run, val_of, bucket_of, call_item}
use systems_programming_labs.LockHashMap.Spec.{perform}
use systems_programming_labs.LockHashMap.Alone.{run-perform}

-- The buckets with these values, and free locks.
abbrev pub free_buckets : List (List ℕ) → List (Option Bucket)
free_buckets [] = []
free_buckets (xs ∷ lists) = some (record { slock = some false; sentinel = xs }) ∷ free_buckets lists

abbrev pub table_of : List (List ℕ) → Hm
table_of lists = record { n_buckets = length lists; buckets = some (free_buckets lists) }

-- The values in the bucket of a value.
abbrev pub list_at : List (List ℕ) → ℕ → List ℕ
list_at lists val = elim (get_elem? lists (val % length lists)) [ none ↦ [] | some xs ↦ xs ]

-- The table after a call.
abbrev pub after_call : Op → List (List ℕ) → List (List ℕ)
after_call op lists =
    set lists (val_of op % length lists) (perform op (list_at lists (val_of op))).1

free_buckets-get :
    (lists : List (List ℕ)) (j : ℕ) (xs : List ℕ)
    → get_elem? lists j ≡ some xs
    → get_elem? (free_buckets lists) j ≡ some (some (record { slock = some false; sentinel = xs }))
free_buckets-get [] j xs e = cc
free_buckets-get (ys ∷ lists) zero xs e = ground arith
free_buckets-get (ys ∷ lists) (suc j) xs e = free_buckets-get lists j xs e

free_buckets-set :
    (lists : List (List ℕ)) (j : ℕ) (xs : List ℕ)
    → set (free_buckets lists) j (some (record { slock = some false; sentinel = xs }))
      ≡ free_buckets (set lists j xs)
free_buckets-set [] j xs = refl
free_buckets-set (ys ∷ lists) zero xs = refl
free_buckets-set (ys ∷ lists) (suc j) xs =
    ap (λ r. some (record { slock = some false; sentinel = ys }) ∷ r) (free_buckets-set lists j xs)

pub mod_lt : (a b : ℕ) → 0 < b → a % b < b
mod_lt a b pos = omega arith

pub some_list :
    (lists : List (List ℕ)) (j : ℕ)
    → j < length lists
    → (xs : List ℕ) × (get_elem? lists j ≡ some xs)
some_list [] j h = absurd (omega arith)
some_list (xs ∷ lists) zero h = (xs, refl)
some_list (xs ∷ lists) (suc j) h = some_list lists j (omega arith)

bucket_of-free :
    (lists : List (List ℕ)) (val : ℕ) (xs : List ℕ)
    → 0 < length lists
    → get_elem? lists (val % length lists) ≡ some xs
    → bucket_of (table_of lists) val
      ≡ some (free_buckets lists, record { slock = some false; sentinel = xs })
unfolding bucket_of
bucket_of-free lists val xs some_bucket e =
    ground (arith, some_bucket, free_buckets-get lists (val % length lists) xs e)

call_item-run :
    (rounds : ℕ) (hm : Hm) (op : Op) (bs : List (Option Bucket)) (b b' : Bucket) (code : ℕ)
    → bucket_of hm (val_of op) ≡ some (bs, b)
    → run rounds b (enter true op) ≡ some (code, b')
    → call_item true rounds hm op
      ≡ some (code, record hm { buckets = some (set bs (val_of op % hm.n_buckets) (some b')) })
unfolding call_item
call_item-run rounds hm op bs b b' code found ran = rw (found, call_item, ran) refl

table_of-set :
    (lists : List (List ℕ)) (j : ℕ) (xs : List ℕ)
    → record (table_of lists) {
      buckets =
          some (set (free_buckets lists) j (some (record { slock = some false; sentinel = xs })));
    }
      ≡ table_of (set lists j xs)
table_of-set lists j xs = λ t. record {
  n_buckets = sym (length-set lists j xs) t;
  buckets = some (free_buckets-set lists j xs t);
}

-- A call on a table with at least one bucket, whose locks are free, ends within three rounds more than
-- there are nodes in the value's bucket: with the code of the specification, and with that bucket changed
-- as it says.
pub call_item-perform :
    (rounds : ℕ) (lists : List (List ℕ)) (op : Op)
    → 0 < length lists
    → length (list_at lists (val_of op)) + 3 ≤ rounds
    → call_item true rounds (table_of lists) op
      ≡ some ((perform op (list_at lists (val_of op))).0, table_of (after_call op lists))
call_item-perform rounds lists op some_bucket enough =
    call_item-run rounds (table_of lists) op (free_buckets lists)
      (record { slock = some false; sentinel = xs })
      (record { slock = some false; sentinel = (perform op xs).1 }) (perform op xs).0
      (bucket_of-free lists (val_of op) xs some_bucket there)
      (run-perform rounds (record { slock = some false; sentinel = xs }) op refl enough)
    ∙ ap (λ hm. some ((perform op xs).0, hm))
        (table_of-set lists (val_of op % length lists) (perform op xs).1)
  where
    xs : List ℕ
    xs = list_at lists (val_of op)

    there : get_elem? lists (val_of op % length lists) ≡ some xs
    there =
        let (ys, e) =
          some_list lists (val_of op % length lists)
            (mod_lt (val_of op) (length lists) some_bucket) in
        ground (arith, e)
