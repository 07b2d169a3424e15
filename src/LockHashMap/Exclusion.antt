-- ===== src/LockHashMap/Exclusion.antt =====
-- Threads that share a bucket of task04-concurrency/src/lockhashmap.c, interleaved access by access.
use systems_programming_labs.Prelude.{
  ℕ, zero, suc, ◌+◌, ◌≤◌, ◌≡◌, Bool, false, none, some, List, [], ◌∷◌, if◌then◌else◌, get_elem?,
  set, take, arith,
}
use systems_programming_labs.LockHashMap.Bucket.{
  Bucket, insert, remove, lookup, Thread, waiting, holding, leaving, returned, advance,
}
use systems_programming_labs.LockHashMap.Spec.{contains}

pub record System : Type 0 where
  pub bucket : Bucket
  pub threads : List Thread

-- Thread `i` makes its next access.
unfoldable pub schedule : System → ℕ → System
schedule s i = elim (get_elem? s.threads i) [
  | none ↦ s
  | some t ↦ record {
    bucket = (advance s.bucket t).0;
    threads = set s.threads i (advance s.bucket t).1;
  }
]

-- Between `cspin_lock` and `cspin_unlock`.
abbrev pub inside : Thread → ℕ
inside (waiting op) = 0
inside (holding op k) = 1
inside (leaving op code) = 1
inside (returned op code) = 0

abbrev pub holders : List Thread → ℕ
holders [] = 0
holders (t ∷ ts) = inside t + holders ts

-- A thread that still looks for a value has not passed it.
abbrev pub Searching : List ℕ → Thread → Type 0
Searching xs (waiting op) = Unit {0}
Searching xs (holding (insert val) k) = Unit {0}
Searching xs (holding (remove val) k) = contains val (take k xs) ≡ false
Searching xs (holding (lookup val) k) = contains val (take k xs) ≡ false
Searching xs (leaving op code) = Unit {0}
Searching xs (returned op code) = Unit {0}

abbrev pub AllSearching : List ℕ → List Thread → Type 0
AllSearching xs [] = Unit {0}
AllSearching xs (t ∷ ts) = Searching xs t × AllSearching xs ts

-- Threads in their loops or gone.
abbrev pub flag_count : Bool → ℕ
flag_count flag = if flag then 1 else 0

-- The lock's flag says whether a thread is inside, and no two are.
pub record IsLocked (s : System) : Type 0 where
  pub flag : Bool
  pub lock : s.bucket.slock ≡ some flag
  pub holder : holders s.threads ≡ flag_count flag
  pub searching : AllSearching s.bucket.sentinel s.threads

pub holders-set :
    (ts : List Thread) (i : ℕ) (t t' : Thread)
    → get_elem? ts i ≡ some t
    → holders (set ts i t') + inside t ≡ holders ts + inside t'
holders-set [] i t t' e = cc
holders-set (u ∷ ts) zero t t' e = let q : u ≡ t = ground arith in rw q (omega arith)
holders-set (u ∷ ts) (suc i) t t' e = omega (arith, holders-set ts i t t' e)

pub Searching-at :
    (xs : List ℕ) (ts : List Thread) (i : ℕ) (t : Thread)
    → AllSearching xs ts
    → get_elem? ts i ≡ some t
    → Searching xs t
Searching-at xs [] i t all e = cc
Searching-at xs (u ∷ ts) zero t all e = let q : t ≡ u = ground arith in rw q all.0
Searching-at xs (u ∷ ts) (suc i) t all e = Searching-at xs ts i t all.1 e

pub Searching-set :
    (xs : List ℕ) (ts : List Thread) (i : ℕ) (t : Thread)
    → AllSearching xs ts
    → Searching xs t
    → AllSearching xs (set ts i t)
Searching-set xs [] i t all new = tt
Searching-set xs (u ∷ ts) zero t all new = (new, all.1)
Searching-set xs (u ∷ ts) (suc i) t all new = (all.0, Searching-set xs ts i t all.1 new)

-- A thread outside searches no list.
outside : (xs ys : List ℕ) (t : Thread) → inside t ≡ 0 → Searching xs t → Searching ys t
outside xs ys (waiting op) e s = tt
outside xs ys (holding op k) e s = absurd (omega arith)
outside xs ys (leaving op code) e s = tt
outside xs ys (returned op code) e s = tt

all_outside :
    (xs ys : List ℕ) (ts : List Thread) → holders ts ≡ 0 → AllSearching xs ts → AllSearching ys ts
all_outside xs ys [] e all = tt
all_outside xs ys (t ∷ ts) e all =
    (outside xs ys t (omega arith) all.0, all_outside xs ys ts (omega arith) all.1)

-- The list may change while the only thread inside, which is at `i`, goes on to search it.
pub others_outside :
    (xs ys : List ℕ) (ts : List Thread) (i : ℕ) (t t' : Thread)
    → get_elem? ts i ≡ some t
    → inside t ≡ 1
    → holders ts ≡ 1
    → AllSearching xs ts
    → Searching ys t'
    → AllSearching ys (set ts i t')
others_outside xs ys [] i t t' e in_lock one all new = cc
others_outside xs ys (u ∷ ts) zero t t' e in_lock one all new =
    let q : u ≡ t = ground arith in
    let here : inside u ≡ 1 = rw q in_lock in
    (new, all_outside xs ys ts (omega (arith, here)) all.1)
others_outside xs ys (u ∷ ts) (suc i) t t' e in_lock one all new =
    let there : inside t ≤ holders ts = holds ts i e in
    (
      outside xs ys u (omega (arith, there)) all.0,
      others_outside xs ys ts i t t' e in_lock (omega (arith, there)) all.1 new,
    )
  where
    holds : (us : List Thread) (j : ℕ) → get_elem? us j ≡ some t → inside t ≤ holders us
    holds [] j e = cc
    holds (v ∷ us) zero e = let q : v ≡ t = ground arith in rw q (omega arith)
    holds (v ∷ us) (suc j) e = omega (arith, holds us j e)
