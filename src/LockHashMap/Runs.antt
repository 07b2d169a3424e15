-- ===== src/LockHashMap/Runs.antt =====
-- Runs of threads that share a bucket of task04-concurrency/src/lockhashmap.c: the calls that have acted, in
-- their order.
use systems_programming_labs.Prelude.{
  ℕ, zero, suc, ◌+◌, ◌≤◌, ◌≡◌, refl, sym, ◌∙◌, ap, Bool, true, false, Bool-cases, Option-cases,
  none, some, inl, inr, List, [], ◌∷◌, ◌++◌, get_elem?, set, arith,
}
use systems_programming_labs.LockHashMap.Spinlock.{cspin_lock, cspin_unlock}
use systems_programming_labs.LockHashMap.Bucket.{
  Bucket, Op, insert, remove, lookup, Thread, waiting, holding, leaving, returned, acquire, advance,
}
use systems_programming_labs.LockHashMap.Spec.{contains, perform}
use systems_programming_labs.LockHashMap.Exclusion.{
  System, schedule, inside, holders, Searching, AllSearching, IsLocked, flag_count, holders-set,
  Searching-at, Searching-set, others_outside,
}
use systems_programming_labs.LockHashMap.Linear.{Access, acts, searches, advance-Access}

-- The call that acts in an access from the first of the two states to the second, with its code.
abbrev pub acted : Thread → Thread → List (Op × ℕ)
acted (waiting op) t' = []
acted (holding op k) (waiting op') = []
acted (holding op k) (holding op' k') = []
acted (holding op k) (leaving op' code) = (op, code) ∷ []
acted (holding op k) (returned op' code) = []
acted (leaving op code) t' = []
acted (returned op code) t' = []

abbrev pub acts_at : System → ℕ → List (Op × ℕ)
acts_at s i = elim (get_elem? s.threads i) [ none ↦ [] | some t ↦ acted t (advance s.bucket t).1 ]

-- The list is the one that the calls, made one after the other with these codes, leave.
abbrev pub Obeys : List ℕ → List (Op × ℕ) → List ℕ → Type 0
Obeys xs [] ys = ys ≡ xs
Obeys xs ((op, code) ∷ calls) ys = (code ≡ (perform op xs).0) × Obeys (perform op xs).1 calls ys

pub data Runs (s : System) : List (Op × ℕ) → System → Type 0 where
  begin : Runs s [] s
  run_on :
      {calls : List (Op × ℕ)} {mid : System}
      → Runs s calls mid
      → (i : ℕ) → Runs s (calls ++ acts_at mid i) (schedule mid i)

Obeys-append :
    (xs : List ℕ) (calls more : List (Op × ℕ)) (mid ys : List ℕ)
    → Obeys xs calls mid
    → Obeys mid more ys
    → Obeys xs (calls ++ more) ys
Obeys-append xs [] more mid ys a b = rw⁻¹ a b
Obeys-append xs ((op, code) ∷ calls) more mid ys a b =
    (a.0, Obeys-append (perform op xs).1 calls more mid ys a.1 b)

record Stepped (s : System) (calls : List (Op × ℕ)) (s' : System) : Type 0 where
  locked : IsLocked s'
  obeys : Obeys s.bucket.sentinel calls s'.bucket.sentinel

holders-at :
    (ts : List Thread) (i : ℕ) (t : Thread) → get_elem? ts i ≡ some t → inside t ≤ holders ts
holders-at [] i t e = cc
holders-at (u ∷ ts) zero t e = let q : u ≡ t = ground arith in rw q (omega arith)
holders-at (u ∷ ts) (suc i) t e = omega (arith, holders-at ts i t e)

-- A thread inside is the only one.
inside_flag :
    (s : System) (l : IsLocked s) (i : ℕ) (t : Thread)
    → get_elem? s.threads i ≡ some t
    → inside t ≡ 1
    → (l.flag ≡ true) × (holders s.threads ≡ 1)
inside_flag s l i t e here = elim (Bool-cases l.flag) [
  | inl taken ↦ (taken, l.holder ∙ ap flag_count taken)
  | inr open_now ↦
      let none_inside : holders s.threads ≡ 0 = l.holder ∙ ap flag_count open_now in
      absurd (omega (arith, here, none_inside, holders-at s.threads i t e))
]

module _ (s : System) (l : IsLocked s) (i : ℕ) (t : Thread)
    (e : get_elem? s.threads i ≡ some t) where
  abbrev next : Bucket → Thread → System
  next b t' = record { bucket = b; threads = set s.threads i t' }

  next-IsLocked :
      (b : Bucket) (t' : Thread) (flag : Bool)
      → b.slock ≡ some flag
      → flag_count flag + inside t ≡ flag_count l.flag + inside t'
      → AllSearching b.sentinel (set s.threads i t')
      → IsLocked (next b t')
  next-IsLocked b t' flag lock balance searching = record {
    flag = flag;
    lock = lock;
    holder = omega (arith, balance, holders-set s.threads i t t' e, l.holder);
    searching = searching;
  }

  -- The thread's new state is fine where the list stays.
  stay :
      (t' : Thread)
      → Searching s.bucket.sentinel t'
      → AllSearching s.bucket.sentinel (set s.threads i t')
  stay t' new = Searching-set s.bucket.sentinel s.threads i t' l.searching new

pub fresh : (xs : List ℕ) (op : Op) → Searching xs (holding op 0)
unfolding contains
fresh xs (insert val) = tt
fresh xs (remove val) = refl
fresh xs (lookup val) = refl

-- A thread in the loop of `cspin_lock` stays there or gets in.
step_waiting :
    (s : System) (i : ℕ) (op : Op)
    → IsLocked s
    → get_elem? s.threads i ≡ some (waiting op)
    → Stepped s (acted (waiting op) (acquire s.bucket op).1) (record {
      bucket = (acquire s.bucket op).0;
      threads = set s.threads i (acquire s.bucket op).1;
    })
unfolding acquire cspin_lock
step_waiting s i op l e = elim (Bool-cases l.flag) [
  | inl taken ↦
      let lock : s.bucket.slock ≡ some true = l.lock ∙ ap some taken in
      rw (lock, cspin_lock)
        (record {
          locked =
              next-IsLocked s l i (waiting op) e
                (record { slock = some true; sentinel = s.bucket.sentinel }) (waiting op) true refl
                (rw taken refl) (stay s l i (waiting op) e (waiting op) tt);
          obeys = refl;
        })
  | inr open_now ↦
      let lock : s.bucket.slock ≡ some false = l.lock ∙ ap some open_now in
      rw (lock, cspin_lock)
        (record {
          locked =
              next-IsLocked s l i (waiting op) e
                (record { slock = some true; sentinel = s.bucket.sentinel }) (holding op 0) true
                refl (rw open_now (omega arith))
                (stay s l i (waiting op) e (holding op 0) (fresh s.bucket.sentinel op));
          obeys = refl;
        })
]

step_leaving :
    (s : System) (i : ℕ) (op : Op) (code : ℕ)
    → IsLocked s
    → get_elem? s.threads i ≡ some (leaving op code)
    → Stepped s [] (record {
      bucket = record s.bucket { slock = (cspin_unlock s.bucket.slock).1 };
      threads = set s.threads i (returned op code);
    })
unfolding cspin_unlock
step_leaving s i op code l e = record {
  locked =
      next-IsLocked s l i (leaving op code) e
        (record s.bucket { slock = (cspin_unlock s.bucket.slock).1 }) (returned op code) false
        (rw (l.lock, cspin_unlock) refl) (rw (inside_flag s l i (leaving op code) e refl).0 refl)
        (stay s l i (leaving op code) e (returned op code) tt);
  obeys = refl;
}

step_holding :
    (s : System) (i : ℕ) (op : Op) (k : ℕ) (to : Bucket × Thread)
    → IsLocked s
    → get_elem? s.threads i ≡ some (holding op k)
    → Access s.bucket op k to
    → Stepped s
        (acted (holding op k) to.1)
        (record { bucket = to.0; threads = set s.threads i to.1 })
step_holding s i op k _ l e (acts b' code lock does) = record {
  locked = next-IsLocked s l i (holding op k) e b' (leaving op code) l.flag (lock ∙ l.lock) refl (
      others_outside s.bucket.sentinel b'.sentinel s.threads i (holding op k) (leaving op code) e
        refl (inside_flag s l i (holding op k) e refl).1 l.searching tt);
  obeys = (ap (λ p. p.0) (sym does), ap (λ p. p.1) (sym does));
}
step_holding s i op k _ l e (searches inside_list new) = record {
  locked =
      next-IsLocked s l i (holding op k) e s.bucket (holding op (suc k)) l.flag l.lock refl
        (stay s l i (holding op k) e (holding op (suc k)) new);
  obeys = refl;
}

step_thread :
    (s : System) (i : ℕ) (t : Thread)
    → IsLocked s
    → get_elem? s.threads i ≡ some t
    → Stepped s (acted t (advance s.bucket t).1) (record {
      bucket = (advance s.bucket t).0;
      threads = set s.threads i (advance s.bucket t).1;
    })
unfolding advance
step_thread s i (waiting op) l e = step_waiting s i op l e
step_thread s i (holding op k) l e = step_holding s i op k (advance s.bucket (holding op k)) l e (
    advance-Access s.bucket op k
      (Searching-at s.bucket.sentinel s.threads i (holding op k) l.searching e))
step_thread s i (leaving op code) l e = step_leaving s i op code l e
step_thread s i (returned op code) l e = record {
  locked =
      next-IsLocked s l i (returned op code) e s.bucket (returned op code) l.flag l.lock refl
        (stay s l i (returned op code) e (returned op code) tt);
  obeys = refl;
}

schedule-Stepped : (s : System) (i : ℕ) → IsLocked s → Stepped s (acts_at s i) (schedule s i)
unfolding schedule
schedule-Stepped s i l = elim (Option-cases (get_elem? s.threads i)) [
  | inl missing ↦ rw (missing, schedule, acts_at) (record { locked = l; obeys = refl })
  | inr (t, e) ↦ rw (e, schedule, acts_at) (step_thread s i t l e)
]

-- However the threads' accesses are interleaved, the lock is sound at each moment: its flag says whether a
-- thread is between `cspin_lock` and `cspin_unlock`, and no two threads are.
pub Runs-IsLocked :
    (s s' : System) (calls : List (Op × ℕ)) → IsLocked s → Runs s calls s' → IsLocked s'
Runs-IsLocked s _ _ l begin = l
Runs-IsLocked s _ _ l (run_on {mid = mid} before i) =
    (schedule-Stepped mid i (Runs-IsLocked s mid _ l before)).locked

-- However the threads' accesses are interleaved, from a sound state on, the bucket holds what the calls
-- leave that have acted, made one after the other in the order in which they acted, and each has the code
-- that it has there: the calls are linearizable.
pub Runs-Obeys :
    (s s' : System) (calls : List (Op × ℕ))
    → IsLocked s
    → Runs s calls s'
    → Obeys s.bucket.sentinel calls s'.bucket.sentinel
Runs-Obeys s _ _ l begin = refl
Runs-Obeys s _ _ l (run_on {calls = calls} {mid = mid} before i) =
    Obeys-append s.bucket.sentinel calls (acts_at mid i) mid.bucket.sentinel
      (schedule mid i).bucket.sentinel (Runs-Obeys s mid calls l before)
      (schedule-Stepped mid i (Runs-IsLocked s mid calls l before)).obeys
