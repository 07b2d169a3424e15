-- ===== src/LockFreeMap/Runs.antt =====
-- Runs of threads on a bucket of task04-concurrency/src/lockfreehashmap.c.
use systems_programming_labs.Prelude.{
  ℕ, zero, suc, ◌≡◌, Bool, true, false, Option-cases, none, some, inl, inr, List, [], ◌∷◌, length,
  get_elem?, set, arith,
}
use systems_programming_labs.LockFreeMap.Bucket.{Node, Bucket, Thread, advance}
use systems_programming_labs.LockFreeMap.Chain.{IsChain, Grows, reaches, LeadsBelow-reaches}
use systems_programming_labs.LockFreeMap.Grow.{Seen, Seen-Grows, node_lt}
use systems_programming_labs.LockFreeMap.Steps.{advance-Goes}

pub record System : Type 0 where
  pub bucket : Bucket
  pub threads : List Thread

-- Thread `i` makes its next operation; a weak exchange may fail.
unfoldable pub schedule : Bool → System → ℕ → System
schedule weak s i = elim (get_elem? s.threads i) [
  | none ↦ s
  | some t ↦ record {
    bucket = (advance weak s.bucket t).0;
    threads = set s.threads i (advance weak s.bucket t).1;
  }
]

pub data Runs (s : System) : System → Type 0 where
  begin : Runs s s
  run_on : {mid : System} → Runs s mid → (weak : Bool) (i : ℕ) → Runs s (schedule weak mid i)

abbrev pub AllSeen : List Node → List Thread → Type 0
AllSeen nodes [] = Unit {0}
AllSeen nodes (t ∷ ts) = Seen nodes t × AllSeen nodes ts

pub record IsSound (s : System) : Type 0 where
  pub chain : IsChain s.bucket
  pub seen : AllSeen s.bucket.nodes s.threads

Seen-at :
    (nodes : List Node) (ts : List Thread) (i : ℕ) (t : Thread)
    → AllSeen nodes ts
    → get_elem? ts i ≡ some t
    → Seen nodes t
Seen-at nodes [] i t all e = cc
Seen-at nodes (u ∷ ts) zero t all e = let q : t ≡ u = ground arith in rw q all.0
Seen-at nodes (u ∷ ts) (suc i) t all e = Seen-at nodes ts i t all.1 e

Seen-set :
    (nodes nodes' : List Node) (ts : List Thread) (i : ℕ) (t : Thread)
    → Grows nodes nodes'
    → AllSeen nodes ts
    → Seen nodes' t
    → AllSeen nodes' (set ts i t)
Seen-set nodes nodes' [] i t g all new = tt
Seen-set nodes nodes' (u ∷ ts) zero t g all new = (new, all_grow ts all.1)
  where
    all_grow : (us : List Thread) → AllSeen nodes us → AllSeen nodes' us
    all_grow [] a = tt
    all_grow (v ∷ us) a = (Seen-Grows nodes nodes' v g a.0, all_grow us a.1)
Seen-set nodes nodes' (u ∷ ts) (suc i) t g all new =
    (Seen-Grows nodes nodes' u g all.0, Seen-set nodes nodes' ts i t g all.1 new)

schedule-IsSound : (weak : Bool) (s : System) (i : ℕ) → IsSound s → IsSound (schedule weak s i)
unfolding schedule
schedule-IsSound weak s i sound = elim (Option-cases (get_elem? s.threads i)) [
  | inl missing ↦ rw (missing, schedule) sound
  | inr (t, e) ↦
      let goes =
        advance-Goes weak s.bucket t sound.chain
          (Seen-at s.bucket.nodes s.threads i t sound.seen e) in
      rw (e, schedule)
        (record {
          chain = goes.chain;
          seen =
              Seen-set s.bucket.nodes (advance weak s.bucket t).0.nodes s.threads i
                (advance weak s.bucket t).1 goes.grows sound.seen goes.seen;
        })
]

Runs-IsSound : (s s' : System) → IsSound s → Runs s s' → IsSound s'
Runs-IsSound s _ sound begin = sound
Runs-IsSound s _ sound (run_on {mid = mid} before weak i) =
    schedule-IsSound weak mid i (Runs-IsSound s mid sound before)

-- However the threads' atomic operations are interleaved, from a sound state on, and whichever weak
-- exchanges fail: every node that is not deleted is reached from the sentinel by following `m_next` over at
-- most as many nodes as have been published, so no unlinking loses a value.
pub Runs-reaches :
    (s s' : System) (z : ℕ) (n : Node)
    → IsSound s
    → Runs s s'
    → get_elem? s'.bucket.nodes z ≡ some n
    → n.is_deleted ≡ false
    → reaches (length s'.bucket.nodes) s'.bucket.nodes s'.bucket.sentinel z ≡ true
Runs-reaches s s' z n sound runs held live =
    let after = (Runs-IsSound s s' sound runs).chain in
    LeadsBelow-reaches (length s'.bucket.nodes) s'.bucket (length s'.bucket.nodes)
      s'.bucket.sentinel z n after after.head (omega arith) after.head.low
      (node_lt s'.bucket.nodes z held) held live
