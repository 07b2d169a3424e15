-- ===== src/LockFreeMap/Bucket.antt =====
-- A bucket of task04-concurrency/src/lockfreehashmap.c, and what a thread does on it, one atomic operation
-- at a time. A node is never freed while the table is in use, so a pointer to one is its position in the
-- list of the nodes in the order in which they were published; `none` is the null pointer.
use systems_programming_labs.Prelude.{
  ℕ, Bool, true, false, ◌&&◌, not, Option, none, some, List, [], ◌∷◌, ◌++◌, ◌==◌, if◌then◌else◌,
  length, get_elem?, set,
}

pub record Node : Type 0 where
  pub m_val : ℕ
  pub m_next : Option ℕ
  pub is_deleted : Bool

pub record Bucket : Type 0 where
  pub sentinel : Option ℕ
  pub nodes : List Node

-- A link that points to a node: `none` is the sentinel, `some p` the `m_next` of node `p`.
abbrev pub Link : Type 0
Link = Option ℕ

-- Where a thread is: in front of the load of the sentinel; in front of the exchange that publishes its node,
-- whose `m_next` is `old`; in front of the load of a node's `m_next`; in front of the exchange of
-- `is_deleted`; in front of the exchange of the link; in front of the load of `is_deleted`; or behind it.
pub data Thread : Type 0 where
  inserting removing looking : (val : ℕ) → Thread
  publishing : (val : ℕ) (old : Option ℕ) → Thread
  stepping : (val : ℕ) (link : Link) (cur : ℕ) → Thread
  marking : (val : ℕ) (link : Link) (cur : ℕ) (next : Option ℕ) → Thread
  unlinking : (val : ℕ) (link : Link) (cur : ℕ) (next : Option ℕ) → Thread
  checking : (val : ℕ) (cur : ℕ) → Thread
  passing : (val : ℕ) (cur : ℕ) → Thread
  returned : (code : ℕ) → Thread

abbrev pub same_pointer : Option ℕ → Option ℕ → Bool
same_pointer none none = true
same_pointer none (some b) = false
same_pointer (some a) none = false
same_pointer (some a) (some b) = a == b

-- The loop heads of `remove_item` and `lookup_item`.
abbrev pub remove_from : ℕ → Link → Option ℕ → Thread
remove_from val link none = returned 1
remove_from val link (some cur) = stepping val link cur

abbrev pub lookup_from : ℕ → Option ℕ → Thread
lookup_from val none = returned 1
lookup_from val (some cur) = checking val cur

-- The exchange of the sentinel; `weak` says whether it may fail without a reason.
unfoldable pub publish : Bool → Bucket → ℕ → Option ℕ → Bucket × Thread
publish weak b val old =
    if same_pointer b.sentinel old && not weak
    then (
      record {
        sentinel = some (length b.nodes);
        nodes = b.nodes ++ (record { m_val = val; m_next = old; is_deleted = false } ∷ []);
      },
      returned 0,
    )
    else (b, publishing val b.sentinel)

abbrev pub mark : Bucket → ℕ → Node → Bucket
mark b cur n = record b { nodes = set b.nodes cur (record n { is_deleted = true }) }

-- The test of the value, and the exchange of `is_deleted`.
unfoldable pub try_mark : Bucket → ℕ → Link → ℕ → Option ℕ → Bucket × Thread
try_mark b val link cur next = elim (get_elem? b.nodes cur) [
  | none ↦ (b, returned 1)
  | some n ↦
      if n.m_val == val && not n.is_deleted
      then (mark b cur n, unlinking val link cur next)
      else (b, remove_from val (some cur) next)
]

-- The exchange of the link from `cur` to `next`.
unfoldable pub unlink : Bool → Bucket → Link → ℕ → Option ℕ → Bucket
unlink weak b none cur next =
    if same_pointer b.sentinel (some cur) && not weak then record b { sentinel = next } else b
unlink weak b (some p) cur next = elim (get_elem? b.nodes p) [
  | none ↦ b
  | some n ↦
      if same_pointer n.m_next (some cur) && not weak
      then record b { nodes = set b.nodes p (record n { m_next = next }) }
      else b
]

-- The next operation of a thread. A pointer to no node never arises; such a thread gives up.
unfoldable pub advance : Bool → Bucket → Thread → Bucket × Thread
advance weak b (inserting val) = (b, publishing val b.sentinel)
advance weak b (removing val) = (b, remove_from val none b.sentinel)
advance weak b (looking val) = (b, lookup_from val b.sentinel)
advance weak b (publishing val old) = publish weak b val old
advance weak b (stepping val link cur) = elim (get_elem? b.nodes cur) [
  | none ↦ (b, returned 1)
  | some n ↦ (b, marking val link cur n.m_next)
]
advance weak b (marking val link cur next) = try_mark b val link cur next
advance weak b (unlinking val link cur next) = (unlink weak b link cur next, returned 0)
advance weak b (checking val cur) = elim (get_elem? b.nodes cur) [
  | none ↦ (b, returned 1)
  | some n ↦ if n.m_val == val && not n.is_deleted then (b, returned 0) else (b, passing val cur)
]
advance weak b (passing val cur) = elim (get_elem? b.nodes cur) [
  | none ↦ (b, returned 1)
  | some n ↦ (b, lookup_from val n.m_next)
]
advance weak b (returned code) = (b, returned code)
