-- ===== src/LockHashMap/Bucket.antt =====
-- A bucket of task04-concurrency/src/lockhashmap.c, and what a thread does on it, one shared access at a
-- time. A value is the 64 bits of the `long`; a bucket's nodes are the values from the sentinel on.
use systems_programming_labs.Prelude.{
  ℕ, suc, Bool, Option, none, some, List, ◌∷◌, ◌++◌, ◌==◌, if◌then◌else◌, get_elem?, take, drop,
}
use systems_programming_labs.LockHashMap.Spinlock.{cspin_lock, cspin_unlock}

pub record Bucket : Type 0 where
  pub slock : Option Bool
  pub sentinel : List ℕ

pub data Op : Type 0 where
  insert remove lookup : (val : ℕ) → Op

-- Where a thread is in its call: in the loop of `cspin_lock`; behind it, at the link after the first `k`
-- nodes; in front of `cspin_unlock` with the code that it will return; or behind that.
pub data Thread : Type 0 where
  waiting : (op : Op) → Thread
  holding : (op : Op) (k : ℕ) → Thread
  leaving : (op : Op) (code : ℕ) → Thread
  returned : (op : Op) (code : ℕ) → Thread

-- `malloc` of the node comes before the lock.
unfoldable pub enter : Bool → Op → Thread
enter malloc_ok (insert val) = if malloc_ok then waiting (insert val) else returned (insert val) 1
enter malloc_ok (remove val) = waiting (remove val)
enter malloc_ok (lookup val) = waiting (lookup val)

-- The first `k` nodes linked to those behind the next one.
abbrev pub unlink : ℕ → List ℕ → List ℕ
unlink k nodes = take k nodes ++ drop (suc k) nodes

-- One round of the loop of `remove_item`.
unfoldable pub remove_round : Bucket → ℕ → ℕ → Bucket × Thread
remove_round b val k = elim (get_elem? b.sentinel k) [
  | none ↦ (b, leaving (remove val) 1)
  | some m_val ↦
      if m_val == val
      then (record b { sentinel = unlink k b.sentinel }, leaving (remove val) 0)
      else (b, holding (remove val) (suc k))
]

-- One round of the loop of `lookup_item`.
unfoldable pub lookup_round : Bucket → ℕ → ℕ → Bucket × Thread
lookup_round b val k = elim (get_elem? b.sentinel k) [
  | none ↦ (b, leaving (lookup val) 1)
  | some m_val ↦
      if m_val == val then (b, leaving (lookup val) 0) else (b, holding (lookup val) (suc k))
]

unfoldable pub acquire : Bucket → Op → Bucket × Thread
acquire b op =
    let (entered, slock) = cspin_lock b.slock in
    (record b { slock = slock }, if entered then holding op 0 else waiting op)

-- The next access of a thread. The node of `insert_item` is nobody else's until the sentinel points to it.
unfoldable pub advance : Bucket → Thread → Bucket × Thread
advance b (waiting op) = acquire b op
advance b (holding (insert val) k) =
    (record b { sentinel = val ∷ b.sentinel }, leaving (insert val) 0)
advance b (holding (remove val) k) = remove_round b val k
advance b (holding (lookup val) k) = lookup_round b val k
advance b (leaving op code) = (record b { slock = (cspin_unlock b.slock).1 }, returned op code)
advance b (returned op code) = (b, returned op code)
