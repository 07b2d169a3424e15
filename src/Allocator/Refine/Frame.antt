-- ===== src/Allocator/Refine/Frame.antt =====
-- What a heap of task05-memory/src/allocator.c says of one arena, and what a command on the arena leaves
-- alone.
use systems_programming_labs.Prelude.{
  ℕ, ◌≤◌, ◌<◌, ◌≡◌, refl, ◌≢◌, ◌∙◌, sym, Option, some, List, ◌∷◌, ◌++◌, arith,
}
use systems_programming_labs.Allocator.Heap.{Ptr, null, BlockHeader, Heap, update}
use systems_programming_labs.Allocator.Model.{Block, Ordered}
use systems_programming_labs.Allocator.Refine.Linked.{
  first, last, header_of, Linked, cons, Linked-append, Linked-front, Linked-back, Linked-frame,
  last-append,
}

-- The end of arena `i`'s list, from the block that follows `prev` on.
pub record Suffix (h : Heap) (i : ℕ) (prev : Ptr) (bs : List Block) : Type 0 where
  pub linked : Linked h.header i null prev bs
  pub tail : (h.arena_pool i).tail ≡ last bs prev

pub record IsArena (h : Heap) (i : ℕ) (bs : List Block) : Type 0 where
  pub head : (h.arena_pool i).head ≡ first bs null
  pub suffix : Suffix h i null bs

-- `g` differs from `h` at most in the headers from `lo` on and below `hi` and in the tail of arena `i`.
pub record Only (i lo hi : ℕ) (h g : Heap) : Type 0 where
  pub below : (a : Ptr) → a < lo → g.header a ≡ h.header a
  pub above : (a : Ptr) → hi ≤ a → g.header a ≡ h.header a
  pub head : (g.arena_pool i).head ≡ (h.arena_pool i).head
  pub others : (j : ℕ) → j ≢ i → g.arena_pool j ≡ h.arena_pool j
  pub bytes : g.bytes ≡ h.bytes
  pub next_id : g.next_arena_id ≡ h.next_arena_id
  pub threads : g.thread_arena_id ≡ h.thread_arena_id
  pub contention : g.contention_detected ≡ h.contention_detected

module _ {i lo hi : ℕ} {h g : Heap} (o : Only i lo hi h g) where
  pub Only-trans : {k : Heap} → Only i lo hi g k → Only i lo hi h k
  Only-trans p = record {
    below = λ a q. p.below a q ∙ o.below a q;
    above = λ a q. p.above a q ∙ o.above a q;
    head = p.head ∙ o.head;
    others = λ j q. p.others j q ∙ o.others j q;
    bytes = p.bytes ∙ o.bytes;
    next_id = p.next_id ∙ o.next_id;
    threads = p.threads ∙ o.threads;
    contention = p.contention ∙ o.contention;
  }

  pub Only-widen : (lo' hi' : ℕ) → lo' ≤ lo → hi ≤ hi' → Only i lo' hi' h g
  Only-widen lo' hi' p q = record {
    below = λ a r. o.below a (omega arith);
    above = λ a r. o.above a (omega arith);
    head = o.head;
    others = o.others;
    bytes = o.bytes;
    next_id = o.next_id;
    threads = o.threads;
    contention = o.contention;
  }

  -- A change behind `xs` that keeps the first address there is a change of the whole list's end.
  pub Suffix-append :
      (start : ℕ) {prev : Ptr} (xs zs ys : List Block)
      → Ordered start xs lo
      → first zs null ≡ first ys null
      → Suffix h i prev (xs ++ ys)
      → Suffix g i (last xs prev) zs
      → Suffix g i prev (xs ++ zs)
  Suffix-append start {prev} xs zs ys ord same s t = record {
    linked =
        Linked-append {ys = zs}
          (rw same (Linked-frame start lo ord (λ a p q. o.below a q) (Linked-front xs ys s.linked)))
          t.linked;
    tail = t.tail ∙ sym (last-append xs zs prev);
  }

pub Suffix-back :
    {h : Heap} {i : ℕ} {prev : Ptr} (xs : List Block) {ys : List Block}
    → Suffix h i prev (xs ++ ys)
    → Suffix h i (last xs prev) ys
Suffix-back {prev} xs {ys} s = record {
  linked = Linked-back xs s.linked;
  tail = s.tail ∙ last-append xs ys prev;
}

pub header_at :
    {h : Heap} {i : ℕ} {p : Ptr} (b : Block) (bs : List Block)
    → Suffix h i p (b ∷ bs)
    → h.header b.addr ≡ some (header_of i b p (first bs null))
header_at {h} {i} {p} b bs s = go s.linked
  where
    go :
        Linked h.header i null p (b ∷ bs) → h.header b.addr ≡ some (header_of i b p (first bs null))
    go (cons e l) = e

pub Only-refl : (i lo hi : ℕ) (h : Heap) → Only i lo hi h h
Only-refl i lo hi h = record {
  below = λ a q. refl;
  above = λ a q. refl;
  head = refl;
  others = λ j q. refl;
  bytes = refl;
  next_id = refl;
  threads = refl;
  contention = refl;
}

-- A write to one header, and a new tail.
pub Only-header :
    (i lo hi : ℕ) (h : Heap) (a : Ptr) (v : Option BlockHeader)
    → lo ≤ a
    → a < hi
    → Only i lo hi h (record h { header = update h.header a v })
Only-header i lo hi h a v p q = record {
  below = λ c r. ground arith;
  above = λ c r. ground arith;
  head = refl;
  others = λ j r. refl;
  bytes = refl;
  next_id = refl;
  threads = refl;
  contention = refl;
}

pub Only-tail :
    (i lo hi : ℕ) (h : Heap) (t : Ptr)
    → Only i lo hi h
        (record h { arena_pool = update h.arena_pool i (record (h.arena_pool i) { tail = t }) })
Only-tail i lo hi h t = record {
  below = λ c r. refl;
  above = λ c r. refl;
  head = ground arith;
  others = λ j r. ground arith;
  bytes = refl;
  next_id = refl;
  threads = refl;
  contention = refl;
}

-- As `Only`, but the arena's head and the contention flag may change too.
pub record Outside (i lo hi : ℕ) (h g : Heap) : Type 0 where
  pub below : (a : Ptr) → a < lo → g.header a ≡ h.header a
  pub above : (a : Ptr) → hi ≤ a → g.header a ≡ h.header a
  pub others : (j : ℕ) → j ≢ i → g.arena_pool j ≡ h.arena_pool j
  pub bytes : g.bytes ≡ h.bytes
  pub next_id : g.next_arena_id ≡ h.next_arena_id
  pub threads : g.thread_arena_id ≡ h.thread_arena_id

pub Only-Outside : {i lo hi : ℕ} {h g : Heap} → Only i lo hi h g → Outside i lo hi h g
Only-Outside o = record {
  below = o.below;
  above = o.above;
  others = o.others;
  bytes = o.bytes;
  next_id = o.next_id;
  threads = o.threads;
}

module _ {i lo hi : ℕ} {h g : Heap} (o : Outside i lo hi h g) where
  pub Outside-trans : {k : Heap} → Outside i lo hi g k → Outside i lo hi h k
  Outside-trans p = record {
    below = λ a q. p.below a q ∙ o.below a q;
    above = λ a q. p.above a q ∙ o.above a q;
    others = λ j q. p.others j q ∙ o.others j q;
    bytes = p.bytes ∙ o.bytes;
    next_id = p.next_id ∙ o.next_id;
    threads = p.threads ∙ o.threads;
  }

  pub Outside-widen : (lo' hi' : ℕ) → lo' ≤ lo → hi ≤ hi' → Outside i lo' hi' h g
  Outside-widen lo' hi' p q = record {
    below = λ a r. o.below a (omega arith);
    above = λ a r. o.above a (omega arith);
    others = o.others;
    bytes = o.bytes;
    next_id = o.next_id;
    threads = o.threads;
  }
