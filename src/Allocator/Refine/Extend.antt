-- ===== src/Allocator/Refine/Extend.antt =====
-- `extend_arena_heap` of task05-memory/src/allocator.c appends a block that `sbrk` gives.
use systems_programming_labs.Prelude.{
  ℕ, ◌+◌, ◌≤◌, ◌<◌, ◌≡◌, refl, sym, ◌∙◌, false, some, List, [], ◌∷◌, ◌++◌, ◌==◌, arith, add64,
  add64-eq, append-nil, ◌⊎◌, inl, inr, ◌≢◌,
}
use systems_programming_labs.Allocator.Heap.{Ptr, null, header_size, Heap, update}
use systems_programming_labs.Allocator.Ops.{append_block, set_forward_link, split_block}
use systems_programming_labs.Allocator.Model.{Block, end_of, Ordered, carve}
use systems_programming_labs.Allocator.Carve.{carve_parts}
use systems_programming_labs.Allocator.Refine.Returns
use systems_programming_labs.Allocator.Refine.Returns.{Returns, returns}
use systems_programming_labs.Allocator.Refine.Write.{set_next_lem}
use systems_programming_labs.Allocator.Refine.Linked.{
  Headers, first, last, header_of, Linked, nil, cons, Linked-frame, Linked-append, Ordered-le,
  Ordered-append, last-append,
}
use systems_programming_labs.Allocator.Refine.Frame.{
  Suffix, Suffix-back, IsArena, Only, Outside, Only-Outside, Outside-trans, Outside-widen,
}
use systems_programming_labs.Allocator.Refine.Split.{limit, split_block-carve}
use systems_programming_labs.Allocator.Refine.Context.{in_context}

-- The last header of a run, and the run with a new successor there.
record Ending (hd : Headers) (i : ℕ) (p : Ptr) (bs : List Block) (q : Ptr) : Type 0 where
  block : Block
  prev : Ptr
  holds : hd (last bs p) ≡ some (header_of i block prev null)
  relinked : Linked (update hd (last bs p) (some (header_of i block prev q))) i q p bs

last-ge :
    (lo : ℕ) (b : Block) (bs : List Block) (hi : ℕ)
    → Ordered lo (b ∷ bs) hi
    → (lo ≤ last bs b.addr) × (last bs b.addr + header_size ≤ hi)
last-ge lo b [] hi o = omega arith
last-ge lo b (c ∷ bs) hi o = omega (arith, last-ge (end_of b) c bs hi o.1)

ending :
    (hd : Headers) (i lo hi : ℕ) {p : Ptr} (q : Ptr) (b : Block) (bs : List Block)
    → Ordered lo (b ∷ bs) hi
    → Linked hd i null p (b ∷ bs)
    → Ending hd i p (b ∷ bs) q
ending hd i lo hi q b [] ord (cons {prev} e l) = record {
  block = b;
  prev = prev;
  holds = e;
  relinked = cons (ground arith) nil;
}
ending hd i lo hi q b (c ∷ bs) ord (cons e l) =
    let rest = ending hd i (end_of b) hi q c bs ord.1 l in
    record {
      block = rest.block;
      prev = rest.prev;
      holds = rest.holds;
      relinked = cons (ground (arith, last-ge (end_of b) c bs hi ord.1)) rest.relinked;
    }

-- The list with the new block linked, before the tail is moved.
record Appended (h g : Heap) (i lo hi : ℕ) (cs : List Block) : Type 0 where
  linked : Linked g.header i null null cs
  head : (g.arena_pool i).head ≡ first cs null
  outside : Outside i lo hi h g

Outside-heads :
    (i lo hi : ℕ) (h g : Heap)
    → ((a : Ptr) → (a < lo) ⊎ (hi ≤ a) → g.header a ≡ h.header a)
    → ((j : ℕ) → j ≢ i → g.arena_pool j ≡ h.arena_pool j)
    → g.bytes ≡ h.bytes
    → g.next_arena_id ≡ h.next_arena_id
    → g.thread_arena_id ≡ h.thread_arena_id
    → Outside i lo hi h g
Outside-heads i lo hi h g same others b n t = record {
  below = λ a p. same a (inl p);
  above = λ a p. same a (inr p);
  others = others;
  bytes = b;
  next_id = n;
  threads = t;
}

module _ (i lo hi hi' : ℕ) (f : Block) (pos : 0 < lo) (new : hi ≤ f.addr)
    (end : end_of f ≤ hi') where
  abbrev placed_heap : Heap → List Block → Heap
  placed_heap h bs = record h {
    header = update h.header f.addr (some (header_of i f (last bs null) null));
  }

  set_forward_link-Appended :
      (h : Heap) (bs : List Block)
      → Ordered lo bs hi
      → IsArena h i bs
      → Returns
          (λ _ g. Appended h g i lo hi' (bs ++ (f ∷ [])))
          (set_forward_link i f.addr (placed_heap h bs))
  unfolding set_forward_link
  set_forward_link-Appended h [] ord a = rw a.head (
      returns (record {
        linked = cons (ground arith) nil;
        head = ground arith;
        outside =
            Outside-heads i lo hi' h _ (λ c p. ground arith) (λ j p. ground arith) refl refl refl;
      }))
  set_forward_link-Appended h (b ∷ bs) ord a =
      rw (ne, a.suffix.tail, set_next_lem placed (last bs b.addr) en.holds f.addr)
        (returns (record {
          linked = Linked-append {ys = f ∷ []} en.relinked (cons (ground (arith, bounds)) nil);
          head = a.head;
          outside =
              Outside-heads i lo hi' h _ (λ c p. ground (arith, bounds)) (λ j p. refl) refl refl
                refl;
        }))
    where
      placed : Heap
      placed = placed_heap h (b ∷ bs)

      ne : ((h.arena_pool i).head == null) ≡ false
      ne = ground arith

      bounds : (lo ≤ last bs b.addr) × (last bs b.addr + header_size ≤ hi)
      bounds = last-ge lo b bs hi ord

      en : Ending placed.header i null (b ∷ bs) f.addr
      en =
          ending placed.header i lo hi f.addr b bs ord
            (Linked-frame lo hi ord (λ c u v. ground arith) a.suffix.linked)

  -- `append_block` links the new block behind the arena's last and carves it.
  pub append_block-IsArena :
      (h : Heap) (bs : List Block) (n reserve : ℕ)
      → hi' ≤ limit
      → f.freed ≡ false
      → f.size ≡ n + reserve
      → Ordered lo bs hi
      → IsArena h i bs
      → Returns
          (λ p g. (p ≡ f.addr) × IsArena g i (bs ++ carve n f) × Outside i lo hi' h g)
          (append_block i f.addr n reserve h)
  unfolding append_block
  append_block-IsArena h bs n reserve small used sized ord a = rw new_header (
      Returns.bind (set_forward_link-Appended h bs ord a) λ _ g new_list.
        Returns.bind (carved g new_list) λ _ k (u, s, o). returns (
          refl,
          record {
            head = o.head ∙ ground (arith, new_list.head) ∙ same_first bs;
            suffix = rw append-nil at s;
          },
          Outside-trans new_list.outside (
              Outside-trans (tail_moved g)
                (Outside-widen (Only-Outside o) lo hi' (omega arith) (omega arith))),
        ))
    where
      above : lo ≤ f.addr
      above = omega (arith, Ordered-le lo bs hi ord)

      sum_eq : add64 n reserve ≡ f.size
      sum_eq = add64-eq n reserve (omega arith) ∙ sym sized

      new_header :
          header_of i
            (record f { freed = false; size = add64 n reserve })
            (h.arena_pool i).tail
            null
          ≡ header_of i f (last bs null) null
      new_header = rw (sum_eq, a.suffix.tail, used)

      moved : Heap → Heap
      moved g = record g {
        arena_pool = update g.arena_pool i (record (g.arena_pool i) { tail = f.addr });
      }

      ordered : Ordered lo (bs ++ (f ∷ [])) hi'
      ordered = Ordered-append lo bs (f ∷ []) hi hi' ord (new, end)

      tail_moved : (g : Heap) → Outside i lo hi' g (moved g)
      tail_moved g = Outside-heads i lo hi' g _ (λ c p. refl) (λ j p. ground arith) refl refl refl

      carved :
          (g : Heap)
          → Appended h g i lo hi' (bs ++ (f ∷ []))
          → Returns
              (λ _ k.
                Unit {0} × Suffix k i null (bs ++ (carve n f ++ [])) × Only i lo hi' (moved g) k)
              (split_block i f.addr n (moved g))
      carved g new_list =
          in_context {P = λ _. Unit {0}} i lo hi' (moved g) null bs f [] (carve n f ++ []) ordered
            at_end (rw (carve_parts n f))
            (Returns.weaken
              (split_block-carve i lo hi' (moved g) (last bs null) f [] pos (above, end) small
                (Suffix-back bs at_end) n (omega arith))
              λ _ k (t, o). (tt, t, o))
        where
          at_end : Suffix (moved g) i null (bs ++ (f ∷ []))
          at_end = record {
            linked = new_list.linked;
            tail = ground arith ∙ sym (last-append bs (f ∷ []) null);
          }

      same_first : (bs : List Block) → first (bs ++ (f ∷ [])) null ≡ first (bs ++ carve n f) null
      same_first [] = rw (carve_parts n f)
      same_first (b ∷ bs) = refl
