-- ===== src/Allocator/Refine/Coalesce.antt =====
-- `coalesce_with_next` of task05-memory/src/allocator.c absorbs the next block, or changes nothing.
use systems_programming_labs.Prelude.{
  ℕ, ◌+◌, ◌≤◌, ◌<◌, ◌≡◌, false, some, inl, inr, List, [], ◌∷◌, ◌==◌, ◌&&◌, arith, ◌∙◌, Bool-cases,
  add64, add64-eq,
}
use systems_programming_labs.Allocator.Heap.{Ptr, null, header_size, Heap}
use systems_programming_labs.Allocator.Ops.{set_back_link, coalesce_with_next}
use systems_programming_labs.Allocator.Model.{Block, end_of, Ordered, absorb}
use systems_programming_labs.Allocator.Refine.Returns
use systems_programming_labs.Allocator.Refine.Returns.{Returns, returns}
use systems_programming_labs.Allocator.Refine.Write.{load_lem, resized, set_size_next}
use systems_programming_labs.Allocator.Refine.Linked.{
  first, last, header_of, Linked, cons, Linked-frame, Ordered-le,
}
use systems_programming_labs.Allocator.Refine.Frame.{
  Suffix, Only, Only-refl, Only-trans, Only-widen, Only-header,
}
use systems_programming_labs.Allocator.Refine.Split.{limit, set_back_link-Suffix}

module _ (i lo hi : ℕ) (h : Heap) (p : Ptr) (b n : Block) (ys : List Block) (pos : 0 < lo)
    (ord : Ordered lo (b ∷ n ∷ ys) hi) (small : hi ≤ limit)
    (e : h.header b.addr ≡ some (header_of i b p n.addr))
    (f : h.header n.addr ≡ some (header_of i n b.addr (first ys null)))
    (l : Linked h.header i null n.addr ys) (t : (h.arena_pool i).tail ≡ last ys n.addr) where
  bounds : (lo ≤ b.addr) × (end_of b ≤ n.addr) × (end_of n ≤ hi)
  bounds = (ord.0, ord.1.0, Ordered-le (end_of n) ys hi ord.1.1)

  sum_eq :
      (end_of b ≡ n.addr)
      → add64 b.size (add64 header_size n.size) ≡ b.size + (header_size + n.size)
  sum_eq q =
      rw (add64-eq header_size n.size (omega (arith, bounds.2)))
        (add64-eq b.size (header_size + n.size) (omega (arith, bounds.2)))

  abbrev big : Block
  big = record b { size = b.size + (header_size + n.size) }

  abbrev grown : Heap
  grown = resized h b.addr e (first ys null) (b.size + (header_size + n.size))

  absorbed :
      (g : Heap)
      → end_of b ≡ n.addr
      → Suffix g i b.addr ys
      → Only i (end_of n) hi grown g
      → Suffix g i p (big ∷ ys) × Only i b.addr hi h g
  absorbed g q sx o = (
    record {
      linked = cons (o.below b.addr (omega arith) ∙ ground arith) sx.linked;
      tail = sx.tail;
    },
    Only-trans (Only-header i b.addr hi h b.addr _ (omega arith) (omega (arith, bounds.2)))
        (Only-widen o b.addr hi (omega arith) (omega arith)),
  )

  coalesce-Linked :
      Returns
        (λ _ g. Suffix g i p (absorb b (n ∷ ys)) × Only i b.addr hi h g)
        (coalesce_with_next i b.addr h)
  unfolding coalesce_with_next absorb
  coalesce-Linked =
      let ne : (n.addr == null) ≡ false = ground (arith, bounds) in
      rw (load_lem h b.addr e, ne, load_lem h n.addr f)
        (elim (Bool-cases (n.freed && (end_of b == n.addr))) [
          | inr apart ↦
              rw apart
                (returns (record { linked = cons e (cons f l); tail = t }, Only-refl i b.addr hi h))
          | inl next ↦
              let q : end_of b ≡ n.addr = ground arith in
              rw
                (
                  next,
                  sum_eq q,
                  set_size_next h b.addr e (first ys null) (b.size + (header_size + n.size))
                      (set_back_link i (first ys null) b.addr),
                )
                (Returns.weaken
                  (set_back_link-Suffix i (end_of n) hi b.addr {h = grown} {p = n.addr} ys
                    (omega arith) ord.1.1
                    (Linked-frame (end_of n) hi ord.1.1 (λ a u v. ground arith) l) t)
                  λ _ g (sx, o). absorbed g q sx o)
        ])

-- `coalesce_with_next` at the first block of a list's end.
pub coalesce_with_next-absorb :
    (i lo hi : ℕ) (h : Heap) (p : Ptr) (b : Block) (ys : List Block)
    → 0 < lo
    → Ordered lo (b ∷ ys) hi
    → hi ≤ limit
    → Suffix h i p (b ∷ ys)
    → Returns
        (λ _ g. Suffix g i p (absorb b ys) × Only i b.addr hi h g)
        (coalesce_with_next i b.addr h)
unfolding coalesce_with_next absorb
coalesce_with_next-absorb i lo hi h p b [] pos ord small s = go s.linked
  where
    go :
        Linked h.header i null p (b ∷ [])
        → Returns
            (λ _ g. Suffix g i p (b ∷ []) × Only i b.addr hi h g)
            (coalesce_with_next i b.addr h)
    go (cons e l) = rw (load_lem h b.addr e) (returns (s, Only-refl i b.addr hi h))
coalesce_with_next-absorb i lo hi h p b (n ∷ ys) pos ord small s = go s.linked s.tail
  where
    go :
        Linked h.header i null p (b ∷ n ∷ ys)
        → (h.arena_pool i).tail ≡ last ys n.addr
        → Returns
            (λ _ g. Suffix g i p (absorb b (n ∷ ys)) × Only i b.addr hi h g)
            (coalesce_with_next i b.addr h)
    go (cons e (cons f l)) t = coalesce-Linked i lo hi h p b n ys pos ord small e f l t
