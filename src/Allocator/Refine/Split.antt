-- ===== src/Allocator/Refine/Split.antt =====
-- `split_block` of task05-memory/src/allocator.c carves the block, and writes nowhere else.
use systems_programming_labs.Prelude.{
  ℕ, ◌+◌, ◌≤◌, ◌<◌, ◌^◌, ◌≡◌, true, false, some, inl, inr, List, [], ◌∷◌, ◌++◌, ◌==◌, ltb, arith,
  ◌∙◌, ◌-◌, Bool-cases, add64, add64-eq, sub64, sub64-eq,
}
use systems_programming_labs.Allocator.Heap.{
  Ptr, null, header_size, Heap, ◌>>◌, set_next, set_size, update,
}
use systems_programming_labs.Allocator.Ops.{set_back_link, split_block}
use systems_programming_labs.Allocator.Model.{Block, end_of, Ordered, carve}
use systems_programming_labs.Allocator.Refine.Returns
use systems_programming_labs.Allocator.Refine.Returns.{Returns, returns}
use systems_programming_labs.Allocator.Refine.Write.{load_lem, set_next_size, set_prev_lem}
use systems_programming_labs.Allocator.Refine.Linked.{
  first, last, header_of, Linked, nil, cons, Linked-frame, Ordered-le,
}
use systems_programming_labs.Allocator.Refine.Frame.{
  Suffix, Only, Only-refl, Only-trans, Only-widen, Only-header, Only-tail,
}

-- The address-space bound: below it no `size_t` sum of block sizes wraps.
abbrev pub limit : ℕ
limit = 2 ^ 63

-- The first block of a list's end gets a new predecessor, or the arena gets a new tail.
pub set_back_link-Suffix :
    (i lo hi : ℕ) (q : Ptr) {h : Heap} {p : Ptr} (ys : List Block)
    → 0 < lo
    → Ordered lo ys hi
    → Linked h.header i null p ys
    → (h.arena_pool i).tail ≡ last ys p
    → Returns (λ _ g. Suffix g i q ys × Only i lo hi h g) (set_back_link i (first ys null) q h)
unfolding set_back_link
set_back_link-Suffix i lo hi q {h} [] pos ord l t =
    returns (record { linked = nil; tail = ground arith }, Only-tail i lo hi h q)
set_back_link-Suffix i lo hi q {h} (y ∷ ys) pos ord (cons e l) t =
    let ne : (y.addr == null) ≡ false = ground arith in
    let le : end_of y ≤ hi = Ordered-le (end_of y) ys hi ord.1 in
    rw (ne, set_prev_lem h y.addr e q)
      (returns (
        record {
          linked = cons (ground arith) (Linked-frame (end_of y) hi ord.1 (λ a r s. ground arith) l);
          tail = t;
        },
        Only-header i lo hi h y.addr _ ord.0 (omega arith),
      ))

module _ (i lo hi : ℕ) (h : Heap) (p : Ptr) (b : Block) (ys : List Block) (pos : 0 < lo)
    (ord : Ordered lo (b ∷ ys) hi) (small : hi ≤ limit)
    (e : h.header b.addr ≡ some (header_of i b p (first ys null)))
    (l : Linked h.header i null b.addr ys) (t : (h.arena_pool i).tail ≡ last ys b.addr) (n : ℕ)
    (fit : n ≤ b.size) where
  abbrev r : Ptr
  r = b.addr + header_size + n

  bounds : (lo ≤ b.addr) × (end_of b ≤ hi)
  bounds = (ord.0, Ordered-le (end_of b) ys hi ord.1)

  guard_eq : add64 (add64 n header_size) 8 ≡ n + header_size + 8
  guard_eq =
      rw (add64-eq n header_size (omega (arith, bounds.1)))
        (add64-eq (n + header_size) 8 (omega (arith, bounds.1)))

  rest_eq : n + header_size ≤ b.size → sub64 (sub64 b.size n) header_size ≡ b.size - n - header_size
  rest_eq le =
      rw (sub64-eq b.size n fit (omega (arith, bounds.1)))
        (sub64-eq (b.size - n) header_size (omega arith) (omega (arith, bounds.1)))

  abbrev rest : Block
  rest = record { addr = r; freed = true; size = b.size - n - header_size }

  -- The heap after the remainder's header is written.
  abbrev opened : Heap
  opened = record h { header = update h.header r (some (header_of i rest b.addr (first ys null))) }

  opened-Linked : n + header_size + 8 ≤ b.size → Linked opened.header i null b.addr ys
  opened-Linked room = Linked-frame (end_of b) hi ord.1 (λ a u v. ground arith) l

  relinked :
      (g : Heap)
      → n + header_size + 8 ≤ b.size
      → Suffix g i r ys
      → Only i (end_of b) hi opened g
      → Returns
          (λ _ k. Suffix k i p (record b { size = n } ∷ rest ∷ ys) × Only i b.addr hi h k)
          ((set_next b.addr r >> set_size b.addr n) g)
  relinked g room sx o = rw (set_next_size g b.addr kept r n) (
      returns (
        record {
          linked = cons (ground arith) (
              cons (ground (arith, o.below r))
                (Linked-frame (end_of b) hi ord.1 (λ a u v. ground arith) sx.linked));
          tail = sx.tail;
        },
        Only-trans (Only-header i b.addr hi h r _ (omega arith) (omega (arith, bounds.1))) (
            Only-trans (Only-widen o b.addr hi (omega arith) (omega arith))
              (Only-header i b.addr hi g b.addr _ (omega arith) (omega (arith, bounds.1)))),
      ))
    where
      kept : g.header b.addr ≡ some (header_of i b p (first ys null))
      kept = o.below b.addr (omega arith) ∙ ground arith

  split_block-Linked :
      Returns
        (λ _ g. Suffix g i p (carve n b ++ ys) × Only i b.addr hi h g)
        (split_block i b.addr n h)
  unfolding split_block carve
  split_block-Linked =
      rw (load_lem h b.addr e, guard_eq)
        (elim (Bool-cases (ltb b.size (n + header_size + 8))) [
          | inl tight ↦
              rw tight (returns (record { linked = cons e l; tail = t }, Only-refl i b.addr hi h))
          | inr room ↦
              let enough : n + header_size + 8 ≤ b.size = ground arith in
              rw (room, rest_eq (omega arith))
                (Returns.bind
                  (set_back_link-Suffix i (end_of b) hi r {h = opened} {p = b.addr} ys (omega arith)
                    ord.1 (opened-Linked enough) t)
                  λ _ g (sx, o). relinked g enough sx o)
        ])

-- `split_block` carves the first block of a list's end.
pub split_block-carve :
    (i lo hi : ℕ) (h : Heap) (p : Ptr) (b : Block) (ys : List Block)
    → 0 < lo
    → Ordered lo (b ∷ ys) hi
    → hi ≤ limit
    → Suffix h i p (b ∷ ys)
    → (n : ℕ) → n ≤ b.size
    → Returns
        (λ _ g. Suffix g i p (carve n b ++ ys) × Only i b.addr hi h g)
        (split_block i b.addr n h)
split_block-carve i lo hi h p b ys pos ord small s n fit = go s.linked s.tail
  where
    go :
        Linked h.header i null p (b ∷ ys)
        → (h.arena_pool i).tail ≡ last ys b.addr
        → Returns
            (λ _ g. Suffix g i p (carve n b ++ ys) × Only i b.addr hi h g)
            (split_block i b.addr n h)
    go (cons e l) t = split_block-Linked i lo hi h p b ys pos ord small e l t n fit
