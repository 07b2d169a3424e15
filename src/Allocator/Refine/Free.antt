-- ===== src/Allocator/Refine/Free.antt =====
-- `arena_free` and `merge_blocks` of task05-memory/src/allocator.c merge the freed block with its free
-- neighbours, and write nowhere else.
use systems_programming_labs.Prelude.{
  ℕ, ◌+◌, ◌≤◌, ◌<◌, ◌≡◌, refl, true, false, some, inl, inr, List, [], ◌∷◌, ◌++◌, ◌==◌, ◌&&◌, arith,
  ◌∙◌, sym, Bool-cases,
}
use systems_programming_labs.Allocator.Heap.{Ptr, null, header_size, Heap}
use systems_programming_labs.Allocator.Ops.{merge_blocks, arena_free}
use systems_programming_labs.Allocator.Model.{Block, end_of, Ordered, absorb, merge}
use systems_programming_labs.Allocator.Refine.Returns
use systems_programming_labs.Allocator.Refine.Returns.{Returns, returns}
use systems_programming_labs.Allocator.Refine.Write.{load_lem}
use systems_programming_labs.Allocator.Refine.Linked.{first, header_of, Linked, cons}
use systems_programming_labs.Allocator.Refine.Frame.{
  Suffix, IsArena, header_at, Only, Only-trans, Only-widen, Suffix-back, Suffix-append,
}
use systems_programming_labs.Allocator.Refine.Split.{limit}
use systems_programming_labs.Allocator.Refine.Context.{Ordered-replace, set_freed-Suffix}
use systems_programming_labs.Allocator.Refine.Coalesce.{coalesce_with_next-absorb}

pub Ordered-absorb :
    (lo : ℕ) (b : Block) (ys : List Block) (hi : ℕ)
    → Ordered lo (b ∷ ys) hi
    → Ordered lo (absorb b ys) hi
unfolding absorb
Ordered-absorb lo b [] hi o = o
Ordered-absorb lo b (n ∷ ys) hi o = elim (Bool-cases (n.freed && (end_of b == n.addr))) [
  | inl next ↦
      let q : end_of b ≡ n.addr = ground arith in
      let same : b.addr + header_size + (b.size + (header_size + n.size)) ≡ end_of n =
        omega arith in
      rw next (o.0, rw same o.1.1)
  | inr apart ↦ rw apart o
]

pub first-absorb : (b : Block) (ys : List Block) (stop : Ptr) → first (absorb b ys) stop ≡ b.addr
unfolding absorb
first-absorb b [] stop = refl
first-absorb b (n ∷ ys) stop = ground arith

pub first-merge :
    (a : Block) (xs : List Block) (b : Block) (ys : List Block) (stop : Ptr)
    → first (merge (a ∷ xs) b ys) stop ≡ a.addr
unfolding merge
first-merge a [] b ys stop = ground (arith, first-absorb a (absorb b ys) stop)
first-merge a (a' ∷ xs) b ys stop = refl

-- The first header of a list's end.
header_first :
    {h : Heap} {i : ℕ} {p : Ptr} (q : Ptr) (zs : List Block)
    → 0 < q
    → first zs null ≡ q
    → Suffix h i p zs
    → (c : Block) × (stop : Ptr) × (h.header q ≡ some (header_of i c p stop))
header_first {h} {i} {p} q zs pos eq s = go zs eq s.linked
  where
    go :
        (zs : List Block)
        → first zs null ≡ q
        → Linked h.header i null p zs
        → (c : Block) × (stop : Ptr) × (h.header q ≡ some (header_of i c p stop))
    go [] eq l = absurd (omega arith)
    go (z ∷ zs) eq (cons e l) = (z, first zs null, rw (← eq) e)

module _ (i lo hi : ℕ) (pos : 0 < lo) (small : hi ≤ limit) where
  merge-first :
      (h : Heap) (b : Block) (ys : List Block)
      → Ordered lo (b ∷ ys) hi
      → Suffix h i null (b ∷ ys)
      → Returns
          (λ _ g. Suffix g i null (absorb b ys) × Only i b.addr hi h g)
          (merge_blocks i b.addr h)
  unfolding merge_blocks
  merge-first h b ys ord s =
      Returns.bind (coalesce_with_next-absorb i lo hi h null b ys pos ord small s) λ _ g (sx, o).
        let (c, stop, e) =
          header_first b.addr (absorb b ys) (omega arith) (first-absorb b ys null) sx in
        rw (load_lem g b.addr e) (returns (sx, o))

  merge-second :
      (h : Heap) (p : Ptr) (a b : Block) (ys : List Block)
      → Ordered lo (a ∷ b ∷ ys) hi
      → Suffix h i p (a ∷ b ∷ ys)
      → Returns
          (λ _ g. Suffix g i p (merge (a ∷ []) b ys) × Only i a.addr hi h g)
          (merge_blocks i b.addr h)
  unfolding merge_blocks merge
  merge-second h p a b ys ord s =
      Returns.bind
        (coalesce_with_next-absorb i (end_of a) hi h a.addr b ys (omega arith) ord.1 small
          (Suffix-back (a ∷ []) s))
        λ _ g (sx, o).
          let (c, stop, e) =
            header_first b.addr (absorb b ys) (omega arith) (first-absorb b ys null) sx in
          let ne : (a.addr == null) ≡ false = ground arith in
          let whole =
            Suffix-append o lo {prev = p} (a ∷ []) (absorb b ys) (b ∷ ys) ord'
              (first-absorb b ys null) s sx in
          let w = Only-widen o a.addr hi (omega arith) (omega arith) in
          rw (load_lem g b.addr e, ne, load_lem g a.addr (header_at a (absorb b ys) whole))
            (elim (Bool-cases a.freed) [
              | inl both ↦ simp both (
                  Returns.weaken
                    (coalesce_with_next-absorb i lo hi g p a (absorb b ys) pos
                      (ord.0, Ordered-absorb (end_of a) b ys hi ord.1) small whole)
                    λ _ k (sk, ok). (sk, Only-trans w ok))
              | inr used ↦ simp used (returns (whole, w))
            ])
    where
      ord' : Ordered lo (a ∷ []) b.addr
      ord' = (ord.0, ord.1.0)

pub Only-within : (i lo hi lo' : ℕ) {h g : Heap} → lo' ≤ lo → Only i lo hi h g → Only i lo' hi h g
Only-within i lo hi lo' le o = Only-widen o lo' hi le (omega arith)

-- `merge_blocks` at any position but the first of a list's end.
merge-later :
    (i lo hi : ℕ) (h : Heap) (p : Ptr) (a : Block) (xs : List Block) (b : Block) (ys : List Block)
    → 0 < lo
    → hi ≤ limit
    → Ordered lo (a ∷ (xs ++ (b ∷ ys))) hi
    → Suffix h i p (a ∷ (xs ++ (b ∷ ys)))
    → Returns
        (λ _ g. Suffix g i p (merge (a ∷ xs) b ys) × Only i a.addr hi h g)
        (merge_blocks i b.addr h)
merge-later i lo hi h p a [] b ys pos small ord s = merge-second i lo hi pos small h p a b ys ord s
merge-later i lo hi h p a (a' ∷ xs) b ys pos small ord s =
    Returns.weaken
      (merge-later i (end_of a) hi h a.addr a' xs b ys (omega arith) small ord.1
        (Suffix-back (a ∷ []) s))
      λ _ g (sx, o).
        unfold merge in
        (
          Suffix-append o lo {prev = p} (a ∷ []) (merge (a' ∷ xs) b ys) (a' ∷ (xs ++ (b ∷ ys)))
              (ord.0, ord.1.0) (first-merge a' xs b ys null) s sx,
          Only-within i a'.addr hi a.addr (omega arith) o,
        )

-- `merge_blocks` at any block of an arena.
pub merge_blocks-merge :
    (i lo hi : ℕ) (h : Heap) (xs : List Block) (b : Block) (ys : List Block)
    → 0 < lo
    → hi ≤ limit
    → Ordered lo (xs ++ (b ∷ ys)) hi
    → Suffix h i null (xs ++ (b ∷ ys))
    → Returns (λ _ g. Suffix g i null (merge xs b ys) × Only i lo hi h g) (merge_blocks i b.addr h)
unfolding merge
merge_blocks-merge i lo hi h [] b ys pos small ord s =
    Returns.weaken (merge-first i lo hi pos small h b ys ord s)
      λ _ g (sx, o). (sx, Only-within i b.addr hi lo ord.0 o)
merge_blocks-merge i lo hi h (a ∷ xs) b ys pos small ord s =
    Returns.weaken (merge-later i lo hi h null a xs b ys pos small ord s)
      λ _ g (sx, o). (sx, Only-within i a.addr hi lo ord.0 o)

-- `arena_free` marks the block and merges it: the arena then stands for `merge` at that place.
pub arena_free-merge :
    (i lo hi : ℕ) (h : Heap) (xs : List Block) (b : Block) (ys : List Block)
    → 0 < lo
    → hi ≤ limit
    → Ordered lo (xs ++ (b ∷ ys)) hi
    → IsArena h i (xs ++ (b ∷ ys))
    → Returns
        (λ _ g. IsArena g i (merge xs (record b { freed = true }) ys) × Only i lo hi h g)
        (arena_free i b.addr h)
unfolding arena_free merge
arena_free-merge i lo hi h xs b ys pos small ord a =
    Returns.bind (set_freed-Suffix i lo hi h null xs b ys true ord a.suffix) λ _ g (s, o).
      Returns.weaken
        (merge_blocks-merge i lo hi g xs (record b { freed = true }) ys pos small
          (Ordered-replace lo xs b (record b { freed = true }) ys hi refl refl ord) s)
        λ _ k (t, ok).
          (record { head = ok.head ∙ o.head ∙ a.head ∙ same_first xs; suffix = t }, Only-trans o ok)
  where
    same_first :
        (xs : List Block)
        → first (xs ++ (b ∷ ys)) null ≡ first (merge xs (record b { freed = true }) ys) null
    same_first [] = sym (first-absorb _ ys null)
    same_first (x ∷ xs) = sym (first-merge x xs _ ys null)
