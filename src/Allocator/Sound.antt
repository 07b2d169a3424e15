-- ===== src/Allocator/Sound.antt =====
-- The invariant of an arena's block list in task05-memory/src/allocator.c, and that the operations of
-- `Model` keep it.
use systems_programming_labs.Prelude.{
  ℕ, ◌+◌, ◌%◌, ◌≤◌, ◌≡◌, refl, true, Bool-cases, Option, none, some, inl, inr, List, [], ◌∷◌, ◌++◌,
  append-nil, arith,
}
use systems_programming_labs.Allocator.Heap.{Ptr, header_size}
use systems_programming_labs.Allocator.Model.{
  Block, Place, whole, end_of, fits, first_fit, carve, in_use, fresh_block, hand_out, extend,
  allocate, absorb, merge, Ordered, Answer,
}
use systems_programming_labs.Allocator.FirstFit.{Found, IsFirst, first_fit-Found}
use systems_programming_labs.Allocator.Layout.{
  Coalesced, Coalesced-merge, Coalesced-hand_out, Coalesced-extend,
}
use systems_programming_labs.Allocator.Refine.Linked.{Ordered-front, Ordered-back, Ordered-append}
use systems_programming_labs.Allocator.Carve.{Ordered-carve}
use systems_programming_labs.Allocator.Refine.Context.{Ordered-replace}
use systems_programming_labs.Allocator.Refine.Free.{Ordered-absorb}

abbrev pub Aligned : List Block → Type 0
Aligned [] = Unit {0}
Aligned (b ∷ bs) = (b.addr % 8 ≡ 0) × (b.size % 8 ≡ 0) × Aligned bs

-- In order and apart, on multiples of eight, and coalesced.
pub record Sound (lo : ℕ) (bs : List Block) (hi : ℕ) : Type 0 where
  pub ordered : Ordered lo bs hi
  pub aligned : Aligned bs
  pub coalesced : Coalesced bs

Aligned-append : (xs ys : List Block) → Aligned xs → Aligned ys → Aligned (xs ++ ys)
Aligned-append [] ys a b = b
Aligned-append (x ∷ xs) ys a b = (a.0, a.1, Aligned-append xs ys a.2 b)

Aligned-parts : (xs ys : List Block) → Aligned (xs ++ ys) → Aligned xs × Aligned ys
Aligned-parts [] ys a = (tt, a)
Aligned-parts (x ∷ xs) ys a = let (p, q) = Aligned-parts xs ys a.2 in ((a.0, a.1, p), q)

pub Aligned-absorb : (b : Block) (ys : List Block) → Aligned (b ∷ ys) → Aligned (absorb b ys)
unfolding absorb
Aligned-absorb b [] a = a
Aligned-absorb b (n ∷ ys) a = ground arith

Aligned-merge :
    (xs : List Block) (b : Block) (ys : List Block)
    → Aligned (xs ++ (b ∷ ys))
    → Aligned (merge xs b ys)
unfolding merge
Aligned-merge [] b ys a = Aligned-absorb b ys a
Aligned-merge (x ∷ []) b ys a =
    let rest = Aligned-absorb b ys a.2 in
    elim (Bool-cases x.freed) [
      | inl both ↦ simp both (Aligned-absorb x (absorb b ys) (a.0, a.1, rest))
      | inr used ↦ simp used (a.0, a.1, rest)
    ]
Aligned-merge (x ∷ x' ∷ xs) b ys a = (a.0, a.1, Aligned-merge (x' ∷ xs) b ys a.2)

pub Aligned-carve :
    (n : ℕ) (b : Block) (ys : List Block) → n % 8 ≡ 0 → Aligned (b ∷ ys) → Aligned (carve n b ++ ys)
unfolding carve
Aligned-carve n b ys e a = ground arith

Ordered-merge :
    (lo : ℕ) (xs : List Block) (b : Block) (ys : List Block) (hi : ℕ)
    → Ordered lo (xs ++ (b ∷ ys)) hi
    → Ordered lo (merge xs b ys) hi
unfolding merge
Ordered-merge lo [] b ys hi o = Ordered-absorb lo b ys hi o
Ordered-merge lo (x ∷ []) b ys hi o =
    let rest = Ordered-absorb (end_of x) b ys hi o.1 in
    elim (Bool-cases x.freed) [
      | inl both ↦ simp both (Ordered-absorb lo x (absorb b ys) hi (o.0, rest))
      | inr used ↦ simp used (o.0, rest)
    ]
Ordered-merge lo (x ∷ x' ∷ xs) b ys hi o = (o.0, Ordered-merge (end_of x) (x' ∷ xs) b ys hi o.1)

-- Freeing a block in use keeps the invariant.
pub merge-Sound :
    (lo : ℕ) (xs : List Block) (b : Block) (ys : List Block) (hi : ℕ)
    → Sound lo (xs ++ (b ∷ ys)) hi
    → Sound lo (merge xs (record b { freed = true }) ys) hi
merge-Sound lo xs b ys hi s = record {
  ordered =
      Ordered-merge lo xs _ ys hi
        (Ordered-replace lo xs b (record b { freed = true }) ys hi refl refl s.ordered);
  aligned = Aligned-merge xs _ ys (flagged xs s.aligned);
  coalesced = Coalesced-merge xs b _ ys s.coalesced;
}
  where
    flagged :
        (xs : List Block)
        → Aligned (xs ++ (b ∷ ys))
        → Aligned (xs ++ (record b { freed = true } ∷ ys))
    flagged [] a = a
    flagged (x ∷ xs) a = (a.0, a.1, flagged xs a.2)

pub Ordered-widen :
    (lo : ℕ) (bs : List Block) (hi hi' : ℕ) → hi ≤ hi' → Ordered lo bs hi → Ordered lo bs hi'
Ordered-widen lo [] hi hi' le o = omega arith
Ordered-widen lo (b ∷ bs) hi hi' le o = (o.0, Ordered-widen (end_of b) bs hi hi' le o.1)

module _ (lo hi hi' n reserve : ℕ) (bs : List Block) (s : Sound lo bs hi) (grows : hi ≤ hi')
    (whole_words : (n % 8 ≡ 0) × (reserve % 8 ≡ 0)) where
  hand_out-Sound : (p : Place) → IsFirst n bs p → Sound lo (hand_out n p) hi'
  unfolding hand_out fits in_use
  hand_out-Sound p f = record {
    ordered = Ordered-widen lo _ hi hi' grows (
        Ordered-append lo xs _ b.addr hi (Ordered-front lo xs (b ∷ ys) hi o) (
          Ordered-carve b.addr n (in_use b) ys hi (ground (arith, f.fit)) (
            Ordered-replace b.addr [] b (in_use b) ys hi refl refl
              (Ordered-back lo xs b ys hi o).1)));
    aligned =
        let (front, back) = Aligned-parts xs (b ∷ ys) (rw f.split at s.aligned) in
        Aligned-append xs _ front (Aligned-carve n (in_use b) ys whole_words.0 back);
    coalesced =
        Coalesced-hand_out n xs b ys (ground (arith, f.fit)) (ground (arith, f.fit))
          (rw f.split at s.coalesced);
  }
    where
      open p use {before as xs, block as b, after as ys}

      o : Ordered lo (whole p) hi
      o = rw f.split at s.ordered

  extend-Sound :
      (answer : Option Ptr)
      → ((q : Ptr) → answer ≡ some q → Answer (header_size + n + reserve) hi hi' q)
      → Sound lo (extend n reserve answer bs).1 hi'
  unfolding extend fresh_block
  extend-Sound none sys = record {
    ordered = Ordered-widen lo bs hi hi' grows s.ordered;
    aligned = s.aligned;
    coalesced = s.coalesced;
  }
  extend-Sound (some q) sys = record {
    ordered = Ordered-append lo bs _ hi hi' s.ordered (
        rw append-nil at (
          Ordered-carve hi n (fresh_block q (n + reserve)) [] hi' (omega arith)
            (answer.above, omega (arith, answer.within))));
    aligned = Aligned-append bs _ s.aligned (
        rw append-nil at (
          Aligned-carve n (fresh_block q (n + reserve)) [] whole_words.0
            (answer.aligned, omega arith, tt)));
    coalesced = Coalesced-extend n reserve q bs s.coalesced;
  }
    where
      answer : Answer (header_size + n + reserve) hi hi' q
      answer = sys q refl

  -- Allocation keeps the invariant.
  pub allocate-Sound :
      (answer : Option Ptr)
      → ((q : Ptr) → answer ≡ some q → Answer (header_size + n + reserve) hi hi' q)
      → Sound lo (allocate n reserve answer bs).1 hi'
  unfolding allocate
  allocate-Sound answer sys = go (first_fit n bs) (first_fit-Found n bs)
    where
      go :
          (o : Option Place)
          → Found n bs o
          → Sound lo
              (let r : Ptr × List Block = elim o [
                | none ↦ extend n reserve answer bs
                | some p ↦ (p.block.addr + header_size, hand_out n p)
              ] in
                r.1)
              hi'
      go none f = extend-Sound answer sys
      go (some p) f = hand_out-Sound p f
