-- ===== src/Allocator/Layout.antt =====
-- Where the blocks of `Model` lie: in order and apart, on multiples of eight, and with no free block
-- directly in front of a free block of the list that it touches.
use systems_programming_labs.Prelude.{
  ℕ, ◌+◌, ◌≤◌, ◌≡◌, refl, ◌∙◌, Bool, true, false, Bool-cases, inl, inr, List, [], ◌∷◌, ◌++◌, ◌&&◌,
  ◌==◌, arith,
}
use systems_programming_labs.Allocator.Heap.{Ptr}
use systems_programming_labs.Allocator.Model.{
  Block, end_of, carve, in_use, fresh_block, absorb, merge,
}
use systems_programming_labs.Allocator.Carve.{carve_parts}

-- A free block that touches the free block behind it.
abbrev pub joins : Block → List Block → Bool
joins a [] = false
joins a (b ∷ bs) = a.freed && (b.freed && (end_of a == b.addr))

abbrev pub Coalesced : List Block → Type 0
Coalesced [] = Unit {0}
Coalesced (b ∷ bs) = (joins b bs ≡ false) × Coalesced bs

pub Coalesced-absorb : (b : Block) (ys : List Block) → Coalesced ys → Coalesced (absorb b ys)
unfolding absorb
Coalesced-absorb b [] c = (refl, tt)
Coalesced-absorb b (n ∷ []) c = ground arith
Coalesced-absorb b (n ∷ m ∷ ys) c = ground arith

pub joins-absorb : (a b : Block) (ys zs : List Block) → joins a (absorb b ys) ≡ joins a (b ∷ zs)
unfolding absorb
joins-absorb a b [] zs = refl
joins-absorb a b (n ∷ ys) zs = ground arith

joins-merge :
    (a b : Block) (xs : List Block) (f : Block) (ys zs : List Block)
    → joins a (merge (b ∷ xs) f ys) ≡ joins a (b ∷ zs)
unfolding merge
joins-merge a b [] f ys zs = ground (arith, joins-absorb a b (absorb f ys) zs)
joins-merge a b (c ∷ xs) f ys zs = refl

-- Freeing a block leaves no free block in front of one that it touches.
pub Coalesced-merge :
    (xs : List Block) (b f : Block) (ys : List Block)
    → Coalesced (xs ++ (b ∷ ys))
    → Coalesced (merge xs f ys)
unfolding merge
Coalesced-merge [] b f ys c = Coalesced-absorb f ys c.1
Coalesced-merge (a ∷ []) b f ys c =
    let rest = Coalesced-absorb f ys c.1.1 in
    elim (Bool-cases a.freed) [
      | inl both ↦ simp both (Coalesced-absorb a (absorb f ys) rest)
      | inr used ↦ simp used (in_front used (absorb f ys), rest)
    ]
  where
    in_front : a.freed ≡ false → (zs : List Block) → joins a zs ≡ false
    in_front e [] = refl
    in_front e (z ∷ zs) = ground arith
Coalesced-merge (a ∷ a' ∷ xs) b f ys c =
    (joins-merge a a' xs f ys (xs ++ (b ∷ ys)) ∙ c.0, Coalesced-merge (a' ∷ xs) b f ys c.1)

pub Coalesced-carve :
    (n : ℕ) (b : Block) (ys : List Block)
    → n ≤ b.size
    → b.freed ≡ true
    → Coalesced (b ∷ ys)
    → Coalesced (carve n (in_use b) ++ ys)
unfolding carve in_use
Coalesced-carve n b [] fit e c = ground arith
Coalesced-carve n b (y ∷ ys) fit e c = ground arith

-- Handing out a free block does so too.
pub Coalesced-hand_out :
    (n : ℕ) (xs : List Block) (b : Block) (ys : List Block)
    → n ≤ b.size
    → b.freed ≡ true
    → Coalesced (xs ++ (b ∷ ys))
    → Coalesced (xs ++ (carve n (in_use b) ++ ys))
unfolding in_use
Coalesced-hand_out n [] b ys fit e c = Coalesced-carve n b ys fit e c
Coalesced-hand_out n (x ∷ []) b ys fit e c = (used, Coalesced-carve n b ys fit e c.1)
  where
    used : joins x (carve n (in_use b) ++ ys) ≡ false
    used = rw (carve_parts n (in_use b)) (ground arith)
Coalesced-hand_out n (x ∷ x' ∷ xs) b ys fit e c =
    (c.0, Coalesced-hand_out n (x' ∷ xs) b ys fit e c.1)

pub Coalesced-extend :
    (n reserve : ℕ) (q : Ptr) (bs : List Block)
    → Coalesced bs
    → Coalesced (bs ++ carve n (fresh_block q (n + reserve)))
unfolding fresh_block carve
Coalesced-extend n reserve q [] c = ground arith
Coalesced-extend n reserve q (b ∷ []) c = ground arith
Coalesced-extend n reserve q (b ∷ b' ∷ bs) c = (c.0, Coalesced-extend n reserve q (b' ∷ bs) c.1)
