-- ===== src/Allocator/Live.antt =====
-- The blocks in use: what `allocate` adds and `merge` takes away.
use systems_programming_labs.Prelude.{
  ℕ, ◌+◌, ◌≤◌, ◌≡◌, refl, sym, ◌∙◌, ap, true, false, Option, none, some, inl, inr, List, [], ◌∷◌,
  ◌++◌, append-nil, if◌then◌else◌, arith, ◌⊎◌,
}
use systems_programming_labs.Allocator.Heap.{Ptr, header_size}
use systems_programming_labs.Allocator.Model.{
  Block, Place, fits, first_fit, carve, in_use, fresh_block, hand_out, extend, allocate, absorb,
  merge,
}
use systems_programming_labs.Allocator.FirstFit.{Found, IsFirst, first_fit-Found}
use systems_programming_labs.Allocator.Carve.{front_part, rest_part, carve_parts}

unfoldable pub live : List Block → List Block
live [] = []
live (b ∷ bs) = if b.freed then live bs else b ∷ live bs

pub live-append : (xs ys : List Block) → live (xs ++ ys) ≡ live xs ++ live ys
unfolding live
live-append [] ys = refl
live-append (x ∷ xs) ys = ground (arith, live-append xs ys)

pub live-freed : (b : Block) (bs : List Block) → b.freed ≡ true → live (b ∷ bs) ≡ live bs
unfolding live
live-freed b bs e = ground arith

pub live-used : (b : Block) (bs : List Block) → b.freed ≡ false → live (b ∷ bs) ≡ b ∷ live bs
unfolding live
live-used b bs e = ground arith

live-rest_part : (n : ℕ) (b : Block) (ys : List Block) → live (rest_part n b ++ ys) ≡ live ys
unfolding live
live-rest_part n b ys = ground arith

-- Carving a block in use gives one block in use.
pub live-carve :
    (n : ℕ) (b : Block) (ys : List Block)
    → b.freed ≡ false
    → live (carve n b ++ ys) ≡ front_part n b ∷ live ys
live-carve n b ys e = rw (carve_parts n b) (
    live-used (front_part n b) (rest_part n b ++ ys) e
    ∙ ap (λ r. front_part n b ∷ r) (live-rest_part n b ys))

pub size-front_part : (n : ℕ) (b : Block) → n ≤ b.size → n ≤ (front_part n b).size
size-front_part n b h = ground arith

-- Absorbing a free block takes no block out of use.
pub live-absorb : (b : Block) (ys : List Block) → b.freed ≡ true → live (absorb b ys) ≡ live ys
unfolding absorb live
live-absorb b [] e = ground arith
live-absorb b (n ∷ ys) e = ground arith

pub live-merge :
    (xs : List Block) (b : Block) (ys : List Block)
    → b.freed ≡ true
    → live (merge xs b ys) ≡ live xs ++ live ys
unfolding merge live
live-merge [] b ys e = live-absorb b ys e
live-merge (a ∷ []) b ys e = ground (arith, live-absorb a (absorb b ys), live-absorb b ys)
live-merge (a ∷ a' ∷ xs) b ys e = ground (arith, live-merge (a' ∷ xs) b ys e)

-- One block more in use, of at least `n` bytes, with its payload at `p`; all others as they were.
pub record AddsOne (n : ℕ) (p : Ptr) (bs cs : List Block) : Type 0 where
  pub before : List Block
  pub block : Block
  pub after : List Block
  pub old : live bs ≡ before ++ after
  pub new : live cs ≡ before ++ (block ∷ after)
  pub place : p ≡ block.addr + header_size
  pub room : n ≤ block.size

-- The request is refused, and the blocks are as before.
pub record Refused (p : Ptr) (bs cs : List Block) : Type 0 where
  pub null_result : p ≡ 0
  pub same : cs ≡ bs

hand_out-AddsOne :
    (n : ℕ) (bs : List Block) (p : Place)
    → IsFirst n bs p
    → AddsOne n (p.block.addr + header_size) bs (hand_out n p)
unfolding hand_out in_use fits
hand_out-AddsOne n bs p f = record {
  before = live p.before;
  block = front_part n (in_use p.block);
  after = live p.after;
  old =
      ap live f.split
      ∙ (live-append p.before (p.block ∷ p.after)
          ∙ ap (λ r. live p.before ++ r) (live-freed p.block p.after (ground (arith, f.fit))));
  new =
      live-append p.before (carve n (in_use p.block) ++ p.after)
      ∙ ap (λ r. live p.before ++ r) (live-carve n (in_use p.block) p.after refl);
  place = refl;
  room = size-front_part n (in_use p.block) (ground (arith, f.fit));
}

extend-AddsOne :
    (n reserve : ℕ) (q : Ptr) (bs : List Block)
    → AddsOne n (q + header_size) bs (bs ++ carve n (fresh_block q (n + reserve)))
unfolding fresh_block live
extend-AddsOne n reserve q bs = record {
  before = live bs;
  block = front_part n (fresh_block q (n + reserve));
  after = [];
  old = sym (append-nil (live bs));
  new = live-append bs (carve n (fresh_block q (n + reserve))) ∙ ap (λ r. live bs ++ r) one;
  place = refl;
  room = size-front_part n (fresh_block q (n + reserve)) (omega arith);
}
  where
    one :
        live (carve n (fresh_block q (n + reserve)))
        ≡ front_part n (fresh_block q (n + reserve)) ∷ []
    one =
        ap live (sym (append-nil (carve n (fresh_block q (n + reserve)))))
        ∙ live-carve n (fresh_block q (n + reserve)) [] refl

abbrev pub Outcome : ℕ → List Block → Ptr × List Block → Type 0
Outcome n bs r = Refused r.0 bs r.1 ⊎ AddsOne n r.0 bs r.1

extend-Outcome :
    (n reserve : ℕ) (answer : Option Ptr) (bs : List Block)
    → Outcome n bs (extend n reserve answer bs)
unfolding extend
extend-Outcome n reserve none bs = inl (record { null_result = refl; same = refl })
extend-Outcome n reserve (some q) bs = inr (extend-AddsOne n reserve q bs)

-- `allocate` adds one block in use, or refuses and changes nothing.
pub allocate-Outcome :
    (n reserve : ℕ) (answer : Option Ptr) (bs : List Block)
    → Outcome n bs (allocate n reserve answer bs)
unfolding allocate
allocate-Outcome n reserve answer bs = go (first_fit n bs) (first_fit-Found n bs)
  where
    go :
        (o : Option Place)
        → Found n bs o
        → Outcome n bs (elim o [
          | none ↦ extend n reserve answer bs
          | some p ↦ (p.block.addr + header_size, hand_out n p)
        ])
    go none f = extend-Outcome n reserve answer bs
    go (some p) f = inr (hand_out-AddsOne n bs p f)
