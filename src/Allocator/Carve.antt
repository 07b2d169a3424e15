-- ===== src/Allocator/Carve.antt =====
-- The parts of `carve` in `Model`: the block in front, and the free block behind it.
use systems_programming_labs.Prelude.{
  ℕ, ◌+◌, ◌-◌, ◌≤◌, ◌≡◌, true, false, Bool-cases, inl, inr, List, [], ◌∷◌, ◌++◌, ltb, if◌then◌else◌,
  arith,
}
use systems_programming_labs.Allocator.Heap.{header_size}
use systems_programming_labs.Allocator.Model.{Block, end_of, Ordered, carve, in_use}

-- What `carve` makes of a block: the front with the block's place, and at most one block behind it.
abbrev pub front_part : ℕ → Block → Block
front_part n b = record b { size = if ltb b.size (n + header_size + 8) then b.size else n }

abbrev pub rest_part : ℕ → Block → List Block
rest_part n b =
    if ltb b.size (n + header_size + 8)
    then []
    else record { addr = b.addr + header_size + n; freed = true; size = b.size - n - header_size }
      ∷ []

pub carve_parts : (n : ℕ) (b : Block) → carve n b ≡ front_part n b ∷ rest_part n b
unfolding carve
carve_parts n b = ground arith

pub Ordered-carve :
    (lo n : ℕ) (b : Block) (ys : List Block) (hi : ℕ)
    → n ≤ b.size
    → Ordered lo (b ∷ ys) hi
    → Ordered lo (carve n b ++ ys) hi
unfolding carve
Ordered-carve lo n b ys hi fit o = elim (Bool-cases (ltb b.size (n + header_size + 8))) [
  | inl tight ↦ rw tight o
  | inr room ↦
      let same : b.addr + header_size + n + header_size + (b.size - n - header_size) ≡ end_of b =
        ground arith in
      rw room (o.0, (omega arith, rw same o.1))
]

pub carve-in_use :
    (n : ℕ) (b : Block)
    → carve n (in_use b) ≡ record (front_part n b) { freed = false } ∷ rest_part n b
unfolding carve in_use
carve-in_use n b = ground arith
