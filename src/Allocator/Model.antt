-- ===== src/Allocator/Model.antt =====
-- What an arena of task05-memory/src/allocator.c stands for: its blocks in list order, with no pointers
-- between them; and the functions that the pointer code implements.
use systems_programming_labs.Prelude.{
  ℕ, ◌+◌, ◌-◌, ◌%◌, ◌≤◌, ◌≡◌, Bool, true, false, ◌&&◌, Option, none, some, List, [], ◌∷◌, ◌++◌,
  ◌==◌, ltb, leb, if◌then◌else◌,
}
use systems_programming_labs.Allocator.Heap.{Ptr, header_size}

pub record Block : Type 0 where
  pub addr : Ptr
  pub freed : Bool
  pub size : ℕ

-- the address behind the payload
abbrev pub end_of : Block → Ptr
end_of b = b.addr + header_size + b.size

-- A position in a list of blocks: what stands before, the block, and what follows.
pub record Place : Type 0 where
  pub before : List Block
  pub block : Block
  pub after : List Block

abbrev pub whole : Place → List Block
whole p = p.before ++ (p.block ∷ p.after)

-- `first_hit`
unfoldable pub fits : ℕ → Block → Bool
fits n b = b.freed && leb n b.size

unfoldable pub first_fit : ℕ → List Block → Option Place
first_fit n [] = none
first_fit n (b ∷ bs) =
    if fits n b
    then some (record { before = []; block = b; after = bs })
    else elim (first_fit n bs) [
      | none ↦ none
      | some p ↦ some (record { before = b ∷ p.before; block = p.block; after = p.after })
    ]

-- `split_block`: the block with `n` bytes, and a free block from the rest if that is large enough
unfoldable pub carve : ℕ → Block → List Block
carve n b =
    if ltb b.size (n + header_size + 8)
    then b ∷ []
    else record b { size = n }
      ∷ record { addr = b.addr + header_size + n; freed = true; size = b.size - n - header_size }
      ∷ []

-- `coalesce_with_next`
unfoldable pub absorb : Block → List Block → List Block
absorb b [] = b ∷ []
absorb b (n ∷ bs) =
    if n.freed && (end_of b == n.addr)
    then record b { size = b.size + (header_size + n.size) } ∷ bs
    else b ∷ n ∷ bs

-- `merge_blocks` at the block between `before` and `after`
unfoldable pub merge : List Block → Block → List Block → List Block
merge [] b after = absorb b after
merge (a ∷ []) b after = if a.freed then absorb a (absorb b after) else a ∷ absorb b after
merge (a ∷ a' ∷ before) b after = a ∷ merge (a' ∷ before) b after

-- The blocks lie in order and apart, from `lo` on and below `hi`.
abbrev pub Ordered : ℕ → List Block → ℕ → Type 0
Ordered lo [] hi = lo ≤ hi
Ordered lo (b ∷ bs) hi = (lo ≤ b.addr) × Ordered (end_of b) bs hi

-- `arena_malloc` with `reserve` bytes of reserve and the answer of `sbrk`: the payload's address, or 0,
-- and the arena's blocks afterwards.
unfoldable pub fresh_block : Ptr → ℕ → Block
fresh_block addr size = record { addr = addr; freed = false; size = size }

unfoldable pub in_use : Block → Block
in_use b = record b { freed = false }

unfoldable pub hand_out : ℕ → Place → List Block
hand_out n p = p.before ++ (carve n (in_use p.block) ++ p.after)

unfoldable pub extend : ℕ → ℕ → Option Ptr → List Block → Ptr × List Block
extend n reserve none bs = (0, bs)
extend n reserve (some q) bs = (q + header_size, bs ++ carve n (fresh_block q (n + reserve)))

unfoldable pub allocate : ℕ → ℕ → Option Ptr → List Block → Ptr × List Block
unfolding first_fit hand_out extend
allocate n reserve answer bs = elim (first_fit n bs) [
  | none ↦ extend n reserve answer bs
  | some p ↦ (p.block.addr + header_size, hand_out n p)
]

-- What the code relies on of `sbrk`: a successful call by `k` bytes returns the old break, which lies at
-- or above every earlier block (`hi`) and on a multiple of eight, and moves the break to `hi'` at most.
pub record Answer (k hi hi' : ℕ) (q : Ptr) : Type 0 where
  pub above : hi ≤ q
  pub within : q + k ≤ hi'
  pub aligned : q % 8 ≡ 0
