-- ===== src/MemorySafety/Runtime.antt =====
-- task07-llvm/memory-safety/src/MemorySafetyRuntime.cpp. The `std::map` is the list of its entries in the
-- order of their addresses. `none` and `false` stand for `report_error`, which aborts.
use systems_programming_labs.Prelude.{
  ℕ, Bool, true, false, ◌&&◌, not, Option, none, some, List, [], ◌∷◌, ◌==◌, ltb, leb, if◌then◌else◌,
  add64, sub64,
}

pub record MemoryBlock : Type 0 where
  pub block_begin : ℕ
  pub size : ℕ
  pub freed : Bool

abbrev pub Blocks : Type 0
Blocks = List MemoryBlock

abbrev pub shadow : ℕ
shadow = 16

-- `std::prev(blocks.upper_bound(addr))`: the last block that begins at `addr` or before.
unfoldable pub prev_block : ℕ → Blocks → Option MemoryBlock
prev_block addr [] = none
prev_block addr (b ∷ bs) =
    let later = prev_block addr bs in
    if leb b.block_begin addr then elim later [ none ↦ some b | some p ↦ some p ] else none

-- `blocks.upper_bound(addr)`: the first block that begins behind `addr`.
unfoldable pub next_block : ℕ → Blocks → Option MemoryBlock
next_block addr [] = none
next_block addr (b ∷ bs) =
    let later = next_block addr bs in if leb b.block_begin addr then later else some b

-- The check against the next block.
unfoldable pub check_next : Blocks → ℕ → Bool
check_next blocks addr = elim (next_block addr blocks) [
  | none ↦ true
  | some b ↦ not (leb (sub64 b.block_begin shadow) addr)
]

-- `__runtime_check_addr`: whether it returns.
unfoldable pub check_addr : Blocks → ℕ → ℕ → Bool
check_addr blocks addr size = elim (prev_block addr blocks) [
  | none ↦ check_next blocks addr
  | some b ↦
      let block_end = add64 b.block_begin b.size in
      if ltb addr (add64 block_end shadow)
      then not b.freed && leb (add64 addr size) block_end
      else check_next blocks addr
]

-- `blocks[addr] = {size, false}`
unfoldable pub register : ℕ → ℕ → Blocks → Blocks
register addr size [] = record { block_begin = addr; size = size; freed = false } ∷ []
register addr size (b ∷ bs) =
    let later = register addr size bs in
    let new = record b { block_begin = addr; size = size; freed = false } in
    if ltb b.block_begin addr
    then b ∷ later
    else if b.block_begin == addr
    then new ∷ bs
    else new ∷ b ∷ bs

-- `__runtime_malloc`, with the result of `malloc`.
unfoldable pub runtime_malloc : Option ℕ → ℕ → Blocks → Option ℕ × Blocks
runtime_malloc none size blocks = (none, blocks)
runtime_malloc (some addr) size blocks = (some addr, register addr size blocks)

-- `__runtime_alloc`
unfoldable pub runtime_alloc : ℕ → ℕ → Blocks → Blocks
runtime_alloc addr size blocks = register addr size blocks

-- `blocks.find(addr)`
unfoldable pub find_block : ℕ → Blocks → Option MemoryBlock
find_block addr [] = none
find_block addr (b ∷ bs) =
    let later = find_block addr bs in if b.block_begin == addr then some b else later

-- `block.freed = true`
unfoldable pub mark_freed : ℕ → Blocks → Blocks
mark_freed addr [] = []
mark_freed addr (b ∷ bs) =
    let later = mark_freed addr bs in
    if b.block_begin == addr then record b { freed = true } ∷ bs else b ∷ later

-- `__runtime_free`, where `none` as the address is the null pointer.
unfoldable pub runtime_free : Option ℕ → Blocks → Option Blocks
runtime_free none blocks = some blocks
runtime_free (some addr) blocks = elim (find_block addr blocks) [
  | none ↦ none
  | some b ↦ if b.freed then none else some (mark_freed addr blocks)
]
