-- ===== src/MemorySafety/Free.antt =====
-- `__runtime_free` of task07-llvm/memory-safety/src/MemorySafetyRuntime.cpp.
use systems_programming_labs.Prelude.{
  ℕ, ◌+◌, ◌≤◌, ◌<◌, ◌≡◌, refl, ap, true, false, Bool-cases, none, some, inl, inr, [], ◌∷◌, ◌==◌,
  word_size, max, arith,
}
use systems_programming_labs.MemorySafety.Runtime.{
  MemoryBlock, Blocks, check_addr, find_block, mark_freed, runtime_free,
}
use systems_programming_labs.MemorySafety.Layout.{LieApart, Among, Among-bounds}
use systems_programming_labs.MemorySafety.Checks.{check_addr-inside}

-- The block after its release.
abbrev pub released : MemoryBlock → MemoryBlock
released b = record b { freed = true }

find_block-in :
    (lo : ℕ) (bs : Blocks) (b : MemoryBlock)
    → LieApart lo bs
    → Among b bs
    → find_block b.block_begin bs ≡ some b
unfolding find_block
find_block-in lo [] b l m = elim m [ ]
find_block-in lo (c ∷ bs) b l (inl e) =
    let here : (c.block_begin == b.block_begin) ≡ true =
      ground (arith, ap (λ v. v.block_begin) e) in
    rw here (ap some e)
find_block-in lo (c ∷ bs) b l (inr m) =
    let bounds = Among-bounds (max (c.block_begin + 1) (c.block_begin + c.size)) bs b l.3 m in
    let other : (c.block_begin == b.block_begin) ≡ false = ground (arith, bounds.0) in
    rw other (find_block-in (max (c.block_begin + 1) (c.block_begin + c.size)) bs b l.3 m)

mark_freed-in :
    (lo : ℕ) (bs : Blocks) (b : MemoryBlock)
    → LieApart lo bs
    → Among b bs
    → Among (released b) (mark_freed b.block_begin bs)
unfolding mark_freed
mark_freed-in lo [] b l m = elim m [ ]
mark_freed-in lo (c ∷ bs) b l (inl e) =
    let here : (c.block_begin == b.block_begin) ≡ true =
      ground (arith, ap (λ v. v.block_begin) e) in
    rw here (inl (ap released e))
mark_freed-in lo (c ∷ bs) b l (inr m) =
    let bounds = Among-bounds (max (c.block_begin + 1) (c.block_begin + c.size)) bs b l.3 m in
    let other : (c.block_begin == b.block_begin) ≡ false = ground (arith, bounds.0) in
    rw other (inr (mark_freed-in (max (c.block_begin + 1) (c.block_begin + c.size)) bs b l.3 m))

mark_freed-LieApart :
    (lo addr : ℕ) (bs : Blocks) → LieApart lo bs → LieApart lo (mark_freed addr bs)
unfolding mark_freed
mark_freed-LieApart lo addr [] l = tt
mark_freed-LieApart lo addr (c ∷ bs) l = elim (Bool-cases (c.block_begin == addr)) [
  | inl here ↦ rw here (l.0, l.1, l.2, l.3)
  | inr other ↦
      let ih = mark_freed-LieApart (max (c.block_begin + 1) (c.block_begin + c.size)) addr bs l.3 in
      rw other (l.0, l.1, l.2, ih)
]

-- The first `__runtime_free` of a registered block returns and keeps the blocks apart; another one of the
-- same block aborts, and so does every check of an access that begins in the block and does not wrap
-- around.
pub runtime_free-once :
    (lo : ℕ) (blocks : Blocks) (b : MemoryBlock)
    → LieApart lo blocks
    → Among b blocks
    → b.freed ≡ false
    → (after : Blocks) × (runtime_free (some b.block_begin) blocks ≡ some after)
      × LieApart lo after
      × (runtime_free (some b.block_begin) after ≡ none)
      × ((addr size : ℕ)
          → b.block_begin ≤ addr
          → addr < b.block_begin + b.size
          → addr + size < word_size
          → check_addr after addr size ≡ false)
unfolding runtime_free
runtime_free-once lo blocks b apart among live =
    let after = mark_freed b.block_begin blocks in
    let after_apart = mark_freed-LieApart lo b.block_begin blocks apart in
    let there = mark_freed-in lo blocks b apart among in
    (
      after,
      rw (runtime_free, find_block-in lo blocks b apart among, live) refl,
      after_apart,
      rw (runtime_free, find_block-in lo after (released b) after_apart there) refl,
      λ addr size. check_addr-inside lo after (released b) addr size after_apart there,
    )
