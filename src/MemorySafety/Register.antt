-- ===== src/MemorySafety/Register.antt =====
-- `__runtime_malloc` of task07-llvm/memory-safety/src/MemorySafetyRuntime.cpp.
use systems_programming_labs.Prelude.{
  ℕ, ◌+◌, ◌≤◌, ◌<◌, ◌≡◌, refl, true, false, some, inl, inr, ◌⊎◌, Bool-cases, [], ◌∷◌, ◌==◌, ltb,
  leb, word_size, max, arith,
}
use systems_programming_labs.MemorySafety.Runtime.{
  MemoryBlock, Blocks, shadow, check_addr, register, runtime_malloc,
}
use systems_programming_labs.MemorySafety.Layout.{LieApart, Among}
use systems_programming_labs.MemorySafety.Checks.{check_addr-inside}

-- No block shares a byte or its begin with the block of that address and size.
abbrev pub IsFresh : ℕ → ℕ → Blocks → Type 0
IsFresh addr size [] = Unit {0}
IsFresh addr size (b ∷ bs) =
    ((max (b.block_begin + 1) (b.block_begin + b.size) ≤ addr)
      ⊎ (max (addr + 1) (addr + size) ≤ b.block_begin))
    × IsFresh addr size bs

abbrev live_block : ℕ → ℕ → MemoryBlock
live_block addr size = record { block_begin = addr; size = size; freed = false }

register-in : (addr size : ℕ) (bs : Blocks) → Among (live_block addr size) (register addr size bs)
unfolding register
register-in addr size [] = inl refl
register-in addr size (b ∷ bs) = elim (Bool-cases (ltb b.block_begin addr)) [
  | inl before ↦ rw before (inr (register-in addr size bs))
  | inr behind ↦ elim (Bool-cases (b.block_begin == addr)) [
    | inl here ↦ rw (behind, here) (inl refl)
    | inr other ↦ rw (behind, other) (inl refl)
  ]
]

register-Among :
    (addr size : ℕ) (bs : Blocks) (b : MemoryBlock)
    → IsFresh addr size bs
    → Among b bs
    → Among b (register addr size bs)
unfolding register
register-Among addr size [] b f m = elim m [ ]
register-Among addr size (c ∷ bs) b f m = elim f.0 [
  | inl ends ↦
      let before : ltb c.block_begin addr ≡ true = ground (arith, ends) in
      rw before
        (elim m [ inl e ↦ inl e | inr later ↦ inr (register-Among addr size bs b f.1 later) ])
  | inr begins ↦
      let behind : ltb c.block_begin addr ≡ false = ground (arith, begins) in
      let other : (c.block_begin == addr) ≡ false = ground (arith, begins) in
      rw (behind, other) (inr m)
]

register-LieApart :
    (lo addr size : ℕ) (bs : Blocks)
    → LieApart lo bs
    → IsFresh addr size bs
    → lo ≤ addr
    → shadow ≤ addr
    → addr + size + shadow < word_size
    → LieApart lo (register addr size bs)
unfolding register
register-LieApart lo addr size [] l f h s w = (h, s, w, tt)
register-LieApart lo addr size (c ∷ bs) l f h s w = elim f.0 [
  | inl ends ↦
      let before : ltb c.block_begin addr ≡ true = ground (arith, ends) in
      let rest =
        register-LieApart (max (c.block_begin + 1) (c.block_begin + c.size)) addr size bs l.3 f.1
          ends s w in
      rw before (l.0, l.1, l.2, rest)
  | inr begins ↦
      let behind : ltb c.block_begin addr ≡ false = ground (arith, begins) in
      let other : (c.block_begin == addr) ≡ false = ground (arith, begins) in
      rw (behind, other) (h, s, w, (begins, l.1, l.2, l.3))
]

-- Where `malloc` returns memory that shares no byte with a registered block and lies away from the ends of
-- the address space, `__runtime_malloc` returns it, keeps the blocks apart and keeps every other block; of
-- the accesses that begin in the new block, the check then passes those that end in it.
pub runtime_malloc-registers :
    (lo addr size : ℕ) (blocks : Blocks)
    → LieApart lo blocks
    → IsFresh addr size blocks
    → lo ≤ addr
    → shadow ≤ addr
    → addr + size + shadow < word_size
    → (after : Blocks) × (runtime_malloc (some addr) size blocks ≡ (some addr, after))
      × LieApart lo after
      × ((b : MemoryBlock) → Among b blocks → Among b after)
      × ((at length : ℕ)
          → addr ≤ at
          → at < addr + size
          → at + length < word_size
          → check_addr after at length ≡ leb (at + length) (addr + size))
unfolding runtime_malloc
runtime_malloc-registers lo addr size blocks apart fresh low high room =
    let after = register addr size blocks in
    let after_apart = register-LieApart lo addr size blocks apart fresh low high room in
    (
      after,
      refl,
      after_apart,
      λ b. register-Among addr size blocks b fresh,
      λ at length.
          check_addr-inside lo after (live_block addr size) at length after_apart
            (register-in addr size blocks),
    )
