-- ===== src/MemorySafety/Tests.antt =====
-- Runs of the checks of task07-llvm/memory-safety/src/MemorySafetyRuntime.cpp on three blocks.
use systems_programming_labs.Prelude.{
  ℕ, ◌+◌, ◌≤◌, ◌<◌, ◌≡◌, refl, true, false, ◌&&◌, not, none, some, inl, inr, [], ◌∷◌, leb, add64,
  sub64, word_size, arith,
}
use systems_programming_labs.MemorySafety.Runtime.{
  MemoryBlock, Blocks, prev_block, next_block, check_next, check_addr, register, runtime_malloc,
  runtime_alloc, find_block, runtime_free,
}
use systems_programming_labs.MemorySafety.Layout.{LieApart, Among}
use systems_programming_labs.MemorySafety.Checks.{check_addr-inside, check_addr-redzone}
use systems_programming_labs.MemorySafety.Register.{runtime_malloc-registers}
use systems_programming_labs.MemorySafety.Free.{runtime_free-once}

abbrev middle : MemoryBlock
middle = record { block_begin = 200; size = 8; freed = false }

abbrev three : Blocks
three =
    record { block_begin = 100; size = 40; freed = true }
    ∷ middle
    ∷ record { block_begin = 400; size = 4; freed = false }
    ∷ []

three-LieApart : LieApart 100 three
three-LieApart = (
  omega arith,
  omega arith,
  omega arith,
  (omega arith, omega arith, omega arith, (omega arith, omega arith, omega arith, tt)),
)

-- Around the blocks: inside, across the end, in the freed one, between two, before one, far behind all.
run_checks :
    (check_addr three 200 8 ≡ true)
    × (check_addr three 201 8 ≡ false)
    × (check_addr three 100 1 ≡ false)
    × (check_addr three 170 1 ≡ true)
    × (check_addr three 384 1 ≡ false)
    × (check_addr three 1000 1 ≡ true)
unfolding check_addr check_next prev_block next_block add64 sub64
run_checks = (refl, refl, refl, refl, refl, refl)

-- A stack slot that is allocated again at the address of an old one replaces it.
run_alloc :
    runtime_alloc 200 16 three
    ≡ record { block_begin = 100; size = 40; freed = true }
      ∷ record { block_begin = 200; size = 16; freed = false }
      ∷ record { block_begin = 400; size = 4; freed = false }
      ∷ []
unfolding runtime_alloc register
run_alloc = refl

-- The null pointer, an address inside a block, and a block that is freed already.
run_free :
    (runtime_free none three ≡ some three)
    × (runtime_free (some 201) three ≡ none)
    × (runtime_free (some 100) three ≡ none)
unfolding runtime_free find_block
run_free = (refl, refl, refl)

check_addr-inside_example : check_addr three 204 4 ≡ (not false && leb (204 + 4) (200 + 8))
check_addr-inside_example =
    check_addr-inside 100 three middle 204 4 three-LieApart (inr (inl refl)) (omega arith)
      (omega arith) (omega arith)

check_addr-redzone_example : check_addr three 223 1 ≡ false
check_addr-redzone_example =
    check_addr-redzone 100 three middle 223 1 three-LieApart (inr (inl refl))
      (inr (omega arith), (inr (omega arith), (inl (omega arith), tt))) (omega arith) (omega arith)
      (omega arith) (omega arith)

runtime_malloc-registers_example :
    (after : Blocks) × (runtime_malloc (some 300) 24 three ≡ (some 300, after))
    × LieApart 100 after
    × ((b : MemoryBlock) → Among b three → Among b after)
    × ((at length : ℕ)
        → 300 ≤ at
        → at < 300 + 24
        → at + length < word_size
        → check_addr after at length ≡ leb (at + length) (300 + 24))
runtime_malloc-registers_example =
    runtime_malloc-registers 100 300 24 three three-LieApart
      (inl (omega arith), (inl (omega arith), (inr (omega arith), tt))) (omega arith) (omega arith)
      (omega arith)

runtime_free-once_example :
    (after : Blocks) × (runtime_free (some 200) three ≡ some after)
    × LieApart 100 after
    × (runtime_free (some 200) after ≡ none)
    × ((addr size : ℕ)
        → 200 ≤ addr
        → addr < 200 + 8
        → addr + size < word_size
        → check_addr after addr size ≡ false)
runtime_free-once_example = runtime_free-once 100 three middle three-LieApart (inr (inl refl)) refl
