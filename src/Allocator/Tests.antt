-- ===== src/Allocator/Tests.antt =====
-- The theorems on task05-memory/src/allocator.c at a small heap, and runs of the code.
use mathlib.Core.Option
use systems_programming_labs.Prelude.{
  ℕ, ◌+◌, ◌≤◌, ◌<◌, ◌≡◌, ◌≢◌, refl, true, false, Option, none, some, List, [], ◌∷◌, ◌++◌, ◌⊎◌,
  arith, add64, sub64, word_size, ◌-◌,
}
use systems_programming_labs.Allocator.Heap.{
  Ptr, null, header_size, Heap, Arena, Env, update, load, set_size, set_next, set_prev, set_freed,
  ◌>>=◌, ◌>>◌, pure,
}
use systems_programming_labs.Allocator.Ops.{
  first_hit, split_block, coalesce_with_next, arena_free, arena_malloc, set_back_link,
}
use systems_programming_labs.Allocator.Api.{
  align8, malloc, calloc, free, realloc, get_thread_arena, num_arenas,
}
use systems_programming_labs.Allocator.Model.{
  Block, carve, absorb, merge, allocate, first_fit, fits,
}
use systems_programming_labs.Allocator.Live.{live, Outcome}
use systems_programming_labs.Allocator.Sound.{Sound}
use systems_programming_labs.Allocator.Refine.Returns.{Returns}
use systems_programming_labs.Allocator.Refine.Linked.{header_of, nil, cons}
use systems_programming_labs.Allocator.Refine.Frame.{IsArena, Suffix, Only, Outside}
use systems_programming_labs.Allocator.Refine.Search.{address, first_hit-first_fit}
use systems_programming_labs.Allocator.Refine.Split.{split_block-carve}
use systems_programming_labs.Allocator.Refine.Coalesce.{coalesce_with_next-absorb}
use systems_programming_labs.Allocator.Refine.Free.{arena_free-merge}
use systems_programming_labs.Allocator.Refine.Malloc.{Grows, arena_malloc-allocate}
use systems_programming_labs.Allocator.Refine.Arena.{Allocated, Freed, free-Freed}
use systems_programming_labs.Allocator.Refine.Resized.{Resized}
use systems_programming_labs.Allocator.Refine.Realloc.{realloc-Resized}
use systems_programming_labs.Allocator.Refine.Calls.{
  InPool, Zeroed, malloc-Allocated, calloc-Zeroed, calloc-overflow, get_thread_arena-InPool,
}

-- A block in use and a free block that touches it.
abbrev used : Block
used = record { addr = 4096; freed = false; size = 16 }

abbrev spare : Block
spare = record { addr = 4144; freed = true; size = 64 }

abbrev blocks : List Block
blocks = used ∷ spare ∷ []

abbrev headers : Ptr → Option systems_programming_labs.Allocator.Heap.BlockHeader
headers =
    update (update (λ _. none) 4096 (some (header_of 0 used null 4144))) 4144
      (some (header_of 0 spare 4096 null))

abbrev heap : Heap
heap = record {
  header = headers;
  arena_pool = λ _. record { head = 4096; tail = 4144 };
  bytes = λ _. 7;
  next_arena_id = 1;
  thread_arena_id = update (λ _. none) 0 (some 0);
  contention_detected = false;
}

abbrev env : Env
env = record { busy = false; sbrk = λ _. some 4240 }

heap-IsArena : IsArena heap 0 blocks
heap-IsArena = record {
  head = refl;
  suffix = record { linked = cons refl (cons refl nil); tail = refl };
}

blocks-Sound : Sound 4096 blocks 4240
blocks-Sound = record {
  ordered = omega arith;
  aligned = omega arith;
  coalesced = (refl, (refl, tt));
}

env-Grows : (k : ℕ) → k ≤ 512 → Grows env k 4240 8192
env-Grows k small = record {
  grows = omega arith;
  answer = λ q e. record { above = ground arith; within = ground arith; aligned = ground arith };
}

-- The results of a run: what it returns, and the payload sizes at two addresses.
sizes : Option (Ptr × Heap) → Option (Ptr × Option ℕ × Option ℕ)
sizes none = none
sizes (some (p, g)) = some (p, size_at g 4144, size_at g 4200)
  where
    size_at : Heap → Ptr → Option ℕ
    size_at g a = Option.map (λ b. b.size) (g.header a)

-- `malloc(12)` rounds up to 16 and splits the free block, which is large enough.
malloc_splits : sizes (malloc env 3 0 12 heap) ≡ some (4176, some 16, none)
unfolding sizes malloc align8 get_thread_arena arena_malloc first_hit load split_block set_back_link
    set_next set_size set_freed add64 sub64
malloc_splits = refl

-- `malloc(24)` takes the block that lies 56 bytes further on as its remainder.
malloc_remainder : sizes (malloc env 3 0 24 heap) ≡ some (4176, some 24, some 8)
unfolding sizes malloc align8 get_thread_arena arena_malloc first_hit load split_block set_back_link
    set_next set_size set_freed add64 sub64
malloc_remainder = refl

malloc-Allocated_example : Returns (Allocated 0 4096 8192 24 blocks heap) (malloc env 3 0 24 heap)
unfolding align8 add64
malloc-Allocated_example =
    malloc-Allocated env 0 4096 4240 8192 heap blocks 3 0 (omega arith) (omega arith) blocks-Sound
      heap-IsArena (omega arith) refl 24 (omega arith) (omega arith) (env-Grows 56 (omega arith))

calloc-Zeroed_example :
    Returns
      (λ p g.
        (cs : List Block) × IsArena g 0 cs
        × Sound 4096 cs 8192
        × Outcome 24 blocks (p, cs)
        × Zeroed p 24 g
        × ((c : Ptr) → (c < p) ⊎ (p + 24 ≤ c) → g.bytes c ≡ 7))
      (calloc env 3 0 3 8 heap)
unfolding align8 add64
calloc-Zeroed_example =
    calloc-Zeroed env 0 4096 4240 8192 heap blocks 3 0 (omega arith) (omega arith) blocks-Sound
      heap-IsArena (omega arith) refl 3 8 (omega arith) (omega arith) (env-Grows 56 (omega arith))

calloc-overflow_example : calloc env 3 0 0x1_0000_0000 0x1_0000_0001 heap ≡ some (null, heap)
calloc-overflow_example = calloc-overflow env 3 0 0x1_0000_0000 0x1_0000_0001 heap (omega arith)

free-Freed_example : Returns (λ _. Freed 0 4096 4240 [] (spare ∷ []) heap) (free 4128 heap)
free-Freed_example =
    free-Freed 0 4096 4240 heap [] used (spare ∷ []) (omega arith) (omega arith) blocks-Sound
      heap-IsArena

-- Both blocks are merged into one.
free_merges :
    merge [] (record used { freed = true }) (spare ∷ [])
    ≡ record { addr = 4096; freed = true; size = 112 } ∷ []
unfolding merge absorb
free_merges = refl

arena_malloc-allocate_example :
    Returns
      (λ p g.
        (p ≡ (allocate 80 0 (some 4240) blocks).0)
        × IsArena g 0 (allocate 80 0 (some 4240) blocks).1
        × Outside 0 4096 8192 heap g)
      (arena_malloc env 3 0 80 heap)
arena_malloc-allocate_example =
    arena_malloc-allocate env 0 4096 4240 8192 80 heap blocks (omega arith) (omega arith)
      (omega arith) blocks-Sound.ordered (env-Grows 112 (omega arith)) heap-IsArena 3 (omega arith)

arena_free-merge_example :
    Returns
      (λ _ g.
        IsArena g 0 (merge [] (record used { freed = true }) (spare ∷ []))
        × Only 0 4096 4240 heap g)
      (arena_free 0 4096 heap)
arena_free-merge_example =
    arena_free-merge 0 4096 4240 heap [] used (spare ∷ []) (omega arith) (omega arith)
      blocks-Sound.ordered heap-IsArena

first_hit-first_fit_example : first_hit 3 4096 40 heap ≡ some (address (first_fit 40 blocks), heap)
first_hit-first_fit_example =
    first_hit-first_fit 40 0 4096 4240 heap 3 blocks (omega arith) blocks-Sound.ordered
      heap-IsArena.suffix.linked (omega arith)

first_hit_finds : address (first_fit 40 blocks) ≡ 4144
unfolding first_fit fits
first_hit_finds = refl

get_thread_arena-InPool_example :
    Returns
      (λ i g.
        (i < num_arenas)
        × InPool g
        × (get_thread_arena 5 g ≡ some (i, g))
        × ((u : ℕ) → u ≢ 5 → g.thread_arena_id u ≡ heap.thread_arena_id u))
      (get_thread_arena 5 heap)
get_thread_arena-InPool_example =
    get_thread_arena-InPool 5 heap (λ u i e. ground arith) (omega arith)

split_block-carve_example :
    Returns
      (λ _ g. Suffix g 0 4096 (carve 8 spare ++ []) × Only 0 4144 4240 heap g)
      (split_block 0 4144 8 heap)
split_block-carve_example =
    split_block-carve 0 4144 4240 heap 4096 spare [] (omega arith) (omega arith) (omega arith)
      (record { linked = cons refl nil; tail = refl }) 8 (omega arith)

run_coalesce_first :
    Returns
      (λ _ g. Suffix g 0 null (absorb used (spare ∷ [])) × Only 0 4096 4240 heap g)
      (coalesce_with_next 0 4096 heap)
run_coalesce_first =
    coalesce_with_next-absorb 0 4096 4240 heap null used (spare ∷ []) (omega arith)
      blocks-Sound.ordered (omega arith) heap-IsArena.suffix

-- A size at the end of the range is rounded up to 0, and the block is freed.
run_realloc_wraps : realloc env 3 0 4128 (word_size - 1) heap ≡ (do free 4128; pure null) heap
unfolding realloc align8 add64
run_realloc_wraps = refl

realloc-Resized_example :
    Returns (Resized 0 4096 8192 200 16 [] 4128 heap) (realloc env 3 0 4128 200 heap)
unfolding align8 add64 live
realloc-Resized_example =
    realloc-Resized env 0 4096 4240 8192 heap [] used (spare ∷ []) 3 (omega arith) (omega arith)
      refl blocks-Sound heap-IsArena (omega arith) 0 200 (omega arith) (omega arith)
      (env-Grows 232 (omega arith))
