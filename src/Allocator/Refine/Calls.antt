-- ===== src/Allocator/Refine/Calls.antt =====
-- `malloc` and `calloc` of task05-memory/src/allocator.c, and the choice of a thread's arena.
use systems_programming_labs.Prelude.{
  ℕ, zero, suc, ◌+◌, ◌-◌, ◌*◌, ◌/◌, ◌%◌, ◌^◌, ◌≤◌, ◌<◌, ◌≡◌, ◌≢◌, refl, true, false, Bool-cases,
  some, inl, inr, ◌⊎◌, ◌↔◌, List, ◌==◌, ◌&&◌, not, ltb, arith, length, word_size, Option-cases, ap,
}
use native.Mathlib.Nat.{div-lt_iff_lt-mul}
use systems_programming_labs.Allocator.Heap.{Ptr, null, header_size, Heap, Env}
use systems_programming_labs.Allocator.Ops.{contention_reserve_size}
use systems_programming_labs.Allocator.Api.{
  num_arenas, arena_index, align8, malloc, calloc, get_thread_arena, clear_bytes,
}
use systems_programming_labs.Allocator.Model.{Block}
use systems_programming_labs.Allocator.Live.{Outcome}
use systems_programming_labs.Allocator.Sound.{Sound}
use systems_programming_labs.Allocator.Refine.Returns
use systems_programming_labs.Allocator.Refine.Returns.{Returns, returns}
use systems_programming_labs.Allocator.Refine.Frame.{IsArena}
use systems_programming_labs.Allocator.Refine.Split.{limit}
use systems_programming_labs.Allocator.Refine.Malloc.{increment, Grows}
use systems_programming_labs.Allocator.Refine.Arena.{
  Allocated, arena_malloc-Allocated, align8_bounds, Outcome-mono,
}

-- Every arena number that a thread holds names an arena of the pool.
abbrev pub InPool : Heap → Type 0
InPool h = (u i : ℕ) → h.thread_arena_id u ≡ some i → i < num_arenas

index_of_small : (id : ℕ) → id < 2 ^ 31 → arena_index id ≡ some (id % num_arenas)
unfolding arena_index
index_of_small id h = ground arith

-- A thread gets an arena of the pool, the same one at every later call, and no other thread's changes.
pub get_thread_arena-InPool :
    (t : ℕ) (h : Heap)
    → InPool h
    → h.next_arena_id < 2 ^ 31
    → Returns
        (λ i g.
          (i < num_arenas)
          × InPool g
          × (get_thread_arena t g ≡ some (i, g))
          × ((u : ℕ) → u ≢ t → g.thread_arena_id u ≡ h.thread_arena_id u))
        (get_thread_arena t h)
unfolding get_thread_arena
get_thread_arena-InPool t h ok few = elim (Option-cases (h.thread_arena_id t)) [
  | inr (i, has) ↦
      rw (has, get_thread_arena)
        (returns (ok t i has, ok, rw (has, get_thread_arena), λ u ne. refl))
  | inl new ↦
      rw (new, get_thread_arena)
        (rw index (
          returns
            (omega arith, λ u j e. ground (arith, ok u j), ground arith, λ u ne. ground arith)))
]
  where
    index : arena_index h.next_arena_id ≡ some (h.next_arena_id % num_arenas)
    index = index_of_small h.next_arena_id few

-- The test of `calloc` is exact: it holds when the product is no `size_t`.
overflow_test :
    (a b : ℕ) → (not (a == 0) && ltb ((word_size - 1) / a) b ≡ true) ↔ (word_size ≤ a * b)
overflow_test zero b = (λ h. ground arith, λ h. absurd (ground arith))
overflow_test (suc a) b =
    let exact = div-lt_iff_lt-mul {k = suc a} {x = word_size - 1} {y = b} (omega arith) in
    (λ h. omega (arith, exact.0 (ground arith)), λ h. ground (arith, exact.1 (omega arith)))

-- A product that overflows is refused, and nothing is written.
pub calloc-overflow :
    (env : Env) (rounds t nitems nsize : ℕ) (h : Heap)
    → word_size ≤ nitems * nsize
    → calloc env rounds t nitems nsize h ≡ some (null, h)
unfolding calloc
calloc-overflow env rounds t nitems nsize h over = rw ((overflow_test nitems nsize).1 over)

-- What `calloc` leaves in the payload.
abbrev pub Zeroed : Ptr → ℕ → Heap → Type 0
Zeroed p n g = p ≢ null → (a : Ptr) → p ≤ a → a < p + n → g.bytes a ≡ 0

module _ (env : Env) (i lo hi hi' : ℕ) (h : Heap) (bs : List Block) (rounds t : ℕ) (pos : 0 < lo)
    (small : hi' ≤ limit) (s : Sound lo bs hi) (a : IsArena h i bs) (enough : length bs < rounds)
    (bound : h.thread_arena_id t ≡ some i) where
  -- `malloc` by a thread of a sound arena `i`, of a size above 0 that stays below 2^64 when 7, a header and
  -- the reserve are added, where `sbrk` gives memory behind the arena or none: it ends, hands out one
  -- further block of at least the size and leaves all others in use as they were, or returns null; and the
  -- arena stays sound.
  pub malloc-Allocated :
      (size : ℕ)
      → 0 < size
      → size + 7 + header_size + contention_reserve_size < word_size
      → Grows env (increment env h (align8 size)) hi hi'
      → Returns (Allocated i lo hi' size bs h) (malloc env rounds t size h)
  unfolding malloc get_thread_arena
  malloc-Allocated size some_bytes asked sys =
      rw (nonzero, bound, get_thread_arena)
        (Returns.weaken
          (arena_malloc-Allocated env i lo hi hi' h bs rounds pos small s a enough (align8 size)
            words.2 (omega (arith, words.1)) sys)
          λ p g r. record {
            blocks = r.blocks;
            arena = r.arena;
            sound = r.sound;
            outcome = Outcome-mono size (align8 size) bs (p, r.blocks) words.0 r.outcome;
            outside = r.outside;
          })
    where
      words : (size ≤ align8 size) × (align8 size < size + 8) × (align8 size % 8 ≡ 0)
      words = align8_bounds size (omega arith)

      nonzero : (align8 size == 0) ≡ false
      nonzero = ground (arith, words)

  -- `calloc` does the same for the product of its arguments, if that is above 0 and stays below 2^64 when 7, a
  -- header and the reserve are added; the payload that it returns is zero, and the bytes outside are as
  -- before.
  pub calloc-Zeroed :
      (nitems nsize : ℕ)
      → 0 < nitems * nsize
      → nitems * nsize + 7 + header_size + contention_reserve_size < word_size
      → Grows env (increment env h (align8 (nitems * nsize))) hi hi'
      → Returns
          (λ p g.
            (blocks : List Block) × IsArena g i blocks
            × Sound lo blocks hi'
            × Outcome (nitems * nsize) bs (p, blocks)
            × Zeroed p (nitems * nsize) g
            × ((c : Ptr) → (c < p) ⊎ (p + nitems * nsize ≤ c) → g.bytes c ≡ h.bytes c))
          (calloc env rounds t nitems nsize h)
  unfolding calloc clear_bytes
  calloc-Zeroed nitems nsize some_bytes asked sys = rw fits (
      Returns.bind (malloc-Allocated (nitems * nsize) some_bytes asked sys) λ p g r.
        elim (Bool-cases (p == null)) [
          | inl nothing ↦
              let none_given : p ≡ null = ground arith in
              rw nothing (
                returns (
                  r.blocks,
                  r.arena,
                  r.sound,
                  rw none_given at r.outcome,
                  λ ne. absurd (ne refl),
                  λ c out. same g p r c,
                ))
          | inr given ↦ rw given (
              returns (
                r.blocks,
                record {
                  head = r.arena.head;
                  suffix = record { linked = r.arena.suffix.linked; tail = r.arena.suffix.tail };
                },
                r.sound,
                r.outcome,
                λ ne c below above. ground arith,
                λ c out. ground (arith, same g p r c),
              ))
        ])
    where
      same :
          (g : Heap) (p : Ptr)
          → Allocated i lo hi' (nitems * nsize) bs h p g
          → (c : Ptr) → g.bytes c ≡ h.bytes c
      same g p r c = ap (λ f. f c) r.outside.bytes

      fits : not (nitems == 0) && ltb ((word_size - 1) / nitems) nsize ≡ false
      fits = elim (Bool-cases (not (nitems == 0) && ltb ((word_size - 1) / nitems) nsize)) [
        | inl over ↦ absurd (omega (arith, (overflow_test nitems nsize).0 over))
        | inr within ↦ within
      ]
