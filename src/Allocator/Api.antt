-- ===== src/Allocator/Api.antt =====
-- `malloc`, `calloc`, `free` and `realloc` of task05-memory/src/allocator.c. Each call is one command: the
-- arena's lock is held from the first access to the arena's list to the last, and a call's steps
-- outside the lock read the caller's own block or its thread's arena number.
use systems_programming_labs.Prelude.{
  ℕ, ◌+◌, ◌-◌, ◌*◌, ◌/◌, ◌%◌, ◌^◌, ◌&&◌, Option, none, some, not, ◌==◌, ltb, leb, if◌then◌else◌,
  add64, word_size,
}
use systems_programming_labs.Allocator.Heap.{Ptr, null, Cmd, pure, ◌>>=◌, ◌>>◌, load, update, Env}
use systems_programming_labs.Allocator.Ops.{
  get_payload, get_header, split_block, coalesce_with_next, arena_free, arena_malloc,
}

abbrev pub num_arenas : ℕ
num_arenas = 5

-- `(size + 7) & ~7`: the sum wraps, and the mask clears its last three bits.
unfoldable pub align8 : ℕ → ℕ
align8 size = add64 size 7 / 8 * 8

-- `id % NUM_ARENAS` for the 32-bit pattern of an int; `none` for a negative remainder, an index in
-- front of the array.
unfoldable pub arena_index : ℕ → Option ℕ
arena_index id =
    if ltb id (2 ^ 31)
    then some (id % num_arenas)
    else if (2 ^ 32 - id) % num_arenas == 0
    then some 0
    else none

-- The arena number of thread `t`; `none` in `thread_arena_id` stands for -1.
unfoldable pub get_thread_arena : ℕ → Cmd ℕ
unfolding arena_index
get_thread_arena t h = elim (h.thread_arena_id t) [
  | some i ↦ some (i, h)
  | none ↦ elim (arena_index h.next_arena_id) [
    | none ↦ none
    | some i ↦ some (
      i,
      record h {
        next_arena_id = (h.next_arena_id + 1) % 2 ^ 32;
        thread_arena_id = update h.thread_arena_id t (some i);
      },
    )
  ]
]

unfoldable pub malloc : Env → ℕ → ℕ → ℕ → Cmd Ptr
malloc env rounds t size =
    let n = align8 size in
    if n == 0 then pure null else do i ← get_thread_arena t; arena_malloc env rounds i n

-- `memset(ptr, 0, n)` and `memcpy(dst, src, n)` on the payload bytes
unfoldable pub clear_bytes : Ptr → ℕ → Cmd (Unit {0})
clear_bytes ptr n h =
    some (tt, record h { bytes = λ a. if leb ptr a && ltb a (ptr + n) then 0 else h.bytes a })

unfoldable pub copy_bytes : Ptr → Ptr → ℕ → Cmd (Unit {0})
copy_bytes dst src n h = some (
  tt,
  record h {
    bytes = λ a. if leb dst a && ltb a (dst + n) then h.bytes (src + (a - dst)) else h.bytes a;
  },
)

unfoldable pub calloc : Env → ℕ → ℕ → ℕ → ℕ → Cmd Ptr
calloc env rounds t nitems nsize =
    if not (nitems == 0) && ltb ((word_size - 1) / nitems) nsize then pure null else do
      ptr ← malloc env rounds t (nitems * nsize)
      if ptr == null then pure null else (do clear_bytes ptr (nitems * nsize); pure ptr)

unfoldable pub free : Ptr → Cmd (Unit {0})
free ptr =
    if ptr == null
    then pure tt
    else do b ← load (get_header ptr); arena_free b.arena (get_header ptr)

unfoldable pub arena_realloc : Env → ℕ → ℕ → Ptr → ℕ → Cmd Ptr
arena_realloc env rounds i block size = do
  old ← load block
  coalesce_with_next i block
  b ← load block
  if leb size b.size then (do split_block i block size; pure (get_payload block)) else do
    new ← arena_malloc env rounds i size
    if new == null
        then pure null
        else (do copy_bytes new (get_payload block) old.size; arena_free i block; pure new)

unfoldable pub realloc : Env → ℕ → ℕ → Ptr → ℕ → Cmd Ptr
realloc env rounds t ptr size =
    let n = align8 size in
    if n == 0
    then (do free ptr; pure null)
    else if ptr == null
    then malloc env rounds t n
    else do b ← load (get_header ptr); arena_realloc env rounds b.arena (get_header ptr) n
