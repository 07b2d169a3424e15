-- ===== src/Allocator/Ops.antt =====
-- The static functions of task05-memory/src/allocator.c on one arena's block list.
use systems_programming_labs.Prelude.{
  ℕ, zero, suc, ◌+◌, ◌-◌, true, false, ◌&&◌, ◌||◌, none, some, ◌==◌, ltb, leb, if◌then◌else◌, add64,
  sub64,
}
use systems_programming_labs.Allocator.Heap.{
  Ptr, null, header_size, Heap, Cmd, pure, ◌>>=◌, ◌>>◌, get, load, store, set_size, set_freed,
  set_next, set_prev, set_head, set_tail, Env,
}

abbrev pub contention_reserve_size : ℕ
contention_reserve_size = 2048

-- `header + 1` and `ptr - 1`, in units of a header
abbrev pub get_payload : Ptr → Ptr
get_payload p = p + header_size

abbrev pub get_header : Ptr → Ptr
get_header p = p - header_size

-- The loop over `block->next`, with a bound on its rounds.
unfoldable pub first_hit : ℕ → Ptr → ℕ → Cmd Ptr
first_hit zero block size = λ _. none
first_hit (suc k) block size = if block == null then pure null else do
  b ← load block
  if b.freed && leb size b.size then pure block else first_hit k b.next size

-- `if (next) next->prev = p; else *tail = p;`
unfoldable pub set_back_link : ℕ → Ptr → Ptr → Cmd (Unit {0})
set_back_link i next p = if next == null then set_tail i p else set_prev next p

unfoldable pub split_block : ℕ → Ptr → ℕ → Cmd (Unit {0})
split_block i block size = do
  b ← load block
  if ltb b.size (add64 (add64 size header_size) 8) then pure tt else do
    let remainder = get_payload block + size
    store remainder (record {
      arena = b.arena;
      freed = true;
      size = sub64 (sub64 b.size size) header_size;
      prev = block;
      next = b.next;
    })
    set_back_link i b.next remainder
    set_next block remainder
    set_size block size

unfoldable pub coalesce_with_next : ℕ → Ptr → Cmd (Unit {0})
coalesce_with_next i block = do
  b ← load block
  if b.next == null then pure tt else do
    n ← load b.next
    if n.freed && (get_payload block + b.size == b.next)
        then (do
          set_size block (add64 b.size (add64 header_size n.size))
          set_next block n.next
          set_back_link i n.next block)
        else pure tt

unfoldable pub merge_blocks : ℕ → Ptr → Cmd (Unit {0})
merge_blocks i block = do
  coalesce_with_next i block
  b ← load block
  if b.prev == null
      then pure tt
      else do p ← load b.prev; if p.freed then coalesce_with_next i b.prev else pure tt

unfoldable pub arena_free : ℕ → Ptr → Cmd (Unit {0})
arena_free i block = do set_freed block true; merge_blocks i block

-- The first lines of `extend_arena_heap`: a failed trylock is remembered.
unfoldable pub note_contention : Env → Cmd (Unit {0})
note_contention env h =
    some (tt, record h { contention_detected = h.contention_detected || env.busy })

unfoldable pub reserve_size : Heap → ℕ
reserve_size h = if h.contention_detected then contention_reserve_size else 0

-- `if (!arena->head) arena->head = block; else arena->tail->next = block;`
unfoldable pub set_forward_link : ℕ → Ptr → Cmd (Unit {0})
set_forward_link i block = do
  h ← get
  let a = h.arena_pool i
  if a.head == null then set_head i block else set_next a.tail block

-- The new block is initialised, linked behind the tail and split.
unfoldable pub append_block : ℕ → Ptr → ℕ → ℕ → Cmd Ptr
append_block i block size reserve = do
  h ← get
  store block (record {
    arena = i;
    freed = false;
    size = add64 size reserve;
    prev = (h.arena_pool i).tail;
    next = null;
  })
  set_forward_link i block
  set_tail i block
  split_block i block size
  pure block

unfoldable pub extend_arena_heap : Env → ℕ → ℕ → Cmd Ptr
extend_arena_heap env i size = do
  note_contention env
  h ← get
  let reserve = reserve_size h
  elim (env.sbrk (add64 (add64 header_size size) reserve)) [
    | none ↦ pure null
    | some block ↦ append_block i block size reserve
  ]

-- `size_t` 64-bit; the result is a payload address or null.
unfoldable pub arena_malloc : Env → ℕ → ℕ → ℕ → Cmd Ptr
arena_malloc env rounds i size = do
  h ← get
  hit ← first_hit rounds (h.arena_pool i).head size
  if hit == null
      then (do
        block ← extend_arena_heap env i size
        pure (if block == null then null else get_payload block))
      else (do split_block i hit size; set_freed hit false; pure (get_payload hit))
