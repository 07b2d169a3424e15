-- ===== src/Allocator/Heap.antt =====
-- The state of task05-memory/src/allocator.c: block headers at addresses, the arenas' list ends, the
-- payload bytes, and the process-wide and thread-local counters; and the commands over it.
-- A header takes 32 bytes. Headers and payload bytes are kept in two maps.
use systems_programming_labs.Prelude.{ℕ, Bool, Option, none, some, ◌==◌, if◌then◌else◌}

abbrev pub Ptr : Type 0
Ptr = ℕ

abbrev pub null : Ptr
null = 0

-- sizeof(BlockHeader): two ints, a size_t and two pointers.
abbrev pub header_size : ℕ
header_size = 32

pub record BlockHeader : Type 0 where
  pub arena : ℕ
  pub freed : Bool
  pub size : ℕ
  pub prev : Ptr
  pub next : Ptr

pub record Arena : Type 0 where
  pub head : Ptr
  pub tail : Ptr

pub record Heap : Type 0 where
  pub header : Ptr → Option BlockHeader
  pub arena_pool : ℕ → Arena
  pub bytes : ℕ → ℕ
  pub next_arena_id : ℕ
  pub thread_arena_id : ℕ → Option ℕ
  pub contention_detected : Bool

abbrev pub update {ℓ} : {A : Type ℓ} → (ℕ → A) → ℕ → A → ℕ → A
update f p v q = if q == p then v else f q

-- A command; `none` is an access to an address without a header, or a loop that is out of rounds.
abbrev pub Run : Type 0 → Type 0
Run A = Option (A × Heap)

abbrev pub Cmd : Type 0 → Type 0
Cmd A = Heap → Run A

abbrev pub pure : {A : Type 0} → A → Cmd A
pure a h = some (a, h)

abbrev pub and_then : {A B : Type 0} → Run A → (A → Cmd B) → Run B
and_then none k = none
and_then (some (a, h)) k = k a h

infixl 5 ◌>>=◌ ◌>>◌
abbrev pub ◌>>=◌ : {A B : Type 0} → Cmd A → (A → Cmd B) → Cmd B
m >>= k = λ h. and_then (m h) k

abbrev pub ◌>>◌ : {B : Type 0} → Cmd (Unit {0}) → Cmd B → Cmd B
m >> k = m >>= λ _. k

abbrev pub get : Cmd Heap
get h = some (h, h)

-- `*p`
unfoldable pub load : Ptr → Cmd BlockHeader
load p h = elim (h.header p) [ none ↦ none | some b ↦ some (b, h) ]

-- `*p = b`
abbrev pub store : Ptr → BlockHeader → Cmd (Unit {0})
store p b h = some (tt, record h { header = update h.header p (some b) })

-- `p->size = n`, `p->freed = f`, `p->next = q`, `p->prev = q`
unfoldable pub set_size : Ptr → ℕ → Cmd (Unit {0})
set_size p n = do b ← load p; store p (record b { size = n })

unfoldable pub set_freed : Ptr → Bool → Cmd (Unit {0})
set_freed p f = do b ← load p; store p (record b { freed = f })

unfoldable pub set_next : Ptr → Ptr → Cmd (Unit {0})
set_next p q = do b ← load p; store p (record b { next = q })

unfoldable pub set_prev : Ptr → Ptr → Cmd (Unit {0})
set_prev p q = do b ← load p; store p (record b { prev = q })

-- `arena->head = p` and `*tail = p`, for the arena of index `i`
abbrev pub set_head : ℕ → Ptr → Cmd (Unit {0})
set_head i p h =
    some
      (tt, record h { arena_pool = update h.arena_pool i (record (h.arena_pool i) { head = p }) })

abbrev pub set_tail : ℕ → Ptr → Cmd (Unit {0})
set_tail i p h =
    some
      (tt, record h { arena_pool = update h.arena_pool i (record (h.arena_pool i) { tail = p }) })

-- What the calls of the system and of other threads decide: whether `pthread_mutex_trylock` finds
-- the global lock taken, and what `sbrk` returns for an increment (`none` for (void *)-1).
pub record Env : Type 0 where
  pub busy : Bool
  pub sbrk : ℕ → Option Ptr
