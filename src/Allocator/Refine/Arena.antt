-- ===== src/Allocator/Refine/Arena.antt =====
-- `malloc`, `calloc` and `free` of task05-memory/src/allocator.c on an arena whose blocks are sound.
use systems_programming_labs.Prelude.{
  ℕ, ◌+◌, ◌%◌, ◌≤◌, ◌<◌, ◌≡◌, refl, true, false, inl, inr, List, ◌∷◌, ◌++◌, ◌==◌, arith, length,
  word_size, add64-eq,
}
use systems_programming_labs.Allocator.Heap.{Ptr, null, header_size, Heap, Env}
use systems_programming_labs.Allocator.Ops.{arena_malloc, contention_reserve_size, get_header}
use systems_programming_labs.Allocator.Api.{align8, free}
use systems_programming_labs.Allocator.Model.{Block, allocate, merge}
use systems_programming_labs.Allocator.Live.{live, live-merge, Outcome, allocate-Outcome}
use systems_programming_labs.Allocator.Sound.{Sound, allocate-Sound, merge-Sound}
use systems_programming_labs.Allocator.Refine.Returns
use systems_programming_labs.Allocator.Refine.Returns.{Returns, returns}
use systems_programming_labs.Allocator.Refine.Write.{load_lem}
use systems_programming_labs.Allocator.Refine.Frame.{
  IsArena, Suffix-back, header_at, Outside, Only-Outside,
}
use systems_programming_labs.Allocator.Refine.Split.{limit}
use systems_programming_labs.Allocator.Refine.Free.{arena_free-merge}
use systems_programming_labs.Allocator.Refine.Malloc.{
  reserve_after, increment, Grows, arena_malloc-allocate,
}

-- The arena afterwards: sound blocks, one more of `n` bytes in use with its payload at `p`, or the old
-- ones if `p` is null.
pub record Allocated (i lo hi n : ℕ) (bs : List Block) (h : Heap) (p : Ptr) (g : Heap)
    : Type 0 where
  pub blocks : List Block
  pub arena : IsArena g i blocks
  pub sound : Sound lo blocks hi
  pub outcome : Outcome n bs (p, blocks)
  pub outside : Outside i lo hi h g

module _ (env : Env) (i lo hi hi' : ℕ) (h : Heap) (bs : List Block) (rounds : ℕ) (pos : 0 < lo)
    (small : hi' ≤ limit) (s : Sound lo bs hi) (a : IsArena h i bs)
    (enough : length bs < rounds) where
  -- With whole words asked for, `arena_malloc` hands out one block or refuses, and keeps the invariant.
  pub arena_malloc-Allocated :
      (n : ℕ)
      → n % 8 ≡ 0
      → n + header_size + contention_reserve_size < word_size
      → Grows env (increment env h n) hi hi'
      → Returns (Allocated i lo hi' n bs h) (arena_malloc env rounds i n h)
  arena_malloc-Allocated n words asked sys =
      Returns.weaken
        (arena_malloc-allocate env i lo hi hi' n h bs pos small asked s.ordered sys a rounds enough)
        λ p g (e, ar, o). record {
          blocks = (allocate n (reserve_after env h) (env.sbrk (increment env h n)) bs).1;
          arena = ar;
          sound =
              allocate-Sound lo hi hi' n (reserve_after env h) bs s sys.grows (words, ground arith)
                (env.sbrk (increment env h n)) sys.answer;
          outcome =
              rw e (allocate-Outcome n (reserve_after env h) (env.sbrk (increment env h n)) bs);
          outside = o;
        }

pub align8_bounds :
    (size : ℕ)
    → size + 7 < word_size
    → (size ≤ align8 size) × (align8 size < size + 8) × (align8 size % 8 ≡ 0)
unfolding align8
align8_bounds size h = rw (add64-eq size 7 h) (omega arith)

pub Outcome-mono :
    (m n : ℕ) (bs : List Block) (r : Ptr × List Block) → m ≤ n → Outcome n bs r → Outcome m bs r
Outcome-mono m n bs r le (inl x) = inl x
Outcome-mono m n bs r le (inr x) = inr (record {
  before = x.before;
  block = x.block;
  after = x.after;
  old = x.old;
  new = x.new;
  place = x.place;
  room = omega (arith, x.room);
})

-- A freed block: the others stay in use as they are, and the invariant holds.
pub record Freed (i lo hi : ℕ) (xs ys : List Block) (h g : Heap) : Type 0 where
  pub blocks : List Block
  pub arena : IsArena g i blocks
  pub sound : Sound lo blocks hi
  pub others : live blocks ≡ live xs ++ live ys
  pub outside : Outside i lo hi h g

-- `free` of a block of the arena takes exactly that block out of use.
pub free-Freed :
    (i lo hi : ℕ) (h : Heap) (xs : List Block) (b : Block) (ys : List Block)
    → 0 < lo
    → hi ≤ limit
    → Sound lo (xs ++ (b ∷ ys)) hi
    → IsArena h i (xs ++ (b ∷ ys))
    → Returns (λ _. Freed i lo hi xs ys h) (free (b.addr + header_size) h)
unfolding free
free-Freed i lo hi h xs b ys pos small s a =
    rw (not_null, back, load_lem h b.addr (header_at b ys (Suffix-back xs a.suffix)))
      (Returns.weaken (arena_free-merge i lo hi h xs b ys pos small s.ordered a) λ _ g (ar, o).
        record {
          blocks = merge xs (record b { freed = true }) ys;
          arena = ar;
          sound = merge-Sound lo xs b ys hi s;
          others = live-merge xs (record b { freed = true }) ys refl;
          outside = Only-Outside o;
        })
  where
    not_null : (b.addr + header_size == null) ≡ false
    not_null = ground arith

    back : get_header (b.addr + header_size) ≡ b.addr
    back = omega arith
