-- ===== src/Allocator/Refine/Malloc.antt =====
-- `arena_malloc` and `extend_arena_heap` of task05-memory/src/allocator.c against `allocate`.
use systems_programming_labs.Prelude.{
  ℕ, ◌+◌, ◌≤◌, ◌<◌, ◌≡◌, refl, ◌∙◌, false, Bool-cases, Option-cases, Option, word_size, none, some,
  inl, inr, List, [], ◌∷◌, ◌++◌, ◌==◌, ◌||◌, arith, length, add64, add64-eq, if◌then◌else◌,
}
use systems_programming_labs.Allocator.Heap.{
  Ptr, null, header_size, Heap, Env, ◌>>◌, set_freed, Cmd, pure,
}
use systems_programming_labs.Allocator.Ops.{
  split_block, arena_malloc, extend_arena_heap, note_contention, reserve_size,
  contention_reserve_size,
}
use systems_programming_labs.Allocator.Model.{
  Block, Place, whole, Ordered, fits, first_fit, carve, in_use, hand_out, fresh_block, extend,
  allocate, Answer,
}
use systems_programming_labs.Allocator.Carve.{
  front_part, rest_part, carve_parts, carve-in_use, Ordered-carve,
}
use systems_programming_labs.Allocator.FirstFit.{IsFirst, first_fit-Found}
use systems_programming_labs.Allocator.Refine.Returns
use systems_programming_labs.Allocator.Refine.Returns.{Returns, returns}
use systems_programming_labs.Allocator.Refine.Linked.{
  first, last, Ordered-le, Ordered-front, Ordered-back, Ordered-append,
}
use systems_programming_labs.Allocator.Refine.Frame.{
  Suffix, IsArena, Only, Only-trans, Suffix-back, Outside, Only-Outside, Outside-trans,
  Outside-widen,
}
use systems_programming_labs.Allocator.Refine.Split.{limit, split_block-carve}
use systems_programming_labs.Allocator.Refine.Context.{in_context, set_freed-Suffix}
use systems_programming_labs.Allocator.Refine.Extend.{append_block-IsArena}
use systems_programming_labs.Allocator.Refine.Search.{first_hit-first_fit}

-- `block ? get_payload(block) : NULL`
abbrev payload_or_null : Ptr → Ptr
payload_or_null p = if p == null then null else p + header_size

abbrev hit_branch : ℕ → ℕ → Ptr → Cmd Ptr
hit_branch i n q = do split_block i q n; set_freed q false; pure (q + header_size)

module _ (i lo hi : ℕ) (pos : 0 < lo) (small : hi ≤ limit) where
  Ordered-hand_out :
      (n : ℕ) (xs : List Block) (b : Block) (ys : List Block)
      → n ≤ b.size
      → Ordered lo (xs ++ (b ∷ ys)) hi
      → Ordered lo (xs ++ (carve n b ++ ys)) hi
  Ordered-hand_out n xs b ys fit ord =
      Ordered-append lo xs (carve n b ++ ys) b.addr hi (Ordered-front lo xs (b ∷ ys) hi ord)
        (Ordered-carve b.addr n b ys hi fit (Ordered-back lo xs b ys hi ord).1)

  -- The branch of `arena_malloc` with a hit.
  take_hit :
      (n : ℕ) (h : Heap) (p : Place)
      → Ordered lo (whole p) hi
      → n ≤ p.block.size
      → Suffix h i null (whole p)
      → Returns
          (λ q g.
            (q ≡ p.block.addr + header_size) × Suffix g i null (hand_out n p) × Only i lo hi h g)
          (hit_branch i n p.block.addr h)
  unfolding hand_out
  take_hit n h p ord fit s =
      Returns.bind
        (in_context {P = λ _. Unit {0}} i lo hi h null xs b ys (carve n b ++ ys) ord s
          (rw (carve_parts n b) (ground arith))
          (Returns.weaken
            (split_block-carve i lo hi h (last xs null) b ys pos
              (let back = Ordered-back lo xs b ys hi ord in (back.0, back.1.1)) small
              (Suffix-back xs s) n fit)
            λ _ g (t, o). (tt, t, o)))
        λ _ g (u, t, o).
          Returns.bind
            (set_freed-Suffix i lo hi g null xs (front_part n b) (rest_part n b ++ ys) false
              (rw (carve_parts n b) at (Ordered-hand_out n xs b ys fit ord))
              (rw (carve_parts n b) at t))
            λ _ k (t', o'). returns (refl, rw (carve-in_use n b) t', Only-trans o o')
    where
      open p use {before as xs, block as b, after as ys}

first-hand_out : (n : ℕ) (p : Place) → first (whole p) null ≡ first (hand_out n p) null
unfolding hand_out
first-hand_out n p = go p.before
  where
    go :
        (xs : List Block)
        → first (xs ++ (p.block ∷ p.after)) null
          ≡ first (xs ++ (carve n (in_use p.block) ++ p.after)) null
    go [] = rw (carve-in_use n p.block)
    go (x ∷ xs) = refl

abbrev pub reserve_after : Env → Heap → ℕ
reserve_after env h = if h.contention_detected || env.busy then contention_reserve_size else 0

-- The increment that `extend_arena_heap` asks for.
abbrev pub increment : Env → Heap → ℕ → ℕ
increment env h n = header_size + n + reserve_after env h

pub record Grows (env : Env) (k hi hi' : ℕ) : Type 0 where
  pub grows : hi ≤ hi'
  pub answer : (q : Ptr) → env.sbrk k ≡ some q → Answer k hi hi' q

allocate-none :
    (n reserve : ℕ) (answer : Option Ptr) (bs : List Block)
    → first_fit n bs ≡ none
    → allocate n reserve answer bs ≡ extend n reserve answer bs
unfolding allocate
allocate-none n reserve answer bs e = rw (e, allocate)

allocate-some :
    (n reserve : ℕ) (answer : Option Ptr) (bs : List Block) (p : Place)
    → first_fit n bs ≡ some p
    → allocate n reserve answer bs ≡ (p.block.addr + header_size, hand_out n p)
unfolding allocate
allocate-some n reserve answer bs p e = rw (e, allocate)

module _ (env : Env) (i lo hi hi' n : ℕ) (h : Heap) (bs : List Block) (pos : 0 < lo)
    (small : hi' ≤ limit) (asked : n + header_size + contention_reserve_size < word_size)
    (ord : Ordered lo bs hi) (sys : Grows env (increment env h n) hi hi') (a : IsArena h i bs) where
  abbrev outcome : Ptr × List Block
  outcome = extend n (reserve_after env h) (env.sbrk (increment env h n)) bs

  abbrev noted : Heap
  noted = record h { contention_detected = h.contention_detected || env.busy }

  noted-IsArena : IsArena noted i bs
  noted-IsArena = record {
    head = a.head;
    suffix = record { linked = a.suffix.linked; tail = a.suffix.tail };
  }

  noted-Outside : Outside i lo hi' h noted
  noted-Outside = record {
    below = λ c p. refl;
    above = λ c p. refl;
    others = λ j p. refl;
    bytes = refl;
    next_id = refl;
    threads = refl;
  }

  ask_eq : add64 (add64 header_size n) (reserve_after env h) ≡ increment env h n
  ask_eq = elim (Bool-cases (h.contention_detected || env.busy)) [
    | inl c ↦ simp c (
        rw (add64-eq header_size n (omega arith))
          (add64-eq (header_size + n) contention_reserve_size (omega arith)))
    | inr c ↦
        simp c
          (rw (add64-eq header_size n (omega arith)) (add64-eq (header_size + n) 0 (omega arith)))
  ]

  extend-outcome :
      Returns
        (λ p g. (payload_or_null p ≡ outcome.0) × IsArena g i outcome.1 × Outside i lo hi' h g)
        (extend_arena_heap env i n h)
  unfolding extend_arena_heap note_contention reserve_size extend fresh_block
  extend-outcome = rw ask_eq (elim (Option-cases (env.sbrk (increment env h n))) [
    | inl refused ↦ rw refused (returns (refl, noted-IsArena, noted-Outside))
    | inr (q, given) ↦ rw given (
        let answer = sys.answer q given in
        Returns.weaken
          (append_block-IsArena i lo hi hi' (fresh_block q (n + reserve_after env h)) pos
            answer.above (omega (arith, answer.within)) noted bs n (reserve_after env h) small refl
            refl ord noted-IsArena)
          λ p g (e, ar, o). (
            ground (arith, Ordered-le lo bs hi ord, answer.above),
            ar,
            Outside-trans noted-Outside o,
          ))
  ])

  hit :
      (p : Place)
      → IsFirst n bs p
      → Returns
          (λ q g.
            (q ≡ p.block.addr + header_size) × IsArena g i (hand_out n p) × Outside i lo hi' h g)
          (hit_branch i n p.block.addr h)
  unfolding fits
  hit p f =
      Returns.weaken
        (take_hit i lo hi pos (omega (arith, sys.grows)) n h p (rw f.split at ord)
          (ground (arith, f.fit)) (rw f.split at a.suffix))
        λ q g (e, s, o). (
          e,
          record { head = o.head ∙ a.head ∙ rw f.split (first-hand_out n p); suffix = s },
          Outside-widen (Only-Outside o) lo hi' (omega arith) (omega (arith, sys.grows)),
        )

  not_null : (p : Place) → IsFirst n bs p → (p.block.addr == null) ≡ false
  not_null p f = ground (arith, (Ordered-back lo p.before p.block p.after hi (rw f.split at ord)).0)

  -- `arena_malloc`, of a size that stays below 2^64 with a header and the reserve added, where `sbrk` gives memory
  -- behind the arena or none, and with more rounds than blocks: it returns what `allocate` says, the arena
  -- stands for the blocks that it says, and no header outside the arena's range is written.
  pub arena_malloc-allocate :
      (rounds : ℕ)
      → length bs < rounds
      → Returns
          (λ p g.
            (p ≡ (allocate n (reserve_after env h) (env.sbrk (increment env h n)) bs).0)
            × IsArena g i (allocate n (reserve_after env h) (env.sbrk (increment env h n)) bs).1
            × Outside i lo hi' h g)
          (arena_malloc env rounds i n h)
  unfolding arena_malloc fits
  arena_malloc-allocate rounds enough =
      rw (a.head, first_hit-first_fit n i lo hi h rounds bs pos ord a.suffix.linked enough)
        (elim (Option-cases (first_fit n bs)) [
          | inl missed ↦
              rw (missed, allocate-none n _ _ bs missed)
                (Returns.bind extend-outcome λ p g (e, ar, o). returns (e, ar, o))
          | inr (p, found) ↦
              let first_place : IsFirst n bs p = rw found at (first_fit-Found n bs) in
              rw (found, allocate-some n _ _ bs p found, not_null p first_place) (hit p first_place)
        ])
