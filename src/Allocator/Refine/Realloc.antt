-- ===== src/Allocator/Refine/Realloc.antt =====
-- `arena_realloc` of task05-memory/src/allocator.c on an arena whose blocks are sound.
use systems_programming_labs.Prelude.{
  ℕ, ◌+◌, ◌%◌, ◌≤◌, ◌<◌, ◌≡◌, sym, subst, ap, if◌then◌else◌, false, Bool-cases, inl, inr, List, ◌∷◌,
  ◌++◌, ◌==◌, leb, ◌||◌, arith, length, word_size, length-append,
}
use systems_programming_labs.Allocator.Heap.{Ptr, null, header_size, Heap, Env}
use systems_programming_labs.Allocator.Ops.{contention_reserve_size, get_header}
use systems_programming_labs.Allocator.Api.{arena_realloc, realloc, align8}
use systems_programming_labs.Allocator.Model.{Block, in_use, absorb}
use systems_programming_labs.Allocator.Live.{live}
use systems_programming_labs.Allocator.Sound.{Sound}
use systems_programming_labs.Allocator.Resize.{absorb-Absorbed, absorb-Sound, Coalesced-back}
use systems_programming_labs.Allocator.Refine.Returns
use systems_programming_labs.Allocator.Refine.Returns.{Returns, returns}
use systems_programming_labs.Allocator.Refine.Linked.{last, Ordered-back}
use systems_programming_labs.Allocator.Refine.Frame.{IsArena, Suffix-back, header_at}
use systems_programming_labs.Allocator.Refine.Write.{load_lem}
use systems_programming_labs.Allocator.Refine.Split.{limit}
use systems_programming_labs.Allocator.Refine.Coalesce.{coalesce_with_next-absorb}
use systems_programming_labs.Allocator.Refine.Free.{first-absorb}
use systems_programming_labs.Allocator.Refine.Malloc.{increment, Grows}
use systems_programming_labs.Allocator.Refine.Arena.{align8_bounds}
use systems_programming_labs.Allocator.Refine.Resized.{
  in_context-IsArena, Resized, split-Resized, move-Resized,
}

module _ (env : Env) (i lo hi hi' : ℕ) (h : Heap) (xs : List Block) (b : Block) (ys : List Block)
    (rounds : ℕ) (pos : 0 < lo) (small : hi' ≤ limit) (used : b.freed ≡ false)
    (s : Sound lo (xs ++ (b ∷ ys)) hi) (a : IsArena h i (xs ++ (b ∷ ys)))
    (enough : length (xs ++ (b ∷ ys)) < rounds) where
  abbrev Reallocated : ℕ → Ptr → Heap → Type 0
  Reallocated n = Resized i lo hi' n b.size (live xs ++ live ys) (b.addr + header_size) h

  same_block : b ≡ in_use b
  unfolding in_use
  same_block = ap (λ f. record b { freed = f }) used

  arena_realloc-Resized :
      (n : ℕ)
      → n % 8 ≡ 0
      → n + header_size + contention_reserve_size < word_size
      → Grows env (increment env h n) hi hi'
      → Returns (Reallocated n) (arena_realloc env rounds i b.addr n h)
  unfolding arena_realloc in_use
  arena_realloc-Resized n words asked sys =
      let sound = subst (λ c. Sound lo (xs ++ (c ∷ ys)) hi) same_block s in
      let arena : IsArena h i (xs ++ (in_use b ∷ ys)) =
        subst (λ c. IsArena h i (xs ++ (c ∷ ys))) same_block a in
      let whole = Ordered-back lo xs (in_use b) ys hi sound.ordered in
      let absorbed = absorb-Absorbed b ys (Coalesced-back xs b ys s.coalesced) in
      rw (load_lem h b.addr (header_at (in_use b) ys (Suffix-back xs arena.suffix))) (
        Returns.bind
          (in_context-IsArena i lo hi h xs (in_use b) ys (absorb (in_use b) ys) sound.ordered arena
            (first-absorb (in_use b) ys null)
            (coalesce_with_next-absorb i b.addr hi h (last xs null) (in_use b) ys
              (omega (arith, whole.0)) whole.1 (omega (arith, sys.grows))
              (Suffix-back xs arena.suffix)))
          λ _ g (ar, o).
            let m = absorbed.size in
            let grown = in_use (record b { size = m }) in
            let sound' =
              subst (λ v. Sound lo (xs ++ v) hi) absorbed.is
                (absorb-Sound lo xs (in_use b) ys hi sound) in
            let arena' : IsArena g i (xs ++ (grown ∷ absorbed.rest)) =
              subst (λ v. IsArena g i (xs ++ v)) absorbed.is ar in
            rw (load_lem g b.addr (header_at grown absorbed.rest (Suffix-back xs arena'.suffix)))
              (elim (Bool-cases (leb n m)) [
                | inl fits ↦ rw fits (
                    split-Resized i lo hi hi' n h g xs b absorbed.rest ys m pos small sys.grows
                      words sound' arena' absorbed.grown absorbed.lives o.bytes
                      (ground (arith, fits)) absorbed.quiet)
                | inr short ↦ rw short (
                    move-Resized i lo hi hi' n h g xs b absorbed.rest ys m pos small sys.grows words
                      sound' arena' absorbed.grown absorbed.lives o.bytes env rounds
                      (omega (
                        arith,
                        enough,
                        absorbed.shorter,
                        length-append xs (b ∷ ys),
                        length-append xs (in_use (record b { size = m }) ∷ absorbed.rest),
                      ))
                      asked
                      (subst (λ v. Grows env v hi hi')
                        (ap
                          (λ c.
                            header_size
                            + n
                            + (if c || env.busy then contention_reserve_size else 0))
                          (sym o.contention))
                        sys)
                      (ground (arith, short)))
              ]))

  -- `realloc` of a block in use, to a size above 0 that stays below 2^64 when 7, a header and the reserve are
  -- added, where `sbrk` gives memory behind the arena or none: it ends, and the arena stays sound. It is refused, and
  -- the block stays in use where it is; or one block of the size, rounded up to words, is in use with its
  -- payload at the result, and has the bytes that the old payload had, up to the smaller of the two sizes.
  -- All other blocks stay in use, and the bytes outside the payload stay as they are.
  pub realloc-Resized :
      (t size : ℕ)
      → 0 < size
      → size + 7 + header_size + contention_reserve_size < word_size
      → Grows env (increment env h (align8 size)) hi hi'
      → Returns (Reallocated (align8 size)) (realloc env rounds t (b.addr + header_size) size h)
  unfolding realloc
  realloc-Resized t size some_bytes asked sys =
      let words = align8_bounds size (omega (arith, asked)) in
      let nonzero : (align8 size == 0) ≡ false = ground (arith, words, some_bytes) in
      let not_null : (b.addr + header_size == null) ≡ false = ground arith in
      let back : get_header (b.addr + header_size) ≡ b.addr = omega arith in
      rw (nonzero, not_null, back, load_lem h b.addr (header_at b ys (Suffix-back xs a.suffix)))
        (arena_realloc-Resized (align8 size) words.2 (omega (arith, words.1, asked)) sys)
