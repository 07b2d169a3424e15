-- ===== src/Allocator/Refine/Resized.antt =====
-- The two ways of `arena_realloc` in task05-memory/src/allocator.c: the block is carved, or it is moved.
use systems_programming_labs.Prelude.{
  ℕ, ◌+◌, ◌-◌, ◌%◌, ◌≤◌, ◌<◌, ◌≡◌, ◌≢◌, refl, sym, subst, ◌∙◌, ap, ap₂, if◌then◌else◌, true, false,
  inl, inr, ◌⊎◌, List, ◌∷◌, ◌++◌, ◌==◌, ltb, leb, ◌&&◌, arith, length, word_size,
}
use mathlib.Core.List.{Perm, perm_middle}
use systems_programming_labs.Allocator.Heap.{Ptr, null, header_size, Heap, Env}
use systems_programming_labs.Allocator.Ops.{
  split_block, arena_free, arena_malloc, contention_reserve_size,
}
use systems_programming_labs.Allocator.Api.{copy_bytes}
use systems_programming_labs.Allocator.Model.{Block, carve, in_use, merge, Ordered}
use systems_programming_labs.Allocator.Carve.{front_part, carve_parts}
use systems_programming_labs.Allocator.Live.{
  live, live-append, live-used, live-carve, live-merge, size-front_part, AddsOne,
}
use systems_programming_labs.Allocator.Sound.{Sound, Ordered-widen, merge-Sound}
use systems_programming_labs.Allocator.Layout.{joins}
use systems_programming_labs.Allocator.Resize.{carve-Sound}
use systems_programming_labs.Allocator.Refine.Returns
use systems_programming_labs.Allocator.Refine.Returns.{Returns, returns}
use systems_programming_labs.Allocator.Refine.Linked.{first, first-append, last, Ordered-back}
use systems_programming_labs.Allocator.Refine.Frame.{IsArena, Suffix, Suffix-back, Only}
use systems_programming_labs.Allocator.Refine.Context.{in_context}
use systems_programming_labs.Allocator.Refine.Split.{limit, split_block-carve}
use systems_programming_labs.Allocator.Refine.Free.{arena_free-merge}
use systems_programming_labs.Allocator.Refine.Malloc.{increment, Grows}
use systems_programming_labs.Allocator.Refine.Arena.{Allocated, arena_malloc-Allocated}
use systems_programming_labs.Allocator.Refine.Insert.{insert_split, live_split}

first-swap :
    (xs ys zs : List Block)
    → first ys null ≡ first zs null
    → first (xs ++ ys) null ≡ first (xs ++ zs) null
first-swap xs ys zs e = first-append xs ys null ∙ ap (first xs) e ∙ sym (first-append xs zs null)

first-carve : (n : ℕ) (b : Block) (ys : List Block) → first (carve n b ++ ys) null ≡ b.addr
first-carve n b ys = rw (carve_parts n b) refl

-- A command on the arena from a block behind `xs` on.
pub in_context-IsArena :
    (i lo hi : ℕ) (h : Heap) (xs : List Block) (b : Block) (ys zs : List Block)
    {r : systems_programming_labs.Allocator.Heap.Run (Unit {0})}
    → Ordered lo (xs ++ (b ∷ ys)) hi
    → IsArena h i (xs ++ (b ∷ ys))
    → first zs null ≡ b.addr
    → Returns (λ _ g. Suffix g i (last xs null) zs × Only i b.addr hi h g) r
    → Returns (λ _ g. IsArena g i (xs ++ zs) × Only i lo hi h g) r
in_context-IsArena i lo hi h xs b ys zs ord a same run =
    Returns.weaken
      (in_context {P = λ _. Unit {0}} i lo hi h null xs b ys zs ord a.suffix same
        (Returns.weaken run λ _ g (s, o). (tt, s, o)))
      λ _ g (u, s, o).
        (record { head = o.head ∙ a.head ∙ sym (first-swap xs zs (b ∷ ys) same); suffix = s }, o)

-- The arena after a block of `old` bytes at `ptr` was asked to have `n`: either it was refused, and the block
-- stays in use where it is; or one block of `n` bytes is in use with its payload at `p`, and has the bytes
-- that the old payload had. All others stay in use as they are, with their bytes.
pub record Resized (i lo hi n old : ℕ) (others : List Block) (ptr : Ptr) (h : Heap) (p : Ptr)
    (g : Heap) : Type 0 where
  pub blocks : List Block
  pub arena : IsArena g i blocks
  pub sound : Sound lo blocks hi
  pub block : Block
  pub live_blocks : Perm (live blocks) (block ∷ others)
  pub outcome :
      ((p ≡ null) × (block.addr + header_size ≡ ptr) × (old ≤ block.size))
      ⊎ ((p ≡ block.addr + header_size) × (n ≤ block.size))
  pub kept : p ≢ null → (k : ℕ) → k < n → k < old → g.bytes (p + k) ≡ h.bytes (ptr + k)
  pub elsewhere : (c : Ptr) → (p ≡ null) ⊎ ((c < p) ⊎ (p + n ≤ c)) → g.bytes c ≡ h.bytes c

module _ (i lo hi hi' n : ℕ) (h g : Heap) (xs : List Block) (b : Block) (rest ys : List Block)
    (m : ℕ) (pos : 0 < lo) (small : hi' ≤ limit) (grows : hi ≤ hi') (words : n % 8 ≡ 0)
    (s : Sound lo (xs ++ (in_use (record b { size = m }) ∷ rest)) hi)
    (a : IsArena g i (xs ++ (in_use (record b { size = m }) ∷ rest))) (grown : b.size ≤ m)
    (lives : live rest ≡ live ys) (bytes : g.bytes ≡ h.bytes) where
  abbrev grown_block : Block
  grown_block = record b { size = m }

  -- The block is large enough: it is carved where it is.
  pub split-Resized :
      n ≤ m
      → joins (record grown_block { freed = true }) rest ≡ false
      → Returns (Resized i lo hi' n b.size (live xs ++ live ys) (b.addr + header_size) h) (
          systems_programming_labs.Allocator.Heap.and_then
            (split_block i b.addr n g)
            λ _. systems_programming_labs.Allocator.Heap.pure (b.addr + header_size))
  unfolding in_use
  split-Resized fit quiet =
      let whole = Ordered-back lo xs (in_use grown_block) rest hi s.ordered in
      Returns.bind
        (in_context-IsArena i lo hi g xs (in_use grown_block) rest
          (carve n (in_use grown_block) ++ rest) s.ordered a
          (first-carve n (in_use grown_block) rest)
          (split_block-carve i b.addr hi g (last xs null) (in_use grown_block) rest
            (omega (arith, whole.0)) whole.1 (omega arith) (Suffix-back xs a.suffix) n fit))
        λ _ g' (ar, o).
          let sound = carve-Sound lo n xs grown_block rest hi words fit quiet s in
          returns (record {
            blocks = xs ++ (carve n (in_use grown_block) ++ rest);
            arena = ar;
            sound = record {
              ordered = Ordered-widen lo _ hi hi' grows sound.ordered;
              aligned = sound.aligned;
              coalesced = sound.coalesced;
            };
            block = front_part n (in_use grown_block);
            live_blocks =
                subst (λ v. Perm v (front_part n (in_use grown_block) ∷ (live xs ++ live ys)))
                  (sym (
                    live-append xs _
                    ∙ ap (λ v. live xs ++ v)
                        (live-carve n (in_use grown_block) rest refl
                          ∙ ap (λ v. front_part n (in_use grown_block) ∷ v) lives)))
                  (perm_middle (live xs) (live ys));
            outcome = inr (refl, size-front_part n (in_use grown_block) fit);
            kept = λ ne k below within. ap (λ f. f (b.addr + header_size + k)) (o.bytes ∙ bytes);
            elsewhere = λ c out. ap (λ f. f c) (o.bytes ∙ bytes);
          })

  -- The blocks in use, with the block that is resized among them.
  live-whole : live (xs ++ (in_use grown_block ∷ rest)) ≡ live xs ++ (in_use grown_block ∷ live ys)
  unfolding in_use
  live-whole =
      live-append xs (in_use grown_block ∷ rest)
      ∙ ap (λ v. live xs ++ v)
          (live-used (in_use grown_block) rest refl ∙ ap (λ v. in_use grown_block ∷ v) lives)

  copied_inside :
      (p : Ptr) (g' : Heap) (c : ℕ)
      → c < b.size
      → (if leb p (p + c) && ltb (p + c) (p + b.size)
          then g'.bytes (b.addr + header_size + (p + c - p))
          else g'.bytes (p + c))
        ≡ g'.bytes (b.addr + header_size + c)
  copied_inside p g' c within =
      let inside : leb p (p + c) && ltb (p + c) (p + b.size) ≡ true = ground (arith, within) in
      rw inside (ap (λ v. g'.bytes (b.addr + header_size + v)) (omega arith))

  copied_outside :
      (p : Ptr) (g' : Heap) (c : Ptr)
      → (c < p) ⊎ (p + b.size ≤ c)
      → (if leb p c && ltb c (p + b.size)
          then g'.bytes (b.addr + header_size + (c - p))
          else g'.bytes c)
        ≡ g'.bytes c
  copied_outside p g' c out =
      let apart : leb p c && ltb c (p + b.size) ≡ false = elim out [
        | inl below ↦ ground (arith, below)
        | inr above ↦ ground (arith, above)
      ] in
      rw apart refl

  -- The block is moved: another one has been handed out, and the old one is copied and freed.
  free-Resized :
      (p : Ptr) (g' : Heap)
      → p ≢ null
      → m < n
      → (r : Allocated i lo hi' n (xs ++ (in_use grown_block ∷ rest)) g p g')
      → AddsOne n p (xs ++ (in_use grown_block ∷ rest)) r.blocks
      → Returns (Resized i lo hi' n b.size (live xs ++ live ys) (b.addr + header_size) h) (
          systems_programming_labs.Allocator.Heap.and_then
            (copy_bytes p (b.addr + header_size) b.size g')
            λ _ k.
              systems_programming_labs.Allocator.Heap.and_then
                (arena_free i b.addr k)
                λ _. systems_programming_labs.Allocator.Heap.pure p)
  unfolding copy_bytes in_use
  free-Resized p g' given large r adds =
      let (mid, mid', new_live, order) =
        insert_split adds.before adds.after (live xs) (in_use grown_block) (live ys) adds.block
          (sym adds.old ∙ live-whole) in
      let (xs', ys', split, front, back) =
        live_split r.blocks mid (in_use grown_block) mid' (adds.new ∙ new_live) in
      let old = b.addr + header_size in
      let copied : Heap = record g' {
        bytes = λ c. if leb p c && ltb c (p + b.size) then g'.bytes (old + (c - p)) else g'.bytes c;
      } in
      let sound = subst (λ v. Sound lo v hi') split r.sound in
      let arena : IsArena g' i (xs' ++ (in_use grown_block ∷ ys')) =
        subst (IsArena g' i) split r.arena in
      let same : (c : Ptr) → g'.bytes c ≡ h.bytes c =
        λ c. ap (λ f. f c) (r.outside.bytes ∙ bytes) in
      Returns.bind
        (arena_free-merge i lo hi' copied xs' (in_use grown_block) ys' pos small sound.ordered
          (record {
            head = arena.head;
            suffix = record { linked = arena.suffix.linked; tail = arena.suffix.tail };
          }))
        λ _ k (ar, o). returns (record {
          blocks = merge xs' (record (in_use grown_block) { freed = true }) ys';
          arena = ar;
          sound = merge-Sound lo xs' (in_use grown_block) ys' hi' sound;
          block = adds.block;
          live_blocks =
              subst (λ v. Perm v (adds.block ∷ (live xs ++ live ys)))
                (sym (
                  live-merge xs' (record (in_use grown_block) { freed = true }) ys' refl
                  ∙ ap₂ (λ u v. u ++ v) front back))
                order;
          outcome = inr (adds.place, adds.room);
          kept = λ ne c below within.
              ap (λ f. f (p + c)) o.bytes ∙ copied_inside p g' c within ∙ same (old + c);
          elsewhere = λ c out.
              ap (λ f. f c) o.bytes
              ∙ copied_outside p g' c (elim out [
                | inl none_given ↦ absurd (given none_given)
                | inr far ↦ elim far [
                  | inl below ↦ inl below
                  | inr above ↦ inr (omega (arith, above, large, grown))
                ]
              ])
              ∙ same c;
        })

  -- The block is too small: another one is asked for.
  pub move-Resized :
      (env : Env) (rounds : ℕ)
      → length (xs ++ (in_use grown_block ∷ rest)) < rounds
      → n + header_size + contention_reserve_size < word_size
      → Grows env (increment env g n) hi hi'
      → m < n
      → Returns (Resized i lo hi' n b.size (live xs ++ live ys) (b.addr + header_size) h) (
          systems_programming_labs.Allocator.Heap.and_then (arena_malloc env rounds i n g) λ new.
            if new == null then systems_programming_labs.Allocator.Heap.pure null else λ g'.
            systems_programming_labs.Allocator.Heap.and_then
              (copy_bytes new (b.addr + header_size) b.size g')
              λ _ k.
                systems_programming_labs.Allocator.Heap.and_then
                  (arena_free i b.addr k)
                  λ _. systems_programming_labs.Allocator.Heap.pure new)
  unfolding in_use
  move-Resized env rounds enough asked sys large =
      Returns.bind
        (arena_malloc-Allocated env i lo hi hi' g _ rounds pos small s a enough n words asked sys)
        λ p g' r. elim r.outcome [
          | inl refused ↦
              let nothing : (p == null) ≡ true = ground (arith, refused.null_result) in
              rw nothing (
                returns (record {
                  blocks = r.blocks;
                  arena = r.arena;
                  sound = r.sound;
                  block = in_use grown_block;
                  live_blocks =
                      subst (λ v. Perm v (in_use grown_block ∷ (live xs ++ live ys)))
                        (sym (ap live refused.same ∙ live-whole)) (perm_middle (live xs) (live ys));
                  outcome = inl (refl, refl, grown);
                  kept = λ ne. absurd (ne refl);
                  elsewhere = λ c out. ap (λ f. f c) (r.outside.bytes ∙ bytes);
                }))
          | inr adds ↦
              let given : p ≢ null = λ q. omega (arith, q, adds.place) in
              let some_block : (p == null) ≡ false = ground (arith, adds.place) in
              rw some_block (free-Resized p g' given large r adds)
        ]
