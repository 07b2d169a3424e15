-- ===== src/MemorySafety/Checks.antt =====
-- What the checks of task07-llvm/memory-safety/src/MemorySafetyRuntime.cpp let pass.
use systems_programming_labs.Prelude.{
  ℕ, ◌+◌, ◌≤◌, ◌<◌, ◌≡◌, refl, ◌∙◌, ap, true, false, ◌&&◌, not, Option-cases, none, some, inl, inr,
  ◌⊎◌, [], ◌∷◌, ltb, leb, if◌then◌else◌, add64-eq, sub64-eq, word_size, dec_lt, arith,
}
use systems_programming_labs.MemorySafety.Runtime.{
  MemoryBlock, Blocks, shadow, prev_block, check_next, check_addr,
}
use systems_programming_labs.MemorySafety.Layout.{
  LieApart, Among, Among-bounds, prev_block-in, next_block-first, prev_block-found, prev_block-last,
}

check_addr-prev :
    (blocks : Blocks) (addr size : ℕ) (b : MemoryBlock)
    → prev_block addr blocks ≡ some b
    → b.block_begin + b.size + shadow < word_size
    → addr + size < word_size
    → check_addr blocks addr size ≡ (
        if ltb addr (b.block_begin + b.size + shadow)
        then not b.freed && leb (addr + size) (b.block_begin + b.size)
        else check_next blocks addr)
unfolding check_addr
check_addr-prev blocks addr size b found fits small =
    rw
      (
        found,
        check_addr,
        add64-eq b.block_begin b.size (omega arith),
        add64-eq (b.block_begin + b.size) shadow fits,
        add64-eq addr size small,
      )
      refl

check_addr-next :
    (blocks : Blocks) (addr size : ℕ)
    → prev_block addr blocks ≡ none
    → check_addr blocks addr size ≡ check_next blocks addr
unfolding check_addr
check_addr-next blocks addr size e = rw (e, check_addr) refl

-- Of accesses that begin in a registered block, those pass that end in it while it is not freed, and no
-- others.
pub check_addr-inside :
    (lo : ℕ) (blocks : Blocks) (b : MemoryBlock) (addr size : ℕ)
    → LieApart lo blocks
    → Among b blocks
    → b.block_begin ≤ addr
    → addr < b.block_begin + b.size
    → addr + size < word_size
    → check_addr blocks addr size ≡ (not b.freed && leb (addr + size) (b.block_begin + b.size))
check_addr-inside lo blocks b addr size apart among from to small =
    let bounds = Among-bounds lo blocks b apart among in
    let near : ltb addr (b.block_begin + b.size + shadow) ≡ true = ground arith in
    check_addr-prev blocks addr size b
      (prev_block-in lo addr blocks b apart among from (omega arith)) bounds.2 small
    ∙ rw near refl

-- The address lies in no block.
abbrev pub Outside : ℕ → Blocks → Type 0
Outside addr [] = Unit {0}
Outside addr (b ∷ bs) = ((addr < b.block_begin) ⊎ (b.block_begin + b.size ≤ addr)) × Outside addr bs

Outside-Among :
    (addr : ℕ) (bs : Blocks) (b : MemoryBlock)
    → Outside addr bs
    → Among b bs
    → b.block_begin ≤ addr
    → b.block_begin + b.size ≤ addr
Outside-Among addr [] b o m h = elim m [ ]
Outside-Among addr (c ∷ bs) b o (inl e) h = elim o.0 [
  | inl before ↦ absurd (omega (arith, before, h, ap (λ v. v.block_begin) e))
  | inr behind ↦ rw⁻¹ e behind
]
Outside-Among addr (c ∷ bs) b o (inr m) h = Outside-Among addr bs b o.1 m h

check_next-near :
    (lo : ℕ) (blocks : Blocks) (b : MemoryBlock) (addr : ℕ)
    → LieApart lo blocks
    → Among b blocks
    → addr < b.block_begin
    → b.block_begin ≤ addr + shadow
    → check_next blocks addr ≡ false
unfolding check_next
check_next-near lo blocks b addr apart among before near =
    let (n, found, first, high, small) = next_block-first lo addr blocks b apart among before in
    rw (found, check_next, sub64-eq n.block_begin shadow high small) (ground (arith, first, high))

-- An access of at least one byte that begins in no block but at most 16 bytes before one or less than 16
-- bytes behind one is refused, if the blocks lie apart.
pub check_addr-redzone :
    (lo : ℕ) (blocks : Blocks) (b : MemoryBlock) (addr size : ℕ)
    → LieApart lo blocks
    → Among b blocks
    → Outside addr blocks
    → b.block_begin ≤ addr + shadow
    → addr < b.block_begin + b.size + shadow
    → 0 < size
    → addr + size < word_size
    → check_addr blocks addr size ≡ false
check_addr-redzone lo blocks b addr size apart among outside low high some_byte small =
    elim (Option-cases (prev_block addr blocks)) [
      | inl none_before ↦ alone none_before
      | inr (p, found) ↦ behind p found
    ]
  where
    near_next : addr < b.block_begin → check_next blocks addr ≡ false
    near_next before = check_next-near lo blocks b addr apart among before low

    alone : prev_block addr blocks ≡ none → check_addr blocks addr size ≡ false
    alone none_before = elim (dec_lt addr b.block_begin) [
      | yes before ↦ check_addr-next blocks addr size none_before ∙ near_next before
      | no within ↦
          let last = prev_block-last lo addr blocks b apart among (omega arith) in cc (last.1)
    ]

    behind :
        (p : MemoryBlock) → prev_block addr blocks ≡ some p → check_addr blocks addr size ≡ false
    behind p found =
        let here = prev_block-found addr blocks p found in
        let bounds = Among-bounds lo blocks p apart here.0 in
        let past = Outside-Among addr blocks p outside here.0 here.1 in
        check_addr-prev blocks addr size p found bounds.2 small
        ∙ (elim (dec_lt addr (p.block_begin + p.size + shadow)) [
          | yes inside ↦ ground (arith, inside, past, some_byte)
          | no beyond ↦ elim (dec_lt addr b.block_begin) [
            | yes before ↦ ground (arith, beyond, near_next before)
            | no within ↦
                let (q, is, there, starts, last) =
                  prev_block-last lo addr blocks b apart among (omega arith) in
                let same : p ≡ q = cc in
                let ends = ap (λ v. v.block_begin + v.size) same in
                absurd (omega (arith, beyond, last, high, ends))
          ]
        ])
