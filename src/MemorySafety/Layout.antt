-- ===== src/MemorySafety/Layout.antt =====
-- Blocks that lie apart, for task07-llvm/memory-safety/src/MemorySafetyRuntime.cpp.
use systems_programming_labs.Prelude.{
  ℕ, ◌+◌, ◌≤◌, ◌<◌, ◌≡◌, refl, subst, ap, true, false, Bool-cases, Option-cases, none, some, inl,
  inr, ◌⊎◌, [], ◌∷◌, leb, word_size, max, arith,
}
use systems_programming_labs.MemorySafety.Runtime.{
  MemoryBlock, Blocks, shadow, prev_block, next_block,
}

-- The blocks begin at `lo` or behind, one behind the other without overlap, and away from the ends of the
-- address space.
abbrev pub LieApart : ℕ → Blocks → Type 0
LieApart lo [] = Unit {0}
LieApart lo (b ∷ bs) =
    (lo ≤ b.block_begin)
    × (shadow ≤ b.block_begin)
    × (b.block_begin + b.size + shadow < word_size)
    × LieApart (max (b.block_begin + 1) (b.block_begin + b.size)) bs

-- One of the blocks.
abbrev pub Among : MemoryBlock → Blocks → Type 0
Among b [] = ⊥
Among b (c ∷ bs) = (c ≡ b) ⊎ Among b bs

LieApart-down : (lo lo' : ℕ) (bs : Blocks) → lo' ≤ lo → LieApart lo bs → LieApart lo' bs
LieApart-down lo lo' [] h l = tt
LieApart-down lo lo' (b ∷ bs) h l = (omega (arith, l.0), l.1, l.2, l.3)

pub Among-bounds :
    (lo : ℕ) (bs : Blocks) (b : MemoryBlock)
    → LieApart lo bs
    → Among b bs
    → (lo ≤ b.block_begin)
      × (shadow ≤ b.block_begin)
      × (b.block_begin + b.size + shadow < word_size)
Among-bounds lo [] b l m = elim m [ ]
Among-bounds lo (c ∷ bs) b l (inl e) = rw⁻¹ e (l.0, l.1, l.2)
Among-bounds lo (c ∷ bs) b l (inr m) =
    let ih = Among-bounds (max (c.block_begin + 1) (c.block_begin + c.size)) bs b l.3 m in
    (omega (arith, l.0, ih.0), ih.1, ih.2)

prev_block-none :
    (lo addr : ℕ) (bs : Blocks) → LieApart lo bs → addr < lo → prev_block addr bs ≡ none
unfolding prev_block
prev_block-none lo addr [] l h = refl
prev_block-none lo addr (b ∷ bs) l h =
    let later : leb b.block_begin addr ≡ false = ground (arith, l.0, h) in rw later refl

-- The block that an address lies in is the one that is found.
pub prev_block-in :
    (lo addr : ℕ) (bs : Blocks) (b : MemoryBlock)
    → LieApart lo bs
    → Among b bs
    → b.block_begin ≤ addr
    → addr < max (b.block_begin + 1) (b.block_begin + b.size)
    → prev_block addr bs ≡ some b
unfolding prev_block
prev_block-in lo addr [] b l m h k = elim m [ ]
prev_block-in lo addr (c ∷ bs) b l (inl e) h k =
    let none_later =
      prev_block-none (max (c.block_begin + 1) (c.block_begin + c.size)) addr bs l.3 (rw e k) in
    let here : leb c.block_begin addr ≡ true = ground (arith, ap (λ v. v.block_begin) e) in
    rw (none_later, here) (ap some e)
prev_block-in lo addr (c ∷ bs) b l (inr m) h k =
    let ih = prev_block-in (max (c.block_begin + 1) (c.block_begin + c.size)) addr bs b l.3 m h k in
    let bounds = Among-bounds (max (c.block_begin + 1) (c.block_begin + c.size)) bs b l.3 m in
    let before : leb c.block_begin addr ≡ true = ground (arith, bounds.0) in rw (ih, before) refl

-- The block that is found is one of the blocks, and begins at the address or before.
pub prev_block-found :
    (addr : ℕ) (bs : Blocks) (p : MemoryBlock)
    → prev_block addr bs ≡ some p
    → Among p bs × (p.block_begin ≤ addr)
unfolding prev_block
prev_block-found addr [] p e = cc
prev_block-found addr (c ∷ bs) p e = elim (Bool-cases (leb c.block_begin addr)) [
  | inr behind ↦ ground (arith, behind)
  | inl before ↦ elim (Option-cases (prev_block addr bs)) [
    | inl none_later ↦
        let q : c ≡ p = ground (arith, before, none_later) in
        (inl q, rw⁻¹ q (ground (arith, before)))
    | inr (r, is) ↦
        let q : r ≡ p = ground (arith, before, is) in
        let ih = prev_block-found addr bs r is in
        (inr (subst (λ v. Among v bs) q ih.0), subst (λ v. v.block_begin ≤ addr) q ih.1)
  ]
]

-- Every block that begins behind the address comes no earlier than the next one.
pub next_block-first :
    (lo addr : ℕ) (bs : Blocks) (b : MemoryBlock)
    → LieApart lo bs
    → Among b bs
    → addr < b.block_begin
    → (n : MemoryBlock) × (next_block addr bs ≡ some n)
      × (n.block_begin ≤ b.block_begin)
      × (shadow ≤ n.block_begin)
      × (n.block_begin < word_size)
unfolding next_block
next_block-first lo addr [] b l m h = elim m [ ]
next_block-first lo addr (c ∷ bs) b l m h = elim (Bool-cases (leb c.block_begin addr)) [
  | inr behind ↦ (c, rw behind refl, first m, l.1, omega (arith, l.2))
  | inl before ↦
      let ih =
        next_block-first (max (c.block_begin + 1) (c.block_begin + c.size)) addr bs b l.3
          (later before m) h in
      (ih.0, rw before ih.1, ih.2, ih.3, ih.4)
]
  where
    first : Among b (c ∷ bs) → c.block_begin ≤ b.block_begin
    first (inl e) = rw e (omega arith)
    first (inr m) =
        omega
          (arith, (Among-bounds (max (c.block_begin + 1) (c.block_begin + c.size)) bs b l.3 m).0)

    later : leb c.block_begin addr ≡ true → Among b (c ∷ bs) → Among b bs
    later before (inl e) = absurd (ground (arith, before, h, ap (λ v. v.block_begin) e))
    later before (inr m) = m

-- The block that is found before an address is one of the blocks, and every other that begins before the
-- address ends before it begins.
pub prev_block-last :
    (lo addr : ℕ) (bs : Blocks) (b : MemoryBlock)
    → LieApart lo bs
    → Among b bs
    → b.block_begin ≤ addr
    → (p : MemoryBlock) × (prev_block addr bs ≡ some p)
      × Among p bs
      × (p.block_begin ≤ addr)
      × (b.block_begin + b.size ≤ p.block_begin + p.size)
unfolding prev_block
prev_block-last lo addr [] b l m h = elim m [ ]
prev_block-last lo addr (c ∷ bs) b l (inr m) h =
    let ih = prev_block-last (max (c.block_begin + 1) (c.block_begin + c.size)) addr bs b l.3 m h in
    let bounds = Among-bounds (max (c.block_begin + 1) (c.block_begin + c.size)) bs b l.3 m in
    let before : leb c.block_begin addr ≡ true = ground (arith, bounds.0) in
    (ih.0, rw (before, ih.1) refl, inr ih.2, ih.3, ih.4)
prev_block-last lo addr (c ∷ bs) b l (inl e) h =
    let before : leb c.block_begin addr ≡ true = ground (arith, ap (λ v. v.block_begin) e) in
    elim (Option-cases (prev_block addr bs)) [
      | inl none_later ↦ (c, rw (before, none_later) refl, inl refl, rw e h, rw e (omega arith))
      | inr (p, is) ↦
          let found = prev_block-found addr bs p is in
          let bounds =
            Among-bounds (max (c.block_begin + 1) (c.block_begin + c.size)) bs p l.3 found.0 in
          (p, rw (before, is) refl, inr found.0, found.1, rw⁻¹ e (omega (arith, bounds.0)))
    ]
