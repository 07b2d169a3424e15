-- ===== src/Allocator/Resize.antt =====
-- The block lists of `arena_realloc` in task05-memory/src/allocator.c: a block in use that takes in the free
-- block behind it, and that is then carved.
use systems_programming_labs.Prelude.{
  ℕ, ◌+◌, ◌%◌, ◌≤◌, ◌≡◌, refl, sym, ◌∙◌, true, false, Bool-cases, inl, inr, List, [], ◌∷◌, ◌++◌,
  ◌&&◌, ◌==◌, length, arith,
}
use systems_programming_labs.Allocator.Heap.{header_size}
use systems_programming_labs.Allocator.Model.{Block, end_of, carve, in_use, absorb, Ordered}
use systems_programming_labs.Allocator.Carve.{carve_parts, Ordered-carve}
use systems_programming_labs.Allocator.Layout.{
  joins, Coalesced, Coalesced-absorb, Coalesced-carve, joins-absorb,
}
use systems_programming_labs.Allocator.Live.{live, live-freed}
use systems_programming_labs.Allocator.Refine.Free.{Ordered-absorb}
use systems_programming_labs.Allocator.Sound.{Aligned, Aligned-absorb, Aligned-carve, Sound}

-- A block in use behind `xs` takes in what follows it.
pub absorb-Sound :
    (lo : ℕ) (xs : List Block) (b : Block) (ys : List Block) (hi : ℕ)
    → Sound lo (xs ++ (b ∷ ys)) hi
    → Sound lo (xs ++ absorb b ys) hi
absorb-Sound lo xs b ys hi s = record {
  ordered = ordered lo xs s.ordered;
  aligned = aligned xs s.aligned;
  coalesced = coalesced xs s.coalesced;
}
  where
    ordered :
        (lo : ℕ) (xs : List Block)
        → Ordered lo (xs ++ (b ∷ ys)) hi
        → Ordered lo (xs ++ absorb b ys) hi
    ordered lo [] o = Ordered-absorb lo b ys hi o
    ordered lo (x ∷ xs) o = (o.0, ordered (end_of x) xs o.1)

    aligned : (xs : List Block) → Aligned (xs ++ (b ∷ ys)) → Aligned (xs ++ absorb b ys)
    aligned [] a = Aligned-absorb b ys a
    aligned (x ∷ xs) a = (a.0, a.1, aligned xs a.2)

    coalesced : (xs : List Block) → Coalesced (xs ++ (b ∷ ys)) → Coalesced (xs ++ absorb b ys)
    coalesced [] c = Coalesced-absorb b ys c.1
    coalesced (x ∷ []) c = (joins-absorb x b ys ys ∙ c.0, Coalesced-absorb b ys c.1.1)
    coalesced (x ∷ x' ∷ xs) c = (c.0, coalesced (x' ∷ xs) c.1)

-- The block of `absorb`, which is as large or larger, and what stays behind it; were it free, it would touch
-- no free block.
pub record Absorbed (b : Block) (ys : List Block) : Type 0 where
  pub size : ℕ
  pub rest : List Block
  pub is : absorb (in_use b) ys ≡ in_use (record b { size = size }) ∷ rest
  pub grown : b.size ≤ size
  pub lives : live rest ≡ live ys
  pub shorter : length rest ≤ length ys
  pub quiet : joins (record b { size = size; freed = true }) rest ≡ false

pub absorb-Absorbed : (b : Block) (ys : List Block) → Coalesced ys → Absorbed b ys
unfolding absorb in_use
absorb-Absorbed b [] c = record {
  size = b.size;
  rest = [];
  is = refl;
  grown = omega arith;
  lives = refl;
  shorter = omega arith;
  quiet = refl;
}
absorb-Absorbed b (n ∷ ys) c = elim (Bool-cases (n.freed && (end_of b == n.addr))) [
  | inl next ↦ record {
    size = b.size + (header_size + n.size);
    rest = ys;
    is = rw next refl;
    grown = omega arith;
    lives = sym (live-freed n ys (ground (arith, next)));
    shorter = omega arith;
    quiet = after ys c.0 (ground (arith, next)) (ground (arith, next));
  }
  | inr apart ↦ record {
    size = b.size;
    rest = n ∷ ys;
    is = rw apart refl;
    grown = omega arith;
    lives = refl;
    shorter = omega arith;
    quiet = apart;
  }
]
  where
    after :
        (zs : List Block)
        → joins n zs ≡ false
        → n.freed ≡ true
        → end_of b ≡ n.addr
        → joins (record b { size = b.size + (header_size + n.size); freed = true }) zs ≡ false
    after [] e f t = refl
    after (z ∷ zs) e f t = ground (arith, e, f, t)

-- Carving a block in use behind `xs`.
pub carve-Sound :
    (lo n : ℕ) (xs : List Block) (b : Block) (ys : List Block) (hi : ℕ)
    → n % 8 ≡ 0
    → n ≤ b.size
    → joins (record b { freed = true }) ys ≡ false
    → Sound lo (xs ++ (in_use b ∷ ys)) hi
    → Sound lo (xs ++ (carve n (in_use b) ++ ys)) hi
unfolding in_use
carve-Sound lo n xs b ys hi words fit quiet s = record {
  ordered = ordered lo xs s.ordered;
  aligned = aligned xs s.aligned;
  coalesced = coalesced xs s.coalesced;
}
  where
    ordered :
        (lo : ℕ) (xs : List Block)
        → Ordered lo (xs ++ (in_use b ∷ ys)) hi
        → Ordered lo (xs ++ (carve n (in_use b) ++ ys)) hi
    ordered lo [] o = Ordered-carve lo n (in_use b) ys hi fit o
    ordered lo (x ∷ xs) o = (o.0, ordered (end_of x) xs o.1)

    aligned :
        (xs : List Block)
        → Aligned (xs ++ (in_use b ∷ ys))
        → Aligned (xs ++ (carve n (in_use b) ++ ys))
    aligned [] a = Aligned-carve n (in_use b) ys words a
    aligned (x ∷ xs) a = (a.0, a.1, aligned xs a.2)

    inner : Coalesced ys → Coalesced (carve n (in_use b) ++ ys)
    inner c = Coalesced-carve n (record b { freed = true }) ys fit refl (quiet, c)

    coalesced :
        (xs : List Block)
        → Coalesced (xs ++ (in_use b ∷ ys))
        → Coalesced (xs ++ (carve n (in_use b) ++ ys))
    coalesced [] c = inner c.1
    coalesced (x ∷ []) c = (rw (carve_parts n (in_use b)) (ground arith), inner c.1.1)
    coalesced (x ∷ x' ∷ xs) c = (c.0, coalesced (x' ∷ xs) c.1)

pub Coalesced-back :
    (xs : List Block) (b : Block) (ys : List Block) → Coalesced (xs ++ (b ∷ ys)) → Coalesced ys
Coalesced-back [] b ys c = c.1
Coalesced-back (x ∷ xs) b ys c = Coalesced-back xs b ys c.1
