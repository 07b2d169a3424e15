-- ===== src/Allocator/Refine/Context.antt =====
-- From the end of an arena's list to the whole list, and the `freed` flag of one block.
use systems_programming_labs.Prelude.{ℕ, ◌≤◌, ◌≡◌, refl, Bool, List, [], ◌∷◌, ◌++◌, arith}
use systems_programming_labs.Allocator.Heap.{Ptr, null, Heap, Run, set_freed}
use systems_programming_labs.Allocator.Model.{Block, end_of, Ordered}
use systems_programming_labs.Allocator.Refine.Returns
use systems_programming_labs.Allocator.Refine.Returns.{Returns, returns}
use systems_programming_labs.Allocator.Refine.Write.{set_freed_lem}
use systems_programming_labs.Allocator.Refine.Linked.{
  first, last, Linked, cons, Linked-frame, Ordered-le, Ordered-front, Ordered-back,
}
use systems_programming_labs.Allocator.Refine.Frame.{
  Suffix, Only, Only-widen, Only-header, Suffix-back, Suffix-append,
}

-- A block may be replaced by one of the same place and extent.
pub Ordered-replace :
    (lo : ℕ) (xs : List Block) (b c : Block) (ys : List Block) (hi : ℕ)
    → c.addr ≡ b.addr
    → c.size ≡ b.size
    → Ordered lo (xs ++ (b ∷ ys)) hi
    → Ordered lo (xs ++ (c ∷ ys)) hi
Ordered-replace lo [] b c ys hi p q o =
    let same : end_of c ≡ end_of b = omega arith in (omega arith, rw same o.1)
Ordered-replace lo (x ∷ xs) b c ys hi p q o = (o.0, Ordered-replace (end_of x) xs b c ys hi p q o.1)

-- A command on the list's end from `b` on, seen in the whole list.
pub in_context :
    {A : Type 0} {P : A → Type 0} (i lo hi : ℕ) (h : Heap) (p : Ptr) (xs : List Block) (b : Block)
    (ys zs : List Block) {r : Run A}
    → Ordered lo (xs ++ (b ∷ ys)) hi
    → Suffix h i p (xs ++ (b ∷ ys))
    → first zs null ≡ b.addr
    → Returns (λ a g. P a × Suffix g i (last xs p) zs × Only i b.addr hi h g) r
    → Returns (λ a g. P a × Suffix g i p (xs ++ zs) × Only i lo hi h g) r
in_context i lo hi h p xs b ys zs ord s same run = Returns.weaken run λ a g (pa, sx, o). (
  pa,
  Suffix-append o lo {prev = p} xs zs (b ∷ ys) (Ordered-front lo xs (b ∷ ys) hi ord) same s sx,
  Only-widen o lo hi (Ordered-back lo xs b ys hi ord).0 (omega arith),
)

module _ (i lo hi : ℕ) (h : Heap) (p : Ptr) (b : Block) (ys : List Block) (f : Bool) where
  set_freed-first :
      Ordered lo (b ∷ ys) hi
      → Suffix h i p (b ∷ ys)
      → Returns
          (λ _ g. Suffix g i p (record b { freed = f } ∷ ys) × Only i b.addr hi h g)
          (set_freed b.addr f h)
  set_freed-first ord s = go s.linked
    where
      inside : end_of b ≤ hi
      inside = Ordered-le (end_of b) ys hi ord.1

      go :
          Linked h.header i null p (b ∷ ys)
          → Returns
              (λ _ g. Suffix g i p (record b { freed = f } ∷ ys) × Only i b.addr hi h g)
              (set_freed b.addr f h)
      go (cons e l) = rw (set_freed_lem h b.addr e f) (
          returns (
            record {
              linked =
                  cons (ground arith) (Linked-frame (end_of b) hi ord.1 (λ a u v. ground arith) l);
              tail = s.tail;
            },
            Only-header i b.addr hi h b.addr _ (omega arith) (omega (arith, inside)),
          ))

pub set_freed-Suffix :
    (i lo hi : ℕ) (h : Heap) (p : Ptr) (xs : List Block) (b : Block) (ys : List Block) (f : Bool)
    → Ordered lo (xs ++ (b ∷ ys)) hi
    → Suffix h i p (xs ++ (b ∷ ys))
    → Returns
        (λ _ g. Suffix g i p (xs ++ (record b { freed = f } ∷ ys)) × Only i lo hi h g)
        (set_freed b.addr f h)
set_freed-Suffix i lo hi h p xs b ys f ord s =
    Returns.weaken
      (in_context {P = λ _. Unit {0}} i lo hi h p xs b ys _ ord s refl (
        Returns.weaken
          (set_freed-first i b.addr hi h (last xs p) b ys f (Ordered-back lo xs b ys hi ord).1
            (Suffix-back xs s))
          λ a g (t, o). (tt, t, o)))
      λ a g (u, t, o). (t, o)
