-- ===== src/Allocator/Refine/Linked.antt =====
-- A doubly linked run of headers of task05-memory/src/allocator.c that stands for a list of blocks.
use systems_programming_labs.Prelude.{
  ℕ, ◌≤◌, ◌<◌, ◌≡◌, refl, Option, some, List, [], ◌∷◌, ◌++◌, ◌∙◌, arith,
}
use systems_programming_labs.Allocator.Heap.{Ptr, BlockHeader}
use systems_programming_labs.Allocator.Model.{Block, end_of, Ordered}

abbrev pub first : List Block → Ptr → Ptr
first [] stop = stop
first (b ∷ bs) stop = b.addr

abbrev pub last : List Block → Ptr → Ptr
last [] start = start
last (b ∷ bs) start = last bs b.addr

-- The header of a block of arena `i` between the neighbours `prev` and `next`.
abbrev pub header_of : ℕ → Block → Ptr → Ptr → BlockHeader
header_of i b prev next = record {
  arena = i;
  freed = b.freed;
  size = b.size;
  prev = prev;
  next = next;
}

abbrev pub Headers : Type 0
Headers = Ptr → Option BlockHeader

pub data Linked (hd : Headers) (i : ℕ) (stop : Ptr) : Ptr → List Block → Type 0 where
  nil : {prev : Ptr} → Linked hd i stop prev []
  cons :
      {prev : Ptr} {b : Block} {bs : List Block}
      → hd b.addr ≡ some (header_of i b prev (first bs stop))
      → Linked hd i stop b.addr bs
      → Linked hd i stop prev (b ∷ bs)

pub Ordered-le : (lo : ℕ) (xs : List Block) (hi : ℕ) → Ordered lo xs hi → lo ≤ hi
Ordered-le lo [] hi o = o
Ordered-le lo (x ∷ xs) hi o = omega (arith, Ordered-le (end_of x) xs hi o.1)

pub Ordered-append :
    (lo : ℕ) (xs ys : List Block) (mid hi : ℕ)
    → Ordered lo xs mid
    → Ordered mid ys hi
    → Ordered lo (xs ++ ys) hi
Ordered-append lo [] [] mid hi o p = omega arith
Ordered-append lo [] (y ∷ ys) mid hi o p = (omega arith, p.1)
Ordered-append lo (x ∷ xs) ys mid hi o p = (o.0, Ordered-append (end_of x) xs ys mid hi o.1 p)

pub Ordered-front :
    (lo : ℕ) (xs ys : List Block) (hi : ℕ) → Ordered lo (xs ++ ys) hi → Ordered lo xs (first ys hi)
Ordered-front lo [] [] hi o = o
Ordered-front lo [] (y ∷ ys) hi o = o.0
Ordered-front lo (x ∷ xs) ys hi o = (o.0, Ordered-front (end_of x) xs ys hi o.1)

-- The part behind `xs` starts at or after every bound that `xs` respects.
pub Ordered-back :
    (lo : ℕ) (xs : List Block) (y : Block) (ys : List Block) (hi : ℕ)
    → Ordered lo (xs ++ (y ∷ ys)) hi
    → (lo ≤ y.addr) × Ordered y.addr (y ∷ ys) hi
Ordered-back lo [] y ys hi o = (o.0, (omega arith, o.1))
Ordered-back lo (x ∷ xs) y ys hi o =
    let rest = Ordered-back (end_of x) xs y ys hi o.1 in (omega arith, rest.1)

pub last-append :
    (xs ys : List Block) (start : Ptr) → last (xs ++ ys) start ≡ last ys (last xs start)
last-append [] ys start = refl
last-append (x ∷ xs) ys start = last-append xs ys x.addr

pub first-append :
    (xs ys : List Block) (stop : Ptr) → first (xs ++ ys) stop ≡ first xs (first ys stop)
first-append [] ys stop = refl
first-append (x ∷ xs) ys stop = refl

module _ {hd : Headers} {i : ℕ} {stop : Ptr} where
  pub Linked-append :
      {ys : List Block} {prev : Ptr} {xs : List Block}
      → Linked hd i (first ys stop) prev xs
      → Linked hd i stop (last xs prev) ys
      → Linked hd i stop prev (xs ++ ys)
  Linked-append nil m = m
  Linked-append {ys} (cons {b} {bs} e l) m =
      cons (rw (first-append bs ys stop) e) (Linked-append l m)

  pub Linked-front :
      {prev : Ptr} (xs ys : List Block)
      → Linked hd i stop prev (xs ++ ys)
      → Linked hd i (first ys stop) prev xs
  Linked-front [] ys l = nil
  Linked-front (x ∷ xs) ys (cons e l) =
      cons (rw (← first-append xs ys stop) e) (Linked-front xs ys l)

  pub Linked-back :
      {prev : Ptr} (xs : List Block) {ys : List Block}
      → Linked hd i stop prev (xs ++ ys)
      → Linked hd i stop (last xs prev) ys
  Linked-back [] l = l
  Linked-back (x ∷ xs) (cons e l) = Linked-back xs l

  -- A run keeps through any change of headers outside its span.
  pub Linked-frame :
      {g : Headers} {prev : Ptr} (lo hi : ℕ) {xs : List Block}
      → Ordered lo xs hi
      → ((a : Ptr) → lo ≤ a → a < hi → g a ≡ hd a)
      → Linked hd i stop prev xs
      → Linked g i stop prev xs
  Linked-frame lo hi o same nil = nil
  Linked-frame lo hi o same (cons {b} {bs} e l) =
      cons (same b.addr o.0 (omega (arith, Ordered-le (end_of b) bs hi o.1)) ∙ e)
        (Linked-frame (end_of b) hi o.1 (λ a p q. same a (omega arith) q) l)
