-- ===== src/Allocator/Refine/Search.antt =====
-- The loop of `first_hit` in task05-memory/src/allocator.c against `first_fit`.
use systems_programming_labs.Prelude.{
  ℕ, zero, suc, ◌<◌, ◌≡◌, refl, false, Bool-cases, Option, none, some, inl, inr, List, [], ◌∷◌,
  ◌==◌, ap, ◌∙◌, arith, length,
}
use systems_programming_labs.Allocator.Heap.{Ptr, null, Heap}
use systems_programming_labs.Allocator.Ops.{first_hit}
use systems_programming_labs.Allocator.Model.{Place, Block, end_of, Ordered, fits, first_fit}
use systems_programming_labs.Allocator.Refine.Write.{load_lem}
use systems_programming_labs.Allocator.Refine.Linked.{first, Linked, cons}

abbrev pub address : Option Place → Ptr
address none = null
address (some p) = p.block.addr

-- With more rounds than blocks the loop returns the address of the first fit, and writes nothing.
pub first_hit-first_fit :
    (n i lo hi : ℕ) (h : Heap) (rounds : ℕ) {p : Ptr} (bs : List Block)
    → 0 < lo
    → Ordered lo bs hi
    → Linked h.header i null p bs
    → length bs < rounds
    → first_hit rounds (first bs null) n h ≡ some (address (first_fit n bs), h)
unfolding first_hit first_fit fits
first_hit-first_fit n i lo hi h zero bs pos ord l enough = absurd (omega arith)
first_hit-first_fit n i lo hi h (suc k) [] pos ord l enough = refl
first_hit-first_fit n i lo hi h (suc k) (b ∷ bs) pos ord (cons e l) enough =
    let ne : (b.addr == null) ≡ false = ground arith in
    let ih = first_hit-first_fit n i (end_of b) hi h k bs (omega arith) ord.1 l (omega arith) in
    rw (ne, load_lem h b.addr e)
      (elim (Bool-cases (fits n b)) [
        | inl hit ↦ rw hit refl
        | inr miss ↦ rw miss (ih ∙ ap (λ a. some (a, h)) (shift (first_fit n bs)))
      ])
  where
    shift :
        (o : Option Place)
        → address o
          ≡ address (elim o [
            | none ↦ none
            | some p ↦ some (record { before = b ∷ p.before; block = p.block; after = p.after })
          ])
    shift none = refl
    shift (some p) = refl
