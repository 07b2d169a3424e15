-- ===== src/ExternalSort/Sorting.antt =====
-- `std::sort` as task00-sort/src/sort.cpp uses it, and the lines that are written of a sorted list.
use systems_programming_labs.Prelude.{
  ◌≡◌, refl, Bool, true, false, Bool-cases, inl, inr, List, [], ◌∷◌, arith,
}
use mathlib.Core.List.{Perm, map}
use mathlib.Core.List.Perm
use systems_programming_labs.ExternalSort.Order.{
  Line, less, precedes, leq, leq_of_precedes, Before, IsSorted, Before-perm, Before-cons,
  Before-trans, Before-uncons, Before-nil,
}
use systems_programming_labs.ExternalSort.Files.{c_str}
use systems_programming_labs.ExternalSort.Program.{insert_sorted, sort}

insert_sorted-perm :
    (reverse : Bool) (a : Line) (l : List Line) → Perm (insert_sorted reverse a l) (a ∷ l)
unfolding insert_sorted
insert_sorted-perm reverse a [] = Perm.rfl
insert_sorted-perm reverse a (b ∷ l) = elim (Bool-cases (precedes reverse b a)) [
  | inl earlier ↦
      rw earlier (Perm.trans (Perm.cons b (insert_sorted-perm reverse a l)) (Perm.swap a b l))
  | inr later ↦ rw later Perm.rfl
]

insert_sorted-IsSorted :
    (reverse : Bool) (a : Line) (l : List Line)
    → IsSorted reverse l
    → IsSorted reverse (insert_sorted reverse a l)
unfolding insert_sorted
insert_sorted-IsSorted reverse a [] s = (Before-nil reverse a, tt)
insert_sorted-IsSorted reverse a (b ∷ l) s = elim (Bool-cases (precedes reverse b a)) [
  | inl earlier ↦ rw earlier (
    Before-perm reverse b (insert_sorted-perm reverse a l)
        (Before-cons reverse b (leq_of_precedes reverse b a earlier) s.0),
    insert_sorted-IsSorted reverse a l s.1,
  )
  | inr later ↦
      let here : leq reverse a b ≡ true = ground arith in
      rw later (Before-cons reverse a here (Before-trans reverse a b here s.0), s)
]

pub sort-perm : (reverse : Bool) (l : List Line) → Perm (sort reverse l) l
unfolding sort
sort-perm reverse [] = Perm.rfl
sort-perm reverse (a ∷ l) =
    Perm.trans (insert_sorted-perm reverse a (sort reverse l)) (Perm.cons a (sort-perm reverse l))

pub sort-IsSorted : (reverse : Bool) (l : List Line) → IsSorted reverse (sort reverse l)
unfolding sort
sort-IsSorted reverse [] = tt
sort-IsSorted reverse (a ∷ l) =
    insert_sorted-IsSorted reverse a (sort reverse l) (sort-IsSorted reverse l)

-- A NUL is the least byte, so cutting lines at it keeps their order.
less-c_str : (a b : Line) → less (c_str a) (c_str b) ≡ true → less a b ≡ true
unfolding less c_str
less-c_str [] [] h = h
less-c_str [] (y ∷ ys) h = refl
less-c_str (x ∷ xs) [] h = ground arith
less-c_str (x ∷ xs) (y ∷ ys) h = ground (arith, less-c_str xs ys)

leq-c_str :
    (reverse : Bool) (a b : Line) → leq reverse a b ≡ true → leq reverse (c_str a) (c_str b) ≡ true
leq-c_str true a b h = ground (arith, less-c_str a b)
leq-c_str false a b h = ground (arith, less-c_str b a)

Before-c_str :
    (reverse : Bool) (a : Line) (l : List Line)
    → Before reverse a l
    → Before reverse (c_str a) (map c_str l)
Before-c_str reverse a [] h = Before-nil reverse (c_str a)
Before-c_str reverse a (b ∷ l) h =
    let parts = Before-uncons reverse a h in
    Before-cons reverse (c_str a) (leq-c_str reverse a b parts.0) (Before-c_str reverse a l parts.1)

pub IsSorted-c_str :
    (reverse : Bool) (l : List Line) → IsSorted reverse l → IsSorted reverse (map c_str l)
IsSorted-c_str reverse [] s = tt
IsSorted-c_str reverse (a ∷ l) s = (Before-c_str reverse a l s.0, IsSorted-c_str reverse l s.1)
