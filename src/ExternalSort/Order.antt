-- ===== src/ExternalSort/Order.antt =====
-- The order of lines in task00-sort/src/sort.cpp: `std::string::operator<`, reversed by `-r`.
use systems_programming_labs.Prelude.{
  ℕ, ◌≡◌, refl, Bool, true, false, not, Bool-cases, inl, inr, List, [], ◌∷◌, ◌++◌, ltb,
  if◌then◌else◌, arith,
}
use mathlib.Core.List.{Mem, Perm, forall_mem-cons, mem-append, not-mem-nil}
use mathlib.Core.List.Perm
use mathlib.Core.Logic.Or

abbrev pub Line : Type 0
Line = List ℕ

unfoldable pub less : Line → Line → Bool
less [] [] = false
less [] (y ∷ ys) = true
less (x ∷ xs) [] = false
less (x ∷ xs) (y ∷ ys) =
    let rest = less xs ys in if ltb x y then true else if ltb y x then false else rest

-- `cmp` of `separate`, and `Cmp` with its arguments swapped.
abbrev pub precedes : Bool → Line → Line → Bool
precedes reverse a b = if reverse then less b a else less a b

-- `a` may stand before `b` in the output.
abbrev pub leq : Bool → Line → Line → Bool
leq reverse a b = not (precedes reverse b a)

less_asymm : (a b : Line) → less a b ≡ true → less b a ≡ false
unfolding less
less_asymm [] [] h = refl
less_asymm [] (y ∷ ys) h = refl
less_asymm (x ∷ xs) [] h = cc
less_asymm (x ∷ xs) (y ∷ ys) h = ground (arith, less_asymm xs ys)

-- What is not below something that is not below `a` is not below `a`.
less_neg_trans : (a b c : Line) → less b a ≡ false → less c b ≡ false → less c a ≡ false
unfolding less
less_neg_trans [] [] c h k = k
less_neg_trans [] (y ∷ ys) [] h k = cc
less_neg_trans [] (y ∷ ys) (z ∷ zs) h k = refl
less_neg_trans (x ∷ xs) [] c h k = cc
less_neg_trans (x ∷ xs) (y ∷ ys) [] h k = cc
less_neg_trans (x ∷ xs) (y ∷ ys) (z ∷ zs) h k = ground (arith, less_neg_trans xs ys zs)

pub leq_of_precedes :
    (reverse : Bool) (a b : Line) → precedes reverse a b ≡ true → leq reverse a b ≡ true
leq_of_precedes true a b h = ground (arith, less_asymm b a h)
leq_of_precedes false a b h = ground (arith, less_asymm a b h)

pub leq_trans :
    (reverse : Bool) (a b c : Line)
    → leq reverse a b ≡ true
    → leq reverse b c ≡ true
    → leq reverse a c ≡ true
leq_trans true a b c h k = ground (arith, less_neg_trans c b a)
leq_trans false a b c h k = ground (arith, less_neg_trans a b c)

pub leq_refl : (reverse : Bool) (a : Line) → leq reverse a a ≡ true
leq_refl reverse a = elim (Bool-cases (precedes reverse a a)) [
  | inl h ↦ leq_of_precedes reverse a a h
  | inr h ↦ ground arith
]

-- A line that may stand before all of a list.
abbrev pub Before : Bool → Line → List Line → Type 0
Before reverse a l = (x : Line) → Mem x l → leq reverse a x ≡ true

abbrev pub IsSorted : Bool → List Line → Type 0
IsSorted reverse [] = Unit {0}
IsSorted reverse (a ∷ l) = Before reverse a l × IsSorted reverse l

module _ (reverse : Bool) (a : Line) where
  pub Before-perm : {l r : List Line} → Perm l r → Before reverse a r → Before reverse a l
  Before-perm p h x m = h x ((Perm.mem_iff p).0 m)

  pub Before-cons :
      {b : Line} {l : List Line}
      → leq reverse a b ≡ true
      → Before reverse a l
      → Before reverse a (b ∷ l)
  Before-cons p h = (forall_mem-cons (λ x. hlevel)).1 (p, h)

  pub Before-trans :
      (b : Line) {l : List Line} → leq reverse a b ≡ true → Before reverse b l → Before reverse a l
  Before-trans b p h x m = leq_trans reverse a b x p (h x m)

  pub Before-append :
      {l r : List Line} → Before reverse a l → Before reverse a r → Before reverse a (l ++ r)
  Before-append p q x m = Or.elim (hlevel) (mem-append.0 m) (p x) (q x)

  pub Before-uncons :
      {b : Line} {l : List Line}
      → Before reverse a (b ∷ l)
      → (leq reverse a b ≡ true) × Before reverse a l
  Before-uncons h = (forall_mem-cons (λ x. hlevel)).0 h

  pub Before-nil : Before reverse a []
  Before-nil x m = absurd (not-mem-nil m)
