-- ===== src/Allocator/FirstFit.antt =====
-- `first_fit` of `Model` finds the first free block that is large enough.
use systems_programming_labs.Prelude.{
  ℕ, ◌≡◌, refl, true, false, Bool-cases, Option, none, some, inl, inr, List, [], ◌∷◌, ap,
}
use systems_programming_labs.Allocator.Model.{Block, Place, whole, fits, first_fit}

-- No block of the list fits.
abbrev pub NoneFits : ℕ → List Block → Type 0
NoneFits n [] = Unit {0}
NoneFits n (b ∷ bs) = (fits n b ≡ false) × NoneFits n bs

pub record IsFirst (n : ℕ) (bs : List Block) (p : Place) : Type 0 where
  pub split : bs ≡ whole p
  pub fit : fits n p.block ≡ true
  pub before : NoneFits n p.before

-- What an answer of the search means.
abbrev pub Found : ℕ → List Block → Option Place → Type 0
Found n bs none = NoneFits n bs
Found n bs (some p) = IsFirst n bs p

pub first_fit-Found : (n : ℕ) (bs : List Block) → Found n bs (first_fit n bs)
unfolding first_fit
first_fit-Found n [] = tt
first_fit-Found n (b ∷ bs) = elim (Bool-cases (fits n b)) [
  | inl hit ↦ rw hit (record { split = refl; fit = hit; before = tt })
  | inr miss ↦ rw miss (later (first_fit n bs) (first_fit-Found n bs) miss)
]
  where
    later :
        (o : Option Place)
        → Found n bs o
        → fits n b ≡ false
        → Found n (b ∷ bs) (elim o [
          | none ↦ none
          | some p ↦ some (record { before = b ∷ p.before; block = p.block; after = p.after })
        ])
    later none f miss = (miss, f)
    later (some p) f miss = record {
      split = ap (λ r. b ∷ r) f.split;
      fit = f.fit;
      before = (miss, f.before);
    }
