-- ===== src/ExternalSort/Queue.antt =====
-- The priority queue of `merge` in task00-sort/src/sort.cpp. Of equal lines at the top either may come
-- first; here it is the one that was pushed first.
use systems_programming_labs.Prelude.{
  ◌≡◌, refl, ap, Bool, true, Bool-cases, Option-cases, Option, none, some, inl, inr, List, [], ◌∷◌,
  ◌++◌, if◌then◌else◌, arith,
}
use mathlib.Core.List.{map}
use systems_programming_labs.ExternalSort.Order.{
  Line, precedes, leq, leq_of_precedes, leq_refl, leq_trans,
}

-- A line with where it comes from.
abbrev pub Keyed : Type 0 → Type 0
Keyed F = Line × F

module _ {F : Type 0} where
  -- `top` and `pop`
  unfoldable pub pop_top : Bool → List (Keyed F) → Option (Keyed F × List (Keyed F))
  pop_top reverse [] = none
  pop_top reverse (n ∷ q) = elim (pop_top reverse q) [
    | none ↦ some (n, [])
    | some (m, rest) ↦ if precedes reverse m.0 n.0 then some (m, n ∷ rest) else some (n, q)
  ]

  pub strings : List (Keyed F) → List Line
  strings q = map (λ n. n.0) q

  -- The line may stand before those on the queue.
  abbrev pub HeadsAfter : Bool → Line → List (Keyed F) → Type 0
  HeadsAfter reverse s [] = Unit {0}
  HeadsAfter reverse s (n ∷ q) = (leq reverse s n.0 ≡ true) × HeadsAfter reverse s q

  HeadsAfter-trans :
      (reverse : Bool) (s t : Line) (q : List (Keyed F))
      → leq reverse s t ≡ true
      → HeadsAfter reverse t q
      → HeadsAfter reverse s q
  HeadsAfter-trans reverse s t [] p h = tt
  HeadsAfter-trans reverse s t (n ∷ q) p h =
      (leq_trans reverse s t n.0 p h.0, HeadsAfter-trans reverse s t q p h.1)

  pub pop_top-none : (reverse : Bool) (q : List (Keyed F)) → pop_top reverse q ≡ none → q ≡ []
  unfolding pop_top
  pop_top-none reverse [] e = refl
  pop_top-none reverse (n ∷ q) e = elim (Option-cases (pop_top reverse q)) [
    | inl empty ↦ ground (arith, empty)
    | inr ((m, rest), is) ↦ ground (arith, is)
  ]

  -- What `pop_top` takes is one of the queue, and stands before the others.
  pub record Popped (reverse : Bool) (q : List (Keyed F)) (m : Keyed F) (rest : List (Keyed F))
      : Type 0 where
    pub before : List (Keyed F)
    pub behind : List (Keyed F)
    pub whole : q ≡ before ++ (m ∷ behind)
    pub left : rest ≡ before ++ behind
    pub first : HeadsAfter reverse m.0 rest
    pub all : HeadsAfter reverse m.0 q

  pub pop_top-Popped :
      (reverse : Bool) (q : List (Keyed F)) (m : Keyed F) (rest : List (Keyed F))
      → pop_top reverse q ≡ some (m, rest)
      → Popped reverse q m rest
  unfolding pop_top
  pop_top-Popped reverse [] m rest e = cc
  pop_top-Popped reverse (n ∷ q) m rest e = elim (Option-cases (pop_top reverse q)) [
    | inl empty ↦
        let none_left = pop_top-none reverse q empty in
        let last : (n ≡ m) × ([] ≡ rest) = (ground (arith, empty), ground (arith, empty)) in
        rw⁻¹ (last.0, last.1)
          (rw none_left (record {
            before = [];
            behind = [];
            whole = refl;
            left = refl;
            first = tt;
            all = (leq_refl reverse n.0, tt);
          }))
    | inr ((m', rest'), is) ↦ elim (Bool-cases (precedes reverse m'.0 n.0)) [
      | inl earlier ↦
          let ih = pop_top-Popped reverse q m' rest' is in
          let parts : (m' ≡ m) × ((n ∷ rest') ≡ rest) =
            (ground (arith, is, earlier), ground (arith, is, earlier)) in
          rw⁻¹ (parts.0, parts.1)
            (record {
              before = n ∷ ih.before;
              behind = ih.behind;
              whole = ap (λ r. n ∷ r) ih.whole;
              left = ap (λ r. n ∷ r) ih.left;
              first = (leq_of_precedes reverse m'.0 n.0 earlier, ih.first);
              all = (leq_of_precedes reverse m'.0 n.0 earlier, ih.all);
            })
      | inr later ↦
          let ih = pop_top-Popped reverse q m' rest' is in
          let parts : (n ≡ m) × (q ≡ rest) =
            (ground (arith, is, later), ground (arith, is, later)) in
          let here : leq reverse n.0 m'.0 ≡ true = ground arith in
          let after = HeadsAfter-trans reverse n.0 m'.0 q here ih.all in
          rw⁻¹ (parts.0, parts.1)
            (record {
              before = [];
              behind = q;
              whole = refl;
              left = refl;
              first = after;
              all = (leq_refl reverse n.0, after);
            })
    ]
  ]

-- What goes with the lines does not matter.
pub pop_top-map :
    {F G : Type 0} (f : F → G) (reverse : Bool) (q : List (Keyed F))
    → pop_top reverse (map (λ n. (n.0, f n.1)) q) ≡ elim (pop_top reverse q) [
      | none ↦ none
      | some (m, rest) ↦ some ((m.0, f m.1), map (λ n. (n.0, f n.1)) rest)
    ]
unfolding pop_top
pop_top-map f reverse [] = refl
pop_top-map f reverse (n ∷ q) = elim (Option-cases (pop_top reverse q)) [
  | inl empty ↦ rw (pop_top-map f reverse q, pop_top, empty) refl
  | inr ((m, rest), is) ↦ elim (Bool-cases (precedes reverse m.0 n.0)) [
    | inl earlier ↦ rw (pop_top-map f reverse q, pop_top, is, earlier) refl
    | inr later ↦ rw (pop_top-map f reverse q, pop_top, is, later) refl
  ]
]
