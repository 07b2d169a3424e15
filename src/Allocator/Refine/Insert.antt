-- ===== src/Allocator/Refine/Insert.antt =====
-- Where a block in use stands after another one joined, for `arena_realloc` of task05-memory/src/allocator.c.
use systems_programming_labs.Prelude.{
  ◌≡◌, refl, sym, subst, ◌∙◌, ap, ap₂, Bool-cases, inl, inr, Option, none, some, List, [], ◌∷◌,
  ◌++◌,
}
use mathlib.Core.List.Perm
use mathlib.Core.List.{Perm, perm_middle}
use systems_programming_labs.Allocator.Model.{Block}
use systems_programming_labs.Allocator.Live.{live, live-freed, live-used}

module _ {ℓ} {A : Type ℓ} where
  head_of : List A → Option A
  head_of [] = none
  head_of (x ∷ xs) = some x

  tail_of : List A → List A
  tail_of [] = []
  tail_of (x ∷ xs) = xs

  cons_head : {x y : A} {xs ys : List A} → x ∷ xs ≡ y ∷ ys → x ≡ y
  unfolding head_of
  cons_head {x} e = ap (λ o. elim o [ none ↦ x | some v ↦ v ]) (ap head_of e)

  cons_tail : {x y : A} {xs ys : List A} → x ∷ xs ≡ y ∷ ys → xs ≡ ys
  unfolding tail_of
  cons_tail e = ap tail_of e

  -- An element of a list, after another one is put in between.
  pub insert_split :
      (before after front : List A) (c : A) (back : List A) (k : A)
      → before ++ after ≡ front ++ (c ∷ back)
      → (m m' : List A) × (before ++ (k ∷ after) ≡ m ++ (c ∷ m'))
        × Perm (m ++ m') (k ∷ (front ++ back))
  insert_split [] after front c back k e = (k ∷ front, back, ap (λ v. k ∷ v) e, Perm.refl _)
  insert_split (x ∷ before) after [] c back k e = (
    [],
    before ++ (k ∷ after),
    ap (λ v. v ∷ (before ++ (k ∷ after))) (cons_head e),
    subst (λ v. Perm (before ++ (k ∷ after)) (k ∷ v)) (cons_tail e) (perm_middle before after),
  )
  insert_split (x ∷ before) after (y ∷ front) c back k e =
      let (m, m', is, order) = insert_split before after front c back k (cons_tail e) in
      (
        x ∷ m,
        m',
        ap (λ v. x ∷ v) is,
        Perm.trans (Perm.cons x order) (
            subst (λ v. Perm (x ∷ k ∷ (front ++ back)) (k ∷ v ∷ (front ++ back))) (cons_head e)
              (Perm.swap k x _)),
      )

-- A block in use stands in the list that it is in use in.
pub live_split :
    (cs : List Block) (m : List Block) (c : Block) (m' : List Block)
    → live cs ≡ m ++ (c ∷ m')
    → (xs ys : List Block) × (cs ≡ xs ++ (c ∷ ys)) × (live xs ≡ m) × (live ys ≡ m')
unfolding live
live_split [] [] c m' e = cc
live_split [] (x ∷ m) c m' e = cc
live_split (b ∷ cs) [] c m' e = elim (Bool-cases b.freed) [
  | inl freed ↦
      let (xs, ys, is, l, r) = live_split cs [] c m' (sym (live-freed b cs freed) ∙ e) in
      (b ∷ xs, ys, ap (λ v. b ∷ v) is, live-freed b xs freed ∙ l, r)
  | inr used ↦
      let e' = sym (live-used b cs used) ∙ e in
      ([], cs, ap (λ v. v ∷ cs) (cons_head e'), refl, cons_tail e')
]
live_split (b ∷ cs) (x ∷ m) c m' e = elim (Bool-cases b.freed) [
  | inl freed ↦
      let (xs, ys, is, l, r) = live_split cs (x ∷ m) c m' (sym (live-freed b cs freed) ∙ e) in
      (b ∷ xs, ys, ap (λ v. b ∷ v) is, live-freed b xs freed ∙ l, r)
  | inr used ↦
      let e' = sym (live-used b cs used) ∙ e in
      let (xs, ys, is, l, r) = live_split cs m c m' (cons_tail e') in
      (b ∷ xs, ys, ap (λ v. b ∷ v) is, live-used b xs used ∙ ap₂ (λ u v. u ∷ v) (cons_head e') l, r)
]
