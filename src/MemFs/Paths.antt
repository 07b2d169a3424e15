-- ===== src/MemFs/Paths.antt =====
-- Paths in task02-fileio/src/inode.c: the tokens of a path are those of its directory part and then its
-- last component.
use systems_programming_labs.Prelude.{
  ℕ, zero, suc, length-take, length-append, ◌≤◌, ◌≡◌, ◌≢◌, refl, sym, ◌∙◌, ap, false, Bool-cases,
  Option-cases, none, some, inl, inr, [], ◌∷◌, ◌++◌, ◌==◌, length, take, append_assoc, append-nil,
  arith,
}
use systems_programming_labs.MemFs.Bytes.{Bytes, slash, flush, tokens_from, tokens, split_last}

-- No byte of the word is a slash.
abbrev pub NoSlash : Bytes → Type 0
NoSlash [] = Unit {0}
NoSlash (c ∷ cs) = ((c == slash) ≡ false) × NoSlash cs

-- What the last slash of a path splits off.
pub record SplitAt (path before after : Bytes) : Type 0 where
  pub whole : path ≡ before ++ (slash ∷ after)
  pub no_slash : NoSlash after

-- Nothing splits off a path without a slash.
split_last-none : (path : Bytes) → split_last path ≡ none → NoSlash path
unfolding split_last
split_last-none [] e = tt
split_last-none (c ∷ cs) e = elim (Option-cases (split_last cs)) [
  | inl without ↦ (ground arith, split_last-none cs without)
  | inr (parts, is) ↦ ground arith
]

pub split_last-SplitAt :
    (path before after : Bytes) → split_last path ≡ some (before, after) → SplitAt path before after
unfolding split_last
split_last-SplitAt [] before after e = cc
split_last-SplitAt (c ∷ cs) before after e = elim (Option-cases (split_last cs)) [
  | inl without ↦
      let rest : after ≡ cs = ground arith in
      record { whole = ground arith; no_slash = rw rest (split_last-none cs without) }
  | inr ((b, a), is) ↦
      let rest : after ≡ a = ground arith in
      let ih = split_last-SplitAt cs b a is in
      record { whole = ground (arith, ih.whole); no_slash = rw rest ih.no_slash }
]

tokens_from-NoSlash :
    (word path : Bytes) → NoSlash path → tokens_from word path ≡ flush (word ++ path)
unfolding tokens_from
tokens_from-NoSlash word [] n = ap flush (sym (append-nil word))
tokens_from-NoSlash word (c ∷ cs) n =
    rw n.0
      (tokens_from-NoSlash (word ++ (c ∷ [])) cs n.1 ∙ ap flush (append_assoc word (c ∷ []) cs))

pub tokens_from-slash :
    (word before after : Bytes)
    → tokens_from word (before ++ (slash ∷ after)) ≡ tokens_from word before ++ tokens_from [] after
unfolding tokens_from
tokens_from-slash word [] after = refl
tokens_from-slash word (c ∷ cs) after = elim (Bool-cases (c == slash)) [
  | inl is ↦ rw is (
      ap (λ r. flush word ++ r) (tokens_from-slash [] cs after)
      ∙ sym (append_assoc (flush word) _ _))
  | inr not ↦ rw not (tokens_from-slash (word ++ (c ∷ [])) cs after)
]

-- The tokens of a path with a last component: those of the directory part, and that component.
pub tokens-split :
    (path before after : Bytes)
    → split_last path ≡ some (before, after)
    → after ≢ []
    → tokens path ≡ tokens before ++ (after ∷ [])
unfolding flush
tokens-split path before after e some_byte =
    ap tokens at.whole
    ∙ (tokens_from-slash [] before after
        ∙ ap (λ r. tokens before ++ r)
            (tokens_from-NoSlash [] after at.no_slash ∙ one after some_byte))
  where
    at : SplitAt path before after
    at = split_last-SplitAt path before after e

    one : (w : Bytes) → w ≢ [] → flush w ≡ w ∷ []
    one [] ne = absurd (ne refl)
    one (c ∷ cs) ne = refl

pub take_whole : (n : ℕ) (xs : Bytes) → length xs ≤ n → take n xs ≡ xs
take_whole zero [] h = refl
take_whole zero (x ∷ xs) h = absurd (omega arith)
take_whole (suc n) [] h = refl
take_whole (suc n) (x ∷ xs) h = ap (λ r. x ∷ r) (take_whole n xs (omega arith))

-- The directory part of a path that fits in a buffer fits in it.
pub take-before :
    (n : ℕ) (path before after : Bytes)
    → split_last (take n path) ≡ some (before, after)
    → take n before ≡ before
take-before n path before after e = take_whole n before shorter
  where
    at : SplitAt (take n path) before after
    at = split_last-SplitAt (take n path) before after e

    shorter : length before ≤ n
    shorter =
        omega (arith, length-take n path, ap length at.whole, length-append before (slash ∷ after))
