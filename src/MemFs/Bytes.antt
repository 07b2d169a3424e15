-- ===== src/MemFs/Bytes.antt =====
-- The string functions that task02-fileio/src/inode.c uses on paths: `strcmp`, `strtok` with "/" and
-- `strrchr` for '/'. A string is the list of its bytes in front of the NUL.
use systems_programming_labs.Prelude.{
  ℕ, ◌≡◌, refl, Bool, true, false, ◌&&◌, Option, none, some, List, [], ◌∷◌, ◌++◌, ◌==◌,
  if◌then◌else◌, arith,
}

abbrev pub Bytes : Type 0
Bytes = List ℕ

abbrev pub slash : ℕ
slash = b'/'

-- `strcmp(a, b) == 0`
unfoldable pub bytes_eq : Bytes → Bytes → Bool
bytes_eq [] [] = true
bytes_eq [] (b ∷ bs) = false
bytes_eq (a ∷ xs) [] = false
bytes_eq (a ∷ xs) (b ∷ bs) = (a == b) && bytes_eq xs bs

pub bytes_eq_refl : (a : Bytes) → bytes_eq a a ≡ true
unfolding bytes_eq
bytes_eq_refl [] = refl
bytes_eq_refl (a ∷ xs) = ground (arith, bytes_eq_refl xs)

pub eq_of_bytes_eq : (a b : Bytes) → bytes_eq a b ≡ true → a ≡ b
unfolding bytes_eq
eq_of_bytes_eq [] [] h = refl
eq_of_bytes_eq [] (b ∷ bs) h = cc
eq_of_bytes_eq (a ∷ xs) [] h = cc
eq_of_bytes_eq (a ∷ xs) (b ∷ bs) h = ground (arith, eq_of_bytes_eq xs bs)

-- The token that ends here, if it has a byte.
unfoldable pub flush : Bytes → List Bytes
flush [] = []
flush (a ∷ xs) = (a ∷ xs) ∷ []

-- The tokens that repeated calls of `strtok` give, with `word` read so far.
unfoldable pub tokens_from : Bytes → Bytes → List Bytes
tokens_from word [] = flush word
tokens_from word (c ∷ cs) =
    let next = flush word ++ tokens_from [] cs in
    let more = tokens_from (word ++ (c ∷ [])) cs in if c == slash then next else more

abbrev pub tokens : Bytes → List Bytes
tokens path = tokens_from [] path

-- What stands before and after the last slash.
unfoldable pub split_last : Bytes → Option (Bytes × Bytes)
split_last [] = none
split_last (c ∷ cs) = elim (split_last cs) [
  | some (before, after) ↦ some (c ∷ before, after)
  | none ↦ if c == slash then some ([], cs) else none
]
