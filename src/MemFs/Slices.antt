-- ===== src/MemFs/Slices.antt =====
-- Slices of lists, as `memcpy` into and out of a buffer takes them, in task02-fileio/src/memfs.c.
use systems_programming_labs.Prelude.{
  ℕ, zero, suc, ◌+◌, ◌-◌, ◌≤◌, ◌<◌, ◌≡◌, refl, ◌∙◌, ap, none, some, List, [], ◌∷◌, ◌++◌, ltb,
  if◌then◌else◌, length, length-take, length-drop, length-append, get_elem?, take, drop, arith,
}
use systems_programming_labs.MemFs.Calls.{grow}

module _ {ℓ} {A : Type ℓ} where
  pub get_elem?-append :
      (xs ys : List A) (k : ℕ)
      → get_elem? (xs ++ ys) k
        ≡ (if ltb k (length xs) then get_elem? xs k else get_elem? ys (k - length xs))
  get_elem?-append [] ys k = ground arith
  get_elem?-append (x ∷ xs) ys zero = ground arith
  get_elem?-append (x ∷ xs) ys (suc k) = ground (arith, get_elem?-append xs ys k)

  get_elem?-take :
      (n : ℕ) (xs : List A) (k : ℕ)
      → get_elem? (take n xs) k ≡ (if ltb k n then get_elem? xs k else none)
  get_elem?-take zero xs k = ground arith
  get_elem?-take (suc n) [] k = ground arith
  get_elem?-take (suc n) (x ∷ xs) zero = ground arith
  get_elem?-take (suc n) (x ∷ xs) (suc k) = ground (arith, get_elem?-take n xs k)

  get_elem?-drop : (n : ℕ) (xs : List A) (k : ℕ) → get_elem? (drop n xs) k ≡ get_elem? xs (n + k)
  get_elem?-drop zero xs k = ap (get_elem? xs) (omega arith)
  get_elem?-drop (suc n) [] k = refl
  get_elem?-drop (suc n) (x ∷ xs) k =
      get_elem?-drop n xs k
      ∙ ap (get_elem? (x ∷ xs)) {x = suc (n + k)} {y = suc n + k} (omega arith)

  -- The front of a list that starts with `ys`.
  take-append : (ys zs : List A) → take (length ys) (ys ++ zs) ≡ ys
  take-append [] zs = refl
  take-append (y ∷ ys) zs = ap (λ r. y ∷ r) (take-append ys zs)

  drop-append : (o : ℕ) (xs ys : List A) → length xs ≡ o → drop o (xs ++ ys) ≡ ys
  drop-append zero [] ys e = refl
  drop-append zero (x ∷ xs) ys e = absurd (omega arith)
  drop-append (suc o) [] ys e = absurd (omega arith)
  drop-append (suc o) (x ∷ xs) ys e = drop-append o xs ys (omega arith)

module _ {A : Type 0} where
  -- The byte at `k` of a list in which `buf` replaces what stands from `o` on.
  pub get_elem?-patch :
      (o : ℕ) (xs buf : List A) (k : ℕ)
      → o + length buf ≤ length xs
      → get_elem? (take o xs ++ (buf ++ drop (o + length buf) xs)) k ≡ (
          if ltb k o
          then get_elem? xs k
          else if ltb k (o + length buf)
          then get_elem? buf (k - o)
          else get_elem? xs k)
  get_elem?-patch o xs buf k h = ground (
    arith,
    get_elem?-append (take o xs) (buf ++ drop (o + length buf) xs) k,
    get_elem?-append buf (drop (o + length buf) xs) (k - length (take o xs)),
    length-take o xs,
    get_elem?-take o xs k,
    get_elem?-drop (o + length buf) xs (k - o - length buf),
  )

  -- What is written at `o` is read at `o`.
  pub take-patch :
      (o : ℕ) (xs buf : List A)
      → o + length buf ≤ length xs
      → take (length buf) (drop o (take o xs ++ (buf ++ drop (o + length buf) xs))) ≡ buf
  take-patch o xs buf h =
      ap (take (length buf)) (
        drop-append o (take o xs) (buf ++ drop (o + length buf) xs)
          (omega (arith, length-take o xs)))
      ∙ take-append buf (drop (o + length buf) xs)

  pub length-patch :
      (o : ℕ) (xs buf : List A)
      → o + length buf ≤ length xs
      → length (take o xs ++ (buf ++ drop (o + length buf) xs)) ≡ length xs
  length-patch o xs buf h = omega (
    arith,
    length-append (take o xs) (buf ++ drop (o + length buf) xs),
    length-append buf (drop (o + length buf) xs),
    length-take o xs,
    length-drop (o + length buf) xs,
  )

pub length-grow : (junk : ℕ → ℕ) (from n : ℕ) → length (grow junk from n) ≡ n
unfolding grow
length-grow junk from zero = refl
length-grow junk from (suc n) = omega (arith, length-grow junk (from + 1) n)

pub get_elem?-grow :
    (junk : ℕ → ℕ) (from n k : ℕ) → k < n → get_elem? (grow junk from n) k ≡ some (junk (from + k))
unfolding grow
get_elem?-grow junk from zero k h = absurd (omega arith)
get_elem?-grow junk from (suc n) zero h = ap (λ q. some (junk q)) (omega arith)
get_elem?-grow junk from (suc n) (suc k) h =
    get_elem?-grow junk (from + 1) n k (omega arith) ∙ ap (λ q. some (junk q)) (omega arith)
