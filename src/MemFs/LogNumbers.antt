-- ===== src/MemFs/LogNumbers.antt =====
-- Numbers, bytes and words that task02-fileio/src/log.c prints and scans again.
use systems_programming_labs.Prelude.{
  ℕ, zero, suc, ◌+◌, ◌*◌, ◌/◌, ◌%◌, ◌≤◌, ◌<◌, ◌≡◌, refl, sym, subst, ◌∙◌, ap, true, false, ◌||◌,
  some, [], ◌∷◌, ◌++◌, append_assoc, ◌==◌, ltb, length, dec_lt, arith,
}
use systems_programming_labs.MemFs.Bytes.{Bytes}
use systems_programming_labs.MemFs.Log.{
  digit_char, number, hex_text, is_space, skip_spaces, word_of, read_word, digit_value, digits_from,
  at_digit, read_number, decode,
}

digit_value-digit_char : (d : ℕ) → d < 16 → digit_value (digit_char d) ≡ d
unfolding digit_value digit_char
digit_value-digit_char d h = ground (arith, h)

-- A text that a number ends before.
abbrev pub Stops : ℕ → Bytes → Type 0
Stops base [] = Unit {0}
Stops base (c ∷ cs) = ltb (digit_value c) base ≡ false

-- Text that begins with no white space.
abbrev pub IsTight : Bytes → Type 0
IsTight [] = Unit {0}
IsTight (c ∷ cs) = is_space c ≡ false

skip_spaces-IsTight : (text : Bytes) → IsTight text → skip_spaces text ≡ text
unfolding skip_spaces
skip_spaces-IsTight [] t = refl
skip_spaces-IsTight (c ∷ cs) t = rw t refl

pub skip_spaces-blank : (text : Bytes) → IsTight text → skip_spaces (b' ' ∷ text) ≡ text
unfolding skip_spaces is_space
skip_spaces-blank text t = skip_spaces-IsTight text t

digits_from-Stops :
    (base n : ℕ) (rest : Bytes) → Stops base rest → digits_from base n rest ≡ (n, rest)
unfolding digits_from
digits_from-Stops base n [] s = refl
digits_from-Stops base n (c ∷ cs) s = rw s refl

at_digit-first :
    (base c : ℕ) (cs : Bytes)
    → ltb (digit_value c) base ≡ true
    → at_digit base (c ∷ cs) ≡ some (digits_from base 0 (c ∷ cs))
unfolding at_digit
at_digit-first base c cs h = rw h refl

module _ (base : ℕ) (one_digit : 2 ≤ base) (small : base ≤ 10)
    (whole : (n : ℕ) → n / base * base + n % base ≡ n) (below : (n : ℕ) → n % base < base)
    (drops : (n : ℕ) → base ≤ n → n / base < n) where
  digits_from-digit :
      (n d : ℕ) (rest : Bytes)
      → d < base
      → digits_from base n (digit_char d ∷ rest) ≡ digits_from base (n * base + d) rest
  unfolding digits_from
  digits_from-digit n d rest h =
      let value = digit_value-digit_char d (omega (arith, h, small)) in
      let digit : ltb (digit_value (digit_char d)) base ≡ true = ground (arith, value, h) in
      rw digit (ap (λ v. digits_from base (n * base + v) rest) value)

  digits_from-number :
      (fuel n : ℕ) (rest : Bytes)
      → n < fuel
      → digits_from base 0 (number fuel base n ++ rest) ≡ digits_from base n rest
  unfolding number
  digits_from-number zero n rest h = absurd (omega (arith, h))
  digits_from-number (suc fuel) n rest h = elim (dec_lt n base) [
    | yes single ↦
        let one : ltb n base ≡ true = ground (arith, single) in
        rw one (digits_from-digit 0 n rest single ∙ ap (λ v. digits_from base v rest) (omega arith))
    | no more ↦
        let many : ltb n base ≡ false = ground (arith, more) in
        rw many (
          ap (digits_from base 0)
            (append_assoc (number fuel base (n / base)) (digit_char (n % base) ∷ []) rest)
          ∙ digits_from-number fuel (n / base) (digit_char (n % base) ∷ rest)
              (omega (arith, h, drops n (omega (arith, more))))
          ∙ digits_from-digit (n / base) (n % base) rest (below n)
          ∙ ap (λ v. digits_from base v rest) (whole n))
  ]

  number-first :
      (fuel n : ℕ)
      → n < fuel
      → (d : ℕ) × (more : Bytes) × (number fuel base n ≡ digit_char d ∷ more) × (d < base)
  unfolding number
  number-first zero n h = absurd (omega (arith, h))
  number-first (suc fuel) n h = elim (dec_lt n base) [
    | yes single ↦
        let one : ltb n base ≡ true = ground (arith, single) in (n, [], rw one refl, single)
    | no more ↦
        let many : ltb n base ≡ false = ground (arith, more) in
        let (d, front, is, digit) =
          number-first fuel (n / base) (omega (arith, h, drops n (omega (arith, more)))) in
        (d, front ++ (digit_char (n % base) ∷ []), rw (many, is) refl, digit)
  ]

  pub read_number-number :
      (n : ℕ) (rest : Bytes)
      → Stops base rest
      → read_number base (b' ' ∷ number (n + 1) base n ++ rest) ≡ some (n, rest)
  unfolding read_number is_space digit_char
  read_number-number n rest stops =
      let (d, more, is, digit) = number-first (n + 1) n (omega arith) in
      let value = digit_value-digit_char d (omega (arith, digit, small)) in
      let first_digit : ltb (digit_value (digit_char d)) base ≡ true =
        ground (arith, value, digit) in
      let tight : is_space (digit_char d) ≡ false = ground (arith, digit, small) in
      let text = number (n + 1) base n ++ rest in
      let starts : at_digit base text ≡ some (digits_from base 0 text) =
        subst (λ w. at_digit base (w ++ rest) ≡ some (digits_from base 0 (w ++ rest))) (sym is)
          (at_digit-first base (digit_char d) (more ++ rest) first_digit) in
      ap (at_digit base) (skip_spaces-blank text (subst (λ w. IsTight (w ++ rest)) (sym is) tight))
      ∙ starts
      ∙ ap some
          (digits_from-number (n + 1) n rest (omega arith) ∙ digits_from-Stops base n rest stops)

pub read_octal :
    (n : ℕ) (rest : Bytes)
    → Stops 8 rest
    → read_number 8 (b' ' ∷ number (n + 1) 8 n ++ rest) ≡ some (n, rest)
read_octal =
    read_number-number 8 (omega arith) (omega arith) (λ n. omega arith) (λ n. omega arith)
      (λ n h. omega (arith, h))

pub read_decimal :
    (n : ℕ) (rest : Bytes)
    → Stops 10 rest
    → read_number 10 (b' ' ∷ number (n + 1) 10 n ++ rest) ≡ some (n, rest)
read_decimal =
    read_number-number 10 (omega arith) (omega arith) (λ n. omega arith) (λ n. omega arith)
      (λ n h. omega (arith, h))

-- Bytes that are no white space and no NUL.
abbrev pub AllPrintable : Bytes → Type 0
AllPrintable [] = Unit {0}
AllPrintable (c ∷ cs) = (is_space c || c == 0 ≡ false) × AllPrintable cs

-- A word of at least one such byte.
abbrev pub IsWord : Bytes → Type 0
IsWord w = (0 < length w) × AllPrintable w

-- A text that a word ends before.
abbrev pub EndsWord : Bytes → Type 0
EndsWord [] = Unit {0}
EndsWord (c ∷ cs) = is_space c ≡ true

word_of-printable :
    (w rest : Bytes) → AllPrintable w → EndsWord rest → word_of (w ++ rest) ≡ (w, rest)
unfolding word_of
word_of-printable [] [] p e = refl
word_of-printable [] (c ∷ cs) p e = rw e refl
word_of-printable (c ∷ w) rest p e = rw (p.0, word_of-printable w rest p.1 e) refl

pub read_word-word :
    (w rest : Bytes) → IsWord w → EndsWord rest → read_word (b' ' ∷ w ++ rest) ≡ some (w, rest)
unfolding read_word
read_word-word [] rest p e = absurd (omega (arith, p.0))
read_word-word (c ∷ w) rest p e =
    let tight : is_space c ≡ false = ground (arith, p.1.0) in
    let text = skip_spaces-blank (c ∷ (w ++ rest)) tight in
    let found = ap word_of text ∙ word_of-printable (c ∷ w) rest p.1 e in
    rw (read_word, ap (λ v. v.0) found) (ap some found)

-- Bytes of eight bits.
abbrev pub AreBytes : Bytes → Type 0
AreBytes [] = Unit {0}
AreBytes (b ∷ buf) = (b < 256) × AreBytes buf

pub decode-hex_text : (buf : Bytes) → AreBytes buf → decode (length buf) (hex_text buf) ≡ some buf
unfolding decode hex_text
decode-hex_text [] h = refl
decode-hex_text (b ∷ buf) h =
    let high = digit_value-digit_char (b / 16) (omega (arith, h.0)) in
    let low = digit_value-digit_char (b % 16) (omega arith) in
    let high_digit : ltb (digit_value (digit_char (b / 16))) 16 ≡ true =
      ground (arith, high, h.0) in
    let low_digit : ltb (digit_value (digit_char (b % 16))) 16 ≡ true = ground (arith, low) in
    rw (high_digit, low_digit, decode-hex_text buf h.1)
      (ap (λ v. some (v ∷ buf)) (omega (arith, high, low)))

pub hex_text-AllPrintable : (buf : Bytes) → AreBytes buf → AllPrintable (hex_text buf)
unfolding hex_text is_space digit_char
hex_text-AllPrintable [] h = tt
hex_text-AllPrintable (b ∷ buf) h =
    (ground (arith, h.0), (ground (arith, h.0), hex_text-AllPrintable buf h.1))

digit_char-printable : (d : ℕ) → d < 16 → is_space (digit_char d) || digit_char d == 0 ≡ false
unfolding is_space digit_char
digit_char-printable d h = ground (arith, h)

pub AllPrintable-append : (v w : Bytes) → AllPrintable v → AllPrintable w → AllPrintable (v ++ w)
AllPrintable-append [] w p q = q
AllPrintable-append (c ∷ v) w p q = (p.0, AllPrintable-append v w p.1 q)

pub number-AllPrintable :
    (fuel base n : ℕ) → base ≤ 10 → ((n : ℕ) → n % base < base) → AllPrintable (number fuel base n)
unfolding number
number-AllPrintable zero base n k below = tt
number-AllPrintable (suc fuel) base n k below = elim (dec_lt n base) [
  | yes single ↦
      let one : ltb n base ≡ true = ground (arith, single) in
      rw one (digit_char-printable n (omega (arith, single, k)), tt)
  | no more ↦
      let many : ltb n base ≡ false = ground (arith, more) in
      rw many (
        AllPrintable-append (number fuel base (n / base)) (digit_char (n % base) ∷ [])
          (number-AllPrintable fuel base (n / base) k below)
          (digit_char-printable (n % base) (omega (arith, below n, k)), tt))
]
