-- ===== src/ExternalSort/Lines.antt =====
-- Reading back what task00-sort/src/sort.cpp writes: `fgetline` gives the line, whatever its length.
use systems_programming_labs.Prelude.{
  ℕ, zero, suc, ◌≤◌, ◌<◌, ◌≡◌, ◌≢◌, refl, sym, ◌∙◌, ap, false, Bool-cases, none, some, inl, inr,
  List, [], ◌∷◌, ◌++◌, ◌==◌, length, take-drop, take, drop, length-append, length-drop,
  append_assoc, dec_lt, arith,
}
use systems_programming_labs.ExternalSort.Order.{Line}
use systems_programming_labs.ExternalSort.Files.{
  File, newline, c_str, put_line, chunk, buffer_room, pop_newline, fgetline_loop, fgetline,
}

-- No newline and no NUL.
abbrev pub Plain : Line → Type 0
Plain [] = Unit {0}
Plain (c ∷ cs) = ((c == newline) ≡ false) × ((c == 0) ≡ false) × Plain cs

abbrev pub NoNewline : Line → Type 0
NoNewline [] = Unit {0}
NoNewline (c ∷ cs) = ((c == newline) ≡ false) × NoNewline cs

pub c_str-Plain : (w : Line) → NoNewline w → Plain (c_str w)
unfolding c_str
c_str-Plain [] n = tt
c_str-Plain (c ∷ cs) n = elim (Bool-cases (c == 0)) [
  | inl nul ↦ rw nul tt
  | inr other ↦ rw other (n.0, other, c_str-Plain cs n.1)
]

c_str_of_Plain : (w : Line) → Plain w → c_str w ≡ w
unfolding c_str
c_str_of_Plain [] p = refl
c_str_of_Plain (c ∷ cs) p = rw p.1 (ap (λ r. c ∷ r) (c_str_of_Plain cs p.2))

c_str-end : (w : Line) → Plain w → c_str (w ++ (newline ∷ [])) ≡ w ++ (newline ∷ [])
unfolding c_str
c_str-end [] p = refl
c_str-end (c ∷ cs) p = rw p.1 (ap (λ r. c ∷ r) (c_str-end cs p.2))

pop_newline-end : (w : Line) → pop_newline (w ++ (newline ∷ [])) ≡ some w
unfolding pop_newline
pop_newline-end [] = refl
pop_newline-end (c ∷ []) = refl
pop_newline-end (c ∷ d ∷ cs) = rw (pop_newline-end (d ∷ cs)) refl

pop_newline_of_Plain : (w : Line) → Plain w → pop_newline w ≡ none
unfolding pop_newline
pop_newline_of_Plain [] p = refl
pop_newline_of_Plain (c ∷ []) p = rw p.0 refl
pop_newline_of_Plain (c ∷ d ∷ cs) p = rw (pop_newline_of_Plain (d ∷ cs) p.2) refl

Plain-append : (v w : Line) → Plain v → Plain w → Plain (v ++ w)
Plain-append [] w p q = q
Plain-append (c ∷ cs) w p q = (p.0, p.1, Plain-append cs w p.2 q)

Plain-take : (n : ℕ) (w : Line) → Plain w → Plain (take n w)
Plain-take zero w p = tt
Plain-take (suc n) [] p = tt
Plain-take (suc n) (c ∷ cs) p = (p.0, p.1, Plain-take n cs p.2)

Plain-drop : (n : ℕ) (w : Line) → Plain w → Plain (drop n w)
Plain-drop zero w p = p
Plain-drop (suc n) [] p = tt
Plain-drop (suc n) (c ∷ cs) p = Plain-drop n cs p.2

pub chunk_fits :
    (n : ℕ) (w : Line) (rest : File)
    → Plain w
    → length w < n
    → chunk n (w ++ (newline ∷ rest)) ≡ (w ++ (newline ∷ []), rest)
unfolding chunk
chunk_fits zero w rest p h = absurd (omega arith)
chunk_fits (suc n) [] rest p h = refl
chunk_fits (suc n) (c ∷ cs) rest p h = rw (p.0, chunk_fits n cs rest p.2 (omega arith)) refl

chunk_cut :
    (n : ℕ) (w : Line) (rest : File)
    → Plain w
    → n ≤ length w
    → chunk n (w ++ (newline ∷ rest)) ≡ (take n w, drop n w ++ (newline ∷ rest))
unfolding chunk
chunk_cut zero w rest p h = refl
chunk_cut (suc n) [] rest p h = absurd (omega arith)
chunk_cut (suc n) (c ∷ cs) rest p h = rw (p.0, chunk_cut n cs rest p.2 (omega arith)) refl

-- A round that reads `read` and leaves `left`.
round_ends :
    (rounds : ℕ) (file out read left : List ℕ) (str : Line)
    → file ≢ []
    → chunk buffer_room file ≡ (read, left)
    → pop_newline (out ++ c_str read) ≡ some str
    → fgetline_loop (suc rounds) file out ≡ (some str, left)
unfolding fgetline_loop
round_ends rounds [] out read left str ne e h = absurd (ne refl)
round_ends rounds (c ∷ cs) out read left str ne e h =
    rw (e, fgetline_loop, h) (ap (λ p. (some str, p.1)) e)

round_goes_on :
    (rounds : ℕ) (file out read left : List ℕ)
    → file ≢ []
    → chunk buffer_room file ≡ (read, left)
    → pop_newline (out ++ c_str read) ≡ none
    → fgetline_loop (suc rounds) file out ≡ fgetline_loop rounds left (out ++ c_str read)
unfolding fgetline_loop
round_goes_on rounds [] out read left ne e h = absurd (ne refl)
round_goes_on rounds (c ∷ cs) out read left ne e h =
    rw (e, fgetline_loop, h) (ap (λ p. fgetline_loop rounds p.1 (out ++ c_str p.0)) e)

not_empty : (w : Line) (rest : File) → (w ++ (newline ∷ rest)) ≢ []
not_empty [] rest e = cc
not_empty (c ∷ cs) rest e = cc

fgetline_loop-line :
    (rounds : ℕ) (w out : Line) (rest : File)
    → Plain w
    → Plain out
    → length w < rounds
    → fgetline_loop rounds (w ++ (newline ∷ rest)) out ≡ (some (out ++ w), rest)
fgetline_loop-line zero w out rest p q h = absurd (omega arith)
fgetline_loop-line (suc rounds) w out rest p q h = elim (dec_lt (length w) buffer_room) [
  | yes fits ↦
      round_ends rounds (w ++ (newline ∷ rest)) out (w ++ (newline ∷ [])) rest (out ++ w)
        (not_empty w rest) (chunk_fits buffer_room w rest p fits)
        (ap (λ r. pop_newline (out ++ r)) (c_str-end w p)
          ∙ (ap pop_newline (sym (append_assoc out w (newline ∷ []))) ∙ pop_newline-end (out ++ w)))
  | no longer ↦
      let front : Line = take buffer_room w in
      let p' = Plain-take buffer_room w p in
      let kept = c_str_of_Plain front p' in
      round_goes_on rounds (w ++ (newline ∷ rest)) out front
        (drop buffer_room w ++ (newline ∷ rest)) (not_empty w rest)
        (chunk_cut buffer_room w rest p (omega (arith, longer)))
        (ap (λ r. pop_newline (out ++ r)) kept
          ∙ pop_newline_of_Plain (out ++ front) (Plain-append out front q p'))
      ∙ (ap (fgetline_loop rounds (drop buffer_room w ++ (newline ∷ rest)))
            (ap (λ r. out ++ r) kept)
          ∙ (fgetline_loop-line rounds (drop buffer_room w) (out ++ front) rest
                (Plain-drop buffer_room w p) (Plain-append out front q p')
                (omega (arith, length-drop buffer_room w, longer))
              ∙ ap (λ r. (some r, rest))
                  (append_assoc out front (drop buffer_room w)
                    ∙ ap (λ r. out ++ r) (take-drop buffer_room w))))
]

pub fgetline_of_Plain :
    (w : Line) (rest : File) → Plain w → fgetline (w ++ (newline ∷ rest)) ≡ (some w, rest)
unfolding fgetline
fgetline_of_Plain w rest p =
    fgetline_loop-line (suc (length (w ++ (newline ∷ rest)))) w [] rest p tt
      (omega (arith, length-append w (newline ∷ rest)))

-- `fgetline` reads back a line without newline that was written with `fputs` and `fputc`, up to its first
-- NUL and however many buffers it takes, and leaves the file behind it. At the end of the file there is
-- none.
pub fgetline-put_line :
    (str : Line) (rest : File)
    → NoNewline str
    → (fgetline (put_line str ++ rest) ≡ (some (c_str str), rest)) × (fgetline [] ≡ (none, []))
unfolding fgetline fgetline_loop
fgetline-put_line str rest n = (
  ap fgetline (append_assoc (c_str str) (newline ∷ []) rest)
      ∙ fgetline_of_Plain (c_str str) rest (c_str-Plain str n),
  refl,
)
