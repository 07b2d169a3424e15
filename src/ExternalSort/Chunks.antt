-- ===== src/ExternalSort/Chunks.antt =====
-- The reading half of task00-sort/src/sort.cpp: the temporary files hold all lines, in sorted chunks.
use systems_programming_labs.Prelude.{
  ℕ, suc, ◌+◌, ◌≡◌, refl, sym, ◌∙◌, ap, Bool, true, ◌&&◌, Bool-cases, Option, some, inl, inr, List,
  [], ◌∷◌, ◌++◌, leb, length, append_assoc, append-nil,
}
use mathlib.Core.List
use mathlib.Core.Nat
use mathlib.Core.List.{Perm, map, map-append, perm_append_comm}
use mathlib.Core.List.Perm
use systems_programming_labs.ExternalSort.Order.{Line, precedes}
use systems_programming_labs.ExternalSort.Files.{File, newline, c_str}
use systems_programming_labs.ExternalSort.Lines.{NoNewline, c_str-Plain}
use systems_programming_labs.ExternalSort.Program.{
  insert_sorted, sort, Disk, write_lines, separate, mem_limit, string_size, read_loop,
}
use systems_programming_labs.ExternalSort.Merging.{file_of, AllPlain}

-- The lines of a file that `separate` writes.
abbrev pub written : Bool → List Line → List Line
written reverse chunk = map c_str (sort reverse chunk)

abbrev pub joined : List (List Line) → List Line
joined [] = []
joined (c ∷ cs) = c ++ joined cs

abbrev pub AllNoNewline : List Line → Type 0
AllNoNewline [] = Unit {0}
AllNoNewline (w ∷ ws) = NoNewline w × AllNoNewline ws

write_lines-file_of : (l : List Line) → write_lines l ≡ file_of (map c_str l)
unfolding write_lines
write_lines-file_of [] = refl
write_lines-file_of (w ∷ ws) =
    append_assoc (c_str w) (newline ∷ []) (write_lines ws)
    ∙ ap (λ r. c_str w ++ (newline ∷ r)) (write_lines-file_of ws)

native : mathlib.Core.Nat.ℕ → ℕ
native mathlib.Core.Nat.zero = 0
native (mathlib.Core.Nat.suc n) = suc (native n)

length-native : (l : List Line) → length l ≡ native (List.length l)
unfolding native
length-native [] = refl
length-native (x ∷ xs) = ap suc (length-native xs)

pub length-perm : (l r : List Line) → Perm l r → length l ≡ length r
length-perm l r p = length-native l ∙ (ap native (Perm.length-eq p) ∙ sym (length-native r))

joined-end : (cs : List (List Line)) (l : List Line) → joined (cs ++ (l ∷ [])) ≡ joined cs ++ l
joined-end [] l = append-nil l
joined-end (c ∷ cs) l = ap (λ r. c ++ r) (joined-end cs l) ∙ sym (append_assoc c (joined cs) l)

pub insert_sorted-AllNoNewline :
    (reverse : Bool) (a : Line) (l : List Line)
    → NoNewline a
    → AllNoNewline l
    → AllNoNewline (insert_sorted reverse a l)
unfolding insert_sorted
insert_sorted-AllNoNewline reverse a [] n all = (n, tt)
insert_sorted-AllNoNewline reverse a (b ∷ l) n all = elim (Bool-cases (precedes reverse b a)) [
  | inl earlier ↦ rw earlier (all.0, insert_sorted-AllNoNewline reverse a l n all.1)
  | inr later ↦ rw later (n, all)
]

pub written-AllPlain :
    (reverse : Bool) (chunk : List Line) → AllNoNewline chunk → AllPlain (written reverse chunk)
unfolding sort
written-AllPlain reverse chunk all = plain (sort reverse chunk) (sorted chunk all)
  where
    sorted : (l : List Line) → AllNoNewline l → AllNoNewline (sort reverse l)
    sorted [] all = tt
    sorted (a ∷ l) all =
        insert_sorted-AllNoNewline reverse a (sort reverse l) all.0 (sorted l all.1)

    plain : (l : List Line) → AllNoNewline l → AllPlain (map c_str l)
    plain [] all = tt
    plain (a ∷ l) all = (c_str-Plain a all.0, plain l all.1)

-- Every temporary file opens and takes what is written.
abbrev pub DisksWork : (ℕ → Disk) → Type 0
DisksWork disk = (n : ℕ) → ((disk n).opens && (disk n).writes) ≡ true

module _ (disk : ℕ → Disk) (works : DisksWork disk) (reverse : Bool) where
  abbrev pub filed : List (List Line) → List File
  filed chunks = map (λ c. file_of (written reverse c)) chunks

  abbrev extend : List (List Line) → List Line → List (List Line)
  extend chunks [] = chunks
  extend chunks (w ∷ ws) = chunks ++ ((w ∷ ws) ∷ [])

  joined-extend :
      (chunks : List (List Line)) (l : List Line) → joined (extend chunks l) ≡ joined chunks ++ l
  joined-extend chunks [] = sym (append-nil (joined chunks))
  joined-extend chunks (w ∷ ws) = joined-end chunks (w ∷ ws)

  separate-filed :
      (n : ℕ) (chunks : List (List Line)) (l : List Line)
      → separate (disk n) reverse (filed chunks) l ≡ some (filed (extend chunks l))
  unfolding separate
  separate-filed n chunks [] = refl
  separate-filed n chunks (w ∷ ws) = rw (works n) (
      ap (λ f. some (filed chunks ++ (f ∷ []))) (write_lines-file_of (sort reverse (w ∷ ws)))
      ∙ ap some (sym (map-append (λ c. file_of (written reverse c)) chunks ((w ∷ ws) ∷ []))))

  -- The files hold all lines that were read, in chunks.
  pub record Filed (lines : List Line) (result : Option (List File)) : Type 0 where
    pub chunks : List (List Line)
    pub made : result ≡ some (filed chunks)
    pub whole : joined chunks ≡ lines

  pub read_loop-Filed :
      (lines : List Line) (chunks : List (List Line)) (lst : List Line) (len : ℕ)
      → Filed
          (joined chunks ++ (lst ++ lines))
          (read_loop disk reverse lines (filed chunks) lst len)
  unfolding read_loop
  read_loop-Filed [] chunks lst len = record {
    chunks = extend chunks lst;
    made = separate-filed (length (filed chunks)) chunks lst;
    whole = joined-extend chunks lst ∙ ap (λ r. joined chunks ++ r) (sym (append-nil lst));
  }
  read_loop-Filed (str ∷ lines) chunks lst len =
      let longer : List Line = lst ++ (str ∷ []) in
      elim (Bool-cases (leb mem_limit (len + (string_size + length str)))) [
        | inr room ↦
            let ih = read_loop-Filed lines chunks longer (len + (string_size + length str)) in
            rw (room, read_loop)
              (record {
                chunks = ih.chunks;
                made = ih.made;
                whole = ih.whole ∙ ap (λ r. joined chunks ++ r) (append_assoc lst (str ∷ []) lines);
              })
        | inl full ↦
            let ih = read_loop-Filed lines (extend chunks longer) [] 0 in
            rw (full, read_loop, separate-filed (length (filed chunks)) chunks longer)
              (record {
                chunks = ih.chunks;
                made = ih.made;
                whole =
                    ih.whole
                    ∙ (ap (λ r. r ++ lines) (joined-extend chunks longer)
                        ∙ (append_assoc (joined chunks) longer lines
                            ∙ ap (λ r. joined chunks ++ r) (append_assoc lst (str ∷ []) lines)));
              })
      ]
