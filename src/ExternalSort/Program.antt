-- ===== src/ExternalSort/Program.antt =====
-- `separate`, `merge` and `main` of task00-sort/src/sort.cpp.
use systems_programming_labs.Prelude.{
  ℕ, zero, suc, ◌+◌, ◌*◌, Bool, true, false, ◌&&◌, Option, none, some, List, [], ◌∷◌, ◌++◌, ◌==◌,
  leb, if◌then◌else◌, length,
}
use systems_programming_labs.ExternalSort.Order.{Line, precedes}
use systems_programming_labs.ExternalSort.Files.{File, newline, put_line, fgetline}
use systems_programming_labs.ExternalSort.Queue.{Keyed, pop_top}

-- `std::sort`: equal strings are the same string, so it does not matter which sort it is.
unfoldable pub insert_sorted : Bool → Line → List Line → List Line
insert_sorted reverse a [] = a ∷ []
insert_sorted reverse a (b ∷ l) =
    let rest = insert_sorted reverse a l in if precedes reverse b a then b ∷ rest else a ∷ b ∷ l

unfoldable pub sort : Bool → List Line → List Line
sort reverse [] = []
sort reverse (a ∷ l) = insert_sorted reverse a (sort reverse l)

-- Whether `tmpfile` opens a file, and whether it takes what is written.
pub record Disk : Type 0 where
  pub opens : Bool
  pub writes : Bool

unfoldable pub write_lines : List Line → File
write_lines [] = []
write_lines (str ∷ lines) = put_line str ++ write_lines lines

-- The files afterwards, with the lines cleared; `none` for `false`.
unfoldable pub separate : Disk → Bool → List File → List Line → Option (List File)
separate disk reverse files [] = some files
separate disk reverse files (str ∷ lines) =
    if disk.opens && disk.writes
    then some (files ++ (write_lines (sort reverse (str ∷ lines)) ∷ []))
    else none

-- The next line of a file goes on the queue; an exhausted file is closed.
unfoldable pub push_next : File → List (Keyed File) → List (Keyed File)
push_next fp pq = elim (fgetline fp).0 [
  | none ↦ pq
  | some str ↦ pq ++ ((str, (fgetline fp).1) ∷ [])
]

unfoldable pub push_all : List File → List (Keyed File) → List (Keyed File)
push_all [] pq = pq
push_all (fp ∷ files) pq = push_all files (push_next fp pq)

-- The lines that are written to the output; `none` if the rounds do not suffice.
unfoldable pub merge_loop : ℕ → Bool → List (Keyed File) → Option (List Line)
merge_loop zero reverse pq = none
merge_loop (suc rounds) reverse pq = elim (pop_top reverse pq) [
  | none ↦ some []
  | some (cur, rest) ↦ elim (merge_loop rounds reverse (push_next cur.1 rest)) [
    | none ↦ none
    | some out ↦ some (cur.0 ∷ out)
  ]
]

-- `merge`, where the output does not fail.
unfoldable pub merge : ℕ → Bool → List File → Option (List Line)
merge rounds reverse files = merge_loop rounds reverse (push_all files [])

abbrev pub mem_limit : ℕ
mem_limit = 64 * 1024 * 1024

-- `sizeof(std::string)`
abbrev pub string_size : ℕ
string_size = 32

-- What repeated calls of `std::getline` read.
unfoldable pub lines_from : Line → List ℕ → List Line
lines_from [] [] = []
lines_from (w ∷ ws) [] = (w ∷ ws) ∷ []
lines_from word (c ∷ cs) = elim (c == newline) [
  | true ↦ word ∷ lines_from [] cs
  | false ↦ lines_from (word ++ (c ∷ [])) cs
]

-- The loop of `main`; the disk may answer otherwise each time.
unfoldable pub read_loop :
    (ℕ → Disk) → Bool → List Line → List File → List Line → ℕ → Option (List File)
read_loop disk reverse [] files str_lst len = separate (disk (length files)) reverse files str_lst
read_loop disk reverse (str ∷ lines) files str_lst len =
    elim (leb mem_limit (len + (string_size + length str))) [
      | false ↦
          read_loop disk reverse lines files (str_lst ++ (str ∷ []))
            (len + (string_size + length str))
      | true ↦ elim (separate (disk (length files)) reverse files (str_lst ++ (str ∷ []))) [
        | none ↦ none
        | some files' ↦ read_loop disk reverse lines files' [] 0
      ]
    ]

-- `main` behind its options: the lines of the output, or `none` for the exit code 1. Writing
-- to the output does not fail.
unfoldable pub main : (ℕ → Disk) → ℕ → Bool → List ℕ → Option (List Line)
main disk rounds reverse input = elim (read_loop disk reverse (lines_from [] input) [] [] 0) [
  | none ↦ none
  | some files ↦ merge rounds reverse files
]
