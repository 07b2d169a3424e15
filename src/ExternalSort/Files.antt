-- ===== src/ExternalSort/Files.antt =====
-- Lines in files, as task00-sort/src/sort.cpp writes and reads them. A file is the bytes from its position
-- on.
use systems_programming_labs.Prelude.{
  ℕ, zero, suc, Option, none, some, List, [], ◌∷◌, ◌++◌, ◌==◌, if◌then◌else◌, length,
}
use systems_programming_labs.ExternalSort.Order.{Line}

abbrev pub newline : ℕ
newline = 10

abbrev pub File : Type 0
File = List ℕ

-- `c_str()` as a C string: the bytes in front of the first NUL.
unfoldable pub c_str : List ℕ → List ℕ
c_str [] = []
c_str (c ∷ cs) = let rest = c_str cs in if c == 0 then [] else c ∷ rest

-- `fputs(str.c_str(), fp)` and `fputc('\n', fp)`
abbrev pub put_line : Line → File
put_line str = c_str str ++ (newline ∷ [])

-- What `fgets` reads into a buffer with room for `room` bytes and the NUL, and the file behind it.
unfoldable pub chunk : ℕ → File → List ℕ × File
chunk zero file = ([], file)
chunk (suc room) [] = ([], [])
chunk (suc room) (c ∷ cs) =
    let more = chunk room cs in if c == newline then (newline ∷ [], cs) else (c ∷ more.0, more.1)

-- `sizeof(buf) - 1`
abbrev pub buffer_room : ℕ
buffer_room = 1023

-- `out.back() == '\n'` and `out.pop_back()`
unfoldable pub pop_newline : List ℕ → Option (List ℕ)
pop_newline [] = none
pop_newline (c ∷ []) = if c == newline then some [] else none
pop_newline (c ∷ d ∷ cs) = elim (pop_newline (d ∷ cs)) [ none ↦ none | some r ↦ some (c ∷ r) ]

-- `!out.empty()` with the line, at the end of the file
abbrev pub at_end : List ℕ → Option Line
at_end [] = none
at_end (c ∷ cs) = some (c ∷ cs)

-- The loop of `fgetline`, and the file behind the line; `none` for `false`.
unfoldable pub fgetline_loop : ℕ → File → List ℕ → Option Line × File
fgetline_loop zero file out = (none, file)
fgetline_loop (suc rounds) [] out = (at_end out, [])
fgetline_loop (suc rounds) (c ∷ cs) out =
    let read = chunk buffer_room (c ∷ cs) in
    let grown = out ++ c_str read.0 in
    elim (pop_newline grown) [
      | some str ↦ (some str, read.1)
      | none ↦ fgetline_loop rounds read.1 grown
    ]

-- Each round reads a byte.
unfoldable pub fgetline : File → Option Line × File
fgetline file = fgetline_loop (suc (length file)) file []
