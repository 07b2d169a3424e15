-- ===== src/MemFs/Log.antt =====
-- The text of the log: `append_log` and `load_log` of task02-fileio/src/log.c.
use systems_programming_labs.Prelude.{
  ℕ, zero, suc, ◌+◌, ◌-◌, ◌*◌, ◌/◌, ◌%◌, Bool, ◌&&◌, ◌||◌, Option, none, some, List, [], ◌∷◌, ◌++◌,
  ◌==◌, ltb, leb, if◌then◌else◌, length,
}
use systems_programming_labs.ExternalSort.Files.{chunk}
use systems_programming_labs.MemFs.Bytes.{Bytes}
use systems_programming_labs.MemFs.Calls.{
  LogEntry, made_dir, made_file, written, linked, MemFs, Memory, at, my_fuse_mkdir, my_fuse_mknod,
  my_fuse_write, my_fuse_symlink,
}

unfoldable pub digit_char : ℕ → ℕ
digit_char d = if ltb d 10 then d + b'0' else d - 10 + b'a'

-- `%o`, `%ld` and `%zu`: the digits of a number. The fuel bounds their number.
unfoldable pub number : ℕ → ℕ → ℕ → Bytes
number zero base n = []
number (suc fuel) base n =
    let front = number fuel base (n / base) in
    if ltb n base then digit_char n ∷ [] else front ++ (digit_char (n % base) ∷ [])

-- `%02x` for each byte.
unfoldable pub hex_text : Bytes → Bytes
hex_text [] = []
hex_text (b ∷ buf) = digit_char (b / 16) ∷ digit_char (b % 16) ∷ hex_text buf

-- The line of an entry, without its newline.
unfoldable pub log_line : LogEntry → Bytes
log_line (made_dir path mode) = b'M' ∷ b' ' ∷ path ++ (b' ' ∷ number (mode + 1) 8 mode)
log_line (made_file path mode) = b'C' ∷ b' ' ∷ path ++ (b' ' ∷ number (mode + 1) 8 mode)
log_line (written path offset buf) =
    b'W' ∷ b' ' ∷ path
    ++ (b' ' ∷ number (offset + 1) 10 offset
        ++ (b' ' ∷ number (length buf + 1) 10 (length buf) ++ (b' ' ∷ hex_text buf)))
log_line (linked path target) = b'S' ∷ b' ' ∷ path ++ (b' ' ∷ target)

unfoldable pub log_text : List LogEntry → Bytes
log_text [] = []
log_text (entry ∷ entries) = log_line entry ++ (10 ∷ log_text entries)

-- `isspace`
unfoldable pub is_space : ℕ → Bool
is_space c = c == b' ' || (leb 9 c && leb c 13)

unfoldable pub skip_spaces : Bytes → Bytes
skip_spaces [] = []
skip_spaces (c ∷ cs) = let rest = skip_spaces cs in if is_space c then rest else c ∷ cs

unfoldable pub word_of : Bytes → Bytes × Bytes
word_of [] = ([], [])
word_of (c ∷ cs) =
    let more = word_of cs in if is_space c || c == 0 then ([], c ∷ cs) else (c ∷ more.0, more.1)

-- `%s` of `sscanf`: a word, and the text behind it.
unfoldable pub read_word : Bytes → Option (Bytes × Bytes)
read_word text = elim (word_of (skip_spaces text)).0 [
  | [] ↦ none
  | c ∷ cs ↦ some (word_of (skip_spaces text))
]

-- 16 for what is no digit.
unfoldable pub digit_value : ℕ → ℕ
digit_value c =
    if leb b'0' c && leb c b'9'
    then c - b'0'
    else if leb b'a' c && leb c b'f'
    then c - b'a' + 10
    else if leb b'A' c && leb c b'F'
    then c - b'A' + 10
    else 16

unfoldable pub digits_from : ℕ → ℕ → Bytes → ℕ × Bytes
digits_from base n [] = (n, [])
digits_from base n (c ∷ cs) =
    let more = digits_from base (n * base + digit_value c) cs in
    if ltb (digit_value c) base then more else (n, c ∷ cs)

unfoldable pub at_digit : ℕ → Bytes → Option (ℕ × Bytes)
at_digit base [] = none
at_digit base (c ∷ cs) =
    if ltb (digit_value c) base then some (digits_from base 0 (c ∷ cs)) else none

-- `%o`, `%ld` and `%zu` of `sscanf`, for a number without a sign that fits.
unfoldable pub read_number : ℕ → Bytes → Option (ℕ × Bytes)
read_number base text = at_digit base (skip_spaces text)

-- The loop that decodes the bytes. `none` for text that is not two digits for each byte, where `sscanf` reads
-- one digit or leaves `x` as it was.
unfoldable pub decode : ℕ → Bytes → Option Bytes
decode zero hex = some []
decode (suc size) [] = none
decode (suc size) (c ∷ []) = none
decode (suc size) (c ∷ d ∷ hex) =
    let rest = decode size hex in
    if ltb (digit_value c) 16 && ltb (digit_value d) 16
    then elim rest [ none ↦ none | some buf ↦ some ((digit_value c * 16 + digit_value d) ∷ buf) ]
    else none

-- What a line gives: nothing, an entry, or what is not followed further: a write past `path`, `target` or
-- `buf`, and text that `decode` does not read.
pub data Line : Type 0 where
  skipped : Line
  loaded : LogEntry → Line
  outside : Line

-- The rest of a line, behind the operation and the path.
unfoldable pub load_rest : ℕ → Bytes → Bytes → Line
load_rest op path rest =
    let mode = read_number 8 rest in
    if op == b'M'
    then elim mode [ none ↦ skipped | some (m, r) ↦ loaded (made_dir path m) ]
    else if op == b'C'
    then elim mode [ none ↦ skipped | some (m, r) ↦ loaded (made_file path m) ]
    else if op == b'W'
    then elim (read_number 10 rest) [
      | none ↦ skipped
      | some (offset, rest2) ↦ elim (read_number 10 rest2) [
        | none ↦ skipped
        | some (size, rest3) ↦ elim (read_word rest3) [
          | none ↦ skipped
          | some (hex, r) ↦
              if leb size 2048
              then elim (decode size hex) [
                | none ↦ outside
                | some buf ↦ loaded (written path offset buf)
              ]
              else outside
        ]
      ]
    ]
    else elim (read_word rest) [
      | none ↦ skipped
      | some (target, r) ↦ if leb (length target) 1023 then loaded (linked path target) else outside
    ]

unfoldable pub load_line : Bytes → Line
load_line [] = skipped
load_line (op ∷ rest) =
    if op == b'M' || op == b'C' || op == b'W' || op == b'S'
    then elim (read_word rest) [
      | none ↦ skipped
      | some (path, rest1) ↦ if leb (length path) 1023 then load_rest op path rest1 else outside
    ]
    else skipped

-- The call that an entry stands for.
unfoldable pub replay_entry : Memory → LogEntry → MemFs → MemFs
replay_entry mem (made_dir path mode) fs = (my_fuse_mkdir mem fs path mode).1
replay_entry mem (made_file path mode) fs = (my_fuse_mknod mem fs path mode).1
replay_entry mem (written path offset buf) fs = (my_fuse_write mem fs path buf (at offset) none).1
replay_entry mem (linked path target) fs = (my_fuse_symlink mem fs target path).1

-- The body of the loop at a line, and `next` for the lines behind it; `fgets` gives no empty line.
unfoldable pub run_line : Memory → Bytes → (MemFs → Option MemFs) → MemFs → Option MemFs
run_line mem [] next fs = some fs
run_line mem (c ∷ cs) next fs = elim (load_line (c ∷ cs)) [
  | skipped ↦ next fs
  | loaded entry ↦ next (replay_entry mem entry fs)
  | outside ↦ none
]

-- `load_log` on the file; `none` where a line is not followed further, or where the calls of `fgets` do not
-- suffice.
unfoldable pub load_log : Memory → ℕ → Bytes → MemFs → Option MemFs
load_log mem zero file fs = none
load_log mem (suc calls) file fs =
    let line = chunk 4095 file in run_line mem line.0 (λ fs'. load_log mem calls line.1 fs') fs
