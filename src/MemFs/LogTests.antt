-- ===== src/MemFs/LogTests.antt =====
-- Log texts of task02-fileio/src/log.c on small inputs, and the result at one of them.
use systems_programming_labs.Prelude.{◌≡◌, refl, true, some, List, [], ◌∷◌, ◌++◌, arith}
use systems_programming_labs.MemFs.Bytes.{Bytes}
use systems_programming_labs.MemFs.Inode.{root_inode}
use systems_programming_labs.MemFs.Calls.{
  LogEntry, made_dir, made_file, written, linked, Memory, MemFs,
}
use systems_programming_labs.MemFs.Log.{
  digit_char, is_space, number, hex_text, log_line, log_text, read_number, skipped, load_line,
  load_rest, load_log, read_word, word_of, skip_spaces, at_digit, digit_value,
}
use systems_programming_labs.MemFs.LogText.{IsName, AllLoggable, replay, load_log-log_text}

abbrev roomy : Memory
roomy = record { calloc_ok = true; realloc_ok = true; strdup_ok = true; junk = λ k. 170 }

abbrev starting : MemFs
starting = record { nodes = root_inode ∷ []; is_replaying = true; log_opens = true; log = [] }

-- "/d"
abbrev dir_path : Bytes
dir_path = b'/' ∷ b'd' ∷ []

-- "/f"
abbrev file_path : Bytes
file_path = b'/' ∷ b'f' ∷ []

-- "/l"
abbrev link_path : Bytes
link_path = b'/' ∷ b'l' ∷ []

abbrev entries : List LogEntry
entries =
    made_dir dir_path 0o755
    ∷ made_file file_path 0o644
    ∷ written file_path 3 (b'a' ∷ 255 ∷ [])
    ∷ linked link_path file_path
    ∷ []

-- "W /f 3 2 61ff"
line_written :
    log_line (written file_path 3 (b'a' ∷ 255 ∷ []))
    ≡ b'W' ∷ b' ' ∷ b'/' ∷ b'f' ∷ b' ' ∷ b'3' ∷ b' ' ∷ b'2' ∷ b' ' ∷ b'6' ∷ b'1' ∷ b'f' ∷ b'f' ∷ []
unfolding log_line number hex_text digit_char
line_written = refl

-- "M /d 755"
line_made :
    log_line (made_dir dir_path 0o755) ≡ b'M' ∷ b' ' ∷ b'/' ∷ b'd' ∷ b' ' ∷ b'7' ∷ b'5' ∷ b'5' ∷ []
unfolding log_line number digit_char
line_made = refl

dir_path-IsName : IsName dir_path
unfolding is_space
dir_path-IsName = ((omega arith, (refl, (refl, tt))), omega arith)

file_path-IsName : IsName file_path
unfolding is_space
file_path-IsName = ((omega arith, (refl, (refl, tt))), omega arith)

link_path-IsName : IsName link_path
unfolding is_space
link_path-IsName = ((omega arith, (refl, (refl, tt))), omega arith)

entries-AllLoggable : AllLoggable entries
unfolding log_line number hex_text digit_char
entries-AllLoggable = (
  (dir_path-IsName, omega arith),
  (
    (file_path-IsName, omega arith),
    (
      ((file_path-IsName, omega arith, omega arith, (omega arith, (omega arith, tt))), omega arith),
      (((link_path-IsName, file_path-IsName), omega arith), tt),
    ),
  ),
)

load_log-log_text_example :
    load_log roomy 5 (log_text entries) starting ≡ some (replay roomy entries starting)
load_log-log_text_example = load_log-log_text roomy entries starting entries-AllLoggable

-- A directory whose name has a space is not loaded: "M /d e 755" has no number behind its first word.
load_spaced : load_line (log_line (made_dir (dir_path ++ (b' ' ∷ b'e' ∷ [])) 0o755)) ≡ skipped
unfolding load_line log_line load_rest number digit_char is_space read_word word_of skip_spaces
    read_number at_digit digit_value
load_spaced = refl
