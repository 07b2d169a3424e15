-- ===== src/MemFs/LogText.antt =====
-- A log that is written and loaded again, for task02-fileio/src/log.c.
use systems_programming_labs.Prelude.{
  ℕ, suc, ◌+◌, ◌≤◌, ◌<◌, ◌≡◌, refl, ◌∙◌, ap, true, Option, some, List, [], ◌∷◌, ◌++◌, append_assoc,
  leb, length, arith,
}
use systems_programming_labs.ExternalSort.Files.{newline, chunk}
use systems_programming_labs.ExternalSort.Lines.{Plain, chunk_fits}
use systems_programming_labs.MemFs.Bytes.{Bytes}
use systems_programming_labs.MemFs.Calls.{
  LogEntry, made_dir, made_file, written, linked, MemFs, Memory,
}
use systems_programming_labs.MemFs.Log.{
  number, hex_text, log_line, log_text, is_space, digit_value, loaded, load_rest, load_line,
  replay_entry, run_line, load_log,
}
use systems_programming_labs.MemFs.LogNumbers.{
  read_octal, read_decimal, AllPrintable, IsWord, read_word-word, AreBytes, decode-hex_text,
  hex_text-AllPrintable, number-AllPrintable,
}

-- A path or a target that fits in its buffer.
abbrev pub IsName : Bytes → Type 0
IsName w = IsWord w × (length w ≤ 1023)

abbrev pub HasNames : LogEntry → Type 0
HasNames (made_dir path mode) = IsName path
HasNames (made_file path mode) = IsName path
HasNames (written path offset buf) =
    IsName path × (0 < length buf) × (length buf ≤ 2048) × AreBytes buf
HasNames (linked path target) = IsName path × IsName target

-- An entry whose line `load_log` can read: words without white space that fit in its buffers, some bytes if
-- it is a write, and a line of at most 4094 bytes.
abbrev pub IsLoggable : LogEntry → Type 0
IsLoggable entry = HasNames entry × (length (log_line entry) < 4095)

IsName-fits : (w : Bytes) → IsName w → leb (length w) 1023 ≡ true
IsName-fits w h = ground (arith, h.1)

hex_text-IsWord : (buf : Bytes) → 0 < length buf → AreBytes buf → IsWord (hex_text buf)
unfolding hex_text
hex_text-IsWord [] h bytes = absurd (omega (arith, h))
hex_text-IsWord (b ∷ buf) h bytes = (omega arith, hex_text-AllPrintable (b ∷ buf) bytes)

-- A line, with its newline, is read as the entry that it was written for.
load_line-log_line :
    (entry : LogEntry)
    → HasNames entry
    → load_line (log_line entry ++ (newline ∷ [])) ≡ loaded entry
unfolding load_line load_rest log_line is_space digit_value
load_line-log_line (made_dir path mode) h =
    rw
      (
        append_assoc path (b' ' ∷ number (mode + 1) 8 mode) (newline ∷ []),
        load_line,
        read_word-word path (b' ' ∷ (number (mode + 1) 8 mode ++ (newline ∷ []))) h.0 refl,
        IsName-fits path h,
        load_rest,
        read_octal mode (newline ∷ []) refl,
      )
      refl
load_line-log_line (made_file path mode) h =
    rw
      (
        append_assoc path (b' ' ∷ number (mode + 1) 8 mode) (newline ∷ []),
        load_line,
        read_word-word path (b' ' ∷ (number (mode + 1) 8 mode ++ (newline ∷ []))) h.0 refl,
        IsName-fits path h,
        load_rest,
        read_octal mode (newline ∷ []) refl,
      )
      refl
load_line-log_line (written path offset buf) h =
    let size = length buf in
    let hex = hex_text buf ++ (newline ∷ []) in
    let sized = b' ' ∷ (number (size + 1) 10 size ++ (b' ' ∷ hex)) in
    let fits : leb size 2048 ≡ true = ground (arith, h.2) in
    rw
      (
        append_assoc path
            (b' ' ∷ number (offset + 1) 10 offset
              ++ (b' ' ∷ number (size + 1) 10 size ++ (b' ' ∷ hex_text buf)))
            (newline ∷ []),
        append_assoc (number (offset + 1) 10 offset)
            (b' ' ∷ number (size + 1) 10 size ++ (b' ' ∷ hex_text buf)) (newline ∷ []),
        append_assoc (number (size + 1) 10 size) (b' ' ∷ hex_text buf) (newline ∷ []),
        load_line,
        read_word-word path (b' ' ∷ (number (offset + 1) 10 offset ++ sized)) h.0.0 refl,
        IsName-fits path h.0,
        load_rest,
        read_decimal offset sized refl,
        read_decimal size (b' ' ∷ hex) refl,
        read_word-word (hex_text buf) (newline ∷ []) (hex_text-IsWord buf h.1 h.3) refl,
        fits,
        decode-hex_text buf h.3,
      )
      refl
load_line-log_line (linked path target) h =
    rw
      (
        append_assoc path (b' ' ∷ target) (newline ∷ []),
        load_line,
        read_word-word path (b' ' ∷ (target ++ (newline ∷ []))) h.0.0 refl,
        IsName-fits path h.0,
        load_rest,
        read_word-word target (newline ∷ []) h.1.0 refl,
        IsName-fits target h.1,
      )
      refl

AllPrintable-Plain : (w : Bytes) → AllPrintable w → Plain w
unfolding is_space
AllPrintable-Plain [] p = tt
AllPrintable-Plain (c ∷ w) p = (ground (arith, p.0), ground (arith, p.0), AllPrintable-Plain w p.1)

Plain-append : (v w : Bytes) → Plain v → Plain w → Plain (v ++ w)
Plain-append [] w p q = q
Plain-append (c ∷ v) w p q = (p.0, p.1, Plain-append v w p.2 q)

-- A word, a space and more.
Plain-word : (v w : Bytes) → AllPrintable v → Plain w → Plain (v ++ (b' ' ∷ w))
Plain-word v w p q = Plain-append v (b' ' ∷ w) (AllPrintable-Plain v p) (refl, refl, q)

log_line-Plain : (entry : LogEntry) → HasNames entry → Plain (log_line entry)
unfolding log_line
log_line-Plain (made_dir path mode) h = (
  refl,
  refl,
  (
    refl,
    refl,
    Plain-word path _ h.0.1 (
        AllPrintable-Plain _
          (number-AllPrintable (mode + 1) 8 mode (omega arith) (λ n. omega arith))),
  ),
)
log_line-Plain (made_file path mode) h = (
  refl,
  refl,
  (
    refl,
    refl,
    Plain-word path _ h.0.1 (
        AllPrintable-Plain _
          (number-AllPrintable (mode + 1) 8 mode (omega arith) (λ n. omega arith))),
  ),
)
log_line-Plain (written path offset buf) h = (
  refl,
  refl,
  (
    refl,
    refl,
    Plain-word path _ h.0.0.1 (
        Plain-word (number (offset + 1) 10 offset) _
          (number-AllPrintable (offset + 1) 10 offset (omega arith) (λ n. omega arith))
          (Plain-word (number (length buf + 1) 10 (length buf)) _
            (number-AllPrintable (length buf + 1) 10 (length buf) (omega arith) (λ n. omega arith))
            (AllPrintable-Plain _ (hex_text-AllPrintable buf h.3)))),
  ),
)
log_line-Plain (linked path target) h =
    (refl, refl, (refl, refl, Plain-word path target h.0.0.1 (AllPrintable-Plain target h.1.0.1)))

abbrev pub AllLoggable : List LogEntry → Type 0
AllLoggable [] = Unit {0}
AllLoggable (entry ∷ entries) = IsLoggable entry × AllLoggable entries

-- The calls that the entries stand for, one after the other.
unfoldable pub replay : Memory → List LogEntry → MemFs → MemFs
replay mem [] fs = fs
replay mem (entry ∷ entries) fs = replay mem entries (replay_entry mem entry fs)

run_line-loaded :
    (mem : Memory) (entry : LogEntry) (line : Bytes) (next : MemFs → Option MemFs) (fs : MemFs)
    → 0 < length line
    → load_line line ≡ loaded entry
    → run_line mem line next fs ≡ next (replay_entry mem entry fs)
unfolding run_line
run_line-loaded mem entry [] next fs h found = absurd (omega (arith, h))
run_line-loaded mem entry (c ∷ cs) next fs h found = rw (run_line, found) refl

load_log-line :
    (mem : Memory) (calls : ℕ) (entry : LogEntry) (line file rest : Bytes) (fs : MemFs)
    → 0 < length line
    → chunk 4095 file ≡ (line, rest)
    → load_line line ≡ loaded entry
    → load_log mem (suc calls) file fs ≡ load_log mem calls rest (replay_entry mem entry fs)
unfolding load_log
load_log-line mem calls entry line file rest fs h read found =
    ap (λ p. run_line mem p.0 (λ fs'. load_log mem calls p.1 fs') fs) read
    ∙ run_line-loaded mem entry line (load_log mem calls rest) fs h found

log_line-starts : (entry : LogEntry) → 0 < length (log_line entry ++ (newline ∷ []))
unfolding log_line
log_line-starts (made_dir path mode) = omega arith
log_line-starts (made_file path mode) = omega arith
log_line-starts (written path offset buf) = omega arith
log_line-starts (linked path target) = omega arith

load_log-step :
    (mem : Memory) (calls : ℕ) (entry : LogEntry) (rest : Bytes) (fs : MemFs)
    → IsLoggable entry
    → load_log mem (suc calls) (log_line entry ++ (newline ∷ rest)) fs
      ≡ load_log mem calls rest (replay_entry mem entry fs)
load_log-step mem calls entry rest fs h =
    load_log-line mem calls entry (log_line entry ++ (newline ∷ []))
      (log_line entry ++ (newline ∷ rest)) rest fs (log_line-starts entry)
      (chunk_fits 4095 (log_line entry) rest (log_line-Plain entry h.0) h.1)
      (load_line-log_line entry h.0)

load_log-end : (mem : Memory) (calls : ℕ) (fs : MemFs) → load_log mem (suc calls) [] fs ≡ some fs
unfolding load_log chunk run_line
load_log-end mem calls fs = refl

-- `load_log` of the text of a log makes the calls that its entries stand for, if these have words without
-- white space that fit in the buffers, 1 to 2048 bytes if they are writes, and lines of at most 4094 bytes;
-- one call of `fgets` for each entry and one more are enough.
pub load_log-log_text :
    (mem : Memory) (entries : List LogEntry) (fs : MemFs)
    → AllLoggable entries
    → load_log mem (length entries + 1) (log_text entries) fs ≡ some (replay mem entries fs)
unfolding replay log_text
load_log-log_text mem [] fs h = load_log-end mem 0 fs
load_log-log_text mem (entry ∷ entries) fs h =
    ap (λ v. load_log mem v (log_line entry ++ (newline ∷ log_text entries)) fs) (omega arith)
    ∙ load_log-step mem (length entries + 1) entry (log_text entries) fs h.0
    ∙ load_log-log_text mem entries (replay_entry mem entry fs) h.1
