-- ===== src/Shell/Descriptors.antt =====
-- The open descriptors of a process, as the system calls of task03-processes/src/execute.c change them.
use systems_programming_labs.Prelude.{
  ℕ, Bool, true, false, Option, none, some, List, [], ◌∷◌, ◌==◌, if◌then◌else◌,
}

abbrev pub Text : Type 0
Text = List ℕ

-- What a descriptor refers to: a file that the shell itself was started with, one that a redirection
-- opened, or an end of the pipe that the stage of that number made.
pub data File : Type 0 where
  inherited : ℕ → File
  input_file : Text → File
  output_file : Text → File
  read_of : ℕ → File
  write_of : ℕ → File

unfoldable pub pipe_end : File → Bool
pipe_end (inherited n) = false
pipe_end (input_file name) = false
pipe_end (output_file name) = false
pipe_end (read_of stage) = true
pipe_end (write_of stage) = true

pub record Descriptor : Type 0 where
  pub fd : ℕ
  pub file : File
  pub close_on_exec : Bool

abbrev pub Table : Type 0
Table = List Descriptor

unfoldable pub lookup_fd : ℕ → Table → Option Descriptor
lookup_fd fd [] = none
lookup_fd fd (d ∷ t) = let later = lookup_fd fd t in if d.fd == fd then some d else later

-- `close`
unfoldable pub close_fd : ℕ → Table → Table
close_fd fd [] = []
close_fd fd (d ∷ t) = let later = close_fd fd t in if d.fd == fd then later else d ∷ later

-- `dup2`, which changes nothing where the two descriptors are one.
unfoldable pub dup2 : ℕ → ℕ → Table → Table
dup2 old new t = if old == new then t else elim (lookup_fd old t) [
  | none ↦ t
  | some d ↦ record d { fd = new; file = d.file; close_on_exec = false } ∷ close_fd new t
]

-- The descriptors that stay open when the process image is replaced.
unfoldable pub after_exec : Table → Table
after_exec [] = []
after_exec (d ∷ t) = let later = after_exec t in if d.close_on_exec then later else d ∷ later

-- The file behind a descriptor.
unfoldable pub file_at : ℕ → Table → Option File
file_at fd t = elim (lookup_fd fd t) [ none ↦ none | some d ↦ some d.file ]
