-- ===== src/Shell/Session.antt =====
-- `run_builtin` of task03-processes/src/execute.c, and the main loop of task03-processes/src/main.c. What
-- `yyparse` read is the loop's input.
use systems_programming_labs.Prelude.{
  ℕ, zero, suc, ◌+◌, ◌-◌, ◌*◌, Bool, true, false, not, ◌&&◌, ◌||◌, Option, none, some, List, [],
  ◌∷◌, ◌==◌, leb, if◌then◌else◌, length,
}
use systems_programming_labs.Shell.Descriptors.{Text, Table}
use systems_programming_labs.Shell.Execute.{
  Command, Pipeline, Kernel, has_next, Finished, run_pipeline,
}

-- `int`; `negsuc n` is -1 - n.
pub data ℤ : Type 0 where
  pos : ℕ → ℤ
  negsuc : ℕ → ℤ

unfoldable pub is_digit : ℕ → Bool
is_digit c = leb b'0' c && leb c b'9'

-- `atoi` behind the sign, where the number fits in an `int`.
unfoldable pub digits : ℕ → Text → ℕ
digits n [] = n
digits n (c ∷ cs) = let rest = digits (n * 10 + (c - b'0')) cs in if is_digit c then rest else n

unfoldable pub negate : ℕ → ℤ
negate zero = pos 0
negate (suc n) = negsuc n

unfoldable pub signed : Text → ℤ
signed [] = pos 0
signed (c ∷ cs) =
    if c == b'-'
    then negate (digits 0 cs)
    else if c == b'+'
    then pos (digits 0 cs)
    else pos (digits 0 (c ∷ cs))

-- `atoi`
unfoldable pub atoi : Text → ℤ
atoi [] = pos 0
atoi (c ∷ cs) =
    let rest = atoi cs in if (c == b' ') || (leb 9 c && leb c 13) then rest else signed (c ∷ cs)

pub data Builtin : Type 0 where
  builtin_none : Builtin
  builtin_exit : Builtin
  builtin_wait : Builtin
  builtin_kill : Builtin

-- Whether `waitpid` and `kill` succeed for a process.
pub record Signals : Type 0 where
  pub waitpid : ℤ → Bool
  pub kill : ℤ → Bool

-- How a builtin ends: `exit`, or a status.
pub data Ended : Type 0 where
  leaves : ℤ → Ended
  returns : ℕ → Ended

-- `if (builtin_arg) ... = atoi(builtin_arg)`
unfoldable pub number_or : ℤ → Option Text → ℤ
number_or default none = default
number_or default (some arg) = atoi arg

-- The test of `BUILTIN_KILL` on its argument.
unfoldable pub starts_with_digit : Text → Bool
starts_with_digit [] = false
starts_with_digit (c ∷ cs) = is_digit c

unfoldable pub run_builtin : Signals → Builtin → Option Text → Ended
run_builtin os builtin_none arg = returns 1
run_builtin os builtin_exit arg = leaves (number_or (pos 0) arg)
run_builtin os builtin_wait arg =
    if os.waitpid (number_or (negsuc 0) arg) then returns 0 else returns 1
run_builtin os builtin_kill none = returns 1
run_builtin os builtin_kill (some arg) =
    if starts_with_digit arg then if os.kill (atoi arg) then returns 0 else returns 1 else returns 1

unfoldable pub is_some : Option Text → Bool
is_some none = false
is_some (some name) = true

-- The loop of `check_consistency`, with `ret`.
unfoldable pub check_loop : List Command → Bool → Bool
check_loop [] ret = ret
check_loop (c ∷ cs) ret =
    let ambiguous = check_loop cs false in
    let fine = check_loop cs ret in
    if is_some c.output_redir && has_next cs then ambiguous else fine

unfoldable pub check_consistency : Pipeline → Bool
check_consistency p = check_loop (p.first_command ∷ p.next_commands) true

-- What one call of `yyparse` leaves.
pub record ParsedLine : Type 0 where
  pub builtin : Builtin
  pub builtin_arg : Option Text
  pub pipeline : Pipeline
  pub eof : Bool

-- The end of a session: its exit code, the pipelines that ran, in order, and the shell's descriptors.
pub record Session : Type 0 where
  pub exit_code : ℤ
  pub ran : List (Pipeline × Finished)
  pub table : Table

unfoldable pub end_session : ℤ → Table → Session
end_session code t = record { exit_code = code; ran = []; table = t }

unfoldable pub add_run : Pipeline → Finished → Session → Session
add_run p f s = record s { ran = (p, f) ∷ s.ran }

abbrev pub is_none : Builtin → Bool
is_none builtin_none = true
is_none builtin_exit = false
is_none builtin_wait = false
is_none builtin_kill = false

-- The loop of `main`. At the end of the list, `yyparse` finds no line and sets `eof`. `none` is an overflow
-- of the arrays of `run_pipeline`.
unfoldable pub main_loop : (ℕ → Kernel) → Signals → ℕ → List ParsedLine → ℕ → Table → Option Session
main_loop kernel os n [] last_status t = some (end_session (pos last_status) t)
main_loop kernel os n (line ∷ lines) last_status t =
    let skip = main_loop kernel os (n + 1) lines last_status t in
    let after = λ (status : ℕ) (t' : Table). main_loop kernel os (n + 1) lines status t' in
    if line.eof
    then some (end_session (pos last_status) t)
    else if is_none line.builtin
    then if check_consistency line.pipeline && not (length line.pipeline.first_command.argv == 0)
      then elim (run_pipeline (kernel n) line.pipeline t) [
        | none ↦ none
        | some f ↦ elim (after f.result f.table) [
          | none ↦ none
          | some s ↦ some (add_run line.pipeline f s)
        ]
      ]
      else skip
    else elim (run_builtin os line.builtin line.builtin_arg) [
      | leaves code ↦ some (end_session code t)
      | returns status ↦ after status t
    ]
