-- ===== src/Shell/Tests.antt =====
-- Runs of task03-processes/src on small pipelines and sessions.
use systems_programming_labs.Prelude.{
  ℕ, ◌+◌, ◌≤◌, ◌≡◌, refl, true, false, Option, none, some, List, [], ◌∷◌, ◌==◌, inr, max, length,
  arith,
}
use systems_programming_labs.Shell.Descriptors.{
  Text, File, inherited, input_file, output_file, read_of, write_of, pipe_end, Table, lookup_fd,
  close_fd, dup2, after_exec, file_at,
}
use systems_programming_labs.Shell.Execute.{
  Command, Pipeline, Kernel, Child, exits, runs, redirect, from_previous, child_stdin, to_next,
  child_stdout, child, add_pipe, add_process, has_next, spawn, wait_all, Finished, run_pipeline,
}
use systems_programming_labs.Shell.Redirect.{kept}
use systems_programming_labs.Shell.Wiring.{IsReady}
use systems_programming_labs.Shell.Started.{AllWired, Works}
use systems_programming_labs.Shell.Pipelines.{commands, IsStatus, run_pipeline-wires}
use systems_programming_labs.Shell.Session.{
  pos, negsuc, atoi, signed, digits, is_digit, negate, builtin_none, builtin_exit, builtin_wait,
  builtin_kill, Signals, leaves, returns, run_builtin, number_or, starts_with_digit, is_some,
  check_loop, check_consistency, ParsedLine, main_loop,
}
use systems_programming_labs.Shell.Sessions.{IsSound, main_loop-IsSound}

-- A descriptor above all that are open.
abbrev above : Table → ℕ
above [] = 0
above (d ∷ t) = max (d.fd + 1) (above t)

lookup_fd-above : (fd : ℕ) (t : Table) → above t ≤ fd → lookup_fd fd t ≡ none
unfolding lookup_fd
lookup_fd-above fd [] h = refl
lookup_fd-above fd (d ∷ t) h =
    let other : (d.fd == fd) ≡ false = ground (arith, h) in
    rw other (lookup_fd-above fd t (omega (arith, h)))

-- Every system call succeeds and every program exits with 0, except those that a test says to fail.
abbrev works_but : (ℕ → Option ℕ) → Kernel
works_but waits = record {
  pipes = λ stage. true;
  forks = λ stage. some (100 + stage);
  opens = λ name. true;
  creates = λ name. true;
  execs = λ argv. true;
  waits = waits;
  free_fd = above;
}

works_but-Works : (waits : ℕ → Option ℕ) → Works (works_but waits)
works_but-Works waits = (
  λ t. lookup_fd-above (above t) t (omega arith),
  (λ stage. refl),
  (λ stage. (100 + stage, refl)),
)

abbrev fine : ℕ → Option ℕ
fine pid = some 0

abbrev shell_table : Table
shell_table = kept 0 (inherited 0) ∷ kept 1 (inherited 1) ∷ kept 2 (inherited 1) ∷ []

shell_table-IsReady : IsReady (inherited 0) (inherited 1) shell_table
unfolding lookup_fd pipe_end
shell_table-IsReady = (refl, refl, (inr refl, (inr refl, (inr refl, tt))))

-- A command of one letter.
abbrev command : ℕ → Option Text → Option Text → Command
command letter input output = record {
  argv = (letter ∷ []) ∷ [];
  output_redir = output;
  input_redir = input;
}

-- `a < i | b | c > o`
abbrev three : Pipeline
three = record {
  first_command = command b'a' (some (b'i' ∷ [])) none;
  next_commands = command b'b' none none ∷ command b'c' none (some (b'o' ∷ [])) ∷ [];
  background = false;
}

-- What the children of a call read and write.
abbrev ends : List Child → List (Option File × Option File)
ends [] = []
ends (exits code ∷ cs) = (none, none) ∷ ends cs
ends (runs argv t ∷ cs) = (file_at 0 t, file_at 1 t) ∷ ends cs

abbrev report : Option Finished → Option (ℕ × List ℕ × List (Option File × Option File))
report none = none
report (some f) = some (f.result, f.waited, ends f.children)

run_three :
    report (run_pipeline (works_but fine) three shell_table)
    ≡ some (
      0,
      100 ∷ 101 ∷ 102 ∷ [],
      (some (input_file (b'i' ∷ [])), some (write_of 0))
          ∷ (some (read_of 0), some (write_of 1))
          ∷ (some (read_of 1), some (output_file (b'o' ∷ [])))
          ∷ [],
    )
unfolding run_pipeline spawn add_pipe add_process child child_stdin child_stdout redirect
    from_previous to_next has_next dup2 close_fd lookup_fd after_exec file_at wait_all
run_three = refl

-- The first process exits with 1 (status 256): the others are not waited for. One that a signal ended
-- (status 9) counts as a success.
run_failing :
    (wait_all (λ pid. some 256) (100 ∷ 101 ∷ []) ≡ (1, 100 ∷ []))
    × (wait_all (λ pid. some 9) (100 ∷ 101 ∷ []) ≡ (0, 100 ∷ 101 ∷ []))
unfolding wait_all
run_failing = (refl, refl)

-- Where `fork` fails, the two ends of the pipe stay open in the shell.
run_no_fork :
    run_pipeline (record (works_but fine) { forks = λ stage. none }) three shell_table
    ≡ some (record {
      result = 1;
      table =
          record { fd = 4; file = write_of 0; close_on_exec = true }
          ∷ record { fd = 3; file = read_of 0; close_on_exec = true }
          ∷ shell_table;
      children = [];
      processes = [];
      waited = [];
    })
unfolding run_pipeline spawn add_pipe
run_no_fork = refl

abbrev every_signal : Signals
every_signal = record { waitpid = λ pid. true; kill = λ pid. true }

run_atoi :
    (atoi (b' ' ∷ b'-' ∷ b'4' ∷ b'2' ∷ b'x' ∷ []) ≡ negsuc 41)
    × (atoi (b'+' ∷ b'7' ∷ []) ≡ pos 7)
    × (atoi (b'x' ∷ []) ≡ pos 0)
unfolding atoi signed digits is_digit negate
run_atoi = (refl, refl, refl)

run_builtins :
    (run_builtin every_signal builtin_exit none ≡ leaves (pos 0))
    × (run_builtin every_signal builtin_exit (some (b'3' ∷ [])) ≡ leaves (pos 3))
    × (run_builtin every_signal builtin_wait none ≡ returns 0)
    × (run_builtin every_signal builtin_kill (some (b'-' ∷ b'1' ∷ [])) ≡ returns 1)
    × (run_builtin every_signal builtin_kill (some (b'9' ∷ [])) ≡ returns 0)
    × (run_builtin every_signal builtin_kill none ≡ returns 1)
unfolding run_builtin number_or atoi signed digits is_digit starts_with_digit
run_builtins = (refl, refl, refl, refl, refl, refl)

abbrev pipeline_line : Pipeline → ParsedLine
pipeline_line p = record { builtin = builtin_none; builtin_arg = none; pipeline = p; eof = false }

-- An output redirection before the last command.
run_ambiguous :
    check_consistency (record {
      first_command = command b'a' none (some (b'o' ∷ []));
      next_commands = command b'b' none none ∷ [];
      background = false;
    })
    ≡ false
unfolding check_consistency check_loop is_some has_next
run_ambiguous = refl

run_pipeline-wires_example :
    (f : Finished) × (run_pipeline (works_but fine) three shell_table ≡ some f)
    × AllWired (works_but fine) (inherited 0) (inherited 1) 0 (commands three) f.children
    × (length f.processes ≡ 3)
    × (f.table ≡ shell_table)
    × IsStatus (works_but fine) false f
run_pipeline-wires_example =
    run_pipeline-wires (works_but fine) (works_but-Works fine) (inherited 0) (inherited 1) three
      shell_table shell_table-IsReady (omega arith) (omega arith)

main_loop-IsSound_example : IsSound shell_table (
    main_loop
      (λ n. works_but fine)
      every_signal
      0
      (pipeline_line three
        ∷ record (pipeline_line three) { builtin = builtin_exit; builtin_arg = some (b'3' ∷ []) }
        ∷ [])
      0
      shell_table)
main_loop-IsSound_example =
    main_loop-IsSound (λ n. works_but fine) (λ n. works_but-Works fine) every_signal (inherited 0)
      (inherited 1) 0
      (pipeline_line three
        ∷ record (pipeline_line three) { builtin = builtin_exit; builtin_arg = some (b'3' ∷ []) }
        ∷ [])
      0 shell_table shell_table-IsReady (omega arith, (omega arith, tt))
