-- ===== src/Shell/Execute.antt =====
-- `run_pipeline` of task03-processes/src/execute.c. The system calls answer as the kernel says they do; the
-- descriptors of the shell and of its children are tables.
use systems_programming_labs.Prelude.{
  ℕ, ◌/◌, ◌%◌, Bool, true, false, Option, none, some, List, [], ◌∷◌, ◌++◌, ◌==◌, ltb, if◌then◌else◌,
  length,
}
use systems_programming_labs.Shell.Descriptors.{
  Text, File, input_file, output_file, read_of, write_of, Table, close_fd, dup2, after_exec,
}

pub record Command : Type 0 where
  pub argv : List Text
  pub output_redir : Option Text
  pub input_redir : Option Text

-- The commands that follow the first one stand in the order of the `next` pointers.
pub record Pipeline : Type 0 where
  pub first_command : Command
  pub next_commands : List Command
  pub background : Bool

-- The answers of the kernel: whether `pipe2` succeeds at a stage, the process that `fork` makes there,
-- whether a file opens, whether an image replaces the child, the status of a process that is waited for,
-- and the descriptor that a new file gets.
pub record Kernel : Type 0 where
  pub pipes : ℕ → Bool
  pub forks : ℕ → Option ℕ
  pub opens : Text → Bool
  pub creates : Text → Bool
  pub execs : List Text → Bool
  pub waits : ℕ → Option ℕ
  pub free_fd : Table → ℕ

pub record Pipe : Type 0 where
  pub read_fd : ℕ
  pub write_fd : ℕ

-- How a child goes on: it exits, or runs the program with these descriptors.
pub data Child : Type 0 where
  exits : ℕ → Child
  runs : List Text → Table → Child

-- The file at its new descriptor, moved to `new` by `dup2` and closed at the old one.
unfoldable pub redirect : (Table → ℕ) → File → ℕ → Table → Table
redirect free_fd file new t =
    let fd = free_fd t in
    close_fd fd (dup2 fd new (record { fd = fd; file = file; close_on_exec = false } ∷ t))

-- `dup2(pipes[pcnt - 1][PIPE_READ], STDIN_FILENO)` behind `else if (pcnt)`. The last pipe stands first.
unfoldable pub from_previous : List Pipe → Table → Table
from_previous [] t = t
from_previous (this ∷ []) t = t
from_previous (this ∷ previous ∷ ps) t = dup2 previous.read_fd 0 t

-- The standard input of the child, `none` where it exits.
unfoldable pub child_stdin : Kernel → Command → List Pipe → Table → Option Table
child_stdin k cmd pipes t = elim cmd.input_redir [
  | some name ↦ if k.opens name then some (redirect k.free_fd (input_file name) 0 t) else none
  | none ↦ some (from_previous pipes t)
]

-- `dup2(pipes[pcnt][PIPE_WRITE], STDOUT_FILENO)` behind `else if (cmd->next)`
unfoldable pub to_next : Bool → List Pipe → Table → Table
to_next next [] t = t
to_next next (this ∷ ps) t = if next then dup2 this.write_fd 1 t else t

-- The standard output of the child, `none` where it exits.
unfoldable pub child_stdout : Kernel → Command → Bool → List Pipe → Table → Option Table
child_stdout k cmd next pipes t = elim cmd.output_redir [
  | some name ↦ if k.creates name then some (redirect k.free_fd (output_file name) 1 t) else none
  | none ↦ some (to_next next pipes t)
]

-- The child of one stage.
unfoldable pub child : Kernel → Command → Bool → List Pipe → Table → Child
child k cmd next pipes t = elim (child_stdin k cmd pipes t) [
  | none ↦ exits 1
  | some t' ↦ elim (child_stdout k cmd next pipes t') [
    | none ↦ exits 1
    | some t'' ↦ if k.execs cmd.argv then runs cmd.argv (after_exec t'') else exits 1
  ]
]

-- The parent's arrays and descriptors, and the children so far. The last pipe stands first.
pub record Spawned : Type 0 where
  pub table : Table
  pub pipes : List Pipe
  pub processes : List ℕ
  pub children : List Child

-- How the loop over the commands ends: past the end of the arrays, with `return 1`, or with all started.
pub data Loop : Type 0 where
  overflow : Loop
  failed : Spawned → Loop
  started : Spawned → Loop

abbrev pub max_processes : ℕ
max_processes = 1024

-- `pipe2(pipes[pcnt], O_CLOEXEC)`
unfoldable pub add_pipe : (Table → ℕ) → Spawned → Spawned
add_pipe free_fd s =
    let stage = length s.processes in
    let r = free_fd s.table in
    let t : Table = record { fd = r; file = read_of stage; close_on_exec = true } ∷ s.table in
    let w = free_fd t in
    record s {
      table = record { fd = w; file = write_of stage; close_on_exec = true } ∷ t;
      pipes = record { read_fd = r; write_fd = w } ∷ s.pipes;
    }

-- `processes[pcnt++] = pid`, with the child that the call of `fork` made.
unfoldable pub add_process : ℕ → Child → Spawned → Spawned
add_process pid c s = record s {
  processes = s.processes ++ (pid ∷ []);
  children = s.children ++ (c ∷ []);
}

unfoldable pub has_next : List Command → Bool
has_next [] = false
has_next (c ∷ cs) = true

-- The loop over the commands.
unfoldable pub spawn : Kernel → List Command → Spawned → Loop
spawn k [] s = started s
spawn k (cmd ∷ cmds) s =
    let piped = add_pipe k.free_fd s in
    if ltb (length s.processes) max_processes
    then if k.pipes (length s.processes)
      then elim (k.forks (length s.processes)) [
        | none ↦ failed piped
        | some pid ↦
            spawn k cmds
              (add_process pid (child k cmd (has_next cmds) piped.pipes piped.table) piped)
      ]
      else failed s
    else overflow

-- The loop that closes the pipes.
unfoldable pub close_pipes : List Pipe → Table → Table
close_pipes [] t = t
close_pipes (p ∷ ps) t = close_fd p.write_fd (close_fd p.read_fd (close_pipes ps t))

abbrev pub wexitstatus : ℕ → ℕ
wexitstatus status = status / 256 % 256

-- The loop that waits: the result, and the processes that were waited for.
unfoldable pub wait_all : (ℕ → Option ℕ) → List ℕ → ℕ × List ℕ
wait_all waits [] = (0, [])
wait_all waits (pid ∷ pids) =
    let rest = wait_all waits pids in
    elim (waits pid) [
      | none ↦ (1, pid ∷ [])
      | some status ↦ if wexitstatus status == 0 then (rest.0, pid ∷ rest.1) else (1, pid ∷ [])
    ]

-- What a call of `run_pipeline` leaves: its result, the shell's descriptors, the children, the processes
-- and those of them that were waited for.
pub record Finished : Type 0 where
  pub result : ℕ
  pub table : Table
  pub children : List Child
  pub processes : List ℕ
  pub waited : List ℕ

-- `none` where the arrays overflow.
unfoldable pub run_pipeline : Kernel → Pipeline → Table → Option Finished
run_pipeline k p t =
    let begin : Spawned = record { table = t; pipes = []; processes = []; children = [] } in
    if length p.first_command.argv == 0
    then some (record { result = 0; table = t; children = []; processes = []; waited = [] })
    else elim (spawn k (p.first_command ∷ p.next_commands) begin) [
      | overflow ↦ none
      | failed s ↦ some (record {
        result = 1;
        table = s.table;
        children = s.children;
        processes = s.processes;
        waited = [];
      })
      | started s ↦
          let waiting = if p.background then (0, []) else wait_all k.waits s.processes in
          some (record {
            result = waiting.0;
            table = close_pipes s.pipes s.table;
            children = s.children;
            processes = s.processes;
            waited = waiting.1;
          })
    ]
