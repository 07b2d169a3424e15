-- ===== src/Shell/Pipelines.antt =====
-- Whole calls of `run_pipeline` in task03-processes/src/execute.c.
use systems_programming_labs.Prelude.{
  ◌≤◌, ◌<◌, ◌≡◌, refl, sym, subst, ap, Bool, true, false, some, List, [], ◌∷◌, ◌==◌, if◌then◌else◌,
  length, arith,
}
use systems_programming_labs.Shell.Descriptors.{File, Table}
use systems_programming_labs.Shell.Execute.{
  Command, Pipeline, Kernel, Spawned, started, max_processes, spawn, close_pipes, wait_all,
  Finished, run_pipeline,
}
use systems_programming_labs.Shell.Wiring.{IsReady}
use systems_programming_labs.Shell.Started.{AllWired, Works, spawn-Starts}
use systems_programming_labs.Shell.Status.{Waited, wait_all-Waited}

abbrev pub commands : Pipeline → List Command
commands p = p.first_command ∷ p.next_commands

abbrev pub begin : Table → Spawned
begin t = record { table = t; pipes = []; processes = []; children = [] }

abbrev finish : Kernel → Pipeline → Spawned → Finished
finish k p s =
    let waiting = if p.background then (0, []) else wait_all k.waits s.processes in
    record {
      result = waiting.0;
      table = close_pipes s.pipes s.table;
      children = s.children;
      processes = s.processes;
      waited = waiting.1;
    }

run_pipeline-started :
    (k : Kernel) (p : Pipeline) (t : Table) (s : Spawned)
    → 0 < length p.first_command.argv
    → spawn k (commands p) (begin t) ≡ started s
    → run_pipeline k p t ≡ some (finish k p s)
unfolding run_pipeline
run_pipeline-started k p t s some_word starts =
    let not_empty : (length p.first_command.argv == 0) ≡ false = ground (arith, some_word) in
    rw (run_pipeline, not_empty, starts) refl

-- The result of a call and the processes that it waited for.
abbrev pub IsStatus : Kernel → Bool → Finished → Type 0
IsStatus k true f = (f.result ≡ 0) × (f.waited ≡ [])
IsStatus k false f = Waited k.waits f.processes (f.result, f.waited)

finish-IsStatus :
    (k : Kernel) (p : Pipeline) (s : Spawned) (background : Bool)
    → p.background ≡ background
    → IsStatus k background (finish k p s)
finish-IsStatus k p s true e = (
  ap (λ b. (if b then (0, []) else wait_all k.waits s.processes).0) e,
  ap (λ b. (if b then (0, []) else wait_all k.waits s.processes).1) e,
)
finish-IsStatus k p s false e =
    subst
      (λ b.
        let w = if b then (0, []) else wait_all k.waits s.processes in
        Waited k.waits s.processes (w.0, w.1))
      (sym e) (wait_all-Waited k.waits s.processes)

-- Where `pipe2` and `fork` succeed, a pipeline of at most 1024 commands starts one child for each command,
-- each wired as its command and place say, and leaves the shell the descriptors it had. In the background
-- the result is 0, and no process is waited for. In the foreground it is 0 when every process is waited for
-- with success and exits with 0; otherwise it is 1, and the processes behind the first one that fails are
-- not waited for.
pub run_pipeline-wires :
    (k : Kernel) (works : Works k) (shell_in shell_out : File) (p : Pipeline) (t : Table)
    → IsReady shell_in shell_out t
    → 0 < length p.first_command.argv
    → length (commands p) ≤ max_processes
    → (f : Finished) × (run_pipeline k p t ≡ some f)
      × AllWired k shell_in shell_out 0 (commands p) f.children
      × (length f.processes ≡ length (commands p))
      × (f.table ≡ t)
      × IsStatus k p.background f
unfolding close_pipes
run_pipeline-wires k works shell_in shell_out p t ready some_word room =
    let (s, starts) =
      spawn-Starts k works shell_in shell_out (commands p) (begin t) (ready, tt)
        (omega (arith, room)) in
    let (goes, kids, total, closed) = starts in
    (
      finish k p s,
      run_pipeline-started k p t s some_word goes,
      subst (AllWired k shell_in shell_out 0 (commands p)) (sym kids.1) kids.2,
      omega (arith, total),
      closed,
      finish-IsStatus k p s p.background refl,
    )
