-- ===== src/Shell/Started.antt =====
-- The loop of `run_pipeline` in task03-processes/src/execute.c over the commands, where no system call fails.
use systems_programming_labs.Prelude.{
  ℕ, ◌+◌, ◌≤◌, ◌≡◌, refl, sym, subst, ◌∙◌, true, some, List, [], ◌∷◌, ◌++◌, append_assoc,
  append-nil, ltb, length, length-append, arith,
}
use systems_programming_labs.Shell.Descriptors.{File}
use systems_programming_labs.Shell.Execute.{
  Command, Kernel, Pipe, Child, Spawned, started, max_processes, add_pipe, add_process, child,
  has_next, spawn, close_pipes,
}
use systems_programming_labs.Shell.Redirect.{IsFree}
use systems_programming_labs.Shell.Child.{IsWired, child-IsWired}
use systems_programming_labs.Shell.Spawn.{Between, add_pipe-opens, add_pipe-closed, step-Between}

-- One child for each command, wired as the command and its place in the pipeline say.
abbrev pub AllWired : Kernel → File → File → ℕ → List Command → List Child → Type 0
AllWired k shell_in shell_out stage [] [] = Unit {0}
AllWired k shell_in shell_out stage [] (c ∷ cs) = ⊥
AllWired k shell_in shell_out stage (cmd ∷ cmds) [] = ⊥
AllWired k shell_in shell_out stage (cmd ∷ cmds) (c ∷ cs) =
    IsWired k shell_in shell_out stage (has_next cmds) cmd c
    × AllWired k shell_in shell_out (stage + 1) cmds cs

-- `pipe2` and `fork` succeed, and a new descriptor is none that is open.
abbrev pub Works : Kernel → Type 0
Works k =
    IsFree k.free_fd
    × ((stage : ℕ) → k.pipes stage ≡ true)
    × ((stage : ℕ) → (pid : ℕ) × (k.forks stage ≡ some pid))

pub spawn-step :
    (k : Kernel) (cmd : Command) (cmds : List Command) (s : Spawned) (pid : ℕ)
    → length s.processes + 1 ≤ max_processes
    → k.pipes (length s.processes) ≡ true
    → k.forks (length s.processes) ≡ some pid
    → spawn k (cmd ∷ cmds) s
      ≡ spawn k cmds (
          add_process pid
            (child k cmd (has_next cmds) (add_pipe k.free_fd s).pipes (add_pipe k.free_fd s).table)
            (add_pipe k.free_fd s))
unfolding spawn
spawn-step k cmd cmds s pid room pipes forks =
    let below : ltb (length s.processes) max_processes ≡ true = ground (arith, room) in
    rw (below, pipes, forks) refl

-- What the loop over the commands leaves.
abbrev pub Starts : Kernel → File → File → List Command → Spawned → Spawned → Type 0
Starts k shell_in shell_out cmds s s' =
    (spawn k cmds s ≡ started s')
    × ((cs : List Child) × (s'.children ≡ s.children ++ cs)
        × AllWired k shell_in shell_out (length s.processes) cmds cs)
    × (length s'.processes ≡ length s.processes + length cmds)
    × (close_pipes s'.pipes s'.table ≡ close_pipes s.pipes s.table)

pub spawn-Starts :
    (k : Kernel) (works : Works k) (shell_in shell_out : File) (cmds : List Command) (s : Spawned)
    → Between k works.0 shell_in shell_out s
    → length s.processes + length cmds ≤ max_processes
    → (s' : Spawned) × Starts k shell_in shell_out cmds s s'
unfolding spawn add_process add_pipe
spawn-Starts k works shell_in shell_out [] s between room =
    (s, (refl, ([], sym (append-nil s.children), tt), omega arith, refl))
spawn-Starts k works shell_in shell_out (cmd ∷ cmds) s between room =
    let (pid, forks) = works.2 (length s.processes) in
    let piped = add_pipe k.free_fd s in
    let c = child k cmd (has_next cmds) piped.pipes piped.table in
    let s1 = add_process pid c piped in
    let step =
      spawn-step k cmd cmds s pid (omega (arith, room)) (works.1 (length s.processes)) forks in
    let next = step-Between k works.0 shell_in shell_out s pid c between in
    let (this, is, ready, latest, mine, own_end, closes) =
      add_pipe-opens k works.0 shell_in shell_out s between in
    let child_of = λ (v : List Pipe). child k cmd (has_next cmds) v piped.table in
    let wired =
      subst
        (λ v. IsWired k shell_in shell_out (length s.processes) (has_next cmds) cmd (child_of v))
        (sym is)
        (child-IsWired k works.0 cmd (has_next cmds) shell_in shell_out this s.pipes
          (length s.processes) piped.table ready latest mine) in
    let count : length (s.processes ++ (pid ∷ [])) ≡ length s.processes + 1 =
      omega (arith, length-append s.processes (pid ∷ [])) in
    let (s', starts) =
      spawn-Starts k works shell_in shell_out cmds s1 next (omega (arith, count, room)) in
    let (goes, more, total, closed) = starts in
    (
      s',
      (
        step ∙ goes,
        (
          c ∷ more.0,
          more.1 ∙ append_assoc s.children (c ∷ []) more.0,
          (wired, subst (λ n. AllWired k shell_in shell_out n cmds more.0) count more.2),
        ),
        omega (arith, total, count),
        closed ∙ add_pipe-closed k works.0 shell_in shell_out s between,
      ),
    )
