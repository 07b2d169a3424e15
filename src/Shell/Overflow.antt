-- ===== src/Shell/Overflow.antt =====
-- When the arrays of `run_pipeline` in task03-processes/src/execute.c overflow.
use systems_programming_labs.Prelude.{
  ℕ, zero, suc, ◌+◌, Bool, true, false, ◌&&◌, Option, none, some,
}
use systems_programming_labs.Shell.Execute.{Kernel}

unfoldable pub has_process : Option ℕ → Bool
has_process none = false
has_process (some pid) = true

-- `pipe2` and `fork` succeed at so many stages, from a stage on.
unfoldable pub all_start : Kernel → (stage count : ℕ) → Bool
all_start k stage zero = true
all_start k stage (suc count) =
    let rest = all_start k (stage + 1) count in
    k.pipes stage && (has_process (k.forks stage) && rest)
