-- ===== src/Shell/Sessions.antt =====
-- Whole sessions of the shell: the loop of `main` in task03-processes/src/main.c.
use systems_programming_labs.Prelude.{
  ℕ, ◌+◌, ◌≤◌, ◌≡◌, refl, sym, subst, ◌∙◌, true, not, ◌&&◌, Bool-cases, Option, some, List, [], ◌∷◌,
  ◌==◌, inl, inr, ◌⊎◌, length, arith,
}
use systems_programming_labs.Shell.Descriptors.{File, Table}
use systems_programming_labs.Shell.Execute.{Pipeline, Kernel, max_processes, Finished}
use systems_programming_labs.Shell.Wiring.{IsReady}
use systems_programming_labs.Shell.Started.{Works}
use systems_programming_labs.Shell.Pipelines.{commands, run_pipeline-wires}
use systems_programming_labs.Shell.Session.{
  ℤ, Signals, Ended, leaves, returns, run_builtin, check_consistency, ParsedLine, Session,
  end_session, add_run, is_none, main_loop,
}
use systems_programming_labs.Shell.Consistent.{
  Connected, check_consistency-Unambiguous, AllWired-Connected,
}

-- No pipeline is longer than the arrays.
abbrev pub AllFit : List ParsedLine → Type 0
AllFit [] = Unit {0}
AllFit (line ∷ lines) = (length (commands line.pipeline) ≤ max_processes) × AllFit lines

-- Each pipeline that ran has its commands connected.
abbrev pub AllConnected : List (Pipeline × Finished) → Type 0
AllConnected [] = Unit {0}
AllConnected ((p, f) ∷ ran) =
    (length f.processes ≡ length (commands p))
    × Connected 0 (commands p) f.children
    × AllConnected ran

-- What a session leaves.
abbrev pub IsSound : Table → Option Session → Type 0
IsSound t result = (s : Session) × (result ≡ some s) × (s.table ≡ t) × AllConnected s.ran

Ended-cases : (e : Ended) → ((code : ℤ) × (e ≡ leaves code)) ⊎ ((status : ℕ) × (e ≡ returns status))
Ended-cases (leaves code) = inl (code, refl)
Ended-cases (returns status) = inr (status, refl)

-- Where every `pipe2` and `fork` of the session succeeds, the shell has its input and output and no pipe end
-- that a program would keep, and no pipeline has more than 1024 commands: a session comes to its end
-- with the descriptors that it began with, and every pipeline that it ran has a process for each command,
-- each command but the last writing to the pipe that the next one reads unless that one redirects its
-- input.
pub main_loop-IsSound :
    (kernel : ℕ → Kernel) (works : (n : ℕ) → Works (kernel n)) (os : Signals)
    (shell_in shell_out : File) (n : ℕ) (lines : List ParsedLine) (last_status : ℕ) (t : Table)
    → IsReady shell_in shell_out t
    → AllFit lines
    → IsSound t (main_loop kernel os n lines last_status t)
unfolding main_loop end_session add_run
main_loop-IsSound kernel works os shell_in shell_out n [] last_status t ready fit =
    (_, refl, refl, tt)
main_loop-IsSound kernel works os shell_in shell_out n (line ∷ lines) last_status t ready fit =
    let later = λ (status : ℕ).
      main_loop-IsSound kernel works os shell_in shell_out (n + 1) lines status t ready fit.1 in
    elim (Bool-cases line.eof) [
      | inl ends ↦ rw ends (_, refl, refl, tt)
      | inr goes ↦ elim (Bool-cases (is_none line.builtin)) [
        | inr a_builtin ↦ elim (Ended-cases (run_builtin os line.builtin line.builtin_arg)) [
          | inl (code, e) ↦ rw (goes, a_builtin, e) (_, refl, refl, tt)
          | inr (status, e) ↦ rw (goes, a_builtin, e) (later status)
        ]
        | inl a_pipeline ↦
            elim (Bool-cases (
              check_consistency line.pipeline
              && not (length line.pipeline.first_command.argv == 0))) [
                | inr skipped ↦ rw (goes, a_pipeline, skipped) (later last_status)
                | inl runs ↦
                    let (f, is, wired, count, same, status) =
                      run_pipeline-wires (kernel n) (works n) shell_in shell_out line.pipeline t
                        ready (ground (arith, runs)) fit.0 in
                    let fine : check_consistency line.pipeline ≡ true = ground (arith, runs) in
                    let joined =
                      AllWired-Connected (kernel n) shell_in shell_out 0 (commands line.pipeline)
                        f.children ((check_consistency-Unambiguous line.pipeline).0 fine) wired in
                    let (s, ends, kept, rest) =
                      main_loop-IsSound kernel works os shell_in shell_out (n + 1) lines f.result
                        f.table (subst (IsReady shell_in shell_out) (sym same) ready) fit.1 in
                    rw (goes, a_pipeline, runs, is, ends)
                      (_, refl, kept ∙ same, (count, joined, rest))
              ]
      ]
    ]
