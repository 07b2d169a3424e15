-- ===== src/Shell/Consistent.antt =====
-- `check_consistency` of task03-processes/src/main.c, and what it grants to the pipelines that run.
use systems_programming_labs.Prelude.{
  ℕ, suc, ◌+◌, ◌≡◌, ◌↔◌, refl, sym, subst, ◌∙◌, ap, Bool, true, false, ◌&&◌, Option-cases, none,
  some, List, [], ◌∷◌, if◌then◌else◌, inl, inr, arith,
}
use systems_programming_labs.Shell.Descriptors.{File, read_of, write_of, lookup_fd}
use systems_programming_labs.Shell.Execute.{Command, Pipeline, Kernel, Child, exits, runs, has_next}
use systems_programming_labs.Shell.Redirect.{kept}
use systems_programming_labs.Shell.Wiring.{reads, writes, before_stage}
use systems_programming_labs.Shell.Child.{IsWired}
use systems_programming_labs.Shell.Started.{AllWired}
use systems_programming_labs.Shell.Pipelines.{commands}
use systems_programming_labs.Shell.Session.{is_some, check_loop, check_consistency}

-- No command but the last redirects its output.
abbrev pub Unambiguous : List Command → Type 0
Unambiguous [] = Unit {0}
Unambiguous (c ∷ []) = Unit {0}
Unambiguous (c ∷ c' ∷ cs) = (c.output_redir ≡ none) × Unambiguous (c' ∷ cs)

check_loop-false : (cs : List Command) → check_loop cs false ≡ false
unfolding check_loop
check_loop-false [] = refl
check_loop-false (c ∷ cs) = ground (arith, check_loop-false cs)

check_loop-Unambiguous : (cs : List Command) → (check_loop cs true ≡ true) ↔ Unambiguous cs
unfolding check_loop is_some has_next
check_loop-Unambiguous [] = (λ e. tt, λ u. refl)
check_loop-Unambiguous (c ∷ []) = (λ e. tt, λ u. ground arith)
check_loop-Unambiguous (c ∷ c' ∷ cs) = elim (Option-cases c.output_redir) [
  | inl e ↦
      let step : check_loop (c ∷ c' ∷ cs) true ≡ check_loop (c' ∷ cs) true =
        ap
          (λ o. if is_some o && true then check_loop (c' ∷ cs) false else check_loop (c' ∷ cs) true)
          e in
      let ih = check_loop-Unambiguous (c' ∷ cs) in
      (λ fine. (e, ih.0 (sym step ∙ fine)), λ u. step ∙ ih.1 u.1)
  | inr (name, e) ↦
      let step : check_loop (c ∷ c' ∷ cs) true ≡ check_loop (c' ∷ cs) false =
        ap
          (λ o. if is_some o && true then check_loop (c' ∷ cs) false else check_loop (c' ∷ cs) true)
          e in
      (λ fine. cc (sym fine ∙ step ∙ check_loop-false (c' ∷ cs)), λ u. cc (sym u.0 ∙ e))
]

-- The pipelines that pass `check_consistency` are exactly those in which no command but the last redirects
-- its output.
pub check_consistency-Unambiguous :
    (p : Pipeline) → (check_consistency p ≡ true) ↔ Unambiguous (commands p)
unfolding check_consistency
check_consistency-Unambiguous p = check_loop-Unambiguous (commands p)

-- A child that runs writes to the pipe of the stage, or reads from it.
abbrev pub WritesPipe : ℕ → Child → Type 0
WritesPipe stage (exits code) = Unit {0}
WritesPipe stage (runs argv t) = lookup_fd 1 t ≡ some (kept 1 (write_of stage))

abbrev pub ReadsPipe : ℕ → Child → Type 0
ReadsPipe stage (exits code) = Unit {0}
ReadsPipe stage (runs argv t) = lookup_fd 0 t ≡ some (kept 0 (read_of stage))

-- Each command but the last writes to the pipe that the next one reads, if that one does not redirect its
-- input.
abbrev pub Connected : ℕ → List Command → List Child → Type 0
Connected stage [] xs = Unit {0}
Connected stage (c ∷ cs) [] = Unit {0}
Connected stage (c ∷ []) (x ∷ xs) = Unit {0}
Connected stage (c ∷ c' ∷ cs) (x ∷ []) = Unit {0}
Connected stage (c ∷ c' ∷ cs) (x ∷ x' ∷ xs) =
    WritesPipe stage x
    × ((c'.input_redir ≡ none) → ReadsPipe stage x')
    × Connected (stage + 1) (c' ∷ cs) (x' ∷ xs)

IsWired-WritesPipe :
    (k : Kernel) (shell_in shell_out : File) (stage : ℕ) (c : Command) (x : Child)
    → c.output_redir ≡ none
    → IsWired k shell_in shell_out stage true c x
    → WritesPipe stage x
unfolding writes
IsWired-WritesPipe k shell_in shell_out stage c (exits code) e w = tt
IsWired-WritesPipe k shell_in shell_out stage c (runs argv t) e w =
    w.3 ∙ ap (λ v. some (kept 1 v)) (rw e refl)

IsWired-ReadsPipe :
    (k : Kernel) (shell_in shell_out : File) (stage : ℕ) (next : Bool) (c : Command) (x : Child)
    → c.input_redir ≡ none
    → IsWired k shell_in shell_out (suc stage) next c x
    → ReadsPipe stage x
unfolding reads before_stage
IsWired-ReadsPipe k shell_in shell_out stage next c (exits code) e w = tt
IsWired-ReadsPipe k shell_in shell_out stage next c (runs argv t) e w =
    w.2 ∙ ap (λ v. some (kept 0 v)) (rw e refl)

pub AllWired-Connected :
    (k : Kernel) (shell_in shell_out : File) (stage : ℕ) (cs : List Command) (xs : List Child)
    → Unambiguous cs
    → AllWired k shell_in shell_out stage cs xs
    → Connected stage cs xs
unfolding has_next
AllWired-Connected k shell_in shell_out stage [] xs u w = tt
AllWired-Connected k shell_in shell_out stage (c ∷ cs) [] u w = tt
AllWired-Connected k shell_in shell_out stage (c ∷ []) (x ∷ xs) u w = tt
AllWired-Connected k shell_in shell_out stage (c ∷ c' ∷ cs) (x ∷ []) u w = tt
AllWired-Connected k shell_in shell_out stage (c ∷ c' ∷ cs) (x ∷ x' ∷ xs) u w = (
  IsWired-WritesPipe k shell_in shell_out stage c x u.0 w.0,
  λ e.
      IsWired-ReadsPipe k shell_in shell_out stage (has_next cs) c' x' e
        (subst (λ n. IsWired k shell_in shell_out n (has_next cs) c' x') (omega arith) w.1.0),
  AllWired-Connected k shell_in shell_out (stage + 1) (c' ∷ cs) (x' ∷ xs) u.1 w.1,
)
