-- ===== src/Shell/Status.antt =====
-- The status of a pipeline, for the loop of `run_pipeline` in task03-processes/src/execute.c that waits.
use systems_programming_labs.Prelude.{
  ℕ, ◌≡◌, refl, sym, ◌∙◌, ap, Bool, true, false, Bool-cases, Option-cases, Option, none, some, List,
  [], ◌∷◌, ◌++◌, ◌==◌, ◌⊎◌, inl, inr,
}
use systems_programming_labs.Shell.Execute.{wexitstatus, wait_all}

-- Whether the wait succeeded and the process exited with 0.
abbrev pub is_success : Option ℕ → Bool
is_success none = false
is_success (some status) = wexitstatus status == 0

abbrev pub succeeds : (ℕ → Option ℕ) → ℕ → Bool
succeeds waits pid = is_success (waits pid)

abbrev pub AllSucceed : (ℕ → Option ℕ) → List ℕ → Type 0
AllSucceed waits [] = Unit {0}
AllSucceed waits (pid ∷ pids) = (succeeds waits pid ≡ true) × AllSucceed waits pids

-- Either all processes succeed, are waited for, and the status is 0, or the status is 1 and the processes up
-- to the first one that does not succeed are waited for, and no other.
abbrev pub Waited : (ℕ → Option ℕ) → List ℕ → ℕ × List ℕ → Type 0
Waited waits pids w =
    (AllSucceed waits pids × (w ≡ (0, pids)))
    ⊎ ((before : List ℕ) × (pid : ℕ) × (after : List ℕ) × (pids ≡ before ++ (pid ∷ after))
        × AllSucceed waits before
        × (succeeds waits pid ≡ false)
        × (w ≡ (1, before ++ (pid ∷ []))))

wait_all-succeeds :
    (waits : ℕ → Option ℕ) (pid : ℕ) (pids : List ℕ)
    → succeeds waits pid ≡ true
    → wait_all waits (pid ∷ pids) ≡ ((wait_all waits pids).0, pid ∷ (wait_all waits pids).1)
unfolding wait_all
wait_all-succeeds waits pid pids ok = elim (Option-cases (waits pid)) [
  | inl e ↦ cc (ok, ap is_success e)
  | inr (status, e) ↦
      let zero_status : (wexitstatus status == 0) ≡ true = ap is_success (sym e) ∙ ok in
      rw (wait_all, e, zero_status) refl
]

wait_all-fails :
    (waits : ℕ → Option ℕ) (pid : ℕ) (pids : List ℕ)
    → succeeds waits pid ≡ false
    → wait_all waits (pid ∷ pids) ≡ (1, pid ∷ [])
unfolding wait_all
wait_all-fails waits pid pids fails = elim (Option-cases (waits pid)) [
  | inl e ↦ rw (wait_all, e) refl
  | inr (status, e) ↦
      let bad_status : (wexitstatus status == 0) ≡ false = ap is_success (sym e) ∙ fails in
      rw (wait_all, e, bad_status) refl
]

pub wait_all-Waited :
    (waits : ℕ → Option ℕ) (pids : List ℕ) → Waited waits pids (wait_all waits pids)
unfolding wait_all
wait_all-Waited waits [] = inl (tt, refl)
wait_all-Waited waits (pid ∷ pids) = elim (Bool-cases (succeeds waits pid)) [
  | inr fails ↦ inr ([], pid, pids, refl, tt, fails, wait_all-fails waits pid pids fails)
  | inl ok ↦
      let step = wait_all-succeeds waits pid pids ok in
      elim (wait_all-Waited waits pids) [
        | inl (all, e) ↦ inl ((ok, all), step ∙ ap (λ w. (w.0, pid ∷ w.1)) e)
        | inr (before, first, after, e, all, fails, is) ↦ inr (
          pid ∷ before,
          first,
          after,
          ap (λ v. pid ∷ v) e,
          (ok, all),
          fails,
          step ∙ ap (λ w. (w.0, pid ∷ w.1)) is,
        )
      ]
]
