-- ===== src/Shell/Child.antt =====
-- The child that `run_pipeline` of task03-processes/src/execute.c starts for one command.
use systems_programming_labs.Prelude.{
  ℕ, ◌≡◌, refl, sym, subst, ◌∙◌, ap, Bool, true, false, ◌&&◌, Bool-cases, Option-cases, Option,
  none, some, List, ◌∷◌, inl, inr, if◌then◌else◌,
}
use systems_programming_labs.Shell.Descriptors.{
  Text, File, output_file, write_of, Table, lookup_fd, after_exec,
}
use systems_programming_labs.Shell.Execute.{
  Command, Kernel, Pipe, Child, exits, runs, child_stdin, child_stdout, child,
}
use systems_programming_labs.Shell.Redirect.{Holds, kept, IsFree, after_exec-kept, after_exec-Holds}
use systems_programming_labs.Shell.Wiring.{
  closing, reads, writes, opened, Fits, IsReady, LatestOpen, Between, Behind, redirected_in,
  piped_in, redirected_out, piped_out,
}

-- Whether the redirections of the command open and its program can be run.
unfoldable pub can_start : Kernel → Command → Bool
can_start k cmd =
    opened k.opens cmd.input_redir && opened k.creates cmd.output_redir && k.execs cmd.argv

-- The child of a command that cannot start exits with 1. The other ones run the program with the input and
-- output of the stage, and with no other end of a pipe.
abbrev pub IsWired : Kernel → File → File → ℕ → Bool → Command → Child → Type 0
IsWired k shell_in shell_out stage next cmd (exits code) = (can_start k cmd ≡ false) × (code ≡ 1)
IsWired k shell_in shell_out stage next cmd (runs argv t) =
    (can_start k cmd ≡ true)
    × (argv ≡ cmd.argv)
    × (lookup_fd 0 t ≡ some (kept 0 (reads cmd stage shell_in)))
    × (lookup_fd 1 t ≡ some (kept 1 (writes cmd stage next shell_out)))
    × Holds (Fits (reads cmd stage shell_in) (writes cmd stage next shell_out)) t

module _ (k : Kernel) (free : IsFree k.free_fd) (cmd : Command) (next : Bool)
    (shell_in shell_out : File) (this : Pipe) (ps : List Pipe) (stage : ℕ) where
  child_stdin-opens :
      (t : Table)
      → IsReady shell_in shell_out t
      → LatestOpen ps stage t
      → lookup_fd this.write_fd t ≡ some (closing this.write_fd (write_of stage))
      → opened k.opens cmd.input_redir ≡ true
      → (t' : Table) × (child_stdin k cmd (this ∷ ps) t ≡ some t')
        × Between
            (reads cmd stage shell_in)
            (writes cmd stage next shell_out)
            shell_out
            this
            stage
            t'
  unfolding child_stdin opened reads writes
  child_stdin-opens t ready latest mine opens = elim (Option-cases cmd.input_redir) [
    | inl e ↦
        let there =
          piped_in (writes cmd stage next shell_out) shell_in shell_out this ps stage t ready mine
            latest in
        rw e (_, refl, there)
    | inr (name, e) ↦
        let there =
          redirected_in (writes cmd stage next shell_out) shell_in shell_out this stage t ready mine
            k free name in
        let ok : k.opens name ≡ true = ap (opened k.opens) (sym e) ∙ opens in
        rw (e, ok) (_, refl, there)
  ]

  child_stdout-opens :
      (t : Table)
      → Between (reads cmd stage shell_in) (writes cmd stage next shell_out) shell_out this stage t
      → opened k.creates cmd.output_redir ≡ true
      → (t' : Table) × (child_stdout k cmd next (this ∷ ps) t ≡ some t')
        × Behind (reads cmd stage shell_in) (writes cmd stage next shell_out) t'
  unfolding child_stdout opened reads writes
  child_stdout-opens t between opens = elim (Option-cases cmd.output_redir) [
    | inl e ↦
        let there = piped_out k free (reads cmd stage shell_in) shell_out this stage t ps next (
          subst (λ o. Between (reads cmd stage shell_in) (written o) shell_out this stage t) e
            between) in
        rw e (_, refl, there)
    | inr (name, e) ↦
        let there = redirected_out k free (reads cmd stage shell_in) shell_out this stage t name (
          subst (λ o. Between (reads cmd stage shell_in) (written o) shell_out this stage t) e
            between) in
        let ok : k.creates name ≡ true = ap (opened k.creates) (sym e) ∙ opens in
        rw (e, ok) (_, refl, there)
  ]
    where
      written : Option Text → File
      written o = elim o [
        | some name ↦ output_file name
        | none ↦ if next then write_of stage else shell_out
      ]

  child_stdin-fails :
      (t : Table) → opened k.opens cmd.input_redir ≡ false → child_stdin k cmd (this ∷ ps) t ≡ none
  unfolding child_stdin opened
  child_stdin-fails t fails = elim (Option-cases cmd.input_redir) [
    | inl e ↦ cc (fails, ap (opened k.opens) e)
    | inr (name, e) ↦
        let no : k.opens name ≡ false = ap (opened k.opens) (sym e) ∙ fails in rw (e, no) refl
  ]

  child_stdout-fails :
      (t : Table)
      → opened k.creates cmd.output_redir ≡ false
      → child_stdout k cmd next (this ∷ ps) t ≡ none
  unfolding child_stdout opened
  child_stdout-fails t fails = elim (Option-cases cmd.output_redir) [
    | inl e ↦ cc (fails, ap (opened k.creates) e)
    | inr (name, e) ↦
        let no : k.creates name ≡ false = ap (opened k.creates) (sym e) ∙ fails in rw (e, no) refl
  ]

  stopped :
      (t : Table)
      → can_start k cmd ≡ false
      → child k cmd next (this ∷ ps) t ≡ exits 1
      → IsWired k shell_in shell_out stage next cmd (child k cmd next (this ∷ ps) t)
  stopped t fails e = subst (IsWired k shell_in shell_out stage next cmd) (sym e) (fails, refl)

  -- The child is wired as its command says.
  pub child-IsWired :
      (t : Table)
      → IsReady shell_in shell_out t
      → LatestOpen ps stage t
      → lookup_fd this.write_fd t ≡ some (closing this.write_fd (write_of stage))
      → IsWired k shell_in shell_out stage next cmd (child k cmd next (this ∷ ps) t)
  unfolding can_start child
  child-IsWired t ready latest mine = elim (Bool-cases (opened k.opens cmd.input_redir)) [
    | inr fails ↦ stopped t (rw fails refl) (rw (child, child_stdin-fails t fails) refl)
    | inl opens ↦
        let (t', is, between) = child_stdin-opens t ready latest mine opens in
        elim (Bool-cases (opened k.creates cmd.output_redir)) [
          | inr fails ↦
              stopped t (rw (opens, fails) refl) (rw (child, is, child_stdout-fails t' fails) refl)
          | inl creates ↦
              let (t'', is', behind) = child_stdout-opens t' between creates in
              elim (Bool-cases (k.execs cmd.argv)) [
                | inr fails ↦
                    stopped t (rw (opens, creates, fails) refl) (rw (child, is, is', fails) refl)
                | inl execs ↦
                    let goes : child k cmd next (this ∷ ps) t ≡ runs cmd.argv (after_exec t'') =
                      rw (child, is, is', execs) refl in
                    subst (IsWired k shell_in shell_out stage next cmd) (sym goes) (
                      rw (opens, creates, execs) refl,
                      refl,
                      after_exec-kept 0 t'' _ behind.0 refl,
                      after_exec-kept 1 t'' _ behind.1 refl,
                      after_exec-Holds _ t'' behind.2,
                    )
              ]
        ]
  ]
