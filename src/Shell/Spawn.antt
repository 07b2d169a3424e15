-- ===== src/Shell/Spawn.antt =====
-- The loops of `run_pipeline` in task03-processes/src/execute.c that start the commands and close the pipes.
use systems_programming_labs.Prelude.{
  ℕ, zero, suc, ◌≡◌, refl, sym, subst, ◌∙◌, ap, true, Bool-cases, none, some, List, [], ◌∷◌, ◌++◌,
  ◌==◌, inl, inr, length, length-append, arith,
}
use systems_programming_labs.Shell.Descriptors.{
  File, read_of, write_of, Descriptor, Table, lookup_fd, close_fd,
}
use systems_programming_labs.Shell.Execute.{
  Kernel, Pipe, Child, Spawned, add_pipe, add_process, close_pipes,
}
use systems_programming_labs.Shell.Redirect.{
  IsFree, free_fd-differs, lookup_fd-first, lookup_fd-behind,
}
use systems_programming_labs.Shell.Wiring.{closing, IsReady, LatestOpen}

close_fd-absent : (fd : ℕ) (t : Table) → lookup_fd fd t ≡ none → close_fd fd t ≡ t
unfolding lookup_fd close_fd
close_fd-absent fd [] e = refl
close_fd-absent fd (d ∷ t) e = elim (Bool-cases (d.fd == fd)) [
  | inl here ↦ ground (arith, e, here)
  | inr other ↦ rw other (ap (λ v. d ∷ v) (close_fd-absent fd t (ground (arith, e, other))))
]

close_fd-first : (d : Descriptor) (t : Table) → lookup_fd d.fd t ≡ none → close_fd d.fd (d ∷ t) ≡ t
unfolding close_fd
close_fd-first d t e =
    let here : (d.fd == d.fd) ≡ true = ground arith in rw here (close_fd-absent d.fd t e)

close_fd_comm : (a b : ℕ) (t : Table) → close_fd a (close_fd b t) ≡ close_fd b (close_fd a t)
unfolding close_fd
close_fd_comm a b [] = refl
close_fd_comm a b (d ∷ t) = elim (Bool-cases (d.fd == a)) [
  | inl at_a ↦ elim (Bool-cases (d.fd == b)) [
    | inl at_b ↦ rw (at_a, at_b) (close_fd_comm a b t)
    | inr off_b ↦ rw (at_a, off_b, at_a) (close_fd_comm a b t)
  ]
  | inr off_a ↦ elim (Bool-cases (d.fd == b)) [
    | inl at_b ↦ rw (off_a, at_b) (close_fd_comm a b t)
    | inr off_b ↦ rw (off_a, off_b, off_a) (ap (λ v. d ∷ v) (close_fd_comm a b t))
  ]
]

close_pipes-close_fd :
    (fd : ℕ) (ps : List Pipe) (t : Table)
    → close_fd fd (close_pipes ps t) ≡ close_pipes ps (close_fd fd t)
unfolding close_pipes
close_pipes-close_fd fd [] t = refl
close_pipes-close_fd fd (p ∷ ps) t =
    close_fd_comm fd p.write_fd _
    ∙ ap (close_fd p.write_fd) (close_fd_comm fd p.read_fd _)
    ∙ ap (λ v. close_fd p.write_fd (close_fd p.read_fd v)) (close_pipes-close_fd fd ps t)

LatestOpen-push :
    (ps : List Pipe) (stage : ℕ) (d : Descriptor) (t : Table)
    → lookup_fd d.fd t ≡ none
    → LatestOpen ps stage t
    → LatestOpen ps stage (d ∷ t)
LatestOpen-push [] zero d t free latest = latest
LatestOpen-push [] (suc stage) d t free latest = latest
LatestOpen-push (p ∷ ps) zero d t free latest = latest
LatestOpen-push (p ∷ ps) (suc stage) d t free latest =
    lookup_fd-behind p.read_fd d t (λ q. cc (free, latest, ap (λ v. lookup_fd v t) q)) ∙ latest

module _ (k : Kernel) (free : IsFree k.free_fd) where
  IsReady-push :
      (shell_in shell_out file : File) (t : Table)
      → IsReady shell_in shell_out t
      → IsReady shell_in shell_out (closing (k.free_fd t) file ∷ t)
  IsReady-push shell_in shell_out file t ready = (
    lookup_fd-behind 0 (closing (k.free_fd t) file) t (free_fd-differs k.free_fd free 0 t _ ready.0)
        ∙ ready.0,
    lookup_fd-behind 1 (closing (k.free_fd t) file) t (free_fd-differs k.free_fd free 1 t _ ready.1)
        ∙ ready.1,
    (inl refl, ready.2),
  )

  -- What the shell's descriptors satisfy between two commands.
  abbrev pub Between : File → File → Spawned → Type 0
  Between shell_in shell_out s =
      IsReady shell_in shell_out s.table × LatestOpen s.pipes (length s.processes) s.table

  pub add_pipe-opens :
      (shell_in shell_out : File) (s : Spawned)
      → Between shell_in shell_out s
      → (this : Pipe) × ((add_pipe k.free_fd s).pipes ≡ this ∷ s.pipes)
        × IsReady shell_in shell_out (add_pipe k.free_fd s).table
        × LatestOpen s.pipes (length s.processes) (add_pipe k.free_fd s).table
        × (lookup_fd this.write_fd (add_pipe k.free_fd s).table
            ≡ some (closing this.write_fd (write_of (length s.processes))))
        × (lookup_fd this.read_fd (add_pipe k.free_fd s).table
            ≡ some (closing this.read_fd (read_of (length s.processes))))
        × (close_fd this.write_fd (close_fd this.read_fd (add_pipe k.free_fd s).table) ≡ s.table)
  unfolding add_pipe
  add_pipe-opens shell_in shell_out s between =
      let r = k.free_fd s.table in
      let stage = length s.processes in
      let t : Table = closing r (read_of stage) ∷ s.table in
      let w = k.free_fd t in
      let differs =
        free_fd-differs k.free_fd free r t (closing r (read_of stage))
          (lookup_fd-first (closing r (read_of stage)) s.table) in
      (
        record { read_fd = r; write_fd = w },
        refl,
        IsReady-push shell_in shell_out (write_of stage) t
            (IsReady-push shell_in shell_out (read_of stage) s.table between.0),
        LatestOpen-push s.pipes stage (closing w (write_of stage)) t (free t) (
            LatestOpen-push s.pipes stage (closing r (read_of stage)) s.table (free s.table)
              between.1),
        lookup_fd-first (closing w (write_of stage)) t,
        lookup_fd-behind r (closing w (write_of stage)) t differs
            ∙ lookup_fd-first (closing r (read_of stage)) s.table,
        close_fd_comm w r _
            ∙ ap (close_fd r) (close_fd-first (closing w (write_of stage)) t (free t))
            ∙ close_fd-first (closing r (read_of stage)) s.table (free s.table),
      )

  -- The pipes closed from the table with the new pipe are the pipes closed from the table before.
  pub add_pipe-closed :
      (shell_in shell_out : File) (s : Spawned)
      → Between shell_in shell_out s
      → close_pipes (add_pipe k.free_fd s).pipes (add_pipe k.free_fd s).table
        ≡ close_pipes s.pipes s.table
  unfolding close_pipes
  add_pipe-closed shell_in shell_out s between =
      let (this, is, ready, latest, mine, next, closes) =
        add_pipe-opens shell_in shell_out s between in
      ap (λ v. close_pipes v (add_pipe k.free_fd s).table) is
      ∙ ap (close_fd this.write_fd) (close_pipes-close_fd this.read_fd s.pipes _)
      ∙ close_pipes-close_fd this.write_fd s.pipes _
      ∙ ap (close_pipes s.pipes) closes

  pub step-Between :
      (shell_in shell_out : File) (s : Spawned) (pid : ℕ) (c : Child)
      → Between shell_in shell_out s
      → Between shell_in shell_out (add_process pid c (add_pipe k.free_fd s))
  unfolding add_process add_pipe
  step-Between shell_in shell_out s pid c between =
      let (this, is, ready, latest, mine, next, closes) =
        add_pipe-opens shell_in shell_out s between in
      let count : length (s.processes ++ (pid ∷ [])) ≡ suc (length s.processes) =
        omega (arith, length-append s.processes (pid ∷ [])) in
      (
        ready,
        subst (λ v. LatestOpen v (length (s.processes ++ (pid ∷ []))) (add_pipe k.free_fd s).table)
            (sym is)
            (subst (λ n. LatestOpen (this ∷ s.pipes) n (add_pipe k.free_fd s).table) (sym count)
              next),
      )
