-- ===== src/Shell/Wiring.antt =====
-- The descriptors of one child of `run_pipeline` in task03-processes/src/execute.c.
use systems_programming_labs.Prelude.{
  ℕ, zero, suc, ◌≡◌, ◌≢◌, refl, sym, ◌∙◌, ap, Bool, true, false, Option, none, some, List, [], ◌∷◌,
  ◌⊎◌, inl, inr, if◌then◌else◌, arith,
}
use systems_programming_labs.Shell.Descriptors.{
  Text, File, input_file, output_file, read_of, write_of, pipe_end, Descriptor, Table, lookup_fd,
}
use systems_programming_labs.Shell.Execute.{Command, Kernel, Pipe, redirect, from_previous, to_next}
use systems_programming_labs.Shell.Redirect.{
  Holds, kept, IsFree, dup2-at, dup2-other, dup2-Holds, lookup_fd-first, redirect-at,
  redirect-other, redirect-Holds,
}

-- A file behind a descriptor that is closed when the process image is replaced.
abbrev pub closing : ℕ → File → Descriptor
closing fd file = record { fd = fd; file = file; close_on_exec = true }

-- The read end of the pipe before the stage, or what the shell itself reads.
unfoldable pub before_stage : ℕ → File → File
before_stage zero shell_in = shell_in
before_stage (suc stage) shell_in = read_of stage

-- What the command of a stage is to read and to write.
unfoldable pub reads : Command → ℕ → File → File
reads cmd stage shell_in = elim cmd.input_redir [
  | some name ↦ input_file name
  | none ↦ before_stage stage shell_in
]

unfoldable pub writes : Command → ℕ → Bool → File → File
writes cmd stage next shell_out = elim cmd.output_redir [
  | some name ↦ output_file name
  | none ↦ if next then write_of stage else shell_out
]

-- Whether a redirection opens, if there is one.
unfoldable pub opened : (Text → Bool) → Option Text → Bool
opened opens none = true
opened opens (some name) = opens name

-- The descriptor is no end of a pipe, or it is the input or output that the command is to have.
abbrev pub Fits : File → File → Descriptor → Type 0
Fits input output d =
    (pipe_end d.file ≡ false) ⊎ (((d.fd ≡ 0) × (d.file ≡ input)) ⊎ ((d.fd ≡ 1) × (d.file ≡ output)))

abbrev pub Loose : File → File → Descriptor → Type 0
Loose input output d = (d.close_on_exec ≡ true) ⊎ Fits input output d

-- The shell's descriptors: its own input and output, and no end of a pipe that a program would keep.
abbrev pub IsReady : File → File → Table → Type 0
IsReady shell_in shell_out t =
    (lookup_fd 0 t ≡ some (kept 0 shell_in))
    × (lookup_fd 1 t ≡ some (kept 1 shell_out))
    × Holds (λ d. (d.close_on_exec ≡ true) ⊎ (pipe_end d.file ≡ false)) t

-- The read end of the last pipe is open.
abbrev pub LatestOpen : List Pipe → ℕ → Table → Type 0
LatestOpen [] zero t = Unit {0}
LatestOpen [] (suc stage) t = ⊥
LatestOpen (p ∷ ps) zero t = ⊥
LatestOpen (p ∷ ps) (suc stage) t = lookup_fd p.read_fd t ≡ some (closing p.read_fd (read_of stage))

Holds-map :
    (P Q : Descriptor → Type 0) (t : Table) → ((d : Descriptor) → P d → Q d) → Holds P t → Holds Q t
Holds-map P Q [] f h = tt
Holds-map P Q (d ∷ t) f h = (f d h.0, Holds-map P Q t f h.1)

closing-differs :
    (old new : ℕ) (t : Table) (file file' : File)
    → lookup_fd old t ≡ some (closing old file)
    → lookup_fd new t ≡ some (kept new file')
    → old ≢ new
closing-differs old new t file file' e e' same =
    let both = sym e ∙ ap (λ v. lookup_fd v t) same ∙ e' in
    let flag = ap (λ o. elim o [ none ↦ true | some d ↦ d.close_on_exec ]) both in cc flag

-- The child's descriptors between the two redirections.
abbrev pub Between : File → File → File → Pipe → ℕ → Table → Type 0
Between input output shell_out this stage t =
    (lookup_fd 0 t ≡ some (kept 0 input))
    × (lookup_fd 1 t ≡ some (kept 1 shell_out))
    × (lookup_fd this.write_fd t ≡ some (closing this.write_fd (write_of stage)))
    × Holds (Loose input output) t

-- The child's descriptors behind the two redirections.
abbrev pub Behind : File → File → Table → Type 0
Behind input output t =
    (lookup_fd 0 t ≡ some (kept 0 input))
    × (lookup_fd 1 t ≡ some (kept 1 output))
    × Holds (Loose input output) t

module _ (output shell_in shell_out : File) (this : Pipe) (stage : ℕ) (t : Table)
    (ready : IsReady shell_in shell_out t)
    (mine : lookup_fd this.write_fd t ≡ some (closing this.write_fd (write_of stage))) where
  ready-Loose : (input : File) → Holds (Loose input output) t
  ready-Loose input = Holds-map _ _ t (λ d. loose d) ready.2
    where
      loose :
          (d : Descriptor)
          → (d.close_on_exec ≡ true) ⊎ (pipe_end d.file ≡ false)
          → Loose input output d
      loose d (inl drops) = inl drops
      loose d (inr no_end) = inr (inl no_end)

  mine-not_stdin : this.write_fd ≢ 0
  mine-not_stdin = closing-differs this.write_fd 0 t (write_of stage) shell_in mine ready.0

  pub redirected_in :
      (k : Kernel) (free : IsFree k.free_fd) (name : Text)
      → Between
          (input_file name)
          output
          shell_out
          this
          stage
          (redirect k.free_fd (input_file name) 0 t)
  unfolding pipe_end
  redirected_in k free name = (
    redirect-at k.free_fd free (input_file name) 0 t (kept 0 shell_in) ready.0,
    redirect-other k.free_fd free (input_file name) 0 1 t (kept 0 shell_in) (kept 1 shell_out)
        ready.0 ready.1 (omega arith),
    redirect-other k.free_fd free (input_file name) 0 this.write_fd t (kept 0 shell_in)
        (closing this.write_fd (write_of stage)) ready.0 mine (λ q. mine-not_stdin (sym q)),
    redirect-Holds k.free_fd free _ (input_file name) 0 t (kept 0 shell_in) ready.0
        (λ fd. inr (inl refl)) (ready-Loose (input_file name)),
  )

pub piped_in :
    (output shell_in shell_out : File) (this : Pipe) (ps : List Pipe) (stage : ℕ) (t : Table)
    → IsReady shell_in shell_out t
    → lookup_fd this.write_fd t ≡ some (closing this.write_fd (write_of stage))
    → LatestOpen ps stage t
    → Between
        (before_stage stage shell_in)
        output
        shell_out
        this
        stage
        (from_previous (this ∷ ps) t)
unfolding from_previous before_stage
piped_in output shell_in shell_out this [] zero t ready mine latest =
    (ready.0, ready.1, mine, ready-Loose output shell_in shell_out this zero t ready mine shell_in)
piped_in output shell_in shell_out this [] (suc stage) t ready mine latest = elim latest [ ]
piped_in output shell_in shell_out this (p ∷ ps) zero t ready mine latest = elim latest [ ]
piped_in output shell_in shell_out this (p ∷ ps) (suc stage) t ready mine latest =
    let differs = closing-differs p.read_fd 0 t (read_of stage) shell_in latest ready.0 in
    let not_mine = mine-not_stdin output shell_in shell_out this (suc stage) t ready mine in
    (
      ap (lookup_fd 0) (dup2-at p.read_fd 0 t _ differs latest)
          ∙ lookup_fd-first (kept 0 (read_of stage)) _,
      dup2-other p.read_fd 0 1 t _ differs (omega arith) latest ∙ ready.1,
      dup2-other p.read_fd 0 this.write_fd t _ differs (λ q. not_mine (sym q)) latest ∙ mine,
      dup2-Holds _ p.read_fd 0 t _ differs latest (inr (inr (inl (refl, refl))))
          (ready-Loose output shell_in shell_out this (suc stage) t ready mine (read_of stage)),
    )

module _ (k : Kernel) (free : IsFree k.free_fd) (input shell_out : File) (this : Pipe) (stage : ℕ)
    (t : Table) where
  pub redirected_out :
      (name : Text)
      → Between input (output_file name) shell_out this stage t
      → Behind input (output_file name) (redirect k.free_fd (output_file name) 1 t)
  unfolding pipe_end
  redirected_out name between = (
    redirect-other k.free_fd free (output_file name) 1 0 t _ _ between.1 between.0 (omega arith),
    redirect-at k.free_fd free (output_file name) 1 t _ between.1,
    redirect-Holds k.free_fd free _ (output_file name) 1 t _ between.1 (λ fd. inr (inl refl))
        between.3,
  )

  pub piped_out :
      (ps : List Pipe) (next : Bool)
      → Between input (if next then write_of stage else shell_out) shell_out this stage t
      → Behind input (if next then write_of stage else shell_out) (to_next next (this ∷ ps) t)
  unfolding to_next
  piped_out ps false between = (between.0, between.1, between.3)
  piped_out ps true between =
      let differs =
        closing-differs this.write_fd 1 t (write_of stage) shell_out between.2 between.1 in
      (
        dup2-other this.write_fd 1 0 t _ differs (omega arith) between.2 ∙ between.0,
        ap (lookup_fd 1) (dup2-at this.write_fd 1 t _ differs between.2)
            ∙ lookup_fd-first (kept 1 (write_of stage)) _,
        dup2-Holds _ this.write_fd 1 t _ differs between.2 (inr (inr (inr (refl, refl)))) between.3,
      )
