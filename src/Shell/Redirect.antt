-- ===== src/Shell/Redirect.antt =====
-- What closing, duplicating and redirecting do to a table of descriptors.
use systems_programming_labs.Prelude.{
  ℕ, ◌≡◌, ◌≢◌, refl, subst, sym, ◌∙◌, ap, true, false, Bool-cases, none, some, [], ◌∷◌, ◌==◌, ◌⊎◌,
  inl, inr, if◌then◌else◌, arith,
}
use systems_programming_labs.Shell.Descriptors.{
  File, Descriptor, Table, lookup_fd, close_fd, dup2, after_exec,
}
use systems_programming_labs.Shell.Execute.{redirect}

-- Every descriptor of the table satisfies the predicate.
abbrev pub Holds : (Descriptor → Type 0) → Table → Type 0
Holds P [] = Unit {0}
Holds P (d ∷ t) = P d × Holds P t

-- A file behind a descriptor that stays open when the process image is replaced.
abbrev pub kept : ℕ → File → Descriptor
kept fd file = record { fd = fd; file = file; close_on_exec = false }

pub lookup_fd-Holds :
    (P : Descriptor → Type 0) (fd : ℕ) (t : Table) (d : Descriptor)
    → Holds P t
    → lookup_fd fd t ≡ some d
    → P d × (d.fd ≡ fd)
unfolding lookup_fd
lookup_fd-Holds P fd [] d h e = cc
lookup_fd-Holds P fd (c ∷ t) d h e = elim (Bool-cases (c.fd == fd)) [
  | inl here ↦
      let same : c ≡ d = ground (arith, e, here) in
      (subst P same h.0, subst (λ v. v.fd ≡ fd) same (ground (arith, here)))
  | inr other ↦ lookup_fd-Holds P fd t d h.1 (ground (arith, e, other))
]

pub close_fd-other :
    (fd old : ℕ) (t : Table) → fd ≢ old → lookup_fd fd (close_fd old t) ≡ lookup_fd fd t
unfolding lookup_fd close_fd
close_fd-other fd old [] h = refl
close_fd-other fd old (c ∷ t) h = elim (Bool-cases (c.fd == old)) [
  | inl here ↦
      let other : (c.fd == fd) ≡ false = ground (arith, here, h) in
      rw (here, other) (close_fd-other fd old t h)
  | inr there ↦ rw (there, close_fd-other fd old t h) refl
]

pub close_fd-Holds :
    (P : Descriptor → Type 0) (old : ℕ) (t : Table) → Holds P t → Holds P (close_fd old t)
unfolding close_fd
close_fd-Holds P old [] h = tt
close_fd-Holds P old (c ∷ t) h = elim (Bool-cases (c.fd == old)) [
  | inl here ↦ rw here (close_fd-Holds P old t h.1)
  | inr there ↦ rw there (h.0, close_fd-Holds P old t h.1)
]

pub dup2-at :
    (old new : ℕ) (t : Table) (d : Descriptor)
    → old ≢ new
    → lookup_fd old t ≡ some d
    → dup2 old new t ≡ kept new d.file ∷ close_fd new t
unfolding dup2
dup2-at old new t d h e = let other : (old == new) ≡ false = ground (arith, h) in rw (other, e) refl

pub lookup_fd-first : (d : Descriptor) (t : Table) → lookup_fd d.fd (d ∷ t) ≡ some d
unfolding lookup_fd
lookup_fd-first d t = let here : (d.fd == d.fd) ≡ true = ground arith in rw here refl

pub lookup_fd-behind :
    (fd : ℕ) (d : Descriptor) (t : Table) → d.fd ≢ fd → lookup_fd fd (d ∷ t) ≡ lookup_fd fd t
unfolding lookup_fd
lookup_fd-behind fd d t h = let other : (d.fd == fd) ≡ false = ground (arith, h) in rw other refl

pub dup2-other :
    (old new fd : ℕ) (t : Table) (d : Descriptor)
    → old ≢ new
    → new ≢ fd
    → lookup_fd old t ≡ some d
    → lookup_fd fd (dup2 old new t) ≡ lookup_fd fd t
dup2-other old new fd t d h h' e = rw (dup2-at old new t d h e) (
    lookup_fd-behind fd (kept new d.file) (close_fd new t) h'
    ∙ close_fd-other fd new t (λ q. h' (sym q)))

pub dup2-Holds :
    (P : Descriptor → Type 0) (old new : ℕ) (t : Table) (d : Descriptor)
    → old ≢ new
    → lookup_fd old t ≡ some d
    → P (kept new d.file)
    → Holds P t
    → Holds P (dup2 old new t)
dup2-Holds P old new t d h e p all = rw (dup2-at old new t d h e) (p, close_fd-Holds P new t all)

after_exec-stays :
    (d : Descriptor) (t : Table) → d.close_on_exec ≡ false → after_exec (d ∷ t) ≡ d ∷ after_exec t
unfolding after_exec
after_exec-stays d t stays = ap (λ b. if b then after_exec t else d ∷ after_exec t) stays

pub after_exec-kept :
    (fd : ℕ) (t : Table) (d : Descriptor)
    → lookup_fd fd t ≡ some d
    → d.close_on_exec ≡ false
    → lookup_fd fd (after_exec t) ≡ some d
unfolding lookup_fd after_exec
after_exec-kept fd [] d e h = e
after_exec-kept fd (c ∷ t) d e h = elim (Bool-cases (c.fd == fd)) [
  | inl here ↦
      let same : c ≡ d = ground (arith, e, here) in
      let stays : c.close_on_exec ≡ false = ap (λ v. v.close_on_exec) same ∙ h in
      ap (lookup_fd fd) (after_exec-stays c t stays) ∙ rw here (ap some same)
  | inr other ↦
      let ih = after_exec-kept fd t d (ground (arith, e, other)) h in
      elim (Bool-cases c.close_on_exec) [
        | inl dropped ↦ rw dropped ih
        | inr stays ↦ ap (lookup_fd fd) (after_exec-stays c t stays) ∙ rw other ih
      ]
]

pub after_exec-Holds :
    (P : Descriptor → Type 0) (t : Table)
    → Holds (λ d. (d.close_on_exec ≡ true) ⊎ P d) t
    → Holds P (after_exec t)
unfolding after_exec
after_exec-Holds P [] h = tt
after_exec-Holds P (d ∷ t) h = elim (Bool-cases d.close_on_exec) [
  | inl dropped ↦ rw dropped (after_exec-Holds P t h.1)
  | inr stays ↦
      subst (Holds P) (sym (after_exec-stays d t stays)) (stay stays h.0, after_exec-Holds P t h.1)
]
  where
    stay : d.close_on_exec ≡ false → (d.close_on_exec ≡ true) ⊎ P d → P d
    stay stays (inl drops) = cc
    stay stays (inr p) = p

-- A kernel's new descriptor is none that is open.
abbrev pub IsFree : (Table → ℕ) → Type 0
IsFree free_fd = (t : Table) → lookup_fd (free_fd t) t ≡ none

module _ (free_fd : Table → ℕ) (free : IsFree free_fd) where
  pub free_fd-differs :
      (fd : ℕ) (t : Table) (d : Descriptor) → lookup_fd fd t ≡ some d → free_fd t ≢ fd
  free_fd-differs fd t d e same = cc (free t, subst (λ v. lookup_fd v t ≡ some d) (sym same) e)

  pub redirect-to :
      (file : File) (new : ℕ) (t : Table) (d : Descriptor)
      → lookup_fd new t ≡ some d
      → redirect free_fd file new t
        ≡ close_fd (free_fd t) (kept new file ∷ close_fd new (kept (free_fd t) file ∷ t))
  unfolding redirect
  redirect-to file new t d e = ap (close_fd (free_fd t)) (
      dup2-at (free_fd t) new (kept (free_fd t) file ∷ t) (kept (free_fd t) file)
        (free_fd-differs new t d e) (lookup_fd-first (kept (free_fd t) file) t))

  pub redirect-at :
      (file : File) (new : ℕ) (t : Table) (d : Descriptor)
      → lookup_fd new t ≡ some d
      → lookup_fd new (redirect free_fd file new t) ≡ some (kept new file)
  redirect-at file new t d e = rw (redirect-to file new t d e) (
      close_fd-other new (free_fd t) _ (λ q. free_fd-differs new t d e (sym q))
      ∙ lookup_fd-first (kept new file) _)

  pub redirect-other :
      (file : File) (new fd : ℕ) (t : Table) (d d' : Descriptor)
      → lookup_fd new t ≡ some d
      → lookup_fd fd t ≡ some d'
      → new ≢ fd
      → lookup_fd fd (redirect free_fd file new t) ≡ some d'
  redirect-other file new fd t d d' e e' h = rw (redirect-to file new t d e) (
      close_fd-other fd (free_fd t) _ (λ q. free_fd-differs fd t d' e' (sym q))
      ∙ lookup_fd-behind fd (kept new file) _ h
      ∙ close_fd-other fd new _ (λ q. h (sym q))
      ∙ lookup_fd-behind fd (kept (free_fd t) file) t (free_fd-differs fd t d' e')
      ∙ e')

  pub redirect-Holds :
      (P : Descriptor → Type 0) (file : File) (new : ℕ) (t : Table) (d : Descriptor)
      → lookup_fd new t ≡ some d
      → ((fd : ℕ) → P (kept fd file))
      → Holds P t
      → Holds P (redirect free_fd file new t)
  redirect-Holds P file new t d e p h =
      rw (redirect-to file new t d e)
        (close_fd-Holds P (free_fd t) _ (p new, close_fd-Holds P new _ (p (free_fd t), h)))
