-- ===== src/ExternalSort/Whole.antt =====
-- `main` of task00-sort/src/sort.cpp as a whole.
use systems_programming_labs.Prelude.{
  ℕ, suc, ◌<◌, ◌≡◌, refl, sym, ◌∙◌, ap, subst, Bool, false, Bool-cases, some, inl, inr, List, [],
  ◌∷◌, ◌++◌, ◌==◌, length, append_assoc, append-nil, arith,
}
use mathlib.Core.List.{Perm, map, map-append, perm_append_comm}
use mathlib.Core.List.Perm
use systems_programming_labs.ExternalSort.Order.{Line, IsSorted}
use systems_programming_labs.ExternalSort.Files.{newline, c_str}
use systems_programming_labs.ExternalSort.Lines.{NoNewline}
use systems_programming_labs.ExternalSort.Program.{
  sort, Disk, push_all, merge, merge_loop, lines_from, read_loop, main,
}
use systems_programming_labs.ExternalSort.Sorting.{sort-perm, sort-IsSorted, IsSorted-c_str}
use systems_programming_labs.ExternalSort.Merging.{
  Run, file_of, node_of, all_lines, push_run, AreRuns, Merged, push_next-run, push_run-AreRuns,
  push_run-perm, merge_loop-Merged,
}
use systems_programming_labs.ExternalSort.Chunks.{
  written, joined, AllNoNewline, written-AllPlain, length-perm, DisksWork, Filed, read_loop-Filed,
}

AllNoNewline-split : (l r : List Line) → AllNoNewline (l ++ r) → AllNoNewline l × AllNoNewline r
AllNoNewline-split [] r all = (tt, all)
AllNoNewline-split (w ∷ ws) r all = let ih = AllNoNewline-split ws r all.1 in ((all.0, ih.0), ih.1)

module _ (reverse : Bool) where
  abbrev runs_of : List (List Line) → List Run → List Run
  runs_of [] q = q
  runs_of (c ∷ chunks) q = runs_of chunks (push_run (written reverse c) q)

  push_all-runs :
      (chunks : List (List Line)) (q : List Run)
      → AllNoNewline (joined chunks)
      → push_all (map (λ c. file_of (written reverse c)) chunks) (map node_of q)
        ≡ map node_of (runs_of chunks q)
  unfolding push_all
  push_all-runs [] q all = refl
  push_all-runs (c ∷ chunks) q all =
      let parts = AllNoNewline-split c (joined chunks) all in
      ap (push_all (map (λ c. file_of (written reverse c)) chunks))
        (push_next-run (written reverse c) q (written-AllPlain reverse c parts.0))
      ∙ push_all-runs chunks (push_run (written reverse c) q) parts.1

  runs_of-AreRuns :
      (chunks : List (List Line)) (q : List Run)
      → AllNoNewline (joined chunks)
      → AreRuns reverse q
      → AreRuns reverse (runs_of chunks q)
  runs_of-AreRuns [] q all a = a
  runs_of-AreRuns (c ∷ chunks) q all a =
      let parts = AllNoNewline-split c (joined chunks) all in
      runs_of-AreRuns chunks (push_run (written reverse c) q) parts.1 (
        push_run-AreRuns reverse (written reverse c) q
          (IsSorted-c_str reverse (sort reverse c) (sort-IsSorted reverse c))
          (written-AllPlain reverse c parts.0) a)

  runs_of-perm :
      (chunks : List (List Line)) (q : List Run)
      → Perm (all_lines (runs_of chunks q)) (map c_str (joined chunks) ++ all_lines q)
  runs_of-perm [] q = Perm.rfl
  runs_of-perm (c ∷ chunks) q =
      let here : Perm (all_lines (push_run (written reverse c) q)) (map c_str c ++ all_lines q) =
        Perm.trans (push_run-perm (written reverse c) q)
          (Perm.append_right (all_lines q) (Perm.map c_str (sort-perm reverse c))) in
      Perm.trans (runs_of-perm chunks (push_run (written reverse c) q)) (
        Perm.trans (Perm.append_left (map c_str (joined chunks)) here) (
          subst
            (λ t.
              Perm (map c_str (joined chunks) ++ (map c_str c ++ all_lines q)) (t ++ all_lines q))
            (sym (map-append c_str c (joined chunks)))
            (regroup (map c_str (joined chunks)) (map c_str c) (all_lines q))))
    where
      regroup : (xs ys zs : List Line) → Perm (xs ++ (ys ++ zs)) ((ys ++ xs) ++ zs)
      regroup xs ys zs =
          subst (λ t. Perm t ((ys ++ xs) ++ zs)) (append_assoc xs ys zs)
            (Perm.append_right zs (perm_append_comm xs ys))

NoNewline-end :
    (w : Line) (c : ℕ) → NoNewline w → (c == newline) ≡ false → NoNewline (w ++ (c ∷ []))
NoNewline-end [] c n e = (e, tt)
NoNewline-end (d ∷ ds) c n e = (n.0, NoNewline-end ds c n.1 e)

lines_from-AllNoNewline :
    (word : Line) (input : List ℕ) → NoNewline word → AllNoNewline (lines_from word input)
unfolding lines_from
lines_from-AllNoNewline [] [] n = tt
lines_from-AllNoNewline (w ∷ ws) [] n = (n, tt)
lines_from-AllNoNewline word (c ∷ cs) n = elim (Bool-cases (c == newline)) [
  | inl ends ↦ rw (ends, lines_from) (n, lines_from-AllNoNewline [] cs tt)
  | inr goes_on ↦
      rw (goes_on, lines_from)
        (lines_from-AllNoNewline (word ++ (c ∷ [])) cs (NoNewline-end word c n goes_on))
]

length-map : (l : List Line) → length (map c_str l) ≡ length l
length-map [] = refl
length-map (x ∷ xs) = ap suc (length-map xs)

-- If the temporary files work and the rounds are more than the lines, the program gives all lines of its
-- input in order, ascending or descending, each as often as it was there and cut at its first NUL. It does
-- not matter how the input was cut into files, nor how long the lines are.
pub main-sorts :
    (disk : ℕ → Disk) (rounds : ℕ) (reverse : Bool) (input : List ℕ)
    → DisksWork disk
    → length (lines_from [] input) < rounds
    → (out : List Line) × (main disk rounds reverse input ≡ some out)
      × IsSorted reverse out
      × Perm out (map c_str (lines_from [] input))
unfolding main merge
main-sorts disk rounds reverse input works enough = (
  merged.out,
  rw (read.made, main)
      (ap (merge_loop rounds reverse) (push_all-runs reverse read.chunks [] all) ∙ merged.made),
  merged.sorted,
  Perm.trans merged.perm perm,
)
  where
    lines : List Line
    lines = lines_from [] input

    read : Filed disk works reverse lines (read_loop disk reverse lines [] [] 0)
    read = read_loop-Filed disk works reverse lines [] [] 0

    all : AllNoNewline (joined read.chunks)
    all = subst AllNoNewline (sym read.whole) (lines_from-AllNoNewline [] input tt)

    perm : Perm (all_lines (runs_of reverse read.chunks [])) (map c_str lines)
    perm =
        subst (λ t. Perm (all_lines (runs_of reverse read.chunks [])) (map c_str t)) read.whole
          (subst (Perm (all_lines (runs_of reverse read.chunks []))) (append-nil _)
            (runs_of-perm reverse read.chunks []))

    merged :
        Merged reverse
          (all_lines (runs_of reverse read.chunks []))
          (merge_loop rounds reverse (map node_of (runs_of reverse read.chunks [])))
    merged =
        merge_loop-Merged rounds reverse (runs_of reverse read.chunks [])
          (runs_of-AreRuns reverse read.chunks [] all tt)
          (omega (
            arith,
            length-perm (all_lines (runs_of reverse read.chunks [])) (map c_str lines) perm,
            length-map lines,
          ))
