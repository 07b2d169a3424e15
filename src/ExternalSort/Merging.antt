-- ===== src/ExternalSort/Merging.antt =====
-- The merge of task00-sort/src/sort.cpp: of sorted files it makes one sorted list of all their lines.
use systems_programming_labs.Prelude.{
  ℕ, zero, suc, ◌+◌, ◌<◌, ◌≡◌, refl, sym, ◌∙◌, ap, Bool, Option-cases, Option, none, some, inl, inr,
  List, [], ◌∷◌, ◌++◌, length, length-append, append_assoc, append-nil, subst, arith,
}
use mathlib.Core.List.{Perm, map, map-append, perm_append_comm}
use mathlib.Core.List.Perm
use systems_programming_labs.ExternalSort.Order.{
  Line, Before, IsSorted, Before-perm, Before-cons, Before-trans, Before-append, Before-nil,
}
use systems_programming_labs.ExternalSort.Files.{File, newline, fgetline, fgetline_loop}
use systems_programming_labs.ExternalSort.Queue.{
  Keyed, pop_top, HeadsAfter, pop_top-none, pop_top-Popped, pop_top-map,
}
use systems_programming_labs.ExternalSort.Lines.{Plain, fgetline_of_Plain}
use systems_programming_labs.ExternalSort.Program.{push_next, merge_loop}

-- The lines that a file holds, with the one that was read of it.
abbrev pub Run : Type 0
Run = Keyed (List Line)

abbrev pub file_of : List Line → File
file_of [] = []
file_of (w ∷ ws) = w ++ (newline ∷ file_of ws)

abbrev pub node_of : Run → Keyed File
node_of r = (r.0, file_of r.1)

-- All lines of the runs.
abbrev pub all_lines : List Run → List Line
all_lines [] = []
all_lines (r ∷ q) = r.0 ∷ (r.1 ++ all_lines q)

abbrev pub push_run : List Line → List Run → List Run
push_run [] q = q
push_run (w ∷ ws) q = q ++ ((w, ws) ∷ [])

abbrev pub AllPlain : List Line → Type 0
AllPlain [] = Unit {0}
AllPlain (w ∷ ws) = Plain w × AllPlain ws

-- Each run is sorted, and its lines can be read back.
abbrev pub AreRuns : Bool → List Run → Type 0
AreRuns reverse [] = Unit {0}
AreRuns reverse (r ∷ q) = IsSorted reverse (r.0 ∷ r.1) × AllPlain r.1 × AreRuns reverse q

all_lines-append : (u v : List Run) → all_lines (u ++ v) ≡ all_lines u ++ all_lines v
all_lines-append [] v = refl
all_lines-append (r ∷ u) v =
    ap (λ t. r.0 ∷ t)
      (ap (λ t. r.1 ++ t) (all_lines-append u v)
        ∙ sym (append_assoc r.1 (all_lines u) (all_lines v)))

AreRuns-append :
    (reverse : Bool) (u v : List Run)
    → AreRuns reverse u
    → AreRuns reverse v
    → AreRuns reverse (u ++ v)
AreRuns-append reverse [] v a b = b
AreRuns-append reverse (r ∷ u) v a b = (a.0, a.1, AreRuns-append reverse u v a.2 b)

AreRuns-split :
    (reverse : Bool) (u : List Run) (m : Run) (v : List Run)
    → AreRuns reverse (u ++ (m ∷ v))
    → AreRuns reverse (m ∷ []) × AreRuns reverse (u ++ v)
AreRuns-split reverse [] m v a = ((a.0, a.1, tt), a.2)
AreRuns-split reverse (r ∷ u) m v a =
    let ih = AreRuns-split reverse u m v a.2 in (ih.0, (a.0, a.1, ih.1))

-- Taking a run out of the middle.
all_lines-split :
    (u : List Run) (m : Run) (v : List Run)
    → Perm (m.0 ∷ (m.1 ++ all_lines (u ++ v))) (all_lines (u ++ (m ∷ v)))
all_lines-split [] m v = Perm.rfl
all_lines-split (r ∷ u) m v =
    Perm.trans (swapped (m.0 ∷ m.1) (r.0 ∷ r.1) (all_lines (u ++ v)))
      (Perm.append_left (r.0 ∷ r.1) (all_lines-split u m v))
  where
    swapped : (xs ys zs : List Line) → Perm (xs ++ (ys ++ zs)) (ys ++ (xs ++ zs))
    swapped xs ys zs =
        subst (λ t. Perm t (ys ++ (xs ++ zs))) (append_assoc xs ys zs)
          (subst (λ t. Perm ((xs ++ ys) ++ zs) t) (append_assoc ys xs zs)
            (Perm.append_right zs (perm_append_comm xs ys)))

push_next_line :
    (fp rest : File) (str : Line) (pq : List (Keyed File))
    → fgetline fp ≡ (some str, rest)
    → push_next fp pq ≡ pq ++ ((str, rest) ∷ [])
unfolding push_next
push_next_line fp rest str pq e = ground (arith, e)

pub push_next-run :
    (ws : List Line) (q : List Run)
    → AllPlain ws
    → push_next (file_of ws) (map node_of q) ≡ map node_of (push_run ws q)
unfolding push_next fgetline fgetline_loop
push_next-run [] q p = refl
push_next-run (w ∷ ws) q p =
    push_next_line (w ++ (newline ∷ file_of ws)) (file_of ws) w (map node_of q)
      (fgetline_of_Plain w (file_of ws) p.0)
    ∙ sym (map-append node_of q ((w, ws) ∷ []))

-- The lines behind a head that stands before the heads of the runs.
Before-all_lines :
    (reverse : Bool) (s : Line) (q : List Run)
    → HeadsAfter reverse s q
    → AreRuns reverse q
    → Before reverse s (all_lines q)
Before-all_lines reverse s [] h a = Before-nil reverse s
Before-all_lines reverse s (r ∷ q) h a = Before-cons reverse s h.0 (
    Before-append reverse s (Before-trans reverse s r.0 h.0 a.0.0)
      (Before-all_lines reverse s q h.1 a.2))

pub push_run-AreRuns :
    (reverse : Bool) (ws : List Line) (q : List Run)
    → IsSorted reverse ws
    → AllPlain ws
    → AreRuns reverse q
    → AreRuns reverse (push_run ws q)
push_run-AreRuns reverse [] q s p a = a
push_run-AreRuns reverse (w ∷ ws) q s p a = AreRuns-append reverse q ((w, ws) ∷ []) a (s, p.1, tt)

pub push_run-perm :
    (ws : List Line) (q : List Run) → Perm (all_lines (push_run ws q)) (ws ++ all_lines q)
push_run-perm [] q = Perm.rfl
push_run-perm (w ∷ ws) q =
    subst (λ t. Perm t (w ∷ (ws ++ all_lines q)))
      (sym (all_lines-append q ((w, ws) ∷ []) ∙ ap (λ t. all_lines q ++ (w ∷ t)) (append-nil ws)))
      (perm_append_comm (all_lines q) (w ∷ ws))

-- The output of the merge.
pub record Merged (reverse : Bool) (lines : List Line) (result : Option (List Line)) : Type 0 where
  pub out : List Line
  pub made : result ≡ some out
  pub sorted : IsSorted reverse out
  pub perm : Perm out lines

length-push_run :
    (ws : List Line) (q : List Run)
    → length (all_lines (push_run ws q)) ≡ length ws + length (all_lines q)
length-push_run [] q = omega arith
length-push_run (w ∷ ws) q = omega (
  arith,
  ap length (all_lines-append q ((w, ws) ∷ [])),
  length-append (all_lines q) (w ∷ (ws ++ [])),
  length-append ws [],
)

length-split :
    (u : List Run) (m : Run) (v : List Run)
    → length (all_lines (u ++ (m ∷ v))) ≡ suc (length m.1 + length (all_lines (u ++ v)))
length-split [] m v = omega (arith, length-append m.1 (all_lines v))
length-split (r ∷ u) m v = omega (
  arith,
  length-split u m v,
  length-append r.1 (all_lines (u ++ (m ∷ v))),
  length-append r.1 (all_lines (u ++ v)),
)

-- A round: the line at the top, and then what is made of the runs that are left.
merge_round :
    (reverse : Bool) (q u : List Run) (m : Run) (v : List Run) (result : Option (List Line))
    → q ≡ u ++ (m ∷ v)
    → AreRuns reverse (u ++ (m ∷ v))
    → HeadsAfter reverse m.0 (u ++ v)
    → Merged reverse (all_lines (push_run m.1 (u ++ v))) result
    → Merged reverse (all_lines q) (elim result [ none ↦ none | some out ↦ some (m.0 ∷ out) ])
merge_round reverse q u m v result whole a first made =
    let parts = AreRuns-split reverse u m v a in
    let rest_perm = Perm.trans made.perm (push_run-perm m.1 (u ++ v)) in
    rw made.made (record {
      out = m.0 ∷ made.out;
      made = refl;
      sorted = (
        Before-perm reverse m.0 rest_perm (
            Before-append reverse m.0 parts.0.0.0
              (Before-all_lines reverse m.0 (u ++ v) first parts.1)),
        made.sorted,
      );
      perm =
          subst (λ r. Perm (m.0 ∷ made.out) (all_lines r)) (sym whole)
            (Perm.trans (Perm.cons m.0 rest_perm) (all_lines-split u m v));
    })

-- A merge of runs ends within as many rounds as there are lines and one, and gives all lines in order.
pub merge_loop-Merged :
    (rounds : ℕ) (reverse : Bool) (q : List Run)
    → AreRuns reverse q
    → length (all_lines q) < rounds
    → Merged reverse (all_lines q) (merge_loop rounds reverse (map node_of q))
unfolding merge_loop
merge_loop-Merged zero reverse q a h = absurd (omega arith)
merge_loop-Merged (suc rounds) reverse q a h = elim (Option-cases (pop_top reverse q)) [
  | inl empty ↦
      let none_left = pop_top-none reverse q empty in
      rw (pop_top-map file_of reverse q, merge_loop, empty)
        (rw none_left (record { out = []; made = refl; sorted = tt; perm = Perm.rfl }))
  | inr ((m, rest), is) ↦
      let p = pop_top-Popped reverse q m rest is in
      let runs = subst (AreRuns reverse) p.whole a in
      let parts = AreRuns-split reverse p.before m p.behind runs in
      let ih =
        merge_loop-Merged rounds reverse (push_run m.1 (p.before ++ p.behind))
          (push_run-AreRuns reverse m.1 (p.before ++ p.behind) parts.0.0.1 parts.0.1 parts.1)
          (omega (
            arith,
            length-push_run m.1 (p.before ++ p.behind),
            length-split p.before m p.behind,
            ap (λ r. length (all_lines r)) p.whole,
          )) in
      rw
        (
          pop_top-map file_of reverse q,
          merge_loop,
          is,
          p.left,
          push_next-run m.1 (p.before ++ p.behind) parts.0.1,
        )
        (merge_round reverse q p.before m p.behind
          (merge_loop rounds reverse (map node_of (push_run m.1 (p.before ++ p.behind)))) p.whole
          runs (subst (HeadsAfter reverse m.0) p.left p.first) ih)
]
