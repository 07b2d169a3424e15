-- ===== src/ExternalSort/Tests.antt =====
-- Runs of task00-sort/src/sort.cpp on small inputs, and the results at them.
use systems_programming_labs.Prelude.{
  ℕ, ◌≡◌, refl, true, false, none, some, List, [], ◌∷◌, ◌++◌, arith,
}
use mathlib.Core.List.{Perm}
use systems_programming_labs.ExternalSort.Order.{Line, less, IsSorted}
use systems_programming_labs.ExternalSort.Files.{
  newline, c_str, put_line, chunk, pop_newline, fgetline_loop, fgetline,
}
use systems_programming_labs.ExternalSort.Queue.{pop_top}
use systems_programming_labs.ExternalSort.Program.{
  insert_sorted, sort, Disk, write_lines, separate, push_next, push_all, merge_loop, merge,
  lines_from, read_loop, main,
}
use systems_programming_labs.ExternalSort.Lines.{fgetline-put_line}
use systems_programming_labs.ExternalSort.Whole.{main-sorts}

abbrev good_disk : ℕ → Disk
good_disk n = record { opens = true; writes = true }

-- "b", "ab" and, without a newline, "a"
abbrev sample : List ℕ
sample = b'b' ∷ newline ∷ b'a' ∷ b'b' ∷ newline ∷ b'a' ∷ []

run_lines : lines_from [] sample ≡ (b'b' ∷ []) ∷ (b'a' ∷ b'b' ∷ []) ∷ (b'a' ∷ []) ∷ []
unfolding lines_from
run_lines = refl

run_main :
    main good_disk 4 false sample ≡ some ((b'a' ∷ []) ∷ (b'a' ∷ b'b' ∷ []) ∷ (b'b' ∷ []) ∷ [])
unfolding main read_loop lines_from separate write_lines sort insert_sorted less c_str merge
    push_all push_next fgetline fgetline_loop chunk pop_newline merge_loop pop_top
run_main = refl

run_reverse :
    main good_disk 4 true sample ≡ some ((b'b' ∷ []) ∷ (b'a' ∷ b'b' ∷ []) ∷ (b'a' ∷ []) ∷ [])
unfolding main read_loop lines_from separate write_lines sort insert_sorted less c_str merge
    push_all push_next fgetline fgetline_loop chunk pop_newline merge_loop pop_top
run_reverse = refl

-- No temporary file: exit code 1.
run_no_file : main (λ n. record { opens = false; writes = true }) 4 false sample ≡ none
unfolding main read_loop lines_from separate
run_no_file = refl

fgetline-put_line_example :
    (fgetline (put_line (b'a' ∷ 0 ∷ b'b' ∷ []) ++ (b'c' ∷ [])) ≡ (some (b'a' ∷ []), b'c' ∷ []))
    × (fgetline [] ≡ (none, []))
unfolding c_str
fgetline-put_line_example =
    fgetline-put_line (b'a' ∷ 0 ∷ b'b' ∷ []) (b'c' ∷ []) (refl, (refl, (refl, tt)))

main-sorts_example :
    (out : List Line) × (main good_disk 4 false sample ≡ some out)
    × IsSorted false out
    × Perm out ((b'b' ∷ []) ∷ (b'a' ∷ b'b' ∷ []) ∷ (b'a' ∷ []) ∷ [])
unfolding lines_from c_str
main-sorts_example = main-sorts good_disk 4 false sample (λ n. refl) (omega arith)
