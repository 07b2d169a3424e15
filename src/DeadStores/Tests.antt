-- ===== src/DeadStores/Tests.antt =====
-- Runs of task07-llvm/dead-code-elimination/src/DeadCodeElimination.cpp on small blocks.
use systems_programming_labs.Prelude.{
  ℕ, ◌+◌, ◌≡◌, ◌≢◌, true, false, refl, sym, ap, List, [], ◌∷◌, arith,
}
use systems_programming_labs.DeadStores.Pass.{
  Instruction, load_from, store_to, other, one_if, uses_in, num_uses, access_count, slot_pass,
  eliminate_slots, put_value, read_bytes, execute, Memory,
}
use systems_programming_labs.DeadStores.Slot.{
  LeavesAlone, Respects, Covers, AgreeOff-put_value, put_value-off,
}
use systems_programming_labs.DeadStores.Block.{Indistinct, eliminate_slots-Indistinct}

abbrev one : List (List ℕ) → ℕ → ℕ
one seen k = 1

abbrev two : List (List ℕ) → ℕ → ℕ
two seen k = 2

-- A store to all four bytes of a slot, and a load of them.
abbrev put : ℕ → (List (List ℕ) → ℕ → ℕ) → Instruction
put slot value = store_to slot 4 false value []

abbrev get : ℕ → Instruction
get slot = load_from slot 4 false

-- A call that gets the address of slot 9, and gives and changes its first byte.
abbrev act_nine : Memory → List ℕ × Memory
act_nine m = (m 9 0 ∷ [], put_value 9 1 (λ k. m 9 0 + 1) m)

-- Slot 7 is overwritten before it is read, and written again at the end; slot 9 is given to a call.
abbrev block : List Instruction
block = put 7 one ∷ put 9 two ∷ put 7 two ∷ get 7 ∷ other (9 ∷ []) act_nine ∷ put 7 one ∷ []

abbrev nowhere : ℕ → ℕ
nowhere slot = 0

abbrev zeros : Memory
zeros slot k = 0

run_eliminate :
    eliminate_slots nowhere (7 ∷ 9 ∷ []) block
    ≡ put 9 two ∷ put 7 two ∷ get 7 ∷ other (9 ∷ []) act_nine ∷ []
unfolding eliminate_slots slot_pass num_uses access_count uses_in one_if
run_eliminate = refl

-- A slot that another block uses keeps its stores.
run_outside : eliminate_slots (λ slot. 1) (7 ∷ []) block ≡ block
unfolding eliminate_slots slot_pass num_uses access_count uses_in one_if
run_outside = refl

-- A block that runs twice, as the body of a loop does: its store is removed, and the load of the second run
-- gives another value.
run_loop :
    let body : List Instruction = load_from 7 1 false ∷ store_to 7 1 false one [] ∷ [] in
    let again = λ (is : List Instruction).
      let first = execute is zeros [] in (execute is first.1 first.0).0 in
    (again body ≡ (1 ∷ []) ∷ (0 ∷ []) ∷ [])
    × (again (eliminate_slots nowhere (7 ∷ []) body) ≡ (0 ∷ []) ∷ (0 ∷ []) ∷ [])
unfolding eliminate_slots slot_pass num_uses access_count uses_in one_if execute put_value
    read_bytes
run_loop = (refl, refl)

-- A store of one byte behind a store of two: the wide one is removed, and a load of both bytes gives
-- another value.
run_narrow :
    let narrow : List Instruction =
      store_to 7 2 false one [] ∷ store_to 7 1 false two [] ∷ load_from 7 2 false ∷ [] in
    ((execute narrow zeros []).0 ≡ (1 ∷ 2 ∷ []) ∷ [])
    × ((execute (eliminate_slots nowhere (7 ∷ []) narrow) zeros []).0 ≡ (0 ∷ 2 ∷ []) ∷ [])
unfolding eliminate_slots slot_pass num_uses access_count uses_in one_if execute put_value
    read_bytes
run_narrow = (refl, refl)

-- A volatile store is removed.
run_volatile : eliminate_slots nowhere (7 ∷ []) (store_to 7 4 true one [] ∷ []) ≡ []
unfolding eliminate_slots slot_pass num_uses access_count uses_in one_if
run_volatile = refl

act_nine-LeavesAlone : (slot : ℕ) → slot ≢ 9 → LeavesAlone slot act_nine
act_nine-LeavesAlone slot apart m m' agree =
    let nine = agree 9 (λ q. apart (sym q)) 0 in
    (
      ap (λ v. v ∷ []) nine,
      AgreeOff-put_value slot 9 1 (λ k. m 9 0 + 1) (λ k. m' 9 0 + 1) m m' agree
          (λ h k. ap (λ v. v + 1) nine),
      put_value-off 9 slot 1 (λ k. m 9 0 + 1) m apart,
    )

uses_in-nine : (slot : ℕ) → uses_in slot (9 ∷ []) ≡ 0 → slot ≢ 9
unfolding uses_in one_if
uses_in-nine slot e q = ground (arith, e, q)

block-Respects : Respects block
block-Respects = ((λ slot e. act_nine-LeavesAlone slot (uses_in-nine slot e)), tt)

block-Covers : Covers (λ slot. 4) block
block-Covers = (
  omega arith,
  refl,
  (omega arith, refl, (omega arith, refl, (omega arith, (omega arith, refl, tt)))),
)

eliminate_slots-Indistinct_example :
    Indistinct nowhere
      (execute (eliminate_slots nowhere (7 ∷ 9 ∷ []) block) zeros [])
      (execute block zeros [])
eliminate_slots-Indistinct_example =
    eliminate_slots-Indistinct (λ slot. 4) nowhere (7 ∷ 9 ∷ []) block zeros [] block-Respects
      block-Covers
