-- ===== src/DeadStores/Pass.antt =====
-- `eliminateDeadStores` of task07-llvm/dead-code-elimination/src/DeadCodeElimination.cpp on one basic block. A
-- stack slot is the number of its `alloca`.
use systems_programming_labs.Prelude.{
  ℕ, zero, suc, ◌+◌, Bool, true, false, ◌&&◌, List, [], ◌∷◌, ◌==◌, ltb, if◌then◌else◌,
}

-- The bytes of each slot.
abbrev pub Memory : Type 0
Memory = ℕ → ℕ → ℕ

-- A load from a slot and a store to a slot, each of so many bytes from the slot's first one on, and volatile
-- or not; a store is of a value that may depend on what was observed before, and has the slots whose address
-- is in its value operand. Another instruction has the slots that it uses, its result and its effect.
pub data Instruction : Type 0 where
  load_from : (slot width : ℕ) (volatile : Bool) → Instruction
  store_to :
      (slot width : ℕ) (volatile : Bool) (value : List (List ℕ) → ℕ → ℕ) (operands : List ℕ)
      → Instruction
  other : List ℕ → (Memory → List ℕ × Memory) → Instruction

unfoldable pub one_if : Bool → ℕ
one_if true = 1
one_if false = 0

unfoldable pub uses_in : ℕ → List ℕ → ℕ
uses_in slot [] = 0
uses_in slot (u ∷ us) = one_if (u == slot) + uses_in slot us

-- `getNumUses`, as far as the uses stand in this block.
unfoldable pub num_uses : ℕ → List Instruction → ℕ
num_uses slot [] = 0
num_uses slot (load_from t width volatile ∷ is) = one_if (t == slot) + num_uses slot is
num_uses slot (store_to t width volatile value operands ∷ is) =
    one_if (t == slot) + uses_in slot operands + num_uses slot is
num_uses slot (other uses act ∷ is) = uses_in slot uses + num_uses slot is

-- `Insts.size()`: the loads from the slot and the stores to it.
unfoldable pub access_count : ℕ → List Instruction → ℕ
access_count slot [] = 0
access_count slot (load_from t width volatile ∷ is) = one_if (t == slot) + access_count slot is
access_count slot (store_to t width volatile value operands ∷ is) =
    one_if (t == slot) + access_count slot is
access_count slot (other uses act ∷ is) = access_count slot is

-- `eliminateDeadStoresForSlot`: the block without the stores that are removed, and `ValueNeeded` at its
-- beginning. The walk is backwards, and passes over the instructions that are no access to the slot.
unfoldable pub slot_pass : ℕ → List Instruction → List Instruction × Bool
slot_pass slot [] = ([], false)
slot_pass slot (load_from t width volatile ∷ is) =
    let (kept, value_needed) = slot_pass slot is in
    (load_from t width volatile ∷ kept, if t == slot then true else value_needed)
slot_pass slot (store_to t width volatile value operands ∷ is) =
    let (kept, value_needed) = slot_pass slot is in
    if t == slot
    then (if value_needed then store_to t width volatile value operands ∷ kept else kept, false)
    else (store_to t width volatile value operands ∷ kept, value_needed)
slot_pass slot (other uses act ∷ is) =
    let (kept, value_needed) = slot_pass slot is in (other uses act ∷ kept, value_needed)

-- The loop over `SlotInsts`, for the slots in some order, with the number of uses that each slot has in other
-- blocks.
unfoldable pub eliminate_slots : (ℕ → ℕ) → List ℕ → List Instruction → List Instruction
eliminate_slots outside [] block = block
eliminate_slots outside (slot ∷ slots) block =
    let passed = (slot_pass slot block).0 in
    eliminate_slots outside slots
      (if outside slot + num_uses slot block == access_count slot block then passed else block)

-- A store done on the memory.
unfoldable pub put_value : ℕ → ℕ → (ℕ → ℕ) → Memory → Memory
put_value slot width value m t k = if t == slot && ltb k width then value k else m t k

-- The first bytes of a slot.
unfoldable pub read_bytes : ℕ → (ℕ → ℕ) → List ℕ
read_bytes zero bytes = []
read_bytes (suc width) bytes = bytes width ∷ read_bytes width bytes

-- One run through the block: what the loads, the volatile stores and the other instructions give, the last
-- first, and the memory at the end.
unfoldable pub execute : List Instruction → Memory → List (List ℕ) → List (List ℕ) × Memory
execute [] m seen = (seen, m)
execute (load_from t width volatile ∷ is) m seen = execute is m (read_bytes width (m t) ∷ seen)
execute (store_to t width volatile value operands ∷ is) m seen =
    execute is (put_value t width (value seen) m)
      (if volatile then read_bytes width (value seen) ∷ seen else seen)
execute (other uses act ∷ is) m seen = execute is (act m).1 ((act m).0 ∷ seen)
