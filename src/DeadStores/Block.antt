-- ===== src/DeadStores/Block.antt =====
-- A basic block without the stores that task07-llvm/dead-code-elimination/src/DeadCodeElimination.cpp removes.
use systems_programming_labs.Prelude.{
  ℕ, ◌+◌, ◌≤◌, ◌<◌, ◌≡◌, refl, ◌∙◌, ap, Bool-cases, List, [], ◌∷◌, ◌==◌, inl, inr, arith,
}
use systems_programming_labs.DeadStores.Pass.{
  Memory, Instruction, load_from, store_to, other, num_uses, access_count, slot_pass,
  eliminate_slots, execute,
}
use systems_programming_labs.DeadStores.Slot.{Respects, IsPrivate, Covers, slot_pass-Same}

access_count-num_uses : (slot : ℕ) (is : List Instruction) → access_count slot is ≤ num_uses slot is
unfolding access_count num_uses
access_count-num_uses slot [] = omega arith
access_count-num_uses slot (load_from t width volatile ∷ is) =
    omega (arith, access_count-num_uses slot is)
access_count-num_uses slot (store_to t width volatile value operands ∷ is) =
    omega (arith, access_count-num_uses slot is)
access_count-num_uses slot (other uses act ∷ is) = omega (arith, access_count-num_uses slot is)

num_uses-IsPrivate :
    (slot : ℕ) (is : List Instruction) → num_uses slot is ≡ access_count slot is → IsPrivate slot is
unfolding access_count num_uses
num_uses-IsPrivate slot [] e = tt
num_uses-IsPrivate slot (load_from t width volatile ∷ is) e =
    num_uses-IsPrivate slot is (omega (arith, e))
num_uses-IsPrivate slot (store_to t width volatile value operands ∷ is) e =
    num_uses-IsPrivate slot is (omega (arith, e, access_count-num_uses slot is))
num_uses-IsPrivate slot (other uses act ∷ is) e =
    let more = access_count-num_uses slot is in
    (omega (arith, e, more), num_uses-IsPrivate slot is (omega (arith, e, more)))

slot_pass-Respects :
    (slot : ℕ) (is : List Instruction) → Respects is → Respects (slot_pass slot is).0
unfolding slot_pass
slot_pass-Respects slot [] r = tt
slot_pass-Respects slot (load_from t width volatile ∷ is) r = slot_pass-Respects slot is r
slot_pass-Respects slot (other uses act ∷ is) r = (r.0, slot_pass-Respects slot is r.1)
slot_pass-Respects slot (store_to t width volatile value operands ∷ is) r =
    let rest = slot_pass-Respects slot is r in
    elim (Bool-cases (t == slot)) [
      | inr off ↦ rw off rest
      | inl here ↦ elim (Bool-cases (slot_pass slot is).1) [
        | inl needed ↦ rw (here, needed) rest
        | inr unneeded ↦ rw (here, unneeded) rest
      ]
    ]

slot_pass-Covers :
    (extent : ℕ → ℕ) (slot : ℕ) (is : List Instruction)
    → Covers extent is
    → Covers extent (slot_pass slot is).0
unfolding slot_pass
slot_pass-Covers extent slot [] c = tt
slot_pass-Covers extent slot (load_from t width volatile ∷ is) c =
    (c.0, slot_pass-Covers extent slot is c.1)
slot_pass-Covers extent slot (other uses act ∷ is) c = slot_pass-Covers extent slot is c
slot_pass-Covers extent slot (store_to t width volatile value operands ∷ is) c =
    let rest = slot_pass-Covers extent slot is c.2 in
    elim (Bool-cases (t == slot)) [
      | inr off ↦ rw off (c.0, c.1, rest)
      | inl here ↦ elim (Bool-cases (slot_pass slot is).1) [
        | inl needed ↦ rw (here, needed) (c.0, c.1, rest)
        | inr unneeded ↦ rw (here, unneeded) rest
      ]
    ]

-- Two runs give the same observations, and the same bytes in the slots that other blocks use.
abbrev pub Indistinct : (ℕ → ℕ) → List (List ℕ) × Memory → List (List ℕ) × Memory → Type 0
Indistinct outside r r' =
    (r.0 ≡ r'.0) × ((slot : ℕ) → 0 < outside slot → (k : ℕ) → r.1 slot k ≡ r'.1 slot k)

slot_pass-Indistinct :
    (extent outside : ℕ → ℕ) (slot : ℕ) (block : List Instruction) (m : Memory)
    (seen : List (List ℕ))
    → Respects block
    → Covers extent block
    → outside slot + num_uses slot block ≡ access_count slot block
    → Indistinct outside (execute (slot_pass slot block).0 m seen) (execute block m seen)
slot_pass-Indistinct extent outside slot block m seen respects covers e =
    let more = access_count-num_uses slot block in
    let private = num_uses-IsPrivate slot block (omega (arith, e, more)) in
    let same =
      slot_pass-Same extent slot block m m seen respects private covers (λ t h k. refl)
        (λ q k h. refl) in
    (same.0, λ t used. same.1 t (λ q. omega (arith, used, e, more, ap outside q)))

-- In a block whose stores are not volatile, and whose stores to a slot each write at least the bytes that
-- any load reads of it, one run observes the same, and leaves the same in every slot that other blocks use,
-- whether the stores are removed or not, for whatever slots they are removed and in whatever order.
-- Instructions but loads and stores are taken to reach only the slots whose address they use.
pub eliminate_slots-Indistinct :
    (extent outside : ℕ → ℕ) (slots : List ℕ) (block : List Instruction) (m : Memory)
    (seen : List (List ℕ))
    → Respects block
    → Covers extent block
    → Indistinct outside
        (execute (eliminate_slots outside slots block) m seen)
        (execute block m seen)
unfolding eliminate_slots
eliminate_slots-Indistinct extent outside [] block m seen respects covers =
    (refl, λ slot used k. refl)
eliminate_slots-Indistinct extent outside (slot ∷ slots) block m seen respects covers =
    elim (Bool-cases (outside slot + num_uses slot block == access_count slot block)) [
      | inr skipped ↦
          rw skipped (eliminate_slots-Indistinct extent outside slots block m seen respects covers)
      | inl private ↦
          let once =
            slot_pass-Indistinct extent outside slot block m seen respects covers
              (ground (arith, private)) in
          let rest =
            eliminate_slots-Indistinct extent outside slots (slot_pass slot block).0 m seen
              (slot_pass-Respects slot block respects)
              (slot_pass-Covers extent slot block covers) in
          rw private (rest.0 ∙ once.0, λ t used k. rest.1 t used k ∙ once.1 t used k)
    ]
