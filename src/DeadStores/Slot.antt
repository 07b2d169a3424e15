-- ===== src/DeadStores/Slot.antt =====
-- The stores to one slot that task07-llvm/dead-code-elimination/src/DeadCodeElimination.cpp removes.
use systems_programming_labs.Prelude.{
  ℕ, zero, suc, ◌<◌, ◌≤◌, ◌≡◌, ◌≢◌, refl, sym, subst, ◌∙◌, ap₂, true, false, ◌&&◌, Bool-cases, List,
  [], ◌∷◌, ◌==◌, ltb, inl, inr, arith,
}
use systems_programming_labs.DeadStores.Pass.{
  Memory, Instruction, load_from, store_to, other, uses_in, slot_pass, put_value, read_bytes,
  execute,
}

-- The memories agree but for the slot.
abbrev pub AgreeOff : ℕ → Memory → Memory → Type 0
AgreeOff slot m m' = (t : ℕ) → t ≢ slot → (k : ℕ) → m t k ≡ m' t k

-- The instruction neither reads nor writes the slot.
abbrev pub LeavesAlone : ℕ → (Memory → List ℕ × Memory) → Type 0
LeavesAlone slot act =
    (m m' : Memory)
    → AgreeOff slot m m'
    → ((act m).0 ≡ (act m').0)
      × AgreeOff slot (act m).1 (act m').1
      × ((k : ℕ) → (act m).1 slot k ≡ m slot k)

-- Instructions reach only the slots whose address they use.
abbrev pub Respects : List Instruction → Type 0
Respects [] = Unit {0}
Respects (load_from t width volatile ∷ is) = Respects is
Respects (store_to t width volatile value operands ∷ is) = Respects is
Respects (other uses act ∷ is) =
    ((slot : ℕ) → uses_in slot uses ≡ 0 → LeavesAlone slot act) × Respects is

-- No instruction but loads and stores uses the slot.
abbrev pub IsPrivate : ℕ → List Instruction → Type 0
IsPrivate slot [] = Unit {0}
IsPrivate slot (load_from t width volatile ∷ is) = IsPrivate slot is
IsPrivate slot (store_to t width volatile value operands ∷ is) = IsPrivate slot is
IsPrivate slot (other uses act ∷ is) = (uses_in slot uses ≡ 0) × IsPrivate slot is

-- The stores are not volatile and write at least as many bytes of their slot as any load reads of it.
abbrev pub Covers : (ℕ → ℕ) → List Instruction → Type 0
Covers extent [] = Unit {0}
Covers extent (load_from t width volatile ∷ is) = (width ≤ extent t) × Covers extent is
Covers extent (store_to t width volatile value operands ∷ is) =
    (extent t ≤ width) × (volatile ≡ false) × Covers extent is
Covers extent (other uses act ∷ is) = Covers extent is

pub AgreeOff-put_value :
    (slot t width : ℕ) (v v' : ℕ → ℕ) (m m' : Memory)
    → AgreeOff slot m m'
    → (t ≢ slot → (k : ℕ) → v k ≡ v' k)
    → AgreeOff slot (put_value t width v m) (put_value t width v' m')
unfolding put_value
AgreeOff-put_value slot t width v v' m m' agree same u h k =
    elim (Bool-cases (u == t && ltb k width)) [
      | inl here ↦ rw here (same (λ q. h (ground (arith, here, q))) k)
      | inr there ↦ rw there (agree u h k)
    ]

put_value-at :
    (t width : ℕ) (v : ℕ → ℕ) (m : Memory) (k : ℕ) → k < width → put_value t width v m t k ≡ v k
unfolding put_value
put_value-at t width v m k h =
    let here : (t == t && ltb k width) ≡ true = ground (arith, h) in rw here refl

pub put_value-off :
    (t u width : ℕ) (v : ℕ → ℕ) (m : Memory) → u ≢ t → (k : ℕ) → put_value t width v m u k ≡ m u k
unfolding put_value
put_value-off t u width v m h k =
    let there : (u == t && ltb k width) ≡ false = ground (arith, h) in rw there refl

read_bytes-eq :
    (width : ℕ) (bytes bytes' : ℕ → ℕ)
    → ((k : ℕ) → k < width → bytes k ≡ bytes' k)
    → read_bytes width bytes ≡ read_bytes width bytes'
unfolding read_bytes
read_bytes-eq zero bytes bytes' same = refl
read_bytes-eq (suc width) bytes bytes' same =
    ap₂ (λ b bs. b ∷ bs) (same width (omega arith))
      (read_bytes-eq width bytes bytes' (λ k h. same k (omega (arith, h))))

module _ (extent : ℕ → ℕ) (slot : ℕ) where
  -- What the run of the block without the removed stores, and the run of the whole block, agree on.
  abbrev pub Same : List (List ℕ) × Memory → List (List ℕ) × Memory → Type 0
  Same r r' = (r.0 ≡ r'.0) × AgreeOff slot r.1 r'.1

  -- The memories agree on the bytes of the slot that loads read.
  abbrev pub AgreeAt : Memory → Memory → Type 0
  AgreeAt m m' = (k : ℕ) → k < extent slot → m slot k ≡ m' slot k

  -- A load that reads the same.
  load_step :
      (t width : ℕ) (is kept : List Instruction) (m m' : Memory) (seen : List (List ℕ))
      → ((k : ℕ) → k < width → m t k ≡ m' t k)
      → Same
          (execute kept m (read_bytes width (m t) ∷ seen))
          (execute is m' (read_bytes width (m t) ∷ seen))
      → Same
          (execute kept m (read_bytes width (m t) ∷ seen))
          (execute is m' (read_bytes width (m' t) ∷ seen))
  load_step t width is kept m m' seen same done =
      subst (λ v. Same (execute kept m (read_bytes width (m t) ∷ seen)) (execute is m' (v ∷ seen)))
        (read_bytes-eq width (m t) (m' t) same) done

  pub slot_pass-Same :
      (is : List Instruction) (m m' : Memory) (seen : List (List ℕ))
      → Respects is
      → IsPrivate slot is
      → Covers extent is
      → AgreeOff slot m m'
      → ((slot_pass slot is).1 ≡ true → AgreeAt m m')
      → Same (execute (slot_pass slot is).0 m seen) (execute is m' seen)
  unfolding slot_pass execute
  slot_pass-Same [] m m' seen respects private covers agree at_slot = (refl, agree)
  slot_pass-Same (load_from t width volatile ∷ is) m m' seen respects private covers agree at_slot =
      let kept = (slot_pass slot is).0 in
      let seen' = read_bytes width (m t) ∷ seen in
      elim (Bool-cases (t == slot)) [
        | inl here ↦
            let equal : AgreeAt m m' = at_slot (rw here refl) in
            let there : t ≡ slot = ground (arith, here) in
            let loaded : (k : ℕ) → k < extent t → m t k ≡ m' t k =
              subst (λ u. (k : ℕ) → k < extent u → m u k ≡ m' u k) (sym there) equal in
            load_step t width is kept m m' seen (λ k h. loaded k (omega (arith, h, covers.0)))
              (slot_pass-Same is m m' seen' respects private covers.1 agree (λ q. equal))
        | inr off ↦
            load_step t width is kept m m' seen (λ k h. agree t (λ q. ground (arith, off, q)) k)
              (slot_pass-Same is m m' seen' respects private covers.1 agree
                (λ q. at_slot (rw off q)))
      ]
  slot_pass-Same (store_to t width volatile value operands ∷ is) m m' seen respects private covers
        agree at_slot =
      let v = value seen in
      let plain = covers.1 in
      elim (Bool-cases (t == slot)) [
        | inr off ↦
            let apart : slot ≢ t = λ q. ground (arith, off, q) in
            rw (off, plain)
              (slot_pass-Same is (put_value t width v m) (put_value t width v m') seen respects
                private covers.2 (AgreeOff-put_value slot t width v v m m' agree (λ h k. refl))
                (λ q k h.
                  put_value-off t slot width v m apart k
                  ∙ at_slot (rw off q) k h
                  ∙ sym (put_value-off t slot width v m' apart k)))
        | inl here ↦
            let there : t ≡ slot = ground (arith, here) in
            elim (Bool-cases (slot_pass slot is).1) [
              | inl needed ↦
                  rw (here, needed, plain)
                    (slot_pass-Same is (put_value t width v m) (put_value t width v m') seen
                      respects private covers.2
                      (AgreeOff-put_value slot t width v v m m' agree (λ h k. refl))
                      (λ q.
                        subst
                          (λ u.
                            (k : ℕ)
                            → k < extent u
                            → put_value t width v m u k ≡ put_value t width v m' u k)
                          there
                          (λ k h.
                            let in_width : k < width = omega (arith, h, covers.0) in
                            put_value-at t width v m k in_width
                            ∙ sym (put_value-at t width v m' k in_width))))
              | inr unneeded ↦
                  rw (here, unneeded, plain)
                    (slot_pass-Same is m (put_value t width v m') seen respects private covers.2
                      (λ u h k.
                        agree u h k ∙ sym (put_value-off t u width v m' (λ q. h (q ∙ there)) k))
                      (λ q. cc (q, unneeded)))
            ]
      ]
  slot_pass-Same (other uses act ∷ is) m m' seen respects private covers agree at_slot =
      let alone = respects.0 slot private.0 in
      let both = alone m m' agree in
      let mine = alone m' m' (λ u h k. refl) in
      subst
        (λ v.
          Same (execute (slot_pass slot is).0 (act m).1 ((act m).0 ∷ seen))
            (execute is (act m').1 (v ∷ seen)))
        both.0
        (slot_pass-Same is (act m).1 (act m').1 ((act m).0 ∷ seen) respects.1 private.1 covers
          both.1 (λ q k h. both.2 k ∙ at_slot q k h ∙ sym (mine.2 k)))
