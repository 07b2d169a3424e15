-- ===== src/LockHashMap/Linear.antt =====
-- The interleaved calls of task04-concurrency/src/lockhashmap.c act one at a time, each at one access of
-- its own, as the specification says.
use systems_programming_labs.Prelude.{
  ℕ, zero, suc, ◌<◌, ◌≡◌, refl, ap, true, false, Bool-cases, Option-cases, none, some, inl, inr,
  List, [], ◌∷◌, ◌==◌, length, get_elem?, take, arith,
}
use systems_programming_labs.LockHashMap.Bucket.{
  Bucket, Op, insert, remove, lookup, Thread, holding, leaving, unlink, remove_round, lookup_round,
  advance,
}
use systems_programming_labs.LockHashMap.Spec.{contains, erase, perform}
use systems_programming_labs.LockHashMap.Exclusion.{Searching}

-- At the end of the list the value is not in it.
search_end :
    (val : ℕ) (xs : List ℕ) (k : ℕ)
    → contains val (take k xs) ≡ false
    → get_elem? xs k ≡ none
    → (contains val xs ≡ false) × (erase val xs ≡ xs)
unfolding contains erase
search_end val [] k s e = (refl, refl)
search_end val (x ∷ xs) zero s e = cc
search_end val (x ∷ xs) (suc k) s e = elim (Bool-cases (x == val)) [
  | inl is ↦ ground arith
  | inr not ↦
      let ih = search_end val xs k (rw not at s) e in (rw not ih.0, rw not (ap (λ r. x ∷ r) ih.1))
]

-- The node that is found is the value's first one.
search_hit :
    (val : ℕ) (xs : List ℕ) (k m_val : ℕ)
    → contains val (take k xs) ≡ false
    → get_elem? xs k ≡ some m_val
    → (m_val == val) ≡ true
    → (contains val xs ≡ true) × (erase val xs ≡ unlink k xs)
unfolding contains erase
search_hit val [] k m_val s e h = cc
search_hit val (x ∷ xs) zero m_val s e h =
    let is : (x == val) ≡ true = ground arith in (rw is refl, rw is refl)
search_hit val (x ∷ xs) (suc k) m_val s e h = elim (Bool-cases (x == val)) [
  | inl is ↦ ground arith
  | inr not ↦
      let ih = search_hit val xs k m_val (rw not at s) e h in
      (rw not ih.0, rw not (ap (λ r. x ∷ r) ih.1))
]

search_on :
    (val : ℕ) (xs : List ℕ) (k m_val : ℕ)
    → contains val (take k xs) ≡ false
    → get_elem? xs k ≡ some m_val
    → (m_val == val) ≡ false
    → contains val (take (suc k) xs) ≡ false
unfolding contains
search_on val [] k m_val s e h = cc
search_on val (x ∷ xs) zero m_val s e h = let not : (x == val) ≡ false = ground arith in rw not refl
search_on val (x ∷ xs) (suc k) m_val s e h = elim (Bool-cases (x == val)) [
  | inl is ↦ ground arith
  | inr not ↦ rw not (search_on val xs k m_val (rw not at s) e h)
]

in_list : (xs : List ℕ) (k : ℕ) {x : ℕ} → get_elem? xs k ≡ some x → k < length xs
in_list [] k e = cc
in_list (x ∷ xs) zero e = omega arith
in_list (x ∷ xs) (suc k) e = omega (arith, in_list xs k e)

-- What an access of a thread behind `cspin_lock` does: it ends the call's work as the specification says,
-- or goes on with the search.
pub data Access (b : Bucket) (op : Op) (k : ℕ) : Bucket × Thread → Type 0 where
  acts :
      (b' : Bucket) (code : ℕ)
      → b'.slock ≡ b.slock
      → perform op b.sentinel ≡ (code, b'.sentinel)
      → Access b op k (b', leaving op code)
  searches :
      k < length b.sentinel
      → Searching b.sentinel (holding op (suc k))
      → Access b op k (b, holding op (suc k))

pub advance-Access :
    (b : Bucket) (op : Op) (k : ℕ)
    → Searching b.sentinel (holding op k)
    → Access b op k (advance b (holding op k))
unfolding advance perform remove_round lookup_round
advance-Access b (insert val) k s = acts (record b { sentinel = val ∷ b.sentinel }) 0 refl refl
advance-Access b (remove val) k s = elim (Option-cases (get_elem? b.sentinel k)) [
  | inl e ↦
      let r = search_end val b.sentinel k s e in
      rw (e, remove_round) (acts b 1 refl (rw (r.0, r.1) refl))
  | inr (m_val, e) ↦ elim (Bool-cases (m_val == val)) [
    | inl h ↦
        let r = search_hit val b.sentinel k m_val s e h in
        rw (e, remove_round, h)
          (acts (record b { sentinel = unlink k b.sentinel }) 0 refl (rw (r.0, r.1) refl))
    | inr h ↦
        rw (e, remove_round, h)
          (searches (in_list b.sentinel k e) (search_on val b.sentinel k m_val s e h))
  ]
]
advance-Access b (lookup val) k s = elim (Option-cases (get_elem? b.sentinel k)) [
  | inl e ↦
      let r = search_end val b.sentinel k s e in rw (e, lookup_round) (acts b 1 refl (rw r.0 refl))
  | inr (m_val, e) ↦ elim (Bool-cases (m_val == val)) [
    | inl h ↦
        let r = search_hit val b.sentinel k m_val s e h in
        rw (e, lookup_round, h) (acts b 0 refl (rw r.0 refl))
    | inr h ↦
        rw (e, lookup_round, h)
          (searches (in_list b.sentinel k e) (search_on val b.sentinel k m_val s e h))
  ]
]
