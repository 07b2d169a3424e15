-- ===== src/Sockets/Rounds.antt =====
-- What a round of `server_kernel` in task06-sockets/src/server.cpp does to the clients of a worker.
use systems_programming_labs.Prelude.{
  ℕ, suc, ◌-◌, ◌≡◌, refl, sym, subst, ◌∙◌, ap, Bool, true, false, some, List, [], ◌∷◌, ◌++◌,
  append_assoc, append-nil, ◌⊎◌, inl, inr, if◌then◌else◌, length, get_elem?, set, take,
  length-append, arith,
}
use mathlib.Core.List.Perm
use mathlib.Core.List.{Perm, reverse, reverse-cons, reverse-reverse, perm_append_singleton}
use systems_programming_labs.Sockets.Wire.{Bytes, Protobuf, Transport}
use systems_programming_labs.Sockets.Worker.{Client, World, handle, remove_at, round_loop, round}

-- The reference: each client of the list is handled once, if it can be read, and stays unless it is closed.
unfoldable pub handle_each :
    Protobuf → Transport → Bytes → List Client → List Client × World → List Client × World
handle_each pb net garbage [] (kept, w) = (kept, w)
handle_each pb net garbage (c ∷ cs) (kept, w) =
    let handled = handle pb net garbage c.fd w in
    let skip = handle_each pb net garbage cs (c ∷ kept, w) in
    let keep = handle_each pb net garbage cs (c ∷ kept, handled.1) in
    let leave = handle_each pb net garbage cs (kept, handled.1) in
    if c.readable then if handled.0 then leave else keep else skip

module _ {ℓ} {A : Type ℓ} where
  get_elem?-middle : (xs ys : List A) (y : A) → get_elem? (xs ++ (y ∷ ys)) (length xs) ≡ some y
  get_elem?-middle [] ys y = refl
  get_elem?-middle (x ∷ xs) ys y = get_elem?-middle xs ys y

  set-middle : (xs ys : List A) (y z : A) → set (xs ++ (y ∷ ys)) (length xs) z ≡ xs ++ (z ∷ ys)
  set-middle [] ys y z = refl
  set-middle (x ∷ xs) ys y z = ap (λ v. x ∷ v) (set-middle xs ys y z)

  take-front : (xs ys : List A) → take (length xs) (xs ++ ys) ≡ xs
  take-front [] ys = refl
  take-front (x ∷ xs) ys = ap (λ v. x ∷ v) (take-front xs ys)

  last-cases : (xs : List A) → (xs ≡ []) ⊎ ((ys : List A) × (y : A) × (xs ≡ ys ++ (y ∷ [])))
  last-cases [] = inl refl
  last-cases (x ∷ xs) = elim (last-cases xs) [
    | inl e ↦ inr ([], x, ap (λ v. x ∷ v) e)
    | inr (ys, y, e) ↦ inr (x ∷ ys, y, ap (λ v. x ∷ v) e)
  ]

remove_at-back :
    (i : ℕ) (clients : List Client) (k : ℕ) (back : Client)
    → length clients - 1 ≡ k
    → get_elem? clients k ≡ some back
    → remove_at i clients ≡ take k (set clients i back)
unfolding remove_at
remove_at-back i clients k back e is =
    rw (remove_at, ap (get_elem? clients) e ∙ is) (ap (λ n. take n (set clients i back)) e)

remove_at-last : (xs : List Client) (c : Client) → remove_at (length xs) (xs ++ (c ∷ [])) ≡ xs
remove_at-last xs c =
    remove_at-back (length xs) (xs ++ (c ∷ [])) (length xs) c
      (omega (arith, length-append xs (c ∷ []))) (get_elem?-middle xs [] c)
    ∙ ap (take (length xs)) (set-middle xs [] c c)
    ∙ take-front xs (c ∷ [])

remove_at-middle :
    (xs ys : List Client) (c b : Client)
    → remove_at (length xs) (xs ++ (c ∷ (ys ++ (b ∷ [])))) ≡ xs ++ (b ∷ ys)
remove_at-middle xs ys c b =
    let front = xs ++ (c ∷ ys) in
    let whole : xs ++ (c ∷ (ys ++ (b ∷ []))) ≡ front ++ (b ∷ []) =
      sym (append_assoc xs (c ∷ ys) (b ∷ [])) in
    let same_length : length front ≡ length (xs ++ (b ∷ ys)) =
      omega (arith, length-append xs (c ∷ ys), length-append xs (b ∷ ys)) in
    remove_at-back (length xs) (xs ++ (c ∷ (ys ++ (b ∷ [])))) (length front) b
      (omega (arith, ap length whole, length-append front (b ∷ [])))
      (ap (λ v. get_elem? v (length front)) whole ∙ get_elem?-middle front [] b)
    ∙ ap (take (length front)) (set-middle xs (ys ++ (b ∷ [])) c b)
    ∙ ap (λ v. take (length front) v) (sym (append_assoc xs (b ∷ ys) (b ∷ [])))
    ∙ ap (λ n. take n ((xs ++ (b ∷ ys)) ++ (b ∷ []))) same_length
    ∙ take-front (xs ++ (b ∷ ys)) (b ∷ [])

-- Removing a client keeps those before it, and those behind it in some order.
remove_at-Perm :
    (xs tail : List Client) (c : Client)
    → (rest : List Client) × (remove_at (length xs) (xs ++ (c ∷ tail)) ≡ xs ++ rest)
      × Perm rest tail
remove_at-Perm xs tail c = elim (last-cases tail) [
  | inl e ↦ rw e ([], remove_at-last xs c ∙ sym (append-nil xs), Perm.refl [])
  | inr (ys, b, e) ↦
      rw e (b ∷ ys, remove_at-middle xs ys c b, Perm.symm (perm_append_singleton b ys))
]

module _ (pb : Protobuf) (net : Transport) (garbage : Bytes) where
  -- The clients that are left, in some order, and the world, are those of the reference.
  abbrev pub Agrees : List Client × World → List Client × World → Type 0
  Agrees result reference = Perm result.0 reference.0 × (result.1 ≡ reference.1)

  Agrees-if :
      (b : Bool) (x y x' y' : List Client × World)
      → Agrees x x'
      → Agrees y y'
      → Agrees (if b then x else y) (if b then x' else y')
  Agrees-if true x y x' y' h k = h
  Agrees-if false x y x' y' h k = k

  round_loop-step :
      (i : ℕ) (clients : List Client) (w : World) (c : Client)
      → get_elem? clients i ≡ some c
      → round_loop pb net garbage (suc i) clients w ≡ (
          if c.readable
          then if (handle pb net garbage c.fd w).0
            then round_loop pb net garbage i (remove_at i clients) (handle pb net garbage c.fd w).1
            else round_loop pb net garbage i clients (handle pb net garbage c.fd w).1
          else round_loop pb net garbage i clients w)
  unfolding round_loop
  round_loop-step i clients w c e = rw (round_loop, e) refl

  length-reverse : (cs : List Client) → length (reverse cs) ≡ length cs
  length-reverse [] = refl
  length-reverse (c ∷ cs) =
      ap length (reverse-cons c cs)
      ∙ omega (arith, length-append (reverse cs) (c ∷ []), length-reverse cs)

  round_loop-Agrees :
      (cs tail kept : List Client) (w : World)
      → Perm tail kept
      → Agrees
          (round_loop pb net garbage (length cs) (reverse cs ++ tail) w)
          (handle_each pb net garbage cs (kept, w))
  unfolding handle_each round_loop
  round_loop-Agrees [] tail kept w same = (same, refl)
  round_loop-Agrees (c ∷ cs) tail kept w same =
      let shape : reverse (c ∷ cs) ++ tail ≡ reverse cs ++ (c ∷ tail) =
        ap (λ v. v ++ tail) (reverse-cons c cs) ∙ append_assoc (reverse cs) (c ∷ []) tail in
      let at : get_elem? (reverse cs ++ (c ∷ tail)) (length cs) ≡ some c =
        subst (λ n. get_elem? (reverse cs ++ (c ∷ tail)) n ≡ some c) (length-reverse cs)
          (get_elem?-middle (reverse cs) tail c) in
      let (rest, removed, order) = remove_at-Perm (reverse cs) tail c in
      let gone =
        ap (λ n. remove_at n (reverse cs ++ (c ∷ tail))) (sym (length-reverse cs)) ∙ removed in
      let w1 = (handle pb net garbage c.fd w).1 in
      let leaves = round_loop-Agrees cs rest kept w1 (Perm.trans order same) in
      let keeps = round_loop-Agrees cs (c ∷ tail) (c ∷ kept) w1 (Perm.cons c same) in
      let skips = round_loop-Agrees cs (c ∷ tail) (c ∷ kept) w (Perm.cons c same) in
      subst (λ r. Agrees r (handle_each pb net garbage (c ∷ cs) (kept, w)))
        (sym (
          ap (λ v. round_loop pb net garbage (suc (length cs)) v w) shape
          ∙ round_loop-step (length cs) (reverse cs ++ (c ∷ tail)) w c at))
        (Agrees-if c.readable _ _ _ _
          (Agrees-if (handle pb net garbage c.fd w).0 _ _ _ _
            (subst
              (λ v.
                Agrees (round_loop pb net garbage (length cs) v w1)
                  (handle_each pb net garbage cs (kept, w1)))
              (sym gone) leaves)
            keeps)
          skips)

  -- A round handles each client that can be read once, from the last to the first, and keeps all clients,
  -- in some order, but those that were closed.
  pub round-Agrees :
      (clients : List Client) (w : World)
      → Agrees
          (round pb net garbage clients w)
          (handle_each pb net garbage (reverse clients) ([], w))
  unfolding round
  round-Agrees clients w =
      let back = reverse clients in
      let run = round_loop-Agrees back [] [] w (Perm.refl []) in
      let same_list : reverse back ++ [] ≡ clients =
        append-nil (reverse back) ∙ reverse-reverse clients in
      subst
        (λ v.
          Agrees (round_loop pb net garbage (length v) v w)
            (handle_each pb net garbage back ([], w)))
        same_list
        (subst
          (λ n.
            Agrees (round_loop pb net garbage n (reverse back ++ []) w)
              (handle_each pb net garbage back ([], w)))
          (sym (ap length (append-nil (reverse back)) ∙ length-reverse back)) run)
