-- ===== src/MemFs/Lookup.antt =====
-- A lookup after an inode is attached, in the tree of task02-fileio/src/inode.c.
use systems_programming_labs.Prelude.{
  ℕ, zero, suc, ◌+◌, ◌<◌, ◌≡◌, refl, true, Option-cases, none, some, inl, inr, List, [], ◌∷◌, ◌++◌,
  ◌==◌, if◌then◌else◌, length, get_elem?, set, length-set, length-append, arith,
}
use systems_programming_labs.MemFs.Bytes.{Bytes, bytes_eq}
use systems_programming_labs.MemFs.Inode.{is_dir, INode, Nodes, find_in, find_child, walk, attach}

-- Every child of the list is an inode that exists.
abbrev pub Below : ℕ → List ℕ → Type 0
Below k [] = Unit {0}
Below k (c ∷ cs) = (c < k) × Below k cs

get_elem?-end :
    (nodes : Nodes) (new : INode) (j : ℕ)
    → get_elem? (nodes ++ (new ∷ [])) j
      ≡ (if j == length nodes then some new else get_elem? nodes j)
get_elem?-end [] new zero = refl
get_elem?-end [] new (suc j) = ground arith
get_elem?-end (n ∷ nodes) new zero = ground arith
get_elem?-end (n ∷ nodes) new (suc j) = ground (arith, get_elem?-end nodes new j)

pub get_elem?-set :
    (nodes : Nodes) (i : ℕ) (n : INode) (j : ℕ)
    → i < length nodes
    → get_elem? (set nodes i n) j ≡ (if j == i then some n else get_elem? nodes j)
get_elem?-set [] i n j h = absurd (omega arith)
get_elem?-set (m ∷ nodes) zero n zero h = refl
get_elem?-set (m ∷ nodes) zero n (suc j) h = ground arith
get_elem?-set (m ∷ nodes) (suc i) n zero h = ground arith
get_elem?-set (m ∷ nodes) (suc i) n (suc j) h =
    ground (arith, get_elem?-set nodes i n j (omega arith))

pub get_elem?-lt :
    (nodes : Nodes) (i : ℕ) {n : INode} → get_elem? nodes i ≡ some n → i < length nodes
get_elem?-lt [] i h = cc
get_elem?-lt (m ∷ nodes) zero h = omega arith
get_elem?-lt (m ∷ nodes) (suc i) h = omega (arith, get_elem?-lt nodes i h)

module _ (nodes : Nodes) (parent : ℕ) (p new : INode) (at : get_elem? nodes parent ≡ some p) where
  abbrev k : ℕ
  k = length nodes

  abbrev p' : INode
  p' = record p { children = p.children ++ (k ∷ []) }

  abbrev after : Nodes
  after = attach nodes parent p new

  pub length-attach : length after ≡ k + 1
  unfolding attach
  length-attach =
      omega (arith, length-append (set nodes parent p') (new ∷ []), length-set nodes parent p')

  pub get_elem?-attach :
      (j : ℕ)
      → get_elem? after j
        ≡ (if j == k then some new else if j == parent then some p' else get_elem? nodes j)
  unfolding attach
  get_elem?-attach j =
      let within = get_elem?-lt nodes parent at in
      ground (
        arith,
        get_elem?-end (set nodes parent p') new j,
        length-set nodes parent p',
        get_elem?-set nodes parent p' j within,
      )

  pub find_in-attach :
      (name : Bytes) (cs : List ℕ) → Below k cs → find_in after name cs ≡ find_in nodes name cs
  unfolding find_in
  find_in-attach name [] b = refl
  find_in-attach name (c ∷ cs) b = ground (arith, get_elem?-attach c, find_in-attach name cs b.1)

  pub find_in-end :
      (name : Bytes) (cs : List ℕ)
      → Below k cs
      → find_in after name (cs ++ (k ∷ [])) ≡ elim (find_in nodes name cs) [
        | some c ↦ some c
        | none ↦ if bytes_eq new.name name then some k else none
      ]
  unfolding find_in
  find_in-end name [] b = ground (arith, get_elem?-attach k)
  find_in-end name (c ∷ cs) b = ground (arith, get_elem?-attach c, find_in-end name cs b.1)

  -- What a directory has found, it finds afterwards too.
  find_child-keeps :
      (d : ℕ) (name : Bytes) {c : ℕ}
      → ((n : INode) → get_elem? nodes d ≡ some n → Below k n.children)
      → find_child nodes d name ≡ some c
      → find_child after d name ≡ some c
  unfolding find_child
  find_child-keeps d name below found = elim (Option-cases (get_elem? nodes d)) [
    | inl missing ↦ ground arith
    | inr (n, is) ↦ ground (
      arith,
      get_elem?-lt nodes d is,
      get_elem?-attach d,
      find_in-attach name n.children (below n is),
      find_in-end name n.children (below n is),
    )
  ]

  -- The parent finds the new inode under its name, if it had no child of that name.
  pub find_child-new :
      (name : Bytes)
      → Below k p.children
      → is_dir p.mode ≡ true
      → find_child nodes parent name ≡ none
      → bytes_eq new.name name ≡ true
      → find_child after parent name ≡ some k
  unfolding find_child
  find_child-new name below dir free same = ground (
    arith,
    get_elem?-lt nodes parent at,
    get_elem?-attach parent,
    find_in-end name p.children below,
  )

  -- A path that leads to an inode leads to the same inode afterwards.
  pub walk-keeps :
      (d : ℕ) (path : List Bytes) {c : ℕ}
      → ((i : ℕ) (n : INode) → get_elem? nodes i ≡ some n → Below k n.children)
      → walk nodes d path ≡ some c
      → walk after d path ≡ some c
  unfolding walk
  walk-keeps d [] below found = found
  walk-keeps d (name ∷ path) below found = elim (Option-cases (find_child nodes d name)) [
    | inl missing ↦ ground arith
    | inr (e, is) ↦
        rw (find_child-keeps d name (below d) is, walk)
          (walk-keeps e path below (rw (is, walk) at found))
  ]
