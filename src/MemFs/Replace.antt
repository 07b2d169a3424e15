-- ===== src/MemFs/Replace.antt =====
-- The change of a file's content or of a link's target in task02-fileio/src/memfs.c: paths name what they
-- named, and the tree stays well formed.
use systems_programming_labs.Prelude.{
  ℕ, ◌≡◌, refl, sym, ◌∙◌, ap, true, Option-cases, some, inl, inr, List, [], ◌∷◌, ◌==◌,
  if◌then◌else◌, length, get_elem?, set, take, length-set, ℕ_discrete, arith,
}
use systems_programming_labs.MemFs.Bytes.{Bytes, tokens}
use systems_programming_labs.MemFs.Inode.{
  path_room, is_dir, INode, Nodes, root, find_in, find_child, walk, find_by_path,
}
use systems_programming_labs.MemFs.Lookup.{get_elem?-lt, get_elem?-set}
use systems_programming_labs.MemFs.Tree.{Distinct, IsNode, IsTree, dir_at}

-- What the change leaves alone.
pub record SamePlace (n n' : INode) : Type 0 where
  pub children : n'.children ≡ n.children
  pub name : n'.name ≡ n.name
  pub mode : n'.mode ≡ n.mode

module _ (nodes : Nodes) (i : ℕ) (n n' : INode) (at : get_elem? nodes i ≡ some n)
    (same : SamePlace n n') where
  abbrev after : Nodes
  after = set nodes i n'

  shape : (j : ℕ) → get_elem? after j ≡ (if j == i then some n' else get_elem? nodes j)
  shape j = get_elem?-set nodes i n' j (get_elem?-lt nodes i at)

  find_in-set : (name : Bytes) (cs : List ℕ) → find_in after name cs ≡ find_in nodes name cs
  unfolding find_in
  find_in-set name [] = refl
  find_in-set name (c ∷ cs) = elim (ℕ_discrete c i) [
    | yes is ↦ ground (arith, shape c, find_in-set name cs, at, is, same.name)
    | no other ↦ ground (arith, shape c, find_in-set name cs, other)
  ]

  find_child-set : (d : ℕ) (name : Bytes) → find_child after d name ≡ find_child nodes d name
  unfolding find_child
  find_child-set d name = elim (ℕ_discrete d i) [
    | yes is ↦
        ground (arith, shape d, find_in-set name n.children, at, is, same.mode, same.children)
    | no other ↦ elim (Option-cases (get_elem? nodes d)) [
      | inl missing ↦ ground (arith, shape d, other)
      | inr (m, held) ↦ ground (arith, shape d, find_in-set name m.children, other)
    ]
  ]

  walk-set : (d : ℕ) (path : List Bytes) → walk after d path ≡ walk nodes d path
  unfolding walk
  walk-set d [] = refl
  walk-set d (name ∷ path) = elim (Option-cases (find_child nodes d name)) [
    | inl missing ↦ rw (find_child-set d name, missing, walk) refl
    | inr (e, is) ↦ rw (find_child-set d name, is, walk) (walk-set e path)
  ]

  pub find_by_path-set : (path : Bytes) → find_by_path after path ≡ find_by_path nodes path
  unfolding find_by_path
  find_by_path-set path = walk-set root (tokens (take path_room path))

  -- An inode afterwards is the changed one or an old one.
  record Was (j : ℕ) (m : INode) : Type 0 where
    old : INode
    held : get_elem? nodes j ≡ some old
    place : SamePlace old m

  was : (j : ℕ) (m : INode) → get_elem? after j ≡ some m → Was j m
  was j m e = elim (ℕ_discrete j i) [
    | yes is ↦
        let q : m ≡ n' = ground (arith, shape j) in
        record { old = n; held = ground arith; place = rw q same }
    | no other ↦ record {
      old = m;
      held = ground (arith, shape j);
      place = record { children = refl; name = refl; mode = refl };
    }
  ]

  Distinct-set : (cs : List ℕ) → Distinct nodes cs → Distinct after cs
  Distinct-set [] d = tt
  Distinct-set (c ∷ cs) d = (
    λ m e.
        let w = was c m e in
        find_in-set m.name cs ∙ (ap (λ q. find_in nodes q cs) w.place.name ∙ d.0 w.old w.held),
    Distinct-set cs d.1,
  )

  pub set-IsTree : IsTree nodes → n'.size ≡ length n'.content → IsTree after
  set-IsTree tree sized = record { root_dir = still; node = node }
    where
      still : dir_at after root ≡ true
      still = elim (ℕ_discrete root i) [
        | yes is ↦ ground (arith, shape root, tree.root_dir, at, same.mode)
        | no other ↦ ground (arith, shape root, tree.root_dir)
      ]

      node : (j : ℕ) (m : INode) → get_elem? after j ≡ some m → IsNode after j m
      node j m e =
          let w = was j m e in
          let o = tree.node j w.old w.held in
          record {
            between = rw (length-set nodes i n', w.place.children) o.between;
            distinct = rw w.place.children (Distinct-set w.old.children o.distinct);
            few = rw w.place.children o.few;
            leaf = λ not_dir. w.place.children ∙ o.leaf (ap is_dir (sym w.place.mode) ∙ not_dir);
            sized = elim (ℕ_discrete j i) [
              | yes is ↦ let q : m ≡ n' = ground (arith, shape j) in rw q sized
              | no other ↦
                  let q : get_elem? nodes j ≡ some m = ground (arith, shape j) in
                  (tree.node j m q).sized
            ];
          }
