-- ===== src/MemFs/Tree.antt =====
-- The invariant of the inode tree of task02-fileio/src/inode.c, and that attaching an inode keeps it.
use systems_programming_labs.Prelude.{
  ℕ, ◌+◌, ◌≤◌, ◌<◌, ◌≡◌, refl, ◌∙◌, Bool, true, false, Bool-cases, none, some, inl, inr, List, [],
  ◌∷◌, ◌++◌, ◌==◌, if◌then◌else◌, length, length-append, get_elem?, ℕ_discrete, arith,
}
use systems_programming_labs.MemFs.Bytes.{Bytes, bytes_eq, bytes_eq_refl, eq_of_bytes_eq}
use systems_programming_labs.MemFs.Inode.{max_children, is_dir, INode, Nodes, root, find_in, attach}
use systems_programming_labs.MemFs.Lookup.{
  Below, length-attach, get_elem?-attach, get_elem?-lt, find_in-attach, find_in-end,
}

-- Children come behind their parent, and exist.
abbrev pub Between : ℕ → ℕ → List ℕ → Type 0
Between i k [] = Unit {0}
Between i k (c ∷ cs) = (i < c) × (c < k) × Between i k cs

-- No name occurs twice.
abbrev pub Distinct : Nodes → List ℕ → Type 0
Distinct nodes [] = Unit {0}
Distinct nodes (c ∷ cs) =
    ((n : INode) → get_elem? nodes c ≡ some n → find_in nodes n.name cs ≡ none) × Distinct nodes cs

-- What holds of the inode at `i`.
pub record IsNode (nodes : Nodes) (i : ℕ) (n : INode) : Type 0 where
  pub between : Between i (length nodes) n.children
  pub distinct : Distinct nodes n.children
  pub few : length n.children ≤ max_children
  pub leaf : is_dir n.mode ≡ false → n.children ≡ []
  pub sized : n.size ≡ length n.content

abbrev pub dir_at : Nodes → ℕ → Bool
dir_at nodes i = elim (get_elem? nodes i) [ none ↦ false | some n ↦ is_dir n.mode ]

pub record IsTree (nodes : Nodes) : Type 0 where
  pub root_dir : dir_at nodes root ≡ true
  pub node : (i : ℕ) (n : INode) → get_elem? nodes i ≡ some n → IsNode nodes i n

pub Between-Below : (i k : ℕ) (cs : List ℕ) → Between i k cs → Below k cs
Between-Below i k [] b = tt
Between-Below i k (c ∷ cs) b = (b.1, Between-Below i k cs b.2)

pub IsTree-Below :
    {nodes : Nodes}
    → IsTree nodes
    → (i : ℕ) (n : INode) → get_elem? nodes i ≡ some n
    → Below (length nodes) n.children
IsTree-Below {nodes} t i n e = Between-Below i (length nodes) n.children (t.node i n e).between

Between-widen : (i k k' : ℕ) (cs : List ℕ) → k ≤ k' → Between i k cs → Between i k' cs
Between-widen i k k' [] le b = tt
Between-widen i k k' (c ∷ cs) le b = (b.0, omega arith, Between-widen i k k' cs le b.2)

Between-end : (i k : ℕ) (cs : List ℕ) → i < k → Between i k cs → Between i (k + 1) (cs ++ (k ∷ []))
Between-end i k [] lt b = (lt, omega arith, tt)
Between-end i k (c ∷ cs) lt b = (b.0, omega arith, Between-end i k cs lt b.2)

-- A name that is not found is no child's name.
other_name :
    (nodes : Nodes) (name : Bytes) (c : ℕ) (cs : List ℕ) (n : INode)
    → find_in nodes name (c ∷ cs) ≡ none
    → get_elem? nodes c ≡ some n
    → (bytes_eq name n.name ≡ false) × (find_in nodes name cs ≡ none)
unfolding find_in
other_name nodes name c cs n missing e = elim (Bool-cases (bytes_eq name n.name)) [
  | inl same ↦
      let equal = eq_of_bytes_eq name n.name same in ground (arith, bytes_eq_refl n.name, equal)
  | inr differ ↦ (differ, ground arith)
]

rest_missing :
    (nodes : Nodes) (name : Bytes) (c : ℕ) (cs : List ℕ)
    → find_in nodes name (c ∷ cs) ≡ none
    → find_in nodes name cs ≡ none
unfolding find_in
rest_missing nodes name c cs h = ground arith

module _ (nodes : Nodes) (parent : ℕ) (p new : INode) (at : get_elem? nodes parent ≡ some p)
    (tree : IsTree nodes) (empty : (new.children ≡ []) × (new.content ≡ []) × (new.size ≡ 0)) where
  abbrev k : ℕ
  k = length nodes

  abbrev after : Nodes
  after = attach nodes parent p new

  -- An old inode keeps its name.
  record Before (c : ℕ) (n : INode) : Type 0 where
    old : INode
    held : get_elem? nodes c ≡ some old
    name : old.name ≡ n.name

  before : (c : ℕ) (n : INode) → c < k → get_elem? after c ≡ some n → Before c n
  before c n lt e = elim (ℕ_discrete c parent) [
    | yes same ↦ record {
      old = p;
      held = ground arith;
      name = ground (arith, get_elem?-attach nodes parent p new at c);
    }
    | no other ↦ record {
      old = n;
      held = ground (arith, get_elem?-attach nodes parent p new at c);
      name = refl;
    }
  ]

  -- The lists of children that do not grow.
  Distinct-attach : (cs : List ℕ) → Below k cs → Distinct nodes cs → Distinct after cs
  Distinct-attach [] b d = tt
  Distinct-attach (c ∷ cs) b d = (
    λ n e.
        let o = before c n b.0 e in
        find_in-attach nodes parent p new at n.name cs b.1 ∙ (rw o.name at (d.0 o.old o.held)),
    Distinct-attach cs b.1 d.1,
  )

  -- The list that gets the new inode, whose name is not on it.
  Distinct-end :
      (cs : List ℕ)
      → Below k cs
      → Distinct nodes cs
      → find_in nodes new.name cs ≡ none
      → Distinct after (cs ++ (k ∷ []))
  unfolding find_in
  Distinct-end [] b d free = (λ n e. refl, tt)
  Distinct-end (c ∷ cs) b d free = (
    λ n e.
        let o = before c n b.0 e in
        let other = other_name nodes new.name c cs o.old free o.held in
        find_in-end nodes parent p new at n.name cs b.1
        ∙ ground (arith, o.name, other, d.0 o.old o.held),
    Distinct-end cs b.1 d.1 (rest_missing nodes new.name c cs free),
  )

  old-IsNode : (i : ℕ) (n : INode) → get_elem? nodes i ≡ some n → IsNode after i n
  old-IsNode i n e =
      let o = tree.node i n e in
      let below = Between-Below i k n.children o.between in
      record {
        between =
            rw (length-attach nodes parent p new at)
              (Between-widen i k (k + 1) n.children (omega arith) o.between);
        distinct = Distinct-attach n.children below o.distinct;
        few = o.few;
        leaf = o.leaf;
        sized = o.sized;
      }

  parent-IsNode :
      is_dir p.mode ≡ true
      → length p.children < max_children
      → find_in nodes new.name p.children ≡ none
      → IsNode after parent (record p { children = p.children ++ (k ∷ []) })
  parent-IsNode dir room free =
      let o = tree.node parent p at in
      let below = Between-Below parent k p.children o.between in
      record {
        between =
            rw (length-attach nodes parent p new at)
              (Between-end parent k p.children (get_elem?-lt nodes parent at) o.between);
        distinct = Distinct-end p.children below o.distinct free;
        few = omega (arith, length-append p.children (k ∷ []));
        leaf = λ not_dir. ground arith;
        sized = o.sized;
      }

  new-IsNode : IsNode after k new
  new-IsNode = record {
    between = rw empty.0 tt;
    distinct = rw empty.0 tt;
    few = rw empty.0 (omega arith);
    leaf = λ _. empty.0;
    sized = rw (empty.1, empty.2);
  }

  -- A directory with room that has no child of the name takes a new inode of it.
  pub attach-IsTree :
      is_dir p.mode ≡ true
      → length p.children < max_children
      → find_in nodes new.name p.children ≡ none
      → IsTree after
  attach-IsTree dir room free = record { root_dir = still; node = node }
    where
      shape :
          (j : ℕ)
          → get_elem? after j ≡ (
              if j == k
              then some new
              else if j == parent
              then some (record p { children = p.children ++ (k ∷ []) })
              else get_elem? nodes j)
      shape j = get_elem?-attach nodes parent p new at j

      still : dir_at after root ≡ true
      still = ground (arith, shape root, tree.root_dir, get_elem?-lt nodes parent at)

      node : (i : ℕ) (n : INode) → get_elem? after i ≡ some n → IsNode after i n
      node i n e = elim (ℕ_discrete i k) [
        | yes last ↦ let q : n ≡ new = ground (arith, shape i) in rw (q, last) new-IsNode
        | no earlier ↦ elim (ℕ_discrete i parent) [
          | yes above ↦
              let q : n ≡ record p { children = p.children ++ (k ∷ []) } =
                ground (arith, shape i) in
              rw (q, above) (parent-IsNode dir room free)
          | no other ↦ old-IsNode i n (ground (arith, shape i))
        ]
      ]
