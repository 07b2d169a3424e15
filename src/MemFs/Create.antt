-- ===== src/MemFs/Create.antt =====
-- `my_fuse_mkdir`, `my_fuse_mknod` and `my_fuse_symlink` of task02-fileio/src/memfs.c: what a successful
-- call did.
use systems_programming_labs.Prelude.{
  ℕ, ◌<◌, ◌≡◌, ◌≢◌, true, Option-cases, none, some, inl, inr, [], ◌∷◌, length, get_elem?, take,
  arith,
}
use systems_programming_labs.MemFs.Bytes.{Bytes, split_last}
use systems_programming_labs.MemFs.Inode.{
  max_name_len, max_children, path_room, is_dir, INode, Nodes, find_child, parent_of,
  parent_and_base, parse_parent, new_inode, attach, create_inode,
}
use systems_programming_labs.MemFs.Calls.{ok, Memory, add_entry}

pub record Parsed (nodes : Nodes) (path : Bytes) (parent : ℕ) (basename : Bytes) : Type 0 where
  pub before : Bytes
  pub last : Bytes
  pub split : split_last (take path_room path) ≡ some (before, last)
  pub some_byte : last ≢ []
  pub found : parent_of nodes before ≡ some parent
  pub base : basename ≡ take max_name_len last

Parsed-base :
    (nodes : Nodes) (path before last : Bytes) (parent : ℕ) (basename : Bytes)
    → split_last (take path_room path) ≡ some (before, last)
    → parent_and_base nodes before last ≡ some (parent, basename)
    → Parsed nodes path parent basename
unfolding parent_and_base
Parsed-base nodes path before [] parent basename e h = cc
Parsed-base nodes path before (a ∷ rest) parent basename e h =
    elim (Option-cases (parent_of nodes before)) [
      | inl missing ↦ ground arith
      | inr (q, found) ↦ record {
        before = before;
        last = a ∷ rest;
        split = e;
        some_byte = cc;
        found = ground arith;
        base = ground arith;
      }
    ]

pub parse_parent-Parsed :
    (nodes : Nodes) (path : Bytes) (parent : ℕ) (basename : Bytes)
    → parse_parent nodes path ≡ some (parent, basename)
    → Parsed nodes path parent basename
unfolding parse_parent
parse_parent-Parsed nodes path parent basename h =
    elim (Option-cases (split_last (take path_room path))) [
      | inl none_found ↦ ground arith
      | inr ((before, last), is) ↦
          Parsed-base nodes path before last parent basename is (ground arith)
    ]

-- What a successful `add_entry` found and did.
pub record Added (nodes : Nodes) (path : Bytes) (mode i : ℕ) (nodes' : Nodes) : Type 0 where
  pub parent : ℕ
  pub basename : Bytes
  pub p : INode
  pub parse : parse_parent nodes path ≡ some (parent, basename)
  pub parsed : Parsed nodes path parent basename
  pub at : get_elem? nodes parent ≡ some p
  pub dir : is_dir p.mode ≡ true
  pub free : find_child nodes parent basename ≡ none
  pub room : length p.children < max_children
  pub position : i ≡ length nodes
  pub result : nodes' ≡ attach nodes parent p (new_inode parent basename mode)

pub add_entry-Added :
    (mem : Memory) (nodes : Nodes) (path : Bytes) (mode i : ℕ) (nodes' : Nodes)
    → add_entry mem nodes path mode ≡ ok (i, nodes')
    → Added nodes path mode i nodes'
unfolding add_entry create_inode
add_entry-Added mem nodes path mode i nodes' h = elim (Option-cases (parse_parent nodes path)) [
  | inl missing ↦ ground arith
  | inr ((parent, basename), parsed) ↦ elim (Option-cases (get_elem? nodes parent)) [
    | inl dangling ↦ ground arith
    | inr (p, at) ↦ record {
      parent = parent;
      basename = basename;
      p = p;
      parse = parsed;
      parsed = parse_parent-Parsed nodes path parent basename parsed;
      at = at;
      dir = ground arith;
      free = ground arith;
      room = ground arith;
      position = ground arith;
      result = ground arith;
    }
  ]
]
