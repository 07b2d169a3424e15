-- ===== src/MemFs/Inode.antt =====
-- task02-fileio/src/inode.h and inode.c. An inode is never freed or moved, so a pointer to one is its
-- position in the list of all inodes, in the order of their allocation; the root is at 0. The array
-- `children` with its `child_count` is a list.
use systems_programming_labs.Prelude.{
  ℕ, zero, suc, ◌+◌, ◌*◌, ◌/◌, ◌%◌, Bool, ◌||◌, not, Option, none, some, List, [], ◌∷◌, ◌++◌, ◌==◌,
  leb, if◌then◌else◌, length, get_elem?, set, take,
}
use Prim.Native.Nat.{bit_or}
use systems_programming_labs.MemFs.Bytes.{Bytes, bytes_eq, tokens, split_last}

abbrev pub max_name_len : ℕ
max_name_len = 255

abbrev pub max_children : ℕ
max_children = 1024

-- Bytes that `snprintf` keeps in `char buf[1024]`.
abbrev pub path_room : ℕ
path_room = 1023

-- A mode is the file type, four bits from bit 12 on, over twelve bits of permissions.
abbrev pub file_type : ℕ → ℕ
file_type mode = mode / 4096 % 16

abbrev pub type_dir : ℕ
type_dir = 4

abbrev pub type_reg : ℕ
type_reg = 8

abbrev pub type_lnk : ℕ
type_lnk = 10

abbrev pub is_dir : ℕ → Bool
is_dir mode = file_type mode == type_dir

abbrev pub is_reg : ℕ → Bool
is_reg mode = file_type mode == type_reg

abbrev pub is_lnk : ℕ → Bool
is_lnk mode = file_type mode == type_lnk

-- `S_IFxxx | mode`: the other bits of `mode` stay.
abbrev pub with_type : ℕ → ℕ → ℕ
with_type type mode = mode / 65536 * 65536 + bit_or type (file_type mode) * 4096 + mode % 4096

pub record INode : Type 0 where
  pub parent : Option ℕ
  pub children : List ℕ
  pub name : Bytes
  pub mode : ℕ
  pub nlink : ℕ
  pub content : Bytes
  pub size : ℕ
  pub link_target : Option Bytes

abbrev pub Nodes : Type 0
Nodes = List INode

abbrev pub root : ℕ
root = 0

abbrev pub root_inode : INode
root_inode = record {
  parent = none;
  children = [];
  name = [];
  mode = 0o40755;
  nlink = 2;
  content = [];
  size = 0;
  link_target = none;
}

-- The loop of `find_child`.
unfoldable pub find_in : Nodes → Bytes → List ℕ → Option ℕ
find_in nodes name [] = none
find_in nodes name (c ∷ cs) =
    let rest = find_in nodes name cs in
    elim (get_elem? nodes c) [
      | none ↦ rest
      | some child ↦ if bytes_eq child.name name then some c else rest
    ]

unfoldable pub find_child : Nodes → ℕ → Bytes → Option ℕ
find_child nodes dir name = elim (get_elem? nodes dir) [
  | none ↦ none
  | some d ↦ if is_dir d.mode then find_in nodes name d.children else none
]

-- The loop of `find_by_path` over the tokens.
unfoldable pub walk : Nodes → ℕ → List Bytes → Option ℕ
walk nodes cur [] = some cur
walk nodes cur (token ∷ rest) = elim (find_child nodes cur token) [
  | none ↦ none
  | some child ↦ walk nodes child rest
]

unfoldable pub find_by_path : Nodes → Bytes → Option ℕ
find_by_path nodes path = walk nodes root (tokens (take path_room path))

-- The inode of the part in front of the last slash: the root if that part is empty.
unfoldable pub parent_of : Nodes → Bytes → Option ℕ
parent_of nodes [] = some root
parent_of nodes (b ∷ bs) = find_by_path nodes (b ∷ bs)

unfoldable pub parent_and_base : Nodes → Bytes → Bytes → Option (ℕ × Bytes)
parent_and_base nodes before [] = none
parent_and_base nodes before (a ∷ after) = elim (parent_of nodes before) [
  | none ↦ none
  | some parent ↦ some (parent, take max_name_len (a ∷ after))
]

-- The parent and the base name; `none` for NULL.
unfoldable pub parse_parent : Nodes → Bytes → Option (ℕ × Bytes)
parse_parent nodes path = elim (split_last (take path_room path)) [
  | none ↦ none
  | some (before, after) ↦ parent_and_base nodes before after
]

unfoldable pub new_inode : ℕ → Bytes → ℕ → INode
new_inode parent name mode = record {
  parent = some parent;
  children = [];
  name = take max_name_len name;
  mode = mode;
  nlink = if is_dir mode then 2 else 1;
  content = [];
  size = 0;
  link_target = none;
}

-- The new inode goes to the end of the list of inodes, and of the parent's children.
unfoldable pub attach : Nodes → ℕ → INode → INode → Nodes
attach nodes parent p inode =
    set nodes parent (record p { children = p.children ++ (length nodes ∷ []) }) ++ (inode ∷ [])

-- `memory` says whether `calloc` succeeds.
unfoldable pub create_inode : Bool → Nodes → ℕ → Bytes → ℕ → Option (ℕ × Nodes)
create_inode memory nodes parent name mode = elim (get_elem? nodes parent) [
  | none ↦ none
  | some p ↦
      if not (is_dir p.mode) || (leb max_children (length p.children) || not memory)
      then none
      else some (length nodes, attach nodes parent p (new_inode parent name mode))
]

-- The counts of files and of their bytes. The rounds bound the depth.
pub record Totals : Type 0 where
  pub files : ℕ
  pub blocks : ℕ

abbrev pub count_self : INode → Totals → Totals
count_self n t =
    if is_reg n.mode then record { files = t.files + 1; blocks = t.blocks + n.size } else t

-- The loop over the children, with the call for a child given.
unfoldable pub each_child : (ℕ → Totals → Totals) → List ℕ → Totals → Totals
each_child visit [] t = t
each_child visit (c ∷ cs) t = each_child visit cs (visit c t)

unfoldable pub collect_statfs : ℕ → Nodes → ℕ → Totals → Totals
collect_statfs zero nodes inode t = t
collect_statfs (suc rounds) nodes inode t = elim (get_elem? nodes inode) [
  | none ↦ t
  | some n ↦
      if is_dir n.mode
      then each_child (collect_statfs rounds nodes) n.children (count_self n t)
      else count_self n t
]
