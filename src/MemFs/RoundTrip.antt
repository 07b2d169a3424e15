-- ===== src/MemFs/RoundTrip.antt =====
-- After a successful `my_fuse_mkdir` or `my_fuse_mknod` of task02-fileio/src/memfs.c the path names the new
-- inode, every path that named an inode names the same one, and the tree is well formed.
use systems_programming_labs.Prelude.{
  ℕ, ◌≤◌, ◌≡◌, refl, sym, ◌∙◌, ap, ap₂, length-take, true, Option-cases, none, some, inl, inr, List,
  [], ◌∷◌, ◌++◌, length, take, arith,
}
use systems_programming_labs.MemFs.Bytes.{
  Bytes, bytes_eq, bytes_eq_refl, split_last, tokens, tokens_from, flush,
}
use systems_programming_labs.MemFs.Inode.{
  max_name_len, path_room, INode, Nodes, root, find_in, find_child, walk, find_by_path, parent_of,
  new_inode, attach,
}
use systems_programming_labs.MemFs.Lookup.{find_child-new, walk-keeps}
use systems_programming_labs.MemFs.Paths.{tokens-split, take-before, take_whole}
use systems_programming_labs.MemFs.Tree.{IsTree, IsTree-Below, attach-IsTree}
use systems_programming_labs.MemFs.Create.{Added}

walk-end :
    (nodes : Nodes) (d : ℕ) (path : List Bytes) (name : Bytes) (e c : ℕ)
    → walk nodes d path ≡ some e
    → find_child nodes e name ≡ some c
    → walk nodes d (path ++ (name ∷ [])) ≡ some c
unfolding walk
walk-end nodes d [] name e c there found = ground arith
walk-end nodes d (w ∷ path) name e c there found = elim (Option-cases (find_child nodes d w)) [
  | inl missing ↦ ground arith
  | inr (f, is) ↦ rw (is, walk) (walk-end nodes f path name e c (rw (is, walk) at there) found)
]

-- The last component of the path is a name of at most `max_name_len` bytes.
abbrev pub NameFits : Bytes → Type 0
NameFits path =
    (before last : Bytes)
    → split_last (take path_room path) ≡ some (before, last)
    → length last ≤ max_name_len

walk_parent :
    (nodes : Nodes) (before : Bytes) (parent : ℕ)
    → take path_room before ≡ before
    → parent_of nodes before ≡ some parent
    → walk nodes root (tokens before) ≡ some parent
unfolding parent_of find_by_path tokens_from flush walk
walk_parent nodes [] parent short found = found
walk_parent nodes (b ∷ bs) parent short found =
    ap (λ q. walk nodes root (tokens q)) (sym short) ∙ found

short_name : (last : Bytes) → length (take max_name_len last) ≤ max_name_len
short_name last = omega (arith, length-take max_name_len last)

module _ (nodes : Nodes) (path : Bytes) (mode i : ℕ) (nodes' : Nodes) (tree : IsTree nodes)
    (a : Added nodes path mode i nodes') where
  open a use {parent, basename, p, parsed, at}

  abbrev made : INode
  made = new_inode parent basename mode

  pub name_kept : take max_name_len basename ≡ basename
  name_kept = take_whole max_name_len basename (rw parsed.base (short_name parsed.last))

  -- The new name is the base name.
  pub Added-name : bytes_eq made.name basename ≡ true
  unfolding new_inode
  Added-name = rw name_kept (bytes_eq_refl basename)

  pub Added-found : NameFits path → find_by_path nodes' path ≡ some i
  unfolding find_by_path
  Added-found fits =
      ap₂ (λ m q. walk m root q) a.result split
      ∙ (walk-end after root (tokens parsed.before) basename parent (length nodes)
            (walk-keeps nodes parent p made at root (tokens parsed.before) (IsTree-Below tree)
              (walk_parent nodes parsed.before parent short parsed.found))
            (find_child-new nodes parent p made at basename (IsTree-Below tree parent p at) a.dir
              a.free Added-name)
          ∙ ap some (sym a.position))
    where
      after : Nodes
      after = attach nodes parent p made

      short : take path_room parsed.before ≡ parsed.before
      short = take-before path_room path parsed.before parsed.last parsed.split

      whole : parsed.last ≡ basename
      whole =
          sym (take_whole max_name_len parsed.last (fits parsed.before parsed.last parsed.split))
          ∙ sym parsed.base

      split : tokens (take path_room path) ≡ tokens parsed.before ++ (basename ∷ [])
      split =
          tokens-split (take path_room path) parsed.before parsed.last parsed.split parsed.some_byte
          ∙ ap (λ q. tokens parsed.before ++ (q ∷ [])) whole

  pub Added-keeps :
      (other : Bytes) (j : ℕ)
      → find_by_path nodes other ≡ some j
      → find_by_path nodes' other ≡ some j
  unfolding find_by_path
  Added-keeps other j found = rw a.result (
      walk-keeps nodes parent p made at root (tokens (take path_room other)) (IsTree-Below tree)
        found)

  -- The parent has no child of the new name.
  free_name : find_in nodes made.name p.children ≡ none
  unfolding find_child new_inode
  free_name = rw name_kept (ground (arith, a.free, a.at, a.dir))

  pub Added-IsTree : IsTree nodes'
  unfolding new_inode
  Added-IsTree =
      rw a.result
        (attach-IsTree nodes parent p made at tree (refl, refl, refl) a.dir a.room free_name)
