-- ===== src/MemFs/Listing.antt =====
-- `my_fuse_readdir` of task02-fileio/src/memfs.c after an entry is made.
use systems_programming_labs.Prelude.{
  ℕ, ◌≡◌, sym, ◌∙◌, ap, true, Option-cases, some, inl, inr, List, [], ◌∷◌, ◌++◌, length, get_elem?,
  arith,
}
use systems_programming_labs.MemFs.Bytes.{Bytes}
use systems_programming_labs.MemFs.Inode.{
  is_dir, type_dir, with_type, INode, Nodes, find_by_path, parse_parent, new_inode, attach,
}
use systems_programming_labs.MemFs.Calls.{
  ok, Memory, MemFs, append_log, resolve, child_names, add_entry, my_fuse_readdir, my_fuse_mkdir,
}
use systems_programming_labs.MemFs.Lookup.{Below, get_elem?-attach, get_elem?-lt}
use systems_programming_labs.MemFs.Tree.{IsTree, IsTree-Below}
use systems_programming_labs.MemFs.Create.{Added, add_entry-Added}
use systems_programming_labs.MemFs.RoundTrip.{Added-keeps, name_kept}
use systems_programming_labs.MemFs.Steps.{Reply-cases}

module _ (nodes : Nodes) (parent : ℕ) (p new : INode) (at : get_elem? nodes parent ≡ some p) where
  child_names-attach :
      (cs : List ℕ)
      → Below (length nodes) cs
      → child_names (attach nodes parent p new) (cs ++ (length nodes ∷ []))
        ≡ child_names nodes cs ++ (new.name ∷ [])
  unfolding child_names
  child_names-attach [] b = ground (arith, get_elem?-attach nodes parent p new at (length nodes))
  child_names-attach (c ∷ cs) b = elim (Option-cases (get_elem? nodes c)) [
    | inl missing ↦
        ground (arith, get_elem?-attach nodes parent p new at c, child_names-attach cs b.1, at)
    | inr (n, is) ↦
        ground (arith, get_elem?-attach nodes parent p new at c, child_names-attach cs b.1, at)
  ]

readdir-eq :
    (nodes : Nodes) (path : Bytes) (i : ℕ) (dir : INode)
    → find_by_path nodes path ≡ some i
    → get_elem? nodes i ≡ some dir
    → is_dir dir.mode ≡ true
    → my_fuse_readdir nodes path
      ≡ ok ((b'.' ∷ []) ∷ (b'.' ∷ b'.' ∷ []) ∷ child_names nodes dir.children)
unfolding my_fuse_readdir resolve
readdir-eq nodes path i dir named held is = ground (arith, named, held, is)

abbrev names_of : Nodes → List ℕ → List Bytes
names_of nodes cs = (b'.' ∷ []) ∷ (b'.' ∷ b'.' ∷ []) ∷ child_names nodes cs

Added-readdir :
    (nodes : Nodes) (path : Bytes) (mode i : ℕ) (nodes' : Nodes) (tree : IsTree nodes)
    (a : Added nodes path mode i nodes') (dir : Bytes)
    → find_by_path nodes dir ≡ some a.parent
    → (my_fuse_readdir nodes dir ≡ ok (names_of nodes a.p.children))
      × (my_fuse_readdir nodes' dir ≡ ok (names_of nodes a.p.children ++ (a.basename ∷ [])))
unfolding new_inode
Added-readdir nodes path mode i nodes' tree a dir named = (
  readdir-eq nodes dir a.parent a.p named a.at a.dir,
  readdir-eq nodes' dir a.parent p' (Added-keeps nodes path mode i nodes' tree a dir a.parent named)
        held a.dir
      ∙ ap (λ names. ok ((b'.' ∷ []) ∷ (b'.' ∷ b'.' ∷ []) ∷ names))
          (ap (λ m. child_names m p'.children) a.result
            ∙ (child_names-attach nodes a.parent a.p new a.at a.p.children
                  (IsTree-Below tree a.parent a.p a.at)
                ∙ ap (λ b. child_names nodes a.p.children ++ (b ∷ []))
                    (name_kept nodes path mode i nodes' tree a))),
)
  where
    new : INode
    new = new_inode a.parent a.basename mode

    p' : INode
    p' = record a.p { children = a.p.children ++ (length nodes ∷ []) }

    held : get_elem? nodes' a.parent ≡ some p'
    held = rw a.result (
        ground (
          arith,
          get_elem?-attach nodes a.parent a.p new a.at a.parent,
          get_elem?-lt nodes a.parent a.at,
        ))

mkdir-Added :
    (mem : Memory) (fs : MemFs) (path : Bytes) (mode : ℕ) (fs' : MemFs)
    → my_fuse_mkdir mem fs path mode ≡ (ok tt, fs')
    → (i : ℕ) × Added fs.nodes path (with_type type_dir mode) i fs'.nodes
unfolding my_fuse_mkdir append_log
mkdir-Added mem fs path mode fs' call =
    elim (Reply-cases (add_entry mem fs.nodes path (with_type type_dir mode))) [
      | inl ((i, nodes'), made) ↦
          let q : fs'.nodes ≡ nodes' = ground arith in
          (i, rw q (add_entry-Added mem fs.nodes path (with_type type_dir mode) i nodes' made))
      | inr (inl (e, failed)) ↦ ground arith
      | inr (inr faulty) ↦ ground arith
    ]

-- After a successful `my_fuse_mkdir` of a path, `my_fuse_readdir` of the directory that the path is in
-- lists what it listed, and the new name at the end.
pub mkdir-readdir :
    (mem : Memory) (fs : MemFs) (path : Bytes) (mode : ℕ) (fs' : MemFs) (dir : Bytes) (parent : ℕ)
    (basename : Bytes)
    → IsTree fs.nodes
    → parse_parent fs.nodes path ≡ some (parent, basename)
    → find_by_path fs.nodes dir ≡ some parent
    → my_fuse_mkdir mem fs path mode ≡ (ok tt, fs')
    → (names : List Bytes) × (my_fuse_readdir fs.nodes dir ≡ ok names)
      × (my_fuse_readdir fs'.nodes dir ≡ ok (names ++ (basename ∷ [])))
mkdir-readdir mem fs path mode fs' dir parent basename tree parse named call =
    let (i, a) = mkdir-Added mem fs path mode fs' call in
    let same : (a.parent ≡ parent) × (a.basename ≡ basename) =
      (ground (arith, a.parse, parse), ground (arith, a.parse, parse)) in
    let listed =
      Added-readdir fs.nodes path (with_type type_dir mode) i fs'.nodes tree a dir
        (named ∙ ap some (sym same.0)) in
    (
      names_of fs.nodes a.p.children,
      listed.0,
      listed.1 ∙ ap (λ b. ok (names_of fs.nodes a.p.children ++ (b ∷ []))) same.1,
    )
