-- ===== src/MemFs/Made.antt =====
-- `my_fuse_mkdir` and `my_fuse_mknod` of task02-fileio/src/memfs.c as a whole: what the other calls see
-- after a success.
use systems_programming_labs.Prelude.{
  ℕ, ◌≡◌, ◌≢◌, refl, some, [], ◌∷◌, ◌++◌, if◌then◌else◌, length, get_elem?, take, arith,
}
use systems_programming_labs.MemFs.Bytes.{Bytes, split_last}
use systems_programming_labs.MemFs.Inode.{
  path_room, is_dir, INode, Nodes, find_child, find_by_path, parent_of, parent_and_base,
  parse_parent, new_inode, attach,
}
use systems_programming_labs.MemFs.Calls.{
  eexist, ok, fail, Memory, add_entry, my_fuse_getattr, resolve,
}
use systems_programming_labs.MemFs.Lookup.{find_child-new, get_elem?-attach, get_elem?-lt}
use systems_programming_labs.MemFs.Tree.{IsTree, IsTree-Below}
use systems_programming_labs.MemFs.Create.{Added, add_entry-Added}
use systems_programming_labs.MemFs.RoundTrip.{
  NameFits, Added-found, Added-keeps, Added-IsTree, Added-name,
}

-- What a call that made an inode left: the tree is well formed, the path names the new inode, every other
-- path names what it named, and a second call for the path is refused.
pub record IsMade (nodes : Nodes) (path : Bytes) (mode i : ℕ) (nodes' : Nodes) : Type 0 where
  pub inode : INode
  pub held : get_elem? nodes' i ≡ some inode
  pub typed : inode.mode ≡ mode
  pub empty : inode.content ≡ []
  pub named : NameFits path → find_by_path nodes' path ≡ some i
  pub tree : IsTree nodes'
  pub stat :
      NameFits path
      → my_fuse_getattr nodes' path
        ≡ ok (record { st_mode = mode; st_nlink = if is_dir mode then 2 else 1; st_size = 0 })
  pub keeps :
      (other : Bytes) (j : ℕ)
      → find_by_path nodes other ≡ some j
      → find_by_path nodes' other ≡ some j
  pub again : (mem : Memory) (mode' : ℕ) → add_entry mem nodes' path mode' ≡ fail eexist

parse_again :
    (nodes' : Nodes) (path before last : Bytes) (parent : ℕ) (basename : Bytes)
    → split_last (take path_room path) ≡ some (before, last)
    → last ≢ []
    → parent_of nodes' before ≡ some parent
    → basename ≡ take 255 last
    → parse_parent nodes' path ≡ some (parent, basename)
unfolding parse_parent parent_and_base
parse_again nodes' path before [] parent basename e ne found base = absurd (ne refl)
parse_again nodes' path before (a ∷ rest) parent basename e ne found base = ground arith

parent_keeps :
    (nodes nodes' : Nodes) (before : Bytes) (parent : ℕ)
    → ((other : Bytes) (j : ℕ)
        → find_by_path nodes other ≡ some j
        → find_by_path nodes' other ≡ some j)
    → parent_of nodes before ≡ some parent
    → parent_of nodes' before ≡ some parent
unfolding parent_of
parent_keeps nodes nodes' [] parent keeps found = found
parent_keeps nodes nodes' (b ∷ bs) parent keeps found = keeps (b ∷ bs) parent found

module _ (nodes : Nodes) (path : Bytes) (mode i : ℕ) (nodes' : Nodes) (tree : IsTree nodes)
    (a : Added nodes path mode i nodes') where
  open a use {parent, basename, p, parsed, at}

  abbrev made : INode
  made = new_inode parent basename mode

  abbrev after : Nodes
  after = attach nodes parent p made

  held : get_elem? nodes' i ≡ some made
  held =
      rw (a.result, a.position)
        (ground (arith, get_elem?-attach nodes parent p made at (length nodes)))

  stat_new :
      NameFits path
      → my_fuse_getattr nodes' path
        ≡ ok (record { st_mode = mode; st_nlink = if is_dir mode then 2 else 1; st_size = 0 })
  unfolding my_fuse_getattr resolve new_inode
  stat_new fits = ground (arith, Added-found nodes path mode i nodes' tree a fits, held)

  again : (mem : Memory) (mode' : ℕ) → add_entry mem nodes' path mode' ≡ fail eexist
  unfolding add_entry
  again mem mode' = ground (arith, reparsed, held, found, a.dir)
    where
      reparsed : parse_parent nodes' path ≡ some (parent, basename)
      reparsed =
          parse_again nodes' path parsed.before parsed.last parent basename parsed.split
            parsed.some_byte
            (parent_keeps nodes nodes' parsed.before parent
              (Added-keeps nodes path mode i nodes' tree a) parsed.found)
            parsed.base

      held :
          get_elem? nodes' parent ≡ some (record p { children = p.children ++ (length nodes ∷ []) })
      held = rw a.result (
          ground
            (arith, get_elem?-attach nodes parent p made at parent, get_elem?-lt nodes parent at))

      found : find_child nodes' parent basename ≡ some (length nodes)
      found = rw a.result (
          find_child-new nodes parent p made at basename (IsTree-Below tree parent p at) a.dir
            a.free (Added-name nodes path mode i nodes' tree a))

  Added-IsMade : IsMade nodes path mode i nodes'
  unfolding new_inode
  Added-IsMade = record {
    inode = made;
    held = held;
    typed = refl;
    empty = refl;
    named = Added-found nodes path mode i nodes' tree a;
    tree = Added-IsTree nodes path mode i nodes' tree a;
    stat = stat_new;
    keeps = Added-keeps nodes path mode i nodes' tree a;
    again = again;
  }

pub add_entry-IsMade :
    (mem : Memory) (nodes : Nodes) (path : Bytes) (mode i : ℕ) (nodes' : Nodes)
    → IsTree nodes
    → add_entry mem nodes path mode ≡ ok (i, nodes')
    → IsMade nodes path mode i nodes'
add_entry-IsMade mem nodes path mode i nodes' tree h =
    Added-IsMade nodes path mode i nodes' tree (add_entry-Added mem nodes path mode i nodes' h)
