-- ===== src/MemFs/Steps.antt =====
-- The calls that change the filesystem of task02-fileio/src/memfs.c, as steps: whatever they answer, the
-- tree stays well formed, and a path that names an inode names the same one for good.
use systems_programming_labs.Prelude.{
  ℕ, zero, suc, ◌+◌, ◌<◌, ◌≡◌, refl, ◌∙◌, Bool-cases, Option-cases, Option, some, inl, inr, ◌⊎◌, [],
  ◌∷◌, length, get_elem?, word_size, arith,
}
use systems_programming_labs.MemFs.Bytes.{Bytes}
use systems_programming_labs.MemFs.Inode.{
  type_dir, type_reg, type_lnk, with_type, INode, Nodes, find_by_path, root_inode,
}
use systems_programming_labs.MemFs.Calls.{
  Reply, ok, fail, fault, Errno, LogEntry, made_dir, made_file, linked, Memory, MemFs, at,
  append_log, add_entry, set_target, my_fuse_mkdir, my_fuse_mknod, my_fuse_create, my_fuse_symlink,
  my_fuse_write,
}
use systems_programming_labs.MemFs.Tree.{IsTree, IsNode}
use systems_programming_labs.MemFs.Replace.{SamePlace, find_by_path-set, set-IsTree}
use systems_programming_labs.MemFs.Made.{IsMade, add_entry-IsMade}
use systems_programming_labs.MemFs.Write.{my_fuse_write-Written, my_fuse_write-ends}
use systems_programming_labs.MemFs.ReadBack.{Written-IsTree, Written-find_by_path}

-- One call, with the memory it finds. A write ends below 2^64, as a file offset does.
pub data Step : MemFs → MemFs → Type 0 where
  mkdir :
      (mem : Memory) (fs : MemFs) (path : Bytes) (mode : ℕ)
      → Step fs (my_fuse_mkdir mem fs path mode).1
  mknod :
      (mem : Memory) (fs : MemFs) (path : Bytes) (mode : ℕ)
      → Step fs (my_fuse_mknod mem fs path mode).1
  create :
      (mem : Memory) (fs : MemFs) (path : Bytes) (mode : ℕ)
      → Step fs (my_fuse_create mem fs path mode).1
  symlink :
      (mem : Memory) (fs : MemFs) (target path : Bytes)
      → Step fs (my_fuse_symlink mem fs target path).1
  write :
      (mem : Memory) (fs : MemFs) (path buf : Bytes) (o : ℕ) (fi : Option ℕ)
      → o + length buf < word_size
      → Step fs (my_fuse_write mem fs path buf (at o) fi).1

pub data Steps : MemFs → MemFs → Type 0 where
  start : (fs : MemFs) → Steps fs fs
  then_step : {fs mid fs' : MemFs} → Steps fs mid → Step mid fs' → Steps fs fs'

-- What every call keeps.
pub record Kept (nodes nodes' : Nodes) : Type 0 where
  pub tree : IsTree nodes'
  pub names :
      (path : Bytes) (i : ℕ) → find_by_path nodes path ≡ some i → find_by_path nodes' path ≡ some i

same_nodes : {nodes : Nodes} → IsTree nodes → Kept nodes nodes
same_nodes tree = record { tree = tree; names = λ path i found. found }

made-Kept :
    {nodes : Nodes} {path : Bytes} {mode i : ℕ} {nodes' : Nodes}
    → IsMade nodes path mode i nodes'
    → Kept nodes nodes'
made-Kept m = record { tree = m.tree; names = m.keeps }

pub append_log-nodes : (e : LogEntry) (fs : MemFs) → (append_log e fs).nodes ≡ fs.nodes
unfolding append_log
append_log-nodes e fs = ground arith

target-Kept :
    (nodes nodes' : Nodes) (i : ℕ) (target : Bytes)
    → Kept nodes nodes'
    → Kept nodes (set_target nodes' i target)
target-Kept nodes nodes' i target k = elim (Option-cases (get_elem? nodes' i)) [
  | inl missing ↦ rw (missing, set_target) k
  | inr (n, is) ↦
      let same : SamePlace n (record n { link_target = some target }) = record {
        children = refl;
        name = refl;
        mode = refl;
      } in
      rw (is, set_target)
        (record {
          tree =
              set-IsTree nodes' i n (record n { link_target = some target }) is same k.tree
                (k.tree.node i n is).sized;
          names = λ path j found.
              find_by_path-set nodes' i n (record n { link_target = some target }) is same path
              ∙ k.names path j found;
        })
]

pub Reply-cases :
    {A : Type 0} (r : Reply A)
    → ((x : A) × (r ≡ ok x)) ⊎ (((e : Errno) × (r ≡ fail e)) ⊎ (r ≡ fault))
Reply-cases (ok x) = inl (x, refl)
Reply-cases (fail e) = inr (inl (e, refl))
Reply-cases fault = inr (inr refl)

-- The three calls that add an entry do this.
Entry : Memory → MemFs → Bytes → ℕ → Type 0
Entry mem fs path mode =
    ((made : ℕ × Nodes) × (add_entry mem fs.nodes path mode ≡ ok made) × Kept fs.nodes made.1)
    ⊎ (((e : Errno) × (add_entry mem fs.nodes path mode ≡ fail e))
        ⊎ (add_entry mem fs.nodes path mode ≡ fault))

Entry-cases :
    (mem : Memory) (fs : MemFs) (path : Bytes) (mode : ℕ) → IsTree fs.nodes → Entry mem fs path mode
unfolding Entry
Entry-cases mem fs path mode tree = elim (Reply-cases (add_entry mem fs.nodes path mode)) [
  | inl ((i, nodes'), made) ↦
      inl
        ((i, nodes'), made, made-Kept (add_entry-IsMade mem fs.nodes path mode i nodes' tree made))
  | inr other ↦ inr other
]

mkdir-Kept :
    (mem : Memory) (fs : MemFs) (path : Bytes) (mode : ℕ)
    → IsTree fs.nodes
    → Kept fs.nodes (my_fuse_mkdir mem fs path mode).1.nodes
unfolding Entry my_fuse_mkdir
mkdir-Kept mem fs path mode tree = elim (Entry-cases mem fs path (with_type type_dir mode) tree) [
  | inl ((i, nodes'), made, kept) ↦
      rw (made, my_fuse_mkdir, append_log-nodes (made_dir path mode) (record fs { nodes = nodes' }))
        kept
  | inr (inl (e, failed)) ↦ rw (failed, my_fuse_mkdir) (same_nodes tree)
  | inr (inr faulty) ↦ rw (faulty, my_fuse_mkdir) (same_nodes tree)
]

mknod-Kept :
    (mem : Memory) (fs : MemFs) (path : Bytes) (mode : ℕ)
    → IsTree fs.nodes
    → Kept fs.nodes (my_fuse_mknod mem fs path mode).1.nodes
unfolding Entry my_fuse_mknod
mknod-Kept mem fs path mode tree = elim (Entry-cases mem fs path (with_type type_reg mode) tree) [
  | inl ((i, nodes'), made, kept) ↦
      rw
        (made, my_fuse_mknod, append_log-nodes (made_file path mode) (record fs { nodes = nodes' }))
        kept
  | inr (inl (e, failed)) ↦ rw (failed, my_fuse_mknod) (same_nodes tree)
  | inr (inr faulty) ↦ rw (faulty, my_fuse_mknod) (same_nodes tree)
]

symlink-Kept :
    (mem : Memory) (fs : MemFs) (target path : Bytes)
    → IsTree fs.nodes
    → Kept fs.nodes (my_fuse_symlink mem fs target path).1.nodes
unfolding Entry my_fuse_symlink
symlink-Kept mem fs target path tree =
    elim (Entry-cases mem fs path (with_type type_lnk 0o777) tree) [
      | inl ((i, nodes'), made, kept) ↦ elim (Bool-cases mem.strdup_ok) [
        | inl copied ↦
            rw
              (
                made,
                my_fuse_symlink,
                copied,
                append_log-nodes (linked path target)
                    (record fs { nodes = set_target nodes' i target }),
              )
              (target-Kept fs.nodes nodes' i target kept)
        | inr refused ↦ rw (made, my_fuse_symlink, refused) kept
      ]
      | inr (inl (e, failed)) ↦ rw (failed, my_fuse_symlink) (same_nodes tree)
      | inr (inr faulty) ↦ rw (faulty, my_fuse_symlink) (same_nodes tree)
    ]

-- A write that ends well is `Written`, and any other leaves the state.
write-Kept :
    (mem : Memory) (fs : MemFs) (path buf : Bytes) (o : ℕ) (fi : Option ℕ)
    → IsTree fs.nodes
    → o + length buf < word_size
    → Kept fs.nodes (my_fuse_write mem fs path buf (at o) fi).1.nodes
write-Kept mem fs path buf o fi tree small =
    elim (my_fuse_write-ends mem fs path buf o fi tree small) [
      | inl (e, failed) ↦ rw failed (same_nodes tree)
      | inr (fs', done) ↦
          let w = my_fuse_write-Written mem fs path buf o fi (length buf) fs' tree small done in
          rw done (record {
            tree = Written-IsTree mem fs path buf o (length buf) fs' tree small w;
            names = λ other i found.
                Written-find_by_path mem fs path buf o (length buf) fs' tree small w other ∙ found;
          })
    ]

pub Step-Kept : (fs fs' : MemFs) → Step fs fs' → IsTree fs.nodes → Kept fs.nodes fs'.nodes
unfolding my_fuse_create
Step-Kept _ _ (mkdir mem fs path mode) tree = mkdir-Kept mem fs path mode tree
Step-Kept _ _ (mknod mem fs path mode) tree = mknod-Kept mem fs path mode tree
Step-Kept _ _ (create mem fs path mode) tree = mknod-Kept mem fs path mode tree
Step-Kept _ _ (symlink mem fs target path) tree = symlink-Kept mem fs target path tree
Step-Kept _ _ (write mem fs path buf o fi small) tree = write-Kept mem fs path buf o fi tree small

pub Steps-Kept : (fs fs' : MemFs) → Steps fs fs' → IsTree fs.nodes → Kept fs.nodes fs'.nodes
Steps-Kept _ _ (start fs) tree = same_nodes tree
Steps-Kept fs fs' (then_step {mid = mid} steps step) tree =
    let before = Steps-Kept fs mid steps tree in
    let last = Step-Kept mid fs' step before.tree in
    record {
      tree = last.tree;
      names = λ path i found. last.names path i (before.names path i found);
    }

-- The filesystem with the root alone is well formed.
pub root-IsTree : IsTree (root_inode ∷ [])
root-IsTree = record { root_dir = refl; node = only }
  where
    only :
        (i : ℕ) (n : INode) → get_elem? (root_inode ∷ []) i ≡ some n → IsNode (root_inode ∷ []) i n
    only zero n e =
        let q : n ≡ root_inode = ground arith in
        rw q (record {
          between = tt;
          distinct = tt;
          few = omega arith;
          leaf = λ _. refl;
          sized = refl;
        })
    only (suc i) n e = cc
