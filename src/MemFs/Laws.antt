-- ===== src/MemFs/Laws.antt =====
-- What a caller of the callbacks of task02-fileio/src/memfs.c relies on.
use systems_programming_labs.Prelude.{
  ℕ, zero, suc, ◌+◌, ◌-◌, ◌<◌, ◌≡◌, refl, ◌∙◌, ap, true, false, Bool-cases, none, some, inl, inr,
  [], get_elem?, set, take, drop, word_size, arith,
}
use systems_programming_labs.MemFs.Bytes.{Bytes}
use systems_programming_labs.MemFs.Inode.{
  file_type, type_dir, type_reg, type_lnk, with_type, is_dir, is_reg, is_lnk, INode, Nodes,
  find_by_path,
}
use systems_programming_labs.MemFs.Calls.{
  eexist, ok, fail, linked, set_target, Memory, MemFs, at, append_log, resolve, my_fuse_getattr,
  my_fuse_read, my_fuse_open, my_fuse_readlink, add_entry, my_fuse_mkdir, my_fuse_mknod,
  my_fuse_symlink,
}
use systems_programming_labs.MemFs.RoundTrip.{NameFits}
use systems_programming_labs.MemFs.Tree.{IsTree}
use systems_programming_labs.MemFs.Lookup.{get_elem?-lt, get_elem?-set}
use systems_programming_labs.MemFs.Replace.{find_by_path-set}
use systems_programming_labs.MemFs.Made.{IsMade, add_entry-IsMade}
use systems_programming_labs.MemFs.ReadBack.{my_fuse_read-found}
use systems_programming_labs.MemFs.Steps.{Reply-cases, append_log-nodes}

mkdir-IsMade :
    (mem : Memory) (fs : MemFs) (path : Bytes) (mode : ℕ) (fs' : MemFs)
    → IsTree fs.nodes
    → my_fuse_mkdir mem fs path mode ≡ (ok tt, fs')
    → (i : ℕ) × IsMade fs.nodes path (with_type type_dir mode) i fs'.nodes
unfolding my_fuse_mkdir append_log
mkdir-IsMade mem fs path mode fs' tree call =
    elim (Reply-cases (add_entry mem fs.nodes path (with_type type_dir mode))) [
      | inl ((i, nodes'), made) ↦
          let q : fs'.nodes ≡ nodes' = ground arith in
          (
            i,
            rw q (add_entry-IsMade mem fs.nodes path (with_type type_dir mode) i nodes' tree made),
          )
      | inr (inl (e, failed)) ↦ ground arith
      | inr (inr faulty) ↦ ground arith
    ]

mknod-IsMade :
    (mem : Memory) (fs : MemFs) (path : Bytes) (mode : ℕ) (fs' : MemFs)
    → IsTree fs.nodes
    → my_fuse_mknod mem fs path mode ≡ (ok tt, fs')
    → (i : ℕ) × IsMade fs.nodes path (with_type type_reg mode) i fs'.nodes
unfolding my_fuse_mknod append_log
mknod-IsMade mem fs path mode fs' tree call =
    elim (Reply-cases (add_entry mem fs.nodes path (with_type type_reg mode))) [
      | inl ((i, nodes'), made) ↦
          let q : fs'.nodes ≡ nodes' = ground arith in
          (
            i,
            rw q (add_entry-IsMade mem fs.nodes path (with_type type_reg mode) i nodes' tree made),
          )
      | inr (inl (e, failed)) ↦ ground arith
      | inr (inr faulty) ↦ ground arith
    ]

dir_bits : (mode : ℕ) → file_type mode ≡ 0 → is_dir (with_type type_dir mode) ≡ true
dir_bits mode h =
    let bits : file_type (with_type type_dir mode) ≡ type_dir = rw h (omega arith) in rw bits refl

reg_bits :
    (mode : ℕ)
    → file_type mode ≡ 0
    → (is_dir (with_type type_reg mode) ≡ false) × (is_reg (with_type type_reg mode) ≡ true)
reg_bits mode h =
    let bits : file_type (with_type type_reg mode) ≡ type_reg = rw h (omega arith) in
    rw bits (refl, refl)

-- After `my_fuse_mkdir` of a path whose last name has at most 255 bytes, with permission bits alone for
-- mode, `my_fuse_getattr` of the path finds an empty directory with two links and that mode.
pub mkdir-getattr :
    (mem : Memory) (fs : MemFs) (path : Bytes) (mode : ℕ) (fs' : MemFs)
    → IsTree fs.nodes
    → NameFits path
    → file_type mode ≡ 0
    → my_fuse_mkdir mem fs path mode ≡ (ok tt, fs')
    → my_fuse_getattr fs'.nodes path
      ≡ ok (record { st_mode = with_type type_dir mode; st_nlink = 2; st_size = 0 })
mkdir-getattr mem fs path mode fs' tree fits bits call =
    let made = (mkdir-IsMade mem fs path mode fs' tree call).1 in
    made.stat fits ∙ rw (dir_bits mode bits) refl

-- After a successful `my_fuse_mkdir` of a path, `my_fuse_mkdir` and `my_fuse_mknod` of it are refused with
-- EEXIST, whatever memory there is, and leave the filesystem as it is.
pub mkdir-again :
    (mem : Memory) (fs : MemFs) (path : Bytes) (mode : ℕ) (fs' : MemFs) (mem' : Memory) (mode' : ℕ)
    → IsTree fs.nodes
    → my_fuse_mkdir mem fs path mode ≡ (ok tt, fs')
    → (my_fuse_mkdir mem' fs' path mode' ≡ (fail eexist, fs'))
      × (my_fuse_mknod mem' fs' path mode' ≡ (fail eexist, fs'))
unfolding my_fuse_mkdir my_fuse_mknod
mkdir-again mem fs path mode fs' mem' mode' tree call =
    let made = (mkdir-IsMade mem fs path mode fs' tree call).1 in
    (
      rw (made.again mem' (with_type type_dir mode'), my_fuse_mkdir) refl,
      rw (made.again mem' (with_type type_reg mode'), my_fuse_mknod) refl,
    )

resolve-eq :
    (nodes : Nodes) (path : Bytes) (i : ℕ) (n : INode)
    → find_by_path nodes path ≡ some i
    → get_elem? nodes i ≡ some n
    → resolve nodes path ≡ some (i, n)
unfolding resolve
resolve-eq nodes path i n named held = ground (arith, named, held)

linked_found :
    (nodes : Nodes) (path : Bytes) (i : ℕ) (n : INode) (target : Bytes)
    → find_by_path nodes path ≡ some i
    → get_elem? nodes i ≡ some n
    → resolve (set_target nodes i target) path ≡ some (i, record n { link_target = some target })
linked_found nodes path i n target named held =
    rw (held, set_target)
      (resolve-eq (set nodes i n') path i n'
        (find_by_path-set nodes i n n' held (record { children = refl; name = refl; mode = refl })
            path
          ∙ named)
        (get_elem?-set nodes i n' i (get_elem?-lt nodes i held) ∙ ground arith))
  where
    n' : INode
    n' = record n { link_target = some target }

-- After `my_fuse_mknod` of a path whose last name has at most 255 bytes, with permission bits alone for
-- mode, the path is a file that `my_fuse_open` takes, and `my_fuse_read` finds nothing in it.
pub mknod-open :
    (mem : Memory) (fs : MemFs) (path : Bytes) (mode : ℕ) (fs' : MemFs) (size offset : ℕ)
    → IsTree fs.nodes
    → NameFits path
    → file_type mode ≡ 0
    → offset + size < word_size
    → my_fuse_mknod mem fs path mode ≡ (ok tt, fs')
    → (my_fuse_open fs'.nodes path ≡ ok tt)
      × (my_fuse_read fs'.nodes path size (at offset) none ≡ ok [])
unfolding my_fuse_open
mknod-open mem fs path mode fs' size offset tree fits bits small call =
    let (i, made) = mknod-IsMade mem fs path mode fs' tree call in
    let found = resolve-eq fs'.nodes path i made.inode (made.named fits) made.held in
    let reg : is_reg made.inode.mode ≡ true = ap is_reg made.typed ∙ (reg_bits mode bits).1 in
    (
      rw (found, my_fuse_open, reg) refl,
      my_fuse_read-found fs'.nodes path size offset none i made.inode made.tree small found
          ∙ rw (reg, made.empty) (ap ok (nothing size offset)),
    )
  where
    nothing : (n o : ℕ) → take {A = ℕ} n (drop o []) ≡ []
    nothing zero o = refl
    nothing (suc n) zero = refl
    nothing (suc n) (suc o) = refl

-- A symbolic link made at a path whose last name has at most 255 bytes is read back by
-- `my_fuse_readlink`: the target's first `size - 1` bytes.
pub symlink-readlink :
    (mem : Memory) (fs : MemFs) (target path : Bytes) (fs' : MemFs) (size : ℕ)
    → IsTree fs.nodes
    → NameFits path
    → my_fuse_symlink mem fs target path ≡ (ok tt, fs')
    → my_fuse_readlink fs'.nodes path size ≡ ok (take (size - 1) target)
unfolding my_fuse_symlink my_fuse_readlink
symlink-readlink mem fs target path fs' size tree fits call =
    elim (Reply-cases (add_entry mem fs.nodes path (with_type type_lnk 0o777))) [
      | inr (inl (e, failed)) ↦ ground arith
      | inr (inr faulty) ↦ ground arith
      | inl ((i, nodes'), made) ↦ elim (Bool-cases mem.strdup_ok) [
        | inr refused ↦ ground arith
        | inl copied ↦
            let q : fs'
                ≡ append_log (linked path target)
                    (record fs { nodes = set_target nodes' i target }) =
              ground arith in
            let m =
              add_entry-IsMade mem fs.nodes path (with_type type_lnk 0o777) i nodes' tree made in
            let found = linked_found nodes' path i m.inode target (m.named fits) m.held in
            let lnk : is_lnk m.inode.mode ≡ true = rw m.typed refl in
            rw
              (
                q,
                append_log-nodes (linked path target)
                    (record fs { nodes = set_target nodes' i target }),
                found,
                my_fuse_readlink,
                lnk,
              )
              refl
      ]
    ]
