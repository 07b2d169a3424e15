-- ===== src/MemFs/Calls.antt =====
-- The FUSE callbacks of task02-fileio/src/memfs.c, and `append_log` of log.c as far as which entries it
-- appends.
use systems_programming_labs.Prelude.{
  ℕ, zero, suc, ◌+◌, ◌-◌, ◌%◌, Bool, false, not, Option, none, some, List, [], ◌∷◌, ◌++◌, ◌==◌, ltb,
  leb, if◌then◌else◌, length, get_elem?, set, take, drop, add64,
}
use systems_programming_labs.MemFs.Bytes.{Bytes}
use systems_programming_labs.MemFs.Inode.{
  max_name_len, type_dir, type_reg, type_lnk, is_dir, is_reg, is_lnk, with_type, INode, Nodes, root,
  find_child, find_by_path, parse_parent, create_inode, collect_statfs,
}

pub data Errno : Type 0 where
  enoent eisdir enotdir eexist enomem eacces einval : Errno

-- What a callback gives back: a value, an error code, or a `memcpy` outside its buffer.
pub data Reply {ℓ} (A : Type ℓ) : Type ℓ where
  ok : A → Reply A
  fail : Errno → Reply A
  fault : Reply A

pub data LogEntry : Type 0 where
  made_dir made_file : (path : Bytes) (mode : ℕ) → LogEntry
  written : (path : Bytes) (offset : ℕ) (buf : Bytes) → LogEntry
  linked : (path target : Bytes) → LogEntry

-- `log_opens` says whether `fopen` of the log succeeds.
pub record MemFs : Type 0 where
  pub nodes : Nodes
  pub is_replaying : Bool
  pub log_opens : Bool
  pub log : List LogEntry

-- Which allocations succeed, and what the bytes hold that `realloc` adds.
pub record Memory : Type 0 where
  pub calloc_ok : Bool
  pub realloc_ok : Bool
  pub strdup_ok : Bool
  pub junk : ℕ → ℕ

-- A signed file offset: `negative` for those below 0.
pub data Offset : Type 0 where
  at : ℕ → Offset
  negative : ℕ → Offset

unfoldable pub append_log : LogEntry → MemFs → MemFs
append_log entry fs =
    if fs.is_replaying
    then fs
    else if fs.log_opens
    then record fs { log = fs.log ++ (entry ∷ []) }
    else fs

pub record Stat : Type 0 where
  pub st_mode : ℕ
  pub st_nlink : ℕ
  pub st_size : ℕ

-- The inode that a path names.
unfoldable pub resolve : Nodes → Bytes → Option (ℕ × INode)
resolve nodes path = elim (find_by_path nodes path) [
  | none ↦ none
  | some i ↦ elim (get_elem? nodes i) [ none ↦ none | some n ↦ some (i, n) ]
]

unfoldable pub my_fuse_getattr : Nodes → Bytes → Reply Stat
my_fuse_getattr nodes path = elim (resolve nodes path) [
  | none ↦ fail enoent
  | some (i, n) ↦ ok (record { st_mode = n.mode; st_nlink = n.nlink; st_size = n.size })
]

-- `fi->flags & O_ACCMODE`, where `fi` is not NULL
abbrev pub opened_for : ℕ → Option ℕ → Bool
opened_for mode none = false
opened_for mode (some flags) = flags % 4 == mode

abbrev pub o_rdonly : ℕ
o_rdonly = 0

abbrev pub o_wronly : ℕ
o_wronly = 1

-- `memcpy(buf, data + offset, n)`
unfoldable pub copy_out : Bytes → ℕ → ℕ → Reply Bytes
copy_out content offset n =
    if leb (offset + n) (length content) then ok (take n (drop offset content)) else fault

unfoldable pub read_at : INode → ℕ → ℕ → Reply Bytes
read_at file size offset =
    if leb file.size offset
    then ok []
    else copy_out file.content offset
        (if ltb file.size (add64 offset size) then file.size - offset else size)

unfoldable pub my_fuse_read : Nodes → Bytes → ℕ → Offset → Option ℕ → Reply Bytes
my_fuse_read nodes path size offset fi = elim (resolve nodes path) [
  | none ↦ fail enoent
  | some (i, file) ↦
      if not (is_reg file.mode)
      then fail eisdir
      else if opened_for o_wronly fi
      then fail eacces
      else elim offset [ negative _ ↦ fail einval | at o ↦ read_at file size o ]
]

-- The bytes that `realloc` adds.
unfoldable pub grow : (ℕ → ℕ) → ℕ → ℕ → Bytes
grow junk from zero = []
grow junk from (suc n) = junk from ∷ grow junk (from + 1) n

-- `realloc(data, new_size)` for a larger size
unfoldable pub resized_to : Memory → INode → ℕ → INode
resized_to mem file new_size = record file {
  content = file.content ++ grow mem.junk file.size (new_size - file.size);
  size = new_size;
}

-- `memcpy(data + offset, buf, size)`
unfoldable pub copy_in : Bytes → ℕ → Bytes → Reply Bytes
copy_in content offset buf =
    if leb (offset + length buf) (length content)
    then ok (take offset content ++ (buf ++ drop (offset + length buf) content))
    else fault

unfoldable pub put_bytes : MemFs → ℕ → INode → Bytes → ℕ → Bytes → Reply ℕ × MemFs
put_bytes fs i file path offset buf = elim (copy_in file.content offset buf) [
  | ok content ↦ (
    ok (length buf),
    append_log (written path offset buf)
        (record fs { nodes = set fs.nodes i (record file { content = content }) }),
  )
  | fail e ↦ (fail e, fs)
  | fault ↦ (fault, fs)
]

unfoldable pub write_at : Memory → MemFs → ℕ → INode → Bytes → ℕ → Bytes → Reply ℕ × MemFs
write_at mem fs i file path offset buf =
    let new_size = add64 offset (length buf) in
    if ltb file.size new_size
    then if mem.realloc_ok
      then put_bytes fs i (resized_to mem file new_size) path offset buf
      else (fail enomem, fs)
    else put_bytes fs i file path offset buf

-- The callback; the count that it returns is not narrowed to `int`.
unfoldable pub my_fuse_write : Memory → MemFs → Bytes → Bytes → Offset → Option ℕ → Reply ℕ × MemFs
my_fuse_write mem fs path buf offset fi = elim (resolve fs.nodes path) [
  | none ↦ (fail enoent, fs)
  | some (i, file) ↦
      if not (is_reg file.mode)
      then (fail eisdir, fs)
      else if opened_for o_rdonly fi
      then (fail eacces, fs)
      else elim offset [ negative _ ↦ (fail einval, fs) | at o ↦ write_at mem fs i file path o buf ]
]

-- The names that `filler` is called with.
unfoldable pub child_names : Nodes → List ℕ → List Bytes
child_names nodes [] = []
child_names nodes (c ∷ cs) =
    let rest = child_names nodes cs in
    elim (get_elem? nodes c) [ none ↦ rest | some n ↦ n.name ∷ rest ]

unfoldable pub my_fuse_readdir : Nodes → Bytes → Reply (List Bytes)
my_fuse_readdir nodes path = elim (resolve nodes path) [
  | none ↦ fail enoent
  | some (i, dir) ↦
      if is_dir dir.mode
      then ok ((b'.' ∷ []) ∷ (b'.' ∷ b'.' ∷ []) ∷ child_names nodes dir.children)
      else fail enotdir
]

-- The common start of `my_fuse_mkdir`, `my_fuse_mknod` and `my_fuse_symlink`: the checks, and the new
-- inode with its position.
unfoldable pub add_entry : Memory → Nodes → Bytes → ℕ → Reply (ℕ × Nodes)
add_entry mem nodes path mode = elim (parse_parent nodes path) [
  | none ↦ fail enoent
  | some (parent, basename) ↦ elim (get_elem? nodes parent) [
    | none ↦ fail enoent
    | some p ↦
        if not (is_dir p.mode) then fail enotdir else elim (find_child nodes parent basename) [
          | some _ ↦ fail eexist
          | none ↦ elim (create_inode mem.calloc_ok nodes parent basename mode) [
            | none ↦ fail enomem
            | some made ↦ ok made
          ]
        ]
  ]
]

unfoldable pub my_fuse_mkdir : Memory → MemFs → Bytes → ℕ → Reply (Unit {0}) × MemFs
my_fuse_mkdir mem fs path mode = elim (add_entry mem fs.nodes path (with_type type_dir mode)) [
  | ok (i, nodes) ↦ (ok tt, append_log (made_dir path mode) (record fs { nodes = nodes }))
  | fail e ↦ (fail e, fs)
  | fault ↦ (fault, fs)
]

unfoldable pub my_fuse_mknod : Memory → MemFs → Bytes → ℕ → Reply (Unit {0}) × MemFs
my_fuse_mknod mem fs path mode = elim (add_entry mem fs.nodes path (with_type type_reg mode)) [
  | ok (i, nodes) ↦ (ok tt, append_log (made_file path mode) (record fs { nodes = nodes }))
  | fail e ↦ (fail e, fs)
  | fault ↦ (fault, fs)
]

unfoldable pub my_fuse_open : Nodes → Bytes → Reply (Unit {0})
my_fuse_open nodes path = elim (resolve nodes path) [
  | none ↦ fail enoent
  | some (i, file) ↦ if is_reg file.mode then ok tt else fail eisdir
]

unfoldable pub my_fuse_create : Memory → MemFs → Bytes → ℕ → Reply (Unit {0}) × MemFs
my_fuse_create mem fs path mode = my_fuse_mknod mem fs path mode

-- `snprintf(buf, size, "%s", target)`: at most `size - 1` bytes.
unfoldable pub my_fuse_readlink : Nodes → Bytes → ℕ → Reply Bytes
my_fuse_readlink nodes path size = elim (resolve nodes path) [
  | none ↦ fail enoent
  | some (i, n) ↦
      if is_lnk n.mode
      then elim n.link_target [ none ↦ fail einval | some target ↦ ok (take (size - 1) target) ]
      else fail einval
]

abbrev pub set_target : Nodes → ℕ → Bytes → Nodes
set_target nodes i target = elim (get_elem? nodes i) [
  | none ↦ nodes
  | some n ↦ set nodes i (record n { link_target = some target })
]

-- A failed `strdup` leaves the new inode in the tree.
unfoldable pub my_fuse_symlink : Memory → MemFs → Bytes → Bytes → Reply (Unit {0}) × MemFs
my_fuse_symlink mem fs target path = elim (add_entry mem fs.nodes path (with_type type_lnk 0o777)) [
  | ok (i, nodes) ↦
      if mem.strdup_ok
      then (
        ok tt,
        append_log (linked path target) (record fs { nodes = set_target nodes i target }),
      )
      else (fail enomem, record fs { nodes = nodes })
  | fail e ↦ (fail e, fs)
  | fault ↦ (fault, fs)
]

pub record StatVfs : Type 0 where
  pub f_files : ℕ
  pub f_namemax : ℕ
  pub f_blocks : ℕ

-- A path from the root is no longer than the list of inodes.
unfoldable pub my_fuse_statfs : Nodes → StatVfs
my_fuse_statfs nodes =
    let t = collect_statfs (length nodes) nodes root (record { files = 0; blocks = 0 }) in
    record { f_files = t.files; f_namemax = max_name_len; f_blocks = t.blocks }
