-- ===== src/MemFs/Tests.antt =====
-- Runs of the callbacks of task02-fileio/src/memfs.c on small trees, and the results at them.
use systems_programming_labs.Prelude.{
  ℕ, ◌≡◌, ◌≢◌, refl, true, false, not, ◌&&◌, if◌then◌else◌, ltb, take, drop, none, some, ◌⊎◌, List,
  [], ◌∷◌, ◌++◌, get_elem?, add64, arith,
}
use systems_programming_labs.MemFs.Bytes.{Bytes, split_last, tokens_from, flush, bytes_eq}
use systems_programming_labs.MemFs.Inode.{
  root_inode, INode, is_reg, find_in, find_child, walk, find_by_path, parent_of, parent_and_base,
  parse_parent, new_inode, attach, create_inode,
}
use systems_programming_labs.MemFs.Calls.{
  eexist, enoent, eisdir, eacces, enomem, ok, fail, Memory, MemFs, at, append_log, resolve,
  copy_out, read_at, grow, resized_to, copy_in, put_bytes, write_at, add_entry, my_fuse_getattr,
  my_fuse_read, my_fuse_write, my_fuse_open, my_fuse_readlink, my_fuse_readdir, my_fuse_mkdir,
  my_fuse_mknod, my_fuse_symlink,
}
use systems_programming_labs.MemFs.RoundTrip.{NameFits}
use systems_programming_labs.MemFs.Tree.{IsTree}
use systems_programming_labs.MemFs.Write.{written_state, my_fuse_write-cases}
use systems_programming_labs.MemFs.ReadBack.{my_fuse_read-cases}
use systems_programming_labs.MemFs.Steps.{mkdir, mknod, Steps, start, then_step, root-IsTree}
use systems_programming_labs.MemFs.Laws.{mkdir-getattr, mkdir-again, mknod-open, symlink-readlink}
use systems_programming_labs.MemFs.Listing.{mkdir-readdir}
use systems_programming_labs.MemFs.Effects.{
  write-read, write-others, write-byte, Steps-IsTree, Steps-find_by_path,
}

abbrev plenty : Memory
plenty = record { calloc_ok = true; realloc_ok = true; strdup_ok = true; junk = λ k. 170 }

abbrev mounted : MemFs
mounted = record { nodes = root_inode ∷ []; is_replaying = false; log_opens = true; log = [] }

-- "/d"
abbrev path_d : Bytes
path_d = b'/' ∷ b'd' ∷ []

-- "/d/f"
abbrev path_f : Bytes
path_f = b'/' ∷ b'd' ∷ b'/' ∷ b'f' ∷ []

abbrev dir_made : MemFs
dir_made = (my_fuse_mkdir plenty mounted path_d 0o755).1

abbrev file_made : MemFs
file_made = (my_fuse_mknod plenty dir_made path_f 0o644).1

abbrev file_written : MemFs
file_written = (my_fuse_write plenty file_made path_f (b'a' ∷ b'b' ∷ []) (at 1) none).1

path_d-NameFits : NameFits path_d
unfolding split_last
path_d-NameFits before last e = ground arith

dir-Steps : Steps mounted dir_made
dir-Steps = then_step (start mounted) (mkdir plenty mounted path_d 0o755)

file-Steps : Steps mounted file_made
file-Steps = then_step dir-Steps (mknod plenty dir_made path_f 0o644)

dir-IsTree : IsTree dir_made.nodes
dir-IsTree = Steps-IsTree mounted dir_made refl dir-Steps

file-IsTree : IsTree file_made.nodes
file-IsTree = Steps-IsTree mounted file_made refl file-Steps

path_f-NameFits : NameFits path_f
unfolding split_last
path_f-NameFits before last e = ground arith

run_mkdir : my_fuse_mkdir plenty mounted path_d 0o755 ≡ (ok tt, dir_made)
unfolding my_fuse_mkdir my_fuse_mknod my_fuse_write my_fuse_read my_fuse_symlink resolve add_entry
    parse_parent split_last parent_and_base parent_of find_by_path walk tokens_from flush find_child
    find_in bytes_eq create_inode new_inode attach append_log read_at copy_out write_at put_bytes
    copy_in resized_to grow add64
run_mkdir = refl

run_mknod : my_fuse_mknod plenty dir_made path_f 0o644 ≡ (ok tt, file_made)
unfolding my_fuse_mkdir my_fuse_mknod my_fuse_write my_fuse_read my_fuse_symlink resolve add_entry
    parse_parent split_last parent_and_base parent_of find_by_path walk tokens_from flush find_child
    find_in bytes_eq create_inode new_inode attach append_log read_at copy_out write_at put_bytes
    copy_in resized_to grow add64
run_mknod = refl

run_write :
    my_fuse_write plenty file_made path_f (b'a' ∷ b'b' ∷ []) (at 1) none ≡ (ok 2, file_written)
unfolding my_fuse_mkdir my_fuse_mknod my_fuse_write my_fuse_read my_fuse_symlink resolve add_entry
    parse_parent split_last parent_and_base parent_of find_by_path walk tokens_from flush find_child
    find_in bytes_eq create_inode new_inode attach append_log read_at copy_out write_at put_bytes
    copy_in resized_to grow add64
run_write = refl

-- The byte in front of what is written is one that `realloc` left.
run_read : my_fuse_read file_written.nodes path_f 9 (at 0) none ≡ ok (170 ∷ b'a' ∷ b'b' ∷ [])
unfolding my_fuse_mkdir my_fuse_mknod my_fuse_write my_fuse_read my_fuse_symlink resolve add_entry
    parse_parent split_last parent_and_base parent_of find_by_path walk tokens_from flush find_child
    find_in bytes_eq create_inode new_inode attach append_log read_at copy_out write_at put_bytes
    copy_in resized_to grow add64
run_read = refl

run_symlink :
    my_fuse_symlink plenty dir_made path_d path_f
    ≡ (ok tt, (my_fuse_symlink plenty dir_made path_d path_f).1)
unfolding my_fuse_mkdir my_fuse_mknod my_fuse_write my_fuse_read my_fuse_symlink resolve add_entry
    parse_parent split_last parent_and_base parent_of find_by_path walk tokens_from flush find_child
    find_in bytes_eq create_inode new_inode attach append_log read_at copy_out write_at put_bytes
    copy_in resized_to grow add64
run_symlink = refl

found_d : find_by_path dir_made.nodes path_d ≡ some 1
unfolding my_fuse_mkdir my_fuse_mknod my_fuse_write my_fuse_read my_fuse_symlink resolve add_entry
    parse_parent split_last parent_and_base parent_of find_by_path walk tokens_from flush find_child
    find_in bytes_eq create_inode new_inode attach append_log read_at copy_out write_at put_bytes
    copy_in resized_to grow add64
found_d = refl

abbrev dir_d : INode
dir_d = record {
  parent = some 0;
  children = 2 ∷ [];
  name = b'd' ∷ [];
  mode = 0o40755;
  nlink = 2;
  content = [];
  size = 0;
  link_target = none;
}

resolved_d : resolve file_made.nodes path_d ≡ some (1, dir_d)
unfolding my_fuse_mkdir my_fuse_mknod my_fuse_write my_fuse_read my_fuse_symlink resolve add_entry
    parse_parent split_last parent_and_base parent_of find_by_path walk tokens_from flush find_child
    find_in bytes_eq create_inode new_inode attach append_log read_at copy_out write_at put_bytes
    copy_in resized_to grow add64
resolved_d = refl

abbrev file_f : INode
file_f = new_inode 1 (b'f' ∷ []) 0o100644

resolved_f : resolve file_made.nodes path_f ≡ some (2, file_f)
unfolding my_fuse_mkdir my_fuse_mknod my_fuse_write my_fuse_read my_fuse_symlink resolve add_entry
    parse_parent split_last parent_and_base parent_of find_by_path walk tokens_from flush find_child
    find_in bytes_eq create_inode new_inode attach append_log read_at copy_out write_at put_bytes
    copy_in resized_to grow add64
resolved_f = refl

apart_f : find_by_path file_made.nodes path_f ≢ some 1
unfolding my_fuse_mkdir my_fuse_mknod my_fuse_write my_fuse_read my_fuse_symlink resolve add_entry
    parse_parent split_last parent_and_base parent_of find_by_path walk tokens_from flush find_child
    find_in bytes_eq create_inode new_inode attach append_log read_at copy_out write_at put_bytes
    copy_in resized_to grow add64
apart_f e = cc

parsed_d : parse_parent mounted.nodes path_d ≡ some (0, b'd' ∷ [])
unfolding my_fuse_mkdir my_fuse_mknod my_fuse_write my_fuse_read my_fuse_symlink resolve add_entry
    parse_parent split_last parent_and_base parent_of find_by_path walk tokens_from flush find_child
    find_in bytes_eq create_inode new_inode attach append_log read_at copy_out write_at put_bytes
    copy_in resized_to grow add64
parsed_d = refl

found_root : find_by_path mounted.nodes (b'/' ∷ []) ≡ some 0
unfolding my_fuse_mkdir my_fuse_mknod my_fuse_write my_fuse_read my_fuse_symlink resolve add_entry
    parse_parent split_last parent_and_base parent_of find_by_path walk tokens_from flush find_child
    find_in bytes_eq create_inode new_inode attach append_log read_at copy_out write_at put_bytes
    copy_in resized_to grow add64
found_root = refl

mkdir-readdir_example :
    (names : List Bytes) × (my_fuse_readdir mounted.nodes (b'/' ∷ []) ≡ ok names)
    × (my_fuse_readdir dir_made.nodes (b'/' ∷ []) ≡ ok (names ++ ((b'd' ∷ []) ∷ [])))
mkdir-readdir_example =
    mkdir-readdir plenty mounted path_d 0o755 dir_made (b'/' ∷ []) 0 (b'd' ∷ []) root-IsTree
      parsed_d found_root run_mkdir

mkdir-getattr_example :
    my_fuse_getattr dir_made.nodes path_d
    ≡ ok (record { st_mode = 0o40755; st_nlink = 2; st_size = 0 })
mkdir-getattr_example =
    mkdir-getattr plenty mounted path_d 0o755 dir_made root-IsTree path_d-NameFits refl run_mkdir

mkdir-again_example :
    (my_fuse_mkdir plenty dir_made path_d 0o700 ≡ (fail eexist, dir_made))
    × (my_fuse_mknod plenty dir_made path_d 0o700 ≡ (fail eexist, dir_made))
mkdir-again_example =
    mkdir-again plenty mounted path_d 0o755 dir_made plenty 0o700 root-IsTree run_mkdir

mknod-open_example :
    (my_fuse_open file_made.nodes path_f ≡ ok tt)
    × (my_fuse_read file_made.nodes path_f 9 (at 3) none ≡ ok [])
mknod-open_example =
    mknod-open plenty dir_made path_f 0o644 file_made 9 3 dir-IsTree path_f-NameFits refl
      (omega arith) run_mknod

symlink-readlink_example :
    my_fuse_readlink (my_fuse_symlink plenty dir_made path_d path_f).1.nodes path_f 2
    ≡ ok (b'/' ∷ [])
symlink-readlink_example =
    symlink-readlink plenty dir_made path_d path_f (my_fuse_symlink plenty dir_made path_d path_f).1
      2 dir-IsTree path_f-NameFits run_symlink

my_fuse_write-cases_example :
    ((resolve file_made.nodes path_f ≡ none)
      × (my_fuse_write plenty file_made path_f (b'a' ∷ b'b' ∷ []) (at 1) none
          ≡ (fail enoent, file_made)))
    ⊎ ((i : ℕ) × (file : INode) × (resolve file_made.nodes path_f ≡ some (i, file))
        × (my_fuse_write plenty file_made path_f (b'a' ∷ b'b' ∷ []) (at 1) none ≡ (
            if not (is_reg file.mode)
            then (fail eisdir, file_made)
            else if false
            then (fail eacces, file_made)
            else if ltb file.size 3 && false
            then (fail enomem, file_made)
            else (ok 2, written_state plenty file_made i file path_f 1 (b'a' ∷ b'b' ∷ [])))))
my_fuse_write-cases_example =
    my_fuse_write-cases plenty file_made path_f (b'a' ∷ b'b' ∷ []) (at 1) none file-IsTree
      (omega arith)

my_fuse_read-cases_example :
    ((resolve file_made.nodes path_f ≡ none)
      × (my_fuse_read file_made.nodes path_f 4 (at 1) (some 2) ≡ fail enoent))
    ⊎ ((i : ℕ) × (file : INode) × (resolve file_made.nodes path_f ≡ some (i, file))
        × (my_fuse_read file_made.nodes path_f 4 (at 1) (some 2) ≡ (
            if not (is_reg file.mode)
            then fail eisdir
            else if false
            then fail eacces
            else ok (take 4 (drop 1 file.content)))))
my_fuse_read-cases_example =
    my_fuse_read-cases file_made.nodes path_f 4 (at 1) (some 2) file-IsTree (omega arith)

write-read_example :
    (◌≡◌ {A = ℕ} 2 2)
    × (my_fuse_read file_written.nodes path_f 2 (at 1) none ≡ ok (b'a' ∷ b'b' ∷ []))
write-read_example =
    write-read plenty file_made path_f (b'a' ∷ b'b' ∷ []) 1 none 2 file_written file-IsTree
      (omega arith) run_write

write-others_example : resolve file_written.nodes path_d ≡ some (1, dir_d)
write-others_example =
    write-others plenty file_made path_f (b'a' ∷ b'b' ∷ []) 1 none 2 file_written path_d 1 dir_d
      file-IsTree (omega arith) run_write apart_f resolved_d

write-byte_example :
    (file' : INode) × (resolve file_written.nodes path_f ≡ some (2, file'))
    × (file'.size ≡ 3)
    × (get_elem? file'.content 2 ≡ some b'b')
unfolding new_inode
write-byte_example =
    write-byte plenty file_made path_f (b'a' ∷ b'b' ∷ []) 1 none 2 file_written 2 file_f 2
      file-IsTree (omega arith) run_write resolved_f (omega arith)

Steps-IsTree_example : IsTree file_made.nodes
Steps-IsTree_example = Steps-IsTree mounted file_made refl file-Steps

Steps-find_by_path_example : find_by_path file_made.nodes path_d ≡ some 1
Steps-find_by_path_example =
    Steps-find_by_path dir_made file_made path_d 1 dir-IsTree
      (then_step (start dir_made) (mknod plenty dir_made path_f 0o644)) found_d
