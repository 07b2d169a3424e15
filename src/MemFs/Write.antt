-- ===== src/MemFs/Write.antt =====
-- `my_fuse_write` of task02-fileio/src/memfs.c: what a call did.
use systems_programming_labs.Prelude.{
  ℕ, ◌+◌, ◌-◌, ◌≤◌, ◌<◌, ◌≡◌, max, refl, sym, ◌∙◌, ap, true, not, ◌&&◌, Bool-cases, Option-cases,
  Option, none, some, inl, inr, ◌⊎◌, ◌++◌, ltb, leb, if◌then◌else◌, length, get_elem?, set, take,
  drop, length-append, add64-eq, word_size, arith,
}
use systems_programming_labs.MemFs.Bytes.{Bytes}
use systems_programming_labs.MemFs.Inode.{is_reg, INode, Nodes, find_by_path}
use systems_programming_labs.MemFs.Calls.{
  Errno, enomem, eisdir, eacces, enoent, einval, ok, fail, Memory, MemFs, Offset, negative, at,
  written, append_log, resolve, opened_for, o_rdonly, grow, resized_to, copy_in, put_bytes,
  write_at, my_fuse_write,
}
use systems_programming_labs.MemFs.Tree.{IsTree}
use systems_programming_labs.MemFs.Replace.{SamePlace}
use systems_programming_labs.MemFs.Slices.{length-grow}

-- The file with room for what is written.
abbrev pub roomy : Memory → INode → ℕ → INode
roomy mem file end = if ltb file.size end then resized_to mem file end else file

abbrev pub patched : Bytes → ℕ → Bytes → Bytes
patched content o buf = take o content ++ (buf ++ drop (o + length buf) content)

abbrev pub written_file : Memory → INode → ℕ → Bytes → INode
written_file mem file o buf =
    let base = roomy mem file (o + length buf) in
    record base { content = patched base.content o buf }

abbrev pub written_state : Memory → MemFs → ℕ → INode → Bytes → ℕ → Bytes → MemFs
written_state mem fs i file path o buf =
    append_log (written path o buf)
      (record fs { nodes = set fs.nodes i (written_file mem file o buf) })

pub roomy-length :
    (mem : Memory) (file : INode) (end : ℕ)
    → file.size ≡ length file.content
    → length (roomy mem file end).content ≡ max file.size end
unfolding resized_to
roomy-length mem file end sized = elim (Bool-cases (ltb file.size end)) [
  | inl grows ↦
      let lt : file.size < end = ground arith in
      rw grows (
        omega (
          arith,
          lt,
          length-append file.content (grow mem.junk file.size (end - file.size)),
          length-grow mem.junk file.size (end - file.size),
        ))
  | inr fits ↦ let le : end ≤ file.size = ground arith in rw fits (omega (arith, le))
]

pub roomy-SamePlace : (mem : Memory) (file : INode) (end : ℕ) → SamePlace file (roomy mem file end)
unfolding resized_to
roomy-SamePlace mem file end = elim (Bool-cases (ltb file.size end)) [
  | inl grows ↦ rw grows (record { children = refl; name = refl; mode = refl })
  | inr fits ↦ rw fits (record { children = refl; name = refl; mode = refl })
]

pub roomy-size :
    (mem : Memory) (file : INode) (end : ℕ) → (roomy mem file end).size ≡ max file.size end
unfolding resized_to
roomy-size mem file end = elim (Bool-cases (ltb file.size end)) [
  | inl grows ↦ let lt : file.size < end = ground arith in rw grows (omega (arith, lt))
  | inr fits ↦ let le : end ≤ file.size = ground arith in rw fits (omega (arith, le))
]

copy_in-eq :
    (content : Bytes) (o : ℕ) (buf : Bytes)
    → o + length buf ≤ length content
    → copy_in content o buf ≡ ok (patched content o buf)
unfolding copy_in
copy_in-eq content o buf h =
    let fits : leb (o + length buf) (length content) ≡ true = ground arith in rw fits refl

-- `memcpy` stays inside the buffer that has room.
put_bytes-eq :
    (fs : MemFs) (i : ℕ) (base : INode) (path : Bytes) (o : ℕ) (buf : Bytes)
    → o + length buf ≤ length base.content
    → put_bytes fs i base path o buf ≡ (
      ok (length buf),
      append_log (written path o buf) (record fs {
        nodes = set fs.nodes i (record base { content = patched base.content o buf });
      }),
    )
unfolding put_bytes
put_bytes-eq fs i base path o buf h = rw (copy_in-eq base.content o buf h, put_bytes) refl

-- The write ends well, unless the file has to grow and `realloc` fails.
pub write_at-eq :
    (mem : Memory) (fs : MemFs) (i : ℕ) (file : INode) (path : Bytes) (o : ℕ) (buf : Bytes)
    → file.size ≡ length file.content
    → o + length buf < word_size
    → write_at mem fs i file path o buf ≡ (
        if ltb file.size (o + length buf) && not mem.realloc_ok
        then (fail enomem, fs)
        else (ok (length buf), written_state mem fs i file path o buf))
unfolding write_at resized_to
write_at-eq mem fs i file path o buf sized small =
    rw (add64-eq o (length buf) small) (elim (Bool-cases (ltb file.size end)) [
      | inr fits ↦
          let le : end ≤ file.size = ground arith in
          rw fits (put_bytes-eq fs i file path o buf (omega (arith, le)))
      | inl grows ↦ elim (Bool-cases mem.realloc_ok) [
        | inr broken ↦ rw (grows, broken) refl
        | inl works ↦
            rw (grows, works)
              (put_bytes-eq fs i (resized_to mem file end) path o buf (
                omega (
                  arith,
                  roomy-length mem file end sized,
                  ap (λ t. length (if t then resized_to mem file end else file).content) grows,
                )))
      ]
    ])
  where
    end : ℕ
    end = o + length buf

-- What a successful `my_fuse_write` found and did.
pub record Written (mem : Memory) (fs : MemFs) (path buf : Bytes) (o n : ℕ) (fs' : MemFs)
    : Type 0 where
  pub i : ℕ
  pub file : INode
  pub named : find_by_path fs.nodes path ≡ some i
  pub held : get_elem? fs.nodes i ≡ some file
  pub reg : is_reg file.mode ≡ true
  pub count : n ≡ length buf
  pub result : fs' ≡ written_state mem fs i file path o buf

-- The outcome of a call on an inode that was found.
pub my_fuse_write-found :
    (mem : Memory) (fs : MemFs) (path buf : Bytes) (o : ℕ) (fi : Option ℕ) (i : ℕ) (file : INode)
    → IsTree fs.nodes
    → o + length buf < word_size
    → find_by_path fs.nodes path ≡ some i
    → get_elem? fs.nodes i ≡ some file
    → my_fuse_write mem fs path buf (at o) fi ≡ (
        if not (is_reg file.mode)
        then (fail eisdir, fs)
        else if opened_for o_rdonly fi
        then (fail eacces, fs)
        else if ltb file.size (o + length buf) && not mem.realloc_ok
        then (fail enomem, fs)
        else (ok (length buf), written_state mem fs i file path o buf))
unfolding my_fuse_write resolve
my_fuse_write-found mem fs path buf o fi i file tree small named held =
    ground
      (arith, named, held, write_at-eq mem fs i file path o buf (tree.node i file held).sized small)

pub my_fuse_write-missing :
    (mem : Memory) (fs : MemFs) (path buf : Bytes) (offset : Offset) (fi : Option ℕ)
    → resolve fs.nodes path ≡ none
    → my_fuse_write mem fs path buf offset fi ≡ (fail enoent, fs)
unfolding my_fuse_write
my_fuse_write-missing mem fs path buf offset fi missing = rw (missing, my_fuse_write) refl

pub resolve-held :
    (nodes : Nodes) (path : Bytes) {i : ℕ} {n : INode}
    → resolve nodes path ≡ some (i, n)
    → (find_by_path nodes path ≡ some i) × (get_elem? nodes i ≡ some n)
unfolding resolve
resolve-held nodes path {i} {n} h = elim (Option-cases (find_by_path nodes path)) [
  | inl missing ↦ ground arith
  | inr (j, named) ↦ elim (Option-cases (get_elem? nodes j)) [
    | inl dangling ↦ ground arith
    | inr (m, held) ↦ (ground arith, ground arith)
  ]
]

pub my_fuse_write-Written :
    (mem : Memory) (fs : MemFs) (path buf : Bytes) (o : ℕ) (fi : Option ℕ) (n : ℕ) (fs' : MemFs)
    → IsTree fs.nodes
    → o + length buf < word_size
    → my_fuse_write mem fs path buf (at o) fi ≡ (ok n, fs')
    → Written mem fs path buf o n fs'
my_fuse_write-Written mem fs path buf o fi n fs' tree small h =
    elim (Option-cases (resolve fs.nodes path)) [
      | inl missing ↦
          let q = sym h ∙ my_fuse_write-missing mem fs path buf (at o) fi missing in
          ground (arith, q)
      | inr ((i, file), is) ↦
          let r = resolve-held fs.nodes path is in
          let q = sym h ∙ my_fuse_write-found mem fs path buf o fi i file tree small r.0 r.1 in
          record {
            i = i;
            file = file;
            named = r.0;
            held = r.1;
            reg = ground (arith, q);
            count = ground (arith, q);
            result = ground (arith, q);
          }
    ]

-- Either all of `buf` is written, or there is an error code and the filesystem is as before.
pub my_fuse_write-ends :
    (mem : Memory) (fs : MemFs) (path buf : Bytes) (o : ℕ) (fi : Option ℕ)
    → IsTree fs.nodes
    → o + length buf < word_size
    → ((e : Errno) × (my_fuse_write mem fs path buf (at o) fi ≡ (fail e, fs)))
      ⊎ ((fs' : MemFs) × (my_fuse_write mem fs path buf (at o) fi ≡ (ok (length buf), fs')))
my_fuse_write-ends mem fs path buf o fi tree small = elim (Option-cases (resolve fs.nodes path)) [
  | inl missing ↦ inl (enoent, my_fuse_write-missing mem fs path buf (at o) fi missing)
  | inr ((i, file), is) ↦
      let r = resolve-held fs.nodes path is in
      let q = my_fuse_write-found mem fs path buf o fi i file tree small r.0 r.1 in
      elim (Bool-cases (is_reg file.mode)) [
        | inr other ↦ inl (eisdir, ground (arith, q))
        | inl reg ↦ elim (Bool-cases (opened_for o_rdonly fi)) [
          | inl read_only ↦ inl (eacces, ground (arith, q))
          | inr open_ok ↦ elim (Bool-cases (ltb file.size (o + length buf) && not mem.realloc_ok)) [
            | inl no_memory ↦ inl (enomem, ground (arith, q))
            | inr enough ↦ inr (written_state mem fs i file path o buf, ground (arith, q))
          ]
        ]
      ]
]

my_fuse_write-negative :
    (mem : Memory) (fs : MemFs) (path buf : Bytes) (z : ℕ) (fi : Option ℕ) (i : ℕ) (file : INode)
    → resolve fs.nodes path ≡ some (i, file)
    → my_fuse_write mem fs path buf (negative z) fi ≡ (
        if not (is_reg file.mode)
        then (fail eisdir, fs)
        else if opened_for o_rdonly fi
        then (fail eacces, fs)
        else (fail einval, fs))
unfolding my_fuse_write
my_fuse_write-negative mem fs path buf z fi i file found = rw (found, my_fuse_write) refl

-- Bytes from the offset on end below 2^64.
abbrev pub InRange : Offset → ℕ → Type 0
InRange (negative _) size = Unit {0}
InRange (at o) size = o + size < word_size

-- In a well-formed tree, a write of bytes that end below 2^64 is refused with ENOENT if the path names
-- nothing. Else it is refused with EISDIR for what is no file, EACCES for a file opened for reading,
-- EINVAL for an offset below 0, and ENOMEM if the file has to grow and `realloc` fails, whichever comes
-- first, and the filesystem is as before. Else all of `buf` stands at its offset in the file, which has grown
-- if need be, the write is in the log if there is one, and the reply is the number of bytes. No `memcpy`
-- leaves its buffer.
pub my_fuse_write-cases :
    (mem : Memory) (fs : MemFs) (path buf : Bytes) (offset : Offset) (fi : Option ℕ)
    → IsTree fs.nodes
    → InRange offset (length buf)
    → ((resolve fs.nodes path ≡ none)
        × (my_fuse_write mem fs path buf offset fi ≡ (fail enoent, fs)))
      ⊎ ((i : ℕ) × (file : INode) × (resolve fs.nodes path ≡ some (i, file))
          × (my_fuse_write mem fs path buf offset fi ≡ (
              if not (is_reg file.mode)
              then (fail eisdir, fs)
              else if opened_for o_rdonly fi
              then (fail eacces, fs)
              else elim offset [
                | negative _ ↦ (fail einval, fs)
                | at o ↦
                    if ltb file.size (o + length buf) && not mem.realloc_ok
                    then (fail enomem, fs)
                    else (ok (length buf), written_state mem fs i file path o buf)
              ])))
my_fuse_write-cases mem fs path buf (negative z) fi tree small =
    elim (Option-cases (resolve fs.nodes path)) [
      | inl missing ↦ inl (missing, my_fuse_write-missing mem fs path buf (negative z) fi missing)
      | inr ((i, file), is) ↦
          inr (i, file, is, my_fuse_write-negative mem fs path buf z fi i file is)
    ]
my_fuse_write-cases mem fs path buf (at o) fi tree small =
    elim (Option-cases (resolve fs.nodes path)) [
      | inl missing ↦ inl (missing, my_fuse_write-missing mem fs path buf (at o) fi missing)
      | inr ((i, file), is) ↦
          let r = resolve-held fs.nodes path is in
          inr (i, file, is, my_fuse_write-found mem fs path buf o fi i file tree small r.0 r.1)
    ]
