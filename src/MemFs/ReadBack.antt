-- ===== src/MemFs/ReadBack.antt =====
-- `my_fuse_read` of task02-fileio/src/memfs.c, alone and after `my_fuse_write`.
use systems_programming_labs.Prelude.{
  ℕ, zero, suc, ◌+◌, ◌-◌, ◌≤◌, ◌<◌, ◌≡◌, ◌≢◌, max, refl, sym, ◌∙◌, ap, true, not, ◌||◌, Bool-cases,
  Option-cases, ◌⊎◌, Option, none, some, inl, inr, [], ◌∷◌, ltb, leb, ◌==◌, if◌then◌else◌, length,
  get_elem?, set, take, drop, length-drop, add64-eq, word_size, arith,
}
use systems_programming_labs.MemFs.Bytes.{Bytes}
use systems_programming_labs.MemFs.Inode.{is_reg, INode, Nodes, find_by_path}
use systems_programming_labs.MemFs.Calls.{
  eisdir, eacces, enoent, einval, ok, fail, Memory, MemFs, Offset, negative, at, append_log,
  resolve, opened_for, o_wronly, grow, resized_to, copy_out, read_at, my_fuse_read,
}
use systems_programming_labs.MemFs.Lookup.{get_elem?-lt, get_elem?-set}
use systems_programming_labs.MemFs.Paths.{take_whole}
use systems_programming_labs.MemFs.Tree.{IsTree}
use systems_programming_labs.MemFs.Replace.{SamePlace, find_by_path-set, set-IsTree}
use systems_programming_labs.MemFs.Slices.{
  get_elem?-append, get_elem?-grow, length-patch, take-patch, get_elem?-patch,
}
use systems_programming_labs.MemFs.Write.{
  roomy, written_file, roomy-length, roomy-SamePlace, roomy-size, Written, resolve-held, InRange,
}

-- The slice that is cut at the end of the content is the slice.
read_at-eq :
    (file : INode) (size offset : ℕ)
    → file.size ≡ length file.content
    → offset + size < word_size
    → read_at file size offset ≡ ok (take size (drop offset file.content))
unfolding read_at copy_out
read_at-eq file size offset sized small =
    rw (add64-eq offset size small, sized)
      (elim (Bool-cases (leb len offset)) [
        | inl beyond ↦
            let le : len ≤ offset = ground arith in
            rw beyond (
              ap ok (
                sym (
                  nothing size (drop offset file.content)
                    (omega (arith, le, length-drop offset file.content)))))
        | inr inside ↦
            let lt : offset < len = ground arith in
            elim (Bool-cases (ltb len (offset + size))) [
              | inl cut ↦
                  let less : len < offset + size = ground arith in
                  let fits : leb (offset + (len - offset)) len ≡ true = ground arith in
                  let rest = length-drop offset file.content in
                  rw (inside, cut, fits)
                    (ap ok (
                      take_whole (len - offset) (drop offset file.content) (omega (arith, rest))
                      ∙ sym
                          (take_whole size (drop offset file.content) (omega (arith, rest, less)))))
              | inr whole ↦
                  let fits : leb (offset + size) len ≡ true = ground arith in
                  rw (inside, whole, fits) refl
            ]
      ])
  where
    len : ℕ
    len = length file.content

    nothing : (n : ℕ) (xs : Bytes) → length xs ≡ 0 → take n xs ≡ []
    nothing zero xs e = refl
    nothing (suc n) [] e = refl
    nothing (suc n) (x ∷ xs) e = absurd (omega arith)

pub my_fuse_read-found :
    (nodes : Nodes) (path : Bytes) (size offset : ℕ) (fi : Option ℕ) (i : ℕ) (file : INode)
    → IsTree nodes
    → offset + size < word_size
    → resolve nodes path ≡ some (i, file)
    → my_fuse_read nodes path size (at offset) fi ≡ (
        if not (is_reg file.mode)
        then fail eisdir
        else if opened_for o_wronly fi
        then fail eacces
        else ok (take size (drop offset file.content)))
unfolding my_fuse_read
my_fuse_read-found nodes path size offset fi i file tree small found =
    let held = resolve-held nodes path found in
    ground (arith, found, read_at-eq file size offset (tree.node i file held.1).sized small)

-- In a well-formed tree, a read of bytes that end below 2^64 is refused with ENOENT if the path names nothing.
-- Else it is refused with EISDIR for what is no file, EACCES for a file opened for writing, and EINVAL for an
-- offset below 0, whichever comes first; else it gives the bytes from the offset on, `size` of them or
-- those up to the end of the file. No `memcpy` leaves its buffer.
pub my_fuse_read-cases :
    (nodes : Nodes) (path : Bytes) (size : ℕ) (offset : Offset) (fi : Option ℕ)
    → IsTree nodes
    → InRange offset size
    → ((resolve nodes path ≡ none) × (my_fuse_read nodes path size offset fi ≡ fail enoent))
      ⊎ ((i : ℕ) × (file : INode) × (resolve nodes path ≡ some (i, file))
          × (my_fuse_read nodes path size offset fi ≡ (
              if not (is_reg file.mode)
              then fail eisdir
              else if opened_for o_wronly fi
              then fail eacces
              else elim offset [
                | negative _ ↦ fail einval
                | at o ↦ ok (take size (drop o file.content))
              ])))
unfolding my_fuse_read
my_fuse_read-cases nodes path size (negative z) fi tree small =
    elim (Option-cases (resolve nodes path)) [
      | inl missing ↦ inl (missing, rw (missing, my_fuse_read) refl)
      | inr ((i, file), found) ↦ inr (i, file, found, rw (found, my_fuse_read) refl)
    ]
my_fuse_read-cases nodes path size (at o) fi tree small = elim (Option-cases (resolve nodes path)) [
  | inl missing ↦ inl (missing, rw (missing, my_fuse_read) refl)
  | inr ((i, file), found) ↦
      inr (i, file, found, my_fuse_read-found nodes path size o fi i file tree small found)
]

module _ (mem : Memory) (fs : MemFs) (path buf : Bytes) (o n : ℕ) (fs' : MemFs)
    (tree : IsTree fs.nodes) (small : o + length buf < word_size)
    (w : Written mem fs path buf o n fs') where
  abbrev new : INode
  new = written_file mem w.file o buf

  nodes_after : fs'.nodes ≡ set fs.nodes w.i new
  unfolding append_log
  nodes_after = ground (arith, w.result)

  place : SamePlace w.file new
  place =
      let kept = roomy-SamePlace mem w.file (o + length buf) in
      record { children = kept.children; name = kept.name; mode = kept.mode }

  sized_before : w.file.size ≡ length w.file.content
  sized_before = (tree.node w.i w.file w.held).sized

  room : o + length buf ≤ length (roomy mem w.file (o + length buf)).content
  room = omega (arith, roomy-length mem w.file (o + length buf) sized_before)

  sized_after : new.size ≡ length new.content
  sized_after =
      roomy-size mem w.file (o + length buf)
      ∙ (sym (roomy-length mem w.file (o + length buf) sized_before)
          ∙ sym (length-patch o (roomy mem w.file (o + length buf)).content buf room))

  pub Written-size : new.size ≡ max w.file.size (o + length buf)
  Written-size = roomy-size mem w.file (o + length buf)

  -- A write keeps the tree well formed.
  pub Written-IsTree : IsTree fs'.nodes
  Written-IsTree = rw nodes_after (set-IsTree fs.nodes w.i w.file new w.held place tree sized_after)

  -- A write changes no path.
  pub Written-find_by_path :
      (other : Bytes) → find_by_path fs'.nodes other ≡ find_by_path fs.nodes other
  Written-find_by_path other =
      rw nodes_after (find_by_path-set fs.nodes w.i w.file new w.held place other)

  get_elem?-written :
      (j : ℕ) → get_elem? fs'.nodes j ≡ (if j == w.i then some new else get_elem? fs.nodes j)
  get_elem?-written j =
      rw nodes_after (get_elem?-set fs.nodes w.i new j (get_elem?-lt fs.nodes w.i w.held))

  -- A path that names another inode names it unchanged.
  pub Written-other :
      (other : Bytes) (j : ℕ) (m : INode)
      → find_by_path fs.nodes path ≢ some j
      → resolve fs.nodes other ≡ some (j, m)
      → resolve fs'.nodes other ≡ some (j, m)
  unfolding resolve
  Written-other other j m apart found =
      let held = resolve-held fs.nodes other found in
      let differ : j ≢ w.i = λ e. apart (w.named ∙ ap some (sym e)) in
      ground (arith, held, Written-find_by_path other, get_elem?-written j, differ)

  pub Written-resolve : resolve fs'.nodes path ≡ some (w.i, new)
  unfolding resolve
  Written-resolve = ground (arith, Written-find_by_path path, w.named, get_elem?-written w.i)

  -- What is written at an offset is read there.
  pub Written-read : my_fuse_read fs'.nodes path (length buf) (at o) none ≡ ok buf
  Written-read =
      my_fuse_read-found fs'.nodes path (length buf) o none w.i new Written-IsTree small
        Written-resolve
      ∙ (rw (place.mode, w.reg)
          (ap ok (take-patch o (roomy mem w.file (o + length buf)).content buf room)))

  roomy-byte :
      (k : ℕ)
      → k < max w.file.size (o + length buf)
      → get_elem? (roomy mem w.file (o + length buf)).content k
        ≡ (if ltb k w.file.size then get_elem? w.file.content k else some (mem.junk k))
  unfolding resized_to
  roomy-byte k h = elim (Bool-cases (ltb w.file.size (o + length buf))) [
    | inl grows ↦
        let lt : w.file.size < o + length buf = ground arith in
        rw grows (
          ground (
            arith,
            sized_before,
            lt,
            h,
            get_elem?-append w.file.content
                (grow mem.junk w.file.size (o + length buf - w.file.size)) k,
            get_elem?-grow mem.junk w.file.size (o + length buf - w.file.size) (k - w.file.size),
          ))
    | inr fits ↦
        let le : o + length buf ≤ w.file.size = ground arith in
        let inside : k < w.file.size = omega (arith, le) in rw fits (ground arith)
  ]

  -- Every byte of the file afterwards: of `buf`, or as before, or one that `realloc` added.
  pub Written-byte :
      (k : ℕ)
      → k < max w.file.size (o + length buf)
      → get_elem? new.content k ≡ (
          if ltb k o || leb (o + length buf) k
          then if ltb k w.file.size then get_elem? w.file.content k else some (mem.junk k)
          else get_elem? buf (k - o))
  Written-byte k h =
      let patch = get_elem?-patch o (roomy mem w.file (o + length buf)).content buf k room in
      ground (arith, patch, roomy-byte k h)
