-- ===== src/MemFs/Effects.antt =====
-- `my_fuse_write` of task02-fileio/src/memfs.c and whole runs of its callbacks, as a caller sees them.
use systems_programming_labs.Prelude.{
  ℕ, ◌+◌, ◌-◌, ◌<◌, ◌≡◌, ◌≢◌, refl, sym, ◌∙◌, ap, ◌||◌, Option, none, some, [], ◌∷◌, ltb, leb,
  if◌then◌else◌, length, get_elem?, max, word_size, arith,
}
use systems_programming_labs.MemFs.Bytes.{Bytes}
use systems_programming_labs.MemFs.Inode.{INode, root_inode, find_by_path}
use systems_programming_labs.MemFs.Calls.{
  ok, Memory, MemFs, at, resolve, my_fuse_read, my_fuse_write,
}
use systems_programming_labs.MemFs.Tree.{IsTree}
use systems_programming_labs.MemFs.Write.{
  Written, written_file, my_fuse_write-Written, resolve-held,
}
use systems_programming_labs.MemFs.ReadBack.{
  Written-read, Written-other, Written-resolve, Written-byte, Written-size,
}
use systems_programming_labs.MemFs.Steps.{Steps, Steps-Kept, root-IsTree}

-- After a successful write that ends below 2^64, a read of as many bytes at the same offset gives the
-- bytes written.
pub write-read :
    (mem : Memory) (fs : MemFs) (path buf : Bytes) (o : ℕ) (fi : Option ℕ) (n : ℕ) (fs' : MemFs)
    → IsTree fs.nodes
    → o + length buf < word_size
    → my_fuse_write mem fs path buf (at o) fi ≡ (ok n, fs')
    → (n ≡ length buf) × (my_fuse_read fs'.nodes path n (at o) none ≡ ok buf)
write-read mem fs path buf o fi n fs' tree small call =
    let w = my_fuse_write-Written mem fs path buf o fi n fs' tree small call in
    (w.count, rw w.count (Written-read mem fs path buf o n fs' tree small w))

-- A successful write that ends below 2^64 leaves every path with the inode it named, and each inode but
-- the written one unchanged.
pub write-others :
    (mem : Memory) (fs : MemFs) (path buf : Bytes) (o : ℕ) (fi : Option ℕ) (n : ℕ) (fs' : MemFs)
    (other : Bytes) (j : ℕ) (m : INode)
    → IsTree fs.nodes
    → o + length buf < word_size
    → my_fuse_write mem fs path buf (at o) fi ≡ (ok n, fs')
    → find_by_path fs.nodes path ≢ some j
    → resolve fs.nodes other ≡ some (j, m)
    → resolve fs'.nodes other ≡ some (j, m)
write-others mem fs path buf o fi n fs' other j m tree small call apart found =
    let w = my_fuse_write-Written mem fs path buf o fi n fs' tree small call in
    Written-other mem fs path buf o n fs' tree small w other j m apart found

Written-same :
    (mem : Memory) (fs : MemFs) (path buf : Bytes) (o n : ℕ) (fs' : MemFs)
    (w : Written mem fs path buf o n fs') (i : ℕ) (file : INode)
    → resolve fs.nodes path ≡ some (i, file)
    → (i ≡ w.i) × (file ≡ w.file)
Written-same mem fs path buf o n fs' w i file found =
    let held = resolve-held fs.nodes path found in
    let at_i : i ≡ w.i = ground (arith, held, w.named) in
    let there : get_elem? fs.nodes w.i ≡ some file = rw⁻¹ at_i held.1 in
    (at_i, ground (arith, there, w.held))

-- After a successful write at `o` that ends below 2^64 the file is as long as it was or as the write
-- needs. Its byte at `k` is of `buf` if `k` is in what was written, else the old byte if the file had one,
-- else the byte that `realloc` left there.
pub write-byte :
    (mem : Memory) (fs : MemFs) (path buf : Bytes) (o : ℕ) (fi : Option ℕ) (n : ℕ) (fs' : MemFs)
    (i : ℕ) (file : INode) (k : ℕ)
    → IsTree fs.nodes
    → o + length buf < word_size
    → my_fuse_write mem fs path buf (at o) fi ≡ (ok n, fs')
    → resolve fs.nodes path ≡ some (i, file)
    → k < max file.size (o + length buf)
    → (file' : INode) × (resolve fs'.nodes path ≡ some (i, file'))
      × (file'.size ≡ max file.size (o + length buf))
      × (get_elem? file'.content k ≡ (
          if ltb k o || leb (o + length buf) k
          then if ltb k file.size then get_elem? file.content k else some (mem.junk k)
          else get_elem? buf (k - o)))
write-byte mem fs path buf o fi n fs' i file k tree small call found within =
    let w = my_fuse_write-Written mem fs path buf o fi n fs' tree small call in
    let same = Written-same mem fs path buf o n fs' w i file found in
    (
      written_file mem w.file o buf,
      Written-resolve mem fs path buf o n fs' tree small w
          ∙ ap (λ j. some (j, written_file mem w.file o buf)) (sym same.0),
      Written-size mem fs path buf o n fs' tree small w
          ∙ ap (λ f. max f.size (o + length buf)) (sym same.1),
      Written-byte mem fs path buf o n fs' tree small w k (rw⁻¹ same.1 within) ∙ rw⁻¹ same.1 refl,
    )

-- Whatever sequence of `mkdir`, `mknod`, `create`, `symlink` and `write` calls is made on a mounted
-- filesystem, of writes that end below 2^64, and whatever they answer, the tree is well formed: each
-- directory's children exist, come later in the order of allocation, have distinct names and are at most
-- 1024; only directories have children; and each size is the length of the content.
pub Steps-IsTree : (fs fs' : MemFs) → fs.nodes ≡ root_inode ∷ [] → Steps fs fs' → IsTree fs'.nodes
Steps-IsTree fs fs' mounted steps = (Steps-Kept fs fs' steps (rw mounted root-IsTree)).tree

-- In a well-formed tree a path that names an inode names the same inode after any sequence of `mkdir`, `mknod`,
-- `create`, `symlink` and `write` calls, of writes that end below 2^64.
pub Steps-find_by_path :
    (fs fs' : MemFs) (path : Bytes) (i : ℕ)
    → IsTree fs.nodes
    → Steps fs fs'
    → find_by_path fs.nodes path ≡ some i
    → find_by_path fs'.nodes path ≡ some i
Steps-find_by_path fs fs' path i tree steps found =
    (Steps-Kept fs fs' steps tree).names path i found
