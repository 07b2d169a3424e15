-- ===== src/Allocator/Refine/Write.antt =====
-- The field writes of task05-memory/src/allocator.c at an address that holds a header.
use systems_programming_labs.Prelude.{ℕ, ◌≡◌, Bool, Option, some, fun_ext, ap, arith, ==_refl}
use systems_programming_labs.Allocator.Heap.{
  Ptr, BlockHeader, Heap, Cmd, ◌>>◌, load, store, set_next, set_prev, set_size, set_freed, update,
}

module _ (h : Heap) (p : Ptr) {b : BlockHeader} (e : h.header p ≡ some b) where
  pub load_lem : load p h ≡ some (b, h)
  unfolding load
  load_lem = rw (e, load)

  pub set_size_lem : (n : ℕ) → set_size p n h ≡ store p (record b { size = n }) h
  unfolding set_size
  set_size_lem n = rw load_lem

  pub set_freed_lem : (f : Bool) → set_freed p f h ≡ store p (record b { freed = f }) h
  unfolding set_freed
  set_freed_lem f = rw load_lem

  pub set_next_lem : (q : Ptr) → set_next p q h ≡ store p (record b { next = q }) h
  unfolding set_next
  set_next_lem q = rw load_lem

  pub set_prev_lem : (q : Ptr) → set_prev p q h ≡ store p (record b { prev = q }) h
  unfolding set_prev
  set_prev_lem q = rw load_lem

-- Two writes to one header are one.
update-update :
    (f : Ptr → Option BlockHeader) (p : Ptr) (v w : Option BlockHeader)
    → update (update f p v) p w ≡ update f p w
update-update f p v w = fun_ext λ q. ground arith

module _ (h : Heap) (p : Ptr) {b : BlockHeader} (e : h.header p ≡ some b) (q : Ptr) (n : ℕ) where
  abbrev pub resized : Heap
  resized = record h { header = update h.header p (some (record b { next = q; size = n })) }

  pub set_next_size : (set_next p q >> set_size p n) h ≡ some (tt, resized)
  unfolding set_next set_size load
  set_next_size =
      rw (e, load)
        (rw (==_refl p, load)
          (ap (λ f. some (tt, record h { header = f })) (update-update h.header p _ _)))

  pub set_size_next : {A : Type 0} (k : Cmd A) → (set_size p n >> (set_next p q >> k)) h ≡ k resized
  unfolding set_next set_size load
  set_size_next k =
      rw (e, load)
        (rw (==_refl p, load)
          (ap (λ f. k (record h { header = f })) (update-update h.header p _ _)))
