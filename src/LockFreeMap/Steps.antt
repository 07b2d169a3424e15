-- ===== src/LockFreeMap/Steps.antt =====
-- The threads of task04-concurrency/src/lockfreehashmap.c keep the invariant, in every interleaving.
use systems_programming_labs.Prelude.{
  ℕ, suc, ◌≡◌, refl, ap, Bool, true, false, ◌&&◌, not, Bool-cases, Option-cases, Option, none, some,
  inl, inr, List, [], ◌∷◌, ◌++◌, ◌==◌, length, get_elem?, set, length-set, length-append,
  ℕ_discrete, subst, arith,
}
use systems_programming_labs.LockFreeMap.Bucket.{
  Node, Bucket, Link, Thread, inserting, removing, looking, publishing, stepping, marking,
  unlinking, checking, passing, returned, same_pointer, remove_from, lookup_from, publish, try_mark,
  unlink, advance,
}
use systems_programming_labs.LockFreeMap.Chain.{
  LeadsBelow, IsChain, Grows, LeadsBelow-Grows, LeadsBelow-over, node_at,
}
use systems_programming_labs.LockFreeMap.Grow.{
  Seen, Goes, Grows-refl, node_set, node_lt, node_end, Grows-set, Grows-end,
}

equal_pointers : (a b : Option ℕ) → same_pointer a b ≡ true → a ≡ b
equal_pointers none none h = refl
equal_pointers none (some b) h = cc
equal_pointers (some a) none h = cc
equal_pointers (some a) (some b) h = ground arith

-- A node is replaced by one that leads below it and is deleted if it was.
set-IsChain :
    (b : Bucket) (i : ℕ) (n n' : Node)
    → IsChain b
    → get_elem? b.nodes i ≡ some n
    → (n.is_deleted ≡ true → n'.is_deleted ≡ true)
    → LeadsBelow b.nodes i n'.m_next
    → IsChain (record b { nodes = set b.nodes i n' })
set-IsChain b i n n' chain at keep leads = record {
  head =
      rw (length-set b.nodes i n')
        (LeadsBelow-Grows b.nodes after (length b.nodes) b.sentinel grows (omega arith) chain.head);
  next = λ x m held. elim (ℕ_discrete x i) [
    | yes here ↦
        let q : m ≡ n' =
          ground (arith, held, here, node_set b.nodes i n' x (node_lt b.nodes i at)) in
        rw (q, here)
          (LeadsBelow-Grows b.nodes after i n'.m_next grows (omega (arith, node_lt b.nodes i at))
            leads)
    | no other ↦
        let was : get_elem? b.nodes x ≡ some m =
          ground (arith, held, other, node_set b.nodes i n' x (node_lt b.nodes i at)) in
        LeadsBelow-Grows b.nodes after x m.m_next grows (omega (arith, node_lt b.nodes x was))
          (chain.next x m was)
  ];
}
  where
    after : List Node
    after = set b.nodes i n'

    grows : Grows b.nodes after
    grows = Grows-set b.nodes i n n' at keep

-- A new node at the head, which leads below the old ones.
end-IsChain :
    (b : Bucket) (new : Node)
    → IsChain b
    → LeadsBelow b.nodes (length b.nodes) new.m_next
    → IsChain (record { sentinel = some (length b.nodes); nodes = b.nodes ++ (new ∷ []) })
end-IsChain b new chain leads = record {
  head =
      rw size
        (record { low = omega arith; dead = λ z m from to held. absurd (omega (arith, from, to)) });
  next = λ x m held. elim (ℕ_discrete x (length b.nodes)) [
    | yes last ↦
        let q : m ≡ new = ground (arith, held, last, node_end b.nodes new x) in
        rw (q, last)
          (LeadsBelow-Grows b.nodes after (length b.nodes) new.m_next (Grows-end b.nodes new)
            (omega arith) leads)
    | no earlier ↦
        let was : get_elem? b.nodes x ≡ some m =
          ground (arith, held, earlier, node_end b.nodes new x) in
        LeadsBelow-Grows b.nodes after x m.m_next (Grows-end b.nodes new)
          (omega (arith, node_lt b.nodes x was)) (chain.next x m was)
  ];
}
  where
    after : List Node
    after = b.nodes ++ (new ∷ [])

    size : length after ≡ suc (length b.nodes)
    size = omega (arith, length-append b.nodes (new ∷ []))

publish-Goes :
    (weak : Bool) (b : Bucket) (val : ℕ) (old : Option ℕ)
    → IsChain b
    → Goes b (publish weak b val old)
unfolding publish
publish-Goes weak b val old chain = elim (Bool-cases (same_pointer b.sentinel old && not weak)) [
  | inr failed ↦ rw failed (record { chain = chain; grows = Grows-refl b.nodes; seen = tt })
  | inl published ↦
      let same : b.sentinel ≡ old = equal_pointers b.sentinel old (ground (arith, published)) in
      rw published (record {
        chain = end-IsChain b new chain (rw⁻¹ same chain.head);
        grows = Grows-end b.nodes new;
        seen = tt;
      })
]
  where
    new : Node
    new = record { m_val = val; m_next = old; is_deleted = false }

-- A thread that has changed nothing.
same-Goes : (b : Bucket) (t : Thread) → IsChain b → Seen b.nodes t → Goes b (b, t)
same-Goes b t chain seen = record { chain = chain; grows = Grows-refl b.nodes; seen = seen }

remove_from-Seen :
    (nodes : List Node) (val : ℕ) (link : Link) (cur : Option ℕ)
    → Seen nodes (remove_from val link cur)
remove_from-Seen nodes val link none = tt
remove_from-Seen nodes val link (some cur) = tt

lookup_from-Seen : (nodes : List Node) (val : ℕ) (cur : Option ℕ) → Seen nodes (lookup_from val cur)
lookup_from-Seen nodes val none = tt
lookup_from-Seen nodes val (some cur) = tt

try_mark-Goes :
    (b : Bucket) (val : ℕ) (link : Link) (cur : ℕ) (next : Option ℕ)
    → IsChain b
    → Seen b.nodes (marking val link cur next)
    → Goes b (try_mark b val link cur next)
unfolding try_mark
try_mark-Goes b val link cur next chain seen = elim (Option-cases (get_elem? b.nodes cur)) [
  | inl missing ↦ rw (missing, try_mark) (same-Goes b (returned 1) chain tt)
  | inr (n, at) ↦ elim (Bool-cases (n.m_val == val && not n.is_deleted)) [
    | inr refused ↦
        rw (at, try_mark, refused)
          (same-Goes b (remove_from val (some cur) next) chain
            (remove_from-Seen b.nodes val (some cur) next))
    | inl marked ↦
        rw (at, try_mark, marked)
          (record {
            chain = set-IsChain b cur n (dead n) chain at (λ d. refl) (chain.next cur n at);
            grows = grows n at;
            seen = (
              omega (arith, seen.0, (grows n at).longer),
              (
                LeadsBelow-Grows b.nodes (set b.nodes cur (dead n)) cur next (grows n at)
                    (omega (arith, seen.0)) seen.1,
                λ m held.
                    let q : m ≡ dead n =
                      ground
                        (arith, held, node_set b.nodes cur (dead n) cur (node_lt b.nodes cur at)) in
                    ap (λ v. v.is_deleted) q,
              ),
            );
          })
  ]
]
  where
    dead : Node → Node
    dead n = record n { is_deleted = true }

    grows : (n : Node) → get_elem? b.nodes cur ≡ some n → Grows b.nodes (set b.nodes cur (dead n))
    grows n at = Grows-set b.nodes cur n (dead n) at (λ d. refl)

-- The exchange of a link from a node that is deleted to where that node leads.
unlink-Goes :
    (weak : Bool) (b : Bucket) (val : ℕ) (link : Link) (cur : ℕ) (next : Option ℕ)
    → IsChain b
    → Seen b.nodes (unlinking val link cur next)
    → Goes b (unlink weak b link cur next, returned 0)
unfolding unlink
unlink-Goes weak b val none cur next chain seen =
    let (n, at) = node_at b.nodes cur seen.0 in
    elim (Bool-cases (same_pointer b.sentinel (some cur) && not weak)) [
      | inr failed ↦ rw (failed, unlink) (same-Goes b (returned 0) chain tt)
      | inl done ↦
          let same = equal_pointers b.sentinel (some cur) (ground (arith, done)) in
          rw (done, unlink)
            (record {
              chain = record {
                head =
                    LeadsBelow-over b.nodes (length b.nodes) cur n next (rw⁻¹ same chain.head) at
                      (seen.1.1 n at) seen.1.0;
                next = chain.next;
              };
              grows = Grows-refl b.nodes;
              seen = tt;
            })
    ]
unlink-Goes weak b val (some p) cur next chain seen = elim (Option-cases (get_elem? b.nodes p)) [
  | inl missing ↦ rw (missing, unlink) (same-Goes b (returned 0) chain tt)
  | inr (m, held) ↦
      let (n, at) = node_at b.nodes cur seen.0 in
      elim (Bool-cases (same_pointer m.m_next (some cur) && not weak)) [
        | inr failed ↦ rw (held, unlink, failed) (same-Goes b (returned 0) chain tt)
        | inl done ↦
            let same = equal_pointers m.m_next (some cur) (ground (arith, done)) in
            let leads =
              LeadsBelow-over b.nodes p cur n next
                (subst (LeadsBelow b.nodes p) same (chain.next p m held)) at (seen.1.1 n at)
                seen.1.0 in
            rw (held, unlink, done)
              (record {
                chain = set-IsChain b p m (record m { m_next = next }) chain held (λ d. d) leads;
                grows = Grows-set b.nodes p m (record m { m_next = next }) held (λ d. d);
                seen = tt;
              })
      ]
]

pub advance-Goes :
    (weak : Bool) (b : Bucket) (t : Thread) → IsChain b → Seen b.nodes t → Goes b (advance weak b t)
unfolding advance
advance-Goes weak b (inserting val) chain seen = same-Goes b (publishing val b.sentinel) chain tt
advance-Goes weak b (removing val) chain seen =
    same-Goes b (remove_from val none b.sentinel) chain
      (remove_from-Seen b.nodes val none b.sentinel)
advance-Goes weak b (looking val) chain seen =
    same-Goes b (lookup_from val b.sentinel) chain (lookup_from-Seen b.nodes val b.sentinel)
advance-Goes weak b (publishing val old) chain seen = publish-Goes weak b val old chain
advance-Goes weak b (stepping val link cur) chain seen =
    elim (Option-cases (get_elem? b.nodes cur)) [
      | inl missing ↦ rw (missing, advance) (same-Goes b (returned 1) chain tt)
      | inr (n, at) ↦
          rw (at, advance)
            (same-Goes b (marking val link cur n.m_next) chain
              (node_lt b.nodes cur at, chain.next cur n at))
    ]
advance-Goes weak b (marking val link cur next) chain seen =
    try_mark-Goes b val link cur next chain seen
advance-Goes weak b (unlinking val link cur next) chain seen =
    unlink-Goes weak b val link cur next chain seen
advance-Goes weak b (checking val cur) chain seen = elim (Option-cases (get_elem? b.nodes cur)) [
  | inl missing ↦ rw (missing, advance) (same-Goes b (returned 1) chain tt)
  | inr (n, at) ↦ elim (Bool-cases (n.m_val == val && not n.is_deleted)) [
    | inl hit ↦ rw (at, advance, hit) (same-Goes b (returned 0) chain tt)
    | inr other ↦ rw (at, advance, other) (same-Goes b (passing val cur) chain tt)
  ]
]
advance-Goes weak b (passing val cur) chain seen = elim (Option-cases (get_elem? b.nodes cur)) [
  | inl missing ↦ rw (missing, advance) (same-Goes b (returned 1) chain tt)
  | inr (n, at) ↦
      rw (at, advance)
        (same-Goes b (lookup_from val n.m_next) chain (lookup_from-Seen b.nodes val n.m_next))
]
advance-Goes weak b (returned code) chain seen = same-Goes b (returned code) chain tt
