-- ===== src/LockFreeMap/Chain.antt =====
-- The invariant of the nodes and links of task04-concurrency/src/lockfreehashmap.c: links point to earlier
-- nodes, and skip deleted nodes only.
use systems_programming_labs.Prelude.{
  ℕ, zero, suc, ◌≤◌, ◌<◌, ◌≡◌, refl, ◌∙◌, ap, Bool, true, false, Option, none, some, List, [], ◌∷◌,
  ◌==◌, if◌then◌else◌, length, get_elem?, ℕ_discrete, dec_lt, arith,
}
use systems_programming_labs.LockFreeMap.Bucket.{Node, Bucket}

-- One more than the position that a pointer stands for; 0 for null.
abbrev pub above : Option ℕ → ℕ
above none = 0
above (some x) = suc x

-- The nodes from `lo` on and below `hi` are deleted.
abbrev pub DeadBetween : List Node → ℕ → ℕ → Type 0
DeadBetween nodes lo hi =
    (z : ℕ) (n : Node) → lo ≤ z → z < hi → get_elem? nodes z ≡ some n → n.is_deleted ≡ true

-- A pointer that nodes below `hi` are found by.
pub record LeadsBelow (nodes : List Node) (hi : ℕ) (link : Option ℕ) : Type 0 where
  pub low : above link ≤ hi
  pub dead : DeadBetween nodes (above link) hi

pub record IsChain (b : Bucket) : Type 0 where
  pub head : LeadsBelow b.nodes (length b.nodes) b.sentinel
  pub next : (x : ℕ) (n : Node) → get_elem? b.nodes x ≡ some n → LeadsBelow b.nodes x n.m_next

-- Whether a walk of so many nodes from a pointer comes to a node.
unfoldable pub reaches : ℕ → List Node → Option ℕ → ℕ → Bool
reaches zero nodes link z = false
reaches (suc k) nodes none z = false
reaches (suc k) nodes (some c) z = elim (get_elem? nodes c) [
  | none ↦ false
  | some n ↦ let rest = reaches k nodes n.m_next z in if c == z then true else rest
]

-- What the list of nodes keeps: nodes stay, and stay deleted.
pub record Grows (nodes nodes' : List Node) : Type 0 where
  pub longer : length nodes ≤ length nodes'
  pub stays :
      (z : ℕ) (n' : Node)
      → z < length nodes
      → get_elem? nodes' z ≡ some n'
      → (n : Node) × (get_elem? nodes z ≡ some n) × (n.is_deleted ≡ true → n'.is_deleted ≡ true)

pub LeadsBelow-Grows :
    (nodes nodes' : List Node) (hi : ℕ) (link : Option ℕ)
    → Grows nodes nodes'
    → hi ≤ length nodes
    → LeadsBelow nodes hi link
    → LeadsBelow nodes' hi link
LeadsBelow-Grows nodes nodes' hi link g within l = record {
  low = l.low;
  dead = λ z n' from to held.
      let (n, was, keep) = g.stays z n' (omega arith) held in keep (l.dead z n from to was);
}

-- A link over a deleted node: what it led to before and what the node leads to.
pub LeadsBelow-over :
    (nodes : List Node) (hi c : ℕ) (n : Node) (link : Option ℕ)
    → LeadsBelow nodes hi (some c)
    → get_elem? nodes c ≡ some n
    → n.is_deleted ≡ true
    → LeadsBelow nodes c link
    → LeadsBelow nodes hi link
LeadsBelow-over nodes hi c n link first held gone second = record {
  low = omega (arith, first.low, second.low);
  dead = λ z m from to is. elim (dec_lt z c) [
    | yes before ↦ second.dead z m from before is
    | no after ↦ elim (ℕ_discrete z c) [
      | yes here ↦ let q : m ≡ n = ground (arith, here, is, held) in ap (λ v. v.is_deleted) q ∙ gone
      | no behind ↦ first.dead z m (omega (arith, after, behind)) to is
    ]
  ];
}

pub node_at :
    (nodes : List Node) (c : ℕ) → c < length nodes → (m : Node) × (get_elem? nodes c ≡ some m)
node_at [] c h = absurd (omega arith)
node_at (n ∷ nodes) zero h = (n, refl)
node_at (n ∷ nodes) (suc c) h = node_at nodes c (omega arith)

clash : {t : Bool} → t ≡ true → t ≡ false → ⊥
clash a b = cc

-- Under null nothing lives.
live_none :
    (nodes : List Node) (hi z : ℕ) (n : Node)
    → LeadsBelow nodes hi none
    → z < hi
    → get_elem? nodes z ≡ some n
    → n.is_deleted ≡ false
    → ⊥
live_none nodes hi z n l lt held live = clash (l.dead z n (omega arith) lt held) live

-- Every node that is not deleted is reached by a walk as long as its start is high.
pub LeadsBelow-reaches :
    (k : ℕ) (b : Bucket) (hi : ℕ) (link : Option ℕ) (z : ℕ) (n : Node)
    → IsChain b
    → LeadsBelow b.nodes hi link
    → hi ≤ length b.nodes
    → above link ≤ k
    → z < hi
    → get_elem? b.nodes z ≡ some n
    → n.is_deleted ≡ false
    → reaches k b.nodes link z ≡ true
unfolding reaches
LeadsBelow-reaches zero b hi none z n chain l within enough lt held live =
    absurd (live_none b.nodes hi z n l lt held live)
LeadsBelow-reaches zero b hi (some c) z n chain l within enough lt held live = absurd (omega arith)
LeadsBelow-reaches (suc k) b hi none z n chain l within enough lt held live =
    absurd (live_none b.nodes hi z n l lt held live)
LeadsBelow-reaches (suc k) b hi (some c) z n chain l within enough lt held live =
    let (m, is) = node_at b.nodes c (omega (arith, l.low)) in
    elim (ℕ_discrete c z) [
      | yes here ↦ rw (is, reaches) (ground (arith, here))
      | no other ↦
          let before : z < c = elim (dec_lt z c) [
            | yes lower ↦ lower
            | no higher ↦ absurd (clash (l.dead z n (omega (arith, other, higher)) lt held) live)
          ] in
          let rest =
            LeadsBelow-reaches k b c m.m_next z n chain (chain.next c m is) (omega (arith, l.low))
              (omega (arith, (chain.next c m is).low)) before held live in
          rw (is, reaches) (ground (arith, rest))
    ]
