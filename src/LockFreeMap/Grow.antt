-- ===== src/LockFreeMap/Grow.antt =====
-- What the list of nodes of task04-concurrency/src/lockfreehashmap.c keeps when a node is changed or added.
use systems_programming_labs.Prelude.{
  ℕ, zero, suc, ◌<◌, ◌≡◌, refl, ◌∙◌, ap, true, some, List, [], ◌∷◌, ◌++◌, ◌==◌, if◌then◌else◌,
  length, get_elem?, set, length-set, length-append, ℕ_discrete, arith,
}
use systems_programming_labs.LockFreeMap.Bucket.{
  Node, Bucket, Thread, inserting, removing, looking, publishing, stepping, marking, unlinking,
  checking, passing, returned,
}
use systems_programming_labs.LockFreeMap.Chain.{LeadsBelow, IsChain, Grows, LeadsBelow-Grows}

-- What a thread that removes has seen of the node that it is at.
abbrev pub Seen : List Node → Thread → Type 0
Seen nodes (inserting val) = Unit {0}
Seen nodes (removing val) = Unit {0}
Seen nodes (looking val) = Unit {0}
Seen nodes (publishing val old) = Unit {0}
Seen nodes (stepping val link cur) = Unit {0}
Seen nodes (marking val link cur next) = (cur < length nodes) × LeadsBelow nodes cur next
Seen nodes (unlinking val link cur next) =
    (cur < length nodes)
    × (LeadsBelow nodes cur next
        × ((n : Node) → get_elem? nodes cur ≡ some n → n.is_deleted ≡ true))
Seen nodes (checking val cur) = Unit {0}
Seen nodes (passing val cur) = Unit {0}
Seen nodes (returned code) = Unit {0}

pub Seen-Grows :
    (nodes nodes' : List Node) (t : Thread) → Grows nodes nodes' → Seen nodes t → Seen nodes' t
Seen-Grows nodes nodes' (inserting val) g s = tt
Seen-Grows nodes nodes' (removing val) g s = tt
Seen-Grows nodes nodes' (looking val) g s = tt
Seen-Grows nodes nodes' (publishing val old) g s = tt
Seen-Grows nodes nodes' (stepping val link cur) g s = tt
Seen-Grows nodes nodes' (marking val link cur next) g s = (
  omega (arith, s.0, g.longer),
  LeadsBelow-Grows nodes nodes' cur next g (omega (arith, s.0)) s.1,
)
Seen-Grows nodes nodes' (unlinking val link cur next) g s = (
  omega (arith, s.0, g.longer),
  (
    LeadsBelow-Grows nodes nodes' cur next g (omega (arith, s.0)) s.1.0,
    λ n' held. let (n, was, keep) = g.stays cur n' s.0 held in keep (s.1.1 n was),
  ),
)
Seen-Grows nodes nodes' (checking val cur) g s = tt
Seen-Grows nodes nodes' (passing val cur) g s = tt
Seen-Grows nodes nodes' (returned code) g s = tt

-- A bucket and a thread after an operation.
pub record Goes (b : Bucket) (to : Bucket × Thread) : Type 0 where
  pub chain : IsChain to.0
  pub grows : Grows b.nodes to.0.nodes
  pub seen : Seen to.0.nodes to.1

pub Grows-refl : (nodes : List Node) → Grows nodes nodes
Grows-refl nodes = record { longer = omega arith; stays = λ z n' lt held. (n', held, λ d. d) }

pub node_set :
    (nodes : List Node) (i : ℕ) (n : Node) (j : ℕ)
    → i < length nodes
    → get_elem? (set nodes i n) j ≡ (if j == i then some n else get_elem? nodes j)
node_set [] i n j h = absurd (omega arith)
node_set (m ∷ nodes) zero n zero h = refl
node_set (m ∷ nodes) zero n (suc j) h = ground arith
node_set (m ∷ nodes) (suc i) n zero h = ground arith
node_set (m ∷ nodes) (suc i) n (suc j) h = ground (arith, node_set nodes i n j (omega arith))

pub node_lt : (nodes : List Node) (i : ℕ) {n : Node} → get_elem? nodes i ≡ some n → i < length nodes
node_lt [] i h = cc
node_lt (m ∷ nodes) zero h = omega arith
node_lt (m ∷ nodes) (suc i) h = omega (arith, node_lt nodes i h)

pub node_end :
    (nodes : List Node) (new : Node) (j : ℕ)
    → get_elem? (nodes ++ (new ∷ [])) j
      ≡ (if j == length nodes then some new else get_elem? nodes j)
node_end [] new zero = refl
node_end [] new (suc j) = ground arith
node_end (n ∷ nodes) new zero = ground arith
node_end (n ∷ nodes) new (suc j) = ground (arith, node_end nodes new j)

pub Grows-set :
    (nodes : List Node) (i : ℕ) (n n' : Node)
    → get_elem? nodes i ≡ some n
    → (n.is_deleted ≡ true → n'.is_deleted ≡ true)
    → Grows nodes (set nodes i n')
Grows-set nodes i n n' at keep = record {
  longer = omega (arith, length-set nodes i n');
  stays = λ z m lt held. elim (ℕ_discrete z i) [
    | yes here ↦
        let q : m ≡ n' = ground (arith, held, here, node_set nodes i n' z (node_lt nodes i at)) in
        (n, ap (get_elem? nodes) here ∙ at, rw q keep)
    | no other ↦
        (m, ground (arith, held, other, node_set nodes i n' z (node_lt nodes i at)), λ d. d)
  ];
}

pub Grows-end : (nodes : List Node) (new : Node) → Grows nodes (nodes ++ (new ∷ []))
Grows-end nodes new = record {
  longer = omega (arith, length-append nodes (new ∷ []));
  stays = λ z m lt held. (m, ground (arith, held, lt, node_end nodes new z), λ d. d);
}
