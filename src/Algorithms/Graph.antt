-- ===== src/Algorithms/Graph.antt =====
-- What the traversals share: the `HashSet` of visited nodes, as a list in the order of insertion, and the
-- walks of a graph.
use ad_graph_db.Base.{
  ℕ, ◌≤◌, ◌<◌, ◌≡◌, refl, List, [], ◌∷◌, ◌++◌, map, Bool, true, false, not, ◌||◌, nat_eq,
  nat_beq_iff, ◌==◌, length, retain, if◌then◌else◌, arith,
}
use ad_graph_db.Core.{NodeId}
use ad_graph_db.Engine.Port.{Neighbor}

abbrev pub contains : List NodeId → NodeId → Bool
contains [] v = false
contains (x ∷ xs) v = if x == v then true else contains xs v

-- Each id once.
abbrev pub IsDistinct : List NodeId → Type 0
IsDistinct [] = Unit
IsDistinct (x ∷ xs) = (contains xs x ≡ false) × IsDistinct xs

abbrev pub targets : List Neighbor → List NodeId
targets = map (λ n. n.node_id)

-- The walks from `start` along outgoing edges.
pub data Reach (outgoing : NodeId → List Neighbor) (start : NodeId) : NodeId → Type 0 where
  here : Reach outgoing start start
  step :
      {u v : NodeId}
      → Reach outgoing start u
      → contains (targets (outgoing u)) v ≡ true
      → Reach outgoing start v

pub contains-append :
    (xs ys : List NodeId) (v : NodeId) → contains (xs ++ ys) v ≡ (contains xs v || contains ys v)
contains-append [] ys v = refl
contains-append (x ∷ xs) ys v = ground (arith, contains-append xs ys v)

pub IsDistinct-concat :
    (xs : List NodeId) (v : NodeId)
    → contains xs v ≡ false
    → IsDistinct xs
    → IsDistinct (xs ++ v ∷ [])
IsDistinct-concat [] v new d = (refl, tt)
IsDistinct-concat (x ∷ xs) v new (dx, d) =
    (ground (arith, contains-append xs (v ∷ []) x), IsDistinct-concat xs v (ground arith) d)

pub IsDistinct-left : (xs ys : List NodeId) → IsDistinct (xs ++ ys) → IsDistinct xs
IsDistinct-left [] ys d = tt
IsDistinct-left (x ∷ xs) ys (new, d) =
    (ground (arith, contains-append xs ys x), IsDistinct-left xs ys d)

-- The nodes of a list that are not visited yet, counted.
abbrev pub unseen : List NodeId → List NodeId → ℕ
unseen universe visited = length (retain (λ u. not (contains visited u)) universe)

pub unseen-le :
    (universe visited : List NodeId) (v : NodeId)
    → unseen universe (visited ++ v ∷ []) ≤ unseen universe visited
unseen-le [] visited v = omega arith
unseen-le (u ∷ universe) visited v =
    ground (arith, contains-append visited (v ∷ []) u, unseen-le universe visited v)

pub unseen-lt :
    (universe visited : List NodeId) (v : NodeId)
    → contains universe v ≡ true
    → contains visited v ≡ false
    → unseen universe (visited ++ v ∷ []) < unseen universe visited
unseen-lt [] visited v known new = absurd (ground arith)
unseen-lt (u ∷ universe) visited v known new = ground (
  arith,
  nat_beq_iff u v,
  contains-append visited (v ∷ []) u,
  unseen-le universe visited v,
  unseen-lt universe visited v,
)
