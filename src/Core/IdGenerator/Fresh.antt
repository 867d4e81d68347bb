-- ===== src/Core/IdGenerator/Fresh.antt =====
-- Identifiers are fresh: seeding past the stored records, then allocating, never meets one of them.
use mathlib.Core.List.{foldl}
use mathlib.Core.List.Memᴰ
use ad_graph_db.Base.{◌+◌, ◌^◌, ◌≤◌, ◌<◌, ◌≢◌, List, [], ◌∷◌, Memᴰ, Memᴰ-cons, arith, inl, inr}
use ad_graph_db.Core.Types.{NodeId}
use ad_graph_db.Core.IdGenerator.{IdGenerator, next_node_id, seed_from_node}

-- The ids are below the last `u64`, so that no counter wraps.
abbrev pub InRange : List NodeId → Type 0
InRange [] = Unit
InRange (x ∷ xs) = (x + 1 < 2 ^ 64) × InRange xs

-- The loop of `open_with_config` over the stored nodes.
abbrev pub seed_all : IdGenerator → List NodeId → IdGenerator
seed_all = foldl seed_from_node

seed_all_mono :
    (g : IdGenerator) (ids : List NodeId) → InRange ids → g.next_node ≤ (seed_all g ids).next_node
unfolding seed_from_node
seed_all_mono g [] h = omega arith
seed_all_mono g (x ∷ xs) (hx, h) = ground (arith, seed_all_mono (seed_from_node g x) xs h)

seed_all_above :
    (g : IdGenerator) (ids : List NodeId) (x : NodeId)
    → InRange ids
    → Memᴰ x ids
    → x < (seed_all g ids).next_node
unfolding seed_from_node
seed_all_above g [] x h m = absurd (Memᴰ.not-nil m)
seed_all_above g (y ∷ ys) x (hy, h) m = elim ((Memᴰ-cons x y ys).0 m) [
  | inl e ↦ ground (arith, seed_all_mono (seed_from_node g y) ys h)
  | inr later ↦ seed_all_above (seed_from_node g y) ys x h later
]

-- The id that `next_node_id` hands out after the generator was seeded with every stored id is none of
-- them, whatever the generator was before, if each stored id is below the largest u64.
pub next_node_id-fresh :
    (g : IdGenerator) (ids : List NodeId) (x : NodeId)
    → InRange ids
    → Memᴰ x ids
    → (next_node_id (seed_all g ids)).0 ≢ x
unfolding next_node_id
next_node_id-fresh g ids x h m = λ e. absurd (omega (arith, seed_all_above g ids x h m))
