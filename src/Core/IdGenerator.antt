-- ===== src/Core/IdGenerator.antt =====
-- src/core/id_generator.rs: two counters, one for nodes and one for edges. An increment wraps at
-- 2 ^ 64, as a release build does.
pub mod Fresh
use ad_graph_db.Base.{ℕ, ◌+◌, ◌%◌, ◌^◌, leb, if◌then◌else◌}
use ad_graph_db.Core.Types.{NodeId, EdgeId}

pub record IdGenerator : Type 0 where
  pub next_node : ℕ
  pub next_edge : ℕ

abbrev pub new : IdGenerator
new = record { next_node = 0; next_edge = 0 }

unfoldable pub next_node_id : IdGenerator → NodeId × IdGenerator
next_node_id g = (g.next_node, record g { next_node = (g.next_node + 1) % 2 ^ 64 })

unfoldable pub next_edge_id : IdGenerator → EdgeId × IdGenerator
next_edge_id g = (g.next_edge, record g { next_edge = (g.next_edge + 1) % 2 ^ 64 })

unfoldable pub seed_from_node : IdGenerator → NodeId → IdGenerator
seed_from_node g seen =
    if leb g.next_node seen then record g { next_node = (seen + 1) % 2 ^ 64 } else g

unfoldable pub seed_from_edge : IdGenerator → EdgeId → IdGenerator
seed_from_edge g seen =
    if leb g.next_edge seen then record g { next_edge = (seen + 1) % 2 ^ 64 } else g
