-- ===== src/Tests/Query.antt =====
-- A query on a list of nodes as the database.

use ad_graph_db.Base.{
  ℕ, ◌+◌, ◌≡◌, refl, List, [], ◌∷◌, true, false, not, none, some, arith, nat_beq, nat_beq_iff,
  nat_eq, list_eq, ◌==◌, ltb, leb, length, retain,
}
use ad_graph_db.Core.{integer, Node, ok}
use ad_graph_db.Core.Float.{FloatOps, IsIeee}
use ad_graph_db.Query.Ast.{gt, PropertyCondition, NodeFilter, matches_properties}
use ad_graph_db.Query.Context.{DatabaseContext}

-- Floating point on whole numbers.
abbrev pub whole : FloatOps
whole = record {
  add = λ a b. a + b;
  lt = ltb;
  le = leb;
  eq = nat_beq;
  near = nat_beq;
  far = λ a b. not (nat_beq a b);
  is_nan = λ a. false;
  of_i64 = λ i. i;
  log2_ceil = λ n. 1;
}

whole-eq : (a b : ℕ) → whole.eq a b ≡ true → a ≡ b
whole-eq a b h = (nat_beq_iff a b).0 h

pub whole-IsIeee : IsIeee whole
whole-IsIeee = record {
  eq_sym = λ a b h. ground (arith, whole-eq a b h, nat_beq_iff b a);
  near_cong = λ a b c h. rw (whole-eq b c h) refl;
  far_cong = λ a b c h. rw (whole-eq b c h) refl;
  lt_cong = λ a b c h. rw (whole-eq b c h) refl;
  le_cong = λ a b c h. rw (whole-eq b c h) refl;
  gt_cong = λ a b c h. rw (whole-eq b c h) refl;
  ge_cong = λ a b c h. rw (whole-eq b c h) refl;
  eq_cong = λ a b c h. rw (whole-eq b c h) refl;
}

-- The database is its nodes; an index answers by filtering them.
abbrev pub listed : DatabaseContext (List Node)
listed = record {
  get_node = λ id d. (ok none, d);
  get_all_nodes = λ d. (ok d, d);
  get_nodes_by_label = λ l d. (ok (retain (λ n. n.label == l) d), d);
  get_nodes_by_property = λ key op value d. (
    ok (
        retain
          (λ n.
            matches_properties whole (record { key = key; op = op; value = value }) n.properties)
          d),
    d,
  );
  get_edge = λ id d. (ok none, d);
  get_all_edges = λ d. (ok [], d);
  node_count = λ d. length d;
  edge_count = λ d. 0;
  traverse_bfs = λ start d. [];
  traverse_dfs = λ start d. [];
  shortest_path_dijkstra = λ start goal d. none;
  stats = λ d. record {
    node_count = length d;
    edge_count = 0;
    label_counts = [];
    indexed_node_fields = (b'k' ∷ []) ∷ [];
  };
}

abbrev ann : Node
ann = record { id = 1; label = b'P' ∷ []; properties = (b'k' ∷ [], integer 7) ∷ [] }

-- Its value is above 5.
abbrev pub above_five : PropertyCondition
above_five = record { key = b'k' ∷ []; op = gt; value = integer 5 }

-- Nodes labelled P whose `k` is above 5.
abbrev pub above : NodeFilter
above = record { label = some (b'P' ∷ []); property_conditions = above_five ∷ [] }
