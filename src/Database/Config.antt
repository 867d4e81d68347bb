-- ===== src/Database/Config.antt =====
-- src/database/config.rs.
use ad_graph_db.Base.{ℕ, List, Bool, true, false, Option, some, none, any, list_eq, nat_eq, ◌==◌}
use ad_graph_db.Core.{Text}

pub data NodeFieldIndexing : Type 0 where
  all_fields : NodeFieldIndexing
  only_fields : List Text → NodeFieldIndexing
  no_fields : NodeFieldIndexing

pub record DatabaseConfig : Type 0 where
  pub auto_compact_after_writes : Option ℕ
  pub max_full_scan_nodes : Option ℕ
  pub slow_query_warn_ms : Option ℕ
  pub indexed_node_fields : NodeFieldIndexing

abbrev pub default : DatabaseConfig
default = record {
  auto_compact_after_writes = some 10000;
  max_full_scan_nodes = none;
  slow_query_warn_ms = some 100;
  indexed_node_fields = all_fields;
}

abbrev pub unrestricted : DatabaseConfig
unrestricted = record {
  auto_compact_after_writes = none;
  max_full_scan_nodes = none;
  slow_query_warn_ms = none;
  indexed_node_fields = all_fields;
}

abbrev pub field_wanted : NodeFieldIndexing → Text → Bool
field_wanted all_fields field = true
field_wanted (only_fields fs) field = any (λ s. s == field) fs
field_wanted no_fields field = false

unfoldable pub should_index_field : DatabaseConfig → Text → Bool
should_index_field config = field_wanted config.indexed_node_fields

abbrev pub is_all : NodeFieldIndexing → Bool
is_all all_fields = true
is_all _ = false

unfoldable pub indexes_all_fields : DatabaseConfig → Bool
indexes_all_fields config = is_all config.indexed_node_fields
