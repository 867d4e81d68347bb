-- ===== src/Cache/NoCache.antt =====
-- src/adapters/cache/no_cache.rs.
use ad_graph_db.Base.{none, refl, arith}
use ad_graph_db.Cache.Port.{CachePort, CacheLaws}

pub data NoCache : Type 0 where
  no_cache : NoCache

abbrev pub port : CachePort NoCache
port = record {
  get_node = λ id c. (none, c);
  put_node = λ n c. c;
  invalidate_node = λ id c. c;
  get_edge = λ id c. (none, c);
  put_edge = λ e c. c;
  invalidate_edge = λ id c. c;
  clear = λ c. c;
}

-- A cache that holds nothing meets the contract.
pub laws : CacheLaws port
laws = record {
  held = λ c id. none;
  get_returns = λ id c. refl;
  get_keeps = λ id j c. refl;
  put_self = λ n v c h. ground arith;
  put_other = λ n v j c ne h. h;
  invalidated = λ id c. refl;
  invalidate_other = λ id j v c h. h;
  get_edge_keeps = λ id j c. refl;
  put_edge_keeps = λ e j c. refl;
  invalidate_edge_keeps = λ id j c. refl;
  cleared = λ j c. refl;
}
