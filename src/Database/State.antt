-- ===== src/Database/State.antt =====
-- The struct of src/database/layered.rs, over the three ports, and the steps that its methods are
-- made of.
use ad_graph_db.Base.{ℕ}
use ad_graph_db.Core.{Result, ok, err}
use ad_graph_db.Core.Float.{FloatOps}
use ad_graph_db.Core.IdGenerator.{IdGenerator}
use ad_graph_db.Engine.Port.{GraphEnginePort}
use ad_graph_db.Cache.Port.{CachePort}
use ad_graph_db.Storage.Port.{StoragePort}
use ad_graph_db.Index.LabelIndex.{LabelIndex}
use ad_graph_db.Index.PropertyIndex.{PropertyIndex}
use ad_graph_db.Database.Config.{DatabaseConfig}
use ad_graph_db.Database.Metrics.{DatabaseMetrics}

-- The adapters that the application is assembled from, and the processor's floating point.
pub record Adapters (E C S : Type 0) : Type 0 where
  pub engine : GraphEnginePort E
  pub cache : CachePort C
  pub storage : StoragePort S
  pub floats : FloatOps

pub record Database (E C S : Type 0) : Type 0 where
  pub engine : E
  pub cache : C
  pub storage : S
  pub label_index : LabelIndex
  pub property_index : PropertyIndex
  pub id_generator : IdGenerator
  pub config : DatabaseConfig
  pub metrics : DatabaseMetrics
  pub writes_since_compact : ℕ

-- `?`: what follows a step that succeeds.
abbrev pub and_then : {D A B : Type 0} → Result A × D → (A → D → Result B × D) → Result B × D
and_then (ok a, d) next = next a d
and_then (err e, d) next = (err e, d)

-- A call of the storage, in the database.
abbrev pub on_storage :
    {E C S A : Type 0} → (S → Result A × S) → Database E C S → Result A × Database E C S
on_storage step d = let (r, s) = step d.storage in (r, record d { storage = s })
