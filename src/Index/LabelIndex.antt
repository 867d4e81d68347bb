-- ===== src/Index/LabelIndex.antt =====
-- src/adapters/index/label_index.rs.
pub mod Tracks
use ad_graph_db.Base.{
  ℕ, List, [], ◌∷◌, ◌++◌, Bool, not, Option, none, some, get_or, nat_eq, list_eq, ◌==◌, length,
  retain, is_empty, if◌then◌else◌,
}
use ad_graph_db.Base.Map
use ad_graph_db.Core.{NodeId, Text}

pub record LabelIndex : Type 0 where
  pub index : List (Text × List NodeId)

abbrev pub new : LabelIndex
new = record { index = [] }

unfoldable pub insert : NodeId → Text → LabelIndex → LabelIndex
insert id label idx = record { index = Map.entry label [] (λ ids. ids ++ id ∷ []) idx.index }

-- `ids.retain(|&stored| stored != id)`
abbrev pub without : NodeId → List NodeId → List NodeId
without id = retain (λ stored. not (stored == id))

unfoldable pub remove : NodeId → Text → LabelIndex → LabelIndex
remove id label idx = elim (Map.get label idx.index) [
  | none ↦ idx
  | some ids ↦
      let kept = Map.update label (without id) idx.index in
      if is_empty (without id ids)
      then record { index = Map.remove label kept }
      else record { index = kept }
]

unfoldable pub get : LabelIndex → Text → List NodeId
get idx label = get_or (Map.get label idx.index) []

unfoldable pub label_count : LabelIndex → Text → ℕ
label_count idx label = elim (Map.get label idx.index) [ none ↦ 0 | some ids ↦ length ids ]

unfoldable pub all_labels : LabelIndex → List Text
all_labels idx = Map.keys idx.index
