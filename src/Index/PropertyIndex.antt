-- ===== src/Index/PropertyIndex.antt =====
-- src/adapters/index/property_index.rs. The loops over a property map follow its list; `impl Ord for
-- OrderedF64` is `f64_cmp`.
use Prim.Native.Nat.{Ordering}
use ad_graph_db.Base.{
  ℕ, ◌+◌, List, [], ◌∷◌, ◌++◌, Bool, true, false, not, Option, none, some, get_or, nat_eq, list_eq,
  ◌==◌, length, retain, is_empty, if◌then◌else◌,
}
use ad_graph_db.Base.Map
use ad_graph_db.Core.{NodeId, Text, Value, null, boolean, integer, float, text, Properties}
use ad_graph_db.Core.Float.{FloatOps}
use ad_graph_db.Query.Ast.{ComparisonOp, eq, not_eq, text_cmp, bool_cmp, i64_cmp, compare_ord}
use ad_graph_db.Index.BTree
use ad_graph_db.Index.BTree.{Compare}

-- NaN is sorted below all others.
abbrev pub nan_cmp : Bool → Bool → Ordering
nan_cmp true false = Ordering.lt
nan_cmp false true = Ordering.gt
nan_cmp _ _ = Ordering.eq

-- `partial_cmp`, and the order of NaN where that gives none.
unfoldable pub f64_cmp : FloatOps → Compare ℕ
f64_cmp f a b =
    if f.lt a b
    then Ordering.lt
    else if f.eq a b
    then Ordering.eq
    else if f.lt b a
    then Ordering.gt
    else nan_cmp (f.is_nan a) (f.is_nan b)

abbrev pub Buckets : Type 0 → Type 0
Buckets K = List (K × List NodeId)

pub record FieldIndex : Type 0 where
  pub integers : Buckets ℕ
  pub floats : Buckets ℕ
  pub texts : Buckets Text
  pub bools : Buckets Bool
  pub nulls : List NodeId

abbrev pub empty_field : FieldIndex
empty_field = record { integers = []; floats = []; texts = []; bools = []; nulls = [] }

abbrev pub without : NodeId → List NodeId → List NodeId
without id = retain (λ n. not (n == id))

abbrev pub flatten_ids : {K : Type 0} → Buckets K → List NodeId
flatten_ids [] = []
flatten_ids ((_, ids) ∷ m) = ids ++ flatten_ids m

module _ {K : Type 0} (cmp : Compare K) where
  unfoldable pub bucket_insert : K → NodeId → Buckets K → Buckets K
  bucket_insert key id = BTree.entry cmp key [] (λ ids. ids ++ id ∷ [])

  unfoldable pub bucket_remove : K → NodeId → Buckets K → Buckets K
  bucket_remove key id m = elim (BTree.get cmp key m) [
    | none ↦ m
    | some ids ↦
        let kept = BTree.update cmp key (without id) m in
        if is_empty (without id ids) then BTree.remove cmp key kept else kept
  ]

  -- `!=` on keys is `differs`, which for floats is not the order's.
  unfoldable pub range_query_btree : (K → K → Bool) → ComparisonOp → K → Buckets K → List NodeId
  range_query_btree differs eq key m = get_or (BTree.get cmp key m) []
  range_query_btree differs not_eq key m = flatten_ids (retain (λ e. differs e.0 key) m)
  range_query_btree differs op key m = flatten_ids (retain (λ e. compare_ord op (cmp e.0 key)) m)

abbrev pub bool_differs : Bool → Bool → Bool
bool_differs a b = if a then not b else b

module _ (f : FloatOps) where
  unfoldable pub field_insert : NodeId → Value → FieldIndex → FieldIndex
  field_insert id (integer v) fi = record fi { integers = bucket_insert i64_cmp v id fi.integers }
  field_insert id (float v) fi = record fi { floats = bucket_insert (f64_cmp f) v id fi.floats }
  field_insert id (text v) fi = record fi { texts = bucket_insert text_cmp v id fi.texts }
  field_insert id (boolean v) fi = record fi { bools = bucket_insert bool_cmp v id fi.bools }
  field_insert id null fi = record fi { nulls = fi.nulls ++ id ∷ [] }

  unfoldable pub field_remove : NodeId → Value → FieldIndex → FieldIndex
  field_remove id (integer v) fi = record fi { integers = bucket_remove i64_cmp v id fi.integers }
  field_remove id (float v) fi = record fi { floats = bucket_remove (f64_cmp f) v id fi.floats }
  field_remove id (text v) fi = record fi { texts = bucket_remove text_cmp v id fi.texts }
  field_remove id (boolean v) fi = record fi { bools = bucket_remove bool_cmp v id fi.bools }
  field_remove id null fi = record fi { nulls = without id fi.nulls }

  abbrev pub null_query : ComparisonOp → List NodeId → List NodeId
  null_query eq ids = ids
  null_query _ ids = []

  unfoldable pub field_query : ComparisonOp → Value → FieldIndex → List NodeId
  field_query op (integer v) fi = range_query_btree i64_cmp (λ a b. not (a == b)) op v fi.integers
  field_query op (float v) fi = range_query_btree (f64_cmp f) (λ a b. not (f.eq a b)) op v fi.floats
  field_query op (text v) fi = range_query_btree text_cmp (λ a b. not (a == b)) op v fi.texts
  field_query op (boolean v) fi = range_query_btree bool_cmp bool_differs op v fi.bools
  field_query op null fi = null_query op fi.nulls

-- `PropertyIndex`: a field index for each field name.
abbrev pub PropertyIndex : Type 0
PropertyIndex = List (Text × FieldIndex)

module _ (f : FloatOps) where
  unfoldable pub insert_node : NodeId → Properties → PropertyIndex → PropertyIndex
  insert_node id [] idx = idx
  insert_node id ((field, value) ∷ props) idx =
      insert_node id props (Map.entry field empty_field (field_insert f id value) idx)

  unfoldable pub remove_node : NodeId → Properties → PropertyIndex → PropertyIndex
  remove_node id [] idx = idx
  remove_node id ((field, value) ∷ props) idx =
      remove_node id props (Map.update field (field_remove f id value) idx)

  unfoldable pub query : Text → ComparisonOp → Value → PropertyIndex → Option (List NodeId)
  query field op value idx = elim (Map.get field idx) [
    | none ↦ none
    | some fi ↦ some (field_query f op value fi)
  ]

unfoldable pub is_indexed : Text → PropertyIndex → Bool
is_indexed field idx = Map.contains_key field idx

unfoldable pub indexed_fields : PropertyIndex → List Text
indexed_fields idx = Map.keys idx

unfoldable pub field_cardinality : Text → PropertyIndex → ℕ
field_cardinality field idx = elim (Map.get field idx) [
  | none ↦ 0
  | some fi ↦
      length fi.integers
      + length fi.floats
      + length fi.texts
      + length fi.bools
      + (if is_empty fi.nulls then 0 else 1)
]
