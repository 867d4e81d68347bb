-- ===== src/Query/Planner/Remaining.antt =====
-- A property index scan with the remaining filter checks what the whole filter checks.
use mathlib.Core.List.Memᴰ
use ad_graph_db.Base.{
  ℕ, ◌≡◌, refl, ap, List, [], ◌∷◌, Memᴰ, Memᴰ-cons, true, false, ◌&&◌, nat_eq, list_eq,
  list_beq_iff, all, retain, ◌↔◌, inl, inr, Option-cases, Bool-cases, arith,
}
use ad_graph_db.Base.Map
use ad_graph_db.Core.{Value, null, boolean, integer, float, text, Properties, Node}
use ad_graph_db.Core.Float.{FloatOps, IsIeee}
use ad_graph_db.Query.Ast.{
  ComparisonOp, eq, not_eq, lt, lt_eq, gt, gt_eq, PropertyCondition, NodeFilter, value_beq,
  compare_f64, compare_values, matches_properties, node_matches,
}
use ad_graph_db.Query.Planner.{differs_from, remaining_filter}
use ad_graph_db.Query.Planner.Plans.{op_beq-eq}

module _ (f : FloatOps) (ieee : IsIeee f) where
  open ieee use {near_cong, far_cong, lt_cong, le_cong, gt_cong, ge_cong}

  compare_f64-cong :
      (op : ComparisonOp) (a v w : ℕ)
      → f.eq v w ≡ true
      → compare_f64 f op a v ≡ compare_f64 f op a w
  unfolding compare_f64
  compare_f64-cong eq a v w h = near_cong a v w h
  compare_f64-cong not_eq a v w h = far_cong a v w h
  compare_f64-cong lt a v w h = lt_cong a v w h
  compare_f64-cong lt_eq a v w h = le_cong a v w h
  compare_f64-cong gt a v w h = gt_cong a v w h
  compare_f64-cong gt_eq a v w h = ge_cong a v w h

  -- Values that the planner takes for equal compare alike.
  compare_values-cong :
      (op : ComparisonOp) (a v w : Value)
      → value_beq f v w ≡ true
      → compare_values f op a v ≡ compare_values f op a w
  unfolding value_beq compare_values
  compare_values-cong op a null null h = refl
  compare_values-cong op a (boolean v) (boolean w) h = let e : v ≡ w = ground arith in rw e
  compare_values-cong op a (integer v) (integer w) h = let e : v ≡ w = ground arith in rw e
  compare_values-cong op a (text v) (text w) h = rw ((list_beq_iff v w).0 h)
  compare_values-cong op (float a) (float v) (float w) h = compare_f64-cong op a v w h
  compare_values-cong op (integer a) (float v) (float w) h = compare_f64-cong op (f.of_i64 a) v w h
  compare_values-cong op null (float v) (float w) h = refl
  compare_values-cong op (boolean a) (float v) (float w) h = refl
  compare_values-cong op (text a) (float v) (float w) h = refl
  compare_values-cong op a v w h = cc

  same_condition :
      (best c : PropertyCondition) (props : Properties)
      → differs_from f best c ≡ false
      → matches_properties f c props ≡ matches_properties f best props
  unfolding matches_properties
  same_condition best c props h =
      let key : c.key ≡ best.key = (list_beq_iff c.key best.key).0 (ground arith) in
      let op : c.op ≡ best.op = op_beq-eq c.op best.op (ground arith) in
      let value : value_beq f c.value best.value ≡ true = ground arith in
      elim (Option-cases (Map.get best.key props)) [
        | inl absent ↦ rw (key, absent, matches_properties)
        | inr (v, found) ↦
            rw (key, found, matches_properties, op)
              (compare_values-cong best.op v c.value best.value value)
      ]

  -- Checking all conditions is checking the picked one, and then those that differ from it.
  all-split :
      (best : PropertyCondition) (conds : List PropertyCondition) (props : Properties)
      → matches_properties f best props ≡ true
      → all (λ c. matches_properties f c props) (retain (differs_from f best) conds)
        ≡ all (λ c. matches_properties f c props) conds
  all-split best [] props h = refl
  all-split best (c ∷ conds) props h = elim (Bool-cases (differs_from f best c)) [
    | inl other ↦ rw other (ap (◌&&◌ (matches_properties f c props)) (all-split best conds props h))
    | inr same ↦ rw (same, same_condition best c props same, h) (all-split best conds props h)
  ]

  all-mem :
      (best : PropertyCondition) (conds : List PropertyCondition) (props : Properties)
      → Memᴰ best conds
      → all (λ c. matches_properties f c props) conds ≡ true
      → matches_properties f best props ≡ true
  all-mem best [] props m h = absurd (Memᴰ.not-nil m)
  all-mem best (c ∷ conds) props m h = elim ((Memᴰ-cons best c conds).0 m) [
    | inl e ↦ rw e (ground arith)
    | inr later ↦ all-mem best conds props later (ground arith)
  ]

  pub remaining_iff :
      (filter : NodeFilter) (best : PropertyCondition) (n : Node)
      → Memᴰ best filter.property_conditions
      → ((matches_properties f best n.properties ≡ true)
          × (node_matches f (remaining_filter f filter best) n ≡ true))
        ↔ (node_matches f filter n ≡ true)
  unfolding node_matches
  remaining_iff filter best n m = ground (
    arith,
    all-split best filter.property_conditions n.properties,
    all-mem best filter.property_conditions n.properties m,
  )
