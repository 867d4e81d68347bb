-- ===== src/Language/Simple/Conditions.antt =====
-- That the conditions behind a `WHERE` are read back, each by one round of the loop.
use mathlib.Core.List.{append_assoc, append-nil}
use ad_graph_db.Base.{ℕ, ◌≡◌, refl, sym, List, [], ◌∷◌, ◌++◌, map, true, Option, none, some, arith}
use ad_graph_db.Core.{Text, ok}
use ad_graph_db.Query.Ast.{eq, NodeFilter, EdgeFilter, PropertyCondition, WeightCondition}
use ad_graph_db.Language.Chars.{
  codes, is_ascii, TextOps, to_lowercase, ascii_lower, eq_ignore_ascii_case,
}
use ad_graph_db.Language.Parser.{Parser}
use ad_graph_db.Language.Simple.{
  skip_keyword, filter_chain, optional_filter, is_property, parse_label, parse_property,
  parse_weight, apply_node_condition, apply_edge_condition, node_default, edge_default,
}
use ad_graph_db.Language.Simple.Values.{
  parse_op-op_token, parse_string_lit-quoted, parse_value_lit-value_token,
}
use ad_graph_db.Language.Parser.Between.{Takes, done, one, repeat-between, length-append-between}
use ad_graph_db.Language.Simple.Tokens.{quoted}
use ad_graph_db.Language.Simple.Print.{
  op_token, where_tokens, label_tokens, weight_tokens, property_tokens, value_token, if_some,
  IsFloat, IsWritable, IsCondition, AreConditions, IsWeight,
}

pub optional_filter-where_tokens :
    {F : Type 0} {apply : F → Parser Text F} (f g : F) (cs : List (List Text))
    → Takes apply f cs g
    → optional_filter apply f (where_tokens cs) ≡ ok (g, [])
unfolding optional_filter filter_chain skip_keyword eq_ignore_ascii_case ascii_lower
optional_filter-where_tokens f _ [] done = refl
optional_filter-where_tokens {F = F} {apply = apply} f g (c ∷ cs) h =
    repeat-between apply (skip_keyword (codes "AND")) (codes "AND") [] _ f g c cs (λ tokens. refl)
      refl h (omega (arith, length-append-between (codes "AND") c cs []))

parse_label-quoted :
    (ops : TextOps) (l : Text) (rest : List Text)
    → parse_label ops (codes "=" ∷ quoted l ∷ rest) ≡ ok (l, rest)
unfolding parse_label
parse_label-quoted ops l rest =
    rw (parse_op-op_token eq (quoted l ∷ rest)) (parse_string_lit-quoted l rest)

-- A text that is ASCII goes to lower case by its bytes.
is_property-props :
    (ops : TextOps) (key : Text)
    → is_ascii key ≡ true
    → is_property ops (codes "props." ++ key) ≡ true
unfolding to_lowercase ascii_lower
is_property-props ops key ascii = rw ascii refl

module _ (f64_text : ℕ → Text) (ops : TextOps) where
  parse_property-property_tokens :
      (c : PropertyCondition) (rest : List Text)
      → IsWritable f64_text ops c.value
      → parse_property ops
          (codes "props." ++ c.key)
          (op_token c.op ∷ value_token f64_text c.value ∷ rest)
        ≡ ok (c, rest)
  unfolding parse_property
  parse_property-property_tokens c rest h =
      rw
        (
          parse_op-op_token c.op (value_token f64_text c.value ∷ rest),
          parse_value_lit-value_token ops f64_text c.value rest h,
        )
        refl

  parse_weight-weight_tokens :
      (w : WeightCondition) (rest : List Text)
      → IsFloat f64_text ops w.value
      → parse_weight ops (op_token w.op ∷ f64_text w.value ∷ rest) ≡ ok (w, rest)
  unfolding parse_weight
  parse_weight-weight_tokens w rest h =
      rw (parse_op-op_token w.op (f64_text w.value ∷ rest), h.spelled, h.read) refl

  node_property :
      (c : PropertyCondition) (f : NodeFilter) (rest : List Text)
      → IsCondition f64_text ops c
      → apply_node_condition ops f (property_tokens f64_text c ++ rest)
        ≡ ok (record f { property_conditions = f.property_conditions ++ c ∷ [] }, rest)
  unfolding apply_node_condition eq_ignore_ascii_case ascii_lower
  node_property c f rest h =
      rw (is_property-props ops c.key h.key_ascii, parse_property-property_tokens c rest h.writable)
        refl

  -- The conditions on the properties come one behind the other.
  node_properties :
      (cs : List PropertyCondition) (f : NodeFilter)
      → AreConditions f64_text ops cs
      → Takes
          (apply_node_condition ops)
          f
          (map (property_tokens f64_text) cs)
          (record f { property_conditions = f.property_conditions ++ cs })
  node_properties [] f h = rw (append-nil f.property_conditions) done
  node_properties (c ∷ cs) f (h, hs) = rw (sym (append_assoc f.property_conditions (c ∷ []) cs)) (
      one (λ rest. node_property c f rest h)
        (node_properties cs (record f { property_conditions = f.property_conditions ++ c ∷ [] })
          hs))

  node_label :
      (l : Text) (f : NodeFilter) (rest : List Text)
      → apply_node_condition ops f (label_tokens l ++ rest) ≡ ok (record f { label = some l }, rest)
  unfolding apply_node_condition eq_ignore_ascii_case ascii_lower
  node_label l f rest = rw (parse_label-quoted ops l rest) refl

  edge_property :
      (c : PropertyCondition) (f : EdgeFilter) (rest : List Text)
      → IsCondition f64_text ops c
      → apply_edge_condition ops f (property_tokens f64_text c ++ rest)
        ≡ ok (record f { property_conditions = f.property_conditions ++ c ∷ [] }, rest)
  unfolding apply_edge_condition eq_ignore_ascii_case ascii_lower
  edge_property c f rest h =
      rw (is_property-props ops c.key h.key_ascii, parse_property-property_tokens c rest h.writable)
        refl

  -- The conditions on the properties come one behind the other.
  edge_properties :
      (cs : List PropertyCondition) (f : EdgeFilter)
      → AreConditions f64_text ops cs
      → Takes
          (apply_edge_condition ops)
          f
          (map (property_tokens f64_text) cs)
          (record f { property_conditions = f.property_conditions ++ cs })
  edge_properties [] f h = rw (append-nil f.property_conditions) done
  edge_properties (c ∷ cs) f (h, hs) = rw (sym (append_assoc f.property_conditions (c ∷ []) cs)) (
      one (λ rest. edge_property c f rest h)
        (edge_properties cs (record f { property_conditions = f.property_conditions ++ c ∷ [] })
          hs))

  edge_label :
      (l : Text) (f : EdgeFilter) (rest : List Text)
      → apply_edge_condition ops f (label_tokens l ++ rest) ≡ ok (record f { label = some l }, rest)
  unfolding apply_edge_condition eq_ignore_ascii_case ascii_lower
  edge_label l f rest = rw (parse_label-quoted ops l rest) refl

  edge_weight :
      (w : WeightCondition) (f : EdgeFilter) (rest : List Text)
      → IsFloat f64_text ops w.value
      → apply_edge_condition ops f (weight_tokens f64_text w ++ rest)
        ≡ ok (record f { weight_condition = some w }, rest)
  unfolding apply_edge_condition eq_ignore_ascii_case ascii_lower
  edge_weight w f rest h = rw (parse_weight-weight_tokens w rest h) refl

  -- From the empty filter to the one that is printed.
  pub node_conditions :
      (label : Option Text) (cs : List PropertyCondition)
      → AreConditions f64_text ops cs
      → Takes
          (apply_node_condition ops)
          node_default
          (if_some label_tokens label ++ map (property_tokens f64_text) cs)
          (record { label = label; property_conditions = cs })
  node_conditions none cs h = node_properties cs node_default h
  node_conditions (some l) cs h =
      one (node_label l node_default)
        (node_properties cs (record node_default { label = some l }) h)

  pub edge_conditions :
      (label : Option Text) (weight : Option WeightCondition) (cs : List PropertyCondition)
      → IsWeight f64_text ops weight
      → AreConditions f64_text ops cs
      → Takes
          (apply_edge_condition ops)
          edge_default
          (if_some label_tokens label
            ++ (if_some (weight_tokens f64_text) weight ++ map (property_tokens f64_text) cs))
          (record { label = label; weight_condition = weight; property_conditions = cs })
  edge_conditions none none cs w h = edge_properties cs edge_default h
  edge_conditions none (some x) cs w h =
      one (λ rest. edge_weight x edge_default rest w)
        (edge_properties cs (record edge_default { weight_condition = some x }) h)
  edge_conditions (some l) none cs w h =
      one (edge_label l edge_default)
        (edge_properties cs (record edge_default { label = some l }) h)
  edge_conditions (some l) (some x) cs w h = one (edge_label l edge_default) (
      one (λ rest. edge_weight x (record edge_default { label = some l }) rest w)
        (edge_properties cs (record edge_default { label = some l; weight_condition = some x }) h))
