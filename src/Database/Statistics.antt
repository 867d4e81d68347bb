-- ===== src/Database/Statistics.antt =====
-- The statistics of `LayeredGraphDatabase` (src/database/layered.rs), and the execution of a query with its
-- explanation. The text of the explanation is its numbers.
use ad_graph_db.Base.{
  ℕ, ◌+◌, ◌/◌, ◌≤◌, ◌≡◌, refl, sym, ap, ◌∙◌, ◌↔◌, ◌⊎◌, inl, inr, List, [], ◌∷◌, map, Memᴰ,
  Memᴰ-cons, Option, Bool, true, false, leb, ltb, length, nat_eq, list_eq, list_beq_iff, some, ◌==◌,
  if◌then◌else◌, Bool-cases, arith,
}
use mathlib.Core.List.Memᴰ
use ad_graph_db.Core.{NodeId, Text, Result, ok, err, GraphError}
use ad_graph_db.Base.Map
use ad_graph_db.Index.LabelIndex
use ad_graph_db.Index.PropertyIndex
use ad_graph_db.Query.Planner.{DatabaseStats}
use ad_graph_db.Query.Context.{QueryResult}
use ad_graph_db.Database.Metrics
use ad_graph_db.Database.Metrics.{add_u64}
use ad_graph_db.Database.State.{Adapters, Database, and_then}
use ad_graph_db.Database.Methods.{count}
use ad_graph_db.Database.Reads.{build_stats, execute_query}

-- `slice::sort_by`, which is stable: `first x y` where `x`, which came before `y`, stays before it.
unfoldable pub sort_insert : {A : Type 0} → (A → A → Bool) → A → List A → List A
sort_insert first x [] = x ∷ []
sort_insert first x (y ∷ ys) = if first x y then x ∷ y ∷ ys else y ∷ sort_insert first x ys

unfoldable pub sort_by : {A : Type 0} → (A → A → Bool) → List A → List A
sort_by first [] = []
sort_by first (x ∷ xs) = sort_insert first x (sort_by first xs)

abbrev pub counts_down : Text × ℕ → Text × ℕ → Bool
counts_down a b = leb b.1 a.1

-- The order of strings by their bytes.
abbrev pub text_le : Text → Text → Bool
text_le [] t = true
text_le (c ∷ s) [] = false
text_le (c ∷ s) (d ∷ t) = if c == d then text_le s t else ltb c d

abbrev pub total : List (Text × ℕ) → ℕ
total [] = 0
total (c ∷ cs) = c.1 + total cs

pub record Explanation : Type 0 where
  pub node_count : ℕ
  pub labeled : ℕ
  pub indexed_fields : ℕ
  pub elapsed_us : ℕ

module _ {E C S : Type 0} (p : Adapters E C S) where
  unfoldable pub label_stats : Database E C S → List (Text × ℕ)
  label_stats d =
      sort_by counts_down (
        map (λ l. (l, LabelIndex.label_count d.label_index l))
          (LabelIndex.all_labels d.label_index))

  unfoldable pub indexed_fields : Database E C S → List Text
  indexed_fields d = sort_by text_le (PropertyIndex.indexed_fields d.property_index)

  abbrev pub reset_metrics : Database E C S → Database E C S
  reset_metrics d = record d { metrics = Metrics.new }

  -- `algorithm` is the algorithm's method, on the engine.
  abbrev pub traverse : (E → NodeId → List NodeId) → NodeId → Database E C S → List NodeId
  traverse algorithm start d = algorithm d.engine start

  abbrev pub find_shortest_path :
      (E → NodeId → NodeId → Option (List NodeId × ℕ))
      → NodeId
      → NodeId
      → Database E C S
      → Option (List NodeId × ℕ)
  find_shortest_path algorithm start goal d = algorithm d.engine start goal

  abbrev pub explained : DatabaseStats → ℕ → Explanation
  explained stats elapsed_ns = record {
    node_count = stats.node_count;
    labeled = total stats.label_counts;
    indexed_fields = length stats.indexed_node_fields;
    elapsed_us = elapsed_ns / 1000;
  }

  -- `run` is the language's `execute` on the query's text. An error returns before the counters.
  unfoldable pub execute_query_with_explain :
      (Database E C S → Result QueryResult × Database E C S)
      → ℕ
      → Database E C S
      → Result (QueryResult × Explanation) × Database E C S
  execute_query_with_explain run elapsed_ns d = and_then (run d) λ result d'. (
    ok (result, explained (build_stats p d) elapsed_ns),
    count p
        (λ m. record m {
          queries_executed = add_u64 m.queries_executed 1;
          total_query_time_ns = add_u64 m.total_query_time_ns elapsed_ns;
        })
        d',
  )

module _ {A : Type 0} (first : A → A → Bool) where
  mem-sort_insert :
      (a x : A) (xs : List A) → Memᴰ a (sort_insert first x xs) ↔ ((a ≡ x) ⊎ Memᴰ a xs)
  unfolding sort_insert
  mem-sort_insert a x [] = Memᴰ-cons a x []
  mem-sort_insert a x (y ∷ ys) = elim (Bool-cases (first x y)) [
    | inl front ↦ rw front (Memᴰ-cons a x (y ∷ ys))
    | inr behind ↦ rw behind (
        ground
          (arith, Memᴰ-cons a y (sort_insert first x ys), Memᴰ-cons a y ys, mem-sort_insert a x ys))
  ]

  mem-sort_by : (a : A) (xs : List A) → Memᴰ a (sort_by first xs) ↔ Memᴰ a xs
  unfolding sort_by
  mem-sort_by a [] = (λ m. m, λ m. m)
  mem-sort_by a (x ∷ xs) =
      ground (arith, mem-sort_insert a x (sort_by first xs), Memᴰ-cons a x xs, mem-sort_by a xs)

-- No count is below the one behind it.
abbrev pub IsDescending : List (Text × ℕ) → Type 0
IsDescending [] = Unit
IsDescending (a ∷ []) = Unit
IsDescending (a ∷ b ∷ cs) = (b.1 ≤ a.1) × IsDescending (b ∷ cs)

sort_insert-IsDescending :
    (x : Text × ℕ) (xs : List (Text × ℕ))
    → IsDescending xs
    → IsDescending (sort_insert counts_down x xs)
unfolding sort_insert
sort_insert-IsDescending x [] h = tt
sort_insert-IsDescending x (y ∷ []) h = elim (Bool-cases (leb y.1 x.1)) [
  | inl front ↦ rw front (ground (arith, front), tt)
  | inr behind ↦ rw behind (ground (arith, behind), tt)
]
sort_insert-IsDescending x (y ∷ z ∷ zs) (le, h) =
    let rest = sort_insert-IsDescending x (z ∷ zs) h in
    elim (Bool-cases (leb y.1 x.1)) [
      | inl front ↦ rw front (ground (arith, front), (le, h))
      | inr behind ↦ rw behind (elim (Bool-cases (leb z.1 x.1)) [
        | inl next ↦ rw next (ground (arith, behind), rw next at rest)
        | inr later ↦ rw later (le, rw later at rest)
      ])
    ]

sort_by-IsDescending : (xs : List (Text × ℕ)) → IsDescending (sort_by counts_down xs)
unfolding sort_by
sort_by-IsDescending [] = tt
sort_by-IsDescending (x ∷ xs) =
    sort_insert-IsDescending x (sort_by counts_down xs) (sort_by-IsDescending xs)

mem-counted :
    (f : Text → ℕ) (l : Text) (n : ℕ) (ls : List Text)
    → Memᴰ {A = Text × ℕ} (l, n) (map (λ k. (k, f k)) ls) ↔ (Memᴰ l ls × (n ≡ f l))
mem-counted f l n [] = (λ m. absurd (Memᴰ.not-nil m), λ (m, _). absurd (Memᴰ.not-nil m))
mem-counted f l n (k ∷ ks) =
    let entry : Text × ℕ = (l, n) in
    let other : Text × ℕ = (k, f k) in
    let pair : (entry ≡ other) ↔ ((l ≡ k) × (n ≡ f l)) = (
      λ e. (ap (λ x. x.0) e, ap (λ x. x.1) e ∙ ap f (sym (ap (λ x. x.0) e))),
      λ (e, c). rw (c, e) refl,
    ) in
    ground (
      arith,
      pair,
      Memᴰ-cons entry other (map (λ k. (k, f k)) ks),
      Memᴰ-cons l k ks,
      mem-counted f l n ks,
    )

-- A label of the index is one under which it keeps a list of nodes.
keys-get :
    (l : Text) (m : List (Text × List NodeId))
    → Memᴰ l (Map.keys m) ↔ ((ids : List NodeId) × (Map.get l m ≡ some ids))
unfolding Map.get
keys-get l [] = (λ m. absurd (Memᴰ.not-nil m), λ (ids, h). cc)
keys-get l ((k, ids) ∷ m) =
    let (there, back) = keys-get l m in
    elim (Bool-cases (k == l)) [
      | inl same ↦ (
        λ _. rw same (ids, refl),
        λ _. (Memᴰ-cons l k (Map.keys m)).1 (inl (sym ((list_beq_iff k l).0 same))),
      )
      | inr other ↦ (
        λ i. rw other (elim ((Memᴰ-cons l k (Map.keys m)).0 i) [
          | inl here ↦ absurd (ground (arith, list_beq_iff k l))
          | inr later ↦ there later
        ]),
        λ (found, h). (Memᴰ-cons l k (Map.keys m)).1 (inr (back (found, rw other at h))),
      )
    ]

-- The labels of the index with their counts, whatever their order.
counted_iff :
    (index : LabelIndex.LabelIndex) (l : Text) (n : ℕ)
    → (Memᴰ l (LabelIndex.all_labels index) × (n ≡ LabelIndex.label_count index l))
      ↔ ((ids : List NodeId) × (Map.get l index.index ≡ some ids) × (n ≡ length ids))
unfolding LabelIndex.all_labels LabelIndex.label_count
counted_iff index l n = (
  λ (m, e).
      let (ids, found) = (keys-get l index.index).0 m in
      (ids, found, rw (found, LabelIndex.label_count) at e),
  λ (ids, found, e).
      ((keys-get l index.index).1 (ids, found), rw (found, LabelIndex.label_count) e),
)

module _ {E C S : Type 0} (p : Adapters E C S) where
  -- The label statistics list every label under which the index keeps nodes, with the number of those
  -- nodes, and nothing else, in an order in which no count is below the one behind it.
  pub label_stats_lem :
      (d : Database E C S)
      → IsDescending (label_stats p d)
        × ((l : Text) (n : ℕ)
            → Memᴰ {A = Text × ℕ} (l, n) (label_stats p d) ↔ (
                (ids : List NodeId) × (Map.get l d.label_index.index ≡ some ids)
                × (n ≡ length ids)))
  unfolding label_stats
  label_stats_lem d =
      let index = d.label_index in
      let counted = map (λ l. (l, LabelIndex.label_count index l)) (LabelIndex.all_labels index) in
      (
        sort_by-IsDescending counted,
        λ l n.
            let sorted = mem-sort_by counts_down (l, n) counted in
            let listed =
              mem-counted (LabelIndex.label_count index) l n (LabelIndex.all_labels index) in
            let kept = counted_iff index l n in
            (λ m. kept.0 (listed.0 (sorted.0 m)), λ m. sorted.1 (listed.1 (kept.1 m))),
      )

  and_then_ok :
      {A B : Type 0} (a : A) (r : Result A) (d : Database E C S)
      (next : A → Database E C S → Result B × Database E C S)
      → r ≡ ok a
      → and_then (r, d) next ≡ next a d
  and_then_ok a r d next h = rw h refl

  and_then_err :
      {A B : Type 0} (e : GraphError) (r : Result A) (d : Database E C S)
      (next : A → Database E C S → Result B × Database E C S)
      → r ≡ err e
      → and_then (r, d) next ≡ (err e, d)
  and_then_err e r d next h = rw h refl

  -- With an explanation a query does what it does without: where it succeeds, the result and the database are
  -- the same. Where it fails, the error is the same, but only the execution without an explanation counts the
  -- query.
  pub execute_query_with_explain_lem :
      (run : Database E C S → Result QueryResult × Database E C S) (elapsed_ns : ℕ)
      (d : Database E C S)
      → ((result : QueryResult)
          → (run d).0 ≡ ok result
          → ((execute_query_with_explain p run elapsed_ns d).0
              ≡ ok (result, explained p (build_stats p d) elapsed_ns))
            × ((execute_query p run elapsed_ns d).0 ≡ ok result)
            × ((execute_query_with_explain p run elapsed_ns d).1
                ≡ (execute_query p run elapsed_ns d).1))
        × ((e : GraphError)
            → (run d).0 ≡ err e
            → ((execute_query_with_explain p run elapsed_ns d).0 ≡ err e)
              × ((execute_query p run elapsed_ns d).0 ≡ err e)
              × ((execute_query_with_explain p run elapsed_ns d).1.metrics ≡ (run d).1.metrics)
              × ((execute_query p run elapsed_ns d).1.metrics.queries_executed
                  ≡ add_u64 (run d).1.metrics.queries_executed 1))
  unfolding execute_query_with_explain execute_query
  execute_query_with_explain_lem run elapsed_ns d = (
    λ result h.
        let ran = and_then_ok result (run d).0 (run d).1 _ h in
        (ap (λ r. r.0) ran, h, ap (λ r. r.1) ran),
    λ e h.
        let failed = and_then_err e (run d).0 (run d).1 _ h in
        (ap (λ r. r.0) failed, h, ap (λ r. r.1.metrics) failed, refl),
  )
