-- ===== src/Base/Map/Extend.antt =====
-- Inserting the pairs of a list in turn. From the empty map, the pairs of a map rebuild it.
use mathlib.Core.List.{append-nil, append_assoc}
use mathlib.Core.Path.{◌≡◌, refl, sym, ◌∙◌}
use mathlib.Core.Logic.{inl, inr}
use mathlib.Core.List.{List, [], ◌∷◌, ◌++◌}
use mathlib.Core.Option.{none}
use native.Mathlib.Omega.{arith}
use ad_graph_db.Base.Tests.{Eq, ◌==◌, Bool-cases}
use ad_graph_db.Base.Map.{get, insert, get-insert}
use ad_graph_db.Base.Map.Distinct.{IsMap}

module _ {ℓ κ} {K : Type ℓ} {V : Type κ} ⦃e : Eq K⦄ where
  abbrev pub extend : List (K × V) → List (K × V) → List (K × V)
  extend [] m = m
  extend ((k, v) ∷ more) m = extend more (insert k v m)

  insert_absent :
      (k : K) (v : V) (m : List (K × V)) → get k m ≡ none → insert k v m ≡ m ++ (k, v) ∷ []
  unfolding get insert
  insert_absent k v [] h = refl
  insert_absent k v ((j, w) ∷ m) h = ground (arith, insert_absent k v m)

  get-middle :
      (k : K) (v : V) (m more : List (K × V)) → IsMap (m ++ ((k, v) ∷ more)) → get k m ≡ none
  unfolding get
  get-middle k v [] more h = refl
  get-middle k v ((j, w) ∷ m) more (new, h) = elim (Bool-cases (j == k)) [
    | inl same ↦ absurd (clash m (rw ((e.beq_iff j k).0 same) at new))
    | inr other ↦ rw other (get-middle k v m more h)
  ]
    where
      clash : (m : List (K × V)) → get k (m ++ ((k, v) ∷ more)) ≡ none → ⊥
      clash [] p = ground (arith, e.beq_iff k k)
      clash ((i, u) ∷ m) p = ground (arith, clash m)

  extend-append : (more m : List (K × V)) → IsMap (m ++ more) → extend more m ≡ m ++ more
  extend-append [] m h = sym (append-nil m)
  extend-append ((k, v) ∷ more) m h =
      let regroup = append_assoc m ((k, v) ∷ []) more in
      rw (insert_absent k v m (get-middle k v m more h))
        (extend-append more (m ++ (k, v) ∷ []) (rw regroup h) ∙ regroup)

  pub extend-nil : (m : List (K × V)) → IsMap m → extend m [] ≡ m
  extend-nil m h = extend-append m [] h

  -- What a key reads after `extend` depends only on what it read before.
  pub get-extend_congr :
      (k : K) (more m n : List (K × V))
      → get k m ≡ get k n
      → get k (extend more m) ≡ get k (extend more n)
  get-extend_congr k [] m n h = h
  get-extend_congr k ((j, v) ∷ more) m n h =
      get-extend_congr k more (insert j v m) (insert j v n)
        (ground (arith, get-insert j k v m, get-insert j k v n))

  pub get-extend_absent :
      (k : K) (more m : List (K × V)) → get k more ≡ none → get k (extend more m) ≡ get k m
  unfolding get
  get-extend_absent k [] m h = refl
  get-extend_absent k ((j, v) ∷ more) m h =
      ground (arith, get-extend_absent k more (insert j v m), get-insert j k v m)
