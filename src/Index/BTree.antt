-- ===== src/Index/BTree.antt =====
-- std's BTreeMap, as a list in the order of its keys: what the property index uses of it. Only the
-- ordering of the keys is consulted, as in Rust.
use Prim.Native.Nat.{Ordering}
use ad_graph_db.Base.{List, [], ◌∷◌, Option, none, some}

abbrev pub Compare {ℓ} : Type ℓ → Type ℓ
Compare K = K → K → Ordering

module _ {ℓ κ} {K : Type ℓ} {V : Type κ} (cmp : Compare K) where
  unfoldable pub get : K → List (K × V) → Option V
  get k [] = none
  get k ((j, v) ∷ m) = let rest = get k m in elim (cmp k j) [ Ordering.eq ↦ some v | _ ↦ rest ]

  -- `map.entry(key).or_insert(d)`, with the change of the entry as a function.
  unfoldable pub entry : K → V → (V → V) → List (K × V) → List (K × V)
  entry k d g [] = (k, g d) ∷ []
  entry k d g ((j, v) ∷ m) =
      let rest = entry k d g m in
      elim (cmp k j) [
        | Ordering.lt ↦ (k, g d) ∷ (j, v) ∷ m
        | Ordering.eq ↦ (j, g v) ∷ m
        | Ordering.gt ↦ (j, v) ∷ rest
      ]

  -- `if let Some(v) = map.get_mut(key)`, with the change of `v` as a function.
  unfoldable pub update : K → (V → V) → List (K × V) → List (K × V)
  update k g [] = []
  update k g ((j, v) ∷ m) =
      let rest = update k g m in elim (cmp k j) [ Ordering.eq ↦ (j, g v) ∷ m | _ ↦ (j, v) ∷ rest ]

  unfoldable pub remove : K → List (K × V) → List (K × V)
  remove k [] = []
  remove k ((j, v) ∷ m) =
      let rest = remove k m in elim (cmp k j) [ Ordering.eq ↦ m | _ ↦ (j, v) ∷ rest ]
