-- ===== src/Base/Map/Entries.antt =====
-- A condition on every entry of a map, and what keeps it.
use mathlib.Core.Logic.{inl, inr}
use mathlib.Core.Path.{◌≡◌, sym}
use mathlib.Core.Option.{some}
use mathlib.Core.List.{List, [], ◌∷◌, ◌++◌}
use native.Mathlib.Omega.{arith}
use ad_graph_db.Base.Tests.{Eq, ◌==◌, Bool-cases}
use ad_graph_db.Base.Map.{get, insert, remove}
use ad_graph_db.Base.Map.Distinct.{IsMap, insert-IsMap}
use ad_graph_db.Base.Map.Extend.{extend}

module _ {K V : Type 0} (P : K → V → Type 0) where
  abbrev pub AllEntries : List (K × V) → Type 0
  AllEntries [] = Unit
  AllEntries ((k, v) ∷ m) = P k v × AllEntries m

  pub AllEntries-append : (m n : List (K × V)) → AllEntries m → AllEntries n → AllEntries (m ++ n)
  AllEntries-append [] n hm hn = hn
  AllEntries-append ((k, v) ∷ m) n (h, hm) hn = (h, AllEntries-append m n hm hn)

module _ {K V : Type 0} ⦃e : Eq K⦄ (P : K → V → Type 0) where
  pub insert-AllEntries :
      (k : K) (v : V) (m : List (K × V)) → P k v → AllEntries P m → AllEntries P (insert k v m)
  unfolding insert
  insert-AllEntries k v [] h hm = (h, tt)
  insert-AllEntries k v ((j, w) ∷ m) h (hw, hm) = elim (Bool-cases (j == k)) [
    | inl same ↦ rw same (h, hm)
    | inr other ↦ rw other (hw, insert-AllEntries k v m h hm)
  ]

  -- What a key is found with.
  pub AllEntries-get :
      (k : K) (v : V) (m : List (K × V)) → AllEntries P m → get k m ≡ some v → P k v
  unfolding get
  AllEntries-get k v [] hm h = cc
  AllEntries-get k v ((j, w) ∷ m) (hw, hm) h = elim (Bool-cases (j == k)) [
    | inl same ↦
        let value : some w ≡ some v = rw same at h in
        let key : j ≡ k = (e.beq_iff j k).0 same in
        let w_is : w ≡ v = ground arith in rw (sym key, sym w_is) hw
    | inr other ↦ AllEntries-get k v m hm (rw other at h)
  ]

  pub remove-AllEntries : (k : K) (m : List (K × V)) → AllEntries P m → AllEntries P (remove k m)
  unfolding remove
  remove-AllEntries k [] hm = tt
  remove-AllEntries k ((j, w) ∷ m) (hw, hm) = elim (Bool-cases (j == k)) [
    | inl same ↦ rw same (remove-AllEntries k m hm)
    | inr other ↦ rw other (hw, remove-AllEntries k m hm)
  ]

  pub extend-AllEntries :
      (more m : List (K × V)) → AllEntries P more → AllEntries P m → AllEntries P (extend more m)
  extend-AllEntries [] m h hm = hm
  extend-AllEntries ((k, v) ∷ more) m (hv, h) hm =
      extend-AllEntries more (insert k v m) h (insert-AllEntries k v m hv hm)

module _ {K V : Type 0} ⦃e : Eq K⦄ where
  pub extend-IsMap : (more m : List (K × V)) → IsMap m → IsMap (extend more m)
  extend-IsMap [] m h = h
  extend-IsMap ((k, v) ∷ more) m h = extend-IsMap more (insert k v m) (insert-IsMap k v m h)
