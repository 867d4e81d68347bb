-- ===== src/Base/Map/Distinct.antt =====
-- A map holds a key once. The operations keep this, and then a lookup is membership of the pair.

use mathlib.Core.List.Memᴰ
use Prim.Native.Nat.{◌+◌, ◌≤◌, ◌<◌}
use mathlib.Core.Path.{◌≡◌, refl, ap, sym}
use mathlib.Core.Logic.{inl, inr, ⊎_elim}
use mathlib.Core.List.{List, [], ◌∷◌, Memᴰ}
use mathlib.Core.Option.{none, some}
use native.Mathlib.Omega.{arith}
use ad_graph_db.Base.Tests.{Eq, ◌==◌, if◌then◌else◌, Bool-cases, beq_refl}
use ad_graph_db.Base.Lists.{length, Memᴰ-cons}
use ad_graph_db.Base.Map.{
  get, insert, remove, update, entry, contains_key, get-insert, get-remove, get-update, get-entry,
}

module _ {ℓ κ} {K : Type ℓ} {V : Type κ} ⦃e : Eq K⦄ where
  -- No key stands twice.
  abbrev pub IsMap : List (K × V) → Type κ
  IsMap [] = Unit
  IsMap ((k, v) ∷ m) = (get k m ≡ none) × IsMap m

  pub insert-IsMap : (k : K) (v : V) (m : List (K × V)) → IsMap m → IsMap (insert k v m)
  unfolding insert get
  insert-IsMap k v [] h = (refl, tt)
  insert-IsMap k v ((j, w) ∷ m) (new, h) = elim (Bool-cases (j == k)) [
    | inl same ↦ rw same (rw (← (e.beq_iff j k).0 same) new, h)
    | inr other ↦
        rw other
          (ground (arith, get-insert k j v m, e.beq_iff k j, e.beq_iff j k), insert-IsMap k v m h)
  ]

  pub remove-IsMap : (k : K) (m : List (K × V)) → IsMap m → IsMap (remove k m)
  unfolding remove get
  remove-IsMap k [] h = tt
  remove-IsMap k ((j, w) ∷ m) (new, h) = elim (Bool-cases (j == k)) [
    | inl same ↦ rw same (remove-IsMap k m h)
    | inr other ↦ rw other (ground (arith, get-remove k j m), remove-IsMap k m h)
  ]

  pub update-IsMap : (k : K) (f : V → V) (m : List (K × V)) → IsMap m → IsMap (update k f m)
  unfolding update get
  update-IsMap k f [] h = tt
  update-IsMap k f ((j, w) ∷ m) (new, h) = elim (Bool-cases (j == k)) [
    | inl same ↦ rw same (new, h)
    | inr other ↦
        rw other
          (ground (arith, get-update k j f m, e.beq_iff k j, e.beq_iff j k), update-IsMap k f m h)
  ]

  pub entry-IsMap : (k : K) (d : V) (f : V → V) (m : List (K × V)) → IsMap m → IsMap (entry k d f m)
  unfolding entry get
  entry-IsMap k d f [] h = (refl, tt)
  entry-IsMap k d f ((j, w) ∷ m) (new, h) = elim (Bool-cases (j == k)) [
    | inl same ↦ rw same (new, h)
    | inr other ↦
        rw other
          (ground (arith, get-entry k j d f m, e.beq_iff k j, e.beq_iff j k), entry-IsMap k d f m h)
  ]

  pub mem_of_get : (k : K) (v : V) (m : List (K × V)) → get k m ≡ some v → Memᴰ (k, v) m
  unfolding get
  mem_of_get k v [] h = cc
  mem_of_get k v ((j, w) ∷ m) h = elim (Bool-cases (j == k)) [
    | inl same ↦
        let value : some w ≡ some v = rw same at h in Memᴰ.head (ground (arith, e.beq_iff j k))
    | inr other ↦ Memᴰ.tail (mem_of_get k v m (rw other at h))
  ]

  not-mem_of_get : (k : K) (v : V) (m : List (K × V)) → get k m ≡ none → ¬ Memᴰ (k, v) m
  unfolding get
  not-mem_of_get k v [] h i = Memᴰ.not-nil i
  not-mem_of_get k v ((j, w) ∷ m) h i = elim (Bool-cases (j == k)) [
    | inl same ↦ cc (rw same at h)
    | inr other ↦
        ⊎_elim (λ p. ground (arith, e.beq_iff j k)) (not-mem_of_get k v m (rw other at h))
          ((Memᴰ-cons _ _ m).0 i)
  ]

  pub get_of_mem : (k : K) (v : V) (m : List (K × V)) → IsMap m → Memᴰ (k, v) m → get k m ≡ some v
  unfolding get
  get_of_mem k v [] h i = absurd (Memᴰ.not-nil i)
  get_of_mem k v ((j, w) ∷ m) (new, h) i = elim ((Memᴰ-cons _ _ m).0 i) [
    | inl p ↦ rw (ap (λ q. q.0) p, beq_refl j) (ap some (sym (ap (λ q. q.1) p)))
    | inr later ↦ elim (Bool-cases (j == k)) [
      | inl same ↦ absurd (not-mem_of_get k v m (rw ((e.beq_iff j k).0 same) at new) later)
      | inr other ↦ rw other (get_of_mem k v m h later)
    ]
  ]

  pub length-insert :
      (k : K) (v : V) (m : List (K × V))
      → length (insert k v m) ≡ (if contains_key k m then length m else length m + 1)
  unfolding insert contains_key
  length-insert k v [] = omega arith
  length-insert k v ((j, w) ∷ m) = ground (arith, length-insert k v m)

  pub length-update : (k : K) (f : V → V) (m : List (K × V)) → length (update k f m) ≡ length m
  unfolding update
  length-update k f [] = refl
  length-update k f ((j, w) ∷ m) = ground (arith, length-update k f m)

  pub length-remove-le : (k : K) (m : List (K × V)) → length (remove k m) ≤ length m
  unfolding remove
  length-remove-le k [] = omega arith
  length-remove-le k ((j, w) ∷ m) = ground (arith, length-remove-le k m)

  pub length-remove :
      (k : K) (v : V) (m : List (K × V)) → get k m ≡ some v → length (remove k m) < length m
  unfolding remove get
  length-remove k v [] h = cc
  length-remove k v ((j, w) ∷ m) h = ground (arith, length-remove k v m, length-remove-le k m)
