-- ===== src/Index/LabelIndex/Tracks.antt =====
-- The index against what it stands for: a set of pairs of a node and its label.

use ad_graph_db.Base.{
  ◌≡◌, ◌≢◌, refl, List, [], ◌∷◌, ◌++◌, Memᴰ, Memᴰ-concat, mem-retain, true, not, some, get_or,
  nat_eq, list_eq, list_beq_iff, ◌==◌, ◌↔◌, ◌⊎◌, inl, inr, is_empty, if◌then◌else◌, Option-cases,
  arith,
}
use ad_graph_db.Base.Map
use ad_graph_db.Core.{NodeId, Text}
use ad_graph_db.Index.LabelIndex.{LabelIndex, insert, remove, get, without}

get-insert :
    (id : NodeId) (label l : Text) (idx : LabelIndex)
    → get (insert id label idx) l ≡ (if label == l then get idx l ++ id ∷ [] else get idx l)
unfolding get insert
get-insert id label l idx =
    ground (arith, Map.get-entry label l [] (λ (ids : List NodeId). ids ++ id ∷ []) idx.index)

is_empty-eq : {A : Type 0} (xs : List A) → is_empty xs ≡ true → xs ≡ []
is_empty-eq [] h = refl
is_empty-eq (x ∷ xs) h = cc

get-remove :
    (id : NodeId) (label l : Text) (idx : LabelIndex)
    → get (remove id label idx) l ≡ (if label == l then without id (get idx l) else get idx l)
unfolding get remove
get-remove id label l idx = elim (Option-cases (Map.get label idx.index)) [
  | inl absent ↦ rw (absent, remove) (ground (arith, list_beq_iff label l))
  | inr (ids, found) ↦
      let kept = Map.update label (without id) idx.index in
      rw (found, remove)
        (ground (
          arith,
          list_beq_iff label l,
          Map.get-remove label l kept,
          Map.get-update label l (without id) idx.index,
          is_empty-eq (without id ids),
        ))
]

-- Every pair of a node and its label, and nothing else.
abbrev pub Tracks : LabelIndex → (NodeId → Text → Type 0) → Type 0
Tracks idx Carries = (id : NodeId) (label : Text) → Memᴰ id (get idx label) ↔ Carries id label

module _ (idx : LabelIndex) (Carries : NodeId → Text → Type 0) (h : Tracks idx Carries) where
  -- In an index that holds certain pairs of a node and a label, registering a node under a label adds
  -- exactly that pair.
  pub insert-Tracks :
      (id : NodeId) (label : Text)
      → Tracks (insert id label idx) (λ x l. Carries x l ⊎ (x ≡ id) × (l ≡ label))
  insert-Tracks id label x l =
      rw (get-insert id label l idx)
        (ground (arith, list_beq_iff label l, Memᴰ-concat x id (get idx l), h x l))

  -- In an index that holds certain pairs of a node and a label, removing a node from the bucket of a
  -- label removes exactly that pair.
  pub remove-Tracks :
      (id : NodeId) (label : Text)
      → Tracks (remove id label idx) (λ x l. Carries x l × ((l ≡ label) → x ≢ id))
  remove-Tracks id label x l =
      rw (get-remove id label l idx)
        (ground (arith, list_beq_iff label l, mem-retain (λ s. not (s == id)) x (get idx l), h x l))

-- No label keeps an empty bucket, so that `all_labels` lists only labels in use.
abbrev pub IsTight : LabelIndex → Type 0
IsTight idx = (l : Text) → Map.get l idx.index ≢ some []

append-ne-nil : {A : Type 0} (xs : List A) (x : A) → xs ++ x ∷ [] ≢ []
append-ne-nil [] x e = cc
append-ne-nil (y ∷ xs) x e = cc

-- Inserting leaves no bucket empty.
pub insert-IsTight :
    (id : NodeId) (label : Text) (idx : LabelIndex) → IsTight idx → IsTight (insert id label idx)
unfolding insert
insert-IsTight id label idx h l e = ground (
  arith,
  Map.get-entry label l [] (λ (ids : List NodeId). ids ++ id ∷ []) idx.index,
  append-ne-nil (get_or (Map.get l idx.index) []) id,
  h l,
)

-- If no bucket is empty, none is after a removal: a bucket that becomes empty is dropped.
pub remove-IsTight :
    (id : NodeId) (label : Text) (idx : LabelIndex) → IsTight idx → IsTight (remove id label idx)
unfolding remove
remove-IsTight id label idx h l e = elim (Option-cases (Map.get label idx.index)) [
  | inl absent ↦ h l (rw (absent, remove) at e)
  | inr (ids, found) ↦ ground (
    arith,
    (rw (found, remove) at e),
    list_beq_iff label l,
    Map.get-remove label l (Map.update label (without id) idx.index),
    Map.get-update label l (without id) idx.index,
    h l,
  )
]
