-- ===== src/Cache/Lru/Store.antt =====
-- The store of one kind of record: its size, its victim, and what can be read.
use mathlib.Core.Option
use mathlib.Core.List.Memᴰ
use ad_graph_db.Base.{
  ℕ, ◌≤◌, ◌<◌, ◌≡◌, ◌≢◌, refl, [], ◌∷◌, Option, none, some, nat_eq, nat_beq_iff, length, leb, ltb,
  arith, inl, inr, Option-cases, Bool-cases, Memᴰ, Memᴰ-cons,
}
use ad_graph_db.Base.Map
use ad_graph_db.Base.Map.Distinct
use ad_graph_db.Cache.Lru.{Entry, Store, oldest, evict_oldest, get_in, make_room, put_in}

module _ {V : Type 0} where
  -- What the store would return for a key.
  abbrev pub peek : ℕ → Store V → Option V
  peek id store = Option.map (λ e. e.value) (Map.get id store)

  oldest-mem : (best : ℕ × Entry V) (store : Store V) → Memᴰ (oldest best store) (best ∷ store)
  unfolding oldest
  oldest-mem best [] = Memᴰ.head refl
  oldest-mem best (e ∷ store) =
      elim (Bool-cases (ltb e.1.last_access_generation best.1.last_access_generation)) [
        | inl younger ↦ rw younger (Memᴰ.tail (oldest-mem e store))
        | inr older ↦ rw older (elim ((Memᴰ-cons _ best store).0 (oldest-mem best store)) [
          | inl here ↦ Memᴰ.head here
          | inr later ↦ Memᴰ.tail (Memᴰ.tail later)
        ])
      ]

  oldest-le :
      (best : ℕ × Entry V) (store : Store V)
      → (oldest best store).1.last_access_generation ≤ best.1.last_access_generation
  unfolding oldest
  oldest-le best [] = omega arith
  oldest-le best (e ∷ store) = ground (arith, oldest-le e store, oldest-le best store)

  oldest-le-all :
      (best : ℕ × Entry V) (store : Store V) (x : ℕ × Entry V)
      → Memᴰ x (best ∷ store)
      → (oldest best store).1.last_access_generation ≤ x.1.last_access_generation
  unfolding oldest
  oldest-le-all best [] x m = ground (arith, Memᴰ.eq_of_singleton m)
  oldest-le-all best (e ∷ store) x m = elim ((Memᴰ-cons x best (e ∷ store)).0 m) [
    | inl first ↦ ground (arith, oldest-le e store, oldest-le best store)
    | inr rest ↦ elim ((Memᴰ-cons x e store).0 rest) [
      | inl second ↦ ground (arith, oldest-le e store, oldest-le best store)
      | inr later ↦
          ground (arith, oldest-le-all e store x rest, oldest-le-all best store x (Memᴰ.tail later))
    ]
  ]

  -- Evicting makes a store that is not empty smaller.
  evict-lt :
      (store : Store V)
      → Map.Distinct.IsMap store
      → 0 < length store
      → length (evict_oldest store) < length store
  unfolding evict_oldest
  evict-lt [] d h = h
  evict-lt (e ∷ store) d h =
      Map.Distinct.length-remove (oldest e store).0 (oldest e store).1 (e ∷ store)
        (Map.Distinct.get_of_mem _ _ (e ∷ store) d (oldest-mem e store))

  evict-IsMap :
      (store : Store V) → Map.Distinct.IsMap store → Map.Distinct.IsMap (evict_oldest store)
  unfolding evict_oldest
  evict-IsMap [] d = d
  evict-IsMap (e ∷ store) d = Map.Distinct.remove-IsMap (oldest e store).0 (e ∷ store) d

  -- What an eviction leaves was there, with the same stamp.
  evict-keeps :
      (j : ℕ) (x : Entry V) (store : Store V)
      → Map.get j (evict_oldest store) ≡ some x
      → Map.get j store ≡ some x
  unfolding evict_oldest
  evict-keeps j x [] h = h
  evict-keeps j x (e ∷ store) h = ground (arith, Map.get-remove (oldest e store).0 j (e ∷ store))

  -- A store that keeps its capacity: no key twice, and never more entries than allowed.
  pub record IsBounded (capacity : ℕ) (store : Store V) : Type 0 where
    pub positive : 0 < capacity
    pub distinct : Map.Distinct.IsMap store
    pub bounded : length store ≤ capacity

  make_room-lt :
      (capacity : ℕ) (store : Store V)
      → IsBounded capacity store
      → Map.Distinct.IsMap (make_room capacity store)
        × (length (make_room capacity store) < capacity)
  unfolding make_room
  make_room-lt capacity store h = elim (Bool-cases (leb capacity (length store))) [
    | inl full ↦
        let some_entry : 0 < length store = ground arith in
        rw full (evict-IsMap store h.distinct, omega (arith, evict-lt store h.distinct some_entry))
    | inr free ↦ rw free (h.distinct, ground arith)
  ]

  -- A store within its capacity stays within it when a value is put: a new key in a full store evicts an
  -- entry first.
  pub put_in-IsBounded :
      (capacity gen id : ℕ) (v : V) (store : Store V)
      → IsBounded capacity store
      → IsBounded capacity (put_in capacity gen id v store)
  unfolding put_in
  put_in-IsBounded capacity gen id v store h =
      let e : Entry V = record { value = v; last_access_generation = gen } in
      elim (Option-cases (Map.get id store)) [
        | inl new ↦
            let (d, room) = make_room-lt capacity store h in
            rw (new, put_in)
              (record {
                positive = h.positive;
                distinct = Map.Distinct.insert-IsMap id e (make_room capacity store) d;
                bounded =
                    ground (arith, Map.Distinct.length-insert id e (make_room capacity store));
              })
        | inr (old, found) ↦
            rw (found, put_in)
              (record {
                positive = h.positive;
                distinct = Map.Distinct.update-IsMap id (λ _. e) store h.distinct;
                bounded =
                    omega
                      (arith, Map.Distinct.length-update id (λ (_ : Entry V). e) store, h.bounded);
              })
      ]

  -- In a store with entries and no key twice, an eviction has one victim: an entry of the store whose
  -- stamp is no greater than any entry's, which is gone afterwards, while every other key reads as before.
  pub evict_oldest-lem :
      (store : Store V)
      → Map.Distinct.IsMap store
      → 0 < length store
      → (k : ℕ) × (e : Entry V) × (Map.get k store ≡ some e)
        × ((j : ℕ) (x : Entry V)
            → Map.get j store ≡ some x
            → e.last_access_generation ≤ x.last_access_generation)
        × (Map.get k (evict_oldest store) ≡ none)
        × ((j : ℕ) → k ≢ j → Map.get j (evict_oldest store) ≡ Map.get j store)
  unfolding evict_oldest
  evict_oldest-lem [] d h = absurd (omega (arith, h))
  evict_oldest-lem (e ∷ store) d h =
      let victim = oldest e store in
      (
        victim.0,
        victim.1,
        Map.Distinct.get_of_mem victim.0 victim.1 (e ∷ store) d (oldest-mem e store),
        (λ j x found. oldest-le-all e store (j, x) (Map.Distinct.mem_of_get j x (e ∷ store) found)),
        ground (arith, Map.get-remove victim.0 victim.0 (e ∷ store)),
        λ j ne. ground (arith, Map.get-remove victim.0 j (e ∷ store), nat_beq_iff victim.0 j),
      )

  -- What was put under a key is what the key reads next.
  pub get-put_in_self :
      (capacity gen id : ℕ) (v : V) (store : Store V)
      → peek id (put_in capacity gen id v store) ≡ some v
  unfolding put_in
  get-put_in_self capacity gen id v store =
      let e : Entry V = record { value = v; last_access_generation = gen } in
      elim (Option-cases (Map.get id store)) [
        | inl new ↦
            rw (new, put_in) (ground (arith, Map.get-insert id id e (make_room capacity store)))
        | inr (old, found) ↦
            rw (found, put_in) (ground (arith, Map.get-update id id (λ (_ : Entry V). e) store))
      ]

  -- Under another key than the one that was put, a store reads what it read before, or nothing: an
  -- eviction makes up no value.
  pub get-put_in_ne :
      (capacity gen id j : ℕ) (v w : V) (store : Store V)
      → id ≢ j
      → peek j (put_in capacity gen id v store) ≡ some w
      → peek j store ≡ some w
  unfolding put_in
  get-put_in_ne capacity gen id j v w store ne h =
      let e : Entry V = record { value = v; last_access_generation = gen } in
      elim (Option-cases (Map.get id store)) [
        | inl new ↦ kept (
            ground
              (arith, (rw (new, put_in) at h), Map.get-insert id j e (make_room capacity store)))
        | inr (old, found) ↦
            ground
              (arith, (rw (found, put_in) at h), Map.get-update id j (λ (_ : Entry V). e) store)
      ]
    where
      kept : peek j (make_room capacity store) ≡ some w → peek j store ≡ some w
      kept p = elim (Option-cases (Map.get j (make_room capacity store))) [
        | inl gone ↦ ground arith
        | inr (x, found) ↦ unfold make_room in ground (arith, evict-keeps j x store)
      ]

  -- A lookup returns what the store holds, and changes no value.
  pub get_in-peek :
      (gen id j : ℕ) (store : Store V)
      → ((get_in gen id store).0 ≡ peek id store) × (peek j (get_in gen id store).1 ≡ peek j store)
  unfolding get_in
  get_in-peek gen id j store = elim (Option-cases (Map.get id store)) [
    | inl absent ↦ rw (absent, get_in) (refl, refl)
    | inr (x, found) ↦
        rw (found, get_in)
          (
            refl,
            ground (
              arith,
              Map.get-update id j (λ (y : Entry V). record y { last_access_generation = gen })
                  store,
            ),
          )
  ]
