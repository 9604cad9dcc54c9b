-- ===== src/OrSet/Merge.antt =====
-- or_set.rs: `merge_delta`.
use experimental_crdt.Base.{
  ◌≡◌, refl, inl, inr, not, ◌&&◌, ◌||◌, List, [], ◌∷◌, arith, Bool-cases, Bool-ext, Eq, nat_eq,
  string_eq,
}
use experimental_crdt.Map.{HashMap, get, insert, contains_key, IsMap}
use experimental_crdt.Map.Laws.{insert-IsMap}
use experimental_crdt.Map.Sets.{HashSet, contains as has}
use experimental_crdt.Clock.{Dot, dot_eq}
use experimental_crdt.OrSet.{
  OrSet, OrSetDelta, evict, merge_tombstones, drop_empty, dots_of, contains, enter, merge_adds,
  merge_delta,
}
use experimental_crdt.OrSet.View.{
  tombed, has_add, live, has_pair, contains_key-insert, has-evict, evict-IsMap, has-drop_empty,
  drop_empty-IsMap, has-enter, enter-IsMap, contains_of_live, live_of_contains,
}

-- Both tables of the set are maps.
pub record IsValid {ℓ} {E : Type ℓ} ⦃e : Eq E⦄ (s : OrSet E) : Type 0 where
  pub adds_map : IsMap s.adds
  pub tombstones_map : IsMap s.tombstones

module _ {ℓ} {E : Type ℓ} ⦃e : Eq E⦄ where
  tombed-merge_tombstones :
      (s : OrSet E) (tombs : List (Dot × Dot)) (d : Dot)
      → tombed (merge_tombstones s tombs) d ≡ (contains_key tombs d || tombed s d)
  unfolding merge_tombstones get
  tombed-merge_tombstones s [] d = refl
  tombed-merge_tombstones s ((a, r) ∷ tombs) d =
      let s' = record s { adds = evict s.adds a; tombstones = insert s.tombstones a r } in
      ground (arith, tombed-merge_tombstones s' tombs d, contains_key-insert s.tombstones a d r)

  has_add-merge_tombstones :
      (s : OrSet E) (tombs : List (Dot × Dot)) (k : E) (d : Dot)
      → has_add (merge_tombstones s tombs) k d ≡ (not (contains_key tombs d) && has_add s k d)
  unfolding merge_tombstones get
  has_add-merge_tombstones s [] k d = refl
  has_add-merge_tombstones s ((a, r) ∷ tombs) k d =
      let s' = record s { adds = evict s.adds a; tombstones = insert s.tombstones a r } in
      ground (arith, has_add-merge_tombstones s' tombs k d, has-evict s.adds a k d)

  merge_tombstones-IsValid :
      (s : OrSet E) (tombs : List (Dot × Dot)) → IsValid s → IsValid (merge_tombstones s tombs)
  unfolding merge_tombstones
  merge_tombstones-IsValid s [] h = h
  merge_tombstones-IsValid s ((a, r) ∷ tombs) h =
      merge_tombstones-IsValid
        (record s { adds = evict s.adds a; tombstones = insert s.tombstones a r }) tombs
        (record {
          adds_map = evict-IsMap s.adds a h.adds_map;
          tombstones_map = insert-IsMap s.tombstones a r h.tombstones_map;
        })

  has-merge_adds :
      (t : HashMap Dot Dot) (m : HashMap E (HashSet Dot)) (pairs : List (E × Dot)) (k : E) (d : Dot)
      → has (dots_of (merge_adds t m pairs) k) d
        ≡ ((has_pair pairs k d && not (contains_key t d)) || has (dots_of m k) d)
  unfolding merge_adds
  has-merge_adds t m [] k d = refl
  has-merge_adds t m ((a, j) ∷ pairs) k d = elim (Bool-cases (contains_key t j)) [
    | inl buried ↦ ground (arith, dot_eq.beq_iff j d, has-merge_adds t m pairs k d)
    | inr free ↦
        ground
          (arith, dot_eq.beq_iff j d, has-merge_adds t (enter m a j) pairs k d, has-enter m a k j d)
  ]

  merge_adds-IsMap :
      (t : HashMap Dot Dot) (m : HashMap E (HashSet Dot)) (pairs : List (E × Dot))
      → IsMap m
      → IsMap (merge_adds t m pairs)
  unfolding merge_adds
  merge_adds-IsMap t m [] h = h
  merge_adds-IsMap t m ((a, j) ∷ pairs) h = elim (Bool-cases (contains_key t j)) [
    | inl buried ↦ rw buried (merge_adds-IsMap t m pairs h)
    | inr free ↦ rw free (merge_adds-IsMap t (enter m a j) pairs (enter-IsMap m a j h))
  ]

  -- The tombstoned dots of a merge are those of the set and those of the delta.
  pub tombed-merge_delta :
      (s : OrSet E) (δ : OrSetDelta E) (d : Dot)
      → tombed (merge_delta s δ) d ≡ (contains_key δ.tombstones d || tombed s d)
  unfolding merge_delta
  tombed-merge_delta s δ d = tombed-merge_tombstones s δ.tombstones d

  -- A dot stands for an element after a merge if it did before and the delta has no tombstone for
  -- it, or if the delta adds it and neither side has a tombstone for it.
  pub has_add-merge_delta :
      (s : OrSet E) (δ : OrSetDelta E) (k : E) (d : Dot)
      → IsValid s
      → has_add (merge_delta s δ) k d ≡ (
          (has_pair δ.adds k d && not (contains_key δ.tombstones d || tombed s d))
          || (not (contains_key δ.tombstones d) && has_add s k d))
  unfolding merge_delta
  has_add-merge_delta s δ k d h =
      let b = merge_tombstones s δ.tombstones in
      ground (
        arith,
        has-merge_adds b.tombstones (drop_empty b.adds) δ.adds k d,
        has-drop_empty b.adds k d (merge_tombstones-IsValid s δ.tombstones h).adds_map,
        has_add-merge_tombstones s δ.tombstones k d,
        tombed-merge_tombstones s δ.tombstones d,
      )

  -- A merge keeps both tables maps.
  pub merge_delta-IsValid : (s : OrSet E) (δ : OrSetDelta E) → IsValid s → IsValid (merge_delta s δ)
  unfolding merge_delta
  merge_delta-IsValid s δ h =
      let b = merge_tombstones s δ.tombstones in
      let v = merge_tombstones-IsValid s δ.tombstones h in
      record {
        adds_map =
            merge_adds-IsMap b.tombstones (drop_empty b.adds) δ.adds
              (drop_empty-IsMap b.adds v.adds_map);
        tombstones_map = v.tombstones_map;
      }

  -- A dot is live after a merge into a set whose tables are maps exactly when the set or the delta
  -- adds it and neither has a tombstone for it.
  pub live-merge_delta :
      (s : OrSet E) (δ : OrSetDelta E) (k : E) (d : Dot)
      → IsValid s
      → live (merge_delta s δ) k d ≡ (
          (has_add s k d || has_pair δ.adds k d) && not (tombed s d || contains_key δ.tombstones d))
  live-merge_delta s δ k d h =
      ground (arith, has_add-merge_delta s δ k d h, tombed-merge_delta s δ d)

  -- Two sets with the same live dots hold the same elements.
  pub contains_ext :
      (s t : OrSet E) (k : E) → ((d : Dot) → live s k d ≡ live t k d) → contains s k ≡ contains t k
  contains_ext s t k h =
      Bool-ext (contains s k) (contains t k)
        (λ c. let (d, l) = live_of_contains s k c in contains_of_live t k d (rw (← h d) l))
        (λ c. let (d, l) = live_of_contains t k c in contains_of_live s k d (rw (h d) l))
