-- ===== src/OrSet/Local.antt =====
-- or_set.rs: `apply_local`.
use experimental_crdt.Base.{
  ◌≡◌, refl, inl, inr, true, false, not, ◌&&◌, ◌||◌, arith, Bool-cases, Bool-ext, Eq, ◌==◌, nat_eq,
  string_eq,
}
use experimental_crdt.Map.Laws.{remove-IsMap}
use experimental_crdt.Clock.{Dot, dot_eq, DotVersionVector}
use experimental_crdt.OrSet.{
  OrSet, add, remove, dots_of, contains, apply_local, merge_delta, full_state,
}
use experimental_crdt.OrSet.View.{
  tombed, has_add, live, contains_key-bury, bury-IsMap, has-enter, enter-IsMap, has-remove_key,
  contains_of_live, live_of_contains,
}
use experimental_crdt.OrSet.Merge.{IsValid}
use experimental_crdt.OrSet.Sync.{live-merge-full_state}

module _ {ℓ} {E : Type ℓ} ⦃e : Eq E⦄ where
  -- No dot stands for two elements.
  abbrev pub IsUnique : OrSet E → Type ℓ
  IsUnique s = (k j : E) (d : Dot) → has_add s k d ≡ true → has_add s j d ≡ true → k ≡ j

  -- The dot is not in use: it stands for no element and has no tombstone.
  abbrev pub IsFresh : OrSet E → Dot → Type ℓ
  IsFresh s d = ((k : E) → has_add s k d ≡ false) × (tombed s d ≡ false)

  pub has_add-add :
      (s : OrSet E) (dot : Dot) (a k : E) (d : Dot)
      → has_add (apply_local s dot (add a)) k d ≡ ((a == k && dot == d) || has_add s k d)
  unfolding apply_local
  has_add-add s dot a k d = has-enter s.adds a k dot d

  pub tombed-add :
      (s : OrSet E) (dot : Dot) (a : E) (d : Dot)
      → tombed (apply_local s dot (add a)) d ≡ tombed s d
  unfolding apply_local
  tombed-add s dot a d = refl

  pub has_add-remove :
      (s : OrSet E) (dot : Dot) (a k : E) (d : Dot)
      → has_add (apply_local s dot (remove a)) k d ≡ (not (a == k) && has_add s k d)
  unfolding apply_local
  has_add-remove s dot a k d = has-remove_key s.adds a k d

  pub tombed-remove :
      (s : OrSet E) (dot : Dot) (a : E) (d : Dot)
      → tombed (apply_local s dot (remove a)) d ≡ (has_add s a d || tombed s d)
  unfolding apply_local
  tombed-remove s dot a d = contains_key-bury s.tombstones (dots_of s.adds a) dot d

  -- Both operations keep the tables maps.
  pub add-IsValid :
      (s : OrSet E) (dot : Dot) (a : E) → IsValid s → IsValid (apply_local s dot (add a))
  unfolding apply_local
  add-IsValid s dot a v = record {
    adds_map = enter-IsMap s.adds a dot v.adds_map;
    tombstones_map = v.tombstones_map;
  }

  pub remove-IsValid :
      (s : OrSet E) (dot : Dot) (a : E) → IsValid s → IsValid (apply_local s dot (remove a))
  unfolding apply_local
  remove-IsValid s dot a v = record {
    adds_map = remove-IsMap s.adds a v.adds_map;
    tombstones_map = bury-IsMap s.tombstones (dots_of s.adds a) dot v.tombstones_map;
  }

  -- An element that is added under a dot without a tombstone is in the set, and every other element
  -- is in it exactly if it was before.
  pub contains-add :
      (s : OrSet E) (dot : Dot) (a k : E)
      → tombed s dot ≡ false
      → contains (apply_local s dot (add a)) k ≡ (a == k || contains s k)
  contains-add s dot a k free =
      let s' = apply_local s dot (add a) in
      Bool-ext (contains s' k) (a == k || contains s k)
        (λ c.
          let (d, l) = live_of_contains s' k c in
          ground (arith, has_add-add s dot a k d, tombed-add s dot a d, contains_of_live s k d))
        (λ c. elim (Bool-cases (a == k)) [
          | inl same ↦ contains_of_live s' k dot (
              ground
                (arith, has_add-add s dot a k dot, tombed-add s dot a dot, dot_eq.beq_iff dot dot))
          | inr other ↦
              let (d, l) = live_of_contains s k (ground arith) in
              contains_of_live s' k d
                (ground (arith, has_add-add s dot a k d, tombed-add s dot a d))
        ])

  -- Where no dot stands for two elements, a removed element is gone and every other element is in
  -- the set exactly if it was before.
  pub contains-remove :
      (s : OrSet E) (dot : Dot) (a k : E)
      → IsUnique s
      → contains (apply_local s dot (remove a)) k ≡ (not (a == k) && contains s k)
  contains-remove s dot a k u =
      let s' = apply_local s dot (remove a) in
      Bool-ext (contains s' k) (not (a == k) && contains s k)
        (λ c.
          let (d, l) = live_of_contains s' k c in
          ground
            (arith, has_add-remove s dot a k d, tombed-remove s dot a d, contains_of_live s k d))
        (λ c.
          let (d, l) = live_of_contains s k (ground arith) in
          contains_of_live s' k d (
            ground
              (arith, has_add-remove s dot a k d, tombed-remove s dot a d, u a k d, e.beq_iff a k)))

  -- An add wins over a concurrent removal: one replica removes the element, another adds it under
  -- a dot that is fresh to the first and has no tombstone at the second, and after the first
  -- merges the snapshot of the second the element is in its set. The tables of both sets are maps.
  pub add_wins :
      (s t : OrSet E) (removal dot : Dot) (a : E) (v : DotVersionVector)
      → IsValid s
      → IsValid t
      → IsFresh s dot
      → tombed t dot ≡ false
      → contains
          (merge_delta
            (apply_local s removal (remove a))
            (full_state (apply_local t dot (add a)) v))
          a
        ≡ true
  add_wins s t removal dot a v hs ht fresh free =
      let s' = apply_local s removal (remove a) in
      let t' = apply_local t dot (add a) in
      contains_of_live (merge_delta s' (full_state t' v)) a dot (
        ground (
          arith,
          live-merge-full_state s' t' v a dot (remove-IsValid s removal a hs)
              (add-IsValid t dot a ht),
          has_add-add t dot a a dot,
          tombed-add t dot a dot,
          tombed-remove s removal a dot,
          fresh.0 a,
          fresh.1,
          e.beq_iff a a,
          dot_eq.beq_iff dot dot,
        ))

  -- A removal reaches a replica each of whose live dots for the element stands for it at the
  -- remover too or has a tombstone there: after it merges the remover's snapshot the element is
  -- gone. The tables of both sets are maps.
  pub remove_spreads :
      (s t : OrSet E) (removal : Dot) (a : E) (v : DotVersionVector)
      → IsValid s
      → IsValid t
      → ((d : Dot) → live t a d ≡ true → (has_add s a d || tombed s d) ≡ true)
      → contains (merge_delta t (full_state (apply_local s removal (remove a)) v)) a ≡ false
  remove_spreads s t removal a v hs ht observed =
      let s' = apply_local s removal (remove a) in
      let m = merge_delta t (full_state s' v) in
      Bool-ext (contains m a) false
        (λ c.
          let (d, l) = live_of_contains m a c in
          ground (
            arith,
            live-merge-full_state t s' v a d ht (remove-IsValid s removal a hs),
            has_add-remove s removal a a d,
            tombed-remove s removal a d,
            observed d,
            e.beq_iff a a,
          ))
        (λ c. ground arith)
