-- ===== src/OrSet/Sync.antt =====
-- or_set.rs: `full_state` and `delta_since`, and what a receiver has after merging them.
use experimental_crdt.Base.{
  ◌≡◌, refl, inl, inr, true, false, not, ◌&&◌, ◌||◌, none, some, List, [], ◌∷◌, ◌++◌, map, arith,
  Option-cases, Eq, ◌==◌, nat_eq, string_eq, retain,
}
use experimental_crdt.Map.{HashMap, get, contains_key, IsMap}
use experimental_crdt.Map.Sets.{HashSet, contains as has, contains-retain}
use experimental_crdt.Clock.{CausalContext, Dot, dot_eq, DotVersionVector}
use experimental_crdt.OrSet.{
  OrSet, is_new, pairs_of, pairs_since, full_state, delta_since, dots_of, contains, merge_delta,
}
use experimental_crdt.OrSet.View.{tombed, has_add, live, has_pair}
use experimental_crdt.OrSet.Merge.{contains_ext, IsValid, live-merge_delta}

-- A tombstone of the delta is one of the sender's, and each of the sender's that is news is there.
contains_key-since :
    (m : HashMap Dot Dot) (known : CausalContext) (d : Dot)
    → IsMap m
    → contains_key (retain (λ t. is_new known t.1) m) d
      ≡ elim (get m d) [ none ↦ false | some x ↦ is_new known x ]
unfolding get
contains_key-since [] known d h = refl
contains_key-since ((a, x) ∷ m) known d h =
    ground (arith, h.0, dot_eq.beq_iff a d, contains_key-since m known d h.1)

module _ {ℓ} {E : Type ℓ} ⦃e : Eq E⦄ where
  has_pair-append :
      (xs ys : List (E × Dot)) (k : E) (d : Dot)
      → has_pair (xs ++ ys) k d ≡ (has_pair xs k d || has_pair ys k d)
  has_pair-append [] ys k d = refl
  has_pair-append ((i, j) ∷ xs) ys k d = ground (arith, has_pair-append xs ys k d)

  has_pair-map :
      (i : E) (dots : List Dot) (k : E) (d : Dot)
      → has_pair (map (λ dot. (i, dot)) dots) k d ≡ (i == k && has dots d)
  unfolding has
  has_pair-map i [] k d = ground arith
  has_pair-map i (j ∷ dots) k d = ground (arith, has_pair-map i dots k d)

  has_pair-pairs_of :
      (m : HashMap E (HashSet Dot)) (k : E) (d : Dot)
      → IsMap m
      → has_pair (pairs_of m) k d ≡ has (dots_of m k) d
  unfolding pairs_of dots_of get has
  has_pair-pairs_of [] k d h = refl
  has_pair-pairs_of ((i, dots) ∷ m) k d h = ground (
    arith,
    h.0,
    e.beq_iff i k,
    has_pair-append (map (λ dot. (i, dot)) dots) (pairs_of m) k d,
    has_pair-map i dots k d,
    has_pair-pairs_of m k d h.1,
  )

  has_pair-pairs_since :
      (known : CausalContext) (m : HashMap E (HashSet Dot)) (k : E) (d : Dot)
      → IsMap m
      → has_pair (pairs_since known m) k d ≡ (is_new known d && has (dots_of m k) d)
  unfolding pairs_since dots_of get has
  has_pair-pairs_since known [] k d h = ground arith
  has_pair-pairs_since known ((i, dots) ∷ m) k d h =
      let fresh = retain (is_new known) dots in
      ground (
        arith,
        h.0,
        e.beq_iff i k,
        has_pair-append (map (λ dot. (i, dot)) fresh) (pairs_since known m) k d,
        has_pair-map i fresh k d,
        contains-retain (is_new known) dots d,
        has_pair-pairs_since known m k d h.1,
      )

  -- The snapshot lists exactly the dots of the set, and its tombstones.
  pub has_pair-full_state :
      (s : OrSet E) (v : DotVersionVector) (k : E) (d : Dot)
      → IsValid s
      → has_pair (full_state s v).adds k d ≡ has_add s k d
  unfolding full_state
  has_pair-full_state s v k d h = has_pair-pairs_of s.adds k d h.adds_map

  pub tombstones-full_state :
      (s : OrSet E) (v : DotVersionVector) (d : Dot)
      → contains_key (full_state s v).tombstones d ≡ tombed s d
  unfolding full_state
  tombstones-full_state s v d = refl

  pub live-merge-full_state :
      (s t : OrSet E) (v : DotVersionVector) (k : E) (d : Dot)
      → IsValid s
      → IsValid t
      → live (merge_delta s (full_state t v)) k d
        ≡ ((has_add s k d || has_add t k d) && not (tombed s d || tombed t d))
  live-merge-full_state s t v k d hs ht = ground (
    arith,
    live-merge_delta s (full_state t v) k d hs,
    has_pair-full_state t v k d ht,
    tombstones-full_state t v d,
  )

  -- Two replicas that merge each other's snapshot hold the same elements, where the tables of both
  -- sets are maps.
  pub contains-merge_comm :
      (s t : OrSet E) (v w : DotVersionVector) (k : E)
      → IsValid s
      → IsValid t
      → contains (merge_delta s (full_state t v)) k ≡ contains (merge_delta t (full_state s w)) k
  contains-merge_comm s t v w k hs ht =
      contains_ext (merge_delta s (full_state t v)) (merge_delta t (full_state s w)) k (λ d.
        ground
          (arith, live-merge-full_state s t v k d hs ht, live-merge-full_state t s w k d ht hs))

  -- A replica that merges its own snapshot holds the same elements as before.
  pub contains-merge_self :
      (s : OrSet E) (v : DotVersionVector) (k : E)
      → IsValid s
      → contains (merge_delta s (full_state s v)) k ≡ contains s k
  contains-merge_self s v k h =
      contains_ext (merge_delta s (full_state s v)) s k
        (λ d. ground (arith, live-merge-full_state s s v k d h h))

  -- The receiver `r` has what its knowledge `known` says of the sender's set: each dot of the
  -- sender that `known` reaches stands for its element at the receiver too or has a tombstone
  -- there, and each removal that `known` reaches has its tombstone there.
  pub record Reflects (r s : OrSet E) (known : CausalContext) : Type ℓ where
    pub adds :
        (k : E) (d : Dot)
        → has_add s k d ≡ true
        → is_new known d ≡ false
        → (has_add r k d || tombed r d) ≡ true
    pub removals :
        (d x : Dot) → get s.tombstones d ≡ some x → is_new known x ≡ false → tombed r d ≡ true

  -- A receiver whose knowledge reflects what it has ends with the same elements from the delta
  -- computed for that knowledge as from the sender's whole snapshot, where the tables of both sets
  -- are maps.
  pub contains-merge-delta_since :
      (r s : OrSet E) (known : CausalContext) (v : DotVersionVector) (k : E)
      → IsValid r
      → IsValid s
      → Reflects r s known
      → contains (merge_delta r (delta_since s known v)) k
        ≡ contains (merge_delta r (full_state s v)) k
  unfolding delta_since
  contains-merge-delta_since r s known v k hr hs c =
      contains_ext (merge_delta r (delta_since s known v)) (merge_delta r (full_state s v)) k (λ d.
        elim (Option-cases (get s.tombstones d)) [
          | inl bare ↦ ground (
            arith,
            live-merge_delta r (delta_since s known v) k d hr,
            live-merge-full_state r s v k d hr hs,
            has_pair-pairs_since known s.adds k d hs.adds_map,
            contains_key-since s.tombstones known d hs.tombstones_map,
            c.adds k d,
          )
          | inr (x, buried) ↦ ground (
            arith,
            live-merge_delta r (delta_since s known v) k d hr,
            live-merge-full_state r s v k d hr hs,
            contains_key-since s.tombstones known d hs.tombstones_map,
            c.removals d x,
          )
        ])
