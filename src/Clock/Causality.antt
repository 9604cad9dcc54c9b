-- ===== src/Clock/Causality.antt =====
-- dot_version_vector.rs: `descends`, `partial_cmp` and `is_concurrent_with`.
use experimental_crdt.Base.{
  ◌≤◌, ◌≡◌, ◌↔◌, inl, inr, Bool, true, false, not, ◌&&◌, ◌||◌, List, [], ◌∷◌, arith, ltb,
  Bool-cases, nat_eq, string_eq, all,
}
use experimental_crdt.Map.{contains_key}
use experimental_crdt.Map.Sets.{all_of_contains, all_intro, all_of_subset}
use experimental_crdt.Clock.{
  NodeId, CausalContext, DotVersionVector, count_at, effective_counter, effective_map, all_nodes,
  descends, verdict, compare_nodes, partial_cmp, is_concurrent_with,
}
use experimental_crdt.Clock.Nodes.{count_at-eq-zero, contains-all_nodes}
use experimental_crdt.Clock.Effective.{count_at-effective_map}

-- the first map knows of a node at least what the second does
abbrev keeps_up : CausalContext → CausalContext → NodeId → Bool
keeps_up s o nid = not (ltb (count_at s nid) (count_at o nid))

le_of_keeps_up :
    (a b : CausalContext) (k : NodeId)
    → all (keeps_up a b) (all_nodes a b) ≡ true
    → count_at b k ≤ count_at a k
le_of_keeps_up a b k h = elim (Bool-cases (contains_key b k)) [
  | inl known ↦
      let r = all_of_contains (keeps_up a b) (all_nodes a b) k in
      ground (arith, contains-all_nodes a b k, r)
  | inr absent ↦ ground (arith, count_at-eq-zero b k)
]

-- `descends` holds exactly when the other vector knows no more at any node.
pub descends_iff :
    (d other : DotVersionVector)
    → (descends d other ≡ true) ↔ ((n : NodeId) → effective_counter other n ≤ effective_counter d n)
unfolding descends
descends_iff d other = (
  λ h n. omega (
    arith,
    count_at-effective_map d n,
    count_at-effective_map other n,
    le_of_keeps_up (effective_map d) (effective_map other) n h,
  ),
  λ h.
      all_intro (keeps_up (effective_map d) (effective_map other))
        (all_nodes (effective_map d) (effective_map other))
        (λ n. ground (arith, count_at-effective_map d n, count_at-effective_map other n, h n)),
)

compare_nodes-verdict :
    (s o : CausalContext) (nodes : List NodeId) (less greater : Bool)
    → compare_nodes s o nodes less greater
      ≡ verdict (less || not (all (keeps_up s o) nodes)) (greater || not (all (keeps_up o s) nodes))
unfolding compare_nodes
compare_nodes-verdict s o [] less greater = ground arith
compare_nodes-verdict s o (n ∷ nodes) less greater = elim (Bool-cases (keeps_up s o n)) [
  | inl up ↦ elim (Bool-cases (keeps_up o s n)) [
    | inl back ↦ ground (arith, compare_nodes-verdict s o nodes less greater)
    | inr ahead ↦ ground (arith, compare_nodes-verdict s o nodes less true)
  ]
  | inr behind ↦ ground (arith, compare_nodes-verdict s o nodes true greater)
]

-- The order in which two maps are given does not matter to the set of their nodes.
all-swap :
    (p : NodeId → Bool) (a b : CausalContext)
    → all p (all_nodes a b) ≡ true
    → all p (all_nodes b a) ≡ true
all-swap p a b h =
    all_of_subset p (all_nodes a b) (all_nodes b a)
      (λ k. ground (arith, contains-all_nodes a b k, contains-all_nodes b a k)) h

-- The partial order is the pair of the two `descends` tests: equal when both hold, less or greater
-- when one does, and none when the vectors are concurrent.
pub partial_cmp-verdict :
    (d other : DotVersionVector)
    → partial_cmp d other ≡ verdict (not (descends d other)) (not (descends other d))
unfolding partial_cmp descends
partial_cmp-verdict d other =
    let s = effective_map d in
    let o = effective_map other in
    ground (
      arith,
      compare_nodes-verdict s o (all_nodes s o) false false,
      all-swap (keeps_up o s) s o,
      all-swap (keeps_up o s) o s,
    )

-- Two vectors are concurrent exactly when each knows an event that the other does not.
pub is_concurrent_with-descends :
    (d other : DotVersionVector)
    → is_concurrent_with d other ≡ (not (descends d other) && not (descends other d))
unfolding is_concurrent_with
is_concurrent_with-descends d other = ground (arith, partial_cmp-verdict d other)
