-- ===== src/Clock/Delta.antt =====
-- dot_version_vector.rs: `delta_since`.
use experimental_crdt.Base.{
  ◌≤◌, ◌≡◌, refl, ◌↔◌, not, ◌&&◌, [], ◌∷◌, arith, ltb, if◌then◌else◌, ◌==◌, nat_eq, string_eq,
}
use experimental_crdt.Map.{get, IsMap}
use experimental_crdt.Map.Laws.{insert-IsMap}
use experimental_crdt.Clock.{
  NodeId, CausalContext, DotVersionVector, count_at, effective_counter, effective_map, merge,
  delta_entry, delta_context, delta_since,
}
use experimental_crdt.Clock.Effective.{
  count_at-insert, count_at-effective_map, effective_map-IsMap, IsValid,
}
use experimental_crdt.Clock.Merge.{effective_counter-merge}

count_at-delta_context :
    (own : NodeId) (known acc m : CausalContext) (n : NodeId)
    → IsMap m
    → count_at (delta_context own known acc m) n ≡ (
        if ltb (count_at known n) (count_at m n) && not (n == own)
        then count_at m n
        else count_at acc n)
unfolding delta_context get
count_at-delta_context own known acc [] n h = ground arith
count_at-delta_context own known acc ((k, v) ∷ m) n h = ground (
  arith,
  h.0,
  string_eq.beq_iff k n,
  count_at-insert acc k n v,
  count_at-delta_context own known (delta_entry own known acc k v) m n h.1,
)

delta_context-IsMap :
    (own : NodeId) (known acc m : CausalContext) → IsMap acc → IsMap (delta_context own known acc m)
unfolding delta_context
delta_context-IsMap own known acc [] h = h
delta_context-IsMap own known acc ((k, v) ∷ m) h =
    delta_context-IsMap own known (delta_entry own known acc k v) m
      (ground (arith, insert-IsMap acc k v h))

pub delta_since-IsMap :
    (d : DotVersionVector) (known : CausalContext) → IsMap (delta_since d known).context
unfolding delta_since
delta_since-IsMap d known = delta_context-IsMap d.dot.node_id known [] (effective_map d) tt

-- A delta says of each node what the vector knows, where that is news to the receiver, and nothing
-- of any other node.
pub effective_counter-delta_since :
    (d : DotVersionVector) (known : CausalContext) (n : NodeId)
    → IsValid d
    → effective_counter (delta_since d known) n
      ≡ (if ltb (count_at known n) (effective_counter d n) then effective_counter d n else 0)
unfolding delta_since effective_counter get
effective_counter-delta_since d known n h = ground (
  arith,
  h.outside,
  string_eq.beq_iff n d.dot.node_id,
  count_at-effective_map d n,
  count_at-delta_context d.dot.node_id known [] (effective_map d) n
      (effective_map-IsMap d h.is_map),
)

-- A receiver that merges the delta computed from its own knowledge ends with the same effective
-- counters as one that merges the sender's whole vector, where that vector is valid.
pub merge-delta_since :
    (r d : DotVersionVector) (n : NodeId)
    → IsValid d
    → effective_counter (merge r (delta_since d (effective_map r))) n
      ≡ effective_counter (merge r d) n
merge-delta_since r d n h = ground (
  arith,
  count_at-effective_map r n,
  effective_counter-merge r d n h.is_map,
  effective_counter-merge r (delta_since d (effective_map r)) n
      (delta_since-IsMap d (effective_map r)),
  effective_counter-delta_since d (effective_map r) n h,
)

-- nothing is added for what the receiver knows already
delta_context-idle :
    (own : NodeId) (known acc m : CausalContext)
    → IsMap m
    → ((n : NodeId) → count_at m n ≤ count_at known n)
    → delta_context own known acc m ≡ acc
unfolding delta_context get
delta_context-idle own known acc [] h le = refl
delta_context-idle own known acc ((k, v) ∷ m) h le = ground (
  arith,
  le k,
  string_eq.beq_iff k k,
  delta_context-idle own known acc m h.1 (λ n. ground (arith, le n, h.0, string_eq.beq_iff k n)),
)

effective_counter-nothing :
    (d : DotVersionVector) (n : NodeId)
    → d.dot.counter ≡ 0
    → d.context ≡ []
    → effective_counter d n ≡ 0
unfolding effective_counter get
effective_counter-nothing d n no_dot no_entry = rw no_entry (ground arith)

dot-effective_counter : (d : DotVersionVector) → d.dot.counter ≤ effective_counter d d.dot.node_id
unfolding effective_counter
dot-effective_counter d = ground (arith, string_eq.beq_iff d.dot.node_id d.dot.node_id)

dot-nothing :
    (d : DotVersionVector) (known : CausalContext)
    → ((n : NodeId) → effective_counter d n ≤ count_at known n)
    → (delta_since d known).dot.counter ≡ 0
unfolding delta_since
dot-nothing d known le = ground (arith, le d.dot.node_id, dot-effective_counter d)

context-nothing :
    (d : DotVersionVector) (known : CausalContext)
    → IsValid d
    → ((n : NodeId) → effective_counter d n ≤ count_at known n)
    → (delta_since d known).context ≡ []
unfolding delta_since
context-nothing d known h le =
    delta_context-idle d.dot.node_id known [] (effective_map d) (effective_map-IsMap d h.is_map)
      (λ n. ground (arith, le n, count_at-effective_map d n))

-- A delta is empty, its dot zero and its context without an entry, exactly if the receiver knows
-- at least what the vector does of every node.
pub delta_since-empty :
    (d : DotVersionVector) (known : CausalContext)
    → IsValid d
    → (((delta_since d known).dot.counter ≡ 0) × ((delta_since d known).context ≡ []))
      ↔ ((n : NodeId) → effective_counter d n ≤ count_at known n)
delta_since-empty d known h = (
  λ (no_dot, no_entry) n. ground (
    arith,
    effective_counter-delta_since d known n h,
    effective_counter-nothing (delta_since d known) n no_dot no_entry,
  ),
  λ le. (dot-nothing d known le, context-nothing d known h le),
)
