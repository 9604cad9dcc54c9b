-- ===== src/Clock/Merge.antt =====
-- dot_version_vector.rs: `merge`.
use experimental_crdt.Base.{
  ◌-◌, max, ◌≡◌, refl, ◌∙◌, [], ◌∷◌, arith, if◌then◌else◌, ◌==◌, nat_eq, string_eq,
}
use experimental_crdt.Map.{get, IsMap}
use experimental_crdt.Clock.{
  NodeId, Counter, CausalContext, DotVersionVector, count_at, effective_counter, effective_map,
  merge_entry, merge_entries, merge,
}
use experimental_crdt.Clock.Effective.{
  count_at-entry_max, entry_max-IsMap, count_at-effective_map, effective_map-IsMap, IsValid,
}

effective_counter-merge_entry :
    (d : DotVersionVector) (k n : NodeId) (v : Counter)
    → effective_counter (merge_entry d k v) n
      ≡ (if k == n then max (effective_counter d n) v else effective_counter d n)
unfolding merge_entry effective_counter
effective_counter-merge_entry d k n v = ground (
  arith,
  string_eq.beq_iff k n,
  string_eq.beq_iff k d.dot.node_id,
  string_eq.beq_iff n d.dot.node_id,
  count_at-entry_max d.context k n v,
  count_at-entry_max d.context k n (v - 1),
)

effective_counter-merge_entries :
    (d : DotVersionVector) (m : CausalContext) (n : NodeId)
    → IsMap m
    → effective_counter (merge_entries d m) n ≡ max (effective_counter d n) (count_at m n)
unfolding merge_entries get
effective_counter-merge_entries d [] n h = omega arith
effective_counter-merge_entries d ((k, v) ∷ m) n h = ground (
  arith,
  h.0,
  string_eq.beq_iff k n,
  effective_counter-merge_entries (merge_entry d k v) m n h.1,
  effective_counter-merge_entry d k n v,
)

-- After a merge, the effective counter of every node, the vector's own included, is the greater of
-- the two before, where the other's context is a map.
pub effective_counter-merge :
    (d other : DotVersionVector) (n : NodeId)
    → IsMap other.context
    → effective_counter (merge d other) n ≡ max (effective_counter d n) (effective_counter other n)
unfolding merge
effective_counter-merge d other n h = ground (
  arith,
  effective_counter-merge_entries d (effective_map other) n (effective_map-IsMap other h),
  count_at-effective_map other n,
)

merge_entry-IsValid :
    (d : DotVersionVector) (k : NodeId) (v : Counter) → IsValid d → IsValid (merge_entry d k v)
unfolding merge_entry
merge_entry-IsValid d k v h = ground (
  arith,
  h.outside,
  string_eq.beq_iff k d.dot.node_id,
  count_at-entry_max d.context k d.dot.node_id v,
  count_at-entry_max d.context k d.dot.node_id (v - 1),
  entry_max-IsMap d.context k v h.is_map,
  entry_max-IsMap d.context k (v - 1) h.is_map,
)

merge_entries-IsValid :
    (d : DotVersionVector) (m : CausalContext) → IsValid d → IsValid (merge_entries d m)
unfolding merge_entries
merge_entries-IsValid d [] h = h
merge_entries-IsValid d ((k, v) ∷ m) h =
    merge_entries-IsValid (merge_entry d k v) m (merge_entry-IsValid d k v h)

-- A merge keeps a valid clock valid, with the dot outside the context, whatever is merged in.
pub merge-IsValid : (d other : DotVersionVector) → IsValid d → IsValid (merge d other)
unfolding merge
merge-IsValid d other h = merge_entries-IsValid d (effective_map other) h

node_id-merge_entries :
    (d : DotVersionVector) (m : CausalContext) → (merge_entries d m).dot.node_id ≡ d.dot.node_id
unfolding merge_entries merge_entry
node_id-merge_entries d [] = refl
node_id-merge_entries d ((k, v) ∷ m) = node_id-merge_entries (merge_entry d k v) m ∙ ground arith

pub node_id-merge : (d other : DotVersionVector) → (merge d other).dot.node_id ≡ d.dot.node_id
unfolding merge
node_id-merge d other = node_id-merge_entries d (effective_map other)
