-- ===== src/Clock/Effective.antt =====
-- dot_version_vector.rs: `effective_counter`, `effective_map` and `event`.
use experimental_crdt.Base.{
  ◌+◌, ◌-◌, ◌^◌, ◌≤◌, ◌<◌, max, ◌≡◌, ◌⊎◌, arith, if◌then◌else◌, ◌==◌, nat_eq, string_eq,
}
use experimental_crdt.Map.{IsMap, get, insert}
use experimental_crdt.Map.Laws.{get-insert, get-remove, insert-IsMap, remove-IsMap}
use experimental_crdt.Clock.{
  NodeId, Counter, CausalContext, DotVersionVector, count_at, entry_max, new, forget,
  effective_counter, effective_map, event,
}

pub count_at-entry_max :
    (m : CausalContext) (k j : NodeId) (v : Counter)
    → count_at (entry_max m k v) j ≡ (if k == j then max (count_at m j) v else count_at m j)
unfolding entry_max
count_at-entry_max m k j v =
    ground (arith, string_eq.beq_iff k j, get-insert m k j (max (count_at m k) v))

pub count_at-insert :
    (m : CausalContext) (k j : NodeId) (v : Counter)
    → count_at (insert m k v) j ≡ (if k == j then v else count_at m j)
count_at-insert m k j v = ground (arith, get-insert m k j v)

pub entry_max-IsMap :
    (m : CausalContext) (k : NodeId) (v : Counter) → IsMap m → IsMap (entry_max m k v)
unfolding entry_max
entry_max-IsMap m k v h = insert-IsMap m k (max (count_at m k) v) h

-- The effective map holds exactly the effective counters.
pub count_at-effective_map :
    (d : DotVersionVector) (n : NodeId) → count_at (effective_map d) n ≡ effective_counter d n
unfolding effective_map effective_counter
count_at-effective_map d n = ground (
  arith,
  string_eq.beq_iff d.dot.node_id n,
  string_eq.beq_iff n d.dot.node_id,
  count_at-entry_max d.context d.dot.node_id n d.dot.counter,
)

pub effective_map-IsMap : (d : DotVersionVector) → IsMap d.context → IsMap (effective_map d)
unfolding effective_map
effective_map-IsMap d h = ground (arith, entry_max-IsMap d.context d.dot.node_id d.dot.counter h)

-- What holds of every vector that the engine keeps: the context is a map, and it knows of the
-- node's own events only those before the dot.
pub record IsValid (d : DotVersionVector) : Type 0 where
  pub is_map : IsMap d.context
  pub outside : count_at d.context d.dot.node_id ≤ d.dot.counter - 1

-- The documented invariant: the dot lies outside the context.
abbrev pub IsOutside : DotVersionVector → Type 0
IsOutside d = (count_at d.context d.dot.node_id < d.dot.counter) ⊎ (d.dot.counter ≡ 0)

pub IsValid-IsOutside : (d : DotVersionVector) → IsValid d → IsOutside d
IsValid-IsOutside d h = ground arith

pub new-IsValid : (n : NodeId) → IsValid (new n)
unfolding new get
new-IsValid n = record { is_map = tt; outside = omega arith }

-- An event keeps the invariant, unless the counter wraps.
pub event-IsValid :
    (d : DotVersionVector) → d.dot.counter + 1 < 2 ^ 64 → IsValid d → IsValid (event d)
unfolding event
event-IsValid d fits h = record {
  is_map = ground (arith, entry_max-IsMap d.context d.dot.node_id d.dot.counter h.is_map);
  outside = ground (
    arith,
    h.outside,
    string_eq.beq_iff d.dot.node_id d.dot.node_id,
    count_at-entry_max d.context d.dot.node_id d.dot.node_id d.dot.counter,
  );
}

-- An event of a valid clock moves the node's own counter by one and no other counter, unless the
-- counter wraps.
pub effective_counter-event :
    (d : DotVersionVector) (n : NodeId)
    → d.dot.counter + 1 < 2 ^ 64
    → IsValid d
    → effective_counter (event d) n
      ≡ (if n == d.dot.node_id then effective_counter d n + 1 else effective_counter d n)
unfolding event effective_counter
effective_counter-event d n fits h = ground (
  arith,
  h.outside,
  string_eq.beq_iff d.dot.node_id n,
  string_eq.beq_iff n d.dot.node_id,
  count_at-entry_max d.context d.dot.node_id n d.dot.counter,
)

pub forget-IsValid : (d : DotVersionVector) (p : NodeId) → IsValid d → IsValid (forget d p)
unfolding forget
forget-IsValid d p h = record {
  is_map = remove-IsMap d.context p h.is_map;
  outside = ground (arith, h.outside, get-remove d.context p d.dot.node_id);
}
