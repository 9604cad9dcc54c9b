-- ===== src/Clock.antt =====
-- src/logical_clocks/dot_version_vector.rs: dots, dotted version vectors and their operations.
-- `&mut self` methods return the new value. A counter is a `u64`; the one addition wraps at 2 ^ 64,
-- which is what a release build does (a debug build panics there).
pub mod Effective
pub mod Merge
pub mod Causality
pub mod Delta
mod Nodes
pub mod VersionVector
use Prim.Native.Nat.{compare, Ordering}
use experimental_crdt.Base.{
  ℕ, zero, suc, ◌+◌, ◌-◌, ◌*◌, ◌/◌, ◌%◌, ◌^◌, ◌≤◌, ◌<◌, max, min, String, ◌≡◌, refl, sym, ap, ◌∙◌,
  ◌≢◌, ◌↔◌, ◌⊎◌, inl, inr, Bool, true, false, not, ◌&&◌, ◌||◌, Option, none, some, List, [], ◌∷◌,
  ◌++◌, map, arith, ltb, leb, nat_eqb, nat_eqb_iff, if◌then◌else◌, Bool-cases, Option-cases,
  Bool-ext, Eq, ◌==◌, nat_eq, string_eq, beq_refl, length, any, all, retain, Result, ok, err, ok_or,
  is_ok, collect, Result-cases,
}
use experimental_crdt.Map.{HashMap, get, insert, remove, keys, or_zero}
use experimental_crdt.Map.Sets.{HashSet, extend}

-- src/common/mod.rs
abbrev pub NodeId : Type 0
NodeId = String

abbrev pub Counter : Type 0
Counter = ℕ

abbrev pub CausalContext : Type 0
CausalContext = HashMap NodeId Counter

pub record Dot : Type 0 where
  pub node_id : NodeId
  pub counter : Counter

abbrev pub dot_eqb : Dot → Dot → Bool
dot_eqb a b = a.node_id == b.node_id && nat_eqb a.counter b.counter

pub dot_eqb_iff : (a b : Dot) → (dot_eqb a b ≡ true) ↔ (a ≡ b)
dot_eqb_iff a b = ground (arith, string_eq.beq_iff a.node_id b.node_id)

-- `#[derive(PartialEq, Eq)]`
instance abbrev pub dot_eq : Eq Dot
dot_eq = record { beq = dot_eqb; beq_iff = dot_eqb_iff }

pub record DotVersionVector : Type 0 where
  pub dot : Dot
  pub context : CausalContext

-- `m.get(k).copied().unwrap_or(0)`
abbrev pub count_at : CausalContext → NodeId → Counter
count_at m k = or_zero (get m k)

-- `let e = m.entry(k).or_insert(0); *e = (*e).max(v)`
unfoldable pub entry_max : CausalContext → NodeId → Counter → CausalContext
entry_max m k v = insert m k (max (count_at m k) v)

unfoldable pub new : NodeId → DotVersionVector
new node_id = record { dot = record { node_id = node_id; counter = 0 }; context = [] }

-- `DotVersionVector::remove`
unfoldable pub forget : DotVersionVector → NodeId → DotVersionVector
forget d node_id = record d { context = remove d.context node_id }

unfoldable pub frontier_dvv : NodeId → CausalContext → DotVersionVector
frontier_dvv node_id frontier = record {
  dot = record { node_id = node_id; counter = count_at frontier node_id };
  context = frontier;
}

unfoldable pub effective_counter : DotVersionVector → NodeId → Counter
effective_counter d node_id =
    let counter = count_at d.context node_id in
    if node_id == d.dot.node_id then max counter d.dot.counter else counter

unfoldable pub effective_map : DotVersionVector → CausalContext
effective_map d =
    if ltb 0 d.dot.counter then entry_max d.context d.dot.node_id d.dot.counter else d.context

-- the union of the keys of two maps, as a `HashSet`
abbrev pub all_nodes : CausalContext → CausalContext → HashSet NodeId
all_nodes a b = extend [] (keys a ++ keys b)

-- the loop of `descends` returns false at the first node that is behind
unfoldable pub descends : DotVersionVector → DotVersionVector → Bool
descends d other =
    let self_eff = effective_map d in
    let other_eff = effective_map other in
    all (λ nid. not (ltb (count_at self_eff nid) (count_at other_eff nid)))
      (all_nodes self_eff other_eff)

unfoldable pub dominates_dot : DotVersionVector → Dot → Bool
dominates_dot d x = leb x.counter (effective_counter d x.node_id)

unfoldable pub event : DotVersionVector → DotVersionVector
event d = record {
  dot = record d.dot { counter = (d.dot.counter + 1) % 2 ^ 64 };
  context =
      if ltb 0 d.dot.counter then entry_max d.context d.dot.node_id d.dot.counter else d.context;
}

-- one round of the loop of `merge`
unfoldable pub merge_entry : DotVersionVector → NodeId → Counter → DotVersionVector
merge_entry d nid remote =
    if nid == d.dot.node_id
    then (if ltb remote d.dot.counter
        then record d { context = entry_max d.context nid remote }
        else (if ltb d.dot.counter remote
            then record {
              dot = record d.dot { counter = remote };
              context = entry_max d.context nid (remote - 1);
            }
            else d))
    else record d { context = entry_max d.context nid remote }

unfoldable pub merge_entries : DotVersionVector → CausalContext → DotVersionVector
merge_entries d [] = d
merge_entries d ((nid, remote) ∷ entries) = merge_entries (merge_entry d nid remote) entries

unfoldable pub merge : DotVersionVector → DotVersionVector → DotVersionVector
merge d other = merge_entries d (effective_map other)

-- one round of the loop of `delta_since`
abbrev pub delta_entry : NodeId → CausalContext → CausalContext → NodeId → Counter → CausalContext
delta_entry own known acc nid counter =
    if ltb (count_at known nid) counter && not (nid == own) then insert acc nid counter else acc

unfoldable pub delta_context :
    NodeId → CausalContext → CausalContext → CausalContext → CausalContext
delta_context own known acc [] = acc
delta_context own known acc ((nid, counter) ∷ entries) =
    delta_context own known (delta_entry own known acc nid counter) entries

unfoldable pub delta_since : DotVersionVector → CausalContext → DotVersionVector
delta_since d known = record {
  dot = record {
    node_id = d.dot.node_id;
    counter = if ltb (count_at known d.dot.node_id) d.dot.counter then d.dot.counter else 0;
  };
  context = delta_context d.dot.node_id known [] (effective_map d);
}

-- `match (has_less, has_greater)`
abbrev pub verdict : Bool → Bool → Option Ordering
verdict false false = some Ordering.eq
verdict true false = some Ordering.lt
verdict false true = some Ordering.gt
verdict true true = none

-- the loop of `partial_cmp`
unfoldable pub compare_nodes :
    CausalContext → CausalContext → List NodeId → Bool → Bool → Option Ordering
compare_nodes self_eff other_eff [] has_less has_greater = verdict has_less has_greater
compare_nodes self_eff other_eff (nid ∷ nodes) has_less has_greater =
    let order = compare (count_at self_eff nid) (count_at other_eff nid) in
    compare_nodes self_eff other_eff nodes (elim order [ Ordering.lt ↦ true | _ ↦ has_less ])
      (elim order [ Ordering.gt ↦ true | _ ↦ has_greater ])

unfoldable pub partial_cmp : DotVersionVector → DotVersionVector → Option Ordering
partial_cmp d other =
    let self_eff = effective_map d in
    let other_eff = effective_map other in
    compare_nodes self_eff other_eff (all_nodes self_eff other_eff) false false

unfoldable pub is_concurrent_with : DotVersionVector → DotVersionVector → Bool
is_concurrent_with d other = elim (partial_cmp d other) [ none ↦ true | some _ ↦ false ]
