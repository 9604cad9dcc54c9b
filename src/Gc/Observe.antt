-- ===== src/Gc/Observe.antt =====
-- coordinator.rs: `observe_epoch_change` and `new_replica_bootstrap`.
pub mod Epochs
pub mod Waiting
use experimental_crdt.Base.{
  ℕ, zero, suc, ◌+◌, ◌-◌, ◌*◌, ◌/◌, ◌%◌, ◌^◌, ◌≤◌, ◌<◌, max, min, String, ◌≡◌, refl, sym, ap, ◌∙◌,
  ◌≢◌, ◌↔◌, ◌⊎◌, inl, inr, Bool, true, false, not, ◌&&◌, ◌||◌, Option, none, some, List, [], ◌∷◌,
  ◌++◌, map, arith, ltb, leb, nat_eqb, nat_eqb_iff, if◌then◌else◌, Bool-cases, Option-cases,
  Bool-ext, Eq, ◌==◌, nat_eq, string_eq, beq_refl, length, any, all, retain, Result, ok, err, ok_or,
  is_ok, collect, Result-cases,
}
use experimental_crdt.Map.{is_some}
use experimental_crdt.Clock.{NodeId, DotVersionVector, forget, frontier_dvv, merge}
use experimental_crdt.Crdt.{DeltaCrdt}
use experimental_crdt.Gc.{
  EpochMetadata, EpochState, GcStorage, GcCoordinator, remove_matrix_clock_row,
  remove_matrix_clock_column,
}
use experimental_crdt.Gc.Exec.{
  Exec, World, polls, outcome, ◌>>=◌, ◌>>◌, pure, call, get_world, write_gc, set_crdt, set_dvv,
  set_epoch,
}
use experimental_crdt.Gc.Initiate.{next_epoch}

module _ {S C Op Delta : Type 0} (crdt : DeltaCrdt C Op Delta) (store : GcStorage S) where
  -- the loop over the obsolete nodes of an epoch; the two matrix methods test `gc_replica` again
  unfoldable pub drop_nodes : List NodeId → Exec S C (Unit {0})
  drop_nodes [] = pure tt
  drop_nodes (p ∷ obsolete) = do
    set_dvv (λ dvv. forget dvv p)
    write_gc (λ gc. remove_matrix_clock_row gc p)
    write_gc (λ gc. remove_matrix_clock_column gc p)
    drop_nodes obsolete

  -- a newer epoch: collect by its frontier, and forget its obsolete nodes
  unfoldable pub enter_epoch : NodeId → EpochMetadata → Exec S C Bool
  enter_epoch node_id metadata = do
    set_crdt (λ c. crdt.perform_gc c (frontier_dvv node_id metadata.v_stable))
    set_epoch metadata.epoch
    drop_nodes metadata.obsolete_dots
    pure true

  unfoldable pub observe_epoch_change : NodeId → Exec S C Bool
  observe_epoch_change node_id = do
    metadata ← call store.read_epoch_metadata
    w ← get_world
    if leb metadata.epoch w.gc.epoch then pure false else enter_epoch node_id metadata

  abbrev out_of_fuel : {A : Type 0} → Exec S C A
  out_of_fuel w = (polls, w)

  -- The loop that waits for a running collection to end: each round reads the epoch and the intent.
  unfoldable pub await_intent : ℕ → ℕ → ℕ → Exec S C ℕ
  await_intent zero current next = out_of_fuel
  await_intent (suc fuel) current next = do
    metadata ← call store.read_epoch_metadata
    intent ← call (store.read_gc_intent next)
    elim (ltb current metadata.epoch || (elim (is_some intent) [ true ↦ false | false ↦ true ])) [
      | true ↦ pure metadata.epoch
      | false ↦ await_intent fuel current next
    ]

  -- The loop that waits until the published state is of the epoch.
  unfoldable pub await_state : ℕ → ℕ → Exec S C EpochState
  await_state zero current = out_of_fuel
  await_state (suc fuel) current = do
    state ← call store.read_epoch_state
    elim (nat_eqb state.epoch current) [ true ↦ pure state | false ↦ await_state fuel current ]

  -- behind the two loops: merge the published state and its clock
  unfoldable pub adopt : NodeId → ℕ → EpochState → Exec S C (Unit {0})
  adopt node_id current state = do
    delta ← (λ w. (outcome (crdt.decode_delta state.state_payload), w))
    set_crdt (λ c. crdt.merge_delta c delta)
    set_dvv (λ dvv. merge dvv (frontier_dvv node_id state.initiator_clock))
    set_epoch current

  unfoldable pub settled_epoch : ℕ → ℕ → Exec S C ℕ
  settled_epoch fuel current = do
    intent ← call (store.read_gc_intent (next_epoch current))
    elim intent [ none ↦ pure current | some _ ↦ await_intent fuel current (next_epoch current) ]

  unfoldable pub new_replica_bootstrap : ℕ → NodeId → Exec S C (Unit {0})
  new_replica_bootstrap fuel node_id = do
    metadata ← call store.read_epoch_metadata
    current ← settled_epoch fuel metadata.epoch
    state ← await_state fuel current
    adopt node_id current state
