-- ===== src/Gc/Initiate.antt =====
-- coordinator.rs: `initiate_gc`.
pub mod Paths
pub mod Commit
pub mod Intent
use experimental_crdt.Base.{
  ℕ, zero, suc, ◌+◌, ◌-◌, ◌*◌, ◌/◌, ◌%◌, ◌^◌, ◌≤◌, ◌<◌, max, min, String, ◌≡◌, refl, sym, ap, ◌∙◌,
  ◌≢◌, ◌↔◌, ◌⊎◌, inl, inr, Bool, true, false, not, ◌&&◌, ◌||◌, Option, none, some, List, [], ◌∷◌,
  ◌++◌, map, arith, ltb, leb, nat_eqb, nat_eqb_iff, if◌then◌else◌, Bool-cases, Option-cases,
  Bool-ext, Eq, ◌==◌, nat_eq, string_eq, beq_refl, length, any, all, retain, Result, ok, err, ok_or,
  is_ok, collect, Result-cases,
}
use experimental_crdt.Map.{remove as erase}
use experimental_crdt.Map.Sets.{HashSet}
use experimental_crdt.Clock.{
  NodeId, CausalContext, DotVersionVector, forget, frontier_dvv, effective_map,
}
use experimental_crdt.Clock.VersionVector.{vv_leq}
use experimental_crdt.Proto.{Bytes}
use experimental_crdt.Crdt.{DeltaCrdt}
use experimental_crdt.Gc.{
  EpochMetadata, EpochState, GcStorage, GcCoordinator, new_member_exists, remove_matrix_clock_row,
  remove_matrix_clock_column,
}
use experimental_crdt.Gc.Exec.{
  Exec, World, ◌>>=◌, ◌>>◌, pure, call, attempt, get_world, write_gc, set_crdt, set_dvv, set_epoch,
}
use experimental_crdt.Gc.Stable.{compute_stable_timestamp}

pub data GcInitiationAbortReason : Type 0 where
  membership_change no_progress concurrent_initiator : GcInitiationAbortReason

-- `current_epoch + 1`, on a `u64`
abbrev pub next_epoch : ℕ → ℕ
next_epoch n = (n + 1) % 2 ^ 64

module _ {S C Op Delta : Type 0} (crdt : DeltaCrdt C Op Delta) (store : GcStorage S) where
  -- the loop over the obsolete nodes, which also shrinks the stable vector
  unfoldable pub forget_nodes : CausalContext → List NodeId → Exec S C CausalContext
  forget_nodes v_stable [] = pure v_stable
  forget_nodes v_stable (p ∷ obsolete) = do
    write_gc (λ gc. remove_matrix_clock_row gc p)
    write_gc (λ gc. remove_matrix_clock_column gc p)
    set_dvv (λ dvv. forget dvv p)
    forget_nodes (erase v_stable p) obsolete

  abbrev pub metadata_of : ℕ → CausalContext → HashSet NodeId → EpochMetadata
  metadata_of n v_stable obsolete = record {
    epoch = n;
    v_stable = v_stable;
    obsolete_dots = obsolete;
  }

  -- the state that is published: the collected set, encoded, and the replica's clock
  abbrev pub state_of : ℕ → World S C → EpochState
  state_of n w = record {
    epoch = n;
    initiator_clock = effective_map w.dvv;
    state_payload = crdt.encode_delta (crdt.full_state w.crdt w.dvv);
  }

  -- from the loop over the obsolete nodes to the end
  unfoldable pub commit :
      NodeId → ℕ → CausalContext → HashSet NodeId → Exec S C (Option GcInitiationAbortReason)
  commit node_id n stable obsolete = do
    v_stable ← forget_nodes stable obsolete
    set_crdt (λ c. crdt.perform_gc c (frontier_dvv node_id v_stable))
    w ← get_world
    call (store.write_epoch_state (state_of n w))
    call (store.write_epoch_metadata (metadata_of n v_stable obsolete))
    set_epoch n
    attempt (store.release_gc_intent n)
    pure none

  -- an abort after the claim, which gives the intent back
  unfoldable pub abort : ℕ → GcInitiationAbortReason → Exec S C (Option GcInitiationAbortReason)
  abort n reason = do attempt (store.release_gc_intent n); pure (some reason)

  -- behind the check of the membership
  unfoldable pub collect_stable :
      NodeId → ℕ → CausalContext → List NodeId → Exec S C (Option GcInitiationAbortReason)
  collect_stable node_id n previous members = do
    final_dots ← call store.read_final_dots
    w ← get_world
    let stable =
        compute_stable_timestamp w.gc.matrix_clock node_id members final_dots (effective_map w.dvv)
    if vv_leq stable.0 previous then abort n no_progress else commit node_id n stable.0 stable.1

  -- behind the claim
  unfoldable pub check_members :
      NodeId → ℕ → CausalContext → List NodeId → Exec S C (Option GcInitiationAbortReason)
  check_members node_id n previous m0 = do
    m1 ← call store.live_members
    if new_member_exists m0 m1
        then abort n membership_change
        else collect_stable node_id n previous m1

  unfoldable pub initiate_gc : NodeId → Exec S C (Option GcInitiationAbortReason)
  initiate_gc node_id = do
    metadata ← call store.read_epoch_metadata
    m0 ← call store.live_members
    claimed ← call (store.claim_gc_intent (next_epoch metadata.epoch) node_id)
    if claimed
        then check_members node_id (next_epoch metadata.epoch) metadata.v_stable m0
        else pure (some concurrent_initiator)
