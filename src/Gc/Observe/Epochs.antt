-- ===== src/Gc/Observe/Epochs.antt =====
-- coordinator.rs: epochs as a replica observes them.
use experimental_crdt.Base.{
  ℕ, suc, max, ◌≡◌, refl, true, false, none, some, List, [], ◌∷◌, arith, leb, nat_eq, string_eq, ok,
}
use experimental_crdt.Map.{IsMap}
use experimental_crdt.Clock.{
  NodeId, CausalContext, count_at, effective_counter, forget, frontier_dvv,
}
use experimental_crdt.Clock.Merge.{effective_counter-merge}
use experimental_crdt.Crdt.{DeltaCrdt}
use experimental_crdt.Gc.{
  GcStorage, GcCoordinator, EpochMetadata, EpochState, remove_matrix_clock_row,
  remove_matrix_clock_column,
}
use experimental_crdt.Map.{remove as erase}
use experimental_crdt.Gc.{drop_column}
use experimental_crdt.Gc.Exec.{resume, World, returns, settle}
use experimental_crdt.Gc.Initiate.{next_epoch}
use experimental_crdt.Gc.Matrix.{IsReady, write_matrix-IsReady}
use experimental_crdt.Gc.Observe.{
  drop_nodes, enter_epoch, observe_epoch_change, await_state, adopt, settled_epoch,
  new_replica_bootstrap,
}

pub row-IsReady :
    (gc : GcCoordinator) (p : NodeId)
    → IsReady gc
    → (gc' : GcCoordinator) × (remove_matrix_clock_row gc p ≡ some gc') × IsReady gc'
unfolding remove_matrix_clock_row
row-IsReady gc p h = write_matrix-IsReady gc (λ mc. erase mc p) h

pub column-IsReady :
    (gc : GcCoordinator) (p : NodeId)
    → IsReady gc
    → (gc' : GcCoordinator) × (remove_matrix_clock_column gc p ≡ some gc') × IsReady gc'
unfolding remove_matrix_clock_column
column-IsReady gc p h = write_matrix-IsReady gc (λ mc. drop_column mc p) h

row-epoch :
    (gc gc' : GcCoordinator) (p : NodeId)
    → remove_matrix_clock_row gc p ≡ some gc'
    → gc'.epoch ≡ gc.epoch
unfolding remove_matrix_clock_row
row-epoch gc gc' p h = ground arith

column-epoch :
    (gc gc' : GcCoordinator) (p : NodeId)
    → remove_matrix_clock_column gc p ≡ some gc'
    → gc'.epoch ≡ gc.epoch
unfolding remove_matrix_clock_column
column-epoch gc gc' p h = ground arith

effective_counter-frontier_dvv :
    (node : NodeId) (c : CausalContext) (n : NodeId)
    → effective_counter (frontier_dvv node c) n ≡ count_at c n
unfolding effective_counter frontier_dvv
effective_counter-frontier_dvv node c n = ground (arith, string_eq.beq_iff n node)

context-frontier_dvv :
    (node : NodeId) (c : CausalContext) → IsMap c → IsMap (frontier_dvv node c).context
unfolding frontier_dvv
context-frontier_dvv node c m = m

module _ {S C Op Delta : Type 0} (crdt : DeltaCrdt C Op Delta) (store : GcStorage S) where
  drop_nodes-returns :
      (ps : List NodeId) (w : World S C)
      → IsReady w.gc
      → ((drop_nodes crdt store ps w).0 ≡ returns tt)
        × IsReady (drop_nodes crdt store ps w).1.gc
        × ((drop_nodes crdt store ps w).1.gc.epoch ≡ w.gc.epoch)
        × ((drop_nodes crdt store ps w).1.crdt ≡ w.crdt)
  unfolding drop_nodes
  drop_nodes-returns [] w h = (refl, h, refl, refl)
  drop_nodes-returns (p ∷ ps) w h =
      let (g, row, ready) = row-IsReady w.gc p h in
      let (g', column, ready') = column-IsReady g p ready in
      let w' = record w { gc = g'; dvv = forget w.dvv p } in
      let (done, kept, epoch, same) = drop_nodes-returns ps w' ready' in
      rw (row, settle, resume, column, settle, resume)
        (done, kept, ground (arith, row-epoch w.gc g p row, column-epoch g g' p column), same)

  -- A replica that reads the metadata of an epoch it has reached keeps its set and its epoch; at a
  -- newer epoch it collects by the published frontier and moves to that epoch. It does not panic
  -- if its coordinator is ready, and the coordinator stays ready.
  pub observe_epoch_change_lem :
      (node : NodeId) (w : World S C) (md : EpochMetadata)
      → (store.read_epoch_metadata w.storage).0 ≡ ok md
      → IsReady w.gc
      → let w' = (observe_epoch_change crdt store node w).1 in
        IsReady w'.gc
        × ((observe_epoch_change crdt store node w).0
            ≡ returns (elim (leb md.epoch w.gc.epoch) [ true ↦ false | false ↦ true ]))
        × (w'.gc.epoch ≡ max w.gc.epoch md.epoch)
        × (w'.crdt ≡ elim (leb md.epoch w.gc.epoch) [
          | true ↦ w.crdt
          | false ↦ crdt.perform_gc w.crdt (frontier_dvv node md.v_stable)
        ])
  unfolding observe_epoch_change enter_epoch
  observe_epoch_change_lem node w md read ready =
      let w' = record w {
        storage = (store.read_epoch_metadata w.storage).1;
        crdt = crdt.perform_gc w.crdt (frontier_dvv node md.v_stable);
        gc = record w.gc { epoch = md.epoch };
      } in
      let facts = drop_nodes-returns md.obsolete_dots w' ready in
      (ground (arith, facts), ground (arith, facts), ground (arith, facts), ground (arith, facts))

  -- the storage as the first calls of the bootstrap leave it
  abbrev pub after_metadata : World S C → S
  after_metadata w = (store.read_epoch_metadata w.storage).1

  abbrev pub after_intent : World S C → ℕ → S
  after_intent w n = (store.read_gc_intent n (after_metadata w)).1

  -- A replica that starts while no intent is claimed and the published state is of the current
  -- epoch and decodes, with fuel for one poll, merges that state, stands at that epoch, and knows
  -- of every node what it knew or the publisher knew, whichever is more; the publisher's clock is
  -- a map.
  pub new_replica_bootstrap_lem :
      (fuel : ℕ) (node : NodeId) (w : World S C) (md : EpochMetadata) (st : EpochState) (δ : Delta)
      (n : NodeId)
      → (store.read_epoch_metadata w.storage).0 ≡ ok md
      → (store.read_gc_intent (next_epoch md.epoch) (after_metadata w)).0 ≡ ok none
      → (store.read_epoch_state (after_intent w (next_epoch md.epoch))).0 ≡ ok st
      → st.epoch ≡ md.epoch
      → crdt.decode_delta st.state_payload ≡ ok δ
      → IsMap st.initiator_clock
      → ((new_replica_bootstrap crdt store (suc fuel) node w).0 ≡ returns tt)
        × ((new_replica_bootstrap crdt store (suc fuel) node w).1.crdt ≡ crdt.merge_delta w.crdt δ)
        × ((new_replica_bootstrap crdt store (suc fuel) node w).1.gc.epoch ≡ md.epoch)
        × (effective_counter (new_replica_bootstrap crdt store (suc fuel) node w).1.dvv n
            ≡ max (effective_counter w.dvv n) (count_at st.initiator_clock n))
  unfolding new_replica_bootstrap settled_epoch await_state adopt
  new_replica_bootstrap_lem fuel node w md st δ n h₁ h₂ h₃ same decoded m =
      let known =
        effective_counter-merge w.dvv (frontier_dvv node st.initiator_clock) n
          (context-frontier_dvv node st.initiator_clock m) in
      let news = effective_counter-frontier_dvv node st.initiator_clock n in
      (ground arith, ground arith, ground arith, ground (arith, known, news))
