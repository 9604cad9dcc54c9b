-- ===== src/Gc/Invariant.antt =====
-- coordinator.rs: the invariant of a replica through every method.
use experimental_crdt.Base.{
  ℕ, zero, suc, Bool, true, false, ◌||◌, Option, none, some, List, [], ◌∷◌, ltb, leb, nat_eqb,
  nat_eq, string_eq,
}
use experimental_crdt.Map.{is_some, remove as erase}
use experimental_crdt.Clock.{NodeId, CausalContext, frontier_dvv, forget, merge, effective_map}
use experimental_crdt.Clock.VersionVector.{vv_leq}
use experimental_crdt.Gc.Stable.{compute_stable_timestamp}
use experimental_crdt.Clock.Effective.{forget-IsValid}
use experimental_crdt.Clock.Merge.{merge-IsValid}
use experimental_crdt.Map.Sets.{HashSet}
use experimental_crdt.Crdt.{DeltaCrdt}
use experimental_crdt.Gc.{
  GcStorage, GcIntentRecord, EpochMetadata, EpochState, new_member_exists, remove_matrix_clock_row,
  remove_matrix_clock_column,
}
use experimental_crdt.Gc.Exec.{Exec, pure}
use experimental_crdt.Gc.Exec.Keeps.{
  Keeps, bind-Keeps, pure-Keeps, lift-Keeps, call-Keeps, attempt-Keeps, get_world-Keeps,
  set_crdt-Keeps, set_epoch-Keeps, set_dvv-Keeps, write_gc-Keeps, if-Keeps,
}
use experimental_crdt.Gc.Initiate.{
  GcInitiationAbortReason, membership_change, no_progress, concurrent_initiator, next_epoch,
  state_of, metadata_of, forget_nodes, commit, abort, collect_stable, check_members, initiate_gc,
}
use experimental_crdt.Gc.Observe.{
  drop_nodes, enter_epoch, observe_epoch_change, await_intent, await_state, adopt, settled_epoch,
  new_replica_bootstrap,
}
use experimental_crdt.Gc.Observe.Epochs.{row-IsReady, column-IsReady}

module _ {S C Op Delta : Type 0} (crdt : DeltaCrdt C Op Delta) (store : GcStorage S) where
  forget_nodes-Keeps : (v : CausalContext) (ps : List NodeId) → Keeps (forget_nodes crdt store v ps)
  unfolding forget_nodes
  forget_nodes-Keeps v [] = pure-Keeps v
  forget_nodes-Keeps v (p ∷ ps) =
      bind-Keeps (write_gc-Keeps (λ gc. remove_matrix_clock_row gc p) (λ gc. row-IsReady gc p)) λ _.
        bind-Keeps
          (write_gc-Keeps (λ gc. remove_matrix_clock_column gc p) (λ gc. column-IsReady gc p))
          λ _.
            bind-Keeps (set_dvv-Keeps (λ d. forget d p) (λ d. forget-IsValid d p))
              λ _. forget_nodes-Keeps (erase v p) ps

  commit-Keeps :
      (node : NodeId) (n : ℕ) (v : CausalContext) (ps : HashSet NodeId)
      → Keeps (commit crdt store node n v ps)
  unfolding commit
  commit-Keeps node n v ps = bind-Keeps (forget_nodes-Keeps v ps) λ v'.
      bind-Keeps (set_crdt-Keeps (λ c. crdt.perform_gc c (frontier_dvv node v'))) λ _.
        bind-Keeps get_world-Keeps λ w.
          bind-Keeps (call-Keeps (store.write_epoch_state (state_of crdt store n w))) λ _.
            bind-Keeps (call-Keeps (store.write_epoch_metadata (metadata_of crdt store n v' ps)))
              λ _.
                bind-Keeps (set_epoch-Keeps n)
                  λ _. bind-Keeps (attempt-Keeps (store.release_gc_intent n)) λ _. pure-Keeps none

  abort-Keeps : (n : ℕ) (r : GcInitiationAbortReason) → Keeps (abort crdt store n r)
  unfolding abort
  abort-Keeps n r = bind-Keeps (attempt-Keeps (store.release_gc_intent n)) λ _. pure-Keeps (some r)

  collect_stable-Keeps :
      (node : NodeId) (n : ℕ) (previous : CausalContext) (members : List NodeId)
      → Keeps (collect_stable crdt store node n previous members)
  unfolding collect_stable
  collect_stable-Keeps node n previous members =
      bind-Keeps (call-Keeps store.read_final_dots) λ dots. bind-Keeps get_world-Keeps λ w.
        let stable =
          compute_stable_timestamp w.gc.matrix_clock node members dots (effective_map w.dvv) in
        if-Keeps (vv_leq stable.0 previous) (abort-Keeps n no_progress)
          (commit-Keeps node n stable.0 stable.1)

  check_members-Keeps :
      (node : NodeId) (n : ℕ) (previous : CausalContext) (m0 : List NodeId)
      → Keeps (check_members crdt store node n previous m0)
  unfolding check_members
  check_members-Keeps node n previous m0 = bind-Keeps (call-Keeps store.live_members) λ m1.
      if-Keeps (new_member_exists m0 m1) (abort-Keeps n membership_change)
        (collect_stable-Keeps node n previous m1)

  -- An initiation keeps the replica sound, however it ends, and does not panic.
  pub initiate_gc-Keeps : (node : NodeId) → Keeps (initiate_gc crdt store node)
  unfolding initiate_gc
  initiate_gc-Keeps node = bind-Keeps (call-Keeps store.read_epoch_metadata) λ md.
      bind-Keeps (call-Keeps store.live_members) λ m0.
        bind-Keeps (call-Keeps (store.claim_gc_intent (next_epoch md.epoch) node)) λ claimed.
          if-Keeps claimed (check_members-Keeps node (next_epoch md.epoch) md.v_stable m0)
            (pure-Keeps (some concurrent_initiator))

  drop_nodes-Keeps : (ps : List NodeId) → Keeps (drop_nodes crdt store ps)
  unfolding drop_nodes
  drop_nodes-Keeps [] = pure-Keeps tt
  drop_nodes-Keeps (p ∷ ps) =
      bind-Keeps (set_dvv-Keeps (λ d. forget d p) (λ d. forget-IsValid d p)) λ _.
        bind-Keeps (write_gc-Keeps (λ gc. remove_matrix_clock_row gc p) (λ gc. row-IsReady gc p))
          λ _.
            bind-Keeps
              (write_gc-Keeps (λ gc. remove_matrix_clock_column gc p) (λ gc. column-IsReady gc p))
              λ _. drop_nodes-Keeps ps

  enter_epoch-Keeps : (node : NodeId) (md : EpochMetadata) → Keeps (enter_epoch crdt store node md)
  unfolding enter_epoch
  enter_epoch-Keeps node md =
      bind-Keeps (set_crdt-Keeps (λ c. crdt.perform_gc c (frontier_dvv node md.v_stable))) λ _.
        bind-Keeps (set_epoch-Keeps md.epoch)
          λ _. bind-Keeps (drop_nodes-Keeps md.obsolete_dots) λ _. pure-Keeps true

  -- Observing an epoch keeps the replica sound and does not panic.
  pub observe_epoch_change-Keeps : (node : NodeId) → Keeps (observe_epoch_change crdt store node)
  unfolding observe_epoch_change
  observe_epoch_change-Keeps node = bind-Keeps (call-Keeps store.read_epoch_metadata) λ md.
      bind-Keeps get_world-Keeps
        λ w. if-Keeps (leb md.epoch w.gc.epoch) (pure-Keeps false) (enter_epoch-Keeps node md)

  choose-Keeps :
      {A : Type 0} (b : Bool) {m n : Exec S C A}
      → Keeps m
      → Keeps n
      → Keeps {S = S} {C = C} {A = A} (elim b [ true ↦ m | false ↦ n ])
  choose-Keeps true h k = h
  choose-Keeps false h k = k

  await_intent-Keeps : (fuel current next : ℕ) → Keeps (await_intent crdt store fuel current next)
  unfolding await_intent
  await_intent-Keeps zero current next = record { at = λ w s. (tt, s) }
  await_intent-Keeps (suc fuel) current next =
      bind-Keeps (call-Keeps store.read_epoch_metadata) λ md.
        bind-Keeps (call-Keeps (store.read_gc_intent next)) λ intent.
          choose-Keeps
            (ltb current md.epoch || (elim (is_some intent) [ true ↦ false | false ↦ true ]))
            (pure-Keeps md.epoch) (await_intent-Keeps fuel current next)

  await_state-Keeps : (fuel current : ℕ) → Keeps (await_state crdt store fuel current)
  unfolding await_state
  await_state-Keeps zero current = record { at = λ w s. (tt, s) }
  await_state-Keeps (suc fuel) current =
      bind-Keeps (call-Keeps store.read_epoch_state) λ st.
        choose-Keeps (nat_eqb st.epoch current) (pure-Keeps st) (await_state-Keeps fuel current)

  settle_on :
      (fuel current next : ℕ) (intent : Option GcIntentRecord)
      → Keeps {S = S} {C = C} {A = ℕ}
          (elim intent [ none ↦ pure current | some _ ↦ await_intent crdt store fuel current next ])
  settle_on fuel current next none = pure-Keeps current
  settle_on fuel current next (some _) = await_intent-Keeps fuel current next

  settled_epoch-Keeps : (fuel current : ℕ) → Keeps (settled_epoch crdt store fuel current)
  unfolding settled_epoch
  settled_epoch-Keeps fuel current =
      bind-Keeps (call-Keeps (store.read_gc_intent (next_epoch current)))
        λ intent. settle_on fuel current (next_epoch current) intent

  adopt-Keeps :
      (node : NodeId) (current : ℕ) (st : EpochState) → Keeps (adopt crdt store node current st)
  unfolding adopt
  adopt-Keeps node current st =
      let frontier = frontier_dvv node st.initiator_clock in
      bind-Keeps (lift-Keeps (crdt.decode_delta st.state_payload)) λ δ.
        bind-Keeps (set_crdt-Keeps (λ c. crdt.merge_delta c δ)) λ _.
          bind-Keeps (set_dvv-Keeps (λ d. merge d frontier) (λ d. merge-IsValid d frontier))
            λ _. set_epoch-Keeps current

  -- The bootstrap keeps the replica sound and does not panic.
  pub new_replica_bootstrap-Keeps :
      (fuel : ℕ) (node : NodeId) → Keeps (new_replica_bootstrap crdt store fuel node)
  unfolding new_replica_bootstrap
  new_replica_bootstrap-Keeps fuel node = bind-Keeps (call-Keeps store.read_epoch_metadata) λ md.
      bind-Keeps (settled_epoch-Keeps fuel md.epoch)
        λ current. bind-Keeps (await_state-Keeps fuel current) λ st. adopt-Keeps node current st
