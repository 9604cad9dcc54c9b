-- ===== src/Gc/Initiate/Intent.antt =====
-- coordinator.rs: the intent record of an `initiate_gc` that fails after it has claimed the epoch.
use mathlib.Core.Path.{subst}
use experimental_crdt.Base.{
  ℕ, String, ◌≡◌, refl, sym, ◌≢◌, inl, inr, true, List, [], ◌∷◌, arith, Option-cases, nat_eq,
  string_eq, Result-cases, ok,
}
use experimental_crdt.Map.{remove as erase}
use experimental_crdt.Clock.{NodeId, CausalContext, effective_map, forget, frontier_dvv}
use experimental_crdt.Crdt.{DeltaCrdt}
use experimental_crdt.Gc.{
  GcStorage, EpochMetadata, EpochState, remove_matrix_clock_row, remove_matrix_clock_column,
}
use experimental_crdt.Gc.Exec.{World, Outcome, returns, fails, panics, polls}
use experimental_crdt.Gc.Stable.{compute_stable_timestamp}
use experimental_crdt.Gc.Initiate.{
  next_epoch, metadata_of, state_of, forget_nodes, commit, abort, collect_stable, check_members,
  initiate_gc,
}
use experimental_crdt.Gc.Initiate.Commit.{after_read, after_listing}

-- What it is for a storage to hold the intent of an epoch: a claim that succeeds makes it so, no
-- claim succeeds while it is so, and listings, reads and writes of other records keep it.
pub record HoldsIntents {S : Type 0} (store : GcStorage S) (Held : ℕ → S → Type 0) : Type 0 where
  pub claim_holds :
      (n : ℕ) (node : NodeId) (s : S)
      → (store.claim_gc_intent n node s).0 ≡ ok true
      → Held n (store.claim_gc_intent n node s).1
  pub claim_refused :
      (n : ℕ) (node : NodeId) (s : S) → Held n s → (store.claim_gc_intent n node s).0 ≡ ok true → ⊥
  pub members_keep : (n : ℕ) (s : S) → Held n s → Held n (store.live_members s).1
  pub final_dots_keep : (n : ℕ) (s : S) → Held n s → Held n (store.read_final_dots s).1
  pub state_keeps :
      (n : ℕ) (st : EpochState) (s : S) → Held n s → Held n (store.write_epoch_state st s).1
  pub metadata_keeps :
      (n : ℕ) (md : EpochMetadata) (s : S) → Held n s → Held n (store.write_epoch_metadata md s).1

module _ {S C Op Delta : Type 0} (crdt : DeltaCrdt C Op Delta) (store : GcStorage S) where
  storage-forget_nodes :
      (v : CausalContext) (ps : List NodeId) (w : World S C)
      → (forget_nodes crdt store v ps w).1.storage ≡ w.storage
  unfolding forget_nodes
  storage-forget_nodes v [] w = refl
  storage-forget_nodes v (p ∷ ps) w = elim (Option-cases (remove_matrix_clock_row w.gc p)) [
    | inl panic ↦ ground arith
    | inr (g, row) ↦ elim (Option-cases (remove_matrix_clock_column g p)) [
      | inl panic ↦ ground arith
      | inr (g', column) ↦
          let w' = record w { gc = g'; dvv = forget w.dvv p } in
          ground (arith, storage-forget_nodes (erase v p) ps w')
    ]
  ]

  module _ (Held : ℕ → S → Type 0) (intents : HoldsIntents store Held) where
    commit-fails :
        (node : NodeId) (n : ℕ) (v : CausalContext) (ps : List NodeId) (w : World S C) (e : String)
        → Held n w.storage
        → (commit crdt store node n v ps w).0 ≡ fails e
        → Held n (commit crdt store node n v ps w).1.storage
    unfolding commit
    commit-fails node n v ps w e h failed = forgotten (forget_nodes crdt store v ps w).0 refl
      where
        forgotten :
            (o : Outcome CausalContext)
            → (forget_nodes crdt store v ps w).0 ≡ o
            → Held n (commit crdt store node n v ps w).1.storage
        forgotten (returns v') done =
            let u = (forget_nodes crdt store v ps w).1 in
            let hu = subst (Held n) (sym (storage-forget_nodes v ps w)) h in
            let c = crdt.perform_gc u.crdt (frontier_dvv node v') in
            let st = state_of crdt store n (record u { crdt = c }) in
            let s = (store.write_epoch_state st u.storage).1 in
            let hs = intents.state_keeps n st u.storage hu in
            let md = metadata_of crdt store n v' ps in
            elim (Result-cases (store.write_epoch_state st u.storage).0) [
              | inr (x, broken) ↦ ground (arith, hs)
              | inl (_, written) ↦ elim (Result-cases (store.write_epoch_metadata md s).0) [
                | inr (x, broken) ↦ ground (arith, intents.metadata_keeps n md s hs)
                | inl (_, published) ↦ absurd (ground arith)
              ]
            ]
        forgotten (fails x) done =
            ground (arith, subst (Held n) (sym (storage-forget_nodes v ps w)) h)
        forgotten panics done = absurd (ground arith)
        forgotten polls done = absurd (ground arith)

    collect_stable-fails :
        (node : NodeId) (n : ℕ) (prev : CausalContext) (members : List NodeId) (w : World S C)
        (e : String)
        → Held n w.storage
        → (collect_stable crdt store node n prev members w).0 ≡ fails e
        → Held n (collect_stable crdt store node n prev members w).1.storage
    unfolding collect_stable abort
    collect_stable-fails node n prev members w e h failed =
        elim (Result-cases (store.read_final_dots w.storage).0) [
          | inl (dots, read) ↦
              let w' = record w { storage = (store.read_final_dots w.storage).1 } in
              let stable =
                compute_stable_timestamp w.gc.matrix_clock node members dots
                  (effective_map w.dvv) in
              ground (
                arith,
                commit-fails node n stable.0 stable.1 w' e,
                intents.final_dots_keep n w.storage h,
              )
          | inr (e', broken) ↦ ground (arith, intents.final_dots_keep n w.storage h)
        ]

    check_members-fails :
        (node : NodeId) (n : ℕ) (prev : CausalContext) (m0 : List NodeId) (w : World S C)
        (e : String)
        → Held n w.storage
        → (check_members crdt store node n prev m0 w).0 ≡ fails e
        → Held n (check_members crdt store node n prev m0 w).1.storage
    unfolding check_members abort
    check_members-fails node n prev m0 w e h failed =
        elim (Result-cases (store.live_members w.storage).0) [
          | inl (m1, read) ↦
              let w' = record w { storage = (store.live_members w.storage).1 } in
              ground (
                arith,
                collect_stable-fails node n prev m1 w' e,
                intents.members_keep n w.storage h,
              )
          | inr (e', broken) ↦ ground (arith, intents.members_keep n w.storage h)
        ]

    -- An initiation that claims the intent of the next epoch and then fails, whichever later call of
    -- the storage it is that fails, leaves a storage that holds the intent: no claim of that epoch,
    -- by whichever node, succeeds there.
    pub initiate_gc-keeps_intent :
        (node : NodeId) (w : World S C) (md : EpochMetadata) (m0 : List NodeId) (e : String)
        → (store.read_epoch_metadata w.storage).0 ≡ ok md
        → (store.live_members (after_read crdt store w)).0 ≡ ok m0
        → (store.claim_gc_intent (next_epoch md.epoch) node (after_listing crdt store w)).0
          ≡ ok true
        → (initiate_gc crdt store node w).0 ≡ fails e
        → Held (next_epoch md.epoch) (initiate_gc crdt store node w).1.storage
          × ((other : NodeId)
              → (store.claim_gc_intent
                  (next_epoch md.epoch)
                  other
                  (initiate_gc crdt store node w).1.storage).0
                ≢ ok true)
    unfolding initiate_gc
    initiate_gc-keeps_intent node w md m0 e h₁ h₂ h₃ failed =
        let n = next_epoch md.epoch in
        let claim = store.claim_gc_intent n node (after_listing crdt store w) in
        let w' = record w { storage = claim.1 } in
        let kept = check_members-fails node n md.v_stable m0 w' e in
        let final : Held n (initiate_gc crdt store node w).1.storage =
          ground (arith, kept, intents.claim_holds n node (after_listing crdt store w) h₃) in
        (
          final,
          λ other. intents.claim_refused n other (initiate_gc crdt store node w).1.storage final,
        )
