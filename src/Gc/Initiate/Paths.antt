-- ===== src/Gc/Initiate/Paths.antt =====
-- coordinator.rs: the ways in which `initiate_gc` ends.
use experimental_crdt.Base.{ℕ, ◌≡◌, inl, inr, some, List, arith, nat_eq, string_eq, Result-cases}
use experimental_crdt.Clock.{NodeId, CausalContext, effective_map}
use experimental_crdt.Crdt.{DeltaCrdt}
use experimental_crdt.Gc.{GcStorage}
use experimental_crdt.Gc.Exec.{World, returns}
use experimental_crdt.Gc.Stable.{compute_stable_timestamp}
use experimental_crdt.Gc.Initiate.{
  GcInitiationAbortReason, next_epoch, commit, abort, collect_stable, check_members, initiate_gc,
}

-- The replica is as it was: only the shared storage may have changed.
pub record SameReplica {S C : Type 0} (w w' : World S C) : Type 0 where
  pub gc : w'.gc ≡ w.gc
  pub crdt : w'.crdt ≡ w.crdt
  pub dvv : w'.dvv ≡ w.dvv

module _ {S C Op Delta : Type 0} (crdt : DeltaCrdt C Op Delta) (store : GcStorage S) where
  commit-aborts :
      (node : NodeId) (n : ℕ) (v : CausalContext) (obs : List NodeId) (w : World S C)
      (r : GcInitiationAbortReason)
      → (commit crdt store node n v obs w).0 ≡ returns (some r)
      → ⊥
  unfolding commit
  commit-aborts node n v obs w r h = ground arith

  collect_stable-aborts :
      (node : NodeId) (n : ℕ) (prev : CausalContext) (members : List NodeId) (w : World S C)
      (r : GcInitiationAbortReason)
      → (collect_stable crdt store node n prev members w).0 ≡ returns (some r)
      → SameReplica w (collect_stable crdt store node n prev members w).1
  unfolding collect_stable abort
  collect_stable-aborts node n prev members w r h =
      elim (Result-cases (store.read_final_dots w.storage).0) [
        | inl (dots, read) ↦
            let w' = record w { storage = (store.read_final_dots w.storage).1 } in
            let stable =
              compute_stable_timestamp w.gc.matrix_clock node members dots (effective_map w.dvv) in
            ground (arith, commit-aborts node n stable.0 stable.1 w' r)
        | inr (e, failed) ↦ ground arith
      ]

  check_members-aborts :
      (node : NodeId) (n : ℕ) (prev : CausalContext) (m0 : List NodeId) (w : World S C)
      (r : GcInitiationAbortReason)
      → (check_members crdt store node n prev m0 w).0 ≡ returns (some r)
      → SameReplica w (check_members crdt store node n prev m0 w).1
  unfolding check_members abort
  check_members-aborts node n prev m0 w r h = elim (Result-cases (store.live_members w.storage).0) [
    | inl (m1, read) ↦
        let w' = record w { storage = (store.live_members w.storage).1 } in
        ground (arith, collect_stable-aborts node n prev m1 w' r)
    | inr (e, failed) ↦ ground arith
  ]

  -- An initiation that aborts, for whichever reason, leaves the replica's set, clock, matrix and
  -- epoch as they were.
  pub initiate_gc-aborts :
      (node : NodeId) (w : World S C) (r : GcInitiationAbortReason)
      → (initiate_gc crdt store node w).0 ≡ returns (some r)
      → SameReplica w (initiate_gc crdt store node w).1
  unfolding initiate_gc
  initiate_gc-aborts node w r h = elim (Result-cases (store.read_epoch_metadata w.storage).0) [
    | inl (md, read) ↦
        let s₁ = (store.read_epoch_metadata w.storage).1 in
        elim (Result-cases (store.live_members s₁).0) [
          | inl (m0, listed) ↦
              let s₂ = (store.live_members s₁).1 in
              let n = next_epoch md.epoch in
              let w' = record w { storage = (store.claim_gc_intent n node s₂).1 } in
              elim (Result-cases (store.claim_gc_intent n node s₂).0) [
                | inl (claimed, asked) ↦
                    ground (arith, check_members-aborts node n md.v_stable m0 w' r)
                | inr (e, failed) ↦ ground arith
              ]
          | inr (e, failed) ↦ ground arith
        ]
    | inr (e, failed) ↦ ground arith
  ]
