-- ===== src/Gc/Observe/Waiting.antt =====
-- coordinator.rs: a replica that starts behind an initiation that has failed.
use mathlib.Core.Path.{subst}
use experimental_crdt.Base.{
  ℕ, zero, suc, String, ◌≡◌, refl, sym, true, some, List, arith, nat_eq, string_eq, ok,
}
use experimental_crdt.Clock.{NodeId}
use experimental_crdt.Crdt.{DeltaCrdt}
use experimental_crdt.Gc.{GcStorage, EpochMetadata, GcIntentRecord}
use experimental_crdt.Gc.Exec.{World, fails, polls}
use experimental_crdt.Gc.Initiate.{next_epoch, initiate_gc}
use experimental_crdt.Gc.Initiate.Commit.{after_read, after_listing}
use experimental_crdt.Gc.Initiate.Intent.{HoldsIntents, initiate_gc-keeps_intent}
use experimental_crdt.Gc.Observe.{await_intent, settled_epoch, new_replica_bootstrap}

-- What the two reads of a waiting replica give: the metadata of the epoch that the storage is at,
-- and an intent that it holds. A read changes neither.
pub record ReadsIntents {S : Type 0} (store : GcStorage S) (Held EpochIs : ℕ → S → Type 0)
    : Type 0 where
  pub reads_epoch :
      (k : ℕ) (s : S)
      → EpochIs k s
      → (md : EpochMetadata) × ((store.read_epoch_metadata s).0 ≡ ok md) × (md.epoch ≡ k)
  pub reads_intent :
      (n : ℕ) (s : S)
      → Held n s
      → (i : GcIntentRecord) × ((store.read_gc_intent n s).0 ≡ ok (some i))
  pub metadata_keeps_epoch :
      (k : ℕ) (s : S) → EpochIs k s → EpochIs k (store.read_epoch_metadata s).1
  pub metadata_keeps_intent : (n : ℕ) (s : S) → Held n s → Held n (store.read_epoch_metadata s).1
  pub intent_keeps_epoch : (k n : ℕ) (s : S) → EpochIs k s → EpochIs k (store.read_gc_intent n s).1
  pub intent_keeps_intent : (n : ℕ) (s : S) → Held n s → Held n (store.read_gc_intent n s).1

module _ {S C Op Delta : Type 0} (crdt : DeltaCrdt C Op Delta) (store : GcStorage S)
    (Held EpochIs : ℕ → S → Type 0) (reads : ReadsIntents store Held EpochIs) where
  -- the storage behind a round of the wait
  abbrev round : ℕ → S → S
  round n s = (store.read_gc_intent n (store.read_epoch_metadata s).1).1

  await_intent-polls :
      (fuel k : ℕ) (w : World S C)
      → Held (next_epoch k) w.storage
      → EpochIs k w.storage
      → (await_intent crdt store fuel k (next_epoch k) w).0 ≡ polls
  unfolding await_intent
  await_intent-polls zero k w h e = refl
  await_intent-polls (suc fuel) k w h e =
      let s = (store.read_epoch_metadata w.storage).1 in
      let h₁ = reads.metadata_keeps_intent (next_epoch k) w.storage h in
      let e₁ = reads.metadata_keeps_epoch k w.storage e in
      let h₂ = reads.intent_keeps_intent (next_epoch k) s h₁ in
      let e₂ = reads.intent_keeps_epoch k (next_epoch k) s e₁ in
      let w' = record w { storage = round (next_epoch k) w.storage } in
      ground (
        arith,
        reads.reads_epoch k w.storage e,
        reads.reads_intent (next_epoch k) s h₁,
        await_intent-polls fuel k w' h₂ e₂,
      )

  bootstrap-polls :
      (fuel k : ℕ) (node : NodeId) (w : World S C)
      → Held (next_epoch k) w.storage
      → EpochIs k w.storage
      → (new_replica_bootstrap crdt store fuel node w).0 ≡ polls
  unfolding new_replica_bootstrap settled_epoch
  bootstrap-polls fuel k node w h e =
      let s = (store.read_epoch_metadata w.storage).1 in
      let h₁ = reads.metadata_keeps_intent (next_epoch k) w.storage h in
      let e₁ = reads.metadata_keeps_epoch k w.storage e in
      let h₂ = reads.intent_keeps_intent (next_epoch k) s h₁ in
      let e₂ = reads.intent_keeps_epoch k (next_epoch k) s e₁ in
      let w' = record w { storage = round (next_epoch k) w.storage } in
      ground (
        arith,
        reads.reads_epoch k w.storage e,
        reads.reads_intent (next_epoch k) s h₁,
        await_intent-polls fuel k w' h₂ e₂,
      )

  -- After an initiation that has claimed the intent of the next epoch and then failed, with the
  -- stored metadata still of the epoch that it read, a replica that bootstraps on that storage
  -- waits for the intent without end: with whatever fuel, it is still polling, if nobody else
  -- changes the storage.
  pub new_replica_bootstrap-polls :
      (fuel : ℕ) (node starting : NodeId) (w v : World S C) (md : EpochMetadata) (m0 : List NodeId)
      (e : String)
      → HoldsIntents store Held
      → (store.read_epoch_metadata w.storage).0 ≡ ok md
      → (store.live_members (after_read crdt store w)).0 ≡ ok m0
      → (store.claim_gc_intent (next_epoch md.epoch) node (after_listing crdt store w)).0 ≡ ok true
      → (initiate_gc crdt store node w).0 ≡ fails e
      → EpochIs md.epoch (initiate_gc crdt store node w).1.storage
      → v.storage ≡ (initiate_gc crdt store node w).1.storage
      → (new_replica_bootstrap crdt store fuel starting v).0 ≡ polls
  new_replica_bootstrap-polls fuel node starting w v md m0 e intents h₁ h₂ h₃ failed epoch same =
      bootstrap-polls fuel md.epoch starting v
        (subst (Held (next_epoch md.epoch)) (sym same)
          (initiate_gc-keeps_intent crdt store Held intents node w md m0 e h₁ h₂ h₃ failed).0)
        (subst (EpochIs md.epoch) (sym same) epoch)
