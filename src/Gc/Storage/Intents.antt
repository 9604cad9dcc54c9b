-- ===== src/Gc/Storage/Intents.antt =====
-- storage.rs: an intent is claimed by one node at a time, and can be claimed again when it is released.
use experimental_crdt.Base.{
  ℕ, String, ◌==◌, nat_eq, string_eq, Bool, not, ◌&&◌, none, some, ◌≡◌, ok, if◌then◌else◌, arith,
  Result-cases, inl, inr,
}
use experimental_crdt.Map.{is_some}
use experimental_crdt.Clock.{NodeId}
use experimental_crdt.Proto.{Bytes}
use experimental_crdt.Storage.{AwsClient, delete_object}
use experimental_crdt.Storage.Store.{
  ObjectStore, JsonRoundTrip, put_json_if_absent_lem, delete_object_lem,
}
use experimental_crdt.Gc.Storage.{
  Codecs, GcStorageConfig, gc_intent_key, epoch_metadata_key, epoch_state_key, claim_gc_intent,
  release_gc_intent,
}
use experimental_crdt.Gc.Storage.Keys.{gc_intent_key_injective, intent-ne-metadata, intent-ne-state}
use experimental_crdt.Gc.Storage.Reads.{keeps-Represents}
use experimental_crdt.Gc.Storage.Records.{
  Records, claim_intent, release_intent, specified, performed, Represents, Refines,
}

module _ {S : Type 0} (aws : AwsClient S) (codecs : Codecs) (config : GcStorageConfig)
    (store : ObjectStore aws) where
  module _ (intent_trip : JsonRoundTrip codecs.intent) where
    -- what a claim that answers tells, and what it leaves at a key of the bucket
    at_key :
        (n : ℕ) (node : NodeId) (s : S) (created : Bool) (k : String)
        → (claim_gc_intent aws codecs config n node s).0 ≡ ok created
        → (created ≡ not (is_some (store.object s config.bucket (gc_intent_key config n))))
          × ((bytes : Bytes) × (codecs.intent.from_slice bytes
                ≡ ok (record { epoch = n; initiator = node }))
              × (store.object (claim_gc_intent aws codecs config n node s).1 config.bucket k ≡ (
                  if created && gc_intent_key config n == k
                  then some bytes
                  else store.object s config.bucket k)))
    unfolding claim_gc_intent
    at_key n node s created k h =
        let wrote =
          put_json_if_absent_lem aws store codecs.intent config.bucket (gc_intent_key config n)
            (record { epoch = n; initiator = node }) s created config.bucket k intent_trip h in
        (
          wrote.0,
          (
            wrote.1.0,
            wrote.1.1,
            ground (arith, wrote.1.2, string_eq.beq_iff config.bucket config.bucket),
          ),
        )

    claim-Represents :
        (n : ℕ) (node : NodeId) (r : Records) (s : S) (created : Bool)
        → Represents aws codecs config store r s
        → (claim_gc_intent aws codecs config n node s).0 ≡ ok created
        → Represents aws codecs config store
            (specified (claim_intent n node) r).1
            (claim_gc_intent aws codecs config n node s).1
    claim-Represents n node r s created rep h =
        let at = gc_intent_key config n in
        record {
          metadata = ground (
            arith,
            rep.metadata,
            at_key n node s created (epoch_metadata_key config) h,
            string_eq.beq_iff at (epoch_metadata_key config),
            intent-ne-metadata config n,
          );
          state = ground (
            arith,
            rep.state,
            at_key n node s created (epoch_state_key config) h,
            string_eq.beq_iff at (epoch_state_key config),
            intent-ne-state config n,
          );
          intent = λ m. ground (
            arith,
            rep.intent n,
            rep.intent m,
            at_key n node s created (gc_intent_key config m) h,
            string_eq.beq_iff at (gc_intent_key config m),
            gc_intent_key_injective config n m,
            nat_eq.beq_iff n m,
          );
        }

    pub Refines-claim_intent :
        (n : ℕ) (node : NodeId) (r : Records) (s : S)
        → Represents aws codecs config store r s
        → Refines aws codecs config store (claim_intent n node) r s
    Refines-claim_intent n node r s rep a h =
        let at = gc_intent_key config n in
        elim (Result-cases (claim_gc_intent aws codecs config n node s).0) [
          | inr failed ↦ absurd (ground arith)
          | inl sent ↦ (
            ground (arith, rep.intent n, at_key n node s sent.0 at sent.1, sent.1),
            keeps-Represents aws codecs config store (specified (claim_intent n node) r).1
                (claim_gc_intent aws codecs config n node s).1
                (performed aws codecs config (claim_intent n node) s).1
                (λ b k. ground (arith, sent.1)) (claim-Represents n node r s sent.0 rep sent.1),
          )
        ]

    pub Refines-release_intent :
        (n : ℕ) (r : Records) (s : S)
        → Represents aws codecs config store r s
        → Refines aws codecs config store (release_intent n) r s
    unfolding release_gc_intent
    Refines-release_intent n r s rep a h =
        let at = gc_intent_key config n in
        elim (Result-cases (delete_object aws config.bucket at s).0) [
          | inr failed ↦ absurd (ground arith)
          | inl sent ↦
              let gone : (k : String)
                  → store.object (delete_object aws config.bucket at s).1 config.bucket k
                    ≡ (if at == k then none else store.object s config.bucket k) =
                λ k. ground (
                  arith,
                  delete_object_lem aws store config.bucket at s config.bucket k,
                  sent.1,
                  string_eq.beq_iff config.bucket config.bucket,
                ) in
              (
                ground arith,
                record {
                  metadata = ground (
                    arith,
                    rep.metadata,
                    sent.1,
                    gone (epoch_metadata_key config),
                    string_eq.beq_iff at (epoch_metadata_key config),
                    intent-ne-metadata config n,
                  );
                  state = ground (
                    arith,
                    rep.state,
                    sent.1,
                    gone (epoch_state_key config),
                    string_eq.beq_iff at (epoch_state_key config),
                    intent-ne-state config n,
                  );
                  intent = λ m. ground (
                    arith,
                    rep.intent m,
                    sent.1,
                    gone (gc_intent_key config m),
                    string_eq.beq_iff at (gc_intent_key config m),
                    gc_intent_key_injective config n m,
                    nat_eq.beq_iff n m,
                  );
                },
              )
        ]
