-- ===== src/Gc/Storage/Writes.antt =====
-- storage.rs: an upload, a claim and a release leave the records that the specification says.
use experimental_crdt.Base.{nat_eq, string_eq, arith, Result-cases, inl, inr}
use experimental_crdt.Storage.{AwsClient, put_json}
use experimental_crdt.Storage.Store.{ObjectStore, JsonRoundTrip, put_json_lem}
use experimental_crdt.Gc.{EpochMetadata, EpochState}
use experimental_crdt.Gc.Storage.{
  Codecs, GcStorageConfig, gc_intent_key, epoch_metadata_key, epoch_state_key, write_epoch_metadata,
  write_epoch_state,
}
use experimental_crdt.Gc.Storage.Keys.{intent-ne-metadata, intent-ne-state, metadata-ne-state}
use experimental_crdt.Gc.Storage.Records.{Records, write_metadata, write_state, Represents, Refines}

module _ {S : Type 0} (aws : AwsClient S) (codecs : Codecs) (config : GcStorageConfig)
    (store : ObjectStore aws) where
  pub Refines-write_metadata :
      (metadata_trip : JsonRoundTrip codecs.metadata) (md : EpochMetadata) (r : Records) (s : S)
      → Represents aws codecs config store r s
      → Refines aws codecs config store (write_metadata md) r s
  unfolding write_epoch_metadata
  Refines-write_metadata metadata_trip md r s rep a h =
      let at = epoch_metadata_key config in
      elim (Result-cases (put_json aws codecs.metadata config.bucket at md s).0) [
        | inr failed ↦ absurd (ground arith)
        | inl sent ↦ (
          ground arith,
          record {
            metadata = ground (
              arith,
              rep.metadata,
              sent.1,
              string_eq.beq_iff config.bucket config.bucket,
              string_eq.beq_iff at (epoch_metadata_key config),
              put_json_lem aws store codecs.metadata config.bucket at md s config.bucket
                  (epoch_metadata_key config) metadata_trip sent.1,
            );
            state = ground (
              arith,
              rep.state,
              sent.1,
              string_eq.beq_iff config.bucket config.bucket,
              string_eq.beq_iff at (epoch_state_key config),
              metadata-ne-state config,
              put_json_lem aws store codecs.metadata config.bucket at md s config.bucket
                  (epoch_state_key config) metadata_trip sent.1,
            );
            intent = λ n. ground (
              arith,
              rep.intent n,
              sent.1,
              string_eq.beq_iff config.bucket config.bucket,
              string_eq.beq_iff at (gc_intent_key config n),
              intent-ne-metadata config n,
              put_json_lem aws store codecs.metadata config.bucket at md s config.bucket
                  (gc_intent_key config n) metadata_trip sent.1,
            );
          },
        )
      ]

  pub Refines-write_state :
      (state_trip : JsonRoundTrip codecs.state) (st : EpochState) (r : Records) (s : S)
      → Represents aws codecs config store r s
      → Refines aws codecs config store (write_state st) r s
  unfolding write_epoch_state
  Refines-write_state state_trip st r s rep a h =
      let at = epoch_state_key config in
      elim (Result-cases (put_json aws codecs.state config.bucket at st s).0) [
        | inr failed ↦ absurd (ground arith)
        | inl sent ↦ (
          ground arith,
          record {
            metadata = ground (
              arith,
              rep.metadata,
              sent.1,
              string_eq.beq_iff config.bucket config.bucket,
              string_eq.beq_iff at (epoch_metadata_key config),
              metadata-ne-state config,
              put_json_lem aws store codecs.state config.bucket at st s config.bucket
                  (epoch_metadata_key config) state_trip sent.1,
            );
            state = ground (
              arith,
              rep.state,
              sent.1,
              string_eq.beq_iff config.bucket config.bucket,
              string_eq.beq_iff at (epoch_state_key config),
              put_json_lem aws store codecs.state config.bucket at st s config.bucket
                  (epoch_state_key config) state_trip sent.1,
            );
            intent = λ n. ground (
              arith,
              rep.intent n,
              sent.1,
              string_eq.beq_iff config.bucket config.bucket,
              string_eq.beq_iff at (gc_intent_key config n),
              intent-ne-state config n,
              put_json_lem aws store codecs.state config.bucket at st s config.bucket
                  (gc_intent_key config n) state_trip sent.1,
            );
          },
        )
      ]
