-- ===== src/Gc/Storage/Reads.antt =====
-- storage.rs: a read gives what the records say and changes no object.
use experimental_crdt.Base.{ℕ, String, nat_eq, string_eq, ◌≡◌, arith, Result-cases, inl, inr}
use experimental_crdt.Storage.{AwsClient, get_json_optional}
use experimental_crdt.Storage.Store.{ObjectStore, get_json_optional_lem, get_json_optional_keeps}
use experimental_crdt.Gc.Storage.{
  Codecs, GcStorageConfig, gc_intent_key, epoch_metadata_key, epoch_state_key, read_epoch_metadata,
  read_epoch_state, read_gc_intent,
}
use experimental_crdt.Gc.Storage.Records.{
  Records, read_metadata, read_state, read_intent, performed, Represents, Refines,
}

module _ {S : Type 0} (aws : AwsClient S) (codecs : Codecs) (config : GcStorageConfig)
    (store : ObjectStore aws) where
  -- a read changes no object
  pub keeps-Represents :
      (r : Records) (s s' : S)
      → ((b k : String) → store.object s' b k ≡ store.object s b k)
      → Represents aws codecs config store r s
      → Represents aws codecs config store r s'
  keeps-Represents r s s' same rep = record {
    metadata = ground (arith, rep.metadata, same config.bucket (epoch_metadata_key config));
    state = ground (arith, rep.state, same config.bucket (epoch_state_key config));
    intent = λ n. ground (arith, rep.intent n, same config.bucket (gc_intent_key config n));
  }

  pub Refines-read_metadata :
      (r : Records) (s : S)
      → Represents aws codecs config store r s
      → Refines aws codecs config store read_metadata r s
  unfolding read_epoch_metadata
  Refines-read_metadata r s rep a h =
      let at = (epoch_metadata_key config) in
      let keeps : (b k : String)
          → store.object (performed aws codecs config read_metadata s).1 b k ≡ store.object s b k =
        λ b k. elim (Result-cases (get_json_optional aws codecs.metadata config.bucket at s).0) [
          | inr failed ↦
              ground
                (arith, get_json_optional_keeps aws store codecs.metadata config.bucket at s b k)
          | inl got ↦
              ground
                (arith, get_json_optional_keeps aws store codecs.metadata config.bucket at s b k)
        ] in
      (
        elim (Result-cases (get_json_optional aws codecs.metadata config.bucket at s).0) [
          | inr failed ↦ absurd (ground arith)
          | inl got ↦ ground (
            arith,
            rep.metadata,
            get_json_optional_lem aws store codecs.metadata config.bucket at s got.0 got.1,
          )
        ],
        keeps-Represents r s (performed aws codecs config read_metadata s).1 keeps rep,
      )

  pub Refines-read_state :
      (r : Records) (s : S)
      → Represents aws codecs config store r s
      → Refines aws codecs config store read_state r s
  unfolding read_epoch_state
  Refines-read_state r s rep a h =
      let at = (epoch_state_key config) in
      let keeps : (b k : String)
          → store.object (performed aws codecs config read_state s).1 b k ≡ store.object s b k =
        λ b k. elim (Result-cases (get_json_optional aws codecs.state config.bucket at s).0) [
          | inr failed ↦
              ground (arith, get_json_optional_keeps aws store codecs.state config.bucket at s b k)
          | inl got ↦
              ground (arith, get_json_optional_keeps aws store codecs.state config.bucket at s b k)
        ] in
      (
        elim (Result-cases (get_json_optional aws codecs.state config.bucket at s).0) [
          | inr failed ↦ absurd (ground arith)
          | inl got ↦ ground (
            arith,
            rep.state,
            get_json_optional_lem aws store codecs.state config.bucket at s got.0 got.1,
          )
        ],
        keeps-Represents r s (performed aws codecs config read_state s).1 keeps rep,
      )

  pub Refines-read_intent :
      (n : ℕ) (r : Records) (s : S)
      → Represents aws codecs config store r s
      → Refines aws codecs config store (read_intent n) r s
  unfolding read_gc_intent
  Refines-read_intent n r s rep a h =
      let at = (gc_intent_key config n) in
      let keeps : (b k : String)
          → store.object (performed aws codecs config (read_intent n) s).1 b k
            ≡ store.object s b k =
        λ b k. elim (Result-cases (get_json_optional aws codecs.intent config.bucket at s).0) [
          | inr failed ↦
              ground (arith, get_json_optional_keeps aws store codecs.intent config.bucket at s b k)
          | inl got ↦
              ground (arith, get_json_optional_keeps aws store codecs.intent config.bucket at s b k)
        ] in
      (
        elim (Result-cases (get_json_optional aws codecs.intent config.bucket at s).0) [
          | inr failed ↦ absurd (ground arith)
          | inl got ↦ ground (
            arith,
            rep.intent n,
            get_json_optional_lem aws store codecs.intent config.bucket at s got.0 got.1,
          )
        ],
        keeps-Represents r s (performed aws codecs config (read_intent n) s).1 keeps rep,
      )
