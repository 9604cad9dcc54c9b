-- ===== src/Gc/Storage.antt =====
-- src/gc/storage.rs: `S3GcStorage`, the collector's storage on an object store, and the members that
-- src/gc/coordinator.rs reads from the registrations of discovery.
pub mod Keys
pub mod Records
pub mod Reads
pub mod Writes
pub mod Intents
pub mod Refinement
pub mod Members
use experimental_crdt.Base.{
  ℕ, zero, suc, String, ◌==◌, string_eq, Bool, true, false, Option, none, some, List, [], ◌∷◌,
  Result, ok, err, if◌then◌else◌,
}
use experimental_crdt.Map.{HashMap, insert}
use experimental_crdt.Text.{◌<>◌, strip_prefix, strip_suffix, split, trim_end_matches, sort, dedup}
use experimental_crdt.Text.Decimal.{show_nat, parse_u64}
use experimental_crdt.Clock.{NodeId, Counter}
use experimental_crdt.Storage.{
  AwsClient, Call, Json, ◌>>=◌, pure, list_object_keys, delete_object, put_json, put_json_if_absent,
  get_json_optional,
}
use experimental_crdt.Discovery.{Chrono}
use experimental_crdt.Discovery.Service.{list_live_node_ids}
use experimental_crdt.Gc.{GcStorage, EpochMetadata, EpochState, GcIntentRecord}

pub record GcStorageConfig : Type 0 where
  pub bucket : String
  pub prefix : String

-- serde's code for the three records
pub record Codecs : Type 0 where
  pub metadata : Json EpochMetadata
  pub state : Json EpochState
  pub intent : Json GcIntentRecord

unfoldable pub key : GcStorageConfig → String → String → String
key config namespace suffix = trim_end_matches config.prefix "/" <> ("/" <> (namespace <> suffix))

unfoldable pub gc_intent_key : GcStorageConfig → ℕ → String
gc_intent_key config epoch = key config "gc_intent" ("_" <> (show_nat epoch <> ".json"))

unfoldable pub epoch_metadata_key : GcStorageConfig → String
epoch_metadata_key config = key config "epoch_metadata" ".json"

unfoldable pub epoch_state_key : GcStorageConfig → String
epoch_state_key config = key config "epoch_state" ".json"

unfoldable pub final_dots_key_prefix : GcStorageConfig → String
final_dots_key_prefix config = key config "final_dots" "/"

abbrev pub dot_of : String → Option Counter → Option (NodeId × Counter)
dot_of node_id none = none
dot_of node_id (some counter) = some (node_id, counter)

-- exactly two parts
abbrev pub read_dot_parts : List String → Option (NodeId × Counter)
read_dot_parts (node_id ∷ counter ∷ []) = dot_of node_id (parse_u64 counter)
read_dot_parts _ = none

abbrev pub read_dot_stem : Option String → Option (NodeId × Counter)
read_dot_stem none = none
read_dot_stem (some raw) = read_dot_parts (split raw "_")

abbrev pub read_dot_rest : Option String → Option (NodeId × Counter)
read_dot_rest none = none
read_dot_rest (some rest) = read_dot_stem (strip_suffix rest ".json")

-- The prefix ends in a slash, so it and the suffix do not overlap, and cutting off one after the other
-- is the slice of the key between them.
unfoldable pub parse_final_dot_key : GcStorageConfig → String → Option (NodeId × Counter)
parse_final_dot_key config k =
    read_dot_rest (strip_prefix k (trim_end_matches config.prefix "/" <> "/final_dots/"))

abbrev pub put_dot : HashMap NodeId Counter → Option (NodeId × Counter) → HashMap NodeId Counter
put_dot dots none = dots
put_dot dots (some (node_id, counter)) = insert dots node_id counter

-- `filter_map(parse_final_dot_key).collect::<HashMap<_, _>>()`
unfoldable pub collect_dots :
    GcStorageConfig → HashMap NodeId Counter → List String → HashMap NodeId Counter
collect_dots config dots [] = dots
collect_dots config dots (k ∷ ks) =
    collect_dots config (put_dot dots (parse_final_dot_key config k)) ks

abbrev pub unwrap_or {ℓ} : {A : Type ℓ} → Option A → A → A
unwrap_or none a = a
unwrap_or (some x) a = x

abbrev pub first_metadata : EpochMetadata
first_metadata = record { epoch = 0; v_stable = []; obsolete_dots = [] }

abbrev pub first_state : EpochState
first_state = record { epoch = 0; state_payload = []; initiator_clock = [] }

module _ {S : Type 0} (aws : AwsClient S) (codecs : Codecs) (config : GcStorageConfig) where
  unfoldable pub read_epoch_metadata : Call S EpochMetadata
  read_epoch_metadata = do
    found ← get_json_optional aws codecs.metadata config.bucket (epoch_metadata_key config)
    pure (unwrap_or found first_metadata)

  unfoldable pub read_epoch_state : Call S EpochState
  read_epoch_state = do
    found ← get_json_optional aws codecs.state config.bucket (epoch_state_key config)
    pure (unwrap_or found first_state)

  unfoldable pub write_epoch_metadata : EpochMetadata → Call S (Unit {0})
  write_epoch_metadata epoch_metadata =
      put_json aws codecs.metadata config.bucket (epoch_metadata_key config) epoch_metadata

  unfoldable pub write_epoch_state : EpochState → Call S (Unit {0})
  write_epoch_state epoch_state =
      put_json aws codecs.state config.bucket (epoch_state_key config) epoch_state

  unfoldable pub claim_gc_intent : ℕ → NodeId → Call S Bool
  claim_gc_intent epoch initiator =
      put_json_if_absent aws codecs.intent config.bucket (gc_intent_key config epoch)
        (record { epoch = epoch; initiator = initiator })

  unfoldable pub read_gc_intent : ℕ → Call S (Option GcIntentRecord)
  read_gc_intent epoch =
      get_json_optional aws codecs.intent config.bucket (gc_intent_key config epoch)

  unfoldable pub release_gc_intent : ℕ → Call S (Unit {0})
  release_gc_intent epoch = delete_object aws config.bucket (gc_intent_key config epoch)

  unfoldable pub read_final_dots : Call S (HashMap NodeId Counter)
  read_final_dots = do
    keys ← list_object_keys aws config.bucket (final_dots_key_prefix config)
    pure (collect_dots config [] keys)

  module _ {D : Type 0} (chrono : Chrono D) (discovery_bucket : String) where
    -- `DiscoveryMembershipProvider::live_members`, which sorts once more
    unfoldable pub live_members : Call S (List NodeId)
    live_members = do
      regs ← list_live_node_ids aws chrono discovery_bucket
      pure (dedup (sort regs))

    -- `impl GcStorage for S3GcStorage`, with the members
    unfoldable pub s3_gc_storage : GcStorage S
    s3_gc_storage = record {
      read_epoch_metadata = read_epoch_metadata;
      read_epoch_state = read_epoch_state;
      write_epoch_metadata = write_epoch_metadata;
      write_epoch_state = write_epoch_state;
      read_final_dots = read_final_dots;
      claim_gc_intent = claim_gc_intent;
      read_gc_intent = read_gc_intent;
      release_gc_intent = release_gc_intent;
      live_members = live_members;
    }
