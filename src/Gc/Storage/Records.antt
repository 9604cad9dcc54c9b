-- ===== src/Gc/Storage/Records.antt =====
-- What the collectors share, apart from how it is stored: the last metadata and state, if any was
-- published, and the intent of each epoch, which one node holds at a time.
use experimental_crdt.Base.{
  ℕ, ◌==◌, nat_eq, string_eq, Bool, true, false, Option, none, some, ◌≡◌, ok, if◌then◌else◌,
}
use experimental_crdt.Map.{is_some}
use experimental_crdt.Clock.{NodeId}
use experimental_crdt.Storage.{AwsClient, Call, ◌>>=◌, pure}
use experimental_crdt.Storage.Store.{ObjectStore, value_at}
use experimental_crdt.Gc.{EpochMetadata, EpochState, GcIntentRecord}
use experimental_crdt.Gc.Storage.{
  Codecs, GcStorageConfig, gc_intent_key, epoch_metadata_key, epoch_state_key, unwrap_or,
  first_metadata, first_state, read_epoch_metadata, read_epoch_state, write_epoch_metadata,
  write_epoch_state, claim_gc_intent, read_gc_intent, release_gc_intent,
}

pub record Records : Type 0 where
  pub metadata : Option EpochMetadata
  pub state : Option EpochState
  pub intent : ℕ → Option GcIntentRecord

-- the calls that read or write the records
pub data Request : Type 0 where
  read_metadata : Request
  read_state : Request
  write_metadata : EpochMetadata → Request
  write_state : EpochState → Request
  claim_intent : ℕ → NodeId → Request
  read_intent : ℕ → Request
  release_intent : ℕ → Request

pub data Answer : Type 0 where
  found_metadata : EpochMetadata → Answer
  found_state : EpochState → Answer
  done : Answer
  claimed : Bool → Answer
  found_intent : Option GcIntentRecord → Answer

abbrev pub set_intent : ℕ → Option GcIntentRecord → Records → Records
set_intent n held r = record r { intent = λ m. if n == m then held else r.intent m }

-- The specification: an intent that is held is not given away.
abbrev pub specified : Request → Records → Answer × Records
specified read_metadata r = (found_metadata (unwrap_or r.metadata first_metadata), r)
specified read_state r = (found_state (unwrap_or r.state first_state), r)
specified (write_metadata md) r = (done, record r { metadata = some md })
specified (write_state st) r = (done, record r { state = some st })
specified (claim_intent n node) r =
    if is_some (r.intent n)
    then (claimed false, r)
    else (claimed true, set_intent n (some (record { epoch = n; initiator = node })) r)
specified (read_intent n) r = (found_intent (r.intent n), r)
specified (release_intent n) r = (done, set_intent n none r)

module _ {S : Type 0} (aws : AwsClient S) (codecs : Codecs) (config : GcStorageConfig) where
  -- the same request to the storage on the object store
  abbrev pub performed : Request → Call S Answer
  performed read_metadata = read_epoch_metadata aws codecs config >>= λ md. pure (found_metadata md)
  performed read_state = read_epoch_state aws codecs config >>= λ st. pure (found_state st)
  performed (write_metadata md) = write_epoch_metadata aws codecs config md >>= λ _. pure done
  performed (write_state st) = write_epoch_state aws codecs config st >>= λ _. pure done
  performed (claim_intent n node) =
      claim_gc_intent aws codecs config n node >>= λ b. pure (claimed b)
  performed (read_intent n) = read_gc_intent aws codecs config n >>= λ i. pure (found_intent i)
  performed (release_intent n) = release_gc_intent aws codecs config n >>= λ _. pure done

  -- The objects of the bucket stand for the records.
  pub record Represents (store : ObjectStore aws) (r : Records) (s : S) : Type 0 where
    pub metadata :
        value_at aws store codecs.metadata s config.bucket (epoch_metadata_key config)
        ≡ ok r.metadata
    pub state :
        value_at aws store codecs.state s config.bucket (epoch_state_key config) ≡ ok r.state
    pub intent :
        (n : ℕ)
        → value_at aws store codecs.intent s config.bucket (gc_intent_key config n)
          ≡ ok (r.intent n)

  -- what a request leaves where it answers: the specified answer, and objects that stand for the
  -- specified records
  abbrev pub Refines : ObjectStore aws → Request → Records → S → Type 0
  Refines store q r s =
      (a : Answer)
      → (performed q s).0 ≡ ok a
      → (a ≡ (specified q r).0) × Represents store (specified q r).1 (performed q s).1
