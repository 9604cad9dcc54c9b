-- ===== src/Tests/Storage.antt =====
-- The theorems on the object store and the collector's records.
use experimental_crdt.Base.{
  string_eq, nat_eq, true, false, none, List, [], ◌∷◌, ◌≡◌, refl, ok, arith,
}
use experimental_crdt.Text.{strip_prefix, trim_end_matches}
use experimental_crdt.Text.Decimal.{negsuc, show_nat, put_digits, digit}
use experimental_crdt.Storage.{
  list_object_keys, list_pages, page_keys, put_object, delete_object, get_json_optional,
  get_object_optional, optional_answer, put_json, put_json_if_absent, put_object_if_absent,
  if_absent_answer,
}
use experimental_crdt.Storage.Listing.{list_object_keys-IsWhole, IsWhole}
use experimental_crdt.Gc.{EpochMetadata}
use experimental_crdt.Gc.Storage.{
  parse_final_dot_key, key, gc_intent_key, epoch_metadata_key, first_metadata, read_epoch_metadata,
  write_epoch_metadata, claim_gc_intent, release_gc_intent,
}
use experimental_crdt.Gc.Storage.Keys.{parse_final_dot_key-underscore}
use experimental_crdt.Gc.Storage.Records.{
  Request, read_metadata, write_metadata, claim_intent, release_intent, Answer, found_metadata,
  done, claimed,
}
use experimental_crdt.Gc.Storage.Refinement.{
  specified_all, performed_all, performed_all-specified_all,
}
use experimental_crdt.Discovery.{registration_key, parse_registration_key}
use experimental_crdt.Discovery.Keys.{parse_registration_key-registration_key}
use experimental_crdt.Discovery.Service.{final_dot_key}
use experimental_crdt.Tests.Objects.{
  Objects, memory, memory-IsPaged, behind, memory-ObjectStore, config, codecs, metadata_trip,
  state_trip, intent_trip, clock, no_records, no_records-Represents,
}

abbrev epoch_4 : EpochMetadata
epoch_4 = record { epoch = 4; v_stable = []; obsolete_dots = [] }

-- two collectors claim an epoch, and the metadata is published
abbrev requests : List Request
requests =
    claim_intent 4 "a"
    ∷ claim_intent 4 "b"
    ∷ read_metadata
    ∷ write_metadata epoch_4
    ∷ release_intent 4
    ∷ claim_intent 4 "b"
    ∷ read_metadata
    ∷ []

abbrev answers : List Answer
answers =
    claimed true
    ∷ claimed false
    ∷ found_metadata first_metadata
    ∷ done
    ∷ done
    ∷ claimed true
    ∷ found_metadata epoch_4
    ∷ []

requests-answers :
    (performed_all memory codecs config memory-ObjectStore requests []).0 ≡ ok answers
unfolding read_epoch_metadata write_epoch_metadata claim_gc_intent release_gc_intent
    get_json_optional get_object_optional optional_answer put_json put_object put_json_if_absent
    put_object_if_absent if_absent_answer delete_object gc_intent_key epoch_metadata_key key
    trim_end_matches show_nat put_digits digit
requests-answers = refl

performed_all-specified_all_example : answers ≡ (specified_all requests no_records).0
performed_all-specified_all_example =
    performed_all-specified_all memory codecs config memory-ObjectStore metadata_trip state_trip
      intent_trip requests no_records [] answers no_records-Represents requests-answers

abbrev stored : Objects
stored =
    ("bucket", "nodes/a", [])
    ∷ ("bucket", "x", [])
    ∷ ("bucket", "nodes/b", [])
    ∷ ("bucket", "nodes/c", [])
    ∷ []

list_object_keys-IsWhole_example :
    IsWhole memory "bucket" "nodes/" none stored
      (list_object_keys memory "bucket" "nodes/" stored).0
      ("nodes/a" ∷ "nodes/b" ∷ "nodes/c" ∷ [])
unfolding page_keys strip_prefix
list_object_keys-IsWhole_example =
    list_object_keys-IsWhole memory "bucket" "nodes/" (behind "bucket" "nodes/")
      (memory-IsPaged "bucket" "nodes/") stored

-- the listing goes over two pages
listing_run :
    list_object_keys memory "bucket" "nodes/" stored
    ≡ (ok ("nodes/a" ∷ "nodes/b" ∷ "nodes/c" ∷ []), stored)
unfolding list_object_keys list_pages page_keys strip_prefix
listing_run = refl

parse_registration_key-registration_key_example :
    parse_registration_key clock (registration_key clock "node-1" (negsuc 41) true "10.0.0.1:9000")
    ≡ ok (record {
      node_id = "node-1";
      node_name = "node-1";
      addr = "10.0.0.1:9000";
      gc_replica = true;
      expires_at = negsuc 41;
    })
parse_registration_key-registration_key_example =
    parse_registration_key-registration_key clock "node-1" (negsuc 41) true "10.0.0.1:9000" refl
      refl refl (omega arith) refl

parse_final_dot_key-underscore_example :
    parse_final_dot_key config (final_dot_key "gc" "node_1" 7) ≡ none
unfolding trim_end_matches
parse_final_dot_key-underscore_example = parse_final_dot_key-underscore config "node_1" 7 refl refl
