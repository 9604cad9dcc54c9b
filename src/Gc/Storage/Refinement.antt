-- ===== src/Gc/Storage/Refinement.antt =====
-- storage.rs: the storage on an object store does what the specification of its records says, request
-- by request.
use experimental_crdt.Base.{List, [], ◌∷◌, ◌≡◌, ok, arith, Result-cases, inl, inr}
use experimental_crdt.Storage.{AwsClient, Call, ◌>>=◌, pure}
use experimental_crdt.Storage.Store.{ObjectStore, JsonRoundTrip}
use experimental_crdt.Gc.Storage.{Codecs, GcStorageConfig}
use experimental_crdt.Gc.Storage.Records.{
  Records, Request, read_metadata, read_state, write_metadata, write_state, claim_intent,
  read_intent, release_intent, Answer, specified, performed, Represents, Refines,
}
use experimental_crdt.Gc.Storage.Reads.{
  Refines-read_metadata, Refines-read_state, Refines-read_intent,
}
use experimental_crdt.Gc.Storage.Writes.{Refines-write_metadata, Refines-write_state}
use experimental_crdt.Gc.Storage.Intents.{Refines-claim_intent, Refines-release_intent}

-- a sequence of requests to the specification
abbrev pub specified_all : List Request → Records → List Answer × Records
specified_all [] r = ([], r)
specified_all (q ∷ qs) r = (
  (specified q r).0 ∷ (specified_all qs (specified q r).1).0,
  (specified_all qs (specified q r).1).1,
)

module _ {S : Type 0} (aws : AwsClient S) (codecs : Codecs) (config : GcStorageConfig)
    (store : ObjectStore aws) where
  -- the same sequence to the object store, up to the first request that fails
  abbrev pub performed_all : List Request → Call S (List Answer)
  performed_all [] = pure []
  performed_all (q ∷ qs) =
      performed aws codecs config q >>= λ a. performed_all qs >>= λ more. pure (a ∷ more)

  module _ (metadata_trip : JsonRoundTrip codecs.metadata) (state_trip : JsonRoundTrip codecs.state)
      (intent_trip : JsonRoundTrip codecs.intent) where
    refines :
        (q : Request) (r : Records) (s : S)
        → Represents aws codecs config store r s
        → Refines aws codecs config store q r s
    refines read_metadata r s rep = Refines-read_metadata aws codecs config store r s rep
    refines read_state r s rep = Refines-read_state aws codecs config store r s rep
    refines (write_metadata md) r s rep =
        Refines-write_metadata aws codecs config store metadata_trip md r s rep
    refines (write_state st) r s rep =
        Refines-write_state aws codecs config store state_trip st r s rep
    refines (claim_intent n node) r s rep =
        Refines-claim_intent aws codecs config store intent_trip n node r s rep
    refines (read_intent n) r s rep = Refines-read_intent aws codecs config store n r s rep
    refines (release_intent n) r s rep =
        Refines-release_intent aws codecs config store intent_trip n r s rep

    -- A sequence of requests that the object store answers is answered as the specification says: the
    -- reads give what was last written, an intent that is held is not given away until it is
    -- released, and an epoch's intent touches no other record. The objects at the start stand for the
    -- records, serde gives back what it wrote, and the store keeps its documented promises.
    pub performed_all-specified_all :
        (qs : List Request) (r : Records) (s : S) (answers : List Answer)
        → Represents aws codecs config store r s
        → (performed_all qs s).0 ≡ ok answers
        → answers ≡ (specified_all qs r).0
    performed_all-specified_all [] r s answers rep h = ground arith
    performed_all-specified_all (q ∷ qs) r s answers rep h =
        elim (Result-cases (performed aws codecs config q s).0) [
          | inr failed ↦ absurd (ground arith)
          | inl first ↦
              let one = refines q r s rep first.0 first.1 in
              let s' = (performed aws codecs config q s).1 in
              elim (Result-cases (performed_all qs s').0) [
                | inr failed ↦ absurd (ground arith)
                | inl more ↦ ground (
                  arith,
                  one.0,
                  performed_all-specified_all qs (specified q r).1 s' more.0 one.1 more.1,
                )
              ]
        ]
