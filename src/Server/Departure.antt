-- ===== src/Server/Departure.antt =====
-- src/server/mod.rs, src/peers/discovery.rs and src/gc/storage.rs: what a server that shuts down leaves
-- for the collectors.
use experimental_crdt.Base.{◌<◌, ◌^◌, String, string_eq, Eq, some, List, ◌≡◌, ok, false, true}
use experimental_crdt.Map.Sets.{contains}
use experimental_crdt.Text.{trim_end_matches}
use experimental_crdt.Text.Split.{lacks}
use experimental_crdt.Proto.{Message, ProtoOrSetDelta}
use experimental_crdt.Crdt.{or_set}
use experimental_crdt.OrSet.{OrSet, full_state, causal_context}
use experimental_crdt.OrSet.Codec.{ElementCodec, encode_delta}
use experimental_crdt.Dissemination.{DisseminationStrategy}
use experimental_crdt.Gc.{GcStorage}
use experimental_crdt.Gc.Storage.{GcStorageConfig, parse_final_dot_key}
use experimental_crdt.Gc.Storage.Keys.{parse_final_dot_key-final_dot_key}
use experimental_crdt.Storage.{AwsClient, list_object_keys}
use experimental_crdt.Storage.Store.{ObjectStore}
use experimental_crdt.Discovery.{Discovery, registration_key_prefix}
use experimental_crdt.Discovery.Service.{deregister, final_dot_key}
use experimental_crdt.Discovery.Departure.{object-deregister}
use experimental_crdt.Engine.{CrdtEngine, get_final_state_for_deregistration}
use experimental_crdt.Server.Shutdown.{Running, leave, handle_shutdown}

module _ {E S H T : Type 0} ⦃e : Eq E⦄ (codec : ElementCodec E) (prost : Message ProtoOrSetDelta)
    (aws : AwsClient S) (objects : ObjectStore aws) (store : GcStorage S)
    (strategy : DisseminationStrategy H) where
  -- A server that shuts down and deregisters leaves its whole set, encoded, under a key from which the
  -- collectors read the server's node id and its own counter. The listing of the node's registrations
  -- answers with keys other than that one, the deregistration answers, the collectors' prefix does not
  -- end in a slash, no underscore stands in the node's id, the counter fits 64 bits, and the
  -- store keeps its documented promises.
  pub object-handle_shutdown :
      (discovery : Discovery) (g : CrdtEngine S (OrSet E) H) (handles : List T)
      (config : GcStorageConfig) (r : Running S H T) (keys : List String)
      → (list_object_keys aws discovery.config.bucket
          (registration_key_prefix discovery.node_id)
          r.storage).0
        ≡ ok keys
      → contains keys (final_dot_key config.prefix discovery.node_id g.dvv.dot.counter) ≡ false
      → (deregister aws discovery config.prefix g.dvv.dot.counter
          (encode_delta codec prost (full_state g.crdt g.dvv))
          r.storage).0
        ≡ ok tt
      → trim_end_matches config.prefix "/" ≡ config.prefix
      → lacks "_" discovery.node_id ≡ true
      → g.dvv.dot.counter < 2 ^ 64
      → (objects.object
            (handle_shutdown aws
              (or_set codec prost)
              store
              strategy
              discovery
              (some g)
              handles
              config.prefix
              r).1.storage
            discovery.config.bucket
            (final_dot_key config.prefix discovery.node_id g.dvv.dot.counter)
          ≡ some (encode_delta codec prost (full_state g.crdt g.dvv)))
        × (parse_final_dot_key config
              (final_dot_key config.prefix discovery.node_id g.dvv.dot.counter)
            ≡ some (discovery.node_id, g.dvv.dot.counter))
  unfolding handle_shutdown leave get_final_state_for_deregistration full_state causal_context
  object-handle_shutdown discovery g handles config r keys listed apart answered trimmed named
        fits =
      (
        object-deregister aws objects discovery config.prefix g.dvv.dot.counter
            (encode_delta codec prost (full_state g.crdt g.dvv)) r.storage keys listed apart
            answered,
        parse_final_dot_key-final_dot_key config discovery.node_id g.dvv.dot.counter trimmed named
            fits,
      )
