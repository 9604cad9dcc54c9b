-- ===== src/Discovery/Service.antt =====
-- discovery.rs: the calls of the object store that register a node, take it off again and list the
-- others. The clock's reading is an argument.
use experimental_crdt.Base.{
  String, ◌==◌, string_eq, Bool, true, not, Option, none, some, List, [], ◌∷◌, ok, map, retain,
}
use experimental_crdt.Map.{values}
use experimental_crdt.Map.Sets.{HashSet, contains}
use experimental_crdt.Text.{◌<>◌, sort, dedup}
use experimental_crdt.Text.Decimal.{show_nat}
use experimental_crdt.Clock.{NodeId, Counter}
use experimental_crdt.Proto.{Bytes}
use experimental_crdt.Storage.{
  AwsClient, Call, Json, ◌>>=◌, ◌>>◌, pure, lift, list_object_keys, put_object, delete_object,
  ensure_bucket,
}
use experimental_crdt.Discovery.{
  Chrono, DiscoveryConfig, NodeRegistration, Discovery, discovery_nodes_prefix, final_dots_prefix,
  registration_key, registration_key_prefix, collect_registrations,
}

-- the key under which a node leaves its last dot; the prefix is the collector's, as configured
unfoldable pub final_dot_key : String → NodeId → Counter → String
final_dot_key prefix node_id final_dot =
    prefix <> ("/" <> (final_dots_prefix <> (node_id <> ("_" <> (show_nat final_dot <> ".json")))))

module _ {S : Type 0} (aws : AwsClient S) where
  -- `Discovery::new`
  unfoldable pub new :
      DiscoveryConfig → NodeId → (listen_host listen_port : String) → Call S Discovery
  new config node_id listen_host listen_port = do
    ensure_bucket aws config.bucket
    pure (record {
      config = config;
      node_id = node_id;
      listen_host = listen_host;
      listen_port = listen_port;
    })

  -- the loop over the old keys; a failure is only logged
  unfoldable pub delete_keys : String → List String → S → S
  delete_keys bucket [] s = s
  delete_keys bucket (key ∷ keys) s = delete_keys bucket keys (delete_object aws bucket key s).1

  unfoldable pub deregister : Discovery → String → Counter → Bytes → Call S (Unit {0})
  deregister this prefix final_dot final_state = do
    current_keys ← list_object_keys aws this.config.bucket (registration_key_prefix this.node_id)
    put_object aws this.config.bucket (final_dot_key prefix this.node_id final_dot) final_state
        "application/json"
    λ s. (ok tt, delete_keys this.config.bucket current_keys s)

  module _ {D : Type 0} (chrono : Chrono D) where
    unfoldable pub list_live_registrations : String → Call S (List (NodeRegistration D))
    list_live_registrations bucket = do
      keys ← list_object_keys aws bucket discovery_nodes_prefix
      pure (values (collect_registrations chrono [] keys))

    unfoldable pub list_live_node_ids : String → Call S (List NodeId)
    list_live_node_ids bucket = do
      registrations ← list_live_registrations bucket
      pure (dedup (sort (map (λ r. r.node_id) registrations)))

    -- an upload of the node's key, unless it has one
    unfoldable pub put_if_none : Discovery → List String → String → Bytes → Call S (Unit {0})
    put_if_none this [] key body = put_object aws this.config.bucket key body "application/json"
    put_if_none this (_ ∷ _) key body = pure tt

    unfoldable pub register : Json String → Discovery → D → Call S (Unit {0})
    register json this now = do
      expires_at ← lift (chrono.after now this.config.registration_ttl)
      body ← lift (json.to_vec "")
      current_keys ← list_object_keys aws this.config.bucket (registration_key_prefix this.node_id)
      put_if_none this current_keys
          (registration_key chrono this.node_id expires_at this.config.gc_replica
            (this.listen_host <> (":" <> this.listen_port)))
          body

    unfoldable pub is_allowed : Option (HashSet NodeId) → NodeId → Bool
    is_allowed none node_id = true
    is_allowed (some allowed_ids) node_id = contains allowed_ids node_id

    unfoldable pub list_live_peers : Discovery → Call S (List (NodeRegistration D))
    list_live_peers this = do
      all ← list_live_registrations this.config.bucket
      pure (
          retain (λ reg. is_allowed this.config.connect_node_ids reg.node_id)
            (retain (λ reg. not (reg.node_id == this.node_id)) all))
