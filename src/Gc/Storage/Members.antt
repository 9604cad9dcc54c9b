-- ===== src/Gc/Storage/Members.antt =====
-- src/peers/discovery.rs and src/gc/coordinator.rs: the members that a listing of the registrations gives.
use experimental_crdt.Base.{
  String, ◌==◌, string_eq, Bool, false, ◌||◌, List, [], ◌∷◌, ◌≡◌, refl, Result, ok, err, map, arith,
  Result-cases, inl, inr,
}
use experimental_crdt.Map.{HashMap, insert, values}
use experimental_crdt.Map.Sets.{contains}
use experimental_crdt.Text.{sort, dedup}
use experimental_crdt.Text.Order.{contains-sort, contains-dedup}
use experimental_crdt.Clock.{NodeId}
use experimental_crdt.Storage.{AwsClient, list_object_keys}
use experimental_crdt.Discovery.{
  Chrono, NodeRegistration, discovery_nodes_prefix, parse_registration_key, put_registration,
  collect_registrations,
}
use experimental_crdt.Discovery.Service.{list_live_registrations, list_live_node_ids}
use experimental_crdt.Gc.Storage.{Codecs, GcStorageConfig, live_members}

module _ {D : Type 0} where
  -- every registration stands under its own node id
  abbrev IsNamed : HashMap NodeId (NodeRegistration D) → Type 0
  IsNamed [] = Unit {0}
  IsNamed ((k, r) ∷ m) = (k ≡ r.node_id) × IsNamed m

  insert-IsNamed :
      (m : HashMap NodeId (NodeRegistration D)) (r : NodeRegistration D)
      → IsNamed m
      → IsNamed (insert m r.node_id r)
  unfolding insert
  insert-IsNamed [] r h = (refl, tt)
  insert-IsNamed ((k, w) ∷ m) r h =
      ground (arith, insert-IsNamed m r, string_eq.beq_iff k r.node_id)

  abbrev ids : HashMap NodeId (NodeRegistration D) → List NodeId
  ids m = map (λ r. r.node_id) (values m)

  contains-ids-insert :
      (m : HashMap NodeId (NodeRegistration D)) (r : NodeRegistration D) (n : NodeId)
      → IsNamed m
      → contains (ids (insert m r.node_id r)) n ≡ (r.node_id == n || contains (ids m) n)
  unfolding insert contains
  contains-ids-insert [] r n h = refl
  contains-ids-insert ((k, w) ∷ m) r n h = ground (
    arith,
    contains-ids-insert m r n,
    string_eq.beq_iff k r.node_id,
    string_eq.beq_iff w.node_id n,
    string_eq.beq_iff r.node_id n,
  )

  -- the key is read as a registration of the node
  abbrev pub registers : Result (NodeRegistration D) → NodeId → Bool
  registers (ok r) n = r.node_id == n
  registers (err e) n = false

  module _ (chrono : Chrono D) where
    -- some key is read as a registration of the node
    abbrev pub is_registered : List String → NodeId → Bool
    is_registered [] n = false
    is_registered (key ∷ keys) n =
        registers (parse_registration_key chrono key) n || is_registered keys n

    contains-collect_registrations :
        (m : HashMap NodeId (NodeRegistration D)) (keys : List String) (n : NodeId)
        → IsNamed m
        → contains (ids (collect_registrations chrono m keys)) n
          ≡ (is_registered keys n || contains (ids m) n)
    unfolding collect_registrations put_registration
    contains-collect_registrations m [] n h = refl
    contains-collect_registrations m (key ∷ keys) n h =
        elim (Result-cases (parse_registration_key chrono key)) [
          | inr bad ↦ ground (arith, bad.1, contains-collect_registrations m keys n h)
          | inl read ↦ ground (
            arith,
            read.1,
            contains-ids-insert m read.0 n h,
            contains-collect_registrations (insert m read.0.node_id read.0) keys n
                (insert-IsNamed m read.0 h),
          )
        ]

    -- The members that the collectors read are the nodes for which some listed key is read as a
    -- registration, whatever its time of expiry; keys that are not read are passed over. The listing
    -- answers.
    pub contains-live_members :
        {S : Type 0} (aws : AwsClient S) (codecs : Codecs) (config : GcStorageConfig)
        (bucket : String) (s : S) (keys : List String) (members : List NodeId) (n : NodeId)
        → (list_object_keys aws bucket discovery_nodes_prefix s).0 ≡ ok keys
        → (live_members aws codecs config chrono bucket s).0 ≡ ok members
        → contains members n ≡ is_registered keys n
    unfolding live_members list_live_node_ids list_live_registrations contains
    contains-live_members aws codecs config bucket s keys members n listed answered =
        let found = ids (collect_registrations chrono [] keys) in
        ground (
          arith,
          contains-dedup (sort (dedup (sort found))) n,
          contains-sort (dedup (sort found)) n,
          contains-dedup (sort found) n,
          contains-sort found n,
          contains-collect_registrations [] keys n tt,
        )
