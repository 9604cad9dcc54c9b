-- ===== src/Discovery/Rounds.antt =====
-- discovery.rs: one round of `run_discovery_loop`. The timer that starts a round is left out.
use experimental_crdt.Base.{
  string_eq, String, not, Option, none, some, List, [], ◌∷◌, Result, ok, err, retain,
}
use experimental_crdt.Map.{HashMap, get, insert, keys}
use experimental_crdt.Map.Sets.{HashSet, contains}
use experimental_crdt.Clock.{NodeId}
use experimental_crdt.Registry.{peer_ids}
use experimental_crdt.Storage.{AwsClient, Json}
use experimental_crdt.Discovery.{Chrono, NodeRegistration, Discovery}
use experimental_crdt.Discovery.Service.{register, list_live_peers}
use experimental_crdt.Discovery.Connector.{Network, PeerConnector, Links, add_peer, remove_peer}

-- `collect::<HashMap<_, _>>()`
unfoldable pub desired_of :
    {D : Type 0}
    → HashMap NodeId (NodeRegistration D)
    → List (NodeRegistration D)
    → HashMap NodeId (NodeRegistration D)
desired_of desired [] = desired
desired_of desired (r ∷ rs) = desired_of (insert desired r.node_id r) rs

-- the loop over the peers that have departed
unfoldable pub disconnect_all : {H T : Type 0} → List NodeId → Links H T → Links H T
disconnect_all [] links = links
disconnect_all (node_id ∷ ids) links = disconnect_all ids (remove_peer node_id links)

-- `a.difference(&b)`
abbrev pub difference : HashSet NodeId → HashSet NodeId → List NodeId
difference a b = retain (λ node_id. not (contains b node_id)) a

module _ {H T D : Type 0} (network : Network T) (this : PeerConnector) where
  abbrev pub connect : Option (NodeRegistration D) → NodeId → Links H T → Links H T
  connect none node_id links = links
  connect (some registration) node_id links = add_peer network this node_id registration.addr links

  -- the loop over the peers that are new
  unfoldable pub connect_all :
      HashMap NodeId (NodeRegistration D) → List NodeId → Links H T → Links H T
  connect_all desired [] links = links
  connect_all desired (node_id ∷ ids) links =
      connect_all desired ids (connect (get desired node_id) node_id links)

  -- step 3 of a round
  unfoldable pub reconcile : List (NodeRegistration D) → Links H T → Links H T
  reconcile live_peers links =
      let desired = desired_of [] live_peers in
      let current = peer_ids links.registry in
      disconnect_all (difference current (keys desired))
        (connect_all desired (difference (keys desired) current) links)

  abbrev pub list_and_reconcile :
      {S : Type 0} → Result (List (NodeRegistration D)) × S → Links H T → Links H T × S
  list_and_reconcile (ok live_peers, s) links = (reconcile live_peers links, s)
  list_and_reconcile (err e, s) links = (links, s)

  -- One round: a registration or a listing that fails ends it.
  unfoldable pub round :
      {S : Type 0}
      → AwsClient S
      → Chrono D
      → Json String
      → Discovery
      → D
      → Links H T
      → S
      → Links H T × S
  round aws chrono json discovery now links s =
      let registered = register aws chrono json discovery now s in
      elim (registered.0) [
        | err e ↦ (links, registered.1)
        | ok _ ↦ list_and_reconcile (list_live_peers aws chrono discovery registered.1) links
      ]
