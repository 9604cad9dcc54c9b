-- ===== src/Discovery/Reconcile.antt =====
-- discovery.rs: the peers and the tasks that a round leaves.
use experimental_crdt.Base.{
  ◌==◌, string_eq, Bool, false, not, ◌&&◌, ◌||◌, Option, none, some, List, [], ◌∷◌, ◌≡◌, refl,
  if◌then◌else◌, arith,
}
use experimental_crdt.Map.{HashMap, get, insert, keys, contains_key, is_some}
use experimental_crdt.Map.Laws.{get-insert, get-remove, contains-keys}
use experimental_crdt.Map.Sets.{contains, contains-retain}
use experimental_crdt.Clock.{NodeId}
use experimental_crdt.Registry.{peer_ids, remove}
use experimental_crdt.Discovery.{NodeRegistration}
use experimental_crdt.Discovery.Connector.{
  Network, PeerConnector, Links, is_skipped, add_peer, remove_peer,
}
use experimental_crdt.Discovery.Rounds.{
  desired_of, disconnect_all, difference, connect, connect_all, reconcile,
}
use experimental_crdt.Discovery.Dialing.{has_task-add_peer}

-- a live peer stands in the listing
abbrev pub is_live : {D : Type 0} → List (NodeRegistration D) → NodeId → Bool
is_live [] n = false
is_live (r ∷ rs) n = r.node_id == n || is_live rs n

contains_key-desired_of :
    {D : Type 0} (desired : HashMap NodeId (NodeRegistration D)) (rs : List (NodeRegistration D))
    (n : NodeId)
    → contains_key (desired_of desired rs) n ≡ (is_live rs n || contains_key desired n)
unfolding desired_of
contains_key-desired_of desired [] n = refl
contains_key-desired_of desired (r ∷ rs) n = ground (
  arith,
  contains_key-desired_of (insert desired r.node_id r) rs n,
  get-insert desired r.node_id n r,
)

contains_key-desired_of_empty :
    {D : Type 0} (rs : List (NodeRegistration D)) (n : NodeId)
    → contains_key (desired_of [] rs) n ≡ is_live rs n
unfolding get
contains_key-desired_of_empty rs n = ground (arith, contains_key-desired_of [] rs n)

module _ {H T : Type 0} where
  peers-disconnect_all :
      (ids : List NodeId) (links : Links H T) (n : NodeId)
      → get (disconnect_all ids links).registry n
        ≡ (if contains ids n then none else get links.registry n)
  unfolding disconnect_all remove_peer contains remove
  peers-disconnect_all [] links n = refl
  peers-disconnect_all (i ∷ ids) links n =
      ground
        (arith, peers-disconnect_all ids (remove_peer i links) n, get-remove links.registry i n)

  tasks-disconnect_all :
      (ids : List NodeId) (links : Links H T) (n : NodeId)
      → get (disconnect_all ids links).outbound_tasks n
        ≡ (if contains ids n then none else get links.outbound_tasks n)
  unfolding disconnect_all remove_peer contains
  tasks-disconnect_all [] links n = refl
  tasks-disconnect_all (i ∷ ids) links n =
      ground (
        arith,
        tasks-disconnect_all ids (remove_peer i links) n,
        get-remove links.outbound_tasks i n,
      )

module _ {H T D : Type 0} (network : Network T) (this : PeerConnector) where
  registry-connect_all :
      (desired : HashMap NodeId (NodeRegistration D)) (ids : List NodeId) (links : Links H T)
      → (connect_all network this desired ids links).registry ≡ links.registry
  unfolding connect_all add_peer
  registry-connect_all desired [] links = refl
  registry-connect_all desired (i ∷ ids) links =
      ground
        (arith, registry-connect_all desired ids (connect network this (get desired i) i links))

  tasks-connect :
      (registration : Option (NodeRegistration D)) (i n : NodeId) (links : Links H T)
      → contains_key (connect network this registration i links).outbound_tasks n ≡ (
          contains_key links.outbound_tasks n
          || (i == n && is_some registration && not (is_skipped network this i)))
  tasks-connect none i n links = ground arith
  tasks-connect (some r) i n links = ground (arith, has_task-add_peer network this i r.addr links n)

  tasks-connect_all :
      (desired : HashMap NodeId (NodeRegistration D)) (ids : List NodeId) (links : Links H T)
      (n : NodeId)
      → contains_key (connect_all network this desired ids links).outbound_tasks n ≡ (
          contains_key links.outbound_tasks n
          || (contains ids n && contains_key desired n && not (is_skipped network this n)))
  unfolding connect_all contains
  tasks-connect_all desired [] links n = ground arith
  tasks-connect_all desired (i ∷ ids) links n = ground (
    arith,
    tasks-connect_all desired ids (connect network this (get desired i) i links) n,
    tasks-connect (get desired i) i n links,
    string_eq.beq_iff i n,
  )

  -- The reconciliation of a round leaves exactly the connected peers that are live, each as it was.
  pub registry-reconcile :
      (live_peers : List (NodeRegistration D)) (links : Links H T) (n : NodeId)
      → get (reconcile network this live_peers links).registry n
        ≡ (if is_live live_peers n then get links.registry n else none)
  unfolding reconcile peer_ids
  registry-reconcile live_peers links n =
      let desired = desired_of [] live_peers in
      let current = keys links.registry in
      let departed = difference current (keys desired) in
      let added = connect_all network this desired (difference (keys desired) current) links in
      ground (
        arith,
        peers-disconnect_all departed added n,
        registry-connect_all desired (difference (keys desired) current) links,
        contains-retain (λ i. not (contains (keys desired) i)) current n,
        contains-keys desired n,
        contains-keys links.registry n,
        contains_key-desired_of_empty live_peers n,
      )

  -- After the reconciliation of a round a node has an outbound task exactly if it had one before or
  -- is live, not connected and not skipped, and it is not a connected peer that has departed. A
  -- departed node that was not connected keeps its task.
  pub tasks-reconcile :
      (live_peers : List (NodeRegistration D)) (links : Links H T) (n : NodeId)
      → contains_key (reconcile network this live_peers links).outbound_tasks n ≡ (
          if contains_key links.registry n
          then is_live live_peers n && contains_key links.outbound_tasks n
          else (contains_key links.outbound_tasks n
              || (is_live live_peers n && not (is_skipped network this n))))
  unfolding reconcile peer_ids
  tasks-reconcile live_peers links n =
      let desired = desired_of [] live_peers in
      let current = keys links.registry in
      let departed = difference current (keys desired) in
      let added = difference (keys desired) current in
      ground (
        arith,
        tasks-disconnect_all departed (connect_all network this desired added links) n,
        tasks-connect_all desired added links n,
        contains-retain (λ i. not (contains (keys desired) i)) current n,
        contains-retain (λ i. not (contains current i)) (keys desired) n,
        contains-keys desired n,
        contains-keys links.registry n,
        contains_key-desired_of_empty live_peers n,
      )
