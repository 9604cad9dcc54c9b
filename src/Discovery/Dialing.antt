-- ===== src/Discovery/Dialing.antt =====
-- peer_connector.rs: who dials whom.
use experimental_crdt.Base.{String, ◌==◌, string_eq, false, not, ◌&&◌, ◌||◌, ◌≡◌, ◌≢◌, arith}
use experimental_crdt.Map.{contains_key}
use experimental_crdt.Map.Laws.{get-insert}
use experimental_crdt.Text.Order.{text_leb_total, text_leb_antisym}
use experimental_crdt.Clock.{NodeId}
use experimental_crdt.Discovery.Connector.{Network, PeerConnector, Links, is_skipped, add_peer}

-- After an attempt to add a peer, the tasks are those that were there, and one for the peer unless
-- it is skipped.
pub has_task-add_peer :
    {H T : Type 0} (network : Network T) (this : PeerConnector) (node_id : NodeId) (addr : String)
    (links : Links H T) (n : NodeId)
    → contains_key (add_peer network this node_id addr links).outbound_tasks n ≡ (
        contains_key links.outbound_tasks n
        || (node_id == n && not (is_skipped network this node_id)))
unfolding add_peer
has_task-add_peer network this node_id addr links n = ground (
  arith,
  string_eq.beq_iff node_id n,
  get-insert links.outbound_tasks node_id n
      (network.spawn_outbound addr this.node_id this.node_name this.gc_replica),
)

-- Of two nodes with different ids that learn of each other, where links are dialled from one end
-- and neither has a task for the other yet, exactly one has a task for the other afterwards.
pub one_dials :
    {H T : Type 0} (network : Network T) (a b : PeerConnector) (addr_a addr_b : String)
    (links_a links_b : Links H T)
    → network.allow_bidirectional ≡ false
    → a.node_id ≢ b.node_id
    → contains_key links_a.outbound_tasks b.node_id ≡ false
    → contains_key links_b.outbound_tasks a.node_id ≡ false
    → contains_key (add_peer network a b.node_id addr_b links_a).outbound_tasks b.node_id
      ≡ not (contains_key (add_peer network b a.node_id addr_a links_b).outbound_tasks a.node_id)
unfolding is_skipped
one_dials network a b addr_a addr_b links_a links_b one_way distinct none_a none_b = ground (
  arith,
  has_task-add_peer network a b.node_id addr_b links_a b.node_id,
  has_task-add_peer network b a.node_id addr_a links_b a.node_id,
  string_eq.beq_iff a.node_id a.node_id,
  string_eq.beq_iff b.node_id b.node_id,
  text_leb_total a.node_id b.node_id,
  text_leb_antisym a.node_id b.node_id,
)
