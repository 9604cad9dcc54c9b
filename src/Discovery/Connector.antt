-- ===== src/Discovery/Connector.antt =====
-- src/peers/peer_connector.rs: the outbound tasks, by node id. The network that starts a task is a
-- parameter; a task that is aborted is put on a list.
use experimental_crdt.Base.{
  String, string_eq, Bool, not, ◌&&◌, Option, none, some, List, ◌∷◌, if◌then◌else◌,
}
use experimental_crdt.Map.{HashMap, get, insert, remove as erase, contains_key}
use experimental_crdt.Text.{text_leb}
use experimental_crdt.Clock.{NodeId}
use experimental_crdt.Registry.{PeerRegistry, remove}

-- `dyn Network`: whether both ends of a link dial, and the task that dials an address
pub record Network (T : Type 0) : Type 0 where
  pub allow_bidirectional : Bool
  pub spawn_outbound : (addr local_node_id local_node_name : String) → Bool → T

pub record PeerConnector : Type 0 where
  pub node_id : NodeId
  pub node_name : String
  pub gc_replica : Bool

-- what the connector shares with the rest of the server
pub record Links (H T : Type 0) : Type 0 where
  pub registry : PeerRegistry H
  pub outbound_tasks : HashMap NodeId T
  pub aborted : List T

-- the test that skips a peer: the smaller node id dials
unfoldable pub is_skipped : {T : Type 0} → Network T → PeerConnector → NodeId → Bool
is_skipped network this node_id = not network.allow_bidirectional && text_leb node_id this.node_id

unfoldable pub add_peer :
    {H T : Type 0} → Network T → PeerConnector → NodeId → String → Links H T → Links H T
add_peer network this node_id addr links =
    if is_skipped network this node_id
    then links
    else if contains_key links.outbound_tasks node_id
    then links
    else record links {
      outbound_tasks =
          insert links.outbound_tasks node_id
            (network.spawn_outbound addr this.node_id this.node_name this.gc_replica);
    }

-- `handle.abort()`
abbrev pub abort : {T : Type 0} → Option T → List T → List T
abort none aborted = aborted
abort (some task) aborted = task ∷ aborted

unfoldable pub remove_peer : {H T : Type 0} → NodeId → Links H T → Links H T
remove_peer node_id links = record {
  registry = (remove links.registry node_id).1;
  outbound_tasks = erase links.outbound_tasks node_id;
  aborted = abort (get links.outbound_tasks node_id) links.aborted;
}
