-- ===== src/Simulated.antt =====
-- src/network/simulated.rs: a network in one process, where a connection is a channel of the peer. The
-- channels of the peers are a parameter.
pub mod Delivery
use experimental_crdt.Base.{
  String, string_eq, Bool, Option, none, some, List, [], ◌∷◌, Result, ok, err,
}
use experimental_crdt.Map.{HashMap, get}
use experimental_crdt.Clock.{NodeId}
use experimental_crdt.Proto.{Envelope}
use experimental_crdt.Registry.{Sender, PeerRegistry, insert}

-- the peers by address
abbrev pub PeerChannels : Type 0 → Type 0
PeerChannels R = HashMap String (NodeId × Bool × R)

module _ {R : Type 0} (remote_tx : Sender R Envelope) where
  -- the envelopes that the writer takes from its channel, up to the first that the peer refuses
  unfoldable pub writer_loop : R → List Envelope → R
  writer_loop remote [] = remote
  writer_loop remote (envelope ∷ envelopes) = elim (remote_tx.try_send remote envelope) [
    | err e ↦ remote
    | ok remote' ↦ writer_loop remote' envelopes
  ]

  -- The node that is returned, the peers, and the peer's channel at the end if there is one. The handle
  -- is the sending side of the connection's own channel, and the envelopes are what comes out of it.
  unfoldable pub run_connection :
      {H : Type 0}
      → PeerChannels R
      → (addr : String) (local_node_id : NodeId) → H
      → List Envelope
      → PeerRegistry H
      → Result NodeId × PeerRegistry H × Option R
  run_connection peer_channels addr local_node_id handle envelopes registry =
      elim (get peer_channels addr) [
        | none ↦ (ok local_node_id, registry, none)
        | some (remote_node_id, remote_gc_replica, remote) ↦ (
          ok remote_node_id,
          insert registry remote_node_id remote_gc_replica handle,
          some (writer_loop remote envelopes),
        )
      ]
