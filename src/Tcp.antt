-- ===== src/Tcp.antt =====
-- src/network/tcp_connection.rs: connections between two nodes. A connection is the bytes that come in
-- until its end and the bytes that go out; failures of the socket itself are left out. A send to the
-- application waits for room, so it fails only when the channel is closed.
pub mod Handshakes
pub mod Streams
pub mod Outbound
use experimental_crdt.Base.{
  ℕ, zero, suc, ◌+◌, String, ◌==◌, nat_eq, string_eq, Bool, true, false, not, Option, none, some,
  List, [], ◌∷◌, ◌++◌, Result, ok, err, ◌>>=◌, if◌then◌else◌, nat_eqb, length,
}
use experimental_crdt.Clock.{NodeId}
use experimental_crdt.Proto.{
  Bytes, Envelope, Message, Payload, Handshake, handshake as handshake_payload, crdt_op,
  crdt_pull_request,
}
use experimental_crdt.Registry.{Sender, PeerRegistry, insert}
use experimental_crdt.Frame.{read_envelope, write_envelope}

-- the two arguments that say who the local end is, and its mark
pub record Local : Type 0 where
  pub node_id : NodeId
  pub node_name : String
  pub gc_replica : Bool

abbrev pub protocol_version : ℕ
protocol_version = 1

-- the envelope that an end sends first
unfoldable pub hello : Local → Envelope
hello local = record {
  payload = some (
      handshake_payload (record {
        node_id = local.node_id;
        node_name = local.node_name;
        version = protocol_version;
        gc_replica = local.gc_replica;
      }));
}

-- `match envelope.payload`: the remote id and mark
unfoldable pub accept_payload : Option Payload → Result (NodeId × Bool)
accept_payload (some (handshake_payload hs)) =
    if nat_eqb hs.version protocol_version
    then ok (hs.node_id, hs.gc_replica)
    else err "unsupported version"
accept_payload (some (crdt_op op)) = err "expected Handshake"
accept_payload (some (crdt_pull_request req)) = err "expected Handshake"
accept_payload none = err "expected Handshake"

abbrev pub with_rest : Result (NodeId × Bool) → Bytes → Result ((NodeId × Bool) × Bytes)
with_rest (ok remote) rest = ok (remote, rest)
with_rest (err e) rest = err e

abbrev pub accept_frame : Option Envelope × Bytes → Result ((NodeId × Bool) × Bytes)
accept_frame (none, rest) = err "EOF before handshake"
accept_frame (some envelope, rest) = with_rest (accept_payload envelope.payload) rest

-- the remote id and mark, and the bytes behind its handshake
unfoldable pub receive_handshake : Message Envelope → Bytes → Result ((NodeId × Bool) × Bytes)
receive_handshake prost input = read_envelope prost input >>= accept_frame

abbrev pub reply : Result ((NodeId × Bool) × Bytes) → Bytes → Bytes
reply (ok _) hs = hs
reply (err _) hs = []

-- what an end learns, and the bytes that it sends: the initiator sends first, the other end only
-- behind a handshake that it accepts
unfoldable pub handshake :
    Message Envelope → Local → (initiator : Bool) → Bytes → Result ((NodeId × Bool) × Bytes) × Bytes
handshake prost local initiator input =
    let hs = write_envelope prost (hello local) in
    let received = receive_handshake prost input in
    if initiator then (received, hs) else (received, reply received hs)

module _ {Q : Type 0} (app_tx : Sender Q Envelope) where
  -- `let _ = app_tx.send(envelope).await`
  abbrev pub forward : Q → Envelope → Q
  forward q envelope = elim (app_tx.try_send q envelope) [ ok q' ↦ q' | err e ↦ q ]

  unfoldable pub dispatch : Q → Envelope → Q
  dispatch q envelope = elim (envelope.payload) [ some _ ↦ forward q envelope | none ↦ q ]

  -- The loop, on fuel: what it ends with and the application's channel then, or `none` where the fuel
  -- runs out. Every way out of the loop is an error.
  unfoldable pub reader_loop : Message Envelope → ℕ → Bytes → Q → Option (String × Q)
  reader_loop prost zero input q = none
  reader_loop prost (suc fuel) input q = elim (read_envelope prost input) [
    | err e ↦ some (e, q)
    | ok (none, rest) ↦ some ("connection closed", q)
    | ok (some envelope, rest) ↦ reader_loop prost fuel rest (dispatch q envelope)
  ]

  abbrev pub or_reading : Option (String × Q) → Q → String × Q
  or_reading none q = ("still reading", q)
  or_reading (some end) q = end

  -- the loop with a unit of fuel for each byte, and one for the end
  unfoldable pub read_all : Message Envelope → Bytes → Q → String × Q
  read_all prost input q = or_reading (reader_loop prost (length input + 1) input q) q

-- the bytes of the envelopes that the writer takes from its channel
unfoldable pub writer_loop : Message Envelope → List Envelope → Bytes
writer_loop prost [] = []
writer_loop prost (envelope ∷ envelopes) =
    write_envelope prost envelope ++ writer_loop prost envelopes

-- what a connection changes: the peers, and the channel to the application
pub record Node (H Q : Type 0) : Type 0 where
  pub registry : PeerRegistry H
  pub app : Q

module _ {H Q : Type 0} (app_tx : Sender Q Envelope) (prost : Message Envelope)
    (local : Local) where
  -- behind a handshake: the peer is entered with a new channel, and the reader runs to its end
  unfoldable pub connected : H → NodeId × Bool → Bytes → Node H Q → Result NodeId × Node H Q
  connected handle remote input node =
      let read = read_all app_tx prost input node.app in
      (
        err read.0,
        record { registry = insert node.registry remote.0 remote.1 handle; app = read.1 },
      )

  -- The handle is the sending side of the channel that the connection makes.
  unfoldable pub run_connection :
      H → (initiator : Bool) → Bytes → Node H Q → Result NodeId × Node H Q
  run_connection handle initiator input node = elim ((handshake prost local initiator input).0) [
    | err e ↦ (err e, node)
    | ok (remote, rest) ↦ connected handle remote rest node
  ]

  -- an accepted connection; how it ends is only logged
  unfoldable pub handle_inbound : H → Bytes → Node H Q → Node H Q
  handle_inbound handle input node = (run_connection handle false input node).1

  -- an `accept` that failed is only logged
  unfoldable pub handle_accepted_connection : H → Result Bytes → Node H Q → Node H Q
  handle_accepted_connection handle (ok input) node = handle_inbound handle input node
  handle_accepted_connection handle (err e) node = node

  -- the loop of `bind_and_listen`, over what `accept` gives, each with its new channel
  unfoldable pub bind_and_listen : List (H × Result Bytes) → Node H Q → Node H Q
  bind_and_listen [] node = node
  bind_and_listen ((handle, accepted) ∷ more) node =
      bind_and_listen more (handle_accepted_connection handle accepted node)
