-- ===== src/Tcp/Handshakes.antt =====
-- tcp_connection.rs: what two ends learn of each other.
use experimental_crdt.Base.{
  ◌≤◌, Bool, true, false, Option, none, some, ◌++◌, ◌≡◌, ok, nat_eq, length, arith, Result-cases,
  Option-cases, inl, inr,
}
use experimental_crdt.Clock.{NodeId}
use experimental_crdt.Proto.{
  Bytes, Envelope, Message, Handshake, handshake as handshake_payload, crdt_op, crdt_pull_request,
}
use experimental_crdt.Frame.{max_frame_len, read_envelope, write_envelope}
use experimental_crdt.Frame.RoundTrip.{read_envelope-write_envelope}
use experimental_crdt.Tcp.{
  Local, protocol_version, hello, accept_payload, accept_frame, receive_handshake, handshake,
}

-- Prost gives the envelope back, and its encoding is within the reader's limit.
abbrev pub Fits : Message Envelope → Envelope → Type 0
Fits prost envelope =
    (prost.decode (prost.encode_to_vec envelope) ≡ ok envelope)
    × (length (prost.encode_to_vec envelope) ≤ max_frame_len)

-- An envelope that fits is read back from in front of the rest of a stream.
pub read_envelope-Fits :
    (prost : Message Envelope) (envelope : Envelope) (rest : Bytes)
    → Fits prost envelope
    → read_envelope prost (write_envelope prost envelope ++ rest) ≡ ok (some envelope, rest)
read_envelope-Fits prost envelope rest fits =
    ground (arith, read_envelope-write_envelope prost envelope rest fits.0 (omega (arith, fits.1)))

receive_handshake-hello :
    (prost : Message Envelope) (local : Local) (rest : Bytes)
    → Fits prost (hello local)
    → receive_handshake prost (write_envelope prost (hello local) ++ rest)
      ≡ ok ((local.node_id, local.gc_replica), rest)
unfolding receive_handshake hello accept_payload
receive_handshake-hello prost local rest fits =
    ground (arith, read_envelope-Fits prost (hello local) rest fits)

-- Where each of two ends receives what the other sends in the handshake and more bytes behind it, the
-- one that opened the connection learns the id and the mark of the other, the other learns those of
-- the first, and what follows is left to be read. Both handshakes fit a frame.
pub handshake-both :
    (prost : Message Envelope) (a b : Local) (input_a input_b more_a more_b : Bytes)
    → Fits prost (hello a)
    → Fits prost (hello b)
    → input_b ≡ (handshake prost a true input_a).1 ++ more_a
    → input_a ≡ (handshake prost b false input_b).1 ++ more_b
    → ((handshake prost a true input_a).0 ≡ ok ((b.node_id, b.gc_replica), more_b))
      × ((handshake prost b false input_b).0 ≡ ok ((a.node_id, a.gc_replica), more_a))
unfolding handshake
handshake-both prost a b input_a input_b more_a more_b fits_a fits_b from_a from_b = ground (
  arith,
  receive_handshake-hello prost a more_a fits_a,
  receive_handshake-hello prost b more_b fits_b,
)

accept_frame-ok :
    (frame : Option Envelope × Bytes) (id : NodeId) (gc : Bool) (rest : Bytes)
    → accept_frame frame ≡ ok ((id, gc), rest)
    → (hs : Handshake) × (frame ≡ (some (record { payload = some (handshake_payload hs) }), rest))
      × (hs.version ≡ protocol_version)
      × (hs.node_id ≡ id)
      × (hs.gc_replica ≡ gc)
unfolding accept_payload
accept_frame-ok (none, left) id gc rest h = absurd (ground arith)
accept_frame-ok (some envelope, left) id gc rest h = elim (Option-cases envelope.payload) [
  | inl nothing ↦ absurd (ground arith)
  | inr (crdt_op op, e) ↦ absurd (ground arith)
  | inr (crdt_pull_request req, e) ↦ absurd (ground arith)
  | inr (handshake_payload hs, e) ↦ (hs, ground arith, ground arith, ground arith, ground arith)
]

-- A peer is accepted only by a handshake of the version that is spoken: the first frame is a
-- handshake of that version with the id and the mark that the end takes over.
pub handshake-accepts :
    (prost : Message Envelope) (local : Local) (initiator : Bool) (input rest : Bytes) (id : NodeId)
    (gc : Bool)
    → (handshake prost local initiator input).0 ≡ ok ((id, gc), rest)
    → (hs : Handshake) × (read_envelope prost input
        ≡ ok (some (record { payload = some (handshake_payload hs) }), rest))
      × (hs.version ≡ protocol_version)
      × (hs.node_id ≡ id)
      × (hs.gc_replica ≡ gc)
unfolding handshake receive_handshake
handshake-accepts prost local initiator input rest id gc h =
    elim (Result-cases (read_envelope prost input)) [
      | inr failed ↦ absurd (ground arith)
      | inl read ↦
          let found = accept_frame-ok read.0 id gc rest (ground (arith, read.1)) in
          (found.0, ground (arith, read.1, found.1), found.2, found.3, found.4)
    ]
