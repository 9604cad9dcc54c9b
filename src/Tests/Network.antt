-- ===== src/Tests/Network.antt =====
-- The theorems on connections: two ends, a stream, and a task that dials.
use experimental_crdt.Base.{
  ℕ, zero, suc, nat_eq, string_eq, true, false, none, some, List, [], ◌∷◌, ◌++◌, ◌≡◌, refl, Result,
  ok, err, arith,
}
use experimental_crdt.Proto.{Bytes, Envelope, Message, Handshake, handshake as handshake_payload}
use experimental_crdt.Dissemination.{make_pull_request_envelope}
use experimental_crdt.Frame.{
  write_envelope, read_envelope, read_exact, read_payload, put_u32, from_be_bytes,
}
use experimental_crdt.Tcp.{
  Local, Node, hello, handshake, receive_handshake, accept_payload, dispatch, read_all, writer_loop,
}
use experimental_crdt.Tcp.Handshakes.{handshake-both, handshake-accepts}
use experimental_crdt.Tcp.Streams.{read_all-writer_loop}
use experimental_crdt.Tcp.Outbound.{spawn_outbound, Within, slept-spawn_outbound}
use experimental_crdt.Tests.Data.{mailbox}

abbrev local_a : Local
local_a = record { node_id = "a"; node_name = "first"; gc_replica = false }

abbrev local_b : Local
local_b = record { node_id = "b"; node_name = "second"; gc_replica = true }

abbrev pull : Envelope
pull = make_pull_request_envelope "cart" "a" true []

abbrev empty_envelope : Envelope
empty_envelope = record { payload = none }

abbrev encode : Envelope → Bytes
encode envelope = elim envelope.payload [
  | none ↦ []
  | some (handshake_payload hs) ↦ (elim hs.gc_replica [ true ↦ 2 ∷ [] | false ↦ 1 ∷ [] ])
  | some _ ↦ 3 ∷ []
]

abbrev decode : Bytes → Result Envelope
decode [] = ok empty_envelope
decode (suc zero ∷ []) = ok (hello local_a)
decode (suc (suc zero) ∷ []) = ok (hello local_b)
decode (suc (suc (suc zero)) ∷ []) = ok pull
decode _ = err "unknown message"

-- an encoding that knows the two handshakes, a pull request, and the envelope without a payload
abbrev prost : Message Envelope
prost = record { encode_to_vec = encode; decode = decode }

handshake-both_example :
    ((handshake prost local_a true (write_envelope prost (hello local_b) ++ (7 ∷ []))).0
      ≡ ok (("b", true), 7 ∷ []))
    × ((handshake prost local_b false (write_envelope prost (hello local_a) ++ [])).0
        ≡ ok (("a", false), []))
unfolding handshake hello receive_handshake accept_payload read_envelope read_payload read_exact
    from_be_bytes put_u32 write_envelope
handshake-both_example =
    handshake-both prost local_a local_b (write_envelope prost (hello local_b) ++ (7 ∷ []))
      (write_envelope prost (hello local_a) ++ []) [] (7 ∷ []) (refl, omega arith)
      (refl, omega arith) refl refl

handshake-accepts_example :
    (hs : Handshake) × (read_envelope prost (write_envelope prost (hello local_a))
      ≡ ok (some (record { payload = some (handshake_payload hs) }), []))
    × (hs.version ≡ 1)
    × (hs.node_id ≡ "a")
    × (hs.gc_replica ≡ false)
unfolding handshake hello receive_handshake accept_payload read_envelope read_payload read_exact
    from_be_bytes put_u32 write_envelope
handshake-accepts_example =
    handshake-accepts prost local_b false (write_envelope prost (hello local_a)) [] "a" false refl

-- a hello, an envelope that is passed over, and a pull request
abbrev sent : List Envelope
sent = hello local_a ∷ empty_envelope ∷ pull ∷ []

read_all-writer_loop_example :
    read_all mailbox prost (writer_loop prost sent) []
    ≡ ("connection closed", pull ∷ hello local_a ∷ [])
unfolding dispatch hello make_pull_request_envelope
read_all-writer_loop_example =
    read_all-writer_loop mailbox prost sent []
      ((refl, omega arith), ((refl, omega arith), ((refl, omega arith), tt)))

abbrev idle : Node ℕ (List Envelope)
idle = record { registry = []; app = [] }

abbrev rounds : List (ℕ × Result Bytes)
rounds =
    (1, err "refused")
    ∷ (2, err "refused")
    ∷ (3, ok (write_envelope prost (hello local_b)))
    ∷ (4, err "refused")
    ∷ []

slept-spawn_outbound_example :
    let slept = (spawn_outbound mailbox prost local_a (ok "b:9000") idle rounds).slept in
    (slept ≡ 1 ∷ 2 ∷ 1 ∷ 2 ∷ []) × Within slept
slept-spawn_outbound_example = slept-spawn_outbound mailbox prost local_a "b:9000" idle rounds
