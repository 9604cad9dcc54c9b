-- ===== src/Server/Messages.antt =====
-- src/server/peer_message_handler.rs with src/network/dissemination.rs: what a replica's envelope
-- makes of the requests of the replica that receives it.
use experimental_crdt.Base.{
  String, ◌≡◌, refl, sym, ap, ◌∙◌, Bool, true, Option, none, some, List, [], ◌∷◌, ◌++◌, map, arith,
  nat_eq, string_eq, is_ok,
}
use experimental_crdt.Clock.{NodeId, CausalContext}
use experimental_crdt.Proto.{Bytes, Envelope, KnowledgeMatrix}
use experimental_crdt.Registry.{Sender}
use experimental_crdt.Dissemination.{
  MatrixClock, map_option, make_crdt_op_envelope, make_pull_request_envelope,
}
use experimental_crdt.Server.{
  matrix_of, send_last, forward_piggyback, handle_crdt_op, handle_payload, handle_received_envelope,
}
use experimental_crdt.Server.Request.{CrdtEngineRequest, delta_request, delta_response}

abbrev wrap : MatrixClock → KnowledgeMatrix
wrap m = record { entries = map (λ r. (r.0, record { entries = r.1 })) m }

matrix_of-wrap : (m : MatrixClock) → matrix_of (wrap m) ≡ m
matrix_of-wrap [] = refl
matrix_of-wrap (r ∷ m) = rw (matrix_of-wrap m)

map_option-wrap : (m : Option MatrixClock) → map_option matrix_of (map_option wrap m) ≡ m
map_option-wrap none = refl
map_option-wrap (some m) = ap some (matrix_of-wrap m)

-- what a peer sends: a delta, which may carry its knowledge, or a pull request
pub data Sent : Type 0 where
  delta :
      (crdt_id : String) (origin : NodeId) (payload : Bytes)
      → Option MatrixClock
      → Option CausalContext
      → Sent
  pull : (crdt_id : String) (origin : NodeId) (gc_replica : Bool) → CausalContext → Sent

abbrev pub envelope_of : Sent → Envelope
envelope_of (delta cid origin payload m k) = make_crdt_op_envelope cid origin payload m k
envelope_of (pull cid origin gc k) = make_pull_request_envelope cid origin gc k

-- the requests that a message stands for
abbrev pub requests_of : {Op : Type 0} → Sent → List (CrdtEngineRequest Op)
requests_of (delta cid origin payload m none) = delta_response origin cid payload m ∷ []
requests_of (delta cid origin payload m (some [])) = delta_response origin cid payload m ∷ []
requests_of (delta cid origin payload m (some (e ∷ es))) =
    delta_response origin cid payload m ∷ delta_request origin cid (e ∷ es) ∷ []
requests_of (pull cid origin gc k) = delta_request origin cid k ∷ []

abbrev pub requests_of_all : {Op : Type 0} → List Sent → List (CrdtEngineRequest Op)
requests_of_all [] = []
requests_of_all (x ∷ xs) = requests_of x ++ requests_of_all xs

module _ {Op Q : Type 0} (tx : Sender Q (CrdtEngineRequest Op)) where
  -- A delta that is sent to a peer reaches its engine with the same CRDT, origin, payload and
  -- matrix, as one request.
  pub receive-crdt_op :
      (q : Q) (cid : String) (origin : NodeId) (payload : Bytes) (m : Option MatrixClock)
      → handle_received_envelope tx q (make_crdt_op_envelope cid origin payload m none)
        ≡ send_last tx q (delta_response origin cid payload m)
  unfolding handle_received_envelope handle_payload handle_crdt_op forward_piggyback send_last
      make_crdt_op_envelope
  receive-crdt_op q cid origin payload m = ground (arith, map_option-wrap m)

  -- A pull request reaches the peer's engine with the same CRDT, origin and knowledge.
  pub receive-pull_request :
      (q : Q) (cid : String) (origin : NodeId) (gc : Bool) (k : CausalContext)
      → handle_received_envelope tx q (make_pull_request_envelope cid origin gc k)
        ≡ send_last tx q (delta_request origin cid k)
  unfolding handle_received_envelope handle_payload make_pull_request_envelope
  receive-pull_request q cid origin gc k = refl

  -- requests into the engine's channel, one after the other
  abbrev pub send_all : Q → List (CrdtEngineRequest Op) → Q
  send_all q [] = q
  send_all q (r ∷ rs) = send_all (send_last tx q r) rs

  abbrev pub receive_all : Q → List Envelope → Q
  receive_all q [] = q
  receive_all q (e ∷ es) = receive_all (handle_received_envelope tx q e) es

  receive-envelope_of :
      (q : Q) (x : Sent)
      → ((q : Q) (r : CrdtEngineRequest Op) → is_ok (tx.try_send q r) ≡ true)
      → handle_received_envelope tx q (envelope_of x) ≡ send_all q (requests_of x)
  unfolding handle_received_envelope handle_payload handle_crdt_op forward_piggyback send_last
      make_crdt_op_envelope
  receive-envelope_of q (delta cid origin payload m none) takes =
      receive-crdt_op q cid origin payload m
  receive-envelope_of q (delta cid origin payload m (some [])) takes =
      ground (arith, map_option-wrap m)
  receive-envelope_of q (delta cid origin payload m (some (e ∷ es))) takes =
      ground (arith, map_option-wrap m, takes q (delta_response origin cid payload m))
  receive-envelope_of q (pull cid origin gc k) takes = receive-pull_request q cid origin gc k

  send_all-append :
      (q : Q) (rs rs' : List (CrdtEngineRequest Op))
      → send_all q (rs ++ rs') ≡ send_all (send_all q rs) rs'
  send_all-append q [] rs' = refl
  send_all-append q (r ∷ rs) rs' = send_all-append (send_last tx q r) rs rs'

  -- Whatever envelopes a peer makes of deltas and pull requests, receiving them one after the other
  -- leaves the engine's channel as if their requests had been sent to it in that order: for a delta
  -- itself with its origin, payload and matrix and then, if it carries knowledge that is not empty,
  -- a pull request with it, and for a pull request itself, also if its knowledge is empty. The
  -- channel takes every request.
  pub receive_all-requests :
      (q : Q) (xs : List Sent)
      → ((q : Q) (r : CrdtEngineRequest Op) → is_ok (tx.try_send q r) ≡ true)
      → receive_all q (map envelope_of xs) ≡ send_all q (requests_of_all xs)
  receive_all-requests q [] takes = refl
  receive_all-requests q (x ∷ xs) takes =
      ap (λ q. receive_all q (map envelope_of xs)) (receive-envelope_of q x takes)
      ∙ receive_all-requests (send_all q (requests_of x)) xs takes
      ∙ sym (send_all-append q (requests_of x) (requests_of_all xs))
