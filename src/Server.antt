-- ===== src/Server.antt =====
-- src/server: the requests that reach the engine. The engine's channel is a parameter; the reply
-- channels that some requests carry are left out.
pub mod Request
pub mod Messages
pub mod Clients
pub mod Shutdown
pub mod Departure
use Request.{CrdtEngineRequest, delta_request, delta_response}
use experimental_crdt.Base.{
  ℕ, zero, suc, ◌+◌, ◌-◌, ◌*◌, ◌/◌, ◌%◌, ◌^◌, ◌≤◌, ◌<◌, max, min, String, ◌≡◌, refl, sym, ap, ◌∙◌,
  ◌≢◌, ◌↔◌, ◌⊎◌, inl, inr, Bool, true, false, not, ◌&&◌, ◌||◌, Option, none, some, List, [], ◌∷◌,
  ◌++◌, map, arith, ltb, leb, nat_eqb, nat_eqb_iff, if◌then◌else◌, Bool-cases, Option-cases,
  Bool-ext, Eq, ◌==◌, nat_eq, string_eq, beq_refl, length, any, all, retain, Result, ok, err, ok_or,
  is_ok, collect, Result-cases,
}
use experimental_crdt.Clock.{NodeId, CausalContext}
use experimental_crdt.Proto.{
  Bytes, VectorClock, KnowledgeMatrix, Envelope, Payload, CrdtOp, CrdtPullRequest, handshake,
  crdt_op, crdt_pull_request,
}
use experimental_crdt.Registry.{Sender}
use experimental_crdt.Dissemination.{MatrixClock, map_option}

-- the rows of a matrix, unwrapped
abbrev pub matrix_of : KnowledgeMatrix → MatrixClock
matrix_of km = map (λ r. (r.0, r.1.entries)) km.entries

-- `req.knowledge.map(|vc| vc.entries).unwrap_or_default()`
abbrev pub entries_of : Option VectorClock → CausalContext
entries_of none = []
entries_of (some vc) = vc.entries

module _ {Op Q : Type 0} (tx : Sender Q (CrdtEngineRequest Op)) where
  -- a send whose failure is only logged
  unfoldable pub send_last : Q → CrdtEngineRequest Op → Q
  send_last q request = elim (tx.try_send q request) [ ok q' ↦ q' | err e ↦ q ]

  -- the piggybacked request of an operation: sent if it is there and not empty
  unfoldable pub forward_piggyback : Q → NodeId → String → Option VectorClock → Q
  forward_piggyback q origin cid none = q
  forward_piggyback q origin cid (some vc) = elim vc.entries [
    | [] ↦ q
    | e ∷ es ↦ send_last q (delta_request origin cid vc.entries)
  ]

  unfoldable pub handle_crdt_op : Q → CrdtOp → Q
  handle_crdt_op q op =
      elim (tx.try_send q (
        delta_response op.origin_node_id op.crdt_id op.payload
          (map_option matrix_of op.knowledge_matrix))) [
            | err e ↦ q
            | ok q' ↦ forward_piggyback q' op.origin_node_id op.crdt_id op.requester_knowledge
          ]

  -- `match envelope.payload`
  unfoldable pub handle_payload : Q → Option Payload → Q
  handle_payload q (some (crdt_op op)) = handle_crdt_op q op
  handle_payload q (some (crdt_pull_request req)) =
      send_last q (delta_request req.origin_node_id req.crdt_id (entries_of req.knowledge))
  handle_payload q (some (handshake hs)) = q
  handle_payload q none = q

  unfoldable pub handle_received_envelope : Q → Envelope → Q
  handle_received_envelope q envelope = handle_payload q envelope.payload
