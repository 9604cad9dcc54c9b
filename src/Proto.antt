-- ===== src/Proto.antt =====
-- src/proto/mod.rs: the messages of the wire protocol, as data. The byte encoding is prost's.
use experimental_crdt.Base.{ℕ, String, Bool, Option, List, nat_eq, string_eq, Result}
use experimental_crdt.Map.{HashMap}
use experimental_crdt.Clock.{NodeId, Counter, CausalContext}

abbrev pub Bytes : Type 0
Bytes = List ℕ

-- prost's `Message`: `encode_to_vec` and `decode` of one message type
pub record Message {ℓ} (M : Type ℓ) : Type ℓ where
  pub encode_to_vec : M → Bytes
  pub decode : Bytes → Result M

pub record VectorClock : Type 0 where
  pub entries : CausalContext

-- `crdt_op::KnowledgeMatrix`
pub record KnowledgeMatrix : Type 0 where
  pub entries : HashMap NodeId VectorClock

pub record Handshake : Type 0 where
  pub node_id : NodeId
  pub node_name : String
  pub version : ℕ
  pub gc_replica : Bool

pub record CrdtOp : Type 0 where
  pub crdt_id : String
  pub payload : Bytes
  pub origin_node_id : NodeId
  pub requester_knowledge : Option VectorClock
  pub knowledge_matrix : Option KnowledgeMatrix

pub record CrdtPullRequest : Type 0 where
  pub crdt_id : String
  pub origin_node_id : NodeId
  pub knowledge : Option VectorClock
  pub gc_replica : Bool

-- `envelope::Payload`
pub data Payload : Type 0 where
  handshake : Handshake → Payload
  crdt_op : CrdtOp → Payload
  crdt_pull_request : CrdtPullRequest → Payload

pub record Envelope : Type 0 where
  pub payload : Option Payload

pub record ProtoDot : Type 0 where
  pub node_id : NodeId
  pub counter : Counter

pub record ProtoElemDot : Type 0 where
  pub element : Bytes
  pub dot : Option ProtoDot

pub record ProtoDotPair : Type 0 where
  pub add_dot : Option ProtoDot
  pub remove_dot : Option ProtoDot

pub record ProtoOrSetDelta : Type 0 where
  pub adds : List ProtoElemDot
  pub tombstones : List ProtoDotPair
  pub context : CausalContext
  pub dot_node : NodeId
  pub dot_counter : Counter

-- `proto_or_set_op::Op`
pub data Op : Type 0 where
  add_element : Bytes → Op
  remove_element : Bytes → Op

pub record ProtoOrSetOp : Type 0 where
  pub op : Option Op

-- `proto_client_command::Command`
pub data Command : Type 0 where
  add : String → Command
  remove : String → Command
  print_state : Bool → Command
  print_internals : Bool → Command
  print_matrix : Bool → Command
  remove_random : Bool → Command

pub record ProtoClientCommand : Type 0 where
  pub command : Option Command
