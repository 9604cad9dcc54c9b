-- ===== src/Server/Request.antt =====
-- src/engine/crdt_engine.rs: the requests of the engine, without their reply channels.
use experimental_crdt.Base.{String, Option, nat_eq, string_eq}
use experimental_crdt.Clock.{NodeId, CausalContext}
use experimental_crdt.Proto.{Bytes}
use experimental_crdt.Dissemination.{MatrixClock}

pub data CrdtEngineRequest (Op : Type 0) : Type 0 where
  do_pull_round : CrdtEngineRequest Op
  client_operation : Op → CrdtEngineRequest Op
  print_state : CrdtEngineRequest Op
  print_internals : CrdtEngineRequest Op
  print_matrix : CrdtEngineRequest Op
  get_random_element : CrdtEngineRequest Op
  delta_request : NodeId → String → CausalContext → CrdtEngineRequest Op
  delta_response : NodeId → String → Bytes → Option MatrixClock → CrdtEngineRequest Op
  deregistration_state : CrdtEngineRequest Op
  initiate_gc : CrdtEngineRequest Op
  observe_epoch_change : CrdtEngineRequest Op
  log_crdt_metrics : CrdtEngineRequest Op
