-- ===== src/Engine.antt =====
-- src/engine/crdt_engine.rs: one replica. The engine owns the clock and the CRDT, and calls the
-- garbage collector and the dissemination strategy, which are passed as interfaces. Timing, logging
-- and printed replies are left out; `none` stands for a panic of the engine's task.
pub mod Clock
pub mod Sync
pub mod Safety
pub mod Clients
pub mod Sequential
pub mod Random
use experimental_crdt.Base.{
  ℕ, zero, suc, ◌+◌, ◌-◌, ◌*◌, ◌/◌, ◌%◌, ◌^◌, ◌≤◌, ◌<◌, max, min, String, ◌≡◌, refl, sym, ap, ◌∙◌,
  ◌≢◌, ◌↔◌, ◌⊎◌, inl, inr, Bool, true, false, not, ◌&&◌, ◌||◌, Option, none, some, List, [], ◌∷◌,
  ◌++◌, map, arith, ltb, leb, nat_eqb, nat_eqb_iff, if◌then◌else◌, Bool-cases, Option-cases,
  Bool-ext, Eq, ◌==◌, nat_eq, string_eq, beq_refl, length, any, all, retain, Result, ok, err, ok_or,
  is_ok, collect, Result-cases,
}
use experimental_crdt.Map.{HashMap, get as find, insert, is_some}
use experimental_crdt.Clock.{
  NodeId, Counter, CausalContext, Dot, DotVersionVector, count_at, new as new_vector, event,
  effective_map, merge, delta_since,
}
use experimental_crdt.Proto.{Bytes, Envelope}
use experimental_crdt.Crdt.{DeltaCrdt}
use experimental_crdt.Registry.{PeerRegistry, get as get_peer}
use experimental_crdt.Dissemination.{MatrixClock, Mesh, DisseminationStrategy}
use experimental_crdt.Gc.{
  GcStorage, GcConfig, GcCoordinator, new as new_coordinator, update_matrix_clock,
  get_knowledge_matrix,
}
use experimental_crdt.Gc.Exec.{
  World, Exec, Outcome, returns, fails, panics, polls, pure, call, ◌>>=◌, ◌>>◌,
}
use experimental_crdt.Gc.Initiate.{initiate_gc}
use experimental_crdt.Gc.Observe.{observe_epoch_change, new_replica_bootstrap}
use experimental_crdt.Server.Request.{CrdtEngineRequest}

-- The peer table, which the collector and the strategy share, is that of the mesh.
pub record CrdtEngine (S C H : Type 0) : Type 0 where
  pub node_id : NodeId
  pub crdt_id : String
  pub world : World S C
  pub open world use {gc, crdt, dvv, storage}
  pub mesh : Mesh H

abbrev pub is_collector : GcCoordinator → Bool
is_collector gc = gc.config.gc_replica

-- `registry.get(&node).map(|(gc_replica, _)| gc_replica).unwrap_or(false)`
unfoldable pub is_gc_peer : {H : Type 0} → PeerRegistry H → NodeId → Bool
is_gc_peer peers node = elim (get_peer peers node) [ none ↦ false | some (gc, _) ↦ gc ]

-- `remote.iter().all(|(node, ctr)| ours.get(node).copied().unwrap_or(0) >= ctr)`
unfoldable pub fully_ahead : CausalContext → CausalContext → Bool
fully_ahead ours remote = all (λ e. leb e.1 (count_at ours e.0)) remote

-- is there nothing in the delta
abbrev pub is_news : DotVersionVector → Bool
is_news delta = not (nat_eqb delta.dot.counter 0) || (elim delta.context [ [] ↦ false | _ ↦ true ])

module _ {S C H Op Delta : Type 0} (crdt : DeltaCrdt C Op Delta) (store : GcStorage S)
    (strategy : DisseminationStrategy H) where
  unfoldable pub new : NodeId → String → C → Mesh H → GcConfig → S → CrdtEngine S C H
  new node_id crdt_id c mesh config storage = record {
    node_id = node_id;
    crdt_id = crdt_id;
    world = record {
      gc = new_coordinator config;
      crdt = c;
      dvv = new_vector node_id;
      storage = storage;
    };
    mesh = mesh;
  }

  -- the reads that `GcCoordinator::log_metrics` makes; its result is ignored
  unfoldable pub log_metrics : World S C → World S C
  log_metrics w =
      if is_collector w.gc
      then (elim w.gc.matrix_clock [
        | none ↦ w
        | some _ ↦ ((do _ ← call store.live_members; _ ← call store.read_final_dots; pure tt) w).1
      ])
      else w

  -- `Dot::new(self.dvv.dot.node_id.clone(), self.dvv.dot.counter)` after the event
  unfoldable pub client_operation : CrdtEngine S C H → Op → CrdtEngine S C H
  client_operation e op =
      let dvv = event e.dvv in
      record e {
        world = record e.world { dvv = dvv; crdt = crdt.apply_local e.crdt dvv.dot op };
        mesh =
            strategy.push_version_vector e.mesh e.node_id e.crdt_id (is_collector e.gc)
              (effective_map dvv);
      }

  -- the matrix of a delta, if it carries one
  unfoldable pub absorb_matrix : World S C → Option MatrixClock → Option (World S C)
  absorb_matrix w none = some w
  absorb_matrix w (some matrix) = elim (update_matrix_clock w.gc matrix) [
    | none ↦ none
    | some gc ↦ some (log_metrics (record w { gc = gc }))
  ]

  -- the vector that a delta carries
  unfoldable pub remote_vector : Delta → DotVersionVector
  remote_vector delta =
      let (context, node, counter) = crdt.causal_context delta in
      record { dot = record { node_id = node; counter = counter }; context = context }

  -- behind the decoding: merge the state, then the clock, then tell the strategy
  unfoldable pub merge_remote : CrdtEngine S C H → World S C → Delta → CrdtEngine S C H
  merge_remote e w delta =
      let dvv = merge w.dvv (remote_vector delta) in
      record e {
        world = record w { crdt = crdt.merge_delta w.crdt delta; dvv = dvv };
        mesh =
            strategy.on_post_merge e.mesh e.node_id e.crdt_id (is_collector w.gc)
              (effective_map dvv);
      }

  unfoldable pub server_delta :
      CrdtEngine S C H → String → Bytes → Option MatrixClock → Option (CrdtEngine S C H)
  server_delta e crdt_id payload matrix =
      if crdt_id == e.crdt_id
      then (elim (crdt.decode_delta payload) [
        | err _ ↦ some e
        | ok delta ↦ elim (absorb_matrix e.world matrix) [
          | none ↦ none
          | some w ↦ some (merge_remote e w delta)
        ]
      ])
      else some e

  -- the encoded delta for a peer, if there is news for it or both are collectors
  unfoldable pub delta_payload :
      CrdtEngine S C H → World S C → NodeId → CausalContext → Option Bytes
  delta_payload e w from remote =
      if (is_collector w.gc && is_gc_peer e.mesh.peers from) || is_news (delta_since w.dvv remote)
      then some (crdt.encode_delta (crdt.delta_since w.crdt remote w.dvv))
      else none

  -- the knowledge to ask with, if the peer is ahead anywhere
  unfoldable pub knowledge_request : World S C → CausalContext → Option CausalContext
  knowledge_request w remote =
      if fully_ahead (effective_map w.dvv) remote then none else some (effective_map w.dvv)

  -- the matrix for a peer that is a collector
  unfoldable pub matrix_for : CrdtEngine S C H → World S C → NodeId → Option MatrixClock
  matrix_for e w from =
      if is_gc_peer e.mesh.peers from then get_knowledge_matrix w.gc e.mesh.peers else none

  unfoldable pub answer : CrdtEngine S C H → World S C → NodeId → CausalContext → CrdtEngine S C H
  answer e w from remote = record e {
    world = w;
    mesh =
        strategy.respond_to_pull_request e.mesh from e.crdt_id e.node_id
          (delta_payload e w from remote) (is_collector w.gc) (matrix_for e w from)
          (knowledge_request w remote);
  }

  unfoldable pub server_pull_request :
      CrdtEngine S C H → NodeId → String → CausalContext → Option (CrdtEngine S C H)
  server_pull_request e from crdt_id remote =
      if crdt_id == e.crdt_id
      then (elim (update_matrix_clock e.gc (insert [] from remote)) [
        | none ↦ none
        | some gc ↦ some (answer e (log_metrics (record e.world { gc = gc })) from remote)
      ])
      else some e

  -- a method of the collector, whose result is only logged
  unfoldable pub run_gc : {A : Type 0} → CrdtEngine S C H → Exec S C A → Option (CrdtEngine S C H)
  run_gc e m = elim (m e.world).0 [ panics ↦ none | _ ↦ some (record e { world = (m e.world).1 }) ]

  unfoldable pub get_final_state_for_deregistration : CrdtEngine S C H → Counter × Bytes
  get_final_state_for_deregistration e =
      let final_state = crdt.full_state e.crdt e.dvv in
      ((crdt.causal_context final_state).2, crdt.encode_delta final_state)

  -- one round of the loop of `run`; the requests that only print or reply leave the engine as it is
  unfoldable pub handle : CrdtEngine S C H → CrdtEngineRequest Op → Option (CrdtEngine S C H)
  handle e CrdtEngineRequest.do_pull_round = some (record e {
    mesh =
        strategy.do_pull_round e.mesh e.node_id e.crdt_id (is_collector e.gc) (effective_map e.dvv);
  })
  handle e (CrdtEngineRequest.client_operation op) = some (client_operation e op)
  handle e CrdtEngineRequest.print_state = some e
  handle e CrdtEngineRequest.print_internals = some e
  handle e CrdtEngineRequest.print_matrix =
      if is_collector e.gc && not (is_some e.gc.matrix_clock) then none else some e
  handle e CrdtEngineRequest.get_random_element = some e
  handle e (CrdtEngineRequest.delta_request from crdt_id remote) =
      server_pull_request e from crdt_id remote
  handle e (CrdtEngineRequest.delta_response _ crdt_id payload matrix) =
      server_delta e crdt_id payload matrix
  handle e CrdtEngineRequest.deregistration_state = some e
  handle e CrdtEngineRequest.initiate_gc = run_gc e (initiate_gc crdt store e.node_id)
  handle e CrdtEngineRequest.observe_epoch_change =
      run_gc e (observe_epoch_change crdt store e.node_id)
  handle e CrdtEngineRequest.log_crdt_metrics = some e

  -- the loop of `run`, over the requests that arrive
  unfoldable pub serve : CrdtEngine S C H → List (CrdtEngineRequest Op) → Option (CrdtEngine S C H)
  serve e [] = some e
  serve e (request ∷ requests) = elim (handle e request) [
    | none ↦ none
    | some e' ↦ serve e' requests
  ]

  -- `run`: the bootstrap, whose failure is ignored, and then the loop
  unfoldable pub run :
      ℕ → CrdtEngine S C H → List (CrdtEngineRequest Op) → Option (CrdtEngine S C H)
  run fuel e requests = elim (run_gc e (new_replica_bootstrap crdt store fuel e.node_id)) [
    | none ↦ none
    | some e' ↦ serve e' requests
  ]
