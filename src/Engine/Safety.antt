-- ===== src/Engine/Safety.antt =====
-- crdt_engine.rs: panics of the engine, and its invariant through every request.
use experimental_crdt.Base.{
  ℕ, ◌+◌, ◌^◌, ◌<◌, String, ◌≡◌, refl, inl, inr, Bool, true, false, Option, none, some, [], arith,
  if◌then◌else◌, Bool-cases, ◌==◌, nat_eq, string_eq, Result-cases,
}
use experimental_crdt.Map.{insert}
use experimental_crdt.Clock.{NodeId, CausalContext}
use experimental_crdt.Clock.Effective.{event-IsValid, new-IsValid}
use experimental_crdt.Clock.Merge.{merge-IsValid}
use experimental_crdt.Proto.{Bytes}
use experimental_crdt.Crdt.{DeltaCrdt}
use experimental_crdt.Dissemination.{MatrixClock, Mesh, DisseminationStrategy}
use experimental_crdt.Gc.{
  GcStorage, GcConfig, GcCoordinator, new as new_coordinator, update_matrix_clock, merge_rows,
}
use experimental_crdt.Gc.Matrix.{IsReady, write_matrix-IsReady}
use experimental_crdt.Gc.Exec.{
  World, Exec, Outcome, returns, fails, panics, polls, pure, call, ◌>>=◌,
}
use experimental_crdt.Gc.Exec.Keeps.{IsSound, Keeps, NoPanic, bind-Keeps, call-Keeps, pure-Keeps}
use experimental_crdt.Gc.Invariant.{
  initiate_gc-Keeps, observe_epoch_change-Keeps, new_replica_bootstrap-Keeps,
}
use experimental_crdt.Gc.Initiate.{initiate_gc}
use experimental_crdt.Gc.Observe.{observe_epoch_change, new_replica_bootstrap}
use experimental_crdt.Server.Request.{CrdtEngineRequest}
use experimental_crdt.Engine.{
  CrdtEngine, new, log_metrics, client_operation, absorb_matrix, merge_remote, server_delta, answer,
  server_pull_request, run_gc, handle, serve, run,
}

new_coordinator-IsReady : (config : GcConfig) → IsReady (new_coordinator config)
unfolding new_coordinator
new_coordinator-IsReady config = ground arith

update_matrix_clock-IsReady :
    (gc : GcCoordinator) (rows : MatrixClock)
    → IsReady gc
    → (gc' : GcCoordinator) × (update_matrix_clock gc rows ≡ some gc') × IsReady gc'
unfolding update_matrix_clock
update_matrix_clock-IsReady gc rows h = write_matrix-IsReady gc (λ mc. merge_rows mc rows) h

module _ {S C H Op Delta : Type 0} (crdt : DeltaCrdt C Op Delta) (store : GcStorage S)
    (strategy : DisseminationStrategy H) where
  -- the engine goes on, in a sound world
  abbrev pub GoesOn : Option (CrdtEngine S C H) → Type 0
  GoesOn o = (e' : CrdtEngine S C H) × (o ≡ some e') × IsSound e'.world

  reads-Keeps :
      Keeps {S = S} {C = C}
        (do _ ← call store.live_members; _ ← call store.read_final_dots; pure tt)
  reads-Keeps =
      bind-Keeps (call-Keeps store.live_members)
        λ _. bind-Keeps (call-Keeps store.read_final_dots) λ _. pure-Keeps tt

  metrics-IsSound :
      (w : World S C) (collector : Bool) (matrix : Option MatrixClock)
      → IsSound w
      → IsSound (
          if collector
          then (elim matrix [
            | none ↦ w
            | some _ ↦
                ((do _ ← call store.live_members; _ ← call store.read_final_dots; pure tt) w).1
          ])
          else w)
  metrics-IsSound w false matrix s = s
  metrics-IsSound w true none s = s
  metrics-IsSound w true (some _) s = (reads-Keeps.at w s).1

  log_metrics-IsSound : (w : World S C) → IsSound w → IsSound (log_metrics crdt store strategy w)
  unfolding log_metrics
  log_metrics-IsSound w s = metrics-IsSound w w.gc.config.gc_replica w.gc.matrix_clock s

  absorb_matrix-IsSound :
      (w : World S C) (matrix : Option MatrixClock)
      → IsSound w
      → (w' : World S C) × (absorb_matrix crdt store strategy w matrix ≡ some w') × IsSound w'
  unfolding absorb_matrix
  absorb_matrix-IsSound w none s = (w, refl, s)
  absorb_matrix-IsSound w (some matrix) s =
      let (gc, updated, ready) = update_matrix_clock-IsReady w.gc matrix s.0 in
      let w1 = record w { gc = gc } in
      (log_metrics crdt store strategy w1, ground arith, log_metrics-IsSound w1 (ready, s.1))

  server_delta-IsSound :
      (e : CrdtEngine S C H) (id : String) (payload : Bytes) (matrix : Option MatrixClock)
      → IsSound e.world
      → GoesOn (server_delta crdt store strategy e id payload matrix)
  unfolding server_delta merge_remote
  server_delta-IsSound e id payload matrix s = elim (Bool-cases (id == e.crdt_id)) [
    | inr other ↦ (e, ground arith, s)
    | inl ours ↦ elim (Result-cases (crdt.decode_delta payload)) [
      | inr (m, bad) ↦ (e, ground arith, s)
      | inl (delta, decoded) ↦
          let (w, absorbed, (ready, valid)) = absorb_matrix-IsSound e.world matrix s in
          (
            merge_remote crdt store strategy e w delta,
            ground arith,
            (ready, merge-IsValid w.dvv _ valid),
          )
    ]
  ]

  server_pull_request-IsSound :
      (e : CrdtEngine S C H) (from : NodeId) (id : String) (remote : CausalContext)
      → IsSound e.world
      → GoesOn (server_pull_request crdt store strategy e from id remote)
  unfolding server_pull_request answer
  server_pull_request-IsSound e from id remote s = elim (Bool-cases (id == e.crdt_id)) [
    | inr other ↦ (e, ground arith, s)
    | inl ours ↦
        let (gc, updated, ready) = update_matrix_clock-IsReady e.gc (insert [] from remote) s.0 in
        let w = record e.world { gc = gc } in
        (
          answer crdt store strategy e (log_metrics crdt store strategy w) from remote,
          ground arith,
          log_metrics-IsSound w (ready, s.1),
        )
  ]

  run_gc-IsSound :
      {A : Type 0} (e : CrdtEngine S C H) (m : Exec S C A)
      → Keeps m
      → IsSound e.world
      → GoesOn (run_gc crdt store strategy e m)
  unfolding run_gc
  run_gc-IsSound {A} e m k s = let (fine, sound) = k.at e.world s in after (m e.world) fine sound
    where
      after :
          (r : Outcome A × World S C)
          → NoPanic r.0
          → IsSound r.1
          → GoesOn (elim r.0 [ panics ↦ none | _ ↦ some (record e { world = r.1 }) ])
      after (returns a, w) fine sound = (_, refl, sound)
      after (fails m, w) fine sound = (_, refl, sound)
      after (panics, w) fine sound = elim fine [ ]
      after (polls, w) fine sound = (_, refl, sound)

  -- Whatever the request, an engine whose coordinator has its matrix and whose clock is valid
  -- takes it without a panic and stays so, if its own counter has room for one more event.
  pub handle-IsSound :
      (e : CrdtEngine S C H) (request : CrdtEngineRequest Op)
      → e.dvv.dot.counter + 1 < 2 ^ 64
      → IsSound e.world
      → GoesOn (handle crdt store strategy e request)
  unfolding handle client_operation
  handle-IsSound e CrdtEngineRequest.do_pull_round room s = (_, refl, s)
  handle-IsSound e (CrdtEngineRequest.client_operation op) room s =
      (_, refl, (s.0, event-IsValid e.dvv room s.1))
  handle-IsSound e CrdtEngineRequest.print_state room s = (e, refl, s)
  handle-IsSound e CrdtEngineRequest.print_internals room s = (e, refl, s)
  handle-IsSound e CrdtEngineRequest.print_matrix room s = (e, rw s.0 refl, s)
  handle-IsSound e CrdtEngineRequest.get_random_element room s = (e, refl, s)
  handle-IsSound e (CrdtEngineRequest.delta_request from id remote) room s =
      server_pull_request-IsSound e from id remote s
  handle-IsSound e (CrdtEngineRequest.delta_response _ id payload matrix) room s =
      server_delta-IsSound e id payload matrix s
  handle-IsSound e CrdtEngineRequest.deregistration_state room s = (e, refl, s)
  handle-IsSound e CrdtEngineRequest.initiate_gc room s =
      run_gc-IsSound e (initiate_gc crdt store e.node_id) (initiate_gc-Keeps crdt store e.node_id) s
  handle-IsSound e CrdtEngineRequest.observe_epoch_change room s =
      run_gc-IsSound e (observe_epoch_change crdt store e.node_id)
        (observe_epoch_change-Keeps crdt store e.node_id) s
  handle-IsSound e CrdtEngineRequest.log_crdt_metrics room s = (e, refl, s)

  -- A new engine that is started without requests runs its bootstrap, which may fail or may still
  -- be polling, does not panic and is sound.
  pub run-new-IsSound :
      (fuel : ℕ) (node : NodeId) (id : String) (c : C) (mesh : Mesh H) (config : GcConfig)
      (disk : S)
      → GoesOn
          (run crdt store strategy fuel (new crdt store strategy node id c mesh config disk) [])
  unfolding run serve new
  run-new-IsSound fuel node id c mesh config disk =
      let e = new crdt store strategy node id c mesh config disk in
      let (e', started, sound) =
        run_gc-IsSound e (new_replica_bootstrap crdt store fuel node)
          (new_replica_bootstrap-Keeps crdt store fuel node)
          (new_coordinator-IsReady config, new-IsValid node) in
      (e', ground arith, sound)
