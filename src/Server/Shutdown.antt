-- ===== src/Server/Shutdown.antt =====
-- src/server/mod.rs: `handle_shutdown`, which asks the engine for its final state, leaves the
-- registrations, and stops the tasks. An engine that has gone is `none`.
use experimental_crdt.Base.{String, string_eq, Option, none, some, List, [], ◌++◌, Result, ok, err}
use experimental_crdt.Map.{values}
use experimental_crdt.Clock.{Counter}
use experimental_crdt.Proto.{Bytes}
use experimental_crdt.Crdt.{DeltaCrdt}
use experimental_crdt.Dissemination.{DisseminationStrategy}
use experimental_crdt.Gc.{GcStorage}
use experimental_crdt.Storage.{AwsClient}
use experimental_crdt.Discovery.{Discovery}
use experimental_crdt.Discovery.Service.{deregister}
use experimental_crdt.Discovery.Connector.{Links}
use experimental_crdt.Engine.{CrdtEngine, get_final_state_for_deregistration}

-- the tasks of the server, and the object store
pub record Running (S H T : Type 0) : Type 0 where
  pub links : Links H T
  pub storage : S

-- `tasks.drain()`: every outbound task is aborted, behind the tasks of the server itself
unfoldable pub stop_tasks : {H T : Type 0} → List T → Links H T → Links H T
stop_tasks handles links = record links {
  outbound_tasks = [];
  aborted = values links.outbound_tasks ++ (handles ++ links.aborted);
}

module _ {S C H T Op Delta : Type 0} (aws : AwsClient S) (crdt : DeltaCrdt C Op Delta)
    (store : GcStorage S) (strategy : DisseminationStrategy H) where
  -- behind the reply of the engine; a failure to deregister is only logged
  unfoldable pub leave :
      Discovery → String → List T → Counter × Bytes → Running S H T → Running S H T
  leave discovery gc_prefix handles final r = record {
    links = stop_tasks handles r.links;
    storage = (deregister aws discovery gc_prefix final.0 final.1 r.storage).1;
  }

  unfoldable pub handle_shutdown :
      Discovery
      → Option (CrdtEngine S C H)
      → List T
      → String
      → Running S H T
      → Result (Unit {0}) × Running S H T
  handle_shutdown discovery none handles gc_prefix r = (err "channel closed", r)
  handle_shutdown discovery (some engine) handles gc_prefix r = (
    ok tt,
    leave discovery gc_prefix handles
        (get_final_state_for_deregistration crdt store strategy engine) r,
  )
