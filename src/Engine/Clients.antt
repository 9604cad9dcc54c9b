-- ===== src/Engine/Clients.antt =====
-- crdt_engine.rs and src/server/client_requests_handler.rs: an engine with a set of texts behind a
-- client's connection. A request that the channel takes is handled at once; the texts that the engine
-- prints are a parameter.
use experimental_crdt.Base.{
  ℕ, ◌+◌, ◌^◌, ◌<◌, String, Bool, not, ◌&&◌, ◌||◌, Option, none, some, List, [], ◌∷◌, ◌==◌, nat_eq,
  string_eq, Result, ok, err,
}
use experimental_crdt.Clock.{dot_eq}
use experimental_crdt.Clock.Effective.{IsValid}
use experimental_crdt.Proto.{Message, ProtoOrSetDelta, Command, add, remove}
use experimental_crdt.Crdt.{or_set}
use experimental_crdt.OrSet.{OrSet, OrSetOp, elements}
use experimental_crdt.OrSet.Codec.{ElementCodec}
use experimental_crdt.OrSet.Local.{IsUnique}
use experimental_crdt.Dissemination.{DisseminationStrategy}
use experimental_crdt.Gc.{GcStorage}
use experimental_crdt.Server.Request.{CrdtEngineRequest}
use experimental_crdt.Server.Clients.{EngineLink, handle_command}
use experimental_crdt.Engine.{CrdtEngine, client_operation, handle}
use experimental_crdt.Engine.Clock.{Covers}

-- `get_random_element` of a set of texts
abbrev pub first_element : List String → Option String
first_element [] = none
first_element (x ∷ xs) = some x

-- `unwrap_or_else(|| "error: empty crdt".to_string())`
abbrev pub element_text : Option String → String
element_text none = "error: empty crdt"
element_text (some x) = x

-- the set after client operations, of which it is only known what it contained before
abbrev pub set_after : List (OrSetOp String) → (String → Bool) → String → Bool
set_after [] held k = held k
set_after (OrSetOp.add a ∷ ops) held k = set_after ops (λ j. a == j || held j) k
set_after (OrSetOp.remove a ∷ ops) held k = set_after ops (λ j. not (a == j) && held j) k

-- the command that asks for an operation
abbrev pub command_for : OrSetOp String → Command
command_for (OrSetOp.add a) = add a
command_for (OrSetOp.remove a) = remove a

module _ {S H : Type 0} (codec : ElementCodec String) (prost : Message ProtoOrSetDelta)
    (store : GcStorage S) (strategy : DisseminationStrategy H)
    (texts : CrdtEngineRequest (OrSetOp String) → CrdtEngine S (OrSet String) H → String) where
  abbrev pub Task : Type 0
  Task = Option (CrdtEngine S (OrSet String) H)

  unfoldable pub send : CrdtEngineRequest (OrSetOp String) → Task → Result (Unit {0}) × Task
  send request none = (err "channel closed", none)
  send request (some g) = (ok tt, handle (or_set codec prost) store strategy g request)

  -- what the engine puts into the reply channel of a request that it has handled
  unfoldable pub reply : CrdtEngineRequest (OrSetOp String) → Task → Result String × Task
  reply request none = (err "channel closed", none)
  reply CrdtEngineRequest.get_random_element (some g) =
      (ok (element_text (first_element (elements g.crdt))), some g)
  reply request (some g) = (ok (texts request g), some g)

  abbrev pub link : EngineLink Task (OrSetOp String)
  link = record { send = send; reply = reply }

  -- room for that many events, a valid clock that knows of every dot, and a dot for one element only
  abbrev pub IsReady : ℕ → CrdtEngine S (OrSet String) H → Type 0
  IsReady n g =
      (g.dvv.dot.counter + n < 2 ^ 64) × IsValid g.dvv × Covers g.dvv g.crdt × IsUnique g.crdt

  -- the texts that answer commands, and the task behind them
  unfoldable pub replies : List Command → Task → List String × Task
  replies [] task = ([], task)
  replies (c ∷ cs) task =
      let first = handle_command link (some c) task in
      let more = replies cs first.1 in (first.0 ∷ more.0, more.1)

  abbrev pub operate :
      CrdtEngine S (OrSet String) H → OrSetOp String → CrdtEngine S (OrSet String) H
  operate g op = client_operation (or_set codec prost) store strategy g op
