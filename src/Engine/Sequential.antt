-- ===== src/Engine/Sequential.antt =====
-- crdt_engine.rs and client_requests_handler.rs: what a client's commands do to the set of an engine.
use experimental_crdt.Base.{
  ℕ, suc, ◌≡◌, refl, String, Bool, not, ◌&&◌, ◌||◌, some, List, [], ◌∷◌, map, ap, sym, ◌∙◌, length,
  arith, ◌==◌, nat_eq, string_eq,
}
use experimental_crdt.Clock.{dot_eq, event}
use experimental_crdt.Clock.Effective.{event-IsValid}
use experimental_crdt.Proto.{Message, ProtoOrSetDelta}
use experimental_crdt.OrSet.{OrSet, OrSetOp, contains}
use experimental_crdt.OrSet.Codec.{ElementCodec}
use experimental_crdt.OrSet.Local.{
  IsUnique, has_add-add, has_add-remove, contains-add, contains-remove,
}
use experimental_crdt.Dissemination.{DisseminationStrategy}
use experimental_crdt.Gc.{GcStorage}
use experimental_crdt.Server.Request.{CrdtEngineRequest}
use experimental_crdt.Server.Clients.{send_engine_request, handle_command}
use experimental_crdt.Engine.{CrdtEngine, client_operation, handle}
use experimental_crdt.Engine.Clients.{set_after, command_for, send, link, IsReady, replies, operate}
use experimental_crdt.Engine.Clock.{event-IsFresh, client_operation-Covers}

module _ {S H : Type 0} (codec : ElementCodec String) (prost : Message ProtoOrSetDelta)
    (store : GcStorage S) (strategy : DisseminationStrategy H)
    (texts : CrdtEngineRequest (OrSetOp String) → CrdtEngine S (OrSet String) H → String) where
  abbrev Ready : ℕ → CrdtEngine S (OrSet String) H → Type 0
  Ready n g = IsReady codec prost store strategy texts n g

  abbrev act : CrdtEngine S (OrSet String) H → OrSetOp String → CrdtEngine S (OrSet String) H
  act g op = operate codec prost store strategy texts g op

  operate-IsUnique :
      (g : CrdtEngine S (OrSet String) H) (op : OrSetOp String) (n : ℕ)
      → Ready (suc n) g
      → IsUnique (act g op).crdt
  unfolding client_operation
  operate-IsUnique g (OrSetOp.add a) n ready k j d hk hj =
      let fresh = event-IsFresh g.dvv g.crdt (omega (arith, ready.0)) ready.1 ready.2 in
      ground (
        arith,
        has_add-add g.crdt (event g.dvv).dot a k d,
        has_add-add g.crdt (event g.dvv).dot a j d,
        fresh.0 k,
        fresh.0 j,
        dot_eq.beq_iff (event g.dvv).dot d,
        string_eq.beq_iff a k,
        string_eq.beq_iff a j,
        ready.3 k j d,
      )
  operate-IsUnique g (OrSetOp.remove a) n ready k j d hk hj = ground (
    arith,
    has_add-remove g.crdt (event g.dvv).dot a k d,
    has_add-remove g.crdt (event g.dvv).dot a j d,
    ready.3 k j d,
  )

  pub operate-IsReady :
      (g : CrdtEngine S (OrSet String) H) (op : OrSetOp String) (n : ℕ)
      → Ready (suc n) g
      → Ready n (act g op)
  unfolding client_operation event
  operate-IsReady g op n ready = (
    omega (arith, ready.0),
    event-IsValid g.dvv (omega (arith, ready.0)) ready.1,
    client_operation-Covers codec prost store strategy g op (omega (arith, ready.0)) ready.1
        ready.2,
    operate-IsUnique g op n ready,
  )

  pub contains-operate :
      (g : CrdtEngine S (OrSet String) H) (op : OrSetOp String) (n : ℕ) (k : String)
      → Ready (suc n) g
      → contains (act g op).crdt k ≡ set_after (op ∷ []) (contains g.crdt) k
  unfolding client_operation
  contains-operate g (OrSetOp.add a) n k ready =
      let fresh = event-IsFresh g.dvv g.crdt (omega (arith, ready.0)) ready.1 ready.2 in
      contains-add g.crdt (event g.dvv).dot a k fresh.1
  contains-operate g (OrSetOp.remove a) n k ready =
      contains-remove g.crdt (event g.dvv).dot a k ready.3

  -- what the set is afterwards depends only on what it contained
  set_after-same :
      (ops : List (OrSetOp String)) (held held' : String → Bool) (k : String)
      → ((j : String) → held j ≡ held' j)
      → set_after ops held k ≡ set_after ops held' k
  set_after-same [] held held' k same = same k
  set_after-same (OrSetOp.add a ∷ ops) held held' k same =
      set_after-same ops (λ j. a == j || held j) (λ j. a == j || held' j) k
        (λ j. ap (λ b. a == j || b) (same j))
  set_after-same (OrSetOp.remove a ∷ ops) held held' k same =
      set_after-same ops (λ j. not (a == j) && held j) (λ j. not (a == j) && held' j) k
        (λ j. ap (λ b. not (a == j) && b) (same j))

  set_after-cons :
      (op : OrSetOp String) (ops : List (OrSetOp String)) (held : String → Bool) (k : String)
      → set_after (op ∷ ops) held k ≡ set_after ops (set_after (op ∷ []) held) k
  set_after-cons (OrSetOp.add a) ops held k = refl
  set_after-cons (OrSetOp.remove a) ops held k = refl

  handle_command-operate :
      (g : CrdtEngine S (OrSet String) H) (op : OrSetOp String)
      → handle_command (link codec prost store strategy texts) (some (command_for op)) (some g)
        ≡ ("ok", some (act g op))
  unfolding handle_command send_engine_request send handle
  handle_command-operate g (OrSetOp.add a) = refl
  handle_command-operate g (OrSetOp.remove a) = refl

  -- A client's adds and removals, one after the other, are answered by "ok" and leave a set that
  -- contains what a plain set would, given what it contained before. The clock is valid, knows of every
  -- dot of the set and has room for an event for each operation, and no dot stands for two elements.
  pub contains-replies :
      (ops : List (OrSetOp String)) (g : CrdtEngine S (OrSet String) H)
      → Ready (length ops) g
      → (g' : CrdtEngine S (OrSet String) H) × (replies codec prost store strategy texts
            (map command_for ops)
            (some g)
          ≡ (map (λ op. "ok") ops, some g'))
        × ((k : String) → contains g'.crdt k ≡ set_after ops (contains g.crdt) k)
  unfolding replies
  contains-replies [] g ready = (g, refl, λ k. refl)
  contains-replies (op ∷ ops) g ready =
      let rest = contains-replies ops (act g op) (operate-IsReady g op (length ops) ready) in
      (
        rest.0,
        rw (handle_command-operate g op) (rw rest.1 refl),
        λ k.
            rest.2 k
            ∙ set_after-same ops (contains (act g op).crdt) (set_after (op ∷ []) (contains g.crdt))
                k (λ j. contains-operate g op (length ops) j ready)
            ∙ sym (set_after-cons op ops (contains g.crdt) k),
      )
