-- ===== src/Tests/Engines.antt =====
-- The theorems on engines: "a" pulls from "b", and takes requests.
use experimental_crdt.Base.{
  ℕ, ◌≤◌, max, ◌≡◌, refl, ◌↔◌, false, ◌&&◌, none, some, List, [], ◌∷◌, arith, nat_eq, string_eq,
}
use experimental_crdt.Map.{get, insert}
use experimental_crdt.Map.Sets.{contains as has}
use experimental_crdt.Clock.{
  NodeId, DotVersionVector, count_at, effective_map, effective_counter, entry_max, merge,
  delta_since, delta_context,
}
use experimental_crdt.Proto.{Envelope, Message, ProtoOrSetDelta}
use experimental_crdt.OrSet.{OrSet, OrSetOp, OrSetDelta, contains, merge_delta, full_state, dots_of}
use experimental_crdt.OrSet.Codec.{proto_delta, encode_delta}
use experimental_crdt.Crdt.{DeltaCrdt, or_set}
use experimental_crdt.Dissemination.{DisseminationStrategy, push_pull}
use experimental_crdt.Registry.{get as get_peer}
use experimental_crdt.Server.Request.{delta_request}
use experimental_crdt.Engine.{
  CrdtEngine, new, is_collector, is_gc_peer, delta_payload, server_delta, handle, run,
}
use experimental_crdt.Engine.Clock.{Covers, merge-Covers}
use experimental_crdt.Engine.Safety.{GoesOn, handle-IsSound, run-new-IsSound}
use experimental_crdt.Engine.Sync.{delta_for, delta_payload-none, server_delta-delta_payload}
use experimental_crdt.Tests.Data.{
  clock_a, clock_b, set_a, set_b, delta_b, numbers, only, mailbox, first, mesh, Disk, disk,
  disk_storage, collector, collector_config,
}
use experimental_crdt.Tests.Clocks.{clock_a-IsValid, clock_b-IsValid}
use experimental_crdt.Tests.Sets.{set_a-IsValid, set_b-IsValid, set_a-Reflects, b_of_a}

abbrev engine : NodeId → OrSet ℕ → DotVersionVector → CrdtEngine Disk (OrSet ℕ) (List Envelope)
engine node s dvv = record {
  node_id = node;
  crdt_id = "cart";
  world = record { gc = collector; crdt = s; dvv = dvv; storage = disk };
  mesh = mesh;
}

abbrev engine_a : CrdtEngine Disk (OrSet ℕ) (List Envelope)
engine_a = engine "a" set_a clock_a

abbrev engine_b : CrdtEngine Disk (OrSet ℕ) (List Envelope)
engine_b = engine "b" set_b clock_b

-- what "b" has for "a", and an encoding that knows it
abbrev news : OrSetDelta ℕ
news =
    delta_for numbers (only (proto_delta numbers delta_b)) disk_storage (push_pull mailbox first)
      engine_b (effective_map clock_a)

abbrev prost : Message ProtoOrSetDelta
prost = only (proto_delta numbers news)

abbrev crdt : DeltaCrdt (OrSet ℕ) (OrSetOp ℕ) (OrSetDelta ℕ)
crdt = or_set numbers prost

abbrev strategy : DisseminationStrategy (List Envelope)
strategy = push_pull mailbox first

server_delta-delta_payload_example :
    (r' : CrdtEngine Disk (OrSet ℕ) (List Envelope)) × (server_delta crdt disk_storage strategy
        engine_a "cart"
        (1 ∷ [])
        none
      ≡ some r')
    × ((k : ℕ) → contains r'.crdt k ≡ contains (merge_delta set_a (full_state set_b clock_b)) k)
    × ((n : NodeId)
        → effective_counter r'.dvv n
          ≡ max (effective_counter clock_a n) (effective_counter clock_b n))
unfolding delta_payload is_gc_peer get_peer delta_since delta_context effective_map entry_max insert
    get encode_delta
server_delta-delta_payload_example =
    server_delta-delta_payload numbers prost disk_storage strategy engine_b engine_a "a" (1 ∷ [])
      refl clock_b-IsValid set_b-IsValid set_a-IsValid set_a-Reflects refl

handle-IsSound_example :
    GoesOn crdt disk_storage strategy
      (handle crdt disk_storage strategy engine_a (delta_request "b" "cart" (("b", 2) ∷ [])))
handle-IsSound_example =
    handle-IsSound crdt disk_storage strategy engine_a (delta_request "b" "cart" (("b", 2) ∷ []))
      (omega arith) (refl, clock_a-IsValid)

run-new-IsSound_example : GoesOn crdt disk_storage strategy (
    run crdt disk_storage strategy 4
      (new crdt disk_storage strategy "a" "cart" set_a mesh collector_config disk)
      [])
run-new-IsSound_example =
    run-new-IsSound crdt disk_storage strategy 4 "a" "cart" set_a mesh collector_config disk

delta_payload-none_example :
    (delta_payload crdt disk_storage strategy engine_b engine_b.world "a" (("a", 1) ∷ ("b", 2) ∷ [])
      ≡ none)
    ↔ (((is_collector engine_b.gc && is_gc_peer engine_b.mesh.peers "a") ≡ false)
        × ((n : NodeId) → effective_counter clock_b n ≤ count_at (("a", 1) ∷ ("b", 2) ∷ []) n))
delta_payload-none_example =
    delta_payload-none crdt disk_storage strategy engine_b engine_b.world "a"
      (("a", 1) ∷ ("b", 2) ∷ []) clock_b-IsValid

set_a-Covers : Covers clock_a set_a
unfolding get dots_of has effective_counter
set_a-Covers = record {
  adds = λ k x h. ground (arith, string_eq.beq_iff "a" x.node_id, string_eq.beq_iff x.node_id "a");
  removals = λ x h. ground (arith, string_eq.beq_iff "b" x.node_id, b_of_a x.node_id);
}

set_b-Covers : Covers clock_b set_b
unfolding get dots_of has effective_counter
set_b-Covers = record {
  adds = λ k x h. ground (arith, string_eq.beq_iff "b" x.node_id, string_eq.beq_iff x.node_id "b");
  removals = λ x h. ground arith;
}

merge-Covers_example : Covers (merge clock_a clock_b) (merge_delta set_a (full_state set_b clock_b))
merge-Covers_example =
    merge-Covers clock_a clock_b set_a set_b clock_b-IsValid.is_map set_a-IsValid set_b-IsValid
      set_a-Covers set_b-Covers
