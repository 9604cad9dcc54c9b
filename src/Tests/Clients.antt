-- ===== src/Tests/Clients.antt =====
-- The theorems on clients: lines, a session, and the engine behind it.
use Prim.Native.Char.{Char, code}
use experimental_crdt.Base.{
  ℕ, zero, suc, String, nat_eq, string_eq, nat_eqb, Bool, true, none, some, List, [], ◌∷◌, ◌++◌,
  ◌≡◌, refl, Result, ok, err, arith, map, ◌⊎◌,
}
use experimental_crdt.Map.{get, insert}
use experimental_crdt.Map.Sets.{contains as has}
use experimental_crdt.Text.{split_once, splitn, strip_prefix}
use experimental_crdt.Clock.{DotVersionVector, new as new_vector}
use experimental_crdt.Clock.Effective.{new-IsValid}
use experimental_crdt.Proto.{
  Bytes, Envelope, Message, ProtoOrSetDelta, ProtoClientCommand, add, print_state,
}
use experimental_crdt.OrSet.{apply_local, enter, OrSet, OrSetOp, contains, elements, dots_of}
use experimental_crdt.OrSet.Local.{IsUnique}
use experimental_crdt.Dissemination.{DisseminationStrategy, push_pull}
use experimental_crdt.Engine.{CrdtEngine, client_operation, handle}
use experimental_crdt.Engine.Clock.{Covers}
use experimental_crdt.Engine.Clients.{send, reply, operate, replies, command_for, set_after}
use experimental_crdt.Engine.Sequential.{contains-replies, operate-IsReady}
use experimental_crdt.Engine.Random.{ask, Removes, Refuses, handle_command-remove_random}
use experimental_crdt.OrSet.Merge.{IsValid}
use experimental_crdt.Server.Request.{CrdtEngineRequest}
use experimental_crdt.Server.Clients.{
  EngineLink, handle_command, remove_reply, serve_client, send_engine_request,
  send_engine_request_and_wait_response,
}
use experimental_crdt.Client.{parse_line, trim, trim_start, trim_end, run_interactive, send_command}
use experimental_crdt.Client.Session.{framed, run_interactive-serve_client}
use experimental_crdt.Frame.{put_u32}
use experimental_crdt.Tests.Texts.{texts, into_bytes}
use experimental_crdt.Tests.Data.{dot, mailbox, first, mesh, collector, Disk, disk, disk_storage}

-- a space
abbrev white : Char → Bool
white c = nat_eqb (code c) 32

abbrev strategy : DisseminationStrategy (List Envelope)
strategy = push_pull mailbox first

abbrev no_delta : Message ProtoOrSetDelta
no_delta = record { encode_to_vec = λ m. []; decode = λ b. err "unknown message" }

abbrev printed :
    CrdtEngineRequest (OrSetOp String) → CrdtEngine Disk (OrSet String) (List Envelope) → String
printed request g = "printed"

-- a new engine whose set is empty, and one whose set holds an element that looks like an error
abbrev engine_with :
    OrSet String → DotVersionVector → CrdtEngine Disk (OrSet String) (List Envelope)
engine_with s dvv = record {
  node_id = "a";
  crdt_id = "cart";
  world = record { gc = collector; crdt = s; dvv = dvv; storage = disk };
  mesh = mesh;
}

abbrev empty_set : OrSet String
empty_set = record { adds = []; tombstones = [] }

abbrev new_engine : CrdtEngine Disk (OrSet String) (List Envelope)
new_engine = engine_with empty_set (new_vector "a")

empty_set-Covers : Covers (new_vector "a") empty_set
unfolding get dots_of has
empty_set-Covers = record {
  adds = λ k x h. absurd (ground arith);
  removals = λ x h. absurd (ground arith);
}

empty_set-IsUnique : IsUnique empty_set
unfolding get dots_of has
empty_set-IsUnique k j d hk hj = absurd (ground arith)

abbrev ops : List (OrSetOp String)
ops = OrSetOp.add "x" ∷ OrSetOp.add "y" ∷ OrSetOp.remove "x" ∷ []

contains-replies_example :
    (g' : CrdtEngine Disk (OrSet String) (List Envelope)) × (replies texts no_delta disk_storage
        strategy printed
        (map command_for ops)
        (some new_engine)
      ≡ ("ok" ∷ "ok" ∷ "ok" ∷ [], some g'))
    × ((k : String) → contains g'.crdt k ≡ set_after ops (contains empty_set) k)
unfolding new_vector
contains-replies_example =
    contains-replies texts no_delta disk_storage strategy printed ops new_engine
      (omega arith, new-IsValid "a", empty_set-Covers, empty_set-IsUnique)

abbrev like_error : CrdtEngine Disk (OrSet String) (List Envelope)
like_error =
    engine_with (record { adds = ("error: 404", dot "a" 1 ∷ []) ∷ []; tombstones = [] })
      (record { dot = dot "a" 1; context = [] })

-- an element that begins with "error:" is not removed
like_error_run :
    ask texts no_delta disk_storage strategy printed true like_error
    ≡ ("error: 404", some like_error)
unfolding handle_command remove_reply send_engine_request_and_wait_response send reply handle
    elements strip_prefix get
like_error_run = refl

-- the engine after a client has added "x"
abbrev with_x : CrdtEngine Disk (OrSet String) (List Envelope)
with_x = operate texts no_delta disk_storage strategy printed new_engine (OrSetOp.add "x")

with_x-IsValid : IsValid with_x.crdt
unfolding client_operation new_vector apply_local enter insert get
with_x-IsValid = record { adds_map = (refl, tt); tombstones_map = tt }

handle_command-remove_random_example :
    ((x : String) × (g' : CrdtEngine Disk (OrSet String) (List Envelope)) × (ask texts no_delta
          disk_storage strategy printed true with_x
        ≡ ("ok", some g'))
      × Removes texts no_delta disk_storage strategy printed with_x g' x)
    ⊎ ((text : String) × (ask texts no_delta disk_storage strategy printed true with_x
          ≡ (text, some with_x))
        × Refuses texts no_delta disk_storage strategy printed with_x text)
unfolding new_vector
handle_command-remove_random_example =
    handle_command-remove_random texts no_delta disk_storage strategy printed with_x true
      (operate-IsReady texts no_delta disk_storage strategy printed new_engine (OrSetOp.add "x") 1
        (omega arith, new-IsValid "a", empty_set-Covers, empty_set-IsUnique))
      with_x-IsValid

-- a server that answers everything
abbrev polite : EngineLink ℕ (OrSetOp String)
polite = record { send = λ request n. (ok tt, suc n); reply = λ request n. (ok "state", n) }

abbrev encode : ProtoClientCommand → Bytes
encode m = elim m.command [ some (print_state true) ↦ 1 ∷ [] | some _ ↦ 2 ∷ [] | none ↦ [] ]

abbrev decode : Bytes → Result ProtoClientCommand
decode (suc zero ∷ []) = ok (record { command = some (print_state true) })
decode (suc (suc zero) ∷ []) = ok (record { command = some (add "x") })
decode _ = err "unknown command"

abbrev prost : Message ProtoClientCommand
prost = record { encode_to_vec = encode; decode = decode }

run_interactive-serve_client_example :
    (serve_client polite prost into_bytes 11
        (send_command prost (add "x") ++ (send_command prost (print_state true) ++ []))
        []
        0
      ≡ some (framed (into_bytes "ok") ++ (framed (into_bytes "state") ++ []), 2))
    × (run_interactive prost white
          ("add x" ∷ "print-state" ∷ [])
          (framed (into_bytes "ok") ++ (framed (into_bytes "state") ++ []))
        ≡ ok (record {
          sent = send_command prost (add "x") ++ (send_command prost (print_state true) ++ []);
          printed = into_bytes "ok" ∷ into_bytes "state" ∷ [];
        }))
unfolding handle_command send_engine_request send_engine_request_and_wait_response send_command
    put_u32 parse_line trim trim_start trim_end splitn split_once strip_prefix
run_interactive-serve_client_example =
    run_interactive-serve_client polite prost into_bytes white ("add x" ∷ "print-state" ∷ [])
      (add "x" ∷ print_state true ∷ []) 0 (refl, (refl, tt))
      (refl, omega arith, omega arith, (refl, omega arith, omega arith, tt))
