-- ===== src/Tests/Discovery.antt =====
-- The theorems on discovery, dialling and the shutdown.
use experimental_crdt.Base.{
  ℕ, String, ◌==◌, string_eq, nat_eq, false, not, ◌&&◌, ◌||◌, none, some, List, [], ◌∷◌, ◌≡◌, refl,
  ap, ok, if◌then◌else◌, arith,
}
use experimental_crdt.Map.{get, insert, contains_key}
use experimental_crdt.Map.Sets.{contains}
use experimental_crdt.Text.{
  strip_prefix, strip_suffix, splitn, split_once, sort, insert_sorted, dedup, text_leb,
  trim_end_matches,
}
use experimental_crdt.Text.Decimal.{
  ℤ, pos, show_nat, show_int, put_digits, digit, parse_i64, read_digits,
}
use experimental_crdt.Clock.{NodeId}
use experimental_crdt.Proto.{Envelope}
use experimental_crdt.OrSet.{OrSet}
use experimental_crdt.OrSet.Codec.{encode_delta, proto_delta}
use experimental_crdt.Crdt.{or_set}
use experimental_crdt.Dissemination.{DisseminationStrategy, push_pull}
use experimental_crdt.Storage.{list_object_keys, list_pages, page_keys, put_object, delete_object}
use experimental_crdt.Gc.{GcStorage}
use experimental_crdt.Gc.Storage.{parse_final_dot_key, s3_gc_storage, live_members}
use experimental_crdt.Gc.Storage.Members.{is_registered, contains-live_members}
use experimental_crdt.Discovery.{
  NodeRegistration, Discovery, collect_registrations, put_registration, registration_key,
  parse_registration_key, registration_key_prefix,
}
use experimental_crdt.Discovery.Service.{
  list_live_registrations, list_live_node_ids, register, deregister, final_dot_key, delete_keys,
  put_if_none,
}
use experimental_crdt.Discovery.Connector.{Network, PeerConnector, Links, add_peer, is_skipped}
use experimental_crdt.Discovery.Dialing.{one_dials}
use experimental_crdt.Discovery.Rounds.{reconcile}
use experimental_crdt.Discovery.Reconcile.{is_live, registry-reconcile, tasks-reconcile}
use experimental_crdt.Discovery.Departure.{object-register}
use experimental_crdt.Engine.{CrdtEngine}
use experimental_crdt.Server.Shutdown.{Running, handle_shutdown}
use experimental_crdt.Server.Departure.{object-handle_shutdown}
use experimental_crdt.Tests.Data.{
  numbers, only, mailbox, first, mesh, collector, clock_a, set_a, delta_a,
}
use experimental_crdt.Tests.Objects.{
  Objects, memory, memory-ObjectStore, config, codecs, clock, blank,
}

-- a task is known by the address that it dials
abbrev one_way : Network String
one_way = record { allow_bidirectional = false; spawn_outbound = λ addr id name gc. addr }

abbrev connector : NodeId → PeerConnector
connector node_id = record { node_id = node_id; node_name = node_id; gc_replica = false }

abbrev no_links : Links ℕ String
no_links = record { registry = []; outbound_tasks = []; aborted = [] }

one_dials_example :
    contains_key (add_peer one_way (connector "a") "b" "b:9000" no_links).outbound_tasks "b"
    ≡ not (contains_key (add_peer one_way (connector "b") "a" "a:9000" no_links).outbound_tasks "a")
unfolding get
one_dials_example =
    one_dials one_way (connector "a") (connector "b") "a:9000" "b:9000" no_links no_links refl
      (λ e. absurd (ground (arith, ap (λ s. s == "b") e))) refl refl

abbrev node : NodeId → NodeRegistration ℤ
node node_id = record {
  node_id = node_id;
  node_name = node_id;
  addr = node_id;
  gc_replica = false;
  expires_at = pos 0;
}

-- "b" and "c" are connected, "c" departs, "d" departed before it was connected, "e" is new
abbrev links : Links ℕ String
links = record {
  registry = ("b", (false, 1)) ∷ ("c", (false, 2)) ∷ [];
  outbound_tasks = ("b", "b") ∷ ("c", "c") ∷ ("d", "d") ∷ [];
  aborted = [];
}

abbrev live_peers : List (NodeRegistration ℤ)
live_peers = node "b" ∷ node "e" ∷ []

registry-reconcile_example :
    get (reconcile one_way (connector "a") live_peers links).registry "c"
    ≡ (if is_live live_peers "c" then get links.registry "c" else none)
registry-reconcile_example = registry-reconcile one_way (connector "a") live_peers links "c"

tasks-reconcile_example :
    contains_key (reconcile one_way (connector "a") live_peers links).outbound_tasks "d" ≡ (
      if contains_key links.registry "d"
      then is_live live_peers "d" && contains_key links.outbound_tasks "d"
      else (contains_key links.outbound_tasks "d"
          || (is_live live_peers "d" && not (is_skipped one_way (connector "a") "d"))))
tasks-reconcile_example = tasks-reconcile one_way (connector "a") live_peers links "d"

abbrev discovery : Discovery
discovery = record {
  config = record {
    bucket = "discovery";
    registration_ttl = 60;
    gc_replica = false;
    connect_node_ids = none;
  };
  node_id = "a";
  listen_host = "a";
  listen_port = "9000";
}

object-register_example :
    memory-ObjectStore.object
      (register memory clock blank discovery (pos 5) []).1
      "discovery"
      (registration_key clock "a" (pos 60) false "a:9000")
    ≡ some (34 ∷ 34 ∷ [])
unfolding registration_key show_int show_nat put_digits digit list_object_keys list_pages page_keys
    register put_if_none put_object
object-register_example =
    object-register memory memory-ObjectStore clock blank discovery (pos 5) (pos 60) (34 ∷ 34 ∷ [])
      [] [] "discovery" (registration_key clock "a" (pos 60) false "a:9000") refl refl refl refl

-- the node has one registration
abbrev registered : Objects
registered = ("discovery", "nodes/a__0__a:9000__60.json", []) ∷ []

abbrev storage : GcStorage Objects
storage = s3_gc_storage memory codecs config clock "discovery"

abbrev strategy : DisseminationStrategy (List Envelope)
strategy = push_pull mailbox first

abbrev engine_a : CrdtEngine Objects (OrSet ℕ) (List Envelope)
engine_a = record {
  node_id = "a";
  crdt_id = "cart";
  world = record { gc = collector; crdt = set_a; dvv = clock_a; storage = registered };
  mesh = mesh;
}

abbrev running : Running Objects (List Envelope) String
running = record {
  links = record { registry = []; outbound_tasks = ("b", "b") ∷ []; aborted = [] };
  storage = registered;
}

object-handle_shutdown_example :
    (memory-ObjectStore.object
        (handle_shutdown memory
          (or_set numbers (only (proto_delta numbers delta_a)))
          storage
          strategy
          discovery
          (some engine_a)
          ("loop" ∷ [])
          "gc"
          running).1.storage
        "discovery"
        (final_dot_key "gc" "a" 2)
      ≡ some (1 ∷ []))
    × (parse_final_dot_key config (final_dot_key "gc" "a" 2) ≡ some ("a", 2))
unfolding trim_end_matches list_object_keys list_pages page_keys strip_prefix
    registration_key_prefix final_dot_key show_nat put_digits digit deregister delete_keys
    put_object delete_object contains encode_delta
object-handle_shutdown_example =
    object-handle_shutdown numbers (only (proto_delta numbers delta_a)) memory memory-ObjectStore
      storage strategy discovery engine_a ("loop" ∷ []) config running
      ("nodes/a__0__a:9000__60.json" ∷ []) refl refl refl refl refl (omega arith)

abbrev other_members : Objects
other_members =
    ("discovery", "nodes/b__0__b:9000__60.json", [])
    ∷ ("discovery", "nodes/broken.json", [])
    ∷ ("discovery", "nodes/a__1__a:9000__7.json", [])
    ∷ []

listed_run :
    (list_object_keys memory "discovery" "nodes/" other_members).0
    ≡ ok ("nodes/b__0__b:9000__60.json" ∷ "nodes/broken.json" ∷ "nodes/a__1__a:9000__7.json" ∷ [])
unfolding list_object_keys list_pages page_keys strip_prefix
listed_run = refl

members_run :
    (live_members memory codecs config clock "discovery" other_members).0 ≡ ok ("a" ∷ "b" ∷ [])
unfolding live_members list_live_node_ids list_live_registrations list_object_keys list_pages
    page_keys strip_prefix strip_suffix collect_registrations put_registration
    parse_registration_key splitn split_once parse_i64 read_digits insert sort insert_sorted dedup
    text_leb
members_run = refl

contains-live_members_example :
    contains {K = NodeId} ("a" ∷ "b" ∷ []) "b"
    ≡ is_registered clock
        ("nodes/b__0__b:9000__60.json" ∷ "nodes/broken.json" ∷ "nodes/a__1__a:9000__7.json" ∷ [])
        "b"
contains-live_members_example =
    contains-live_members clock memory codecs config "discovery" other_members
      ("nodes/b__0__b:9000__60.json" ∷ "nodes/broken.json" ∷ "nodes/a__1__a:9000__7.json" ∷ [])
      ("a" ∷ "b" ∷ []) "b" listed_run members_run
