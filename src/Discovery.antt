-- ===== src/Discovery.antt =====
-- src/peers/discovery.rs: the registrations of the live nodes, one object key for each, and the round
-- that connects new peers and disconnects departed ones. The clock and the calendar (chrono) are
-- parameters, and so is the object store.
pub mod Keys
pub mod Service
pub mod Connector
pub mod Rounds
pub mod Dialing
pub mod Reconcile
pub mod Departure
use experimental_crdt.Base.{
  ℕ, zero, suc, ◌+◌, String, ◌==◌, string_eq, Bool, true, false, not, Option, none, some, List, [],
  ◌∷◌, Result, ok, err, ok_or, ◌>>=◌, if◌then◌else◌, map, retain,
}
use experimental_crdt.Map.{HashMap, insert, values}
use experimental_crdt.Map.Sets.{HashSet, contains}
use experimental_crdt.Text.{◌<>◌, strip_prefix, strip_suffix, splitn, sort, dedup}
use experimental_crdt.Text.Decimal.{ℤ, show_int, show_nat, parse_i64}
use experimental_crdt.Clock.{NodeId, Counter}
use experimental_crdt.Proto.{Bytes}

-- `DateTime<Utc>`: the milliseconds since 1970 and back, and the time a while after now
pub record Chrono (D : Type 0) : Type 0 where
  pub timestamp_millis : D → ℤ
  pub from_timestamp_millis : ℤ → Option D
  pub after : D → ℕ → Result D

-- what the methods read of `DiscoveryConfig`
pub record DiscoveryConfig : Type 0 where
  pub bucket : String
  pub registration_ttl : ℕ
  pub gc_replica : Bool
  pub connect_node_ids : Option (HashSet NodeId)

pub record NodeRegistration (D : Type 0) : Type 0 where
  pub node_id : NodeId
  pub node_name : String
  pub addr : String
  pub gc_replica : Bool
  pub expires_at : D

pub record Discovery : Type 0 where
  pub config : DiscoveryConfig
  pub node_id : NodeId
  pub listen_host : String
  pub listen_port : String

abbrev pub discovery_nodes_prefix : String
discovery_nodes_prefix = "nodes/"

abbrev pub final_dots_prefix : String
final_dots_prefix = "final_dots/"

abbrev pub gc_marker : Bool → String
gc_marker true = "1"
gc_marker false = "0"

unfoldable pub registration_key_prefix : NodeId → String
registration_key_prefix node_id = discovery_nodes_prefix <> (node_id <> "__")

-- `parts.next()`, and the parts behind it
abbrev pub first_part : List String → Option String
first_part [] = none
first_part (p ∷ ps) = some p

abbrev pub more_parts : List String → List String
more_parts [] = []
more_parts (p ∷ ps) = ps

-- `.filter(|p| !p.is_empty())`
abbrev pub not_empty : Option String → Option String
not_empty none = none
not_empty (some p) = if p == "" then none else some p

-- `match marker { "1" => true, "0" => false, other => bail! }`
abbrev pub read_marker : String → Result Bool
read_marker marker =
    if marker == "1"
    then ok true
    else if marker == "0"
    then ok false
    else err "invalid gc_replica marker in discovery key"

unfoldable pub put_registration :
    {D : Type 0}
    → HashMap NodeId (NodeRegistration D)
    → Result (NodeRegistration D)
    → HashMap NodeId (NodeRegistration D)
put_registration by_node (ok reg) = insert by_node reg.node_id reg
put_registration by_node (err e) = by_node

module _ {D : Type 0} (chrono : Chrono D) where
  unfoldable pub registration_key : NodeId → D → Bool → String → String
  registration_key node_id expires_at gc_replica addr =
      discovery_nodes_prefix
      <> (node_id
          <> ("__"
              <> (gc_marker gc_replica
                  <> ("__"
                      <> (addr
                          <> ("__"
                              <> (show_int (chrono.timestamp_millis expires_at) <> ".json")))))))

  unfoldable pub parse_registration_key : String → Result (NodeRegistration D)
  parse_registration_key key = do
    rest ← ok_or (strip_prefix key discovery_nodes_prefix) "invalid discovery key prefix"
    stem ← ok_or (strip_suffix rest ".json") "invalid discovery key suffix"
    let p0 = splitn 4 stem "__"
    node_id ← ok_or (not_empty (first_part p0)) "missing node_id in discovery key"
    let p1 = more_parts p0
    marker ← ok_or (first_part p1) "missing gc_replica in discovery key"
    gc_replica ← read_marker marker
    let p2 = more_parts p1
    addr ← ok_or (first_part p2) "missing socket address in discovery key"
    let p3 = more_parts p2
    millis ← ok_or (first_part p3) "missing ttl timestamp in discovery key"
    expires_millis ← ok_or (parse_i64 millis) "invalid digit found in string"
    expires_at ←
        ok_or (chrono.from_timestamp_millis expires_millis) "invalid ttl timestamp in discovery key"
    ok (record {
      node_id = node_id;
      node_name = node_id;
      addr = addr;
      gc_replica = gc_replica;
      expires_at = expires_at;
    })

  -- the loop over the keys
  unfoldable pub collect_registrations :
      HashMap NodeId (NodeRegistration D) → List String → HashMap NodeId (NodeRegistration D)
  collect_registrations by_node [] = by_node
  collect_registrations by_node (key ∷ keys) =
      collect_registrations (put_registration by_node (parse_registration_key key)) keys
