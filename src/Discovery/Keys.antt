-- ===== src/Discovery/Keys.antt =====
-- discovery.rs: what a registration's key says to who reads it.
use experimental_crdt.Base.{
  String, ◌==◌, string_eq, Bool, true, false, some, [], ◌∷◌, ◌≡◌, refl, ok, arith,
}
use experimental_crdt.Text.{◌<>◌, splitn}
use experimental_crdt.Text.Split.{
  strip_prefix-append, strip_suffix-append, append_assoc, is_plain, split_once-append,
}
use experimental_crdt.Text.Decimal.{show_int, IsI64, parse_i64-show_int}
use experimental_crdt.Clock.{NodeId}
use experimental_crdt.Discovery.{
  Chrono, discovery_nodes_prefix, gc_marker, read_marker, registration_key, parse_registration_key,
}

-- the key without its prefix and suffix
abbrev stem_of : NodeId → String → String → String → String
stem_of node_id marker addr millis =
    node_id <> ("__" <> (marker <> ("__" <> (addr <> ("__" <> millis)))))

stem-suffix :
    (node_id marker addr millis : String)
    → node_id <> ("__" <> (marker <> ("__" <> (addr <> ("__" <> (millis <> ".json"))))))
      ≡ stem_of node_id marker addr millis <> ".json"
stem-suffix node_id marker addr millis = ground (
  arith,
  append_assoc node_id ("__" <> (marker <> ("__" <> (addr <> ("__" <> millis))))) ".json",
  append_assoc marker ("__" <> (addr <> ("__" <> millis))) ".json",
  append_assoc addr ("__" <> millis) ".json",
)

gc_marker-plain : (gc : Bool) → is_plain (gc_marker gc) ≡ true
gc_marker-plain true = refl
gc_marker-plain false = refl

read_marker-gc_marker : (gc : Bool) → read_marker (gc_marker gc) ≡ ok gc
read_marker-gc_marker true = refl
read_marker-gc_marker false = refl

splitn-stem :
    (node_id addr millis : String) (gc : Bool)
    → is_plain node_id ≡ true
    → is_plain addr ≡ true
    → splitn 4 (stem_of node_id (gc_marker gc) addr millis) "__"
      ≡ node_id ∷ gc_marker gc ∷ addr ∷ millis ∷ []
unfolding splitn
splitn-stem node_id addr millis gc hn ha = ground (
  arith,
  split_once-append node_id (gc_marker gc <> ("__" <> (addr <> ("__" <> millis)))),
  split_once-append (gc_marker gc) (addr <> ("__" <> millis)) (gc_marker-plain gc),
  split_once-append addr millis,
)

-- A key that was written for a node is read back as that node, with its address, its mark and its
-- time, where the node's id is not empty and neither the id nor the address holds two underscores in
-- a row or ends in one; the milliseconds fit 64 bits and the calendar gives the time back.
pub parse_registration_key-registration_key :
    {D : Type 0} (chrono : Chrono D) (node_id : NodeId) (expires_at : D) (gc_replica : Bool)
    (addr : String)
    → (node_id == "") ≡ false
    → is_plain node_id ≡ true
    → is_plain addr ≡ true
    → IsI64 (chrono.timestamp_millis expires_at)
    → chrono.from_timestamp_millis (chrono.timestamp_millis expires_at) ≡ some expires_at
    → parse_registration_key chrono (registration_key chrono node_id expires_at gc_replica addr)
      ≡ ok (record {
        node_id = node_id;
        node_name = node_id;
        addr = addr;
        gc_replica = gc_replica;
        expires_at = expires_at;
      })
unfolding parse_registration_key registration_key
parse_registration_key-registration_key chrono node_id expires_at gc_replica addr named hn ha fits
      back =
    let millis = show_int (chrono.timestamp_millis expires_at) in
    let stem = stem_of node_id (gc_marker gc_replica) addr millis in
    ground (
      arith,
      stem-suffix node_id (gc_marker gc_replica) addr millis,
      strip_prefix-append discovery_nodes_prefix (stem <> ".json"),
      strip_suffix-append stem ".json",
      splitn-stem node_id addr millis gc_replica,
      read_marker-gc_marker gc_replica,
      parse_i64-show_int (chrono.timestamp_millis expires_at) fits,
    )
