-- ===== src/Tests/Data.antt =====
-- The inputs of the examples: three nodes, their clocks, sets of numbers, channels that hold two
-- messages, and a storage that keeps its records and answers the listings of members from a script.
use experimental_crdt.Base.{
  ℕ, zero, suc, refl, Bool, true, false, Option, none, some, List, [], ◌∷◌, leb, nat_eq, string_eq,
  length, Result, ok, err,
}
use experimental_crdt.Map.{HashMap, get, insert, remove as erase}
use experimental_crdt.Clock.{NodeId, Counter, Dot, DotVersionVector}
use experimental_crdt.Proto.{remove_element, Bytes, Message, ProtoOrSetOp, add_element}
use experimental_crdt.OrSet.{OrSet, OrSetDelta}
use experimental_crdt.OrSet.Codec.{ElementCodec}
use experimental_crdt.Registry.{Sender, PeerRegistry}
use experimental_crdt.Dissemination.{Mesh}
use experimental_crdt.Gc.{
  GcStorage, GcConfig, GcCoordinator, EpochMetadata, EpochState, GcIntentRecord,
}

abbrev pub dot : NodeId → Counter → Dot
dot node_id counter = record { node_id = node_id; counter = counter }

-- "a" has seen two events of its own and one of "b"
abbrev pub clock_a : DotVersionVector
clock_a = record { dot = dot "a" 2; context = ("a", 1) ∷ ("b", 1) ∷ [] }

-- "b" has seen two events of its own and one of "a"
abbrev pub clock_b : DotVersionVector
clock_b = record { dot = dot "b" 2; context = ("b", 1) ∷ ("a", 1) ∷ [] }

-- "a" holds 7, and has removed 8, which "b" had added
abbrev pub set_a : OrSet ℕ
set_a = record { adds = (7, dot "a" 1 ∷ []) ∷ []; tombstones = (dot "b" 1, dot "a" 2) ∷ [] }

-- "b" holds 8 and 9
abbrev pub set_b : OrSet ℕ
set_b = record { adds = (8, dot "b" 1 ∷ []) ∷ (9, dot "b" 2 ∷ []) ∷ []; tombstones = [] }

abbrev pub delta_b : OrSetDelta ℕ
delta_b = record {
  adds = (8, dot "b" 1) ∷ (9, dot "b" 2) ∷ [];
  tombstones = [];
  context = ("b", 2) ∷ ("a", 1) ∷ [];
  dot_node = "b";
  dot_counter = 2;
}

abbrev pub delta_a : OrSetDelta ℕ
delta_a = record {
  adds = (7, dot "a" 1) ∷ [];
  tombstones = (dot "b" 1, dot "a" 2) ∷ [];
  context = ("a", 2) ∷ ("b", 1) ∷ [];
  dot_node = "a";
  dot_counter = 2;
}

abbrev decode_number : Bytes → Result ℕ
decode_number (n ∷ []) = ok n
decode_number _ = err "not a number"

-- a number is one byte of its own
abbrev pub numbers : ElementCodec ℕ
numbers = record {
  encode_elem = λ n. n ∷ [];
  decode_elem = decode_number;
  decode_encode = λ n. refl;
}

abbrev one_or_nothing : {M : Type 0} → M → Bytes → Result M
one_or_nothing m (suc zero ∷ []) = ok m
one_or_nothing m _ = err "unknown message"

-- an encoding that knows one message
abbrev pub only : {M : Type 0} → M → Message M
only m = record { encode_to_vec = λ _. 1 ∷ []; decode = one_or_nothing m }

abbrev tag_op : ProtoOrSetOp → Bytes
tag_op m = elim m.op [ none ↦ [] | some (add_element b) ↦ 1 ∷ b | some (remove_element b) ↦ 2 ∷ b ]

abbrev untag_op : Bytes → Result ProtoOrSetOp
untag_op (suc zero ∷ b) = ok (record { op = some (add_element b) })
untag_op (suc (suc zero) ∷ b) = ok (record { op = some (remove_element b) })
untag_op _ = ok (record { op = none })

abbrev pub tagged : Message ProtoOrSetOp
tagged = record { encode_to_vec = tag_op; decode = untag_op }

-- a channel of two places
abbrev pub mailbox : {M : Type 0} → Sender (List M) M
mailbox = record {
  try_send =
      λ h m. elim (leb 2 (length h)) [ true ↦ err "no available capacity" | false ↦ ok (m ∷ h) ];
}

abbrev pub first : List NodeId → Option NodeId
first [] = none
first (p ∷ _) = some p

-- the shared storage: its records, and what each listing of the members will give
pub record Disk : Type 0 where
  pub metadata : EpochMetadata
  pub state : EpochState
  pub final_dots : HashMap NodeId Counter
  pub intents : HashMap ℕ GcIntentRecord
  pub listings : List (Result (List NodeId))

abbrev head_listing : List (Result (List NodeId)) → Result (List NodeId)
head_listing [] = err "no listing"
head_listing (l ∷ _) = l

abbrev tail_listing : List (Result (List NodeId)) → List (Result (List NodeId))
tail_listing [] = []
tail_listing (_ ∷ ls) = ls

-- the intent of an epoch is claimed by who comes first
abbrev claim : Option GcIntentRecord → ℕ → NodeId → Disk → Result Bool × Disk
claim (some _) n node s = (ok false, s)
claim none n node s =
    (ok true, record s { intents = insert s.intents n (record { epoch = n; initiator = node }) })

abbrev pub disk_storage : GcStorage Disk
disk_storage = record {
  read_epoch_metadata = λ s. (ok s.metadata, s);
  read_epoch_state = λ s. (ok s.state, s);
  write_epoch_metadata = λ md s. (ok tt, record s { metadata = md });
  write_epoch_state = λ st s. (ok tt, record s { state = st });
  read_final_dots = λ s. (ok s.final_dots, s);
  claim_gc_intent = λ n node s. claim (get s.intents n) n node s;
  read_gc_intent = λ n s. (ok (get s.intents n), s);
  release_gc_intent = λ n s. (ok tt, record s { intents = erase s.intents n });
  live_members = λ s. (head_listing s.listings, record s { listings = tail_listing s.listings });
}

abbrev pub collector_config : GcConfig
collector_config = record {
  gc_replica = true;
  observe_interval = 5;
  bucket = "bucket";
  prefix = "gc";
  initiate_interval = some 10;
}

abbrev pub collector : GcCoordinator
collector = record {
  epoch = 3;
  config = collector_config;
  matrix_clock = some (("b", ("a", 2) ∷ ("b", 2) ∷ []) ∷ ("c", ("a", 9) ∷ ("c", 4) ∷ []) ∷ []);
}

abbrev pub metadata_3 : EpochMetadata
metadata_3 = record { epoch = 3; v_stable = ("a", 1) ∷ []; obsolete_dots = [] }

abbrev pub state_3 : EpochState
state_3 = record { epoch = 3; initiator_clock = ("b", 5) ∷ []; state_payload = 1 ∷ [] }

-- epoch 3, no collection running, "a" and "b" alive, and "c" gone after four events
abbrev pub disk : Disk
disk = record {
  metadata = metadata_3;
  state = state_3;
  final_dots = ("c", 4) ∷ [];
  intents = [];
  listings = ok ("a" ∷ "b" ∷ []) ∷ ok ("a" ∷ "b" ∷ []) ∷ [];
}

-- "b" and "c" are connected, "c" as a collector
abbrev pub peers : {M : Type 0} → PeerRegistry (List M)
peers = ("b", (false, [])) ∷ ("c", (true, [])) ∷ []

abbrev pub mesh : {M : Type 0} → Mesh (List M)
mesh = record { dissemination_round = 0; peers = peers }
