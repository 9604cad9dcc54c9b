-- ===== src/Gc.antt =====
-- src/gc/mod.rs, src/gc/storage.rs and the state of src/gc/coordinator.rs: the records that the
-- replicas share, the storage interface, and the matrix clock of a collector.
pub mod Exec
pub mod Matrix
pub mod Stable
pub mod Initiate
pub mod Observe
pub mod Invariant
pub mod Storage
use experimental_crdt.Base.{
  ℕ, zero, suc, ◌+◌, ◌-◌, ◌*◌, ◌/◌, ◌%◌, ◌^◌, ◌≤◌, ◌<◌, max, min, String, ◌≡◌, refl, sym, ap, ◌∙◌,
  ◌≢◌, ◌↔◌, ◌⊎◌, inl, inr, Bool, true, false, not, ◌&&◌, ◌||◌, Option, none, some, List, [], ◌∷◌,
  ◌++◌, map, arith, ltb, leb, nat_eqb, nat_eqb_iff, if◌then◌else◌, Bool-cases, Option-cases,
  Bool-ext, Eq, ◌==◌, nat_eq, string_eq, beq_refl, length, any, all, retain, Result, ok, err, ok_or,
  is_ok, collect, Result-cases,
}
use experimental_crdt.Map.{HashMap, get, insert, remove as erase, contains_key}
use experimental_crdt.Map.Sets.{HashSet, contains, extend}
use experimental_crdt.Clock.{NodeId, Counter, CausalContext}
use experimental_crdt.Clock.VersionVector.{vv_join}
use experimental_crdt.Proto.{Bytes}
use experimental_crdt.Registry.{PeerRegistry, get_all_non_gc_replicas}
use experimental_crdt.Dissemination.{MatrixClock, map_option}

pub record EpochMetadata : Type 0 where
  pub epoch : ℕ
  pub v_stable : CausalContext
  pub obsolete_dots : HashSet NodeId

pub record EpochState : Type 0 where
  pub epoch : ℕ
  pub initiator_clock : CausalContext
  pub state_payload : Bytes

pub record GcIntentRecord : Type 0 where
  pub epoch : ℕ
  pub initiator : NodeId

-- `trait GcStorage`, with the shared storage as a state that each call reads and may change; what
-- other replicas do between two calls is part of what the next call finds. `live_members` is the
-- method of `MembershipProvider`, which reads the same storage.
pub record GcStorage (S : Type 0) : Type 0 where
  pub read_epoch_metadata : S → Result EpochMetadata × S
  pub read_epoch_state : S → Result EpochState × S
  pub write_epoch_metadata : EpochMetadata → S → Result (Unit {0}) × S
  pub write_epoch_state : EpochState → S → Result (Unit {0}) × S
  pub read_final_dots : S → Result (HashMap NodeId Counter) × S
  pub claim_gc_intent : ℕ → NodeId → S → Result Bool × S
  pub read_gc_intent : ℕ → S → Result (Option GcIntentRecord) × S
  pub release_gc_intent : ℕ → S → Result (Unit {0}) × S
  pub live_members : S → Result (List NodeId) × S

-- The intervals (in nanoseconds), the bucket and the prefix of `GcConfig` are kept as data.
pub record GcConfig : Type 0 where
  pub gc_replica : Bool
  pub observe_interval : ℕ
  pub bucket : String
  pub prefix : String
  pub initiate_interval : Option ℕ

-- the fields that change; the storage and the peer table are passed beside it
pub record GcCoordinator : Type 0 where
  pub epoch : ℕ
  pub config : GcConfig
  pub matrix_clock : Option MatrixClock

unfoldable pub new : GcConfig → GcCoordinator
new config = record {
  epoch = 0;
  config = config;
  matrix_clock = if config.gc_replica then some [] else none;
}

unfoldable pub new_member_exists : List NodeId → List NodeId → Bool
new_member_exists old members = any (λ node. not (contains (extend [] old) node)) members

-- one round of the loop of `update_matrix_clock`
unfoldable pub merge_row : MatrixClock → NodeId → CausalContext → MatrixClock
merge_row mc node incoming = elim (get mc node) [
  | some row ↦ insert mc node (vv_join incoming row)
  | none ↦ insert mc node incoming
]

unfoldable pub merge_rows : MatrixClock → MatrixClock → MatrixClock
merge_rows mc [] = mc
merge_rows mc ((node, incoming) ∷ rows) = merge_rows (merge_row mc node incoming) rows

-- `for context in matrix_clock.values_mut() { context.remove(node_id); }`
unfoldable pub drop_column : MatrixClock → NodeId → MatrixClock
drop_column [] p = []
drop_column ((node, row) ∷ mc) p = (node, erase row p) ∷ drop_column mc p

-- A method that writes the matrix clock: nothing on a replica that is no collector, and `none`
-- stands for the panic of `unwrap` where a collector has no matrix.
abbrev pub write_matrix : GcCoordinator → (MatrixClock → MatrixClock) → Option GcCoordinator
write_matrix gc f =
    if gc.config.gc_replica
    then map_option (λ mc. record gc { matrix_clock = some (f mc) }) gc.matrix_clock
    else some gc

unfoldable pub update_matrix_clock : GcCoordinator → MatrixClock → Option GcCoordinator
update_matrix_clock gc knowledge_matrix = write_matrix gc (λ mc. merge_rows mc knowledge_matrix)

unfoldable pub remove_matrix_clock_row : GcCoordinator → NodeId → Option GcCoordinator
remove_matrix_clock_row gc p = write_matrix gc (λ mc. erase mc p)

unfoldable pub remove_matrix_clock_column : GcCoordinator → NodeId → Option GcCoordinator
remove_matrix_clock_column gc p = write_matrix gc (λ mc. drop_column mc p)

-- the loop of `get_knowledge_matrix`
unfoldable pub select_rows : MatrixClock → MatrixClock → List NodeId → MatrixClock
select_rows mc out [] = out
select_rows mc out (node ∷ nodes) =
    select_rows mc (elim (get mc node) [ none ↦ out | some row ↦ insert out node row ]) nodes

unfoldable pub get_knowledge_matrix :
    {H : Type 0} → GcCoordinator → PeerRegistry H → Option MatrixClock
get_knowledge_matrix gc registry =
    if gc.config.gc_replica
    then map_option (λ mc. select_rows mc [] (get_all_non_gc_replicas registry)) gc.matrix_clock
    else none
