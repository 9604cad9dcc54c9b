-- ===== src/Tests/Collector.antt =====
-- The theorems on the collector: "a" collects with "b", while "c" has left.
use experimental_crdt.Base.{
  ℕ, ◌≤◌, max, ◌≡◌, refl, inl, inr, true, false, some, List, [], ◌∷◌, arith, Bool-cases, nat_eq,
  string_eq, ok, err, collect, Option-cases, ap, ◌≢◌,
}
use experimental_crdt.Map.{get, insert}
use experimental_crdt.Map.Sets.{contains, put, extend}
use experimental_crdt.Clock.{
  NodeId, CausalContext, count_at, effective_map, effective_counter, entry_max, frontier_dvv,
}
use experimental_crdt.Clock.VersionVector.{vv_meet, meet_entries, vv_leq}
use experimental_crdt.OrSet.{OrSet, OrSetOp, OrSetDelta}
use experimental_crdt.OrSet.Codec.{proto_delta, decode_delta, decode_elem_dot, decode_pair}
use experimental_crdt.Crdt.{DeltaCrdt, or_set}
use experimental_crdt.Dissemination.{MatrixClock}
use experimental_crdt.Gc.{new_member_exists}
use experimental_crdt.Gc.Exec.{World, returns, polls}
use experimental_crdt.Gc.Matrix.{IsMatrix, IsReady}
use experimental_crdt.Gc.Stable.{
  row_of, meet_members, non_members, meet_pending, split_departed, compute_stable_timestamp,
}
use experimental_crdt.Gc.Stable.Safety.{stable-le-member, obsolete-le-member}
use experimental_crdt.Gc.Initiate.{
  concurrent_initiator, forget_nodes, commit, collect_stable, check_members, initiate_gc,
}
use experimental_crdt.Gc.Initiate.Paths.{SameReplica, initiate_gc-aborts}
use experimental_crdt.Gc.Initiate.Commit.{frontier_of, initiate_gc-commits}
use experimental_crdt.Gc.Observe.{observe_epoch_change, new_replica_bootstrap}
use experimental_crdt.Gc.Observe.Epochs.{observe_epoch_change_lem, new_replica_bootstrap_lem}
use experimental_crdt.Gc.Initiate.Intent.{HoldsIntents, initiate_gc-keeps_intent}
use experimental_crdt.Gc.Observe.Waiting.{ReadsIntents, new_replica_bootstrap-polls}
use experimental_crdt.Map.{is_some}
use experimental_crdt.Map.Laws.{get-insert}
use experimental_crdt.Tests.Data.{
  clock_a, set_a, delta_a, numbers, only, Disk, disk, disk_storage, collector, metadata_3, state_3,
}

abbrev crdt : DeltaCrdt (OrSet ℕ) (OrSetOp ℕ) (OrSetDelta ℕ)
crdt = or_set numbers (only (proto_delta numbers delta_a))

abbrev world : World Disk (OrSet ℕ)
world = record { gc = collector; crdt = set_a; dvv = clock_a; storage = disk }

abbrev matrix : MatrixClock
matrix = ("b", ("a", 2) ∷ ("b", 2) ∷ []) ∷ ("c", ("a", 9) ∷ ("c", 4) ∷ []) ∷ []

abbrev known : CausalContext
known = ("a", 2) ∷ ("b", 1) ∷ ("c", 4) ∷ []

abbrev members : List NodeId
members = "a" ∷ "b" ∷ []

stable-le-member_example :
    count_at (compute_stable_timestamp (some matrix) "a" members (("c", 4) ∷ []) known).0 "a"
    ≤ count_at (("a", 2) ∷ ("b", 2) ∷ []) "a"
unfolding contains row_of get
stable-le-member_example =
    stable-le-member matrix "a" members (("c", 4) ∷ []) known "b" "a" (("a", 2) ∷ ("b", 2) ∷ [])
      refl refl

-- "b" has seen all that "c" did
abbrev matrix_c : MatrixClock
matrix_c = ("b", ("a", 2) ∷ ("b", 2) ∷ ("c", 4) ∷ []) ∷ []

obsolete-le-member_example :
    (contains members "c" ≡ false)
    × (count_at (("c", 4) ∷ []) "c" ≤ count_at (("a", 2) ∷ ("b", 2) ∷ ("c", 4) ∷ []) "c")
unfolding compute_stable_timestamp meet_members split_departed non_members vv_meet meet_entries
    row_of contains put extend get insert
obsolete-le-member_example =
    obsolete-le-member matrix_c "a" members (("c", 4) ∷ []) known "c" "b"
      (("a", 2) ∷ ("b", 2) ∷ ("c", 4) ∷ []) refl refl refl

initiate_gc-commits_example :
    ((initiate_gc crdt disk_storage "a" world).1.crdt
      ≡ crdt.perform_gc set_a (
          frontier_dvv "a"
            (frontier_of crdt disk_storage world "a" matrix members (("c", 4) ∷ []))))
    × ((initiate_gc crdt disk_storage "a" world).1.gc.epoch ≡ 4)
    × (count_at (frontier_of crdt disk_storage world "a" matrix members (("c", 4) ∷ [])) "a"
        ≤ count_at (("a", 2) ∷ ("b", 2) ∷ []) "a")
unfolding initiate_gc check_members collect_stable commit forget_nodes new_member_exists
    compute_stable_timestamp meet_members split_departed non_members meet_pending vv_meet
    meet_entries vv_leq row_of effective_map entry_max contains put extend get insert
initiate_gc-commits_example =
    initiate_gc-commits crdt disk_storage "a" world metadata_3 members members (("c", 4) ∷ [])
      matrix "b" "a" (("a", 2) ∷ ("b", 2) ∷ []) refl refl refl refl refl refl refl refl refl refl

-- "b" has claimed the next epoch
abbrev world_claimed : World Disk (OrSet ℕ)
world_claimed = record world {
  storage = record disk { intents = (4, record { epoch = 4; initiator = "b" }) ∷ [] };
}

initiate_gc-aborts_example :
    SameReplica world_claimed (initiate_gc crdt disk_storage "a" world_claimed).1
unfolding initiate_gc get
initiate_gc-aborts_example =
    initiate_gc-aborts crdt disk_storage "a" world_claimed concurrent_initiator refl

-- the storage fails at the second listing of the members
abbrev world_down : World Disk (OrSet ℕ)
world_down = record world { storage = record disk { listings = ok members ∷ err "down" ∷ [] } }

abbrev Held : ℕ → Disk → Type 0
Held n s = is_some (get s.intents n) ≡ true

abbrev EpochIs : ℕ → Disk → Type 0
EpochIs k s = s.metadata.epoch ≡ k

disk-HoldsIntents : HoldsIntents disk_storage Held
disk-HoldsIntents = record {
  claim_holds = λ n node s h. elim (Option-cases (get s.intents n)) [
    | inl free ↦ ground (arith, get-insert s.intents n n (record { epoch = n; initiator = node }))
    | inr taken ↦ ground arith
  ];
  claim_refused = λ n node s h h'. elim (Option-cases (get s.intents n)) [
    | inl free ↦ ground arith
    | inr taken ↦ ground arith
  ];
  members_keep = λ n s h. h;
  final_dots_keep = λ n s h. h;
  state_keeps = λ n st s h. h;
  metadata_keeps = λ n md s h. h;
}

disk-ReadsIntents : ReadsIntents disk_storage Held EpochIs
disk-ReadsIntents = record {
  reads_epoch = λ k s h. (s.metadata, refl, h);
  reads_intent = λ n s h. elim (Option-cases (get s.intents n)) [
    | inl free ↦ absurd (ground (arith, h, free))
    | inr (i, taken) ↦ (i, ap ok taken)
  ];
  metadata_keeps_epoch = λ k s h. h;
  metadata_keeps_intent = λ n s h. h;
  intent_keeps_epoch = λ k n s h. h;
  intent_keeps_intent = λ n s h. h;
}

initiate_gc-keeps_intent_example :
    Held 4 (initiate_gc crdt disk_storage "a" world_down).1.storage
    × ((other : NodeId)
        → (disk_storage.claim_gc_intent 4 other
            (initiate_gc crdt disk_storage "a" world_down).1.storage).0
          ≢ ok true)
unfolding initiate_gc check_members get
initiate_gc-keeps_intent_example =
    initiate_gc-keeps_intent crdt disk_storage Held disk-HoldsIntents "a" world_down metadata_3
      members "down" refl refl refl refl

-- "b" starts on the storage that "a" leaves
abbrev world_after : World Disk (OrSet ℕ)
world_after = record world { storage = (initiate_gc crdt disk_storage "a" world_down).1.storage }

new_replica_bootstrap-polls_example :
    (new_replica_bootstrap crdt disk_storage 7 "b" world_after).0 ≡ polls
unfolding initiate_gc check_members get insert
new_replica_bootstrap-polls_example =
    new_replica_bootstrap-polls crdt disk_storage Held EpochIs disk-ReadsIntents 7 "a" "b"
      world_down world_after metadata_3 members "down" disk-HoldsIntents refl refl refl refl refl
      refl

-- a replica that is one epoch behind
abbrev world_behind : World Disk (OrSet ℕ)
world_behind = record world { gc = record collector { epoch = 2 } }

observe_epoch_change_example :
    let w' = (observe_epoch_change crdt disk_storage "a" world_behind).1 in
    IsReady w'.gc
    × ((observe_epoch_change crdt disk_storage "a" world_behind).0 ≡ returns true)
    × (w'.gc.epoch ≡ 3)
    × (w'.crdt ≡ crdt.perform_gc set_a (frontier_dvv "a" (("a", 1) ∷ [])))
observe_epoch_change_example =
    observe_epoch_change_lem crdt disk_storage "a" world_behind metadata_3 refl refl

new_replica_bootstrap_example :
    ((new_replica_bootstrap crdt disk_storage 1 "a" world).0 ≡ returns tt)
    × ((new_replica_bootstrap crdt disk_storage 1 "a" world).1.crdt
        ≡ crdt.merge_delta set_a delta_a)
    × ((new_replica_bootstrap crdt disk_storage 1 "a" world).1.gc.epoch ≡ 3)
    × (effective_counter (new_replica_bootstrap crdt disk_storage 1 "a" world).1.dvv "b"
        ≡ max (effective_counter clock_a "b") (count_at (("b", 5) ∷ []) "b"))
unfolding get decode_delta proto_delta collect decode_elem_dot decode_pair
new_replica_bootstrap_example =
    new_replica_bootstrap_lem crdt disk_storage 0 "a" world metadata_3 state_3 delta_a "b" refl refl
      refl refl refl (refl, tt)

matrix-IsMatrix : IsMatrix matrix
unfolding get
matrix-IsMatrix p = elim (Bool-cases (string_eq.beq "b" p)) [
  | inl b ↦ ground arith
  | inr not_b ↦ elim (Bool-cases (string_eq.beq "c" p)) [
    | inl c ↦ ground arith
    | inr not_c ↦ ground arith
  ]
]

-- "c" has left no final dot and "b" has not heard of it: it is obsolete, though "a" knows four of
-- its events
undeparted_run :
    compute_stable_timestamp
      (some (("b", ("a", 2) ∷ []) ∷ ("c", ("c", 4) ∷ []) ∷ []))
      "a"
      members
      []
      (("a", 2) ∷ ("c", 4) ∷ [])
    ≡ (("a", 2) ∷ [], "c" ∷ [])
unfolding compute_stable_timestamp meet_members split_departed non_members meet_pending vv_meet
    meet_entries row_of contains put extend get insert
undeparted_run = refl
