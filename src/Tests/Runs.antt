-- ===== src/Tests/Runs.antt =====
-- Runs of the definitions on the example data.
use experimental_crdt.Base.{◌≡◌, refl, true, [], ◌∷◌, nat_eq, string_eq}
use experimental_crdt.Map.{get, insert}
use experimental_crdt.Map.Sets.{contains as has, put, extend, discard}
use experimental_crdt.Clock.{
  dot_eq, effective_map, effective_counter, entry_max, merge, merge_entry, merge_entries,
  delta_since, delta_context, partial_cmp, compare_nodes, is_concurrent_with, dominates_dot,
}
use experimental_crdt.Clock.VersionVector.{vv_leq, vv_lt, map_eqb}
use experimental_crdt.OrSet.{
  full_state, elements, merge_delta, merge_tombstones, merge_adds, drop_empty, evict, enter,
  dots_of, pairs_of, perform_gc,
}
use experimental_crdt.Tests.Data.{dot, clock_a, clock_b, set_a, set_b, delta_a, delta_b}

-- a vector merged into another moves the counters of the other nodes only
merge_run : merge clock_a clock_b ≡ record { dot = dot "a" 2; context = ("a", 1) ∷ ("b", 2) ∷ [] }
unfolding merge merge_entries merge_entry effective_map entry_max insert get
merge_run = refl

-- news of later events of the node itself moves its dot
own_news_run :
    merge clock_a (record { dot = dot "b" 2; context = ("a", 5) ∷ [] })
    ≡ record { dot = dot "a" 5; context = ("a", 4) ∷ ("b", 2) ∷ [] }
unfolding merge merge_entries merge_entry effective_map entry_max insert get
own_news_run = refl

concurrent_run : is_concurrent_with clock_a clock_b ≡ true
unfolding is_concurrent_with partial_cmp compare_nodes effective_map entry_max insert get extend put
    has
concurrent_run = refl

delta_run : delta_since clock_b (effective_map clock_a) ≡ record { dot = dot "b" 2; context = [] }
unfolding delta_since delta_context effective_map entry_max insert get
delta_run = refl

-- equal vectors with an entry that is zero on one side are taken for different ones
zero_entry_run : vv_lt (("a", 0) ∷ []) [] ≡ true
unfolding vv_lt vv_leq map_eqb get extend put has
zero_entry_run = refl

snapshot_run : full_state set_b clock_b ≡ delta_b
unfolding full_state pairs_of effective_map entry_max insert get
snapshot_run = refl

-- "a" merges what "b" has: 8 stays removed, 9 is new
merge_delta_run : elements (merge_delta set_a delta_b) ≡ 7 ∷ 9 ∷ []
unfolding elements merge_delta merge_tombstones merge_adds drop_empty enter dots_of put has insert
    get
merge_delta_run = refl

-- "b" merges what "a" has, which removes 8
removal_run : elements (merge_delta set_b delta_a) ≡ 9 ∷ 7 ∷ []
unfolding elements merge_delta merge_tombstones merge_adds drop_empty evict discard enter dots_of
    put has insert get
removal_run = refl

-- the tombstone is collected once the frontier reaches the removal
collect_run : (perform_gc set_a clock_a).tombstones ≡ []
unfolding perform_gc dominates_dot effective_counter get
collect_run = refl
