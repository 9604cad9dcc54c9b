-- ===== src/Tests/Sets.antt =====
-- The theorems on the observed-remove set, where "a" has removed what "b" had added.
use experimental_crdt.Base.{
  ℕ, ◌≡◌, refl, true, false, not, ◌&&◌, ◌||◌, some, [], ◌∷◌, arith, nat_eq, string_eq,
}
use experimental_crdt.Map.{get, insert, contains_key}
use experimental_crdt.Map.Sets.{contains as has}
use experimental_crdt.Clock.{NodeId, Dot, dot_eq, effective_map, entry_max, dominates_dot}
use experimental_crdt.OrSet.{
  OrSet, OrSetDelta, OrSetOp, add, remove, full_state, delta_since, contains, merge_delta,
  perform_gc, apply_local, is_empty, dots_of, any_live,
}
use experimental_crdt.OrSet
use experimental_crdt.OrSet.View.{tombed, has_add, live, has_pair}
use experimental_crdt.OrSet.Merge.{IsValid, live-merge_delta}
use experimental_crdt.OrSet.Sync.{Reflects, contains-merge_comm}
use experimental_crdt.OrSet.Delivery.{In, here, there, merge_all, contains-merge_all, IsDisjoint}
use experimental_crdt.OrSet.Local.{IsFresh, add_wins, remove_spreads}
use experimental_crdt.OrSet.Gc.{contains-merge-perform_gc}
use experimental_crdt.Tests.Data.{dot, clock_a, clock_b, set_a, set_b, delta_a, delta_b}

pub set_a-IsValid : IsValid set_a
unfolding get
set_a-IsValid = record { adds_map = (refl, tt); tombstones_map = (refl, tt) }

pub set_b-IsValid : IsValid set_b
unfolding get
set_b-IsValid = record { adds_map = (refl, (refl, tt)); tombstones_map = tt }

pub b_of_a : (n : NodeId) → string_eq.beq "a" n ≡ true → string_eq.beq "b" n ≡ false
b_of_a n h = rw (← (string_eq.beq_iff "a" n).0 h)

set_a-IsDisjoint : IsDisjoint set_a
unfolding get dots_of has
set_a-IsDisjoint k d h = ground (arith, b_of_a d.node_id)

contains-merge_comm_example :
    contains (merge_delta set_a (full_state set_b clock_b)) 8
    ≡ contains (merge_delta set_b (full_state set_a clock_a)) 8
contains-merge_comm_example =
    contains-merge_comm set_a set_b clock_b clock_a 8 set_a-IsValid set_b-IsValid

live-merge_delta_example : live (merge_delta set_a delta_b) 9 (dot "b" 2) ≡ (
    (has_add set_a 9 (dot "b" 2) || has_pair delta_b.adds 9 (dot "b" 2))
    && not (tombed set_a (dot "b" 2) || contains_key delta_b.tombstones (dot "b" 2)))
live-merge_delta_example = live-merge_delta set_a delta_b 9 (dot "b" 2) set_a-IsValid

new-IsValid : IsValid (OrSet.new {E = ℕ})
unfolding OrSet.new
new-IsValid = record { adds_map = tt; tombstones_map = tt }

again-In :
    (δ : OrSetDelta ℕ) → In δ (delta_a ∷ delta_b ∷ []) → In δ (delta_b ∷ delta_a ∷ delta_b ∷ [])
again-In δ i = there i

once-In :
    (δ : OrSetDelta ℕ) → In δ (delta_b ∷ delta_a ∷ delta_b ∷ []) → In δ (delta_a ∷ delta_b ∷ [])
once-In δ (here same) = there (here same)
once-In δ (there i) = i

contains-merge_all_example :
    contains (merge_all OrSet.new (delta_a ∷ delta_b ∷ [])) 8
    ≡ contains (merge_all OrSet.new (delta_b ∷ delta_a ∷ delta_b ∷ [])) 8
contains-merge_all_example =
    contains-merge_all OrSet.new (delta_a ∷ delta_b ∷ []) (delta_b ∷ delta_a ∷ delta_b ∷ []) 8
      new-IsValid again-In once-In

dot_a3-IsFresh : IsFresh set_b (dot "a" 3)
unfolding get dots_of has
dot_a3-IsFresh = (λ k. ground arith, refl)

add_wins_example :
    contains
      (merge_delta
        (apply_local set_b (dot "b" 3) (remove 9))
        (full_state (apply_local set_a (dot "a" 3) (add 9)) clock_a))
      9
    ≡ true
unfolding get
add_wins_example =
    add_wins set_b set_a (dot "b" 3) (dot "a" 3) 9 clock_a set_b-IsValid set_a-IsValid
      dot_a3-IsFresh refl

observed_9 : (d : Dot) → live set_b 9 d ≡ true → (has_add set_b 9 d || tombed set_b d) ≡ true
observed_9 d l = ground arith

remove_spreads_example :
    contains (merge_delta set_b (full_state (apply_local set_b (dot "c" 1) (remove 9)) clock_b)) 9
    ≡ false
remove_spreads_example =
    remove_spreads set_b set_b (dot "c" 1) 9 clock_b set_b-IsValid set_b-IsValid observed_9

pub set_a-Reflects : Reflects set_a set_b (effective_map clock_a)
unfolding effective_map entry_max insert get dots_of has
set_a-Reflects = record {
  adds = λ k d h old. ground (arith, b_of_a d.node_id);
  removals = λ d x h old. ground arith;
}

abbrev news_of_b : OrSetDelta ℕ
news_of_b = record {
  adds = (9, dot "b" 2) ∷ [];
  tombstones = [];
  context = ("b", 2) ∷ ("a", 1) ∷ [];
  dot_node = "b";
  dot_counter = 2;
}

not_collected :
    (d x : Dot)
    → get set_a.tombstones d ≡ some x
    → dominates_dot clock_a x ≡ true
    → has_pair news_of_b.adds 9 d ≡ false
unfolding get
not_collected d x h c = ground (arith, string_eq.beq_iff "b" d.node_id)

contains-merge-perform_gc_example :
    contains (merge_delta (perform_gc set_a clock_a) news_of_b) 9
    ≡ contains (merge_delta set_a news_of_b) 9
contains-merge-perform_gc_example =
    contains-merge-perform_gc set_a clock_a news_of_b 9 set_a-IsValid set_a-IsDisjoint not_collected
