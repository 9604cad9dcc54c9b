-- ===== src/Clock/Nodes.antt =====
-- The nodes of two maps taken together, over which the comparisons of vectors run.
use experimental_crdt.Base.{◌≡◌, false, ◌||◌, [], ◌++◌, arith, nat_eq, string_eq}
use experimental_crdt.Map.{keys, contains_key}
use experimental_crdt.Map.Laws.{contains-keys}
use experimental_crdt.Map.Sets.{contains, contains-append, contains-extend}
use experimental_crdt.Clock.{NodeId, CausalContext, count_at, all_nodes}

pub count_at-eq-zero :
    (m : CausalContext) (k : NodeId) → contains_key m k ≡ false → count_at m k ≡ 0
count_at-eq-zero m k h = ground arith

pub contains-all_nodes :
    (a b : CausalContext) (k : NodeId)
    → contains (all_nodes a b) k ≡ (contains_key a k || contains_key b k)
unfolding contains
contains-all_nodes a b k = ground (
  arith,
  contains-extend [] (keys a ++ keys b) k,
  contains-append (keys a) (keys b) k,
  contains-keys a k,
  contains-keys b k,
)
