-- ===== src/Clock/VersionVector.antt =====
-- dot_version_vector.rs: the free functions on version vectors, `vv_join` to `vv_lt`.
use experimental_crdt.Base.{
  ◌≤◌, max, min, ◌≡◌, refl, ◌↔◌, inl, inr, Bool, true, false, not, ◌&&◌, none, some, List, [], ◌∷◌,
  arith, ltb, leb, nat_eqb, if◌then◌else◌, Bool-cases, Bool-ext, nat_eq, string_eq, length, all,
}
use experimental_crdt.Map.{get, insert, contains_key, IsMap}
use experimental_crdt.Map.Laws.{insert-IsMap}
use experimental_crdt.Map.Sets.{contains, all_of_contains, all_intro}
use experimental_crdt.Clock.{NodeId, CausalContext, count_at, entry_max, all_nodes}
use experimental_crdt.Clock.Nodes.{count_at-eq-zero, contains-all_nodes}
use experimental_crdt.Clock.Effective.{count_at-entry_max, count_at-insert, entry_max-IsMap}

-- the loop of `vv_join`
unfoldable pub join_entries : CausalContext → CausalContext → CausalContext
join_entries out [] = out
join_entries out ((k, v) ∷ entries) = join_entries (entry_max out k v) entries

unfoldable pub vv_join : CausalContext → CausalContext → CausalContext
vv_join a b = join_entries a b

-- one round of the loop of `vv_meet`
abbrev pub meet_entry : CausalContext → CausalContext → CausalContext → NodeId → CausalContext
meet_entry a b out k =
    let m = min (count_at a k) (count_at b k) in if ltb 0 m then insert out k m else out

-- the loop of `vv_meet`
unfoldable pub meet_entries :
    CausalContext → CausalContext → CausalContext → List NodeId → CausalContext
meet_entries a b out [] = out
meet_entries a b out (k ∷ ks) = meet_entries a b (meet_entry a b out k) ks

unfoldable pub vv_meet : CausalContext → CausalContext → CausalContext
vv_meet a b = meet_entries a b [] (all_nodes a b)

unfoldable pub vv_leq : CausalContext → CausalContext → Bool
vv_leq a b = all (λ k. leb (count_at a k) (count_at b k)) (all_nodes a b)

-- `a == b` on two `HashMap`s: as many entries, and each of the one in the other
unfoldable pub map_eqb : CausalContext → CausalContext → Bool
map_eqb a b =
    nat_eqb (length a) (length b)
    && all (λ e. elim (get b e.0) [ none ↦ false | some v ↦ nat_eqb e.1 v ]) a

unfoldable pub vv_lt : CausalContext → CausalContext → Bool
vv_lt a b = vv_leq a b && not (map_eqb a b)

-- A join takes the greater counter at every node.
pub count_at-vv_join :
    (a b : CausalContext) (n : NodeId)
    → IsMap b
    → count_at (vv_join a b) n ≡ max (count_at a n) (count_at b n)
unfolding vv_join join_entries get
count_at-vv_join a [] n h = omega arith
count_at-vv_join a ((k, v) ∷ b) n h = ground (
  arith,
  h.0,
  string_eq.beq_iff k n,
  count_at-vv_join (entry_max a k v) b n h.1,
  count_at-entry_max a k n v,
)

pub vv_join-IsMap : (a b : CausalContext) → IsMap a → IsMap (vv_join a b)
unfolding vv_join join_entries
vv_join-IsMap a [] h = h
vv_join-IsMap a ((k, v) ∷ b) h = vv_join-IsMap (entry_max a k v) b (entry_max-IsMap a k v h)

meet_entries-IsMap :
    (a b out : CausalContext) (ks : List NodeId) → IsMap out → IsMap (meet_entries a b out ks)
unfolding meet_entries
meet_entries-IsMap a b out [] h = h
meet_entries-IsMap a b out (k ∷ ks) h =
    meet_entries-IsMap a b (meet_entry a b out k) ks
      (ground (arith, insert-IsMap out k (min (count_at a k) (count_at b k)) h))

pub vv_meet-IsMap : (a b : CausalContext) → IsMap (vv_meet a b)
unfolding vv_meet
vv_meet-IsMap a b = meet_entries-IsMap a b [] (all_nodes a b) tt

count_at-meet_entries :
    (a b out : CausalContext) (ks : List NodeId) (n : NodeId)
    → count_at (meet_entries a b out ks) n ≡ (
        if contains ks n && ltb 0 (min (count_at a n) (count_at b n))
        then min (count_at a n) (count_at b n)
        else count_at out n)
unfolding meet_entries contains
count_at-meet_entries a b out [] n = refl
count_at-meet_entries a b out (k ∷ ks) n = ground (
  arith,
  string_eq.beq_iff k n,
  count_at-insert out k n (min (count_at a k) (count_at b k)),
  count_at-meet_entries a b (meet_entry a b out k) ks n,
)

-- A meet takes the smaller counter at every node.
pub count_at-vv_meet :
    (a b : CausalContext) (n : NodeId)
    → count_at (vv_meet a b) n ≡ min (count_at a n) (count_at b n)
unfolding vv_meet get
count_at-vv_meet a b n = ground (
  arith,
  count_at-meet_entries a b [] (all_nodes a b) n,
  contains-all_nodes a b n,
  count_at-eq-zero a n,
)

le_of_vv_leq :
    (a b : CausalContext) (n : NodeId)
    → all (λ k. leb (count_at a k) (count_at b k)) (all_nodes a b) ≡ true
    → count_at a n ≤ count_at b n
le_of_vv_leq a b n h = elim (Bool-cases (contains_key a n)) [
  | inl known ↦
      let r = all_of_contains (λ k. leb (count_at a k) (count_at b k)) (all_nodes a b) n in
      ground (arith, contains-all_nodes a b n, r)
  | inr absent ↦ ground (arith, count_at-eq-zero a n)
]

-- `vv_leq` decides the pointwise order.
pub vv_leq_iff :
    (a b : CausalContext) → (vv_leq a b ≡ true) ↔ ((n : NodeId) → count_at a n ≤ count_at b n)
unfolding vv_leq
vv_leq_iff a b = (
  λ h n. le_of_vv_leq a b n h,
  λ h.
      all_intro (λ k. leb (count_at a k) (count_at b k)) (all_nodes a b) (λ n. ground (arith, h n)),
)

-- The meet is the greatest vector below both: a vector is below the meet exactly when it is below
-- each of the two.
pub vv_leq-vv_meet : (c a b : CausalContext) → vv_leq c (vv_meet a b) ≡ (vv_leq c a && vv_leq c b)
vv_leq-vv_meet c a b =
    Bool-ext _ _
      (λ h.
        let below = (vv_leq_iff c (vv_meet a b)).0 h in
        let left = (vv_leq_iff c a).1 (λ n. omega (arith, below n, count_at-vv_meet a b n)) in
        let right = (vv_leq_iff c b).1 (λ n. omega (arith, below n, count_at-vv_meet a b n)) in
        rw (left, right))
      (λ h.
        let left = (vv_leq_iff c a).0 (ground arith) in
        let right = (vv_leq_iff c b).0 (ground arith) in
        (vv_leq_iff c (vv_meet a b)).1
          (λ n. omega (arith, left n, right n, count_at-vv_meet a b n)))

-- The join is the least vector above both: a vector is above the join exactly when it is above
-- each of the two.
pub vv_leq-vv_join :
    (a b c : CausalContext) → IsMap b → vv_leq (vv_join a b) c ≡ (vv_leq a c && vv_leq b c)
vv_leq-vv_join a b c m =
    Bool-ext _ _
      (λ h.
        let above = (vv_leq_iff (vv_join a b) c).0 h in
        let left = (vv_leq_iff a c).1 (λ n. omega (arith, above n, count_at-vv_join a b n m)) in
        let right = (vv_leq_iff b c).1 (λ n. omega (arith, above n, count_at-vv_join a b n m)) in
        rw (left, right))
      (λ h.
        let left = (vv_leq_iff a c).0 (ground arith) in
        let right = (vv_leq_iff b c).0 (ground arith) in
        (vv_leq_iff (vv_join a b) c).1
          (λ n. omega (arith, left n, right n, count_at-vv_join a b n m)))
