-- ===== src/Gc/Stable/Safety.antt =====
-- coordinator.rs: what makes the stable vector safe to collect by.
use experimental_crdt.Base.{
  ◌≤◌, ◌≡◌, refl, inl, inr, true, false, not, Option, none, some, List, [], ◌∷◌, ◌++◌, arith,
  nat_eqb_iff, Bool-cases, Option-cases, ◌==◌, nat_eq, string_eq, retain,
}
use experimental_crdt.Map.{HashMap, get, keys}
use experimental_crdt.Map.Sets.{contains, contains-retain, contains-extend, extend}
use experimental_crdt.Clock.{NodeId, Counter, CausalContext, count_at}
use experimental_crdt.Clock.VersionVector.{vv_meet, count_at-vv_meet}
use experimental_crdt.Dissemination.{MatrixClock}
use experimental_crdt.Gc.Stable.{
  row_of, meet_members, counter_eqb, non_members, is_obsolete, meet_pending, or_default,
  split_departed, compute_stable_timestamp, meet_pending-le, meet_members-le_row,
}

-- Of every node, the stable vector counts no more events than the clock of any member does; a
-- member's clock is the replica's own for itself and the row of the matrix for another.
pub stable-le-member :
    (mc : MatrixClock) (own : NodeId) (members : List NodeId) (dots : HashMap NodeId Counter)
    (clock : CausalContext) (p n : NodeId) (row : CausalContext)
    → contains members p ≡ true
    → row_of mc own clock p ≡ some row
    → count_at (compute_stable_timestamp (some mc) own members dots clock).0 n ≤ count_at row n
unfolding compute_stable_timestamp split_departed get
stable-le-member mc own members dots clock p n row m r =
    elim (Option-cases (meet_members mc own clock none members)) [
      | inl early ↦ ground arith
      | inr (v, done) ↦
          let live = or_default v in
          let pending = retain (λ q. not (is_obsolete dots live q)) (non_members mc live members) in
          ground (
            arith,
            meet_pending-le mc live pending n,
            meet_members-le_row mc own clock none members p n row v,
          )
    ]

meet_members-none :
    (mc : MatrixClock) (own : NodeId) (clock : CausalContext) (acc : Option CausalContext)
    (members : List NodeId) (p : NodeId)
    → contains members p ≡ true
    → row_of mc own clock p ≡ none
    → meet_members mc own clock acc members ≡ none
unfolding meet_members contains
meet_members-none mc own clock acc [] p m r = ground arith
meet_members-none mc own clock acc (q ∷ members) p m r =
    elim (Option-cases (row_of mc own clock q)) [
      | inl miss ↦ ground arith
      | inr (ctx, hit) ↦ elim (Option-cases acc) [
        | inl first ↦
            ground
              (arith, string_eq.beq_iff q p, meet_members-none mc own clock (some ctx) members p)
        | inr (a, later) ↦ ground (
          arith,
          string_eq.beq_iff q p,
          meet_members-none mc own clock (some (vv_meet a ctx)) members p,
        )
      ]
    ]

-- While a member has no row in the matrix nothing is stable and no node is obsolete.
pub stable-none :
    (mc : MatrixClock) (own : NodeId) (members : List NodeId) (dots : HashMap NodeId Counter)
    (clock : CausalContext) (p : NodeId)
    → contains members p ≡ true
    → row_of mc own clock p ≡ none
    → compute_stable_timestamp (some mc) own members dots clock ≡ ([], [])
unfolding compute_stable_timestamp
stable-none mc own members dots clock p m r =
    rw (meet_members-none mc own clock none members p m r, compute_stable_timestamp)

count_of_counter_eqb :
    (a b : Option Counter) (dots v : CausalContext) (p : NodeId)
    → get dots p ≡ a
    → get v p ≡ b
    → counter_eqb a b ≡ true
    → count_at dots p ≡ count_at v p
count_of_counter_eqb none none dots v p f g h = rw (f, g)
count_of_counter_eqb (some a) (some b) dots v p f g h = ground (arith, nat_eqb_iff a b)
count_of_counter_eqb none (some b) dots v p f g h = ground arith
count_of_counter_eqb (some a) none dots v p f g h = ground arith

-- A node that is called obsolete is no member, and every member whose clock is known has seen as
-- many of its events as its final dot counts, none if it has no final dot.
pub obsolete-le-member :
    (mc : MatrixClock) (own : NodeId) (members : List NodeId) (dots : HashMap NodeId Counter)
    (clock : CausalContext) (q p : NodeId) (row : CausalContext)
    → contains (compute_stable_timestamp (some mc) own members dots clock).1 q ≡ true
    → contains members p ≡ true
    → row_of mc own clock p ≡ some row
    → (contains members q ≡ false) × (count_at dots q ≤ count_at row q)
unfolding compute_stable_timestamp split_departed non_members contains
obsolete-le-member mc own members dots clock q p row o m r =
    elim (Option-cases (meet_members mc own clock none members)) [
      | inl early ↦ absurd (ground arith)
      | inr (v, done) ↦
          let live = or_default v in
          let outside = λ (x : NodeId). not (contains (extend [] members) x) in
          let departed = extend [] (retain outside (keys mc ++ keys live)) in
          let facts = meet_members-le_row mc own clock none members p q row v done m r in
          let same = count_of_counter_eqb (get dots q) (get live q) dots live q refl refl in
          (
            ground (
              arith,
              contains-retain (is_obsolete dots live) departed q,
              contains-extend [] (retain outside (keys mc ++ keys live)) q,
              contains-retain outside (keys mc ++ keys live) q,
              contains-extend [] members q,
            ),
            ground (arith, contains-retain (is_obsolete dots live) departed q, same, facts),
          )
    ]

-- The stable vector is below the row of every departed node that is not obsolete yet: its matrix
-- row holds the vector back.
pub meet_pending-le_row :
    (mc : MatrixClock) (v : CausalContext) (pending : List NodeId) (p n : NodeId)
    (row : CausalContext)
    → contains pending p ≡ true
    → get mc p ≡ some row
    → count_at (meet_pending mc v pending) n ≤ count_at row n
unfolding meet_pending contains
meet_pending-le_row mc v [] p n row m r = absurd (ground arith)
meet_pending-le_row mc v (q ∷ pending) p n row m r = elim (Bool-cases (q == p)) [
  | inl same ↦
      let e : q ≡ p = (string_eq.beq_iff q p).0 same in
      ground (arith, meet_pending-le mc (vv_meet v row) pending n, count_at-vv_meet v row n)
  | inr other ↦ elim (Option-cases (get mc q)) [
    | inl miss ↦ ground (arith, meet_pending-le_row mc v pending p n row)
    | inr (ctx, hit) ↦ ground (arith, meet_pending-le_row mc (vv_meet v ctx) pending p n row)
  ]
]
