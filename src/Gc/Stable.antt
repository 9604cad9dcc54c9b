-- ===== src/Gc/Stable.antt =====
-- coordinator.rs: `compute_stable_timestamp`. The vector `v_merge`, which the loop computes and
-- nothing reads, is left out.
pub mod Safety
use experimental_crdt.Base.{
  ℕ, zero, suc, ◌+◌, ◌-◌, ◌*◌, ◌/◌, ◌%◌, ◌^◌, ◌≤◌, ◌<◌, max, min, String, ◌≡◌, refl, sym, ap, ◌∙◌,
  ◌≢◌, ◌↔◌, ◌⊎◌, inl, inr, Bool, true, false, not, ◌&&◌, ◌||◌, Option, none, some, List, [], ◌∷◌,
  ◌++◌, map, arith, ltb, leb, nat_eqb, nat_eqb_iff, if◌then◌else◌, Bool-cases, Option-cases,
  Bool-ext, Eq, ◌==◌, nat_eq, string_eq, beq_refl, length, any, all, retain, Result, ok, err, ok_or,
  is_ok, collect, Result-cases,
}
use experimental_crdt.Map.{HashMap, get, keys}
use experimental_crdt.Map.Sets.{HashSet, contains, extend, put}
use experimental_crdt.Clock.{NodeId, Counter, CausalContext, count_at}
use experimental_crdt.Clock.VersionVector.{vv_meet, count_at-vv_meet}
use experimental_crdt.Dissemination.{MatrixClock}

-- the clock of a member: the replica's own, or its row of the matrix
unfoldable pub row_of : MatrixClock → NodeId → CausalContext → NodeId → Option CausalContext
row_of mc node_id self_clock p = if p == node_id then some self_clock else get mc p

-- `match v_live.take()`
abbrev pub meet_with : Option CausalContext → CausalContext → CausalContext
meet_with none ctx = ctx
meet_with (some acc) ctx = vv_meet acc ctx

-- The loop over the members; `none` is the early return for a member with no row.
unfoldable pub meet_members :
    MatrixClock
    → NodeId
    → CausalContext
    → Option CausalContext
    → List NodeId
    → Option (Option CausalContext)
meet_members mc node_id self_clock v_live [] = some v_live
meet_members mc node_id self_clock v_live (p ∷ members) = elim (row_of mc node_id self_clock p) [
  | none ↦ none
  | some ctx ↦ meet_members mc node_id self_clock (some (meet_with v_live ctx)) members
]

-- `a == b` on two `Option<&u64>`
abbrev pub counter_eqb : Option Counter → Option Counter → Bool
counter_eqb none none = true
counter_eqb (some a) (some b) = nat_eqb a b
counter_eqb _ _ = false

-- the nodes of the matrix and of the vector that are no members
unfoldable pub non_members : MatrixClock → CausalContext → List NodeId → HashSet NodeId
non_members mc v_live members =
    extend [] (retain (λ p. not (contains (extend [] members) p)) (keys mc ++ keys v_live))

-- `final_dots.get(p) == v_live.get(p)`: everything that the node ever did is stable
abbrev pub is_obsolete : HashMap NodeId Counter → CausalContext → NodeId → Bool
is_obsolete final_dots v_live p = counter_eqb (get final_dots p) (get v_live p)

-- the loop over the pending nodes
unfoldable pub meet_pending : MatrixClock → CausalContext → List NodeId → CausalContext
meet_pending mc v_live [] = v_live
meet_pending mc v_live (p ∷ pending) =
    meet_pending mc (elim (get mc p) [ none ↦ v_live | some ctx ↦ vv_meet v_live ctx ]) pending

-- `v_live.unwrap_or_default()`
abbrev pub or_default : Option CausalContext → CausalContext
or_default none = []
or_default (some v) = v

-- the part of the body behind the loop over the members
unfoldable pub split_departed :
    MatrixClock
    → HashMap NodeId Counter
    → List NodeId
    → CausalContext
    → CausalContext × HashSet NodeId
split_departed mc final_dots members v_live =
    let departed = non_members mc v_live members in
    (
      meet_pending mc v_live (retain (λ p. not (is_obsolete final_dots v_live p)) departed),
      retain (is_obsolete final_dots v_live) departed,
    )

-- the stable vector, and the departed nodes that it covers
unfoldable pub compute_stable_timestamp :
    Option MatrixClock
    → NodeId
    → List NodeId
    → HashMap NodeId Counter
    → CausalContext
    → CausalContext × HashSet NodeId
compute_stable_timestamp none node_id members final_dots self_clock = ([], [])
compute_stable_timestamp (some mc) node_id members final_dots self_clock =
    elim (meet_members mc node_id self_clock none members) [
      | none ↦ ([], [])
      | some v_live ↦ split_departed mc final_dots members (or_default v_live)
    ]

pub meet_pending-le :
    (mc : MatrixClock) (v : CausalContext) (pending : List NodeId) (n : NodeId)
    → count_at (meet_pending mc v pending) n ≤ count_at v n
unfolding meet_pending
meet_pending-le mc v [] n = omega arith
meet_pending-le mc v (p ∷ pending) n = elim (Option-cases (get mc p)) [
  | inl miss ↦ rw miss (meet_pending-le mc v pending n)
  | inr (ctx, hit) ↦
      rw hit (omega (arith, meet_pending-le mc (vv_meet v ctx) pending n, count_at-vv_meet v ctx n))
]

meet_members-le_acc :
    (mc : MatrixClock) (own : NodeId) (clock acc : CausalContext) (members : List NodeId)
    (n : NodeId) (v : Option CausalContext)
    → meet_members mc own clock (some acc) members ≡ some v
    → count_at (or_default v) n ≤ count_at acc n
unfolding meet_members
meet_members-le_acc mc own clock acc [] n v h = ground arith
meet_members-le_acc mc own clock acc (p ∷ members) n v h =
    elim (Option-cases (row_of mc own clock p)) [
      | inl miss ↦ ground arith
      | inr (ctx, hit) ↦ ground (
        arith,
        count_at-vv_meet acc ctx n,
        meet_members-le_acc mc own clock (vv_meet acc ctx) members n v,
      )
    ]

pub meet_members-le_row :
    (mc : MatrixClock) (own : NodeId) (clock : CausalContext) (acc : Option CausalContext)
    (members : List NodeId) (p n : NodeId) (row : CausalContext) (v : Option CausalContext)
    → meet_members mc own clock acc members ≡ some v
    → contains members p ≡ true
    → row_of mc own clock p ≡ some row
    → count_at (or_default v) n ≤ count_at row n
unfolding meet_members contains
meet_members-le_row mc own clock acc [] p n row v h m r = absurd (ground arith)
meet_members-le_row mc own clock acc (q ∷ members) p n row v h m r =
    elim (Option-cases (row_of mc own clock q)) [
      | inl miss ↦ ground arith
      | inr (ctx, hit) ↦ elim (Option-cases acc) [
        | inl first ↦ ground (
          arith,
          string_eq.beq_iff q p,
          meet_members-le_acc mc own clock ctx members n v,
          meet_members-le_row mc own clock (some ctx) members p n row v,
        )
        | inr (a, later) ↦ ground (
          arith,
          string_eq.beq_iff q p,
          count_at-vv_meet a ctx n,
          meet_members-le_acc mc own clock (vv_meet a ctx) members n v,
          meet_members-le_row mc own clock (some (vv_meet a ctx)) members p n row v,
        )
      ]
    ]
