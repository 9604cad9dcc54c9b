-- ===== src/Gc/Initiate/Commit.antt =====
-- coordinator.rs: what an `initiate_gc` that commits has done.
use experimental_crdt.Base.{
  ℕ, ◌≤◌, ◌≡◌, refl, inl, inr, true, false, Option, none, some, List, [], ◌∷◌, arith, Option-cases,
  nat_eq, string_eq, ok,
}
use experimental_crdt.Map.{HashMap, remove as erase}
use experimental_crdt.Map.Laws.{get-remove}
use experimental_crdt.Map.Sets.{contains}
use experimental_crdt.Clock.{NodeId, CausalContext, count_at, effective_map, frontier_dvv, forget}
use experimental_crdt.Crdt.{DeltaCrdt}
use experimental_crdt.Gc.{
  GcStorage, EpochMetadata, new_member_exists, remove_matrix_clock_row, remove_matrix_clock_column,
}
use experimental_crdt.Gc.Exec.{World, Outcome, returns, fails, panics, polls}
use experimental_crdt.Gc.Stable.{compute_stable_timestamp, row_of}
use experimental_crdt.Gc.Stable.Safety.{stable-le-member}
use experimental_crdt.Gc.Initiate.{
  GcInitiationAbortReason, next_epoch, forget_nodes, commit, abort, collect_stable, check_members,
  initiate_gc,
}
use experimental_crdt.Dissemination.{MatrixClock}

-- the vector without the nodes
abbrev pub erase_all : CausalContext → List NodeId → CausalContext
erase_all v [] = v
erase_all v (p ∷ ps) = erase_all (erase v p) ps

erase_all-le :
    (v : CausalContext) (ps : List NodeId) (n : NodeId) → count_at (erase_all v ps) n ≤ count_at v n
erase_all-le v [] n = omega arith
erase_all-le v (p ∷ ps) n = ground (arith, erase_all-le (erase v p) ps n, get-remove v p n)

module _ {S C Op Delta : Type 0} (crdt : DeltaCrdt C Op Delta) (store : GcStorage S) where
  -- Forgetting nodes leaves the set alone, and what it returns is the vector without them.
  forget_nodes-returns :
      (v : CausalContext) (ps : List NodeId) (w : World S C) (v' : CausalContext)
      → (forget_nodes crdt store v ps w).0 ≡ returns v'
      → (v' ≡ erase_all v ps) × ((forget_nodes crdt store v ps w).1.crdt ≡ w.crdt)
  unfolding forget_nodes
  forget_nodes-returns v [] w v' h = ground arith
  forget_nodes-returns v (p ∷ ps) w v' h = elim (Option-cases (remove_matrix_clock_row w.gc p)) [
    | inl panic ↦ ground arith
    | inr (g, row) ↦ elim (Option-cases (remove_matrix_clock_column g p)) [
      | inl panic ↦ ground arith
      | inr (g', column) ↦
          let w' = record w { gc = g'; dvv = forget w.dvv p } in
          ground (arith, forget_nodes-returns (erase v p) ps w' v')
    ]
  ]

  commit-returns :
      (node : NodeId) (n : ℕ) (v : CausalContext) (ps : List NodeId) (w : World S C)
      (r : Option GcInitiationAbortReason)
      → (commit crdt store node n v ps w).0 ≡ returns r
      → ((commit crdt store node n v ps w).1.crdt
          ≡ crdt.perform_gc w.crdt (frontier_dvv node (erase_all v ps)))
        × ((commit crdt store node n v ps w).1.gc.epoch ≡ n)
  unfolding commit
  commit-returns node n v ps w r h = forgotten (forget_nodes crdt store v ps w).0 refl
    where
      forgotten :
          (o : Outcome CausalContext)
          → (forget_nodes crdt store v ps w).0 ≡ o
          → ((commit crdt store node n v ps w).1.crdt
              ≡ crdt.perform_gc w.crdt (frontier_dvv node (erase_all v ps)))
            × ((commit crdt store node n v ps w).1.gc.epoch ≡ n)
      forgotten (returns v') e = ground (arith, forget_nodes-returns v ps w v' e)
      forgotten (fails x) e = ground arith
      forgotten panics e = ground arith
      forgotten polls e = ground arith

  -- the storage as the calls of `initiate_gc` find it, one after the other
  abbrev pub after_read : World S C → S
  after_read w = (store.read_epoch_metadata w.storage).1

  abbrev pub after_listing : World S C → S
  after_listing w = (store.live_members (after_read w)).1

  abbrev pub after_claim : World S C → NodeId → ℕ → S
  after_claim w node n = (store.claim_gc_intent n node (after_listing w)).1

  abbrev pub after_relisting : World S C → NodeId → ℕ → S
  after_relisting w node n = (store.live_members (after_claim w node n)).1

  -- the vector by which a run collects: the stable vector without the obsolete nodes
  abbrev pub frontier_of :
      World S C → NodeId → MatrixClock → List NodeId → HashMap NodeId ℕ → CausalContext
  frontier_of w node mc members dots =
      let stable = compute_stable_timestamp (some mc) node members dots (effective_map w.dvv) in
      erase_all stable.0 stable.1

  -- An initiation that finds its records, claims the intent, sees no new member and commits has
  -- collected the set by the stable vector without the obsolete nodes and stands at the next
  -- epoch, and that vector counts of every node no more events than the clock of any member does.
  pub initiate_gc-commits :
      (node : NodeId) (w : World S C) (md : EpochMetadata) (m0 m1 : List NodeId)
      (dots : HashMap NodeId ℕ) (mc : MatrixClock) (p k : NodeId) (row : CausalContext)
      → (store.read_epoch_metadata w.storage).0 ≡ ok md
      → (store.live_members (after_read w)).0 ≡ ok m0
      → (store.claim_gc_intent (next_epoch md.epoch) node (after_listing w)).0 ≡ ok true
      → (store.live_members (after_claim w node (next_epoch md.epoch))).0 ≡ ok m1
      → (store.read_final_dots (after_relisting w node (next_epoch md.epoch))).0 ≡ ok dots
      → new_member_exists m0 m1 ≡ false
      → w.gc.matrix_clock ≡ some mc
      → (initiate_gc crdt store node w).0 ≡ returns none
      → contains m1 p ≡ true
      → row_of mc node (effective_map w.dvv) p ≡ some row
      → ((initiate_gc crdt store node w).1.crdt
          ≡ crdt.perform_gc w.crdt (frontier_dvv node (frontier_of w node mc m1 dots)))
        × ((initiate_gc crdt store node w).1.gc.epoch ≡ next_epoch md.epoch)
        × (count_at (frontier_of w node mc m1 dots) k ≤ count_at row k)
  unfolding initiate_gc check_members collect_stable abort
  initiate_gc-commits node w md m0 m1 dots mc p k row h₁ h₂ h₃ h₄ h₅ old matrix done member known =
      let n = next_epoch md.epoch in
      let s = (store.read_final_dots (after_relisting w node n)).1 in
      let clock = effective_map w.dvv in
      let stable = compute_stable_timestamp (some mc) node m1 dots clock in
      let facts = commit-returns node n stable.0 stable.1 (record w { storage = s }) none in
      (
        ground (arith, facts),
        ground (arith, facts),
        omega (
          arith,
          erase_all-le stable.0 stable.1 k,
          stable-le-member mc node m1 dots clock p k row member known,
        ),
      )
