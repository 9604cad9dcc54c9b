-- ===== src/Engine/Clock.antt =====
-- crdt_engine.rs: the dots of an engine with an observed-remove set.
use experimental_crdt.Base.{
  ◌+◌, ◌^◌, ◌≤◌, ◌<◌, ◌≡◌, inl, inr, true, false, ◌||◌, arith, Bool-cases, Eq, ◌==◌, nat_eq,
  string_eq,
}
use experimental_crdt.Map.{IsMap}
use experimental_crdt.Clock.{Dot, dot_eq, DotVersionVector, effective_counter, event, merge}
use experimental_crdt.Clock.Effective.{IsValid, effective_counter-event}
use experimental_crdt.Clock.Merge.{effective_counter-merge}
use experimental_crdt.Proto.{Message, ProtoOrSetDelta}
use experimental_crdt.Crdt.{or_set}
use experimental_crdt.OrSet.{
  OrSet, OrSetOp, add, remove, apply_local, merge_delta, full_state, contains,
}
use experimental_crdt.OrSet.View.{tombed, has_add}
use experimental_crdt.OrSet.Codec.{ElementCodec}
use experimental_crdt.OrSet.Merge
use experimental_crdt.OrSet.Merge.{has_add-merge_delta, tombed-merge_delta}
use experimental_crdt.OrSet.Sync.{has_pair-full_state, tombstones-full_state}
use experimental_crdt.OrSet.Local.{
  IsFresh, has_add-add, tombed-add, has_add-remove, tombed-remove, contains-add,
}
use experimental_crdt.Dissemination.{DisseminationStrategy}
use experimental_crdt.Gc.{GcStorage}
use experimental_crdt.Engine.{CrdtEngine, client_operation}

-- the counter of a dot is one that the vector knows of
abbrev pub IsKnown : DotVersionVector → Dot → Type 0
IsKnown d x = x.counter ≤ effective_counter d x.node_id

-- The vector knows of every dot of the set, live or removed.
pub record Covers {E : Type 0} ⦃e : Eq E⦄ (d : DotVersionVector) (s : OrSet E) : Type 0 where
  pub adds : (k : E) (x : Dot) → has_add s k x ≡ true → IsKnown d x
  pub removals : (x : Dot) → tombed s x ≡ true → IsKnown d x

effective_counter-own :
    (d : DotVersionVector) → IsValid d → effective_counter d d.dot.node_id ≡ d.dot.counter
unfolding effective_counter
effective_counter-own d h = ground (arith, h.outside, string_eq.beq_iff d.dot.node_id d.dot.node_id)

event-past :
    (d : DotVersionVector) (x : Dot)
    → d.dot.counter + 1 < 2 ^ 64
    → IsValid d
    → IsKnown d x
    → (dot_eq.beq x (event d).dot) ≡ false
unfolding event
event-past d x room h c =
    ground (arith, effective_counter-own d h, string_eq.beq_iff x.node_id d.dot.node_id)

event-IsKnown :
    (d : DotVersionVector) (x : Dot)
    → d.dot.counter + 1 < 2 ^ 64
    → IsValid d
    → IsKnown d x
    → IsKnown (event d) x
event-IsKnown d x room h c = ground (arith, effective_counter-event d x.node_id room h)

event_own-IsKnown :
    (d : DotVersionVector)
    → d.dot.counter + 1 < 2 ^ 64
    → IsValid d
    → IsKnown (event d) (event d).dot
unfolding event
event_own-IsKnown d room h = ground (
  arith,
  effective_counter-own d h,
  effective_counter-event d d.dot.node_id room h,
  string_eq.beq_iff d.dot.node_id d.dot.node_id,
)

module _ {E : Type 0} ⦃e : Eq E⦄ where
  -- After an event, its dot is fresh in a set that the vector covers.
  pub event-IsFresh :
      (d : DotVersionVector) (s : OrSet E)
      → d.dot.counter + 1 < 2 ^ 64
      → IsValid d
      → Covers d s
      → IsFresh s (event d).dot
  event-IsFresh d s room h c = (
    λ k. elim (Bool-cases (has_add s k (event d).dot)) [
      | inl used ↦ absurd (past (c.adds k (event d).dot used))
      | inr free ↦ free
    ],
    elim (Bool-cases (tombed s (event d).dot)) [
      | inl used ↦ absurd (past (c.removals (event d).dot used))
      | inr free ↦ free
    ],
  )
    where
      past : IsKnown d (event d).dot → ⊥
      past known = ground (
        arith,
        event-past d (event d).dot room h known,
        dot_eq.beq_iff (event d).dot (event d).dot,
      )

  add-Covers :
      (d : DotVersionVector) (s : OrSet E) (a : E)
      → d.dot.counter + 1 < 2 ^ 64
      → IsValid d
      → Covers d s
      → Covers (event d) (apply_local s (event d).dot (add a))
  add-Covers d s a room h c = record {
    adds = λ k x used. elim (Bool-cases (dot_eq.beq (event d).dot x)) [
      | inl same ↦ rw (← (dot_eq.beq_iff (event d).dot x).0 same) (event_own-IsKnown d room h)
      | inr other ↦
          event-IsKnown d x room h (c.adds k x (ground (arith, has_add-add s (event d).dot a k x)))
    ];
    removals = λ x used.
        event-IsKnown d x room h (c.removals x (ground (arith, tombed-add s (event d).dot a x)));
  }

  remove-Covers :
      (d : DotVersionVector) (s : OrSet E) (a : E)
      → d.dot.counter + 1 < 2 ^ 64
      → IsValid d
      → Covers d s
      → Covers (event d) (apply_local s (event d).dot (remove a))
  remove-Covers d s a room h c = record {
    adds = λ k x used.
        event-IsKnown d x room h
          (c.adds k x (ground (arith, has_add-remove s (event d).dot a k x)));
    removals = λ x used. event-IsKnown d x room h (elim (Bool-cases (has_add s a x)) [
      | inl there ↦ c.adds a x there
      | inr absent ↦ c.removals x (ground (arith, tombed-remove s (event d).dot a x))
    ]);
  }

merge-IsKnown :
    (d other : DotVersionVector) (x : Dot)
    → IsMap other.context
    → IsKnown d x
    → IsKnown (merge d other) x
merge-IsKnown d other x u c = ground (arith, effective_counter-merge d other x.node_id u)

merge_other-IsKnown :
    (d other : DotVersionVector) (x : Dot)
    → IsMap other.context
    → IsKnown other x
    → IsKnown (merge d other) x
merge_other-IsKnown d other x u c = ground (arith, effective_counter-merge d other x.node_id u)

module _ {E : Type 0} ⦃e : Eq E⦄ where
  -- A replica that merges the snapshot of another together with its vector knows of every dot that
  -- it then has, if both did before; the other's context and the tables of both sets are maps.
  pub merge-Covers :
      (d other : DotVersionVector) (s t : OrSet E)
      → IsMap other.context
      → Merge.IsValid s
      → Merge.IsValid t
      → Covers d s
      → Covers other t
      → Covers (merge d other) (merge_delta s (full_state t other))
  merge-Covers d other s t u vs vt cs ct = record {
    adds = λ k x used. elim (Bool-cases (has_add s k x)) [
      | inl ours ↦ merge-IsKnown d other x u (cs.adds k x ours)
      | inr not_ours ↦ merge_other-IsKnown d other x u (
          ct.adds k x (
            ground (
              arith,
              has_add-merge_delta s (full_state t other) k x vs,
              has_pair-full_state t other k x vt,
            )))
    ];
    removals = λ x used. elim (Bool-cases (tombed s x)) [
      | inl ours ↦ merge-IsKnown d other x u (cs.removals x ours)
      | inr not_ours ↦ merge_other-IsKnown d other x u (
          ct.removals x (
            ground (
              arith,
              tombed-merge_delta s (full_state t other) x,
              tombstones-full_state t other x,
            )))
    ];
  }

module _ {S H E : Type 0} ⦃e : Eq E⦄ (codec : ElementCodec E) (prost : Message ProtoOrSetDelta)
    (store : GcStorage S) (strategy : DisseminationStrategy H) where
  -- A client that adds an element finds it in the set of the engine, and the other elements as
  -- they were, where the clock is valid and knows of every dot of the set, and the own counter has
  -- room.
  pub contains-client_operation :
      (g : CrdtEngine S (OrSet E) H) (a k : E)
      → g.dvv.dot.counter + 1 < 2 ^ 64
      → IsValid g.dvv
      → Covers g.dvv g.crdt
      → contains (client_operation (or_set codec prost) store strategy g (add a)).crdt k
        ≡ (a == k || contains g.crdt k)
  unfolding client_operation
  contains-client_operation g a k room h c =
      contains-add g.crdt (event g.dvv).dot a k (event-IsFresh g.dvv g.crdt room h c).1

  -- Every client operation leaves the clock knowing of every dot of the set, if it did before, is
  -- valid, and has room for one more event.
  pub client_operation-Covers :
      (g : CrdtEngine S (OrSet E) H) (op : OrSetOp E)
      → g.dvv.dot.counter + 1 < 2 ^ 64
      → IsValid g.dvv
      → Covers g.dvv g.crdt
      → (let g' = client_operation (or_set codec prost) store strategy g op in
          Covers g'.dvv g'.crdt)
  unfolding client_operation
  client_operation-Covers g (add a) room h c = add-Covers g.dvv g.crdt a room h c
  client_operation-Covers g (remove a) room h c = remove-Covers g.dvv g.crdt a room h c
