-- ===== src/OrSet/Gc.antt =====
-- or_set.rs: `perform_gc`.
use experimental_crdt.Base.{
  ◌≡◌, refl, inl, inr, Bool, true, false, not, none, some, [], ◌∷◌, arith, Option-cases, Eq, nat_eq,
  string_eq, retain,
}
use experimental_crdt.Map.{HashMap, get, IsMap}
use experimental_crdt.Clock.{Dot, dot_eq, DotVersionVector, dominates_dot}
use experimental_crdt.OrSet.{OrSet, OrSetDelta, contains, merge_delta, perform_gc}
use experimental_crdt.OrSet.View.{has_add, has_pair}
use experimental_crdt.OrSet.Merge.{IsValid, live-merge_delta, contains_ext}
use experimental_crdt.OrSet.Delivery.{IsDisjoint}

get-retain-none :
    (p : Dot × Dot → Bool) (m : HashMap Dot Dot) (d : Dot)
    → get m d ≡ none
    → get (retain p m) d ≡ none
unfolding get
get-retain-none p [] d h = refl
get-retain-none p (t ∷ m) d h = ground (arith, get-retain-none p m d)

retain-IsMap : (p : Dot × Dot → Bool) (m : HashMap Dot Dot) → IsMap m → IsMap (retain p m)
retain-IsMap p [] h = tt
retain-IsMap p ((a, x) ∷ m) h = ground (arith, retain-IsMap p m h.1, get-retain-none p m a)

get-uncollected :
    (frontier : DotVersionVector) (m : HashMap Dot Dot) (d : Dot)
    → IsMap m
    → get (retain (λ t. not (dominates_dot frontier t.1)) m) d ≡ elim (get m d) [
      | none ↦ none
      | some x ↦ elim (dominates_dot frontier x) [ true ↦ none | false ↦ some x ]
    ]
unfolding get
get-uncollected frontier [] d h = refl
get-uncollected frontier ((a, x) ∷ m) d h =
    ground (arith, h.0, dot_eq.beq_iff a d, get-uncollected frontier m d h.1)

module _ {ℓ} {E : Type ℓ} ⦃e : Eq E⦄ where
  -- A collection keeps both tables maps.
  pub perform_gc-IsValid :
      (s : OrSet E) (frontier : DotVersionVector) → IsValid s → IsValid (perform_gc s frontier)
  unfolding perform_gc
  perform_gc-IsValid s frontier v = record {
    adds_map = v.adds_map;
    tombstones_map =
        retain-IsMap (λ t. not (dominates_dot frontier t.1)) s.tombstones v.tombstones_map;
  }

  -- A collection drops exactly the tombstones whose removal the frontier dominates.
  pub get-perform_gc :
      (s : OrSet E) (frontier : DotVersionVector) (d : Dot)
      → IsValid s
      → get (perform_gc s frontier).tombstones d ≡ elim (get s.tombstones d) [
        | none ↦ none
        | some x ↦ elim (dominates_dot frontier x) [ true ↦ none | false ↦ some x ]
      ]
  unfolding perform_gc
  get-perform_gc s frontier d v = get-uncollected frontier s.tombstones d v.tombstones_map

  pub has_add-perform_gc :
      (s : OrSet E) (frontier : DotVersionVector) (k : E) (d : Dot)
      → has_add (perform_gc s frontier) k d ≡ has_add s k d
  unfolding perform_gc
  has_add-perform_gc s frontier k d = refl

  -- Where the tables are maps and no tombstoned dot stands for an element, a collection leaves the
  -- same elements.
  pub contains-perform_gc :
      (s : OrSet E) (frontier : DotVersionVector) (k : E)
      → IsValid s
      → IsDisjoint s
      → contains (perform_gc s frontier) k ≡ contains s k
  contains-perform_gc s frontier k v disjoint = contains_ext (perform_gc s frontier) s k (λ d.
      ground
        (arith, get-perform_gc s frontier d v, has_add-perform_gc s frontier k d, disjoint k d))

  -- A collection keeps the dots that stand for elements apart from those with a tombstone.
  pub perform_gc-IsDisjoint :
      (s : OrSet E) (frontier : DotVersionVector)
      → IsValid s
      → IsDisjoint s
      → IsDisjoint (perform_gc s frontier)
  perform_gc-IsDisjoint s frontier v disjoint k d a =
      ground (arith, get-perform_gc s frontier d v, has_add-perform_gc s frontier k d, disjoint k d)

  -- Where the tables of a set are maps and no tombstoned dot stands for an element, a delta that
  -- is merged after a collection and one that is merged without it leave the same elements,
  -- provided that the delta adds none of the collected dots. The collected dots are those whose
  -- removal the frontier dominates.
  pub contains-merge-perform_gc :
      (s : OrSet E) (frontier : DotVersionVector) (δ : OrSetDelta E) (k : E)
      → IsValid s
      → IsDisjoint s
      → ((d x : Dot)
          → get s.tombstones d ≡ some x
          → dominates_dot frontier x ≡ true
          → has_pair δ.adds k d ≡ false)
      → contains (merge_delta (perform_gc s frontier) δ) k ≡ contains (merge_delta s δ) k
  contains-merge-perform_gc s frontier δ k v disjoint stable =
      contains_ext (merge_delta (perform_gc s frontier) δ) (merge_delta s δ) k (λ d.
        elim (Option-cases (get s.tombstones d)) [
          | inl bare ↦ ground (
            arith,
            get-perform_gc s frontier d v,
            has_add-perform_gc s frontier k d,
            live-merge_delta s δ k d v,
            live-merge_delta (perform_gc s frontier) δ k d (perform_gc-IsValid s frontier v),
          )
          | inr (x, buried) ↦ ground (
            arith,
            get-perform_gc s frontier d v,
            has_add-perform_gc s frontier k d,
            live-merge_delta s δ k d v,
            live-merge_delta (perform_gc s frontier) δ k d (perform_gc-IsValid s frontier v),
            stable d x,
            disjoint k d,
          )
        ])
