-- ===== src/OrSet.antt =====
-- src/crdt/or_set.rs: the observed-remove set, generic in its elements.
-- Methods that take `&mut self` return the new set. Printing and metrics are left out.
pub mod View
pub mod Merge
pub mod Sync
pub mod Delivery
pub mod Local
pub mod Gc
pub mod Elements
pub mod Codec
use experimental_crdt.Base.{
  ℕ, zero, suc, ◌+◌, ◌-◌, ◌*◌, ◌/◌, ◌%◌, ◌^◌, ◌≤◌, ◌<◌, max, min, String, ◌≡◌, refl, sym, ap, ◌∙◌,
  ◌≢◌, ◌↔◌, ◌⊎◌, inl, inr, Bool, true, false, not, ◌&&◌, ◌||◌, Option, none, some, List, [], ◌∷◌,
  ◌++◌, map, arith, ltb, leb, nat_eqb, nat_eqb_iff, if◌then◌else◌, Bool-cases, Option-cases,
  Bool-ext, Eq, ◌==◌, nat_eq, string_eq, beq_refl, length, any, all, retain, Result, ok, err, ok_or,
  is_ok, collect, Result-cases,
}
use experimental_crdt.Map.{HashMap, get, insert, remove as remove_key, contains_key, values, IsMap}
use experimental_crdt.Map.Sets.{HashSet, put, discard, contains as has}
use experimental_crdt.Clock.{
  NodeId, Counter, CausalContext, Dot, dot_eq, DotVersionVector, count_at, effective_map,
  dominates_dot,
}

pub data OrSetOp {ℓ} (E : Type ℓ) : Type ℓ where
  add : E → OrSetOp E
  remove : E → OrSetOp E

pub record OrSetDelta {ℓ} (E : Type ℓ) : Type ℓ where
  pub adds : List (E × Dot)
  pub tombstones : List (Dot × Dot)
  pub context : CausalContext
  pub dot_node : NodeId
  pub dot_counter : Counter

-- `DeltaContext::causal_context`
unfoldable pub causal_context {ℓ} : {E : Type ℓ} → OrSetDelta E → CausalContext × NodeId × Counter
causal_context delta = (delta.context, delta.dot_node, delta.dot_counter)

pub record OrSet {ℓ} (E : Type ℓ) : Type ℓ where
  pub adds : HashMap E (HashSet Dot)
  pub tombstones : HashMap Dot Dot

unfoldable pub new {ℓ} : {E : Type ℓ} → OrSet E
new = record { adds = []; tombstones = [] }

-- `dots.iter().any(|d| !self.tombstones.contains_key(d))`
abbrev pub any_live : HashMap Dot Dot → HashSet Dot → Bool
any_live tombstones dots = any (λ d. not (contains_key tombstones d)) dots

abbrev pub is_empty_set : HashSet Dot → Bool
is_empty_set [] = true
is_empty_set (_ ∷ _) = false

-- `for add_dot in add_dots { self.tombstones.insert(add_dot, remove_dot.clone()); }`
unfoldable pub bury : HashMap Dot Dot → List Dot → Dot → HashMap Dot Dot
bury tombstones [] remove_dot = tombstones
bury tombstones (add_dot ∷ add_dots) remove_dot =
    bury (insert tombstones add_dot remove_dot) add_dots remove_dot

-- does the vector `known` not reach the dot
abbrev pub is_new : CausalContext → Dot → Bool
is_new known dot = ltb (count_at known dot.node_id) dot.counter

module _ {ℓ} {E : Type ℓ} where
  -- `for dots in self.adds.values_mut() { dots.remove(add_dot); }`
  unfoldable pub evict : HashMap E (HashSet Dot) → Dot → HashMap E (HashSet Dot)
  evict [] dot = []
  evict ((elem, dots) ∷ adds) dot = (elem, discard dots dot) ∷ evict adds dot

  -- the loop over the tombstones of a delta
  unfoldable pub merge_tombstones : OrSet E → List (Dot × Dot) → OrSet E
  merge_tombstones s [] = s
  merge_tombstones s ((add_dot, remove_dot) ∷ tombs) =
      merge_tombstones
        (record {
          adds = evict s.adds add_dot;
          tombstones = insert s.tombstones add_dot remove_dot;
        })
        tombs

  -- `self.adds.retain(|_, dots| !dots.is_empty())`
  unfoldable pub drop_empty : HashMap E (HashSet Dot) → HashMap E (HashSet Dot)
  drop_empty adds = retain (λ p. not (is_empty_set p.1)) adds

  -- the pairs of an element and one of its dots
  unfoldable pub pairs_of : HashMap E (HashSet Dot) → List (E × Dot)
  pairs_of [] = []
  pairs_of ((elem, dots) ∷ adds) = map (λ dot. (elem, dot)) dots ++ pairs_of adds

  -- those of the pairs whose dot is news to `known`
  unfoldable pub pairs_since : CausalContext → HashMap E (HashSet Dot) → List (E × Dot)
  pairs_since known [] = []
  pairs_since known ((elem, dots) ∷ adds) =
      map (λ dot. (elem, dot)) (retain (is_new known) dots) ++ pairs_since known adds

  unfoldable pub full_state : OrSet E → DotVersionVector → OrSetDelta E
  full_state s dvv = record {
    adds = pairs_of s.adds;
    tombstones = s.tombstones;
    context = effective_map dvv;
    dot_node = dvv.dot.node_id;
    dot_counter = dvv.dot.counter;
  }

  unfoldable pub delta_since : OrSet E → CausalContext → DotVersionVector → OrSetDelta E
  delta_since s known dvv = record {
    adds = pairs_since known s.adds;
    tombstones = retain (λ t. is_new known t.1) s.tombstones;
    context = effective_map dvv;
    dot_node = dvv.dot.node_id;
    dot_counter = dvv.dot.counter;
  }

  unfoldable pub perform_gc : OrSet E → DotVersionVector → OrSet E
  perform_gc s frontier = record s {
    tombstones = retain (λ t. not (dominates_dot frontier t.1)) s.tombstones;
  }

  unfoldable pub elements : OrSet E → List E
  elements s = map (λ p. p.0) (retain (λ p. any_live s.tombstones p.1) s.adds)

  unfoldable pub len : OrSet E → ℕ
  len s = length (retain (any_live s.tombstones) (values s.adds))

  unfoldable pub is_empty : OrSet E → Bool
  is_empty s = nat_eqb (len s) 0

module _ {ℓ} {E : Type ℓ} ⦃e : Eq E⦄ where
  -- `self.adds.get(elem)`, with the empty set for an element that is not there
  unfoldable pub dots_of : HashMap E (HashSet Dot) → E → HashSet Dot
  dots_of adds elem = elim (get adds elem) [ none ↦ [] | some dots ↦ dots ]

  unfoldable pub contains : OrSet E → E → Bool
  contains s elem = elim (get s.adds elem) [ none ↦ false | some dots ↦ any_live s.tombstones dots ]

  -- `self.adds.entry(elem).or_default().insert(dot)`
  unfoldable pub enter : HashMap E (HashSet Dot) → E → Dot → HashMap E (HashSet Dot)
  enter adds elem dot = insert adds elem (put (dots_of adds elem) dot)

  unfoldable pub apply_local : OrSet E → Dot → OrSetOp E → OrSet E
  apply_local s dot (add elem) = record s { adds = enter s.adds elem dot }
  apply_local s dot (remove elem) = record {
    adds = remove_key s.adds elem;
    tombstones = bury s.tombstones (dots_of s.adds elem) dot;
  }

  -- the loop over the adds of a delta
  unfoldable pub merge_adds :
      HashMap Dot Dot → HashMap E (HashSet Dot) → List (E × Dot) → HashMap E (HashSet Dot)
  merge_adds tombstones adds [] = adds
  merge_adds tombstones adds ((elem, dot) ∷ pairs) =
      merge_adds tombstones (if contains_key tombstones dot then adds else enter adds elem dot)
        pairs

  unfoldable pub merge_delta : OrSet E → OrSetDelta E → OrSet E
  merge_delta s delta =
      let buried = merge_tombstones s delta.tombstones in
      record {
        adds = merge_adds buried.tombstones (drop_empty buried.adds) delta.adds;
        tombstones = buried.tombstones;
      }
