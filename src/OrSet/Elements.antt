-- ===== src/OrSet/Elements.antt =====
-- or_set.rs: `elements`, `len` and `is_empty`.
use experimental_crdt.Base.{
  ◌≡◌, refl, ◌∙◌, ◌↔◌, true, false, none, some, List, [], ◌∷◌, map, arith, Eq, nat_eq, string_eq,
  length, retain,
}
use experimental_crdt.Map.{HashMap, get, values, IsMap}
use experimental_crdt.Map.Sets.{HashSet, contains as has}
use experimental_crdt.Clock.{Dot, dot_eq}
use experimental_crdt.OrSet.{OrSet, any_live, contains, elements, len, is_empty}
use experimental_crdt.OrSet.Merge.{IsValid}

length-live_values {ℓ} :
    {E : Type ℓ} (t : HashMap Dot Dot) (m : HashMap E (HashSet Dot))
    → length (retain (any_live t) (values m))
      ≡ length (map (λ p. p.0) (retain (λ (p : E × HashSet Dot). any_live t p.1) m))
length-live_values t [] = refl
length-live_values t ((i, dots) ∷ m) = ground (arith, length-live_values t m)

-- The length is the number of elements that are listed.
pub len-elements {ℓ} : {E : Type ℓ} (s : OrSet E) → len s ≡ length (elements s)
unfolding len elements
len-elements s = length-live_values s.tombstones s.adds

module _ {ℓ} {E : Type ℓ} ⦃e : Eq E⦄ where
  has-live_keys :
      (t : HashMap Dot Dot) (m : HashMap E (HashSet Dot)) (k : E)
      → IsMap m
      → has (map (λ p. p.0) (retain (λ (p : E × HashSet Dot). any_live t p.1) m)) k
        ≡ elim (get m k) [ none ↦ false | some dots ↦ any_live t dots ]
  unfolding has get
  has-live_keys t [] k h = refl
  has-live_keys t ((i, dots) ∷ m) k h = ground (arith, h.0, e.beq_iff i k, has-live_keys t m k h.1)

  -- The listed elements are those that the set contains.
  pub has-elements : (s : OrSet E) (k : E) → IsValid s → has (elements s) k ≡ contains s k
  unfolding elements contains
  has-elements s k v = has-live_keys s.tombstones s.adds k v.adds_map

  nil_of_absent : (l : List E) → ((k : E) → has l k ≡ false) → length l ≡ 0
  unfolding has
  nil_of_absent [] h = refl
  nil_of_absent (x ∷ l) h = ground (arith, h x, e.beq_iff x x)

  absent_of_nil : (l : List E) (k : E) → length l ≡ 0 → has l k ≡ false
  unfolding has
  absent_of_nil [] k h = refl
  absent_of_nil (x ∷ l) k h = ground arith

  -- The set is empty exactly when it contains no element.
  pub is_empty_iff :
      (s : OrSet E) → IsValid s → (is_empty s ≡ true) ↔ ((k : E) → contains s k ≡ false)
  unfolding is_empty
  is_empty_iff s v = (
    λ h k. ground (arith, has-elements s k v, len-elements s, absent_of_nil (elements s) k),
    λ h. ground (arith, len-elements s, nil_of_absent (elements s) (λ k. has-elements s k v ∙ h k)),
  )
