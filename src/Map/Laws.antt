-- ===== src/Map/Laws.antt =====
-- Lookups after the operations of a hash map.
use experimental_crdt.Base.{
  ◌≡◌, refl, none, some, [], ◌∷◌, arith, if◌then◌else◌, Eq, ◌==◌, nat_eq, string_eq,
}
use experimental_crdt.Map.{HashMap, get, insert, remove, IsMap, keys, contains_key}
use experimental_crdt.Map.Sets.{contains}

module _ {ℓ κ} {K : Type ℓ} {V : Type κ} ⦃e : Eq K⦄ where
  pub get-insert :
      (m : HashMap K V) (k j : K) (v : V)
      → get (insert m k v) j ≡ (if k == j then some v else get m j)
  unfolding get insert
  get-insert [] k j v = refl
  get-insert ((i, w) ∷ m) k j v =
      ground (arith, e.beq_iff k j, e.beq_iff i k, e.beq_iff i j, get-insert m k j v)

  pub get-remove :
      (m : HashMap K V) (k j : K) → get (remove m k) j ≡ (if k == j then none else get m j)
  unfolding get remove
  get-remove [] k j = ground arith
  get-remove ((i, w) ∷ m) k j =
      ground (arith, e.beq_iff k j, e.beq_iff i k, e.beq_iff i j, get-remove m k j)

  pub insert-IsMap : (m : HashMap K V) (k : K) (v : V) → IsMap m → IsMap (insert m k v)
  unfolding insert get
  insert-IsMap [] k v h = (refl, tt)
  insert-IsMap ((i, w) ∷ m) k v h =
      ground (arith, e.beq_iff i k, e.beq_iff k i, insert-IsMap m k v, get-insert m k i v)

  pub remove-IsMap : (m : HashMap K V) (k : K) → IsMap m → IsMap (remove m k)
  unfolding remove get
  remove-IsMap [] k h = tt
  remove-IsMap ((i, w) ∷ m) k h =
      ground (arith, e.beq_iff i k, e.beq_iff k i, remove-IsMap m k, get-remove m k i)

  -- The keys are what has a value.
  pub contains-keys : (m : HashMap K V) (k : K) → contains (keys m) k ≡ contains_key m k
  unfolding get contains
  contains-keys [] k = refl
  contains-keys ((i, w) ∷ m) k = ground (arith, contains-keys m k)
