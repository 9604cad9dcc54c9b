-- ===== src/OrSet/View.antt =====
-- or_set.rs: what can be read off a set, and what its small steps do to it. A set is seen through
-- two tests: which dots stand for which element, and which dots have a tombstone.
use experimental_crdt.Base.{
  ◌≡◌, refl, inl, inr, Bool, true, false, not, ◌&&◌, ◌||◌, none, List, [], ◌∷◌, arith, Bool-cases,
  Option-cases, Eq, ◌==◌, nat_eq, string_eq,
}
use experimental_crdt.Map.{HashMap, get, insert, remove as remove_key, contains_key, IsMap}
use experimental_crdt.Map.Laws.{get-insert, get-remove, insert-IsMap}
use experimental_crdt.Map.Sets.{HashSet, put, contains as has, contains-put, contains-discard}
use experimental_crdt.Clock.{Dot, dot_eq}
use experimental_crdt.OrSet.{OrSet, any_live, bury, evict, drop_empty, dots_of, contains, enter}

abbrev pub tombed {ℓ} : {E : Type ℓ} → OrSet E → Dot → Bool
tombed s dot = contains_key s.tombstones dot

module _ {ℓ} {E : Type ℓ} ⦃e : Eq E⦄ where
  -- the dot stands for the element
  abbrev pub has_add : OrSet E → E → Dot → Bool
  has_add s elem dot = has (dots_of s.adds elem) dot

  -- the dot keeps the element in the set
  abbrev pub live : OrSet E → E → Dot → Bool
  live s elem dot = has_add s elem dot && not (tombed s dot)

  -- the pair stands in the list
  abbrev pub has_pair : List (E × Dot) → E → Dot → Bool
  has_pair [] elem dot = false
  has_pair ((k, d) ∷ pairs) elem dot = (k == elem && d == dot) || has_pair pairs elem dot

-- A key is there after an insertion if it is the one inserted or was there before.
pub contains_key-insert {ℓ κ} :
    {K : Type ℓ} {V : Type κ} ⦃e : Eq K⦄ (m : HashMap K V) (k j : K) (v : V)
    → contains_key (insert m k v) j ≡ (k == j || contains_key m j)
contains_key-insert m k j v = ground (arith, get-insert m k j v)

pub contains_key-bury :
    (t : HashMap Dot Dot) (dots : List Dot) (r j : Dot)
    → contains_key (bury t dots r) j ≡ (has dots j || contains_key t j)
unfolding bury has
contains_key-bury t [] r j = refl
contains_key-bury t (d ∷ dots) r j =
    ground (arith, contains_key-bury (insert t d r) dots r j, contains_key-insert t d j r)

pub bury-IsMap : (t : HashMap Dot Dot) (dots : List Dot) (r : Dot) → IsMap t → IsMap (bury t dots r)
unfolding bury
bury-IsMap t [] r h = h
bury-IsMap t (d ∷ dots) r h = bury-IsMap (insert t d r) dots r (insert-IsMap t d r h)

any_live-true :
    (t : HashMap Dot Dot) (dots : HashSet Dot) (d : Dot)
    → has dots d ≡ true
    → contains_key t d ≡ false
    → any_live t dots ≡ true
unfolding has
any_live-true t [] d h n = ground arith
any_live-true t (j ∷ dots) d h n = ground (arith, dot_eq.beq_iff j d, any_live-true t dots d)

find_live :
    (t : HashMap Dot Dot) (dots : HashSet Dot)
    → any_live t dots ≡ true
    → (d : Dot) × (has dots d ≡ true) × (contains_key t d ≡ false)
unfolding has
find_live t [] h = absurd (ground arith)
find_live t (j ∷ dots) h = elim (Bool-cases (contains_key t j)) [
  | inl buried ↦
      let (d, there, free) = find_live t dots (ground arith) in (d, rw there (ground arith), free)
  | inr free ↦ (j, ground (arith, dot_eq.beq_iff j j), free)
]

module _ {ℓ} {E : Type ℓ} ⦃e : Eq E⦄ where
  -- An element is in the set exactly when a live dot stands for it; this is the one half.
  pub contains_of_live : (s : OrSet E) (k : E) (d : Dot) → live s k d ≡ true → contains s k ≡ true
  unfolding contains dots_of has
  contains_of_live s k d h = elim (Option-cases (get s.adds k)) [
    | inl miss ↦ ground arith
    | inr (dots, hit) ↦ ground (arith, any_live-true s.tombstones dots d)
  ]

  -- The other half: an element of the set has a live dot.
  pub live_of_contains :
      (s : OrSet E) (k : E) → contains s k ≡ true → (d : Dot) × (live s k d ≡ true)
  unfolding contains dots_of
  live_of_contains s k h = elim (Option-cases (get s.adds k)) [
    | inl miss ↦ absurd (ground arith)
    | inr (dots, hit) ↦
        let (d, there, free) = find_live s.tombstones dots (ground arith) in (d, ground arith)
  ]

  pub has-evict :
      (m : HashMap E (HashSet Dot)) (d : Dot) (k : E) (j : Dot)
      → has (dots_of (evict m d) k) j ≡ (not (d == j) && has (dots_of m k) j)
  unfolding evict dots_of get has
  has-evict [] d k j = ground arith
  has-evict ((i, dots) ∷ m) d k j = ground (arith, has-evict m d k j, contains-discard dots d j)

  get-evict :
      (m : HashMap E (HashSet Dot)) (d : Dot) (k : E) → get m k ≡ none → get (evict m d) k ≡ none
  unfolding evict get
  get-evict [] d k h = refl
  get-evict ((i, dots) ∷ m) d k h = ground (arith, get-evict m d k)

  pub evict-IsMap : (m : HashMap E (HashSet Dot)) (d : Dot) → IsMap m → IsMap (evict m d)
  unfolding evict
  evict-IsMap [] d h = tt
  evict-IsMap ((i, dots) ∷ m) d h = (get-evict m d i h.0, evict-IsMap m d h.1)

  get-drop_empty :
      (m : HashMap E (HashSet Dot)) (k : E) → get m k ≡ none → get (drop_empty m) k ≡ none
  unfolding drop_empty get
  get-drop_empty [] k h = refl
  get-drop_empty ((i, []) ∷ m) k h = ground (arith, get-drop_empty m k)
  get-drop_empty ((i, d ∷ dots) ∷ m) k h = ground (arith, get-drop_empty m k)

  pub drop_empty-IsMap : (m : HashMap E (HashSet Dot)) → IsMap m → IsMap (drop_empty m)
  unfolding drop_empty
  drop_empty-IsMap [] h = tt
  drop_empty-IsMap ((i, []) ∷ m) h = drop_empty-IsMap m h.1
  drop_empty-IsMap ((i, d ∷ dots) ∷ m) h = (get-drop_empty m i h.0, drop_empty-IsMap m h.1)

  pub has-drop_empty :
      (m : HashMap E (HashSet Dot)) (k : E) (j : Dot)
      → IsMap m
      → has (dots_of (drop_empty m) k) j ≡ has (dots_of m k) j
  unfolding drop_empty dots_of get has
  has-drop_empty [] k j h = refl
  has-drop_empty ((i, []) ∷ m) k j h =
      ground (arith, e.beq_iff i k, h.0, get-drop_empty m i, has-drop_empty m k j h.1)
  has-drop_empty ((i, d ∷ dots) ∷ m) k j h = ground (arith, has-drop_empty m k j h.1)

  pub has-enter :
      (m : HashMap E (HashSet Dot)) (elem k : E) (d j : Dot)
      → has (dots_of (enter m elem d) k) j ≡ ((elem == k && d == j) || has (dots_of m k) j)
  unfolding enter dots_of has
  has-enter m elem k d j = ground (
    arith,
    e.beq_iff elem k,
    get-insert m elem k (put (dots_of m elem) d),
    contains-put (dots_of m elem) d j,
  )

  pub enter-IsMap :
      (m : HashMap E (HashSet Dot)) (elem : E) (d : Dot) → IsMap m → IsMap (enter m elem d)
  unfolding enter
  enter-IsMap m elem d h = insert-IsMap m elem _ h

  pub has-remove_key :
      (m : HashMap E (HashSet Dot)) (elem k : E) (j : Dot)
      → has (dots_of (remove_key m elem) k) j ≡ (not (elem == k) && has (dots_of m k) j)
  unfolding dots_of has
  has-remove_key m elem k j = ground (arith, get-remove m elem k)
