-- ===== src/Map/Sets.antt =====
-- `HashSet<K>`: a list in which an element is put once.
use experimental_crdt.Base.{
  ◌≡◌, refl, Bool, true, false, not, ◌&&◌, ◌||◌, List, [], ◌∷◌, ◌++◌, arith, if◌then◌else◌, Eq,
  ◌==◌, nat_eq, string_eq, all, retain,
}

abbrev pub HashSet {ℓ} : Type ℓ → Type ℓ
HashSet K = List K

module _ {ℓ} {K : Type ℓ} ⦃e : Eq K⦄ where
  -- `s.contains(&k)`
  unfoldable pub contains : HashSet K → K → Bool
  contains [] k = false
  contains (j ∷ s) k = j == k || contains s k

  -- `s.insert(k)`
  unfoldable pub put : HashSet K → K → HashSet K
  put s k = if contains s k then s else k ∷ s

  -- `iter.collect::<HashSet<_>>()`, and `s.extend(iter)`
  unfoldable pub extend : HashSet K → List K → HashSet K
  extend s [] = s
  extend s (k ∷ ks) = extend (put s k) ks

  -- `s.remove(&k)`
  unfoldable pub discard : HashSet K → K → HashSet K
  discard [] k = []
  discard (j ∷ s) k = let rest = discard s k in if j == k then rest else j ∷ rest

  pub contains-discard :
      (s : HashSet K) (k j : K) → contains (discard s k) j ≡ (not (k == j) && contains s j)
  unfolding discard contains
  contains-discard [] k j = ground arith
  contains-discard (i ∷ s) k j =
      ground (arith, e.beq_iff i k, e.beq_iff i j, e.beq_iff k j, contains-discard s k j)

  -- `retain` and `filter` keep the elements that pass
  pub contains-retain :
      (p : K → Bool) (s : List K) (j : K) → contains (retain p s) j ≡ (p j && contains s j)
  unfolding contains
  contains-retain p [] j = ground arith
  contains-retain p (i ∷ s) j = ground (arith, e.beq_iff i j, contains-retain p s j)

  pub contains-put : (s : HashSet K) (k j : K) → contains (put s k) j ≡ (k == j || contains s j)
  unfolding put contains
  contains-put s k j = ground (arith, e.beq_iff k j)

  pub contains-extend :
      (s : HashSet K) (ks : List K) (j : K)
      → contains (extend s ks) j ≡ (contains ks j || contains s j)
  unfolding extend contains
  contains-extend s [] j = refl
  contains-extend s (k ∷ ks) j = ground (arith, contains-extend (put s k) ks j, contains-put s k j)

  pub contains-append :
      (s t : List K) (k : K) → contains (s ++ t) k ≡ (contains s k || contains t k)
  unfolding contains
  contains-append [] t k = refl
  contains-append (j ∷ s) t k = ground (arith, contains-append s t k)

  pub all_of_contains :
      (p : K → Bool) (s : HashSet K) (k : K) → contains s k ≡ true → all p s ≡ true → p k ≡ true
  unfolding contains
  all_of_contains p [] k h a = ground arith
  all_of_contains p (j ∷ s) k h a = ground (arith, e.beq_iff j k, all_of_contains p s k)

  -- What holds on a set holds on each set with no more elements.
  pub all_of_subset :
      (p : K → Bool) (s t : HashSet K)
      → ((k : K) → contains t k ≡ true → contains s k ≡ true)
      → all p s ≡ true
      → all p t ≡ true
  unfolding contains
  all_of_subset p s [] sub h = refl
  all_of_subset p s (k ∷ t) sub h = ground (
    arith,
    e.beq_iff k k,
    sub k,
    all_of_contains p s k,
    all_of_subset p s t (λ j m. sub j (ground arith)) h,
  )

pub all_intro {ℓ} :
    {K : Type ℓ} (p : K → Bool) (s : List K) → ((k : K) → p k ≡ true) → all p s ≡ true
all_intro p [] h = refl
all_intro p (k ∷ s) h = ground (arith, h k, all_intro p s h)
