-- ===== src/OrSet/Delivery.antt =====
-- or_set.rs: the deltas that reach a replica, in any order and any number of times.
use experimental_crdt.Base.{
  ◌≡◌, refl, inl, inr, Bool, true, false, not, ◌&&◌, ◌||◌, List, [], ◌∷◌, arith, Bool-cases,
  Bool-ext, Eq, nat_eq, string_eq, any,
}
use experimental_crdt.Map.{contains_key}
use experimental_crdt.Clock.{Dot, dot_eq}
use experimental_crdt.OrSet.{OrSet, OrSetDelta, contains, merge_delta}
use experimental_crdt.OrSet.View.{tombed, has_add, live, has_pair}
use experimental_crdt.OrSet.Merge.{
  IsValid, has_add-merge_delta, tombed-merge_delta, merge_delta-IsValid, contains_ext,
}

-- the delta is one of those in the list
pub data In {ℓ} {E : Type ℓ} (δ : OrSetDelta E) : List (OrSetDelta E) → Type ℓ where
  here : {x : OrSetDelta E} {ds : List (OrSetDelta E)} → δ ≡ x → In δ (x ∷ ds)
  there : {x : OrSetDelta E} {ds : List (OrSetDelta E)} → In δ ds → In δ (x ∷ ds)

module _ {ℓ} {E : Type ℓ} where
  any_of_In :
      (p : OrSetDelta E → Bool) {δ : OrSetDelta E} {ds : List (OrSetDelta E)}
      → In δ ds
      → p δ ≡ true
      → any p ds ≡ true
  any_of_In p (here same) h = ground arith
  any_of_In p (there m) h = ground (arith, any_of_In p m h)

  find_any :
      (p : OrSetDelta E → Bool) (ds : List (OrSetDelta E))
      → any p ds ≡ true
      → (δ : OrSetDelta E) × In δ ds × (p δ ≡ true)
  find_any p [] h = absurd (ground arith)
  find_any p (x ∷ ds) h = elim (Bool-cases (p x)) [
    | inl passes ↦ (x, here refl, passes)
    | inr fails ↦ let (δ, rest, q) = find_any p ds (ground arith) in (δ, there rest, q)
  ]

  any_of_same :
      (p : OrSetDelta E → Bool) (ds es : List (OrSetDelta E))
      → ((δ : OrSetDelta E) → In δ ds → In δ es)
      → ((δ : OrSetDelta E) → In δ es → In δ ds)
      → any p ds ≡ any p es
  any_of_same p ds es f g =
      Bool-ext (any p ds) (any p es) (λ h. let (δ, m, q) = find_any p ds h in any_of_In p (f δ m) q)
        (λ h. let (δ, m, q) = find_any p es h in any_of_In p (g δ m) q)

module _ {ℓ} {E : Type ℓ} ⦃e : Eq E⦄ where
  -- the deltas that arrive, one after the other
  unfoldable pub merge_all : OrSet E → List (OrSetDelta E) → OrSet E
  merge_all s [] = s
  merge_all s (δ ∷ ds) = merge_all (merge_delta s δ) ds

  -- No dot that has a tombstone stands for an element.
  abbrev pub IsDisjoint : OrSet E → Type ℓ
  IsDisjoint s = (k : E) (d : Dot) → has_add s k d ≡ true → tombed s d ≡ false

  -- A merge into a set whose tables are maps leaves no dot both standing for an element and
  -- tombstoned, if none was before.
  pub merge_delta-IsDisjoint :
      (s : OrSet E) (δ : OrSetDelta E) → IsValid s → IsDisjoint s → IsDisjoint (merge_delta s δ)
  merge_delta-IsDisjoint s δ v h k d a =
      ground (arith, h k d, has_add-merge_delta s δ k d v, tombed-merge_delta s δ d)

  live-merge_all :
      (s : OrSet E) (ds : List (OrSetDelta E)) (k : E) (d : Dot)
      → IsValid s
      → live (merge_all s ds) k d ≡ (
          (has_add s k d || any (λ δ. has_pair δ.adds k d) ds)
          && not (tombed s d || any (λ δ. contains_key δ.tombstones d) ds))
  unfolding merge_all
  live-merge_all s [] k d v = ground arith
  live-merge_all s (δ ∷ ds) k d v = ground (
    arith,
    live-merge_all (merge_delta s δ) ds k d (merge_delta-IsValid s δ v),
    has_add-merge_delta s δ k d v,
    tombed-merge_delta s δ d,
  )

  -- Two sequences of the same deltas, in any order and with each delta any number of times, leave
  -- a replica whose tables are maps with the same elements.
  pub contains-merge_all :
      (s : OrSet E) (ds es : List (OrSetDelta E)) (k : E)
      → IsValid s
      → ((δ : OrSetDelta E) → In δ ds → In δ es)
      → ((δ : OrSetDelta E) → In δ es → In δ ds)
      → contains (merge_all s ds) k ≡ contains (merge_all s es) k
  contains-merge_all s ds es k v f g = contains_ext (merge_all s ds) (merge_all s es) k (λ d.
      ground (
        arith,
        live-merge_all s ds k d v,
        live-merge_all s es k d v,
        any_of_same (λ δ. has_pair δ.adds k d) ds es f g,
        any_of_same (λ δ. contains_key δ.tombstones d) ds es f g,
      ))
