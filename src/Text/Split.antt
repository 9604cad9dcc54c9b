-- ===== src/Text/Split.antt =====
-- What cutting a text gives back of the texts it was put together from.
use Prim.Native.Char.{Char}
use Prim.Native.String.{[], ◌∷◌}
use experimental_crdt.Base.{
  ℕ, suc, ◌+◌, String, ◌==◌, string_eq, Bool, true, false, not, ◌&&◌, some, List, ◌≡◌, refl, ap,
  arith, Bool-cases, inl, inr, length, ◌≤◌,
}
use experimental_crdt.Text.{
  ◌<>◌, char_eqb, strip_prefix, strip_suffix, split_once, grow_first, split, trim_end_matches,
}

pub strip_prefix-append : (p s : String) → strip_prefix (p <> s) p ≡ some s
unfolding strip_prefix
strip_prefix-append [] s = refl
strip_prefix-append (c ∷ p) s = ground (arith, strip_prefix-append p s)

abbrev size : String → ℕ
size [] = 0
size (c ∷ s) = suc (size s)

size-append : (s t : String) → size (s <> t) ≡ size s + size t
size-append [] t = omega arith
size-append (c ∷ s) t = omega (arith, size-append s t)

pub append_assoc : (s t u : String) → (s <> t) <> u ≡ s <> (t <> u)
append_assoc [] t u = refl
append_assoc (c ∷ s) t u = ap (λ r. c ∷ r) (append_assoc s t u)

cons_not_suffix : (c : Char) (s p : String) → ((c ∷ (s <> p)) == p) ≡ false
cons_not_suffix c s p = elim (Bool-cases ((c ∷ (s <> p)) == p)) [
  | inl same ↦
      let e : (c ∷ (s <> p)) ≡ p = (string_eq.beq_iff (c ∷ (s <> p)) p).0 same in
      absurd (omega (arith, ap size e, size-append s p))
  | inr other ↦ other
]

strip_suffix_self : (p : String) → strip_suffix p p ≡ some ""
unfolding strip_suffix
strip_suffix_self [] = refl
strip_suffix_self (c ∷ p) = ground (arith, string_eq.beq_iff (c ∷ p) (c ∷ p))

pub strip_suffix-append : (s p : String) → strip_suffix (s <> p) p ≡ some s
unfolding strip_suffix
strip_suffix-append [] p = strip_suffix_self p
strip_suffix-append (c ∷ s) p = ground (arith, cons_not_suffix c s p, strip_suffix-append s p)

-- No two underscores follow one another, and none stands at the end.
abbrev pub is_plain : String → Bool
is_plain [] = true
is_plain (c ∷ []) = not (char_eqb c "_")
is_plain (c ∷ d ∷ s) = not (char_eqb c "_" && char_eqb d "_") && is_plain (d ∷ s)

pub split_once-append :
    (a b : String) → is_plain a ≡ true → split_once (a <> ("__" <> b)) "__" ≡ some (a, b)
unfolding split_once strip_prefix
split_once-append [] b h = refl
split_once-append (c ∷ []) b h = ground (arith, split_once-append [] b refl)
split_once-append (c ∷ d ∷ s) b h = ground (arith, split_once-append (d ∷ s) b)

-- No underscore stands in the text.
abbrev pub lacks : Char → String → Bool
lacks ch [] = true
lacks ch (c ∷ s) = not (char_eqb c ch) && lacks ch s

pub split-lacks : (s : String) (ch : Char) → lacks ch s ≡ true → split s ch ≡ List.◌∷◌ s List.[]
unfolding split
split-lacks [] ch h = refl
split-lacks (c ∷ s) ch h = ground (arith, split-lacks s ch)

pub split-append :
    (a b : String) (ch : Char)
    → lacks ch a ≡ true
    → split (a <> (ch ∷ b)) ch ≡ List.◌∷◌ a (split b ch)
unfolding split
split-append [] b ch h = ground arith
split-append (c ∷ a) b ch h = ground (arith, split-append a b ch)

pub trim_end_matches-append :
    (s : String) (ch : Char) → trim_end_matches (s <> (ch ∷ [])) ch ≡ trim_end_matches s ch
unfolding trim_end_matches
trim_end_matches-append [] ch = ground arith
trim_end_matches-append (c ∷ s) ch = ground (arith, trim_end_matches-append s ch)

length-grow_first : (c : Char) (parts : List String) → length (grow_first c parts) ≡ length parts
length-grow_first c List.[] = refl
length-grow_first c (List.◌∷◌ a parts) = refl

-- A separator between two texts puts their parts one after the other.
pub length-split-append :
    (s t : String) (ch : Char)
    → length (split (s <> (ch ∷ t)) ch) ≡ length (split s ch) + length (split t ch)
unfolding split
length-split-append [] t ch = ground arith
length-split-append (c ∷ s) t ch = ground (
  arith,
  length-split-append s t ch,
  length-grow_first c (split (s <> (ch ∷ t)) ch),
  length-grow_first c (split s ch),
)

-- A text has a part.
pub length-split : (s : String) (ch : Char) → 1 ≤ length (split s ch)
unfolding split
length-split [] ch = omega arith
length-split (c ∷ s) ch = ground (arith, length-split s ch, length-grow_first c (split s ch))

pub length-split-lacks : (s : String) (ch : Char) → lacks ch s ≡ false → 2 ≤ length (split s ch)
unfolding split
length-split-lacks [] ch h = absurd (ground arith)
length-split-lacks (c ∷ s) ch h =
    ground (arith, length-split s ch, length-split-lacks s ch, length-grow_first c (split s ch))
