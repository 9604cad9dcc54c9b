-- ===== src/Text.antt =====
-- The methods of `str` that the program uses, by recursion on the characters, and decimal numbers.
pub mod Split
pub mod Decimal
pub mod Order
use Prim.Native.Char.{Char, code}
use Prim.Native.String.{[], ◌∷◌}
use experimental_crdt.Base.{
  ℕ, zero, suc, ◌==◌, string_eq, String, Bool, true, false, not, ◌&&◌, ◌||◌, Option, none, some,
  List, ◌≡◌, refl, ◌↔◌, nat_eqb, ltb, if◌then◌else◌, arith,
}

-- the texts one after the other, as `format!` puts them
infixr 65 ◌<>◌
abbrev pub ◌<>◌ : String → String → String
[] <> t = t
(c ∷ s) <> t = c ∷ (s <> t)

-- `s.is_empty()`
abbrev pub is_empty : String → Bool
is_empty [] = true
is_empty (c ∷ s) = false

abbrev pub char_eqb : Char → Char → Bool
char_eqb c d = nat_eqb (code c) (code d)

-- `s.strip_prefix(p)`
unfoldable pub strip_prefix : String → String → Option String
strip_prefix s [] = some s
strip_prefix [] (d ∷ p) = none
strip_prefix (c ∷ s) (d ∷ p) = if char_eqb c d then strip_prefix s p else none

abbrev pub put_front : Char → Option String → Option String
put_front c none = none
put_front c (some s) = some (c ∷ s)

-- `s.strip_suffix(p)`
unfoldable pub strip_suffix : String → String → Option String
strip_suffix [] p = if p == "" then some [] else none
strip_suffix (c ∷ s) p =
    let rest = strip_suffix s p in if (c ∷ s) == p then some [] else put_front c rest

abbrev pub put_first : Char → Option (String × String) → Option (String × String)
put_first c none = none
put_first c (some (a, b)) = some (c ∷ a, b)

-- what stands before and behind the first occurrence of a separator that is not empty
unfoldable pub split_once : String → String → Option (String × String)
split_once [] sep = none
split_once (c ∷ s) sep =
    let later = split_once s sep in
    elim (strip_prefix (c ∷ s) sep) [ some rest ↦ some ([], rest) | none ↦ put_first c later ]

-- `s.splitn(n, sep)`
unfoldable pub splitn : ℕ → String → String → List String
splitn zero s sep = List.[]
splitn (suc zero) s sep = List.◌∷◌ s List.[]
splitn (suc (suc n)) s sep = elim (split_once s sep) [
  | none ↦ List.◌∷◌ s List.[]
  | some (a, b) ↦ List.◌∷◌ a (splitn (suc n) b sep)
]

abbrev pub grow_first : Char → List String → List String
grow_first c List.[] = List.[]
grow_first c (List.◌∷◌ a parts) = List.◌∷◌ (c ∷ a) parts

-- `s.split(sep)` for a character
unfoldable pub split : String → Char → List String
split [] sep = List.◌∷◌ "" List.[]
split (c ∷ s) sep =
    let rest = split s sep in if char_eqb c sep then List.◌∷◌ "" rest else grow_first c rest

-- `s.trim_end_matches(ch)`
unfoldable pub trim_end_matches : String → Char → String
trim_end_matches [] ch = []
trim_end_matches (c ∷ s) ch =
    let rest = trim_end_matches s ch in if rest == "" && char_eqb c ch then [] else c ∷ rest

-- `s <= t`, by the code points in turn
unfoldable pub text_leb : String → String → Bool
text_leb [] t = true
text_leb (c ∷ s) [] = false
text_leb (c ∷ s) (d ∷ t) =
    let rest = text_leb s t in if nat_eqb (code c) (code d) then rest else ltb (code c) (code d)

-- `v.sort()`
unfoldable pub insert_sorted : String → List String → List String
insert_sorted s List.[] = List.◌∷◌ s List.[]
insert_sorted s (List.◌∷◌ t ts) =
    let rest = insert_sorted s ts in
    if text_leb s t then List.◌∷◌ s (List.◌∷◌ t ts) else List.◌∷◌ t rest

unfoldable pub sort : List String → List String
sort List.[] = List.[]
sort (List.◌∷◌ s ts) = insert_sorted s (sort ts)

-- a text in front of a list, unless the list starts with it
abbrev pub put_new : String → List String → List String
put_new s List.[] = List.◌∷◌ s List.[]
put_new s (List.◌∷◌ t ts) = if s == t then List.◌∷◌ t ts else List.◌∷◌ s (List.◌∷◌ t ts)

-- `v.dedup()`
unfoldable pub dedup : List String → List String
dedup List.[] = List.[]
dedup (List.◌∷◌ s ts) = put_new s (dedup ts)
