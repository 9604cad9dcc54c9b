-- ===== src/Tests/Texts.antt =====
-- A text as the code points of its characters, one to a byte of the model, and back.
use Prim.Native.Nat.{Ordering, compare}
use Prim.Native.Char.{Char, char, code, IsScalar}
use Prim.Native.String.{[] as empty, ◌∷◌ as cons}
use text.Mathlib.TextEquality.{Char-path}
use experimental_crdt.Base.{
  ℕ, String, Option, none, some, [], ◌∷◌, ◌≡◌, refl, ap, Result, ok, err, arith, true,
}
use experimental_crdt.Map.{is_some}
use experimental_crdt.Proto.{Bytes}
use experimental_crdt.OrSet.Codec.{ElementCodec}

abbrev Less : Ordering → Type 0
Less Ordering.lt = Unit
Less Ordering.eq = ⊥
Less Ordering.gt = ⊥

abbrev Both : Ordering → Ordering → Type 0
Both Ordering.lt o = Less o
Both Ordering.eq _ = ⊥
Both Ordering.gt _ = ⊥

abbrev Scalar : Ordering → Ordering → Ordering → Type 0
Scalar Ordering.lt _ _ = Unit
Scalar Ordering.eq o p = Both o p
Scalar Ordering.gt o p = Both o p

abbrev is_less : (o : Ordering) → Option (Less o)
is_less Ordering.lt = some tt
is_less Ordering.eq = none
is_less Ordering.gt = none

abbrev are_both : (o p : Ordering) → Option (Both o p)
are_both Ordering.lt p = is_less p
are_both Ordering.eq _ = none
are_both Ordering.gt _ = none

abbrev is_scalar : (o p q : Ordering) → Option (Scalar o p q)
is_scalar Ordering.lt _ _ = some tt
is_scalar Ordering.eq o p = are_both o p
is_scalar Ordering.gt o p = are_both o p

is_less-found : (o : Ordering) → Less o → is_some (is_less o) ≡ true
is_less-found Ordering.lt h = refl
is_less-found Ordering.eq h = absurd h
is_less-found Ordering.gt h = absurd h

are_both-found : (o p : Ordering) → Both o p → is_some (are_both o p) ≡ true
are_both-found Ordering.lt p h = is_less-found p h
are_both-found Ordering.eq p h = absurd h
are_both-found Ordering.gt p h = absurd h

is_scalar-found : (o p q : Ordering) → Scalar o p q → is_some (is_scalar o p q) ≡ true
is_scalar-found Ordering.lt p q h = refl
is_scalar-found Ordering.eq p q h = are_both-found p q h
is_scalar-found Ordering.gt p q h = are_both-found p q h

abbrev pub char_of : (n : ℕ) → Option (IsScalar n) → Option Char
char_of n none = none
char_of n (some h) = some (char n h)

abbrev pub from_u32 : ℕ → Option Char
from_u32 n = char_of n (is_scalar (compare n 55296) (compare 57343 n) (compare n 1114112))

char_of-some :
    (n : ℕ) (h : IsScalar n) (o : Option (IsScalar n))
    → is_some o ≡ true
    → char_of n o ≡ some (char n h)
char_of-some n h none s = absurd (ground arith)
char_of-some n h (some g) s = ap some (Char-path (char n g) (char n h) refl)

from_u32-code : (c : Char) → from_u32 (code c) ≡ some c
from_u32-code (char n h) =
    char_of-some n h (is_scalar (compare n 55296) (compare 57343 n) (compare n 1114112))
      (is_scalar-found (compare n 55296) (compare 57343 n) (compare n 1114112) h)

abbrev pub into_bytes : String → Bytes
into_bytes empty = []
into_bytes (cons c s) = code c ∷ into_bytes s

abbrev pub put : Option Char → Result String → Result String
put none r = err "not a character"
put (some c) (ok s) = ok (cons c s)
put (some c) (err e) = err e

abbrev pub from_bytes : Bytes → Result String
from_bytes [] = ok empty
from_bytes (b ∷ bs) = put (from_u32 b) (from_bytes bs)

pub from_bytes-into_bytes : (s : String) → from_bytes (into_bytes s) ≡ ok s
from_bytes-into_bytes empty = refl
from_bytes-into_bytes (cons c s) = rw (from_u32-code c) (rw (from_bytes-into_bytes s) refl)

abbrev pub texts : ElementCodec String
texts = record {
  encode_elem = into_bytes;
  decode_elem = from_bytes;
  decode_encode = from_bytes-into_bytes;
}
