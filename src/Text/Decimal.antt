-- ===== src/Text/Decimal.antt =====
-- Numbers in decimal: `{}` of an integer, and `parse` of a `u64` and of an `i64`.
use Prim.Native.Char.{Char, code}
use Prim.Native.String.{[], ◌∷◌}
use experimental_crdt.Base.{
  ℕ, zero, suc, ◌+◌, ◌-◌, ◌*◌, ◌/◌, ◌%◌, ◌^◌, ◌<◌, String, Bool, true, false, ◌&&◌, Option, none,
  some, ◌≡◌, refl, ap, ltb, leb, if◌then◌else◌, arith,
}
use experimental_crdt.Text.{◌<>◌, char_eqb}
use experimental_crdt.Text.Split.{lacks}

-- the library's integers, over the native numbers
pub data ℤ : Type 0 where
  pos : ℕ → ℤ
  negsuc : ℕ → ℤ

unfoldable pub digit : ℕ → Char
digit zero = "0"
digit (suc zero) = "1"
digit (suc (suc zero)) = "2"
digit (suc (suc (suc zero))) = "3"
digit (suc (suc (suc (suc zero)))) = "4"
digit (suc (suc (suc (suc (suc zero))))) = "5"
digit (suc (suc (suc (suc (suc (suc zero)))))) = "6"
digit (suc (suc (suc (suc (suc (suc (suc zero))))))) = "7"
digit (suc (suc (suc (suc (suc (suc (suc (suc zero)))))))) = "8"
digit _ = "9"

-- the digits of a number in front of a text; the fuel is above the number of digits
unfoldable pub put_digits : ℕ → ℕ → String → String
put_digits zero n tail = tail
put_digits (suc fuel) n tail = elim (ltb n 10) [
  | true ↦ digit n ∷ tail
  | false ↦ put_digits fuel (n / 10) (digit (n % 10) ∷ tail)
]

unfoldable pub show_nat : ℕ → String
show_nat n = put_digits (n + 1) n ""

unfoldable pub show_int : ℤ → String
show_int (pos n) = show_nat n
show_int (negsuc n) = "-" <> show_nat (n + 1)

-- the digits of a number below the limit
unfoldable pub read_digits : ℕ → ℕ → String → Option ℕ
read_digits limit acc [] = some acc
read_digits limit acc (c ∷ s) =
    let next = acc * 10 + (code c - 48) in
    elim (leb 48 (code c) && leb (code c) 57 && ltb next limit) [
      | true ↦ read_digits limit next s
      | false ↦ none
    ]

-- at least one digit, behind a sign that may be left out
abbrev pub read_unsigned : ℕ → String → Option ℕ
read_unsigned limit [] = none
read_unsigned limit (c ∷ s) = read_digits limit 0 (c ∷ s)

abbrev pub read_plus : ℕ → String → Option ℕ
read_plus limit [] = none
read_plus limit (c ∷ s) =
    if char_eqb c "+" then read_unsigned limit s else read_unsigned limit (c ∷ s)

-- `parse::<u64>()`
unfoldable pub parse_u64 : String → Option ℕ
parse_u64 s = read_plus (2 ^ 64) s

abbrev pub positive : Option ℕ → Option ℤ
positive none = none
positive (some n) = some (pos n)

abbrev pub negative : Option ℕ → Option ℤ
negative none = none
negative (some zero) = some (pos 0)
negative (some (suc n)) = some (negsuc n)

-- `parse::<i64>()`
unfoldable pub parse_i64 : String → Option ℤ
parse_i64 [] = none
parse_i64 (c ∷ s) =
    if char_eqb c "-"
    then negative (read_unsigned (2 ^ 63 + 1) s)
    else positive (read_plus (2 ^ 63) (c ∷ s))

code-digit : (d : ℕ) → d < 10 → code (digit d) ≡ 48 + d
unfolding digit
code-digit zero h = refl
code-digit (suc zero) h = refl
code-digit (suc (suc zero)) h = refl
code-digit (suc (suc (suc zero))) h = refl
code-digit (suc (suc (suc (suc zero)))) h = refl
code-digit (suc (suc (suc (suc (suc zero))))) h = refl
code-digit (suc (suc (suc (suc (suc (suc zero)))))) h = refl
code-digit (suc (suc (suc (suc (suc (suc (suc zero))))))) h = refl
code-digit (suc (suc (suc (suc (suc (suc (suc (suc zero)))))))) h = refl
code-digit (suc (suc (suc (suc (suc (suc (suc (suc (suc zero))))))))) h = refl
code-digit (suc (suc (suc (suc (suc (suc (suc (suc (suc (suc d)))))))))) h = absurd (omega arith)

read_digits-put_digits :
    (fuel limit n : ℕ) (tail : String)
    → n < fuel
    → n < limit
    → read_digits limit 0 (put_digits fuel n tail) ≡ read_digits limit n tail
unfolding put_digits read_digits
read_digits-put_digits zero limit n tail h l = absurd (omega arith)
read_digits-put_digits (suc fuel) limit n tail h l = ground (
  arith,
  code-digit n,
  code-digit (n % 10),
  read_digits-put_digits fuel limit (n / 10) (digit (n % 10) ∷ tail),
)

abbrev is_digit : Char → Bool
is_digit c = leb 48 (code c) && leb (code c) 57

abbrev all_digits : String → Bool
all_digits [] = true
all_digits (c ∷ s) = is_digit c && all_digits s

all_digits-put_digits :
    (fuel n : ℕ) (tail : String)
    → all_digits tail ≡ true
    → all_digits (put_digits fuel n tail) ≡ true
unfolding put_digits
all_digits-put_digits zero n tail h = h
all_digits-put_digits (suc fuel) n tail h = ground (
  arith,
  code-digit n,
  code-digit (n % 10),
  all_digits-put_digits fuel (n / 10) (digit (n % 10) ∷ tail),
)

-- a text that is not empty
abbrev is_some_text : String → Bool
is_some_text [] = false
is_some_text (c ∷ s) = true

put_digits-keeps_text :
    (fuel n : ℕ) (tail : String)
    → is_some_text tail ≡ true
    → is_some_text (put_digits fuel n tail) ≡ true
unfolding put_digits
put_digits-keeps_text zero n tail h = h
put_digits-keeps_text (suc fuel) n tail h =
    ground (arith, put_digits-keeps_text fuel (n / 10) (digit (n % 10) ∷ tail) refl)

put_digits-not_empty :
    (fuel n : ℕ) (tail : String) → n < fuel → is_some_text (put_digits fuel n tail) ≡ true
unfolding put_digits
put_digits-not_empty zero n tail h = absurd (omega arith)
put_digits-not_empty (suc fuel) n tail h =
    ground (arith, put_digits-keeps_text fuel (n / 10) (digit (n % 10) ∷ tail) refl)

read_plus-digits :
    (limit : ℕ) (s : String)
    → all_digits s ≡ true
    → is_some_text s ≡ true
    → read_plus limit s ≡ read_digits limit 0 s
read_plus-digits limit [] a n = absurd (ground arith)
read_plus-digits limit (c ∷ s) a n = ground arith

pub lacks-digits : (s : String) → all_digits s ≡ true → lacks "_" s ≡ true
lacks-digits [] a = refl
lacks-digits (c ∷ s) a = ground (arith, lacks-digits s)

-- A number below 2 ^ 64 that is shown and parsed is the same number.
pub parse_u64-show_nat : (n : ℕ) → n < 2 ^ 64 → parse_u64 (show_nat n) ≡ some n
unfolding parse_u64 show_nat read_digits
parse_u64-show_nat n h = ground (
  arith,
  read_plus-digits (2 ^ 64) (put_digits (n + 1) n ""),
  all_digits-put_digits (n + 1) n "" refl,
  put_digits-not_empty (n + 1) n "",
  read_digits-put_digits (n + 1) (2 ^ 64) n "",
)

abbrev pub IsI64 : ℤ → Type 0
IsI64 (pos n) = n < 2 ^ 63
IsI64 (negsuc n) = n < 2 ^ 63

parse_i64-digits :
    (s : String)
    → all_digits s ≡ true
    → is_some_text s ≡ true
    → parse_i64 s ≡ positive (read_digits (2 ^ 63) 0 s)
unfolding parse_i64
parse_i64-digits [] a n = absurd (ground arith)
parse_i64-digits (c ∷ s) a n = ground arith

read_unsigned-digits :
    (limit : ℕ) (s : String) → is_some_text s ≡ true → read_unsigned limit s ≡ read_digits limit 0 s
read_unsigned-digits limit [] n = absurd (ground arith)
read_unsigned-digits limit (c ∷ s) n = refl

-- An integer of 64 bits that is shown and parsed is the same integer.
pub parse_i64-show_int : (n : ℤ) → IsI64 n → parse_i64 (show_int n) ≡ some n
unfolding parse_i64 show_int show_nat read_digits
parse_i64-show_int (pos n) h = ground (
  arith,
  parse_i64-digits (put_digits (n + 1) n ""),
  all_digits-put_digits (n + 1) n "" refl,
  put_digits-not_empty (n + 1) n "",
  read_digits-put_digits (n + 1) (2 ^ 63) n "",
)
parse_i64-show_int (negsuc n) h = ground (
  arith,
  read_unsigned-digits (2 ^ 63 + 1) (put_digits (n + 1 + 1) (n + 1) ""),
  put_digits-not_empty (n + 1 + 1) (n + 1) "",
  read_digits-put_digits (n + 1 + 1) (2 ^ 63 + 1) (n + 1) "",
)

pub lacks-show_nat : (n : ℕ) → lacks "_" (show_nat n) ≡ true
unfolding show_nat
lacks-show_nat n = lacks-digits (put_digits (n + 1) n "") (all_digits-put_digits (n + 1) n "" refl)

-- Two numbers that are shown alike are equal.
pub show_nat_injective : (m n : ℕ) → show_nat m ≡ show_nat n → m ≡ n
unfolding show_nat read_digits
show_nat_injective m n e =
    let limit = m + n + 1 in
    ground (
      arith,
      read_digits-put_digits (m + 1) limit m "",
      read_digits-put_digits (n + 1) limit n "",
      ap (λ s. read_digits limit 0 s) e,
    )
