-- ===== src/Client/Lines.antt =====
-- crdt_client.rs: `parse_line` reads the lines that stand for commands.
use Prim.Native.Char.{Char, code}
use Prim.Native.String.{[] as empty, ◌∷◌ as cons}
use experimental_crdt.Base.{
  ◌≤◌, String, string_eq, Bool, true, false, Option, some, ◌≡◌, refl, Result, ok, arith,
}
use experimental_crdt.Text.{◌<>◌, is_empty, strip_prefix, split_once, splitn}
use experimental_crdt.Proto.{
  Command, add, remove, print_state, print_internals, print_matrix, remove_random,
}
use experimental_crdt.Client.{trim_start, trim_end, trim, command_of, parse_line}

-- the line that a user types for a command
abbrev pub line_of : Command → String
line_of (add value) = "add " <> value
line_of (remove value) = "remove " <> value
line_of (print_state _) = "print-state"
line_of (print_internals _) = "print-internals"
line_of (print_matrix _) = "print-matrix"
line_of (remove_random _) = "remove-random"

-- a value that trimming leaves as it is, and the mark that the client sends
abbrev pub Typed : (Char → Bool) → Command → Type 0
Typed white (add value) = (is_empty value ≡ false) × (trim_end white value ≡ value)
Typed white (remove value) = (is_empty value ≡ false) × (trim_end white value ≡ value)
Typed white (print_state mark) = mark ≡ true
Typed white (print_internals mark) = mark ≡ true
Typed white (print_matrix mark) = mark ≡ true
Typed white (remove_random mark) = mark ≡ true

-- no letter is whitespace
abbrev pub LettersShow : (Char → Bool) → Type 0
LettersShow white = (c : Char) → 97 ≤ code c → code c ≤ 122 → white c ≡ false

append_not_empty : (p v : String) → is_empty v ≡ false → is_empty (p <> v) ≡ false
append_not_empty empty v h = h
append_not_empty (cons c p) v h = refl

trim_end-append :
    (white : Char → Bool) (p v : String)
    → is_empty (trim_end white v) ≡ false
    → trim_end white (p <> v) ≡ p <> trim_end white v
unfolding trim_end
trim_end-append white empty v h = refl
trim_end-append white (cons c p) v h =
    ground (arith, trim_end-append white p v h, append_not_empty p (trim_end white v) h)

trim-word :
    (white : Char → Bool) (c d : Char) (p : String)
    → white c ≡ false
    → white d ≡ false
    → trim white (cons c (p <> (cons d empty))) ≡ cons c (p <> (cons d empty))
unfolding trim trim_start trim_end
trim-word white c d p hc hd = ground (arith, trim_end-append white (cons c p) (cons d empty))

trim-value :
    (white : Char → Bool) (c : Char) (p v : String)
    → white c ≡ false
    → is_empty v ≡ false
    → trim_end white v ≡ v
    → trim white (cons c (p <> v)) ≡ cons c (p <> v)
unfolding trim trim_start
trim-value white c p v hc some_text trimmed = ground (arith, trim_end-append white (cons c p) v)

parse_line-trim :
    (white : Char → Bool) (line : String) (result : Result (Option Command))
    → trim white line ≡ line
    → command_of (splitn 2 line " ") ≡ result
    → parse_line white line ≡ result
unfolding parse_line splitn split_once strip_prefix
parse_line-trim white line result trimmed h = rw trimmed h

-- The line that stands for a command is read back as that command, where the value that is added or
-- removed is not empty and does not end in whitespace, the marks are those that the client sends, and
-- no small letter is whitespace.
pub parse_line-line_of :
    (white : Char → Bool) (command : Command)
    → LettersShow white
    → Typed white command
    → parse_line white (line_of command) ≡ ok (some command)
unfolding parse_line splitn split_once strip_prefix
parse_line-line_of white (add value) letters typed =
    ground (arith, trim-value white "a" "dd " value (letters "a" (omega arith) (omega arith)))
parse_line-line_of white (remove value) letters typed =
    ground (arith, trim-value white "r" "emove " value (letters "r" (omega arith) (omega arith)))
parse_line-line_of white (print_state mark) letters typed =
    let marked : parse_line white "print-state" ≡ ok (some (print_state true)) =
      parse_line-trim white "print-state" (ok (some (print_state true)))
        (trim-word white "p" "e" "rint-stat" (letters "p" (omega arith) (omega arith))
          (letters "e" (omega arith) (omega arith)))
        refl in
    ground (arith, marked)
parse_line-line_of white (print_internals mark) letters typed =
    let marked : parse_line white "print-internals" ≡ ok (some (print_internals true)) =
      parse_line-trim white "print-internals" (ok (some (print_internals true)))
        (trim-word white "p" "s" "rint-internal" (letters "p" (omega arith) (omega arith))
          (letters "s" (omega arith) (omega arith)))
        refl in
    ground (arith, marked)
parse_line-line_of white (print_matrix mark) letters typed =
    let marked : parse_line white "print-matrix" ≡ ok (some (print_matrix true)) =
      parse_line-trim white "print-matrix" (ok (some (print_matrix true)))
        (trim-word white "p" "x" "rint-matri" (letters "p" (omega arith) (omega arith))
          (letters "x" (omega arith) (omega arith)))
        refl in
    ground (arith, marked)
parse_line-line_of white (remove_random mark) letters typed =
    let marked : parse_line white "remove-random" ≡ ok (some (remove_random true)) =
      parse_line-trim white "remove-random" (ok (some (remove_random true)))
        (trim-word white "r" "m" "emove-rando" (letters "r" (omega arith) (omega arith))
          (letters "m" (omega arith) (omega arith)))
        refl in
    ground (arith, marked)
