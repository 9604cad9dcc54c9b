-- ===== src/Client.antt =====
-- src/client/crdt_client.rs: the interactive client. The terminal's lines, the bytes that come back and
-- `char::is_whitespace` are given; an error message is kept as a text that is empty or not.
pub mod Lines
pub mod Session
pub mod Bench
use Prim.Native.Char.{Char, code}
use Prim.Native.String.{[] as empty, ◌∷◌ as cons}
use experimental_crdt.Base.{
  ℕ, zero, suc, String, ◌==◌, string_eq, Bool, true, false, ◌&&◌, Option, none, some, List, [], ◌∷◌,
  ◌++◌, Result, ok, err, if◌then◌else◌, length, ◌>>=◌, ok_or,
}
use experimental_crdt.Text.{is_empty, splitn}
use experimental_crdt.Proto.{
  Bytes, Message, Command, add, remove, print_state, print_internals, print_matrix, remove_random,
  ProtoClientCommand,
}
use experimental_crdt.Frame.{put_u32, read_exact, behind_length}

-- `s.trim()`, from both ends
unfoldable pub trim_start : (Char → Bool) → String → String
trim_start white empty = empty
trim_start white (cons c s) = if white c then trim_start white s else cons c s

unfoldable pub trim_end : (Char → Bool) → String → String
trim_end white empty = empty
trim_end white (cons c s) =
    let rest = trim_end white s in if is_empty rest && white c then empty else cons c rest

unfoldable pub trim : (Char → Bool) → String → String
trim white s = trim_end white (trim_start white s)

-- `["quit"] | ["exit"]` and the commands of one word
abbrev pub one_word : String → Result (Option Command)
one_word word =
    if word == "remove-random"
    then ok (some (remove_random true))
    else if word == "print-state"
    then ok (some (print_state true))
    else if word == "print-internals"
    then ok (some (print_internals true))
    else if word == "print-matrix"
    then ok (some (print_matrix true))
    else if word == "quit"
    then ok none
    else if word == "exit"
    then ok none
    else if word == ""
    then err ""
    else err "Unknown command"

abbrev pub two_words : String → String → Result (Option Command)
two_words word value =
    if word == "add"
    then ok (some (add value))
    else if word == "remove"
    then ok (some (remove value))
    else err "Unknown command"

-- `match parts.as_slice()`
abbrev pub command_of : List String → Result (Option Command)
command_of [] = err ""
command_of (word ∷ []) = one_word word
command_of (word ∷ value ∷ []) = two_words word value
command_of _ = err "Unknown command"

unfoldable pub parse_line : (Char → Bool) → String → Result (Option Command)
parse_line white line = command_of (splitn 2 (trim white line) " ")

unfoldable pub send_command : Message ProtoClientCommand → Command → Bytes
send_command prost command =
    let payload = prost.encode_to_vec (record { command = some command }) in
    put_u32 (length payload) ++ payload

-- a response, and the bytes behind it
unfoldable pub recv_response : Bytes → Result (Bytes × Bytes)
recv_response input = ok_or (behind_length (read_exact 4 input)) "early eof"

-- what a session sends, and the responses that it prints
pub record Transcript : Type 0 where
  pub sent : Bytes
  pub printed : List Bytes

abbrev pub exchanged : Bytes → Bytes → Result Transcript → Result Transcript
exchanged request response (ok t) =
    ok (record { sent = request ++ t.sent; printed = response ∷ t.printed })
exchanged request response (err e) = err e

-- the loop over the lines, up to the end of the input or a line that quits
unfoldable pub run_interactive :
    Message ProtoClientCommand → (Char → Bool) → List String → Bytes → Result Transcript
run_interactive prost white [] input = ok (record { sent = []; printed = [] })
run_interactive prost white (line ∷ lines) input = elim (parse_line white line) [
  | err e ↦ run_interactive prost white lines input
  | ok none ↦ ok (record { sent = []; printed = [] })
  | ok (some command) ↦ elim (recv_response input) [
    | err e ↦ err e
    | ok (response, rest) ↦
        exchanged (send_command prost command) response (run_interactive prost white lines rest)
  ]
]
