-- ===== src/Frame.antt =====
-- src/network/protocol.rs: length-delimited frames over a byte stream. A stream is the bytes that
-- are still to be read, and its end; other failures of the socket are left out. The bytes of an
-- envelope are prost's, and their number is its `encoded_len`.
pub mod RoundTrip
use experimental_crdt.Base.{
  ℕ, zero, suc, ◌+◌, ◌*◌, ◌/◌, ◌%◌, ◌^◌, Option, none, some, List, [], ◌∷◌, ◌++◌, Result, ok, err,
  ltb, if◌then◌else◌, length,
}
use experimental_crdt.Proto.{Bytes, Envelope, Message}

abbrev pub max_frame_len : ℕ
max_frame_len = 16 * 1024 * 1024

-- `put_u32`, and `as u32`
unfoldable pub put_u32 : ℕ → Bytes
put_u32 n = (n / 2 ^ 24 % 256) ∷ (n / 2 ^ 16 % 256) ∷ (n / 2 ^ 8 % 256) ∷ (n % 256) ∷ []

-- `u32::from_be_bytes`
unfoldable pub from_be_bytes : Bytes → ℕ
from_be_bytes [] = 0
from_be_bytes (b ∷ bs) = b * 256 ^ length bs + from_be_bytes bs

-- the first bytes and the rest, if there are that many
unfoldable pub read_exact : ℕ → Bytes → Option (Bytes × Bytes)
read_exact zero input = some ([], input)
read_exact (suc n) [] = none
read_exact (suc n) (b ∷ input) = elim (read_exact n input) [
  | none ↦ none
  | some (bs, rest) ↦ some (b ∷ bs, rest)
]

-- a message behind its length, without a limit, and what follows; the client's connections use it
abbrev pub behind_length : Option (Bytes × Bytes) → Option (Bytes × Bytes)
behind_length none = none
behind_length (some (len_buf, input)) = read_exact (from_be_bytes len_buf) input

unfoldable pub write_envelope : Message Envelope → Envelope → Bytes
write_envelope prost envelope =
    let encoded = prost.encode_to_vec envelope in put_u32 (length encoded) ++ encoded

-- behind the length: the payload and its decoding
unfoldable pub read_payload : Message Envelope → ℕ → Bytes → Result (Option Envelope × Bytes)
read_payload prost len input = elim (read_exact len input) [
  | none ↦ err "early eof"
  | some (payload, rest) ↦ elim (prost.decode payload) [
    | err e ↦ err e
    | ok envelope ↦ ok (some envelope, rest)
  ]
]

-- the envelope, or none at the end of the stream, and what is left of the stream
unfoldable pub read_envelope : Message Envelope → Bytes → Result (Option Envelope × Bytes)
read_envelope prost input = elim (read_exact 4 input) [
  | none ↦ ok (none, [])
  | some (len_buf, rest) ↦
      if ltb max_frame_len (from_be_bytes len_buf)
      then err "frame too large"
      else read_payload prost (from_be_bytes len_buf) rest
]
