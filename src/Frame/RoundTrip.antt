-- ===== src/Frame/RoundTrip.antt =====
-- protocol.rs: what is read of what was written.
use mathlib.Core.List.{append_assoc}
use experimental_crdt.Base.{
  ℕ, ◌^◌, ◌<◌, some, [], ◌∷◌, ◌++◌, ◌≡◌, refl, ok, err, ltb, if◌then◌else◌, length, arith,
}
use experimental_crdt.Proto.{Bytes, Envelope, Message}
use experimental_crdt.Frame.{
  max_frame_len, put_u32, from_be_bytes, read_exact, write_envelope, read_payload, read_envelope,
}

pub from_be_bytes-put_u32 : (n : ℕ) → n < 2 ^ 32 → from_be_bytes (put_u32 n) ≡ n
unfolding from_be_bytes put_u32
from_be_bytes-put_u32 n h = omega arith

pub read_exact-append : (xs rest : Bytes) → read_exact (length xs) (xs ++ rest) ≡ some (xs, rest)
unfolding read_exact
read_exact-append [] rest = refl
read_exact-append (x ∷ xs) rest = rw (read_exact-append xs rest)

pub read_exact-put_u32 :
    (n : ℕ) (rest : Bytes) → read_exact 4 (put_u32 n ++ rest) ≡ some (put_u32 n, rest)
unfolding put_u32
read_exact-put_u32 n rest = read_exact-append (put_u32 n) rest

-- An envelope that was written is read back, with the rest of the stream left, if its encoding is
-- no longer than the reader's limit; a longer one is written all the same and refused by the
-- reader. Prost gives back the envelope, and the length fits the prefix of 32 bits.
pub read_envelope-write_envelope :
    (prost : Message Envelope) (envelope : Envelope) (rest : Bytes)
    → prost.decode (prost.encode_to_vec envelope) ≡ ok envelope
    → length (prost.encode_to_vec envelope) < 2 ^ 32
    → read_envelope prost (write_envelope prost envelope ++ rest) ≡ (
        if ltb max_frame_len (length (prost.encode_to_vec envelope))
        then err "frame too large"
        else ok (some envelope, rest))
unfolding read_envelope write_envelope read_payload
read_envelope-write_envelope prost envelope rest round_trip fits =
    let encoded = prost.encode_to_vec envelope in
    let n = length encoded in
    ground (
      arith,
      append_assoc (put_u32 n) encoded rest,
      read_exact-put_u32 n (encoded ++ rest),
      from_be_bytes-put_u32 n fits,
      read_exact-append encoded rest,
    )
