-- ===== src/Tcp/Streams.antt =====
-- tcp_connection.rs: what the reader at one end takes from the writer at the other.
use experimental_crdt.Base.{
  ℕ, zero, suc, ◌+◌, ◌<◌, ◌≤◌, String, true, Option, none, some, List, [], ◌∷◌, ◌++◌, ◌≡◌, refl, ok,
  length, arith, Result-cases, Option-cases, inl, inr,
}
use experimental_crdt.Map.{is_some}
use experimental_crdt.Proto.{Bytes, Envelope, Message}
use experimental_crdt.Registry.{Sender}
use experimental_crdt.Frame.{from_be_bytes, read_exact, read_payload, read_envelope, write_envelope}
use experimental_crdt.Tcp.{dispatch, reader_loop, read_all, writer_loop}
use experimental_crdt.Tcp.Handshakes.{Fits, read_envelope-Fits}

-- what is read exactly is taken off the front
pub read_exact-length :
    (n : ℕ) (input bs rest : Bytes)
    → read_exact n input ≡ some (bs, rest)
    → length rest + n ≡ length input
unfolding read_exact
read_exact-length zero input bs rest h = ground arith
read_exact-length (suc n) [] bs rest h = absurd (ground arith)
read_exact-length (suc n) (b ∷ input) bs rest h = elim (Option-cases (read_exact n input)) [
  | inl short ↦ absurd (ground arith)
  | inr got ↦ ground (arith, read_exact-length n input got.0.0 got.0.1 got.1)
]

read_payload-length :
    (prost : Message Envelope) (n : ℕ) (input : Bytes) (found : Option Envelope) (rest : Bytes)
    → read_payload prost n input ≡ ok (found, rest)
    → length rest ≤ length input
unfolding read_payload
read_payload-length prost n input found rest h = elim (Option-cases (read_exact n input)) [
  | inl short ↦ absurd (ground arith)
  | inr got ↦ ground (arith, read_exact-length n input got.0.0 got.0.1 got.1)
]

-- An envelope that is read takes its length prefix at least.
pub read_envelope-length :
    (prost : Message Envelope) (input : Bytes) (envelope : Envelope) (rest : Bytes)
    → read_envelope prost input ≡ ok (some envelope, rest)
    → length rest < length input
unfolding read_envelope
read_envelope-length prost input envelope rest h = elim (Option-cases (read_exact 4 input)) [
  | inl short ↦ absurd (ground arith)
  | inr got ↦ ground (
    arith,
    read_exact-length 4 input got.0.0 got.0.1 got.1,
    read_payload-length prost (from_be_bytes got.0.0) got.0.1 (some envelope) rest,
  )
]

read_envelope-nil : (prost : Message Envelope) → read_envelope prost [] ≡ ok (none, [])
unfolding read_envelope read_exact
read_envelope-nil prost = refl

module _ {Q : Type 0} (app_tx : Sender Q Envelope) (prost : Message Envelope) where
  -- the channel after the envelopes are dispatched one after the other
  abbrev pub dispatch_all : Q → List Envelope → Q
  dispatch_all q [] = q
  dispatch_all q (envelope ∷ envelopes) = dispatch_all (dispatch app_tx q envelope) envelopes

  -- all envelopes of a list fit a frame
  abbrev pub AllFit : List Envelope → Type 0
  AllFit [] = Unit {0}
  AllFit (envelope ∷ envelopes) = Fits prost envelope × AllFit envelopes

  reader_loop_ends :
      (fuel : ℕ) (input : Bytes) (q : Q)
      → length input < fuel
      → is_some (reader_loop app_tx prost fuel input q) ≡ true
  unfolding reader_loop
  reader_loop_ends zero input q h = absurd (omega arith)
  reader_loop_ends (suc fuel) input q h = elim (Result-cases (read_envelope prost input)) [
    | inr failed ↦ ground (arith, failed.1)
    | inl read ↦ elim (Option-cases read.0.0) [
      | inl end ↦ ground (arith, read.1, end)
      | inr found ↦ ground (
        arith,
        read.1,
        found.1,
        read_envelope-length prost input found.0 read.0.1 (ground (arith, read.1, found.1)),
        reader_loop_ends fuel read.0.1 (dispatch app_tx q found.0),
      )
    ]
  ]

  -- The reader's loop ends on every input: one unit of fuel for each byte and one more are enough, and
  -- what it ends with then is what the reader gives.
  pub read_all-ends :
      (input : Bytes) (q : Q)
      → (end : String × Q) × (reader_loop app_tx prost (length input + 1) input q ≡ some end)
        × (read_all app_tx prost input q ≡ end)
  unfolding read_all
  read_all-ends input q =
      elim (Option-cases (reader_loop app_tx prost (length input + 1) input q)) [
        | inl endless ↦
            absurd (ground (arith, reader_loop_ends (length input + 1) input q (omega arith)))
        | inr found ↦ (found.0, found.1, ground arith)
      ]

  reader_loop-writer_loop :
      (envelopes : List Envelope) (fuel : ℕ) (q : Q)
      → AllFit envelopes
      → length (writer_loop prost envelopes) < fuel
      → reader_loop app_tx prost fuel (writer_loop prost envelopes) q
        ≡ some ("connection closed", dispatch_all q envelopes)
  unfolding reader_loop writer_loop
  reader_loop-writer_loop envelopes zero q fit h = absurd (omega arith)
  reader_loop-writer_loop [] (suc fuel) q fit h = ground (arith, read_envelope-nil prost)
  reader_loop-writer_loop (envelope ∷ envelopes) (suc fuel) q fit h =
      let rest = writer_loop prost envelopes in
      let read = read_envelope-Fits prost envelope rest fit.0 in
      ground (
        arith,
        read,
        read_envelope-length prost (write_envelope prost envelope ++ rest) envelope rest read,
        reader_loop-writer_loop envelopes fuel (dispatch app_tx q envelope) fit.1,
      )

  -- The reader at one end dispatches what the writer at the other end sent, every envelope once and in
  -- the order in which it was sent, and then finds the connection closed. Each envelope fits a frame.
  pub read_all-writer_loop :
      (envelopes : List Envelope) (q : Q)
      → AllFit envelopes
      → read_all app_tx prost (writer_loop prost envelopes) q
        ≡ ("connection closed", dispatch_all q envelopes)
  unfolding read_all
  read_all-writer_loop envelopes q fit =
      ground
        (arith, reader_loop-writer_loop envelopes (length (writer_loop prost envelopes) + 1) q fit)
