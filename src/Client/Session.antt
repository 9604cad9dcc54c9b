-- ===== src/Client/Session.antt =====
-- crdt_client.rs and src/server/client_requests_handler.rs: a client and the server at the two ends of
-- one connection.
use mathlib.Core.List.{append-nil, append_assoc}
use experimental_crdt.Base.{
  ℕ, zero, suc, ◌+◌, ◌^◌, ◌<◌, String, Bool, true, none, some, List, [], ◌∷◌, ◌++◌, ◌≡◌, refl, ok,
  length, arith, Option-cases, inl, inr,
}
use Prim.Native.Char.{Char}
use experimental_crdt.Map.{is_some}
use experimental_crdt.Proto.{Bytes, Message, Command, ProtoClientCommand}
use experimental_crdt.OrSet.{OrSetOp}
use experimental_crdt.Frame.{put_u32, from_be_bytes, read_exact, behind_length}
use experimental_crdt.Frame.RoundTrip.{from_be_bytes-put_u32, read_exact-append, read_exact-put_u32}
use experimental_crdt.Tcp.Streams.{read_exact-length}
use experimental_crdt.Server.Clients.{EngineLink, handle_command, respond, serve_client}
use experimental_crdt.Client.{parse_line, send_command, recv_response, run_interactive}

-- a message behind its length
abbrev pub framed : Bytes → Bytes
framed bytes = put_u32 (length bytes) ++ bytes

-- A framed message that fits its prefix is read back, with the rest of the stream left.
behind_length-framed :
    (bytes rest : Bytes)
    → length bytes < 2 ^ 32
    → behind_length (read_exact 4 (framed bytes ++ rest)) ≡ some (bytes, rest)
behind_length-framed bytes rest fits = ground (
  arith,
  append_assoc (put_u32 (length bytes)) bytes rest,
  read_exact-put_u32 (length bytes) (bytes ++ rest),
  from_be_bytes-put_u32 (length bytes) fits,
  read_exact-append bytes rest,
)

behind_length-nil : behind_length (read_exact 4 []) ≡ none
unfolding read_exact
behind_length-nil = refl

module _ {Q : Type 0} (engine : EngineLink Q (OrSetOp String)) (prost : Message ProtoClientCommand)
    (into_bytes : String → Bytes) (white : Char → Bool) where
  -- the responses to commands that the server takes one after the other, as bytes
  abbrev pub responses : List Command → Q → List Bytes
  responses [] q = []
  responses (c ∷ cs) q =
      into_bytes (handle_command engine (some c) q).0
      ∷ responses cs (handle_command engine (some c) q).1

  -- the engine behind the commands
  abbrev pub after : List Command → Q → Q
  after [] q = q
  after (c ∷ cs) q = after cs (handle_command engine (some c) q).1

  abbrev pub framed_all : List Bytes → Bytes
  framed_all [] = []
  framed_all (b ∷ bs) = framed b ++ framed_all bs

  abbrev pub requests : List Command → Bytes
  requests [] = []
  requests (c ∷ cs) = send_command prost c ++ requests cs

  -- Prost gives every command back, and the messages and the responses fit their prefixes.
  abbrev pub AllFit : List Command → Q → Type 0
  AllFit [] q = Unit {0}
  AllFit (c ∷ cs) q =
      (prost.decode (prost.encode_to_vec (record { command = some c }))
        ≡ ok (record { command = some c }))
      × (length (prost.encode_to_vec (record { command = some c })) < 2 ^ 32)
      × (length (into_bytes (handle_command engine (some c) q).0) < 2 ^ 32)
      × AllFit cs (handle_command engine (some c) q).1

  -- the lines stand for the commands, one for each
  abbrev pub Stand : List String → List Command → Type 0
  Stand [] [] = Unit {0}
  Stand [] (c ∷ cs) = ⊥
  Stand (l ∷ ls) [] = ⊥
  Stand (l ∷ ls) (c ∷ cs) = (parse_line white l ≡ ok (some c)) × Stand ls cs

  behind_length-length :
      (input bytes rest : Bytes)
      → behind_length (read_exact 4 input) ≡ some (bytes, rest)
      → length rest < length input
  behind_length-length input bytes rest h = elim (Option-cases (read_exact 4 input)) [
    | inl short ↦ absurd (ground arith)
    | inr got ↦ ground (
      arith,
      read_exact-length 4 input got.0.0 got.0.1 got.1,
      read_exact-length (from_be_bytes got.0.0) got.0.1 bytes rest,
    )
  ]

  -- The server's loop over a client's messages ends on every input: fuel above its length is enough.
  pub serve_client-ends :
      (fuel : ℕ) (input out : Bytes) (q : Q)
      → length input < fuel
      → is_some (serve_client engine prost into_bytes fuel input out q) ≡ true
  unfolding serve_client
  serve_client-ends zero input out q h = absurd (omega arith)
  serve_client-ends (suc fuel) input out q h =
      elim (Option-cases (behind_length (read_exact 4 input))) [
        | inl end ↦ ground (arith, end)
        | inr got ↦
            let response = respond engine prost got.0.0 q in
            ground (
              arith,
              got.1,
              behind_length-length input got.0.0 got.0.1 got.1,
              serve_client-ends fuel got.0.1 (out ++ framed (into_bytes response.0)) response.1,
            )
      ]

  serve_client-requests :
      (cs : List Command) (fuel : ℕ) (out : Bytes) (q : Q)
      → AllFit cs q
      → length (requests cs) < fuel
      → serve_client engine prost into_bytes fuel (requests cs) out q
        ≡ some (out ++ framed_all (responses cs q), after cs q)
  unfolding serve_client respond send_command
  serve_client-requests cs zero out q fit h = absurd (omega arith)
  serve_client-requests [] (suc fuel) out q fit h =
      ground (arith, behind_length-nil, append-nil out)
  serve_client-requests (c ∷ cs) (suc fuel) out q fit h =
      let message = prost.encode_to_vec (record { command = some c }) in
      let response = handle_command engine (some c) q in
      let read = behind_length-framed message (requests cs) fit.1 in
      ground (
        arith,
        read,
        fit.0,
        behind_length-length (framed message ++ requests cs) message (requests cs) read,
        append_assoc out (framed (into_bytes response.0)) (framed_all (responses cs response.1)),
        serve_client-requests cs fuel (out ++ framed (into_bytes response.0)) response.1 fit.3,
      )

  run_interactive-responses :
      (lines : List String) (cs : List Command) (q : Q) (more : Bytes)
      → Stand lines cs
      → AllFit cs q
      → run_interactive prost white lines (framed_all (responses cs q) ++ more)
        ≡ ok (record { sent = requests cs; printed = responses cs q })
  unfolding run_interactive recv_response send_command
  run_interactive-responses [] [] q more stand fit = refl
  run_interactive-responses [] (c ∷ cs) q more stand fit = absurd stand
  run_interactive-responses (l ∷ ls) [] q more stand fit = absurd stand
  run_interactive-responses (l ∷ ls) (c ∷ cs) q more stand fit =
      let response = handle_command engine (some c) q in
      let bytes = into_bytes response.0 in
      let left = framed_all (responses cs response.1) ++ more in
      ground (
        arith,
        append_assoc (framed bytes) (framed_all (responses cs response.1)) more,
        behind_length-framed bytes left fit.2,
        run_interactive-responses ls cs response.1 more stand.1 fit.3,
      )

  -- A user types lines that stand for commands, one for each. What the client sends then makes the
  -- server handle these commands in their order and send back their responses, with one unit of fuel
  -- for each byte and one more; and with these coming back the client has sent that and prints the
  -- responses in their order. Prost gives every command back, and the messages and responses fit the
  -- prefix of 32 bits.
  pub run_interactive-serve_client :
      (lines : List String) (cs : List Command) (q : Q)
      → Stand lines cs
      → AllFit cs q
      → (serve_client engine prost into_bytes (length (requests cs) + 1) (requests cs) [] q
          ≡ some (framed_all (responses cs q), after cs q))
        × (run_interactive prost white lines (framed_all (responses cs q))
            ≡ ok (record { sent = requests cs; printed = responses cs q }))
  run_interactive-serve_client lines cs q stand fit = (
    serve_client-requests cs (length (requests cs) + 1) [] q fit (omega arith),
    ground (
      arith,
      append-nil (framed_all (responses cs q)),
      run_interactive-responses lines cs q [] stand fit,
    ),
  )
