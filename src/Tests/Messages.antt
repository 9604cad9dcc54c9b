-- ===== src/Tests/Messages.antt =====
-- The theorems on messages, with channels of two places.
use experimental_crdt.Base.{
  ok, map, ◌++◌, ℕ, ◌≡◌, refl, ◌≢◌, true, none, some, List, [], ◌∷◌, arith, nat_eq, string_eq,
}
use experimental_crdt.Clock.{CausalContext}
use experimental_crdt.Registry.{Sender}
use experimental_crdt.Proto.{Envelope}
use experimental_crdt.Dissemination.{make_pull_request_envelope}
use experimental_crdt.Server.{send_last}
use experimental_crdt.Server.Messages.{Sent, envelope_of, receive_all, receive_all-requests}
use experimental_crdt.Server.Request.{CrdtEngineRequest, delta_request, delta_response}
use experimental_crdt.Frame.{write_envelope, read_envelope, read_exact}
use experimental_crdt.Frame.RoundTrip.{read_envelope-write_envelope}
use experimental_crdt.Tests.Data.{only}

abbrev knowledge : CausalContext
knowledge = ("a", 2) ∷ []

abbrev pull : Envelope
pull = make_pull_request_envelope "cart" "a" true knowledge

-- one place of the engine's channel is taken
abbrev queue : List (CrdtEngineRequest ℕ)
queue = CrdtEngineRequest.print_state ∷ []

knowledge-full : knowledge ≢ []
knowledge-full e = absurd (ground arith)

-- a channel without a limit
abbrev endless : Sender (List (CrdtEngineRequest ℕ)) (CrdtEngineRequest ℕ)
endless = record { try_send = λ h m. ok (m ∷ h) }

-- two deltas, one with empty knowledge, and a pull request with empty knowledge
abbrev sent : List Sent
sent =
    Sent.delta "cart" "a" (1 ∷ []) none (some [])
    ∷ Sent.pull "cart" "a" true []
    ∷ Sent.delta "cart" "b" (2 ∷ []) none (some knowledge)
    ∷ []

receive_all-requests_example :
    receive_all endless queue (map envelope_of sent)
    ≡ delta_request "b" "cart" knowledge
      ∷ delta_response "b" "cart" (2 ∷ []) none
      ∷ delta_request "a" "cart" []
      ∷ delta_response "a" "cart" (1 ∷ []) none
      ∷ queue
unfolding send_last
receive_all-requests_example = receive_all-requests endless queue sent (λ q r. refl)

read_envelope-write_envelope_example :
    read_envelope (only pull) (write_envelope (only pull) pull ++ (7 ∷ [])) ≡ ok (some pull, 7 ∷ [])
read_envelope-write_envelope_example =
    read_envelope-write_envelope (only pull) pull (7 ∷ []) refl (omega arith)

-- a stream that ends inside a length prefix reads like one that ends between frames
cut_prefix_run : read_envelope (only pull) (0 ∷ 0 ∷ []) ≡ ok (none, [])
unfolding read_envelope read_exact
cut_prefix_run = refl
