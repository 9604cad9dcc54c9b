-- ===== src/Simulated/Delivery.antt =====
-- simulated.rs: what reaches a peer.
use experimental_crdt.Base.{String, List, [], ◌∷◌, ◌++◌, ◌≡◌, ok, err, arith}
use experimental_crdt.Proto.{Envelope}
use experimental_crdt.Registry.{Sender}
use experimental_crdt.Simulated.{writer_loop}

module _ {R : Type 0} (remote_tx : Sender R Envelope) where
  -- the peer takes these envelopes one after the other
  abbrev pub Takes : R → List Envelope → R → Type 0
  Takes remote [] end = remote ≡ end
  Takes remote (envelope ∷ envelopes) end =
      (remote' : R) × (remote_tx.try_send remote envelope ≡ ok remote')
      × Takes remote' envelopes end

  -- A peer that takes all envelopes gets all of them, in their order.
  pub writer_loop-Takes :
      (envelopes : List Envelope) (remote end : R)
      → Takes remote envelopes end
      → writer_loop remote_tx remote envelopes ≡ end
  unfolding writer_loop
  writer_loop-Takes [] remote end taken = taken
  writer_loop-Takes (envelope ∷ envelopes) remote end taken =
      ground (arith, taken.1, writer_loop-Takes envelopes taken.0 end taken.2)

  -- The writer stops at the first envelope that the peer refuses: the peer has those before it, in
  -- their order, and none behind it.
  pub writer_loop-refused :
      (taken : List Envelope) (refused : Envelope) (left : List Envelope) (remote end : R)
      (e : String)
      → Takes remote taken end
      → remote_tx.try_send end refused ≡ err e
      → writer_loop remote_tx remote (taken ++ (refused ∷ left)) ≡ end
  unfolding writer_loop
  writer_loop-refused [] refused left remote end e taken failed = ground arith
  writer_loop-refused (envelope ∷ envelopes) refused left remote end e taken failed =
      ground
        (arith, taken.1, writer_loop-refused envelopes refused left taken.0 end e taken.2 failed)
