-- ===== src/Registry/Laws.antt =====
-- peer_registry.rs: what the methods do to the table.
use experimental_crdt.Base.{
  ◌≡◌, refl, inl, inr, Bool, false, not, none, some, [], ◌∷◌, map, arith, if◌then◌else◌,
  Option-cases, ◌==◌, nat_eq, string_eq, retain, is_ok, Result-cases,
}
use experimental_crdt.Map.{get as find, IsMap}
use experimental_crdt.Map.Laws.{get-insert, get-remove}
use experimental_crdt.Map.Sets.{contains}
use experimental_crdt.Clock.{NodeId}
use experimental_crdt.Proto.{Envelope}
use experimental_crdt.Registry.{
  Sender, PeerRegistry, handle_of, insert, remove, get, get_all_non_gc_replicas, send_to_peer,
  attempt, broadcast,
}

module _ {H : Type 0} where
  -- A registered peer is found under its id, and the other peers are as before.
  pub get-insert_peer :
      (peers : PeerRegistry H) (p q : NodeId) (gc : Bool) (h : H)
      → get (insert peers p gc h) q ≡ (if p == q then some (gc, h) else get peers q)
  unfolding get insert
  get-insert_peer peers p q gc h = get-insert peers p q (gc, h)

  -- A removed peer is gone, the other peers are as before, and the handle returned is its own.
  pub get-remove_peer :
      (peers : PeerRegistry H) (p q : NodeId)
      → (get (remove peers p).1 q ≡ (if p == q then none else get peers q))
        × ((remove peers p).0 ≡ handle_of (get peers p))
  unfolding get remove
  get-remove_peer peers p q = (get-remove peers p q, refl)

  non_gc-none :
      (peers : PeerRegistry H) (p : NodeId)
      → find peers p ≡ none
      → contains (map (λ r. r.0) (retain (λ r. not r.1.0) peers)) p ≡ false
  unfolding find contains
  non_gc-none [] p h = refl
  non_gc-none ((q, (gc, c)) ∷ peers) p h = ground (arith, non_gc-none peers p)

  -- The peers listed as no collectors are those registered with the mark off.
  pub contains-get_all_non_gc_replicas :
      (peers : PeerRegistry H) (p : NodeId)
      → IsMap peers
      → contains (get_all_non_gc_replicas peers) p
        ≡ elim (get peers p) [ none ↦ false | some (gc, _) ↦ not gc ]
  unfolding get_all_non_gc_replicas get find contains
  contains-get_all_non_gc_replicas [] p m = refl
  contains-get_all_non_gc_replicas ((q, (gc, c)) ∷ peers) p m = ground (
    arith,
    m.0,
    string_eq.beq_iff q p,
    non_gc-none peers q m.0,
    contains-get_all_non_gc_replicas peers p m.1,
  )

  -- A broadcast is one attempt at every peer; an attempt that fails leaves that peer's channel as
  -- it was and stops no other.
  pub get-broadcast :
      (tx : Sender H Envelope) (peers : PeerRegistry H) (env : Envelope) (p : NodeId)
      → get (broadcast tx peers env) p
        ≡ elim (get peers p) [ none ↦ none | some (gc, h) ↦ some (gc, attempt tx env h) ]
  unfolding get broadcast find
  get-broadcast tx [] env p = refl
  get-broadcast tx ((q, (gc, h)) ∷ peers) env p = ground (arith, get-broadcast tx peers env p)

  -- A message to one peer is an attempt at that peer's channel and at no other, and the call
  -- succeeds exactly when the peer is known and its channel takes the message.
  pub get-send_to_peer :
      (tx : Sender H Envelope) (peers : PeerRegistry H) (p q : NodeId) (env : Envelope)
      → (get (send_to_peer tx peers p env).1 q ≡ elim (get peers q) [
        | none ↦ none
        | some (gc, h) ↦ some (gc, (if p == q then attempt tx env h else h))
      ])
        × (is_ok (send_to_peer tx peers p env).0
            ≡ elim (get peers p) [ none ↦ false | some (gc, h) ↦ is_ok (tx.try_send h env) ])
  unfolding get send_to_peer
  get-send_to_peer tx peers p q env = elim (Option-cases (find peers p)) [
    | inl miss ↦ (ground (arith, string_eq.beq_iff p q), ground arith)
    | inr ((gc, h), hit) ↦ elim (Result-cases (tx.try_send h env)) [
      | inl (h', sent) ↦
          (ground (arith, string_eq.beq_iff p q, get-insert peers p q (gc, h')), ground arith)
      | inr (e, refused) ↦ (ground (arith, string_eq.beq_iff p q), ground arith)
    ]
  ]
