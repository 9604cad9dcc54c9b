-- ===== src/Registry.antt =====
-- src/peers/peer_registry.rs: the table of connected peers, by node id. A peer's handle is the send
-- side of a tokio channel, a parameter; the table itself (a `DashMap`) is a map.
pub mod Laws
use experimental_crdt.Base.{
  ℕ, zero, suc, ◌+◌, ◌-◌, ◌*◌, ◌/◌, ◌%◌, ◌^◌, ◌≤◌, ◌<◌, max, min, String, ◌≡◌, refl, sym, ap, ◌∙◌,
  ◌≢◌, ◌↔◌, ◌⊎◌, inl, inr, Bool, true, false, not, ◌&&◌, ◌||◌, Option, none, some, List, [], ◌∷◌,
  ◌++◌, map, arith, ltb, leb, nat_eqb, nat_eqb_iff, if◌then◌else◌, Bool-cases, Option-cases,
  Bool-ext, Eq, ◌==◌, nat_eq, string_eq, beq_refl, length, any, all, retain, Result, ok, err, ok_or,
  is_ok, collect, Result-cases,
}
use experimental_crdt.Map.{HashMap, get as find, insert as enter, remove as erase, keys}
use experimental_crdt.Clock.{NodeId}
use experimental_crdt.Proto.{Envelope}

-- `mpsc::Sender`: the channel after a message is accepted, or an error if it is full or closed
pub record Sender (H M : Type 0) : Type 0 where
  pub try_send : H → M → Result H

-- `DashMap<NodeId, (GcReplica, PeerHandle)>`
abbrev pub PeerRegistry : Type 0 → Type 0
PeerRegistry H = HashMap NodeId (Bool × H)

module _ {H : Type 0} where
  unfoldable pub insert : PeerRegistry H → NodeId → Bool → H → PeerRegistry H
  insert peers node_id gc_replica handle = enter peers node_id (gc_replica, handle)

  abbrev pub handle_of : Option (Bool × H) → Option H
  handle_of none = none
  handle_of (some (_, h)) = some h

  -- the old handle, if there was one, and the table without the peer
  unfoldable pub remove : PeerRegistry H → NodeId → Option H × PeerRegistry H
  remove peers node_id = (handle_of (find peers node_id), erase peers node_id)

  unfoldable pub get : PeerRegistry H → NodeId → Option (Bool × H)
  get peers node_id = find peers node_id

  unfoldable pub peer_ids : PeerRegistry H → List NodeId
  peer_ids peers = keys peers

  unfoldable pub get_all_non_gc_replicas : PeerRegistry H → List NodeId
  get_all_non_gc_replicas peers = map (λ r. r.0) (retain (λ r. not r.1.0) peers)

  unfoldable pub len : PeerRegistry H → ℕ
  len peers = length peers

  unfoldable pub is_empty : PeerRegistry H → Bool
  is_empty peers = nat_eqb (length peers) 0

  -- the table with the channel of one peer moved on, and what the call returns
  unfoldable pub send_to_peer :
      Sender H Envelope → PeerRegistry H → NodeId → Envelope → Result (Unit {0}) × PeerRegistry H
  send_to_peer tx peers node_id envelope = elim (find peers node_id) [
    | none ↦ (err "peer not found", peers)
    | some (gc_replica, handle) ↦ elim (tx.try_send handle envelope) [
      | ok handle' ↦ (ok tt, enter peers node_id (gc_replica, handle'))
      | err e ↦ (err "failed to send to peer", peers)
    ]
  ]

  -- what an attempt leaves of a channel
  abbrev pub attempt : Sender H Envelope → Envelope → H → H
  attempt tx envelope handle = elim (tx.try_send handle envelope) [
    | ok handle' ↦ handle'
    | err e ↦ handle
  ]

  unfoldable pub broadcast : Sender H Envelope → PeerRegistry H → Envelope → PeerRegistry H
  broadcast tx [] envelope = []
  broadcast tx ((node_id, (gc_replica, handle)) ∷ peers) envelope =
      (node_id, (gc_replica, attempt tx envelope handle)) ∷ broadcast tx peers envelope
