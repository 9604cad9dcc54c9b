-- ===== src/Dissemination/Sends.antt =====
-- dissemination.rs: who is sent what.
use experimental_crdt.Base.{
  String, ◌≡◌, refl, inl, inr, Bool, Option, none, some, List, arith, if◌then◌else◌, Option-cases,
  ◌==◌, nat_eq, string_eq,
}
use experimental_crdt.Clock.{NodeId, CausalContext}
use experimental_crdt.Proto.{Bytes, Envelope}
use experimental_crdt.Registry.{Sender, PeerRegistry, peer_ids, get, attempt}
use experimental_crdt.Registry.Laws.{get-send_to_peer}
use experimental_crdt.Dissemination.{
  MatrixClock, Mesh, make_pull_request_envelope, make_crdt_op_envelope, next_round, reply,
  advertise, respond,
}

module _ {H : Type 0} (tx : Sender H Envelope) (choose : List NodeId → Option NodeId) where
  -- `p`'s channel after the envelope, and every other channel as it was
  abbrev pub after_send : PeerRegistry H → NodeId → Envelope → NodeId → Option (Bool × H)
  after_send peers p env q = elim (get peers q) [
    | none ↦ none
    | some (gc, h) ↦ some (gc, (if p == q then attempt tx env h else h))
  ]

  -- A round of push or of pull asks one peer, the one chosen, and counts; with no peer to choose
  -- nothing is sent and nothing counted.
  pub advertise_one :
      (w : Mesh H) (origin : NodeId) (cid : String) (gc : Bool) (k : CausalContext) (q : NodeId)
      → (get (advertise tx choose w origin cid gc k).peers q ≡ elim (choose (peer_ids w.peers)) [
        | none ↦ get w.peers q
        | some p ↦ after_send w.peers p (make_pull_request_envelope cid origin gc k) q
      ])
        × ((advertise tx choose w origin cid gc k).dissemination_round
            ≡ elim (choose (peer_ids w.peers)) [
              | none ↦ w.dissemination_round
              | some p ↦ next_round w.dissemination_round
            ])
  unfolding advertise
  advertise_one w origin cid gc k q =
      let env = make_pull_request_envelope cid origin gc k in
      elim (Option-cases (choose (peer_ids w.peers))) [
        | inl alone ↦ (ground arith, ground arith)
        | inr (p, chosen) ↦ (ground (arith, get-send_to_peer tx w.peers p q env), ground arith)
      ]

  -- The answer of `PushPull` and `PushDissemination` goes to the requester alone: the delta with
  -- the request on it if there are both, the one of them that there is otherwise, and nothing if
  -- there is neither. A round is counted exactly when a request goes out.
  pub respond_one :
      (w : Mesh H) (from : NodeId) (cid : String) (origin : NodeId) (delta : Option Bytes)
      (gc : Bool) (m : Option MatrixClock) (k : Option CausalContext) (q : NodeId)
      → (get (respond tx choose w from cid origin delta gc m k).peers q ≡ elim delta [
        | some payload ↦ after_send w.peers from (make_crdt_op_envelope cid origin payload m k) q
        | none ↦ elim k [
          | some knowledge ↦
              after_send w.peers from (make_pull_request_envelope cid origin gc knowledge) q
          | none ↦ get w.peers q
        ]
      ])
        × ((respond tx choose w from cid origin delta gc m k).dissemination_round
            ≡ elim k [ some _ ↦ next_round w.dissemination_round | none ↦ w.dissemination_round ])
  unfolding respond reply
  respond_one w from cid origin (some payload) gc m (some k) q = (
    (get-send_to_peer tx w.peers from q (make_crdt_op_envelope cid origin payload m (some k))).0,
    refl,
  )
  respond_one w from cid origin (some payload) gc m none q = (
    (get-send_to_peer tx w.peers from q (make_crdt_op_envelope cid origin payload m none)).0,
    refl,
  )
  respond_one w from cid origin none gc m (some k) q =
      ((get-send_to_peer tx w.peers from q (make_pull_request_envelope cid origin gc k)).0, refl)
  respond_one w from cid origin none gc m none q = (refl, refl)
