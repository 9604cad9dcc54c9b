-- ===== src/Dissemination.antt =====
-- src/network/dissemination.rs: what is sent to peers, and when. The three strategies share the
-- state (the round counter and the peer table); a strategy is a record of its methods, as the trait
-- is. The random choice of a peer and the channels are parameters.
pub mod Sends
use experimental_crdt.Base.{
  ℕ, zero, suc, ◌+◌, ◌-◌, ◌*◌, ◌/◌, ◌%◌, ◌^◌, ◌≤◌, ◌<◌, max, min, String, ◌≡◌, refl, sym, ap, ◌∙◌,
  ◌≢◌, ◌↔◌, ◌⊎◌, inl, inr, Bool, true, false, not, ◌&&◌, ◌||◌, Option, none, some, List, [], ◌∷◌,
  ◌++◌, map, arith, ltb, leb, nat_eqb, nat_eqb_iff, if◌then◌else◌, Bool-cases, Option-cases,
  Bool-ext, Eq, ◌==◌, nat_eq, string_eq, beq_refl, length, any, all, retain, Result, ok, err, ok_or,
  is_ok, collect, Result-cases,
}
use experimental_crdt.Map.{HashMap}
use experimental_crdt.Clock.{NodeId, CausalContext}
use experimental_crdt.Proto.{
  Bytes, VectorClock, KnowledgeMatrix, Envelope, CrdtOp, CrdtPullRequest, crdt_op,
  crdt_pull_request,
}
use experimental_crdt.Registry.{Sender, PeerRegistry, peer_ids, send_to_peer}

-- src/gc/coordinator.rs
abbrev pub MatrixClock : Type 0
MatrixClock = HashMap NodeId CausalContext

-- `Option::map` with a plain function
abbrev pub map_option {ℓ κ} : {A : Type ℓ} {B : Type κ} → (A → B) → Option A → Option B
map_option f none = none
map_option f (some a) = some (f a)

unfoldable pub make_crdt_op_envelope :
    String → NodeId → Bytes → Option MatrixClock → Option CausalContext → Envelope
make_crdt_op_envelope crdt_id origin payload knowledge_matrix requester_knowledge = record {
  payload = some (
      crdt_op (record {
        crdt_id = crdt_id;
        payload = payload;
        origin_node_id = origin;
        requester_knowledge = map_option (λ k. record { entries = k }) requester_knowledge;
        knowledge_matrix =
            map_option
              (λ (m : MatrixClock). record {
                entries = map (λ r. (r.0, record { entries = r.1 })) m;
              })
              knowledge_matrix;
      }));
}

unfoldable pub make_pull_request_envelope : String → NodeId → Bool → CausalContext → Envelope
make_pull_request_envelope crdt_id origin gc_replica knowledge = record {
  payload = some (
      crdt_pull_request (record {
        crdt_id = crdt_id;
        origin_node_id = origin;
        knowledge = some (record { entries = knowledge });
        gc_replica = gc_replica;
      }));
}

-- the fields of the strategies that change
pub record Mesh (H : Type 0) : Type 0 where
  pub dissemination_round : ℕ
  pub peers : PeerRegistry H

-- `trait DisseminationStrategy`. The arguments of the pushes and of the pull round are the node id,
-- the CRDT's id, the collector mark and the knowledge; those of `respond_to_pull_request` are the
-- peer, the CRDT's id, the node id, the delta, the mark, the matrix and the knowledge.
pub record DisseminationStrategy (H : Type 0) : Type 0 where
  pub push_version_vector : Mesh H → NodeId → String → Bool → CausalContext → Mesh H
  pub on_post_merge : Mesh H → NodeId → String → Bool → CausalContext → Mesh H
  pub respond_to_pull_request :
      Mesh H
      → NodeId
      → String
      → NodeId
      → Option Bytes
      → Bool
      → Option MatrixClock
      → Option CausalContext
      → Mesh H
  pub do_pull_round : Mesh H → NodeId → String → Bool → CausalContext → Mesh H

-- `self.dissemination_round += 1`, on a 64-bit `usize`
abbrev pub next_round : ℕ → ℕ
next_round n = (n + 1) % 2 ^ 64

-- what `respond_to_pull_request` of `PushDissemination` and `PushPull` sends, and whether it counts
-- as a round
unfoldable pub reply :
    String
    → NodeId
    → Option Bytes
    → Bool
    → Option MatrixClock
    → Option CausalContext
    → Option (Envelope × Bool)
reply crdt_id origin (some payload) gc matrix (some knowledge) =
    some (make_crdt_op_envelope crdt_id origin payload matrix (some knowledge), true)
reply crdt_id origin (some payload) gc matrix none =
    some (make_crdt_op_envelope crdt_id origin payload matrix none, false)
reply crdt_id origin none gc matrix (some knowledge) =
    some (make_pull_request_envelope crdt_id origin gc knowledge, true)
reply crdt_id origin none gc matrix none = none

module _ {H : Type 0} (tx : Sender H Envelope) (choose : List NodeId → Option NodeId) where
  -- the body of `push_version_vector` of `PushDissemination`; a failed send is ignored
  unfoldable pub advertise : Mesh H → NodeId → String → Bool → CausalContext → Mesh H
  advertise w origin crdt_id gc_replica knowledge =
      let envelope = make_pull_request_envelope crdt_id origin gc_replica knowledge in
      elim (choose (peer_ids w.peers)) [
        | none ↦ w
        | some peer ↦ record {
          dissemination_round = next_round w.dissemination_round;
          peers = (send_to_peer tx w.peers peer envelope).1;
        }
      ]

  -- the body of `do_pull_round` of `PullPeriodic` and `PushPull`
  unfoldable pub pull_round : Mesh H → NodeId → String → Bool → CausalContext → Mesh H
  pull_round w node_id crdt_id gc_replica knowledge =
      let envelope = make_pull_request_envelope crdt_id node_id gc_replica knowledge in
      elim (choose (peer_ids w.peers)) [
        | none ↦ w
        | some peer ↦ record {
          dissemination_round = next_round w.dissemination_round;
          peers = (send_to_peer tx w.peers peer envelope).1;
        }
      ]

  -- `respond_to_pull_request` of `PushDissemination` and `PushPull`
  unfoldable pub respond :
      Mesh H
      → NodeId
      → String
      → NodeId
      → Option Bytes
      → Bool
      → Option MatrixClock
      → Option CausalContext
      → Mesh H
  respond w from crdt_id origin delta gc matrix knowledge =
      elim (reply crdt_id origin delta gc matrix knowledge) [
        | none ↦ w
        | some (envelope, counts) ↦ record {
          dissemination_round = elim counts [
            | true ↦ next_round w.dissemination_round
            | false ↦ w.dissemination_round
          ];
          peers = (send_to_peer tx w.peers from envelope).1;
        }
      ]

  -- `respond_to_pull_request` of `PullPeriodic`: a delta, and never a request
  unfoldable pub respond_with_delta :
      Mesh H
      → NodeId
      → String
      → NodeId
      → Option Bytes
      → Bool
      → Option MatrixClock
      → Option CausalContext
      → Mesh H
  respond_with_delta w from crdt_id origin none gc matrix knowledge = w
  respond_with_delta w from crdt_id origin (some payload) gc matrix knowledge =
      let envelope = make_crdt_op_envelope crdt_id origin payload matrix none in
      record w { peers = (send_to_peer tx w.peers from envelope).1 }

  unfoldable pub push_dissemination : DisseminationStrategy H
  push_dissemination = record {
    push_version_vector = advertise;
    on_post_merge = advertise;
    respond_to_pull_request = respond;
    do_pull_round = λ w _ _ _ _. w;
  }

  unfoldable pub pull_periodic : DisseminationStrategy H
  pull_periodic = record {
    push_version_vector = λ w _ _ _ _. w;
    on_post_merge = λ w _ _ _ _. w;
    respond_to_pull_request = respond_with_delta;
    do_pull_round = pull_round;
  }

  unfoldable pub push_pull : DisseminationStrategy H
  push_pull = record {
    push_version_vector = advertise;
    on_post_merge = advertise;
    respond_to_pull_request = respond;
    do_pull_round = pull_round;
  }
