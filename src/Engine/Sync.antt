-- ===== src/Engine/Sync.antt =====
-- crdt_engine.rs: anti-entropy between two engines, by pull requests and deltas.
use experimental_crdt.Base.{
  ◌≤◌, max, ◌≡◌, refl, ◌↔◌, true, false, not, ◌&&◌, ◌||◌, none, some, [], ◌∷◌, arith, nat_eqb, Eq,
  nat_eq, string_eq, ok,
}
use experimental_crdt.Map.{get, IsMap}
use experimental_crdt.Clock.{
  NodeId, CausalContext, DotVersionVector, count_at, effective_counter, effective_map, delta_since,
}
use experimental_crdt.Clock.Effective.{IsValid, count_at-effective_map, effective_map-IsMap}
use experimental_crdt.Clock.Merge.{effective_counter-merge}
use experimental_crdt.Clock.Delta.{delta_since-empty}
use experimental_crdt.Proto.{Bytes}
use experimental_crdt.Proto.{Message, ProtoOrSetDelta}
use experimental_crdt.Crdt.{DeltaCrdt, or_set}
use experimental_crdt.OrSet
use experimental_crdt.OrSet.{OrSet, contains, merge_delta, full_state}
use experimental_crdt.OrSet.Merge
use experimental_crdt.OrSet.Sync.{Reflects, contains-merge-delta_since}
use experimental_crdt.OrSet.Codec.{ElementCodec, proto_delta, encode_delta, decode-encode_delta}
use experimental_crdt.Dissemination.{DisseminationStrategy}
use experimental_crdt.Gc.{GcStorage}
use experimental_crdt.Gc.Exec.{World}
use experimental_crdt.Engine.{
  CrdtEngine, is_collector, is_gc_peer, fully_ahead, is_news, remote_vector, absorb_matrix,
  merge_remote, server_delta, delta_payload, knowledge_request,
}

le_of_fully_ahead :
    (ours remote : CausalContext) (n : NodeId)
    → fully_ahead ours remote ≡ true
    → count_at remote n ≤ count_at ours n
unfolding fully_ahead get
le_of_fully_ahead ours [] n h = ground arith
le_of_fully_ahead ours ((k, v) ∷ remote) n h =
    ground (arith, string_eq.beq_iff k n, le_of_fully_ahead ours remote n)

fully_ahead_of_le :
    (ours remote : CausalContext)
    → IsMap remote
    → ((n : NodeId) → count_at remote n ≤ count_at ours n)
    → fully_ahead ours remote ≡ true
unfolding fully_ahead get
fully_ahead_of_le ours [] u le = refl
fully_ahead_of_le ours ((k, v) ∷ remote) u le = ground (
  arith,
  le k,
  string_eq.beq_iff k k,
  fully_ahead_of_le ours remote u.1 (λ n. ground (arith, le n, u.0, string_eq.beq_iff k n)),
)

is_news-empty :
    (x : DotVersionVector) → (is_news x ≡ false) ↔ ((x.dot.counter ≡ 0) × (x.context ≡ []))
is_news-empty x = both x.context
  where
    both :
        (m : CausalContext)
        → ((not (nat_eqb x.dot.counter 0) || (elim m [ [] ↦ false | _ ↦ true ])) ≡ false)
          ↔ ((x.dot.counter ≡ 0) × (m ≡ []))
    both [] = (λ h. (ground arith, refl), λ h. ground (arith, h.0))
    both (_ ∷ _) = (λ h. absurd (ground arith), λ h. absurd (ground (arith, h.1)))

-- a vector whose context already counts its dot
effective_counter-counted :
    (d : DotVersionVector) (n : NodeId)
    → effective_counter (record d { context = effective_map d }) n ≡ effective_counter d n
unfolding effective_counter
effective_counter-counted d n = ground (arith, count_at-effective_map d n)

module _ {S C H Op Delta : Type 0} (crdt : DeltaCrdt C Op Delta) (store : GcStorage S)
    (strategy : DisseminationStrategy H) where
  -- A pull request is answered without a delta exactly if not both ends are collectors and the
  -- requester knows at least what the engine does of every node; the engine's clock is valid.
  pub delta_payload-none :
      (e : CrdtEngine S C H) (w : World S C) (from : NodeId) (remote : CausalContext)
      → IsValid w.dvv
      → (delta_payload crdt store strategy e w from remote ≡ none) ↔ (
          ((is_collector w.gc && is_gc_peer e.mesh.peers from) ≡ false)
          × ((n : NodeId) → effective_counter w.dvv n ≤ count_at remote n))
  unfolding delta_payload
  delta_payload-none e w from remote h =
      let (there, back) = delta_since-empty w.dvv remote h in
      let (quiet, noise) = is_news-empty (delta_since w.dvv remote) in
      (
        λ h. (ground arith, there (quiet (ground arith))),
        λ h. ground (arith, h.0, noise (back h.1)),
      )

  -- A pull request whose knowledge is a map makes the engine ask back unless the engine knows at
  -- least what the requester does of every node.
  pub knowledge_request-none :
      (w : World S C) (remote : CausalContext)
      → IsMap remote
      → (knowledge_request crdt store strategy w remote ≡ none)
        ↔ ((n : NodeId) → count_at remote n ≤ effective_counter w.dvv n)
  unfolding knowledge_request
  knowledge_request-none w remote u =
      let ours = effective_map w.dvv in
      (
        λ h n. ground (arith, le_of_fully_ahead ours remote n, count_at-effective_map w.dvv n),
        λ le. ground (
          arith,
          fully_ahead_of_le ours remote u
              (λ n. ground (arith, le n, count_at-effective_map w.dvv n)),
        ),
      )

module _ {S H E : Type 0} ⦃e : Eq E⦄ (codec : ElementCodec E) (prost : Message ProtoOrSetDelta)
    (store : GcStorage S) (strategy : DisseminationStrategy H) where
  -- the delta that the engine computes for a requester
  abbrev pub delta_for : CrdtEngine S (OrSet E) H → CausalContext → OrSet.OrSetDelta E
  delta_for s known = OrSet.delta_since s.crdt known s.dvv

  effective_counter-remote_vector :
      (s : CrdtEngine S (OrSet E) H) (known : CausalContext) (n : NodeId)
      → effective_counter (remote_vector (or_set codec prost) store strategy (delta_for s known)) n
        ≡ effective_counter s.dvv n
  unfolding remote_vector OrSet.causal_context OrSet.delta_since
  effective_counter-remote_vector s known n = effective_counter-counted s.dvv n

  remote_vector-IsMap :
      (s : CrdtEngine S (OrSet E) H) (known : CausalContext)
      → IsValid s.dvv
      → IsMap (remote_vector (or_set codec prost) store strategy (delta_for s known)).context
  unfolding remote_vector OrSet.causal_context OrSet.delta_since
  remote_vector-IsMap s known h = effective_map-IsMap s.dvv h.is_map

  sent :
      (s : CrdtEngine S (OrSet E) H) (from : NodeId) (known : CausalContext) (payload : Bytes)
      → delta_payload (or_set codec prost) store strategy s s.world from known ≡ some payload
      → encode_delta codec prost (delta_for s known) ≡ payload
  unfolding delta_payload
  sent s from known payload h = ground arith

  -- the engine after it merged a delta
  abbrev pub merged : CrdtEngine S (OrSet E) H → OrSet.OrSetDelta E → CrdtEngine S (OrSet E) H
  merged r delta = merge_remote (or_set codec prost) store strategy r r.world delta

  -- A requester that receives the delta which another engine computed from the requester's own
  -- knowledge goes on, holds the elements that it would hold after the other's whole snapshot, and
  -- knows of every node what either of the two knew. The conditions: prost gives back the message,
  -- the sender's clock is valid, the tables of both sets are maps, and the requester has what its
  -- knowledge says.
  pub server_delta-delta_payload :
      (s r : CrdtEngine S (OrSet E) H) (from : NodeId) (payload : Bytes)
      → (let δ = delta_for s (effective_map r.dvv) in
          prost.decode (prost.encode_to_vec (proto_delta codec δ)) ≡ ok (proto_delta codec δ))
      → IsValid s.dvv
      → Merge.IsValid s.crdt
      → Merge.IsValid r.crdt
      → Reflects r.crdt s.crdt (effective_map r.dvv)
      → delta_payload (or_set codec prost) store strategy s s.world from (effective_map r.dvv)
        ≡ some payload
      → (r' : CrdtEngine S (OrSet E) H) × (server_delta
            (or_set codec prost)
            store
            strategy
            r
            r.crdt_id
            payload
            none
          ≡ some r')
        × ((k : E) → contains r'.crdt k ≡ contains (merge_delta r.crdt (full_state s.crdt s.dvv)) k)
        × ((n : NodeId)
            → effective_counter r'.dvv n
              ≡ max (effective_counter r.dvv n) (effective_counter s.dvv n))
  unfolding server_delta absorb_matrix merge_remote
  server_delta-delta_payload s r from payload round_trip valid vs vr reflects produced =
      let known = effective_map r.dvv in
      let δ = delta_for s known in
      (
        merged r δ,
        ground (
          arith,
          string_eq.beq_iff r.crdt_id r.crdt_id,
          decode-encode_delta codec prost δ round_trip,
          sent s from known payload produced,
        ),
        λ k. contains-merge-delta_since r.crdt s.crdt known s.dvv k vr vs reflects,
        λ n. ground (
          arith,
          effective_counter-merge r.dvv (remote_vector (or_set codec prost) store strategy δ) n
              (remote_vector-IsMap s known valid),
          effective_counter-remote_vector s known n,
        ),
      )
