-- ===== src/Crdt.antt =====
-- src/crdt/mod.rs: the interface between the engine and a delta CRDT, and the observed-remove set
-- as an implementation of it. Printing, metrics and the random element are left out.
use experimental_crdt.Base.{Eq, nat_eq, string_eq, Result}
use experimental_crdt.Clock.{NodeId, Counter, CausalContext, Dot, DotVersionVector}
use experimental_crdt.Proto.{Bytes, Message, ProtoOrSetDelta}
use experimental_crdt.OrSet
use experimental_crdt.OrSet.{OrSet, OrSetOp, OrSetDelta}
use experimental_crdt.OrSet.Codec.{ElementCodec, encode_delta, decode_delta}

-- `trait DeltaCrdt`, over the types of its state, operations and deltas
pub record DeltaCrdt (C Op Delta : Type 0) : Type 0 where
  pub causal_context : Delta → CausalContext × NodeId × Counter
  pub apply_local : C → Dot → Op → C
  pub merge_delta : C → Delta → C
  pub full_state : C → DotVersionVector → Delta
  pub delta_since : C → CausalContext → DotVersionVector → Delta
  pub perform_gc : C → DotVersionVector → C
  pub encode_delta : Delta → Bytes
  pub decode_delta : Bytes → Result Delta

-- `impl DeltaCrdt for OrSet<E>`
abbrev pub or_set :
    {E : Type 0} ⦃e : Eq E⦄
    → ElementCodec E
    → Message ProtoOrSetDelta
    → DeltaCrdt (OrSet E) (OrSetOp E) (OrSetDelta E)
or_set c prost = record {
  causal_context = OrSet.causal_context;
  apply_local = OrSet.apply_local;
  merge_delta = OrSet.merge_delta;
  full_state = OrSet.full_state;
  delta_since = OrSet.delta_since;
  perform_gc = OrSet.perform_gc;
  encode_delta = encode_delta c prost;
  decode_delta = decode_delta c prost;
}
