-- ===== src/OrSet/Codec.antt =====
-- or_set.rs: `encode_delta` to `decode_op`; src/crdt/mod.rs: `ElementCodec`.
-- prost's encoding of a message is a parameter.
use experimental_crdt.Base.{
  ◌≡◌, refl, Option, none, some, List, [], ◌∷◌, map, nat_eq, string_eq, Result, ok, err, ok_or,
  collect, ◌>>=◌,
}
use experimental_crdt.Clock.{Dot}
use experimental_crdt.Proto.{
  Bytes, Message, ProtoDot, ProtoElemDot, ProtoDotPair, ProtoOrSetDelta, Op, add_element,
  remove_element, ProtoOrSetOp,
}
use experimental_crdt.OrSet.{OrSetDelta, OrSetOp, add, remove}

-- the trait, with the law that its comment asks of every implementation
pub record ElementCodec {ℓ} (E : Type ℓ) : Type ℓ where
  pub encode_elem : E → Bytes
  pub decode_elem : Bytes → Result E
  pub decode_encode : (a : E) → decode_elem (encode_elem a) ≡ ok a

abbrev pub proto_dot : Dot → ProtoDot
proto_dot dot = record { node_id = dot.node_id; counter = dot.counter }

abbrev pub dot_of : ProtoDot → Dot
dot_of p = record { node_id = p.node_id; counter = p.counter }

abbrev pub proto_pair : Dot × Dot → ProtoDotPair
proto_pair t = record { add_dot = some (proto_dot t.0); remove_dot = some (proto_dot t.1) }

-- the closure over `proto_delta.tombstones`
unfoldable pub decode_pair : ProtoDotPair → Result (Dot × Dot)
decode_pair dp = do
  add_proto ← ok_or dp.add_dot "missing add_dot in ProtoDotPair"
  remove_proto ← ok_or dp.remove_dot "missing remove_dot in ProtoDotPair"
  ok (dot_of add_proto, dot_of remove_proto)

collect-decode_pair :
    (tombstones : List (Dot × Dot))
    → collect decode_pair (map proto_pair tombstones) ≡ ok tombstones
unfolding collect decode_pair
collect-decode_pair [] = refl
collect-decode_pair (t ∷ tombstones) = rw (collect-decode_pair tombstones, ◌>>=◌)

module _ {ℓ} {E : Type ℓ} (c : ElementCodec E) where
  abbrev pub proto_elem : E × Dot → ProtoElemDot
  proto_elem p = record { element = c.encode_elem p.0; dot = some (proto_dot p.1) }

  -- the closure over `proto_delta.adds`
  unfoldable pub decode_elem_dot : ProtoElemDot → Result (E × Dot)
  decode_elem_dot ed = do
    elem ← c.decode_elem ed.element
    dot_proto ← ok_or ed.dot "missing dot in ProtoElemDot"
    ok (elem, dot_of dot_proto)

  -- the message that `encode_delta` builds
  unfoldable pub proto_delta : OrSetDelta E → ProtoOrSetDelta
  proto_delta delta = record {
    adds = map proto_elem delta.adds;
    tombstones = map proto_pair delta.tombstones;
    context = delta.context;
    dot_node = delta.dot_node;
    dot_counter = delta.dot_counter;
  }

  unfoldable pub encode_delta : Message ProtoOrSetDelta → OrSetDelta E → Bytes
  encode_delta prost delta = prost.encode_to_vec (proto_delta delta)

  unfoldable pub decode_delta : Message ProtoOrSetDelta → Bytes → Result (OrSetDelta E)
  decode_delta prost bytes = do
    proto ← prost.decode bytes
    adds ← collect decode_elem_dot proto.adds
    tombstones ← collect decode_pair proto.tombstones
    ok (record {
      adds = adds;
      tombstones = tombstones;
      context = proto.context;
      dot_node = proto.dot_node;
      dot_counter = proto.dot_counter;
    })

  -- the message that `encode_op` builds
  unfoldable pub proto_op : OrSetOp E → ProtoOrSetOp
  proto_op (add elem) = record { op = some (add_element (c.encode_elem elem)) }
  proto_op (remove elem) = record { op = some (remove_element (c.encode_elem elem)) }

  unfoldable pub encode_op : Message ProtoOrSetOp → OrSetOp E → Bytes
  encode_op prost op = prost.encode_to_vec (proto_op op)

  -- `match proto_op.op`
  unfoldable pub op_of : Option Op → Result (OrSetOp E)
  op_of (some (add_element b)) = do elem ← c.decode_elem b; ok (add elem)
  op_of (some (remove_element b)) = do elem ← c.decode_elem b; ok (remove elem)
  op_of none = err "empty ProtoOrSetOp"

  unfoldable pub decode_op : Message ProtoOrSetOp → Bytes → Result (OrSetOp E)
  decode_op prost bytes = do proto ← prost.decode bytes; op_of proto.op

  collect-decode_elem_dot :
      (adds : List (E × Dot)) → collect decode_elem_dot (map proto_elem adds) ≡ ok adds
  unfolding collect decode_elem_dot
  collect-decode_elem_dot [] = refl
  collect-decode_elem_dot (p ∷ adds) = rw (c.decode_encode, ◌>>=◌, collect-decode_elem_dot adds)

  -- A delta that is encoded and decoded is the same delta, where prost gives back the message.
  pub decode-encode_delta :
      (prost : Message ProtoOrSetDelta) (δ : OrSetDelta E)
      → prost.decode (prost.encode_to_vec (proto_delta δ)) ≡ ok (proto_delta δ)
      → decode_delta prost (encode_delta prost δ) ≡ ok δ
  unfolding decode_delta encode_delta proto_delta
  decode-encode_delta prost δ h =
      rw (h, ◌>>=◌, collect-decode_elem_dot δ.adds, collect-decode_pair δ.tombstones)

  -- An operation that is encoded and decoded is the same operation, where prost gives back the
  -- message.
  pub decode-encode_op :
      (prost : Message ProtoOrSetOp) (op : OrSetOp E)
      → prost.decode (prost.encode_to_vec (proto_op op)) ≡ ok (proto_op op)
      → decode_op prost (encode_op prost op) ≡ ok op
  unfolding decode_op encode_op proto_op op_of
  decode-encode_op prost (add a) h = rw (h, ◌>>=◌, c.decode_encode)
  decode-encode_op prost (remove a) h = rw (h, ◌>>=◌, c.decode_encode)
