-- ===== src/Discovery/Departure.antt =====
-- discovery.rs: what registering and leaving write.
use experimental_crdt.Base.{
  String, ◌==◌, string_eq, Bool, true, false, ◌&&◌, some, List, [], ◌∷◌, ◌≡◌, refl, Result, ok, err,
  if◌then◌else◌, arith, Result-cases, inl, inr,
}
use experimental_crdt.Map.Sets.{contains}
use experimental_crdt.Text.{◌<>◌}
use experimental_crdt.Clock.{Counter}
use experimental_crdt.Proto.{Bytes}
use experimental_crdt.Storage.{AwsClient, Json, list_object_keys, put_object, delete_object}
use experimental_crdt.Storage.Store.{ObjectStore, put_object_lem}
use experimental_crdt.Discovery.{Chrono, Discovery, registration_key, registration_key_prefix}
use experimental_crdt.Discovery.Service.{
  final_dot_key, delete_keys, deregister, put_if_none, register,
}

module _ {S : Type 0} (aws : AwsClient S) (store : ObjectStore aws) where
  object-delete_keys :
      (bucket : String) (keys : List String) (s : S) (k : String)
      → contains keys k ≡ false
      → store.object (delete_keys aws bucket keys s) bucket k ≡ store.object s bucket k
  unfolding delete_keys delete_object contains
  object-delete_keys bucket [] s k h = refl
  object-delete_keys bucket (key ∷ keys) s k h = ground (
    arith,
    store.delete_keeps bucket key s bucket k,
    object-delete_keys bucket keys (delete_object aws bucket key s).1 k,
  )

  module _ (this : Discovery) (prefix : String) (final_dot : Counter) (final_state : Bytes) (s : S)
      (keys : List String) where
    abbrev listing : Result (List String) × S
    listing = list_object_keys aws this.config.bucket (registration_key_prefix this.node_id) s

    abbrev upload : Result (Unit {0}) × S
    upload =
        put_object aws this.config.bucket (final_dot_key prefix this.node_id final_dot) final_state
          "application/json" listing.1

    -- A node that leaves and gets an answer has left its final state under the key of its last dot, where
    -- that key is none of its registrations'.
    pub object-deregister :
        listing.0 ≡ ok keys
        → contains keys (final_dot_key prefix this.node_id final_dot) ≡ false
        → (deregister aws this prefix final_dot final_state s).0 ≡ ok tt
        → store.object
            (deregister aws this prefix final_dot final_state s).1
            this.config.bucket
            (final_dot_key prefix this.node_id final_dot)
          ≡ some final_state
    unfolding deregister
    object-deregister listed apart answered =
        let final_key = final_dot_key prefix this.node_id final_dot in
        elim (Result-cases upload.0) [
          | inr failed ↦ absurd (ground (arith, listed))
          | inl sent ↦ ground (
            arith,
            object-delete_keys this.config.bucket keys upload.1 final_key apart,
            put_object_lem aws store this.config.bucket final_key final_state "application/json"
                listing.1 this.config.bucket final_key sent.1,
            string_eq.beq_iff this.config.bucket this.config.bucket,
            string_eq.beq_iff final_key final_key,
          )
        ]

    -- A node that leaves and whose final state is not stored keeps its registrations: the store is as
    -- the failed upload left it, and the call fails.
    pub deregister-fails :
        (e : String)
        → listing.0 ≡ ok keys
        → upload.0 ≡ err e
        → deregister aws this prefix final_dot final_state s ≡ (err e, upload.1)
    unfolding deregister
    deregister-fails e listed failed = ground (arith, listed, failed)

  abbrev pub is_none : List String → Bool
  is_none [] = true
  is_none (key ∷ keys) = false

  -- A registration that answers writes the node's key if the listing found none of the node's, and no
  -- object otherwise: an old registration is not replaced, and its time not renewed. The clock, serde
  -- and the listing answer, and the store keeps its documented promises.
  pub object-register :
      {D : Type 0} (chrono : Chrono D) (json : Json String) (this : Discovery) (now expires_at : D)
      (body : Bytes) (keys : List String) (s : S) (b k : String)
      → chrono.after now this.config.registration_ttl ≡ ok expires_at
      → json.to_vec "" ≡ ok body
      → (list_object_keys aws this.config.bucket (registration_key_prefix this.node_id) s).0
        ≡ ok keys
      → (register aws chrono json this now s).0 ≡ ok tt
      → store.object (register aws chrono json this now s).1 b k ≡ (
          if is_none keys
            && (this.config.bucket == b
                && registration_key chrono this.node_id expires_at this.config.gc_replica
                    (this.listen_host <> (":" <> this.listen_port))
                  == k)
          then some body
          else store.object
              (list_object_keys aws this.config.bucket (registration_key_prefix this.node_id) s).1
              b
              k)
  unfolding register put_if_none
  object-register chrono json this now expires_at body [] s b k timed written listed answered =
      let listing =
        list_object_keys aws this.config.bucket (registration_key_prefix this.node_id) s in
      let key =
        registration_key chrono this.node_id expires_at this.config.gc_replica
          (this.listen_host <> (":" <> this.listen_port)) in
      ground (
        arith,
        put_object_lem aws store this.config.bucket key body "application/json" listing.1 b k,
      )
  object-register chrono json this now expires_at body (key ∷ keys) s b k timed written listed
        answered =
      ground arith
