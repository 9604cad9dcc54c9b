-- ===== src/Storage/Store.antt =====
-- What an object store promises of the calls that answer: the documented behaviour of S3.
use experimental_crdt.Base.{
  String, ◌==◌, string_eq, Bool, true, false, ◌&&◌, Option, none, some, Result, ok, err, ◌≡◌, ◌≢◌,
  refl, arith, if◌then◌else◌, Result-cases, inl, inr, not, ◌⊎◌,
}
use experimental_crdt.Map.{is_some}
use experimental_crdt.Proto.{Bytes}
use experimental_crdt.Storage.{
  SdkResult, success, service_error, other_error, AwsClient, Json, sent, decoded, put_object,
  put_object_if_absent, if_absent_answer, optional_answer, get_object_optional, delete_object,
  put_json, put_json_if_absent, get_json_optional,
}

-- The objects of the buckets, and what an answered call reads or writes of them. A call that fails in
-- another way is not constrained.
pub record ObjectStore {S : Type 0} (aws : AwsClient S) : Type 0 where
  pub object : S → (bucket key : String) → Option Bytes
  pub put_lem :
      (bucket key : String) (body : Bytes) (content_type : String) (s : S) (b k : String)
      → (aws.put_object bucket key body content_type none s).0 ≡ success tt
      → object (aws.put_object bucket key body content_type none s).1 b k
        ≡ (if bucket == b && key == k then some body else object s b k)
  pub put_new_lem :
      (bucket key : String) (body : Bytes) (content_type : String) (s : S)
      → (aws.put_object bucket key body content_type (some "*") s).0 ≡ success tt
      → object s bucket key ≡ none
  pub put_new_writes :
      (bucket key : String) (body : Bytes) (content_type : String) (s : S) (b k : String)
      → (aws.put_object bucket key body content_type (some "*") s).0 ≡ success tt
      → object (aws.put_object bucket key body content_type (some "*") s).1 b k
        ≡ (if bucket == b && key == k then some body else object s b k)
  pub put_old_lem :
      (bucket key : String) (body : Bytes) (content_type : String) (s : S)
      → (aws.put_object bucket key body content_type (some "*") s).0
        ≡ service_error (some "PreconditionFailed")
      → object s bucket key ≢ none
  pub put_old_keeps :
      (bucket key : String) (body : Bytes) (content_type : String) (s : S) (b k : String)
      → (aws.put_object bucket key body content_type (some "*") s).0
        ≡ service_error (some "PreconditionFailed")
      → object (aws.put_object bucket key body content_type (some "*") s).1 b k ≡ object s b k
  pub get_lem :
      (bucket key : String) (s : S) (body : Bytes)
      → (aws.get_object bucket key s).0 ≡ success (ok body)
      → object s bucket key ≡ some body
  pub get_missing :
      (bucket key : String) (s : S)
      → (aws.get_object bucket key s).0 ≡ service_error (some "NoSuchKey")
      → object s bucket key ≡ none
  pub get_keeps :
      (bucket key : String) (s : S) (b k : String)
      → object (aws.get_object bucket key s).1 b k ≡ object s b k
  pub delete_lem :
      (bucket key : String) (s : S) (b k : String)
      → (aws.delete_object bucket key s).0 ≡ success tt
      → object (aws.delete_object bucket key s).1 b k
        ≡ (if bucket == b && key == k then none else object s b k)
  pub delete_keeps :
      (bucket key : String) (s : S) (b k : String)
      → (bucket == b && key == k) ≡ false
      → object (aws.delete_object bucket key s).1 b k ≡ object s b k

-- serde gives back what it wrote
abbrev pub JsonRoundTrip : {T : Type 0} → Json T → Type 0
JsonRoundTrip {T} json = (v : T) (b : Bytes) → json.to_vec v ≡ ok b → json.from_slice b ≡ ok v

module _ {S : Type 0} (aws : AwsClient S) (store : ObjectStore aws) where
  -- what stands at a key, decoded
  abbrev pub value_at : {T : Type 0} → Json T → S → (bucket key : String) → Result (Option T)
  value_at json s bucket key = decoded aws json (store.object s bucket key)

  unit_answer : (r : SdkResult (Unit {0})) → sent r ≡ ok tt → r ≡ success tt
  unit_answer (success tt) h = refl
  unit_answer (service_error code) h = absurd (ground arith)
  unit_answer (other_error e) h = absurd (ground arith)

  if_absent_answer-ok :
      (r : SdkResult (Unit {0})) (created : Bool)
      → if_absent_answer aws r ≡ ok created
      → ((created ≡ true) × (r ≡ success tt))
        ⊎ ((created ≡ false) × (r ≡ service_error (some "PreconditionFailed")))
  unfolding if_absent_answer
  if_absent_answer-ok (success tt) created h = inl (ground arith, refl)
  if_absent_answer-ok (service_error none) created h = absurd (ground arith)
  if_absent_answer-ok (service_error (some code)) created h = inr (
    ground (arith, string_eq.beq_iff code "PreconditionFailed"),
    ground (arith, string_eq.beq_iff code "PreconditionFailed"),
  )
  if_absent_answer-ok (other_error e) created h = absurd (ground arith)

  -- which answer a download of an object that may be missing stands for
  optional_answer-ok :
      (r : SdkResult (Result Bytes)) (found : Option Bytes)
      → optional_answer aws r ≡ ok found
      → ((found ≡ none) × (r ≡ service_error (some "NoSuchKey")))
        ⊎ ((body : Bytes) × (found ≡ some body) × (r ≡ success (ok body)))
  unfolding optional_answer
  optional_answer-ok (success (ok body)) found h = inr (body, ground arith, refl)
  optional_answer-ok (success (err e)) found h = absurd (ground arith)
  optional_answer-ok (service_error none) found h = absurd (ground arith)
  optional_answer-ok (service_error (some code)) found h =
      inl (ground arith, ground (arith, string_eq.beq_iff code "NoSuchKey"))
  optional_answer-ok (other_error e) found h = absurd (ground arith)

  pub get_object_optional_lem :
      (bucket key : String) (s : S) (found : Option Bytes)
      → (get_object_optional aws bucket key s).0 ≡ ok found
      → store.object s bucket key ≡ found
  unfolding get_object_optional
  get_object_optional_lem bucket key s found h =
      elim (optional_answer-ok (aws.get_object bucket key s).0 found h) [
        | inl missing ↦ ground (arith, store.get_missing bucket key s missing.1)
        | inr there ↦ ground (arith, store.get_lem bucket key s there.0 there.2)
      ]

  -- a conditional upload that answers
  pub put_object_if_absent_lem :
      (bucket key : String) (body : Bytes) (content_type : String) (s : S) (created : Bool)
      (b k : String)
      → (put_object_if_absent aws bucket key body content_type s).0 ≡ ok created
      → (created ≡ not (is_some (store.object s bucket key)))
        × (store.object (put_object_if_absent aws bucket key body content_type s).1 b k
            ≡ (if created && (bucket == b && key == k) then some body else store.object s b k))
  unfolding put_object_if_absent
  put_object_if_absent_lem bucket key body content_type s created b k h =
      elim (if_absent_answer-ok (aws.put_object bucket key body content_type (some "*") s).0 created
        h) [
          | inl made ↦ ground (
            arith,
            store.put_new_lem bucket key body content_type s made.1,
            store.put_new_writes bucket key body content_type s b k made.1,
          )
          | inr old ↦ ground (
            arith,
            store.put_old_lem bucket key body content_type s old.1,
            store.put_old_keeps bucket key body content_type s b k old.1,
          )
        ]

  module _ {T : Type 0} (json : Json T) where
    -- A download that answers gives what stands at the key.
    pub get_json_optional_lem :
        (bucket key : String) (s : S) (found : Option T)
        → (get_json_optional aws json bucket key s).0 ≡ ok found
        → value_at json s bucket key ≡ ok found
    unfolding get_json_optional
    get_json_optional_lem bucket key s found h =
        elim (Result-cases (get_object_optional aws bucket key s).0) [
          | inr failed ↦ absurd (ground arith)
          | inl got ↦ ground (arith, get_object_optional_lem bucket key s got.0 got.1)
        ]

    pub get_json_optional_keeps :
        (bucket key : String) (s : S) (b k : String)
        → store.object (get_json_optional aws json bucket key s).1 b k ≡ store.object s b k
    unfolding get_json_optional get_object_optional
    get_json_optional_keeps bucket key s b k =
        elim (Result-cases (get_object_optional aws bucket key s).0) [
          | inr failed ↦ ground (arith, store.get_keeps bucket key s b k)
          | inl got ↦ ground (arith, store.get_keeps bucket key s b k)
        ]

    -- An upload that answers leaves the value at its key and the others as they were.
    pub put_json_lem :
        (bucket key : String) (v : T) (s : S) (b k : String)
        → JsonRoundTrip json
        → (put_json aws json bucket key v s).0 ≡ ok tt
        → (bytes : Bytes) × (json.from_slice bytes ≡ ok v)
          × (store.object (put_json aws json bucket key v s).1 b k
              ≡ (if bucket == b && key == k then some bytes else store.object s b k))
    unfolding put_json put_object
    put_json_lem bucket key v s b k round_trip h = elim (Result-cases (json.to_vec v)) [
      | inr failed ↦ absurd (ground arith)
      | inl written ↦ (
        written.0,
        round_trip v written.0 written.1,
        ground (
          arith,
          unit_answer (aws.put_object bucket key written.0 "application/json" none s).0,
          store.put_lem bucket key written.0 "application/json" s b k,
        ),
      )
    ]

    -- A conditional upload that answers says whether nothing stood at the key, and writes then.
    pub put_json_if_absent_lem :
        (bucket key : String) (v : T) (s : S) (created : Bool) (b k : String)
        → JsonRoundTrip json
        → (put_json_if_absent aws json bucket key v s).0 ≡ ok created
        → (created ≡ not (is_some (store.object s bucket key)))
          × ((bytes : Bytes) × (json.from_slice bytes ≡ ok v)
              × (store.object (put_json_if_absent aws json bucket key v s).1 b k ≡ (
                  if created && (bucket == b && key == k) then some bytes else store.object s b k)))
    unfolding put_json_if_absent
    put_json_if_absent_lem bucket key v s created b k round_trip h =
        elim (Result-cases (json.to_vec v)) [
          | inr failed ↦ absurd (ground arith)
          | inl written ↦
              let answer =
                put_object_if_absent_lem bucket key written.0 "application/json" s created b k in
              (
                ground (arith, answer),
                (written.0, round_trip v written.0 written.1, ground (arith, answer)),
              )
        ]

  -- An upload that answers leaves the body at its key and the others as they were.
  pub put_object_lem :
      (bucket key : String) (body : Bytes) (content_type : String) (s : S) (b k : String)
      → (put_object aws bucket key body content_type s).0 ≡ ok tt
      → store.object (put_object aws bucket key body content_type s).1 b k
        ≡ (if bucket == b && key == k then some body else store.object s b k)
  unfolding put_object
  put_object_lem bucket key body content_type s b k h = ground (
    arith,
    unit_answer (aws.put_object bucket key body content_type none s).0,
    store.put_lem bucket key body content_type s b k,
  )

  pub delete_object_lem :
      (bucket key : String) (s : S) (b k : String)
      → (delete_object aws bucket key s).0 ≡ ok tt
      → store.object (delete_object aws bucket key s).1 b k
        ≡ (if bucket == b && key == k then none else store.object s b k)
  unfolding delete_object
  delete_object_lem bucket key s b k h =
      ground
        (arith, unit_answer (aws.delete_object bucket key s).0, store.delete_lem bucket key s b k)
