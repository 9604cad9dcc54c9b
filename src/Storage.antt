-- ===== src/Storage.antt =====
-- src/storage/s3_client.rs: the wrapper around the AWS client. The AWS client and serde's JSON are
-- parameters: a call takes the service's state and gives an answer and the state after it.
pub mod Store
pub mod Listing
pub mod Ends
use Prim.Native.String.{[] as empty, ◌∷◌ as cons}
use mathlib.Core.WellFounded.{Acc}
use experimental_crdt.Base.{
  ℕ, zero, suc, ◌+◌, String, ◌==◌, string_eq, Bool, true, false, Option, none, some, List, [], ◌∷◌,
  ◌++◌, Result, ok, err, if◌then◌else◌, ◌≡◌, refl,
}
use experimental_crdt.Map.{is_some}
use experimental_crdt.Proto.{Bytes}

-- what the SDK answers: a service error carries a code, which may be missing
pub data SdkResult (A : Type 0) : Type 0 where
  success : A → SdkResult A
  service_error : Option String → SdkResult A
  other_error : String → SdkResult A

-- one page of a listing
pub record Page : Type 0 where
  pub contents : List (Option String)
  pub next_continuation_token : Option String

-- `err.err().meta().code().unwrap_or_default()`
abbrev pub code_of : Option String → String
code_of none = ""
code_of (some code) = code

-- `send().await?`
abbrev pub sent : {A : Type 0} → SdkResult A → Result A
sent (success a) = ok a
sent (service_error code) = err (code_of code)
sent (other_error message) = err message

-- What a listing asks for after what: a page that names a token is followed by the page of that
-- token, in the state that the answer leaves.
abbrev pub Follows :
    {S : Type 0}
    → (Option String → S → SdkResult Page × S)
    → Option String × S
    → Option String × S
    → Type 0
Follows list further at =
    (page : Page) × (t : String) × (sent (list at.0 at.1).0 ≡ ok page)
    × (page.next_continuation_token ≡ some t)
    × (further ≡ (some t, (list at.0 at.1).1))

-- The calls that the wrapper makes. The body of an object comes as a stream that may break.
-- A listing ends: the service does not name a further page for ever.
pub record AwsClient (S : Type 0) : Type 0 where
  pub head_bucket : String → S → SdkResult (Unit {0}) × S
  pub create_bucket : String → S → SdkResult (Unit {0}) × S
  pub put_object :
      (bucket key : String) (body : Bytes) (content_type : String) (if_none_match : Option String)
      → S
      → SdkResult (Unit {0}) × S
  pub get_object : (bucket key : String) → S → SdkResult (Result Bytes) × S
  pub delete_object : (bucket key : String) → S → SdkResult (Unit {0}) × S
  pub list_objects_v2 : (bucket prefix : String) → Option String → S → SdkResult Page × S
  pub pages_end :
      (bucket prefix : String) (at : Option String × S)
      → Acc (Follows (list_objects_v2 bucket prefix)) at

-- serde_json for one type: `to_vec` and `from_slice`
pub record Json (T : Type 0) : Type 0 where
  pub to_vec : T → Result Bytes
  pub from_slice : Bytes → Result T

-- a request that changes the service and may fail
abbrev pub Call : Type 0 → Type 0 → Type 0
Call S A = S → Result A × S

module _ {S : Type 0} where
  abbrev pub next : {A B : Type 0} → Result A → (A → Call S B) → Call S B
  next (ok a) f s = f a s
  next (err e) f s = (err e, s)

  infixl 5 ◌>>=◌ ◌>>◌
  abbrev pub ◌>>=◌ : {A B : Type 0} → Call S A → (A → Call S B) → Call S B
  ◌>>=◌ m f s = next (m s).0 f (m s).1

  abbrev pub ◌>>◌ : {B : Type 0} → Call S (Unit {0}) → Call S B → Call S B
  m >> k = m >>= λ _. k

  abbrev pub pure : {A : Type 0} → A → Call S A
  pure a s = (ok a, s)

  -- a computation beside the service, with `?`
  abbrev pub lift : {A : Type 0} → Result A → Call S A
  lift r s = (r, s)

module _ {S : Type 0} (aws : AwsClient S) where
  unfoldable pub ensure_bucket : String → Call S (Unit {0})
  ensure_bucket bucket s = elim ((aws.head_bucket bucket s).0) [
    | success _ ↦ (ok tt, (aws.head_bucket bucket s).1)
    | _ ↦ (
      sent (aws.create_bucket bucket (aws.head_bucket bucket s).1).0,
      (aws.create_bucket bucket (aws.head_bucket bucket s).1).1,
    )
  ]

  unfoldable pub put_object : String → String → Bytes → String → Call S (Unit {0})
  put_object bucket key body content_type s =
      let response = aws.put_object bucket key body content_type none s in
      (sent response.0, response.1)

  -- the answer to a conditional upload
  unfoldable pub if_absent_answer : SdkResult (Unit {0}) → Result Bool
  if_absent_answer (success _) = ok true
  if_absent_answer (service_error code) =
      if code_of code == "PreconditionFailed" then ok false else err (code_of code)
  if_absent_answer (other_error e) = err e

  unfoldable pub put_object_if_absent : String → String → Bytes → String → Call S Bool
  put_object_if_absent bucket key body content_type s =
      let response = aws.put_object bucket key body content_type (some "*") s in
      (if_absent_answer response.0, response.1)

  -- the body of an answer, downloaded
  abbrev pub collected : SdkResult (Result Bytes) → Result Bytes
  collected (success body) = body
  collected (service_error code) = err (code_of code)
  collected (other_error e) = err e

  unfoldable pub get_object : String → String → Call S Bytes
  get_object bucket key s =
      let response = aws.get_object bucket key s in (collected response.0, response.1)

  abbrev pub present : Result Bytes → Result (Option Bytes)
  present (ok body) = ok (some body)
  present (err e) = err e

  -- the answer to a download of an object that may be missing
  unfoldable pub optional_answer : SdkResult (Result Bytes) → Result (Option Bytes)
  optional_answer (success body) = present body
  optional_answer (service_error code) =
      if code_of code == "NoSuchKey" then ok none else err (code_of code)
  optional_answer (other_error e) = err e

  unfoldable pub get_object_optional : String → String → Call S (Option Bytes)
  get_object_optional bucket key s =
      let response = aws.get_object bucket key s in (optional_answer response.0, response.1)

  unfoldable pub delete_object : String → String → Call S (Unit {0})
  delete_object bucket key s =
      let response = aws.delete_object bucket key s in (sent response.0, response.1)

  -- the keys of a page; an entry without a key is passed over
  unfoldable pub page_keys : List (Option String) → List String
  page_keys [] = []
  page_keys (none ∷ contents) = page_keys contents
  page_keys (some key ∷ contents) = key ∷ page_keys contents

  -- Behind a page: the end of the loop, or the next round.
  abbrev pub after_page :
      List String
      → (token : Option String) → S
      → ((t : String) → token ≡ some t → Result (List String) × S)
      → Result (List String) × S
  after_page out none s next_round = (ok out, s)
  after_page out (some t) s next_round = next_round t refl

  -- behind a request: `?`, and the page's keys are pushed
  abbrev pub after_request :
      List String
      → (response : Result Page) → S
      → ((page : Page) (t : String)
          → response ≡ ok page
          → page.next_continuation_token ≡ some t
          → Result (List String) × S)
      → Result (List String) × S
  after_request out (err e) s next_round = (err e, s)
  after_request out (ok page) s next_round =
      after_page (out ++ page_keys page.contents) page.next_continuation_token s
        (λ t named. next_round page t refl named)

  -- The loop, by recursion on the listing's end: the next round has the page's keys, the token that
  -- it names, and the state behind it.
  unfoldable pub list_pages :
      (bucket prefix : String) (out : List String) (token : Option String) (s : S)
      → Acc (Follows (aws.list_objects_v2 bucket prefix)) (token, s)
      → Result (List String) × S
  list_pages bucket prefix out token s (Acc.intro _ further) =
      let response = aws.list_objects_v2 bucket prefix token s in
      after_request out (sent response.0) response.1 (λ page t served named.
        list_pages bucket prefix (out ++ page_keys page.contents) (some t) response.1
          (further (some t, response.1) (page, t, served, named, refl)))

  unfoldable pub list_object_keys : String → String → Call S (List String)
  list_object_keys bucket prefix s =
      list_pages bucket prefix [] none s (aws.pages_end bucket prefix (none, s))

  module _ {T : Type 0} (json : Json T) where
    unfoldable pub put_json : String → String → T → Call S (Unit {0})
    put_json bucket key value = do
      bytes ← lift (json.to_vec value)
      put_object bucket key bytes "application/json"

    unfoldable pub put_json_if_absent : String → String → T → Call S Bool
    put_json_if_absent bucket key value = do
      bytes ← lift (json.to_vec value)
      put_object_if_absent bucket key bytes "application/json"

    unfoldable pub get_json : String → String → Call S T
    get_json bucket key = do bytes ← get_object bucket key; lift (json.from_slice bytes)

    abbrev pub decoded : Option Bytes → Result (Option T)
    decoded none = ok none
    decoded (some bytes) = elim (json.from_slice bytes) [
      | ok value ↦ ok (some value)
      | err e ↦ err e
    ]

    unfoldable pub get_json_optional : String → String → Call S (Option T)
    get_json_optional bucket key = do found ← get_object_optional bucket key; lift (decoded found)
