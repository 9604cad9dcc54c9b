-- ===== src/Tests/Objects.antt =====
-- An object store in memory, which lists two keys on a page, and codecs and a calendar for it.
use mathlib.Core.WellFounded.{Acc}
use experimental_crdt.Base.{
  ℕ, ◌<◌, String, ◌==◌, string_eq, ◌&&◌, Option, none, some, List, [], ◌∷◌, ◌++◌, ◌≡◌, refl, ap,
  Result, ok, err, if◌then◌else◌, arith, Option-cases, inl, inr,
}
use experimental_crdt.Map.{is_some}
use experimental_crdt.Text.{strip_prefix}
use experimental_crdt.Text.Decimal.{ℤ, pos}
use experimental_crdt.Proto.{Bytes}
use experimental_crdt.Storage.{
  SdkResult, success, service_error, Page, AwsClient, Follows, Json, page_keys, sent,
}
use experimental_crdt.Storage.Ends.{ends_of_fewer}
use experimental_crdt.Storage.Listing.{IsPaged}
use experimental_crdt.Storage.Store.{ObjectStore, JsonRoundTrip}
use experimental_crdt.Gc.{EpochMetadata, EpochState, GcIntentRecord}
use experimental_crdt.Gc.Storage.{Codecs, GcStorageConfig}
use experimental_crdt.Gc.Storage.Records.{Records, Represents}
use experimental_crdt.Discovery.{Chrono}

-- bucket, key and body
abbrev pub Objects : Type 0
Objects = List (String × String × Bytes)

abbrev pub find : Objects → String → String → Option Bytes
find [] b k = none
find ((b', k', body) ∷ s) b k = if b' == b && k' == k then some body else find s b k

abbrev pub drop : Objects → String → String → Objects
drop [] b k = []
drop ((b', k', body) ∷ s) b k =
    let rest = drop s b k in if b' == b && k' == k then rest else (b', k', body) ∷ rest

find-drop :
    (s : Objects) (b k b' k' : String)
    → find (drop s b k) b' k' ≡ (if b == b' && k == k' then none else find s b' k')
find-drop [] b k b' k' = ground arith
find-drop ((b0, k0, body) ∷ s) b k b' k' = ground (
  arith,
  find-drop s b k b' k',
  string_eq.beq_iff b0 b,
  string_eq.beq_iff k0 k,
  string_eq.beq_iff b b',
  string_eq.beq_iff k k',
  string_eq.beq_iff b0 b',
  string_eq.beq_iff k0 k',
)

abbrev keys_under : String → String → Objects → List (Option String)
keys_under b prefix [] = []
keys_under b prefix ((b', k, body) ∷ s) =
    let rest = keys_under b prefix s in
    if b' == b && is_some (strip_prefix k prefix) then some k ∷ rest else rest

abbrev two : List (Option String) → List (Option String)
two (a ∷ b ∷ _) = a ∷ b ∷ []
two few = few

abbrev behind_two : List (Option String) → List (Option String)
behind_two (_ ∷ _ ∷ more) = more
behind_two _ = []

abbrev upload : Option Bytes → String → String → Bytes → Objects → SdkResult (Unit {0}) × Objects
upload none bucket key body s = (success tt, (bucket, key, body) ∷ s)
upload (some _) bucket key body s = (service_error (some "PreconditionFailed"), s)

abbrev put :
    String → String → Bytes → String → Option String → Objects → SdkResult (Unit {0}) × Objects
put bucket key body content_type none s = (success tt, (bucket, key, body) ∷ s)
put bucket key body content_type (some _) s = upload (find s bucket key) bucket key body s

abbrev download : Option Bytes → SdkResult (Result Bytes)
download none = service_error (some "NoSuchKey")
download (some body) = success (ok body)

abbrev page_of : Option String → List (Option String) → Page
page_of none keys = record { contents = two keys; next_continuation_token = some "2" }
page_of (some _) keys = record { contents = behind_two keys; next_continuation_token = none }

abbrev page_at : String → String → Option String → Objects → SdkResult Page × Objects
page_at b prefix token s = (success (page_of token (keys_under b prefix s)), s)

-- the pages behind a token
abbrev pub pages_left : Option String → Objects → ℕ
pages_left none s = 1
pages_left (some _) s = 0

pub fewer_pages :
    (b prefix : String) (token : Option String) (s : Objects) (further : Option String × Objects)
    → Follows (page_at b prefix) further (token, s)
    → pages_left further.0 further.1 < pages_left token s
fewer_pages b prefix none s further (page, t, served, named, same) =
    ground (arith, ap (λ f. pages_left f.0 f.1) same)
fewer_pages b prefix (some _) s further (page, t, served, named, same) = absurd (ground arith)

abbrev pages_end :
    (b prefix : String) (at : Option String × Objects) → Acc (Follows (page_at b prefix)) at
pages_end b prefix =
    ends_of_fewer (page_at b prefix) pages_left
      (λ further at f. fewer_pages b prefix at.0 at.1 further f)

abbrev pub memory : AwsClient Objects
memory = record {
  head_bucket = λ b s. (success tt, s);
  create_bucket = λ b s. (success tt, s);
  put_object = put;
  get_object = λ b k s. (download (find s b k), s);
  delete_object = λ b k s. (success tt, drop s b k);
  list_objects_v2 = page_at;
  pages_end = pages_end;
}

-- the keys from a token on
abbrev pub behind : String → String → Option String → Objects → List String
behind b prefix none s =
    page_keys memory (two (keys_under b prefix s))
    ++ page_keys memory (behind_two (keys_under b prefix s))
behind b prefix (some _) s = page_keys memory (behind_two (keys_under b prefix s))

page_was : (p page : Page) → sent (success p) ≡ ok page → p ≡ page
page_was p page h = ground arith

last_page :
    (b prefix : String) (token : Option String) (s : Objects) (page : Page)
    → page_of token (keys_under b prefix s) ≡ page
    → page.next_continuation_token ≡ none
    → behind b prefix token s ≡ page_keys memory page.contents
last_page b prefix none s page served last =
    absurd (ground (arith, ap (λ p. p.next_continuation_token) served, last))
last_page b prefix (some t) s page served last = ap (λ p. page_keys memory p.contents) served

further_page :
    (b prefix : String) (token : Option String) (s : Objects) (page : Page) (t : String)
    → page_of token (keys_under b prefix s) ≡ page
    → page.next_continuation_token ≡ some t
    → behind b prefix token s ≡ page_keys memory page.contents ++ behind b prefix (some t) s
further_page b prefix none s page t served named =
    ap (λ p. page_keys memory p.contents ++ behind b prefix (some t) s) served
further_page b prefix (some _) s page t served named =
    absurd (ground (arith, ap (λ p. p.next_continuation_token) served, named))

pub memory-IsPaged : (b prefix : String) → IsPaged memory b prefix (behind b prefix)
memory-IsPaged b prefix = record {
  last_page = λ token s page served. last_page b prefix token s page (page_was _ _ served);
  further_page =
      λ token s page t served. further_page b prefix token s page t (page_was _ _ served);
}

pub memory-ObjectStore : ObjectStore memory
memory-ObjectStore = record {
  object = find;
  put_lem = λ bucket key body content_type s b k h. refl;
  put_new_lem = λ bucket key body content_type s h. elim (Option-cases (find s bucket key)) [
    | inl free ↦ ground arith
    | inr held ↦ ground arith
  ];
  put_new_writes = λ bucket key body content_type s b k h. elim (Option-cases (find s bucket key)) [
    | inl free ↦ ground arith
    | inr held ↦ ground arith
  ];
  put_old_lem = λ bucket key body content_type s h missing. absurd (ground arith);
  put_old_keeps = λ bucket key body content_type s b k h. elim (Option-cases (find s bucket key)) [
    | inl free ↦ ground arith
    | inr held ↦ ground arith
  ];
  get_lem = λ bucket key s body h. elim (Option-cases (find s bucket key)) [
    | inl free ↦ ground arith
    | inr held ↦ ground arith
  ];
  get_missing = λ bucket key s h. elim (Option-cases (find s bucket key)) [
    | inl free ↦ ground arith
    | inr held ↦ ground arith
  ];
  get_keeps = λ bucket key s b k. refl;
  delete_lem = λ bucket key s b k h. find-drop s bucket key b k;
  delete_keeps = λ bucket key s b k h. ground (arith, find-drop s bucket key b k);
}

abbrev pub config : GcStorageConfig
config = record { bucket = "bucket"; prefix = "gc" }

-- metadata without counters
abbrev write_metadata : EpochMetadata → Result Bytes
write_metadata md = elim md.v_stable [
  | _ ∷ _ ↦ err "not a number"
  | [] ↦ elim md.obsolete_dots [ _ ∷ _ ↦ err "not a number" | [] ↦ ok (md.epoch ∷ []) ]
]

abbrev read_metadata : Bytes → Result EpochMetadata
read_metadata (n ∷ []) = ok (record { epoch = n; v_stable = []; obsolete_dots = [] })
read_metadata _ = err "not metadata"

-- a state without a clock
abbrev write_state : EpochState → Result Bytes
write_state st = elim st.initiator_clock [
  | _ ∷ _ ↦ err "not a state"
  | [] ↦ ok (st.epoch ∷ st.state_payload)
]

abbrev read_state : Bytes → Result EpochState
read_state [] = err "not a state"
read_state (n ∷ payload) = ok (record { epoch = n; initiator_clock = []; state_payload = payload })

-- the intents of "a" and "b"
abbrev write_intent : GcIntentRecord → Result Bytes
write_intent i =
    if i.initiator == "a"
    then ok (i.epoch ∷ [])
    else if i.initiator == "b"
    then ok (i.epoch ∷ 1 ∷ [])
    else err "not an intent"

abbrev read_intent : Bytes → Result GcIntentRecord
read_intent (n ∷ []) = ok (record { epoch = n; initiator = "a" })
read_intent (n ∷ _ ∷ []) = ok (record { epoch = n; initiator = "b" })
read_intent _ = err "not an intent"

abbrev pub codecs : Codecs
codecs = record {
  metadata = record { to_vec = write_metadata; from_slice = read_metadata };
  state = record { to_vec = write_state; from_slice = read_state };
  intent = record { to_vec = write_intent; from_slice = read_intent };
}

pub metadata_trip : JsonRoundTrip codecs.metadata
metadata_trip v b h = ground arith

pub state_trip : JsonRoundTrip codecs.state
state_trip v b h = ground arith

pub intent_trip : JsonRoundTrip codecs.intent
intent_trip v b h =
    ground (arith, string_eq.beq_iff v.initiator "a", string_eq.beq_iff v.initiator "b")

-- times are milliseconds
abbrev pub clock : Chrono ℤ
clock = record {
  timestamp_millis = λ t. t;
  from_timestamp_millis = λ t. some t;
  after = λ t ttl. ok (pos ttl);
}

abbrev pub blank : Json String
blank = record { to_vec = λ _. ok (34 ∷ 34 ∷ []); from_slice = λ _. ok "" }

abbrev pub no_records : Records
no_records = record { metadata = none; state = none; intent = λ n. none }

pub no_records-Represents : Represents memory codecs config memory-ObjectStore no_records []
unfolding memory-ObjectStore
no_records-Represents = record { metadata = refl; state = refl; intent = λ n. refl }
