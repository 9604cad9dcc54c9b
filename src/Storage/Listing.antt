-- ===== src/Storage/Listing.antt =====
-- The listing of an object store, page by page.
use mathlib.Core.WellFounded.{Acc}
use mathlib.Core.Path.{subst}
use mathlib.Core.List.{append_assoc}
use experimental_crdt.Base.{
  String, Option, none, some, List, [], ◌++◌, Result, ok, err, ◌≡◌, refl, sym, ap, ◌∙◌, ◌⊎◌, inl,
  inr,
}
use experimental_crdt.Storage.{
  Page, AwsClient, Follows, sent, page_keys, after_page, after_request, list_pages,
  list_object_keys,
}

module _ {S : Type 0} (aws : AwsClient S) (bucket prefix : String) where
  abbrev requested : Option String → S → Result Page
  requested token s = sent (aws.list_objects_v2 bucket prefix token s).0

  abbrev answered : Option String → S → S
  answered token s = (aws.list_objects_v2 bucket prefix token s).1

  -- What a token stands for: the keys from it on. The last page has all of them, and a page that
  -- names a further token has them up to that token's, which the answer leaves as they are.
  pub record IsPaged (behind : Option String → S → List String) : Type 0 where
    pub last_page :
        (token : Option String) (s : S) (page : Page)
        → requested token s ≡ ok page
        → page.next_continuation_token ≡ none
        → behind token s ≡ page_keys aws page.contents
    pub further_page :
        (token : Option String) (s : S) (page : Page) (t : String)
        → requested token s ≡ ok page
        → page.next_continuation_token ≡ some t
        → behind token s ≡ page_keys aws page.contents ++ behind (some t) (answered token s)

  -- the service refuses a request of the listing from a token on with this error
  pub data Refuses (e : String) : Option String → S → Type 0 where
    refused : (token : Option String) (s : S) → requested token s ≡ err e → Refuses e token s
    refused_later :
        (token : Option String) (s : S) (page : Page) (t : String)
        → requested token s ≡ ok page
        → page.next_continuation_token ≡ some t
        → Refuses e (some t) (answered token s)
        → Refuses e token s

  -- all the keys, or the error of a request
  abbrev pub IsWhole : Option String → S → Result (List String) → List String → Type 0
  IsWhole token s answer keys =
      (answer ≡ ok keys) ⊎ ((e : String) × Refuses e token s × (answer ≡ err e))

  IsWhole-later :
      (token : Option String) (s : S) (page : Page) (t : String) (answer : Result (List String))
      (keys : List String)
      → requested token s ≡ ok page
      → page.next_continuation_token ≡ some t
      → IsWhole (some t) (answered token s) answer keys
      → IsWhole token s answer keys
  IsWhole-later token s page t answer keys served named (inl whole) = inl whole
  IsWhole-later token s page t answer keys served named (inr (e, later, h)) =
      inr (e, refused_later token s page t served named later, h)

  after_page-IsWhole :
      (token₀ : Option String) (s₀ : S) (out keys : List String) (token : Option String) (s : S)
      (next_round : (t : String) → token ≡ some t → Result (List String) × S)
      → (token ≡ none → out ≡ keys)
      → ((t : String) (named : token ≡ some t) → IsWhole token₀ s₀ (next_round t named).0 keys)
      → IsWhole token₀ s₀ (after_page aws out token s next_round).0 keys
  after_page-IsWhole token₀ s₀ out keys none s next_round last rest = inl (ap ok (last refl))
  after_page-IsWhole token₀ s₀ out keys (some t) s next_round last rest = rest t refl

  after_request-IsWhole :
      (token₀ : Option String) (s₀ : S) (out keys : List String) (response : Result Page) (s : S)
      (next_round : (page : Page) (t : String)
        → response ≡ ok page
        → page.next_continuation_token ≡ some t
        → Result (List String) × S)
      → ((e : String) → response ≡ err e → Refuses e token₀ s₀)
      → ((page : Page)
          → response ≡ ok page
          → page.next_continuation_token ≡ none
          → keys ≡ page_keys aws page.contents)
      → ((page : Page) (t : String) (served : response ≡ ok page)
            (named : page.next_continuation_token ≡ some t)
          → IsWhole token₀ s₀ (next_round page t served named).0 (out ++ keys))
      → IsWhole token₀ s₀ (after_request aws out response s next_round).0 (out ++ keys)
  after_request-IsWhole token₀ s₀ out keys (err e) s next_round failed last rest =
      inr (e, failed e refl, refl)
  after_request-IsWhole token₀ s₀ out keys (ok page) s next_round failed last rest =
      after_page-IsWhole token₀ s₀ (out ++ page_keys aws page.contents) (out ++ keys)
        page.next_continuation_token s (λ t named. next_round page t refl named)
        (λ named. ap (λ ks. out ++ ks) (sym (last page refl named)))
        (λ t named. rest page t refl named)

  module _ (behind : Option String → S → List String) (paged : IsPaged behind) where
    list_pages-IsWhole :
        (out : List String) (token : Option String) (s : S)
        (ends : Acc (Follows (aws.list_objects_v2 bucket prefix)) (token, s))
        → IsWhole token s (list_pages aws bucket prefix out token s ends).0 (out ++ behind token s)
    unfolding list_pages
    list_pages-IsWhole out token s (Acc.intro _ further) =
        after_request-IsWhole token s out (behind token s) (requested token s) (answered token s)
          (λ page t served named.
            list_pages aws bucket prefix (out ++ page_keys aws page.contents) (some t)
              (answered token s)
              (further (some t, answered token s) (page, t, served, named, refl)))
          (λ e h. refused token s h) (paged.last_page token s)
          (λ page t served named.
            subst (IsWhole token s _)
              (append_assoc out (page_keys aws page.contents) (behind (some t) (answered token s))
                ∙ ap (λ ks. out ++ ks) (sym (paged.further_page token s page t served named)))
              (IsWhole-later token s page t _ _ served named (
                list_pages-IsWhole (out ++ page_keys aws page.contents) (some t) (answered token s)
                  (further (some t, answered token s) (page, t, served, named, refl)))))

    -- A listing answers either with all the keys, in their order, or with the error of a request of it
    -- that the service refuses, never with a part of the keys. The service's chains of pages end,
    -- and it pages the keys: a page that names no further token has all that are left, and one that
    -- names a token has those before the keys of that token.
    pub list_object_keys-IsWhole :
        (s : S) → IsWhole none s (list_object_keys aws bucket prefix s).0 (behind none s)
    unfolding list_object_keys
    list_object_keys-IsWhole s =
        list_pages-IsWhole [] none s (aws.pages_end bucket prefix (none, s))
