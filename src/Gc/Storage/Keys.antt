-- ===== src/Gc/Storage/Keys.antt =====
-- storage.rs and src/peers/discovery.rs: which keys are told apart, and the final dots that the
-- collector reads of those that departing nodes write.
use Prim.Native.Char.{Char}
use Prim.Native.String.{[] as empty, ◌∷◌ as cons}
use experimental_crdt.Base.{
  ℕ, ◌<◌, ◌^◌, String, ◌==◌, string_eq, Bool, true, false, none, some, List, [], ◌∷◌, ◌≡◌, ◌≢◌,
  refl, ap, arith, length, ◌≤◌,
}
use experimental_crdt.Text.{◌<>◌, char_eqb, strip_prefix, strip_suffix, split, trim_end_matches}
use experimental_crdt.Text.Split.{
  strip_prefix-append, strip_suffix-append, append_assoc, lacks, split-lacks, split-append,
  length-split-append, length-split, length-split-lacks, trim_end_matches-append,
}
use experimental_crdt.Text.Decimal.{
  show_nat, parse_u64-show_nat, lacks-show_nat, show_nat_injective,
}
use experimental_crdt.Clock.{NodeId, Counter}
use experimental_crdt.Discovery.Service.{final_dot_key}
use experimental_crdt.Gc.Storage.{
  GcStorageConfig, key, gc_intent_key, epoch_metadata_key, epoch_state_key, parse_final_dot_key,
  read_dot_parts,
}

strip_prefix-both : (p s q : String) → strip_prefix (p <> s) (p <> q) ≡ strip_prefix s q
unfolding strip_prefix
strip_prefix-both empty s q = refl
strip_prefix-both (cons c p) s q = ground (arith, strip_prefix-both p s q)

append_cancel : (p s t : String) → p <> s ≡ p <> t → s ≡ t
append_cancel p s t e =
    ground (arith, strip_prefix-append p s, strip_prefix-append p t, ap (λ u. strip_prefix u p) e)

-- what follows the prefix in a key
key_tail :
    (config : GcStorageConfig) (n m s t : String)
    → key config n s ≡ key config m t
    → n <> s ≡ m <> t
unfolding key
key_tail config n m s t e =
    ap (λ u. tail_of u)
      (append_cancel (trim_end_matches config.prefix "/") ("/" <> (n <> s)) ("/" <> (m <> t)) e)
  where
    tail_of : String → String
    tail_of empty = empty
    tail_of (cons c u) = u

abbrev head_is : Char → String → Bool
head_is c empty = false
head_is c (cons d s) = char_eqb c d

pub gc_intent_key_injective :
    (config : GcStorageConfig) (m n : ℕ) → gc_intent_key config m ≡ gc_intent_key config n → m ≡ n
unfolding gc_intent_key
gc_intent_key_injective config m n e =
    let shown = append_cancel "gc_intent_" (show_nat m <> ".json") (show_nat n <> ".json") (
      key_tail config "gc_intent" "gc_intent" ("_" <> (show_nat m <> ".json"))
        ("_" <> (show_nat n <> ".json")) e) in
    show_nat_injective m n (
      ground (
        arith,
        strip_suffix-append (show_nat m) ".json",
        strip_suffix-append (show_nat n) ".json",
        ap (λ u. strip_suffix u ".json") shown,
      ))

pub intent-ne-metadata :
    (config : GcStorageConfig) (n : ℕ) → gc_intent_key config n ≢ epoch_metadata_key config
unfolding gc_intent_key epoch_metadata_key
intent-ne-metadata config n e =
    let tail =
      key_tail config "gc_intent" "epoch_metadata" ("_" <> (show_nat n <> ".json")) ".json" e in
    absurd (ground (arith, ap (λ u. head_is "g" u) tail))

pub intent-ne-state :
    (config : GcStorageConfig) (n : ℕ) → gc_intent_key config n ≢ epoch_state_key config
unfolding gc_intent_key epoch_state_key
intent-ne-state config n e =
    let tail =
      key_tail config "gc_intent" "epoch_state" ("_" <> (show_nat n <> ".json")) ".json" e in
    absurd (ground (arith, ap (λ u. head_is "g" u) tail))

pub metadata-ne-state :
    (config : GcStorageConfig) → epoch_metadata_key config ≢ epoch_state_key config
unfolding epoch_metadata_key epoch_state_key
metadata-ne-state config e =
    let tail = key_tail config "epoch_metadata" "epoch_state" ".json" ".json" e in
    absurd (ground (arith, ap (λ u. u == "epoch_state.json") tail))

read_dot_parts-length : (parts : List String) → 3 ≤ length parts → read_dot_parts parts ≡ none
read_dot_parts-length [] h = absurd (omega arith)
read_dot_parts-length (a ∷ []) h = absurd (omega arith)
read_dot_parts-length (a ∷ b ∷ []) h = absurd (omega arith)
read_dot_parts-length (a ∷ b ∷ c ∷ parts) h = refl

module _ (config : GcStorageConfig) (node_id : NodeId) (dot : Counter) where
  -- the parts of a final dot's key, where the prefix as configured does not end in a slash
  parse_final_dot_key-parts :
      trim_end_matches config.prefix "/" ≡ config.prefix
      → parse_final_dot_key config (final_dot_key config.prefix node_id dot)
        ≡ read_dot_parts (split (node_id <> ("_" <> show_nat dot)) "_")
  unfolding parse_final_dot_key final_dot_key
  parse_final_dot_key-parts trimmed = ground (
    arith,
    strip_prefix-both config.prefix
        ("/final_dots/" <> (node_id <> ("_" <> (show_nat dot <> ".json")))) "/final_dots/",
    strip_prefix-append "/final_dots/" (node_id <> ("_" <> (show_nat dot <> ".json"))),
    append_assoc node_id ("_" <> show_nat dot) ".json",
    strip_suffix-append (node_id <> ("_" <> show_nat dot)) ".json",
  )

  -- The final dot that a departing node writes is read back by the collector, where the configured
  -- prefix does not end in a slash, no underscore stands in the node's id, and the counter fits 64
  -- bits.
  pub parse_final_dot_key-final_dot_key :
      trim_end_matches config.prefix "/" ≡ config.prefix
      → lacks "_" node_id ≡ true
      → dot < 2 ^ 64
      → parse_final_dot_key config (final_dot_key config.prefix node_id dot) ≡ some (node_id, dot)
  parse_final_dot_key-final_dot_key trimmed named fits = ground (
    arith,
    parse_final_dot_key-parts trimmed,
    split-append node_id (show_nat dot) "_" named,
    split-lacks (show_nat dot) "_" (lacks-show_nat dot),
    parse_u64-show_nat dot fits,
  )

  -- The final dot of a node whose id holds an underscore is not read back: the collector passes its
  -- key over. The configured prefix does not end in a slash.
  pub parse_final_dot_key-underscore :
      trim_end_matches config.prefix "/" ≡ config.prefix
      → lacks "_" node_id ≡ false
      → parse_final_dot_key config (final_dot_key config.prefix node_id dot) ≡ none
  parse_final_dot_key-underscore trimmed named = ground (
    arith,
    parse_final_dot_key-parts trimmed,
    read_dot_parts-length (split (node_id <> ("_" <> show_nat dot)) "_"),
    length-split-append node_id (show_nat dot) "_",
    length-split-lacks node_id "_" named,
    length-split (show_nat dot) "_",
  )

  -- A configured prefix that ends in a slash is cut by the collector and not by the departing node:
  -- whatever the node's id, its final dot is not read back.
  pub parse_final_dot_key-slash :
      (prefix : String)
      → trim_end_matches prefix "/" ≡ prefix
      → config.prefix ≡ prefix <> "/"
      → parse_final_dot_key config (final_dot_key config.prefix node_id dot) ≡ none
  unfolding parse_final_dot_key final_dot_key strip_prefix
  parse_final_dot_key-slash prefix trimmed slash =
      let rest = node_id <> ("_" <> (show_nat dot <> ".json")) in
      ground (
        arith,
        trim_end_matches-append prefix "/",
        ap (λ u. trim_end_matches u "/") slash,
        append_assoc prefix "/" ("/final_dots/" <> rest),
        strip_prefix-both prefix ("//final_dots/" <> rest) "/final_dots/",
      )
