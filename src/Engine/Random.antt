-- ===== src/Engine/Random.antt =====
-- crdt_engine.rs and client_requests_handler.rs: the command that removes some element.
use experimental_crdt.Base.{
  ◌≡◌, refl, sym, ap, ◌∙◌, ◌⊎◌, inl, inr, String, Bool, true, false, not, ◌&&◌, some, List, [], ◌∷◌,
  arith, ◌==◌, nat_eq, string_eq, Bool-cases, Option,
}
use experimental_crdt.Map.{is_some}
use experimental_crdt.Map.Sets.{contains as has}
use experimental_crdt.Text.{strip_prefix}
use experimental_crdt.Proto.{Message, ProtoOrSetDelta, remove_random}
use experimental_crdt.OrSet.{OrSet, OrSetOp, contains, elements}
use experimental_crdt.OrSet.Codec.{ElementCodec}
use experimental_crdt.OrSet.Merge.{IsValid}
use experimental_crdt.OrSet.Elements.{has-elements}
use experimental_crdt.Dissemination.{DisseminationStrategy}
use experimental_crdt.Gc.{GcStorage}
use experimental_crdt.Server.Request.{CrdtEngineRequest}
use experimental_crdt.Server.Clients.{
  send_engine_request, send_engine_request_and_wait_response, remove_reply, handle_command,
}
use experimental_crdt.Engine.{CrdtEngine, handle}
use experimental_crdt.Engine.Clients.{
  first_element, element_text, send, reply, link, IsReady, operate,
}
use experimental_crdt.Engine.Sequential.{contains-operate}

-- the text begins with `error:`
abbrev pub looks_like_error : String → Bool
looks_like_error text = is_some (strip_prefix text "error:")

module _ {S H : Type 0} (codec : ElementCodec String) (prost : Message ProtoOrSetDelta)
    (store : GcStorage S) (strategy : DisseminationStrategy H)
    (texts : CrdtEngineRequest (OrSetOp String) → CrdtEngine S (OrSet String) H → String) where
  -- the command, as the engine answers it
  abbrev pub ask :
      Bool → CrdtEngine S (OrSet String) H → String × Option (CrdtEngine S (OrSet String) H)
  ask mark g =
      handle_command (link codec prost store strategy texts) (some (remove_random mark)) (some g)

  -- what the engine names
  abbrev named : CrdtEngine S (OrSet String) H → String
  named g = element_text (first_element (elements g.crdt))

  -- One element that the set contained is gone, and every other is as it was.
  pub record Removes (g g' : CrdtEngine S (OrSet String) H) (x : String) : Type 0 where
    pub was_there : contains g.crdt x ≡ true
    pub is_plain : looks_like_error x ≡ false
    pub others : (k : String) → contains g'.crdt k ≡ (not (x == k) && contains g.crdt k)

  -- The text looks like an error and is an element, or there is no element.
  pub record Refuses (g : CrdtEngine S (OrSet String) H) (text : String) : Type 0 where
    pub looks : looks_like_error text ≡ true
    pub origin : (contains g.crdt text ≡ true) ⊎ ((k : String) → contains g.crdt k ≡ false)

  ask-error :
      (g : CrdtEngine S (OrSet String) H) (mark : Bool)
      → looks_like_error (named g) ≡ true
      → ask mark g ≡ (named g, some g)
  unfolding handle_command remove_reply send_engine_request_and_wait_response send reply handle
  ask-error g mark h = ground (arith, h)

  ask-plain :
      (g : CrdtEngine S (OrSet String) H) (mark : Bool)
      → looks_like_error (named g) ≡ false
      → ask mark g
        ≡ ("ok", some (operate codec prost store strategy texts g (OrSetOp.remove (named g))))
  unfolding handle_command remove_reply send_engine_request_and_wait_response send_engine_request
      send reply handle
  ask-plain g mark h = ground (arith, h)

  -- what is named is an element, unless there is none
  named-origin :
      (g : CrdtEngine S (OrSet String) H)
      → IsValid g.crdt
      → (contains g.crdt (named g) ≡ true)
        ⊎ (((k : String) → contains g.crdt k ≡ false) × (named g ≡ "error: empty crdt"))
  unfolding has
  named-origin g v = listed (elements g.crdt) refl
    where
      listed :
          (l : List String)
          → elements g.crdt ≡ l
          → (contains g.crdt (named g) ≡ true)
            ⊎ (((k : String) → contains g.crdt k ≡ false) × (named g ≡ "error: empty crdt"))
      listed [] e = inr (
        λ k. sym (has-elements g.crdt k v) ∙ ap (λ l. has l k) e,
        ap (λ l. element_text (first_element l)) e,
      )
      listed (x ∷ xs) e =
          inl (ground (arith, has-elements g.crdt (named g) v, e, string_eq.beq_iff x x))

  -- A client that asks to remove a random element is answered in one of two ways. Either the answer
  -- is "ok", one element that the set contained and whose text does not begin with `error:` is gone,
  -- and every other element is as it was; or the answer begins with `error:`, the engine is as it
  -- was, and the answer is an element of the set or the set has none. The set's tables are maps, the
  -- clock is valid, knows of every dot of the set and has room for an event, and no dot stands for
  -- two elements.
  pub handle_command-remove_random :
      (g : CrdtEngine S (OrSet String) H) (mark : Bool)
      → IsReady codec prost store strategy texts 1 g
      → IsValid g.crdt
      → ((x : String) × (g' : CrdtEngine S (OrSet String) H) × (ask mark g ≡ ("ok", some g'))
          × Removes g g' x)
        ⊎ ((text : String) × (ask mark g ≡ (text, some g)) × Refuses g text)
  unfolding strip_prefix
  handle_command-remove_random g mark ready v = elim (Bool-cases (looks_like_error (named g))) [
    | inl looks ↦ inr (
      named g,
      ask-error g mark looks,
      record {
        looks = looks;
        origin = elim (named-origin g v) [ inl there ↦ inl there | inr (nothing, _) ↦ inr nothing ];
      },
    )
    | inr plain ↦ inl (
      named g,
      operate codec prost store strategy texts g (OrSetOp.remove (named g)),
      ask-plain g mark plain,
      record {
        was_there = elim (named-origin g v) [
          | inl there ↦ there
          | inr (_, empty) ↦ absurd (ground (arith, ap looks_like_error empty))
        ];
        is_plain = plain;
        others = λ k.
            contains-operate codec prost store strategy texts g (OrSetOp.remove (named g)) 0 k
              ready;
      },
    )
  ]
