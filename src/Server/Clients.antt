-- ===== src/Server/Clients.antt =====
-- src/server/client_requests_handler.rs: one client's connection. The channel to the engine and the
-- replies of the engine are an interface; the bytes of a text are UTF-8, a parameter.
use experimental_crdt.Base.{
  ℕ, zero, suc, String, Option, none, some, ◌++◌, Result, ok, err, if◌then◌else◌, length,
}
use experimental_crdt.Text.{◌<>◌, strip_prefix}
use experimental_crdt.Map.{is_some}
use experimental_crdt.Proto.{
  Bytes, Message, Command, add, remove, print_state, print_internals, print_matrix, remove_random,
  ProtoClientCommand,
}
use experimental_crdt.OrSet.{OrSetOp}
use experimental_crdt.Frame.{put_u32, read_exact, behind_length}
use experimental_crdt.Server.Request.{CrdtEngineRequest}

-- a request that the channel takes or refuses, and the reply to one that asks for it
pub record EngineLink (Q Op : Type 0) : Type 0 where
  pub send : CrdtEngineRequest Op → Q → Result (Unit {0}) × Q
  pub reply : CrdtEngineRequest Op → Q → Result String × Q

module _ {Q : Type 0} (engine : EngineLink Q (OrSetOp String)) where
  abbrev pub sent_text : Result (Unit {0}) → String
  sent_text (ok _) = "ok"
  sent_text (err e) = "error: " <> e

  unfoldable pub send_engine_request : CrdtEngineRequest (OrSetOp String) → Q → String × Q
  send_engine_request request q = (sent_text (engine.send request q).0, (engine.send request q).1)

  abbrev pub reply_text : Result String → String
  reply_text (ok text) = text
  reply_text (err e) = "error: " <> e

  unfoldable pub send_engine_request_and_wait_response :
      CrdtEngineRequest (OrSetOp String) → Q → String × Q
  send_engine_request_and_wait_response request q =
      let sent = engine.send request q in
      elim (sent.0) [
        | err e ↦ ("error: " <> e, sent.1)
        | ok _ ↦ (reply_text (engine.reply request sent.1).0, (engine.reply request sent.1).1)
      ]

  -- behind the reply with an element: `starts_with("error:")`
  unfoldable pub remove_reply : String × Q → String × Q
  remove_reply (random_element, q) =
      if is_some (strip_prefix random_element "error:")
      then (random_element, q)
      else send_engine_request (CrdtEngineRequest.client_operation (OrSetOp.remove random_element))
          q

  -- `match cmd.command`
  unfoldable pub handle_command : Option Command → Q → String × Q
  handle_command (some (add value)) q =
      send_engine_request (CrdtEngineRequest.client_operation (OrSetOp.add value)) q
  handle_command (some (remove value)) q =
      send_engine_request (CrdtEngineRequest.client_operation (OrSetOp.remove value)) q
  handle_command (some (remove_random _)) q =
      remove_reply (send_engine_request_and_wait_response CrdtEngineRequest.get_random_element q)
  handle_command (some (print_state _)) q =
      send_engine_request_and_wait_response CrdtEngineRequest.print_state q
  handle_command (some (print_internals _)) q =
      send_engine_request_and_wait_response CrdtEngineRequest.print_internals q
  handle_command (some (print_matrix _)) q =
      send_engine_request_and_wait_response CrdtEngineRequest.print_matrix q
  handle_command none q = ("error: empty command", q)

  unfoldable pub respond : Message ProtoClientCommand → Bytes → Q → String × Q
  respond prost msg_buf q = elim (prost.decode msg_buf) [
    | ok cmd ↦ handle_command cmd.command q
    | err e ↦ ("error: " <> e, q)
  ]

  -- The loop over a client's messages, on fuel: the bytes that go back and the engine then, or `none`
  -- where the fuel runs out.
  unfoldable pub serve_client :
      Message ProtoClientCommand → (String → Bytes) → ℕ → Bytes → Bytes → Q → Option (Bytes × Q)
  serve_client prost into_bytes zero input out q = none
  serve_client prost into_bytes (suc fuel) input out q = elim (behind_length (read_exact 4 input)) [
    | none ↦ some (out, q)
    | some (msg_buf, rest) ↦
        let response = respond prost msg_buf q in
        let resp_bytes = into_bytes response.0 in
        serve_client prost into_bytes fuel rest (out ++ (put_u32 (length resp_bytes) ++ resp_bytes))
          response.1
  ]
