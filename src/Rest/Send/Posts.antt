-- ===== src/Rest/Send/Posts.antt =====
-- A message from its text to the transfer that posts it.
use libdiscord.Prelude.{
  ℕ, ◌<◌, ◌≡◌, refl, ap, ◌∙◌, pos, some, List, [], ◌∷◌, ◌++◌, Bytes, text, length, ltb, arith, done,
}
use libdiscord.Status.{lde_ok}
use libdiscord.Stdlib.{print_decimal}
use libdiscord.Jansson.{Jansson}
use libdiscord.Context.{Context}
use libdiscord.Rest.Curl.{Web, EasyOptions, curl_easy_perform}
use libdiscord.Rest.Headers.Put.{holding}
use libdiscord.Rest.Headers.Lines.{Appends, keys_of, values_of, lines_of}
use libdiscord.Rest.Response.{Response}
use libdiscord.Rest.Request.{
  Request, post, base_url_text, user_agent_text, content_object, create_basic_message,
}
use libdiscord.Rest.Send.{set_options, send_basic_message}
use libdiscord.Rest.Send.Options.{IsComplete, SpareFirst}
use libdiscord.Rest.Send.Fresh.{
  Rounded, Rounded-Ample, new_request, init_request_lem, add_header_lem, authorization_lem,
}
use libdiscord.Rest.Send.Results.{message_result, send_basic_message_lem}

-- The lines of a message's headers.
abbrev pub message_pairs : Bytes → List (Bytes × Bytes)
message_pairs t =
    (text "Authorization", text "Bot " ++ t) ∷ (text "Content-Type", text "application/json") ∷ []

abbrev pub message_endpoint : ℕ → Bytes
message_endpoint channel_id = text "/channels/" ++ print_decimal channel_id ++ text "/messages"

-- The request of a message.
abbrev pub message_request : Bytes → ℕ → Bytes → ℕ → ℕ → Request
message_request t channel_id json room_k room_v = record {
  verb = post;
  base_url = some base_url_text;
  endpoint = some (message_endpoint channel_id);
  body = some json;
  body_size = length json;
  headers = some (holding (keys_of (message_pairs t)) (values_of (message_pairs t)) room_k room_v);
  timeout = pos 0;
  user_agent = some user_agent_text;
}

unfoldable pub message_is_complete :
    (t : Bytes) (channel_id : ℕ) (json : Bytes) (room_k room_v : ℕ)
    → length t < 900
    → IsComplete (message_request t channel_id json room_k room_v)
unfolding text
message_is_complete t channel_id json room_k room_v short = record {
  base = base_url_text;
  endpoint = message_endpoint channel_id;
  pairs = message_pairs t;
  room_k = room_k;
  room_v = room_v;
  has_base = refl;
  has_endpoint = refl;
  has_headers = refl;
  fits = (omega arith, (omega arith, tt));
}

-- The options of the transfer that posts a message.
abbrev pub post_options : Web → EasyOptions → Bytes → ℕ → Bytes → EasyOptions
post_options web opts t channel_id json = record {
  url = some (base_url_text ++ message_endpoint channel_id);
  http_header = lines_of (message_pairs t);
  user_agent = some user_agent_text;
  post_fields = some (some json);
  post_field_size = length json;
  verbose = ltb 8 web.logging_level;
  performed = opts.performed;
}

-- The handle after that transfer, with the transfer and its answer last in its record.
abbrev pub posted : Web → EasyOptions → Bytes → ℕ → Bytes → EasyOptions
posted web opts t channel_id json =
    (curl_easy_perform web (post_options web opts t channel_id json)).1

module _ {J : Type 0} (web : Web) (j : Jansson J) (rounded : Rounded web) where
  pub create_basic_message_lem :
      (t : Bytes) (room channel_id : ℕ) (message json : Bytes) (object : J)
      → length t < 900
      → content_object web j message ≡ some object
      → j.dumps object ≡ some json
      → (a : ℕ) × (b : ℕ) × (create_basic_message web j
            (some t)
            (new_request room)
            channel_id
            message
          ≡ done (lde_ok, message_request t channel_id json a b))
  unfolding create_basic_message
  create_basic_message_lem t room channel_id message json object short made dumped =
      let req1 : Request = record (new_request room) {
        endpoint = some (message_endpoint channel_id);
        verb = post;
      } in
      let (a1, b1, added1) =
        add_header_lem web req1 [] [] room room (text "Authorization") (text "Bot " ++ t) rounded
          refl refl in
      let req2 : Request = record req1 {
        headers = some (holding (text "Authorization" ∷ []) ((text "Bot " ++ t) ∷ []) a1 b1);
      } in
      let (a2, b2, added2) =
        add_header_lem web req2 (text "Authorization" ∷ []) ((text "Bot " ++ t) ∷ []) a1 b1
          (text "Content-Type") (text "application/json") rounded refl refl in
      (a2, b2, rw (authorization_lem t short, added1, added2, made, dumped) refl)

  -- With a token below 900 bytes, a handle, memory in blocks rounded up to multiples of eight bytes, a byte to
  -- spare in the block for the first chunk of the answer, `curl_slist_append` that succeeds, and a message
  -- that jansson can make an object of and print: `ld_send_basic_message` makes one transfer, which the
  -- handle has last in its record, whatever was set on the handle before. The transfer goes to the channel's
  -- address, with the headers for the token and for JSON and with the printed object as its post fields.
  -- The result is 1 exactly for an answer with a status of 400 or above, and of the context only the handle
  -- changes.
  pub send_basic_message_posts :
      {R : Type 0} (c : Context R) (garbage : Response) (channel_id : ℕ) (t message json : Bytes)
      (object : J) (opts : EasyOptions)
      → c.bot_token ≡ some t
      → length t < 900
      → Appends web
      → c.curl_handle ≡ some opts
      → content_object web j message ≡ some object
      → j.dumps object ≡ some json
      → SpareFirst web (web.perform (post_options web opts t channel_id json)).chunks
      → send_basic_message web j c garbage channel_id message
        ≡ done (
          message_result (web.perform (post_options web opts t channel_id json)),
          record c { curl_handle = some (posted web opts t channel_id json) },
        )
  unfolding set_options message_is_complete base_url_text
  send_basic_message_posts c garbage channel_id t message json object opts token short appends
        handle made dumped spare =
      let (room, begun) = init_request_lem web rounded in
      let (a, b, created) =
        create_basic_message_lem t room channel_id message json object short made dumped in
      send_basic_message_lem web j c garbage channel_id message (new_request room)
        (message_request t channel_id json a b) lde_ok opts
        (message_is_complete t channel_id json a b short) begun
        (ap (λ o. create_basic_message web j o (new_request room) channel_id message) token
          ∙ created)
        (Rounded-Ample web rounded) appends handle spare
