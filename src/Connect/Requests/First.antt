-- ===== src/Connect/Requests/First.antt =====
-- The first connection of a context, from three good answers.
use libdiscord.Prelude.{
  ℕ, ◌≡◌, refl, ap, pos, to_int, eqb_ℤ, true, false, none, some, ◌++◌, Bytes, text, length, done,
  if◌then◌else◌, is_some,
}
use libdiscord.Status.{code, ok, websocket_ringbuffer_err, is_ok}
use libdiscord.User.{load_user}
use libdiscord.Context.{Context}
use libdiscord.Rest.Curl.{EasyOptions}
use libdiscord.Rest.Headers.Lines.{Appends}
use libdiscord.Rest.Response.Chunks.{Ample}
use libdiscord.Rest.Request.{Request, init_request, get_gateway, get_gateway_bot}
use libdiscord.Connect.{
  Outside, user_size, read_gateway, fetch_gateway, read_gateway_bot, read_shards, fetch_gateway_bot,
  fetch_current_user, connect,
}
use libdiscord.Connect.Ladder.{target, connect_known}
use libdiscord.Connect.Requests.{
  loads_of, Sent, handle_of, exchange_of, me_request, fetch_gateway_lem, fetch_gateway_bot_lem,
  get_current_user_lem, user_answer,
}

module _ {J R : Type 0} (out : Outside J) where
  -- The three requests, each with the handle that the one before it leaves, and their good answers: a URL,
  -- a URL with the number of shards, and a user.
  pub record Answers (c : Context R) (opts : EasyOptions) : Type 0 where
    pub ample : Ample out.web
    pub appends : Appends out.web
    pub room : ℕ
    pub has_room : out.web.alloc user_size ≡ some room
    pub req : Request
    pub begun : init_request out.web none ≡ done req
    pub req2 : Request
    pub made : get_gateway_bot out.web c.bot_token req ≡ done req2
    pub req3 : Request
    pub begun3 : init_request out.web (some c.bot_token) ≡ done req3
    pub first : Sent out opts (get_gateway out.web req)
    pub second : Sent out (handle_of out first) req2
    pub third : Sent out (handle_of out second) (me_request req3)
    pub good1 : is_ok (exchange_of out first).result ≡ true
    pub object1 : J
    pub loaded1 : loads_of out (exchange_of out first).chunks ≡ some object1
    pub url_value : J
    pub url : Bytes
    pub has_url : out.jansson.object_get object1 (text "url") ≡ some url_value
    pub is_url : out.jansson.string_value url_value ≡ some url
    pub object2 : J
    pub loaded2 : loads_of out (exchange_of out second).chunks ≡ some object2
    pub bot_url_value : J
    pub scheme : Bytes
    pub address : Bytes
    pub has_bot_url : out.jansson.object_get object2 (text "url") ≡ some bot_url_value
    pub is_bot_url : out.jansson.string_value bot_url_value ≡ some (scheme ++ address)
    pub six : length scheme ≡ 6
    pub shards_value : J
    pub has_shards : out.jansson.object_get object2 (text "shards") ≡ some shards_value
    pub some_shards : eqb_ℤ (out.jansson.integer_value shards_value) (pos 0) ≡ false
    pub good3 : is_ok (exchange_of out third).result ≡ true
    pub found3 : (exchange_of out third).status ≡ pos 200
    pub object3 : J
    pub loaded3 : loads_of out (exchange_of out third).chunks ≡ some object3

  module _ (c : Context R) (opts : EasyOptions) (handle : c.curl_handle ≡ some opts)
      (a : Answers c opts) where
    abbrev with_url : Context R
    with_url = record c { curl_handle = some (handle_of out a.first); gateway_url = some a.url }

    abbrev with_bot_url : Context R
    with_bot_url = record with_url {
      curl_handle = some (handle_of out a.second);
      gateway_bot_url = some (a.scheme ++ a.address);
      shards = to_int (out.jansson.integer_value a.shards_value);
    }

    -- The context that knows all that the answers say.
    abbrev pub answered : Context R
    answered = record with_bot_url {
      curl_handle = some (handle_of out a.third);
      current_user = some (some (load_user out.jansson out.new_user a.object3).1);
    }

    url_fetched : fetch_gateway out c ≡ done (code ok, with_url)
    unfolding read_gateway
    url_fetched =
        rw
          (
            fetch_gateway_lem out c opts a.req a.ample a.appends handle a.first a.begun,
            a.good1,
            a.loaded1,
            read_gateway,
            a.has_url,
            a.is_url,
          )
          refl

    bot_url_fetched : fetch_gateway_bot out with_url ≡ done (code ok, with_bot_url)
    unfolding read_gateway_bot read_shards
    bot_url_fetched =
        rw
          (
            fetch_gateway_bot_lem out with_url (handle_of out a.first) a.req2 a.ample a.appends refl
                a.req a.second a.begun a.made,
            a.loaded2,
            read_gateway_bot,
            a.has_bot_url,
            a.is_bot_url,
            read_shards,
            a.has_shards,
            a.some_shards,
          )
          refl

    user_fetched : fetch_current_user out with_bot_url ≡ done (pos 0, answered)
    unfolding fetch_current_user
    user_fetched =
        rw
          (
            fetch_current_user,
            a.has_room,
            get_current_user_lem out (record with_bot_url { current_user = some none })
                (handle_of out a.second) a.req3 a.ample a.appends refl out.new_user a.third a.begun3
                a.good3 a.found3,
            user_answer,
            a.loaded3,
          )
          refl

    -- A context that knows neither URL nor the user, with a handle: where the three requests are answered
    -- with a URL, with a URL and a number of shards, and with a user, each of them is made once, with the
    -- handle that the one before it leaves. `ld_connect` then connects to the address after the scheme of
    -- the bot's URL, stores what the answers say and the connection, and returns `LDS_OK` exactly when
    -- there is one, else `LDS_WEBSOCKET_RINGBUFFER_ERR`.
    pub connect_first :
        c.gateway_url ≡ none
        → c.gateway_bot_url ≡ none
        → c.current_user ≡ none
        → connect out c
          ≡ done (
            (if is_some (out.connect_via_info (target c a.address))
                then code ok
                else code websocket_ringbuffer_err),
            record answered { lws_wsi = out.connect_via_info (target c a.address) },
          )
    unfolding connect
    connect_first no_url no_bot_url no_user =
        let url : is_some c.gateway_url ≡ false = ap is_some no_url in
        let bot_url : is_some c.gateway_bot_url ≡ false = ap is_some no_bot_url in
        let user : is_some c.current_user ≡ false = ap is_some no_user in
        rw (url, url_fetched, bot_url, bot_url_fetched, user, user_fetched)
          (connect_known out answered a.scheme a.address refl refl a.six refl)
