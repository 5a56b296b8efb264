-- ===== src/Connect/Requests/Fresh.antt =====
-- The first connection of a context, from memory with some bytes to spare and three good answers.
use libdiscord.Prelude.{
  ◌*◌, ◌<◌, ◌≡◌, ap, ◌∙◌, pos, to_int, eqb_ℤ, true, false, none, some, [], ◌++◌, Bytes, text,
  length, done, if◌then◌else◌, is_some,
}
use libdiscord.Status.{code, ok, websocket_ringbuffer_err, is_ok}
use libdiscord.User.{load_user}
use libdiscord.Context.{Context}
use libdiscord.Rest.Curl.{curl_easy_perform, EasyOptions}
use libdiscord.Rest.Headers.Put.{holding}
use libdiscord.Rest.Headers.Lines.{Appends, keys_of, values_of}
use libdiscord.Rest.Request.{init_request, get_gateway, get_gateway_bot}
use libdiscord.Rest.Send.{set_options}
use libdiscord.Rest.Send.Options.{SpareFirst}
use libdiscord.Rest.Send.Fresh.{Rounded, Rounded-Ample, new_request, init_request_lem}
use libdiscord.Connect.{Outside, user_size, connect}
use libdiscord.Connect.Ladder.{target}
use libdiscord.Connect.Requests.{loads_of, Sent}
use libdiscord.Connect.Requests.First.{Answers, connect_first}
use libdiscord.Connect.Requests.Gets.{
  token_pairs, get_options, get_with, plain_is_complete, token_is_complete, get_gateway_bot_lem,
  init_request_token,
}

module _ {J : Type 0} (out : Outside J) where
  -- The options of the three requests of a first connection, and the handle after each.
  module _ (opts : EasyOptions) (t : Bytes) where
    abbrev pub url_options : EasyOptions
    url_options = get_options out.web opts (text "/gateway") []

    abbrev pub url_handle : EasyOptions
    url_handle = (curl_easy_perform out.web url_options).1

    abbrev pub bot_options : EasyOptions
    bot_options = get_options out.web url_handle (text "/gateway/bot") (token_pairs t)

    abbrev pub bot_handle : EasyOptions
    bot_handle = (curl_easy_perform out.web bot_options).1

    abbrev pub me_options : EasyOptions
    me_options = get_options out.web bot_handle (text "/users/@me") (token_pairs t)

    abbrev pub me_handle : EasyOptions
    me_handle = (curl_easy_perform out.web me_options).1

  -- Their good answers: a URL, a URL with the number of shards, and a user.
  pub record GoodAnswers (opts : EasyOptions) (t : Bytes) : Type 0 where
    pub spare1 : SpareFirst out.web (out.web.perform (url_options opts t)).chunks
    pub good1 : is_ok (out.web.perform (url_options opts t)).result ≡ true
    pub object1 : J
    pub loaded1 : loads_of out (out.web.perform (url_options opts t)).chunks ≡ some object1
    pub url_value : J
    pub url : Bytes
    pub has_url : out.jansson.object_get object1 (text "url") ≡ some url_value
    pub is_url : out.jansson.string_value url_value ≡ some url
    pub spare2 : SpareFirst out.web (out.web.perform (bot_options opts t)).chunks
    pub object2 : J
    pub loaded2 : loads_of out (out.web.perform (bot_options opts t)).chunks ≡ some object2
    pub bot_url_value : J
    pub scheme : Bytes
    pub address : Bytes
    pub has_bot_url : out.jansson.object_get object2 (text "url") ≡ some bot_url_value
    pub is_bot_url : out.jansson.string_value bot_url_value ≡ some (scheme ++ address)
    pub six : length scheme ≡ 6
    pub shards_value : J
    pub has_shards : out.jansson.object_get object2 (text "shards") ≡ some shards_value
    pub some_shards : eqb_ℤ (out.jansson.integer_value shards_value) (pos 0) ≡ false
    pub spare3 : SpareFirst out.web (out.web.perform (me_options opts t)).chunks
    pub good3 : is_ok (out.web.perform (me_options opts t)).result ≡ true
    pub found3 : (out.web.perform (me_options opts t)).status ≡ pos 200
    pub object3 : J
    pub loaded3 : loads_of out (out.web.perform (me_options opts t)).chunks ≡ some object3

  module _ {R : Type 0} (c : Context R) (opts : EasyOptions) (t : Bytes) (rounded : Rounded out.web)
      (appends : Appends out.web) (token : c.bot_token ≡ some t) (short : length t < 900)
      (g : GoodAnswers opts t) where
    answers : Answers out c opts
    unfolding set_options get_gateway plain_is_complete token_is_complete
    answers =
        let (words, has_user, above) = rounded user_size in
        let (room, begun) = init_request_lem out.web rounded in
        let (a, b, made) = get_gateway_bot_lem out.web t room rounded short in
        let (a', b', begun3) = init_request_token out.web t rounded short in
        let first : Sent out opts (get_gateway out.web (new_request room)) = record {
          whole = plain_is_complete (text "/gateway") room room;
          spare = g.spare1;
        } in
        let second : Sent out (url_handle opts t)
            (get_with (text "/gateway/bot") (token_pairs t) a b) =
          record {
            whole = token_is_complete (text "/gateway/bot") t a b short;
            spare = g.spare2;
          } in
        let third : Sent out (bot_handle opts t)
            (get_with (text "/users/@me") (token_pairs t) a' b') =
          record {
            whole = token_is_complete (text "/users/@me") t a' b' short;
            spare = g.spare3;
          } in
        record {
          ample = Rounded-Ample out.web rounded;
          appends = appends;
          room = 8 * words;
          has_room = has_user;
          req = new_request room;
          begun = begun;
          req2 = get_with (text "/gateway/bot") (token_pairs t) a b;
          made = ap (λ o. get_gateway_bot out.web o (new_request room)) token ∙ made;
          req3 = record (new_request a') {
            headers = some (holding (keys_of (token_pairs t)) (values_of (token_pairs t)) a' b');
          };
          begun3 = ap (λ o. init_request out.web (some o)) token ∙ begun3;
          first = first;
          second = second;
          third = third;
          good1 = g.good1;
          object1 = g.object1;
          loaded1 = g.loaded1;
          url_value = g.url_value;
          url = g.url;
          has_url = g.has_url;
          is_url = g.is_url;
          object2 = g.object2;
          loaded2 = g.loaded2;
          bot_url_value = g.bot_url_value;
          scheme = g.scheme;
          address = g.address;
          has_bot_url = g.has_bot_url;
          is_bot_url = g.is_bot_url;
          six = g.six;
          shards_value = g.shards_value;
          has_shards = g.has_shards;
          some_shards = g.some_shards;
          good3 = g.good3;
          found3 = g.found3;
          object3 = g.object3;
          loaded3 = g.loaded3;
        }

    -- For a context that knows neither URL nor the user, with a handle and a token below 900 bytes, memory in
    -- blocks rounded up to multiples of eight bytes, a byte to spare in the block for the first chunk of each
    -- answer, `curl_slist_append` that succeeds, and good answers to the requests: `ld_connect` makes three
    -- transfers more in the handle's record, with their answers, for the URL of the gateway without the
    -- token, then for the bot's and for the user with it, with what was set of post fields before. It then
    -- connects to the address after the scheme of the bot's URL, stores what the answers say and the
    -- connection, and returns `LDS_OK` exactly when there is one, else `LDS_WEBSOCKET_RINGBUFFER_ERR`.
    pub connect_fresh :
        c.curl_handle ≡ some opts
        → c.gateway_url ≡ none
        → c.gateway_bot_url ≡ none
        → c.current_user ≡ none
        → connect out c
          ≡ done (
            (if is_some (out.connect_via_info (target c g.address))
                then code ok
                else code websocket_ringbuffer_err),
            record c {
              curl_handle = some (me_handle opts t);
              gateway_url = some g.url;
              gateway_bot_url = some (g.scheme ++ g.address);
              shards = to_int (out.jansson.integer_value g.shards_value);
              current_user = some (some (load_user out.jansson out.new_user g.object3).1);
              lws_wsi = out.connect_via_info (target c g.address);
            },
          )
    unfolding answers set_options get_gateway plain_is_complete token_is_complete
    connect_fresh handle no_url no_bot_url no_user =
        connect_first out c opts handle answers no_url no_bot_url no_user
