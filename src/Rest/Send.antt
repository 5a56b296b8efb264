-- ===== src/Rest/Send.antt =====
-- `ld_rest_send_request` and the requests that the library makes itself (lib/REST.c).
pub mod Options
pub mod Results
pub mod Exact
pub mod Fresh
pub mod Posts
use libdiscord.Prelude.{
  ℕ, ℤ, pos, Bool, true, false, not, Option, none, some, List, [], ◌∷◌, ◌++◌, Bytes, text, ltb,
  ltb_ℤ, eqb_ℤ, if◌then◌else◌, Exec, fault, done, deref, ◌>>=◌,
}
use libdiscord.Status.{code, curl_err, lde_ok, lde_missing_param, is_ok}
use libdiscord.Jansson.{Jansson}
use libdiscord.User.{User, load_user}
use libdiscord.Context.{Context}
use libdiscord.Rest.Curl.{Web, EasyOptions, curl_easy_perform}
use libdiscord.Rest.Headers.{headers_clean, headers2curl}
use libdiscord.Rest.Response.{Response, init_response, deliver, body_text}
use libdiscord.Rest.Request.{
  Request, Verb, get, put, post, patch, delete, init_request, create_basic_message,
}

is_post : Verb → Bool
is_post get = false
is_post put = false
is_post post = true
is_post patch = false
is_post delete = false

module _ {J : Type 0} (j : Jansson J) where
  -- The user in a response: `none` if the body is no JSON.
  unfoldable pub read_current_user : Response → User → Exec (ℤ × Option User)
  read_current_user resp user = do
    body ← body_text resp
    let loaded : Option J = elim body [ none ↦ none | some s ↦ j.loads s ]
    elim loaded as (λ _. Exec (ℤ × Option User)) [
      | none ↦ done (pos 1, none)
      | some v ↦ done (pos 0, some ((load_user j user v).1))
    ]

module _ (web : Web) where
  -- The calls of `curl_easy_setopt`, whose errors are only logged.
  unfoldable pub set_options : EasyOptions → Request → Bytes → List Bytes → EasyOptions
  unfolding is_post
  set_options opts req url slist =
      let posts = is_post req.verb in
      record {
        url = some url;
        http_header = slist;
        user_agent = req.user_agent;
        post_fields = if posts then some req.body else opts.post_fields;
        post_field_size = if posts then req.body_size else opts.post_field_size;
        verbose = ltb 8 web.logging_level;
        performed = opts.performed;
      }

  module _ {R : Type 0} where
    -- `curl_easy_perform` and `curl_easy_getinfo`; without a handle the first is an error.
    unfoldable pub perform :
        Context R → Request → Bytes → List Bytes → Response → Exec (ℤ × Context R × Response)
    unfolding set_options
    perform c req url slist response =
        elim c.curl_handle as (λ _. Exec (ℤ × Context R × Response)) [
          | none ↦ done (code curl_err, c, response)
          | some opts ↦ do
            let opts' = set_options opts req url slist
            let (exchange, after) = curl_easy_perform web opts'
            let c' = record c { curl_handle = some after }
            (taken, received) ← deliver web response exchange.chunks
            let good = (if taken then is_ok exchange.result else false)
            if good
                then done (lde_ok, c', record received { http_status = exchange.status })
                else done (code curl_err, c', received)
        ]

    -- `ld_rest_send_request`; the response is what was in the struct before.
    unfoldable pub send_request : Context R → Response → Request → Exec (ℤ × Context R × Response)
    unfolding perform
    send_request c response req = elim req.base_url as (λ _. Exec (ℤ × Context R × Response)) [
      | none ↦ done (lde_missing_param, c, response)
      | some base ↦ do
        endpoint ← deref req.endpoint
        let (ready, fresh) = init_response web response
        let go_on = do
          (_, slist) ← headers2curl web req.headers
          perform c req (base ++ endpoint) slist fresh
        if ready then go_on else done (pos 1, c, fresh)
    ]

    module _ {J : Type 0} (j : Jansson J) where
      -- `ld_send_basic_message`, with what was in its `resp` before; the request is not freed after an
      -- error status.
      unfoldable pub send_basic_message : Context R → Response → ℕ → Bytes → Exec (ℤ × Context R)
      send_basic_message c garbage channelid message = do
        req ← init_request web none
        (_, req') ← create_basic_message web j c.bot_token req channelid message
        (_, c', resp) ← send_request c garbage req'
        let free_request = do _ ← headers_clean req'.headers; done (pos 0, c')
        if ltb_ℤ resp.http_status (pos 400) then free_request else done (pos 1, c')

      -- `ld_get_current_user`, with what was in its `resp` and in the user before. The user is `none`
      -- where it is not written.
      unfoldable pub get_current_user :
          Context R → Response → User → Exec (ℤ × Context R × Option User)
      unfolding read_current_user
      get_current_user c garbage user = do
        req ← init_request web (some c.bot_token)
        let (_, resp) = init_response web garbage
        (_, c', resp') ←
            send_request c resp (record req { verb = get; endpoint = some (text "/users/@me") })
        let read = do (ret, filled) ← read_current_user j resp' user; done (ret, c', filled)
        if eqb_ℤ resp'.http_status (pos 200) then read else done (pos 1, c', none)
