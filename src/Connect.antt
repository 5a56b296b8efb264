-- ===== src/Connect.antt =====
-- Connecting: `_ld_get_gateway`, `_ld_get_gateway_bot`, `ld_connect` and `ld_gateway_connect`
-- (lib/libdiscord.c).
pub mod Ladder
pub mod Kept
pub mod Requests
use libdiscord.Prelude.{
  ℕ, ℤ, pos, negsuc, to_int, eqb_ℤ, leb, drop, length, Bool, true, false, Option, none, some, List,
  [], ◌∷◌, ◌++◌, Bytes, text, if◌then◌else◌, is_some, Exec, done, deref, within, ◌>>=◌, ◌>>◌,
}
use libdiscord.Status.{
  code, ok, error, memory_err, websocket_ringbuffer_err, json_err, json_decoding_err,
  json_cantfindkey_err, json_cantfindvalue_err, is_ok,
}
use libdiscord.Jansson.{Jansson}
use libdiscord.User.{User}
use libdiscord.Context.{Context, Handle}
use libdiscord.Rest.Curl.{Web}
use libdiscord.Rest.Response.{Response, init_response, body_text}
use libdiscord.Rest.Request.{init_request, get_gateway, get_gateway_bot}
use libdiscord.Rest.Send.{send_request, get_current_user}

-- `struct lws_client_connect_info`, what the source sets of it.
pub record ClientInfo : Type 0 where
  pub lws_context : Option Handle
  pub address : Bytes
  pub port : ℕ
  pub ssl_connection : Bool
  pub path : Bytes
  pub host : Bytes
  pub origin : Bytes

-- What connecting takes from outside.
pub record Outside (J : Type 0) : Type 0 where
  pub jansson : Jansson J
  pub web : Web
  -- `lws_client_connect_via_info`: what it stores at `pwsi`
  pub connect_via_info : ClientInfo → Option Handle
  -- what is in the memory of a new response and of a new user
  pub new_response : Response
  pub new_user : User

abbrev pub user_size : ℕ  -- sizeof(struct ld_json_user)
user_size = 64

-- `context->gateway_bot_url + 6`, in the bounds of the string and its NUL.
unfoldable pub address_of : Bytes → Exec Bytes
address_of url = within (leb 6 (length url)) >> done (drop 6 url)

module _ {J : Type 0} (out : Outside J) where
  -- `json_loads` of the body.
  unfoldable pub load_body : Response → Exec (Option J)
  load_body response = do
    body ← body_text response
    done (elim body [ none ↦ none | some s ↦ out.jansson.loads s ])

module _ {J R : Type 0} (out : Outside J) where
  -- What `_ld_get_gateway` takes from the answer.
  unfoldable pub read_gateway : Context R → Option J → ℤ × Context R
  read_gateway c none = (code json_decoding_err, c)
  read_gateway c (some object) =
      elim (out.jansson.object_get object (text "url")) as (λ _. ℤ × Context R) [
        | none ↦ (code json_err, c)
        | some v ↦ elim (out.jansson.string_value v) as (λ _. ℤ × Context R) [
          | none ↦ (code json_err, c)
          | some url ↦ (code ok, record c { gateway_url = some url })
        ]
      ]

  -- `_ld_get_gateway`
  unfoldable pub fetch_gateway : Context R → Exec (ℤ × Context R)
  unfolding load_body read_gateway
  fetch_gateway c = do
    req ← init_request out.web none
    let (_, fresh) = init_response out.web out.new_response
    (ret, c', response) ← send_request out.web c fresh (get_gateway out.web req)
    let read = do object ← load_body out response; done (read_gateway c' object)
    if is_ok ret then read else done (code error, c')

  -- The number of shards, which is read after the URL has been stored.
  unfoldable pub read_shards : Context R → J → ℤ × Context R
  read_shards c object =
      elim (out.jansson.object_get object (text "shards")) as (λ _. ℤ × Context R) [
        | none ↦ (code json_cantfindkey_err, c)
        | some v ↦
            let n = out.jansson.integer_value v in
            if eqb_ℤ n (pos 0)
            then (code json_cantfindvalue_err, c)
            else (code ok, record c { shards = to_int n })
      ]

  -- What `_ld_get_gateway_bot` takes from the answer.
  unfoldable pub read_gateway_bot : Context R → Option J → ℤ × Context R
  unfolding read_shards
  read_gateway_bot c none = (code json_decoding_err, c)
  read_gateway_bot c (some object) =
      elim (out.jansson.object_get object (text "url")) as (λ _. ℤ × Context R) [
        | none ↦ (code json_cantfindkey_err, c)
        | some v ↦ elim (out.jansson.string_value v) as (λ _. ℤ × Context R) [
          | none ↦ (code json_cantfindvalue_err, c)
          | some url ↦ read_shards (record c { gateway_bot_url = some url }) object
        ]
      ]

  -- `_ld_get_gateway_bot`; an error of the request is only logged.
  unfoldable pub fetch_gateway_bot : Context R → Exec (ℤ × Context R)
  unfolding load_body read_gateway_bot
  fetch_gateway_bot c = do
    req ← init_request out.web none
    let (_, fresh) = init_response out.web out.new_response
    req' ← get_gateway_bot out.web c.bot_token req
    (_, c', response) ← send_request out.web c fresh req'
    object ← load_body out response
    done (read_gateway_bot c' object)

  -- `ld_gateway_connect`
  unfoldable pub gateway_connect : Context R → Exec (ℤ × Context R)
  unfolding address_of
  gateway_connect c = do
    url ← deref c.gateway_bot_url
    address ← address_of url
    let host = address ++ text ":443"
    let wsi = out.connect_via_info (record {
      lws_context = c.lws_context;
      address = address;
      port = 443;
      ssl_connection = true;
      path = text "/?v=6&encoding=json";
      host = host;
      origin = host;
    })
    let c' = record c { lws_wsi = wsi }
    if is_some wsi then done (pos 0, c') else done (pos 1, c')

  -- `if(context->field == NULL) { ret = ...; if(ret != LDS_OK) return ret; }`, then the rest.
  unfoldable pub unless_set :
      Bool
      → Context R
      → (Context R → Exec (ℤ × Context R))
      → (Context R → Exec (ℤ × Context R))
      → Exec (ℤ × Context R)
  unless_set true c fetch rest = rest c
  unless_set false c fetch rest = do
    (ret, c') ← fetch c
    if is_ok ret then rest c' else done (ret, c')

  -- The current user: the struct stays allocated when the request fails.
  unfoldable pub fetch_current_user : Context R → Exec (ℤ × Context R)
  fetch_current_user c = elim (out.web.alloc user_size) as (λ _. Exec (ℤ × Context R)) [
    | none ↦ done (code memory_err, c)
    | some room ↦ do
      let c1 = record c { current_user = some none }
      (ret, c2, user) ← get_current_user out.web out.jansson c1 out.new_response out.new_user
      done (ret, record c2 { current_user = some user })
  ]

  unfoldable pub connect_gateway : Context R → Exec (ℤ × Context R)
  unfolding gateway_connect
  connect_gateway c = do
    (ret, c') ← gateway_connect c
    done (if is_ok ret then code ok else code websocket_ringbuffer_err, c')

  -- `ld_connect`
  unfoldable pub connect : Context R → Exec (ℤ × Context R)
  unfolding unless_set
  connect c = unless_set (is_some c.gateway_url) c fetch_gateway (λ c1.
      unless_set (is_some c1.gateway_bot_url) c1 fetch_gateway_bot
        (λ c2. unless_set (is_some c2.current_user) c2 fetch_current_user connect_gateway))
