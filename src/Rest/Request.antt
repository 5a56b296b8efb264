-- ===== src/Rest/Request.antt =====
-- `struct ld_rest_request` and the functions that fill one (lib/REST.c).
use libdiscord.Prelude.{
  ℕ, ℤ, pos, Option, none, some, ◌++◌, Bytes, text, ltb, length, Exec, done, deref, within, ◌>>=◌,
  ◌>>◌,
}
use libdiscord.Status.{lde_ok, lde_json}
use libdiscord.Stdlib.{print_decimal}
use libdiscord.Jansson.{Jansson}
use libdiscord.Rest.Curl.{Web}
use libdiscord.Rest.Headers.{Headers, headers_init, headers_put}

-- `enum ld_rest_http_verb`
pub data Verb : Type 0 where
  get put post patch delete : Verb

-- `ld_rest_verb_enum2str`, for the enumerators.
pub verb_enum2str : Verb → Bytes
verb_enum2str get = text "GET"
verb_enum2str put = text "PUT"
verb_enum2str post = text "POST"
verb_enum2str patch = text "PATCH"
verb_enum2str delete = text "DELETE"

pub record Request : Type 0 where
  pub verb : Verb
  pub base_url : Option Bytes
  pub endpoint : Option Bytes
  pub body : Option Bytes
  pub body_size : ℕ
  pub headers : Option Headers
  pub timeout : ℤ
  pub user_agent : Option Bytes

-- `LD_API_URL LD_REST_API_VERSION`
unfoldable pub base_url_text : Bytes
base_url_text = text "https://discordapp.com/api/v6"

unfoldable pub user_agent_text : Bytes
user_agent_text = text "DiscordBot (https://github.com/dxing97/libdiscord 0.3)"

-- `sprintf(tmp, ...)` into `char tmp[1000]`.
unfoldable pub printed : Bytes → Exec Bytes
printed s = within (ltb (length s) 1000) >> done s

-- The value of the Authorization header.
unfoldable pub authorization : Option Bytes → Exec Bytes
unfolding printed
authorization token = do t ← deref token; printed (text "Bot " ++ t)

module _ (web : Web) where
  -- `ld_headers_put` with its result ignored.
  unfoldable pub add_header : Request → Bytes → Bytes → Exec Request
  add_header req key value = do
    (_, headers) ← headers_put web req.headers (some key) (some value)
    done (record req { headers = headers })

  -- `ld_rest_init_request`, for a context with a bot token, or for NULL.
  unfoldable pub init_request : Option (Option Bytes) → Exec Request
  unfolding add_header authorization
  init_request context = do
    headers ← headers_init web
    let req : Request = record {
      verb = get;
      base_url = some base_url_text;
      endpoint = none;
      body = none;
      body_size = 0;
      headers = headers;
      timeout = pos 0;
      user_agent = some user_agent_text;
    }
    elim context as (λ _. Exec Request) [
      | none ↦ done req
      | some token ↦ do value ← authorization token; add_header req (text "Authorization") value
    ]

  -- `ld_get_gateway`
  unfoldable pub get_gateway : Request → Request
  get_gateway req = record req {
    base_url = some base_url_text;
    endpoint = some (text "/gateway");
    user_agent = some user_agent_text;
    verb = get;
  }

  -- `ld_get_gateway_bot`
  unfoldable pub get_gateway_bot : Option Bytes → Request → Exec Request
  unfolding add_header authorization
  get_gateway_bot token req = do
    value ← authorization token
    add_header
        (record req {
          base_url = some base_url_text;
          endpoint = some (text "/gateway/bot");
          user_agent = some user_agent_text;
          verb = get;
        })
        (text "Authorization") value

  module _ {J : Type 0} (j : Jansson J) where
    -- `json_pack("{s:s}", "content", message_content)`
    unfoldable pub content_object : Bytes → Option J
    content_object message = elim (j.string message) [
      | none ↦ none
      | some s ↦ j.object_set j.object (text "content") s
    ]

    -- `ld_create_basic_message`
    unfoldable pub create_basic_message : Option Bytes → Request → ℕ → Bytes → Exec (ℤ × Request)
    unfolding add_header authorization content_object
    create_basic_message token req channel_id message = do
      value ← authorization token
      let endpoint = text "/channels/" ++ print_decimal channel_id ++ text "/messages"
      req1 ←
          add_header
            (record req {
              base_url = some base_url_text;
              endpoint = some endpoint;
              user_agent = some user_agent_text;
              verb = post;
            })
            (text "Authorization") value
      req2 ← add_header req1 (text "Content-Type") (text "application/json")
      elim (content_object message) as (λ _. Exec (ℤ × Request)) [
        | none ↦ done (lde_json, req2)
        | some body ↦ elim (j.dumps body) as (λ _. Exec (ℤ × Request)) [
          | none ↦ done (lde_json, req2)
          | some s ↦ done (lde_ok, record req2 { body = some s; body_size = length s })
        ]
      ]
