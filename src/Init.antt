-- ===== src/Init.antt =====
-- Setting a context up: `ld_init_context_info`, `ld_init_curl`, `ld_init_lws`, `ld_init_context`
-- (lib/libdiscord.c).
pub mod Identity
pub mod OsName
use libdiscord.Prelude.{
  ℕ, ℤ, pos, Bool, true, false, Option, none, some, List, [], Bytes, text, if◌then◌else◌, is_some,
  Exec, done, deref, ◌>>=◌,
}
use libdiscord.Status.{
  code, ok, memory_err, curl_err, websocket_init_err, websocket_ringbuffer_err, token_missing_err,
  is_ok,
}
use libdiscord.Ring.{LwsRing}
use libdiscord.Identify.{StatusUpdate, libname}
use libdiscord.Context.{Context, GatewayPayload, Handle}
use libdiscord.Rest.Curl.{EasyOptions}

-- `struct ld_context_info`
pub record ContextInfo : Type 0 where
  pub bot_token : Option Bytes
  pub user_callback : Option Handle
  pub gateway_ringbuffer_size : ℕ
  pub init_presence : Option StatusUpdate
  pub device : Option Bytes
  pub browser : Option Bytes
  pub os : Option Bytes

-- `ld_init_context_info`, which writes every field; 1 for NULL.
unfoldable pub init_context_info : Option ContextInfo → ℤ × Option ContextInfo
init_context_info none = (pos 1, none)
init_context_info (some info) = (
  pos 0,
  some (record {
    bot_token = none;
    user_callback = none;
    gateway_ringbuffer_size = 16;
    init_presence = none;
    device = none;
    browser = none;
    os = none;
  }),
)

-- What is called and not defined here.
pub record Setup (R : Type 0) : Type 0 where
  -- `curl_multi_init`, `curl_easy_init`, `lws_create_context` with the fixed options
  pub curl_multi_init : Option Handle
  pub curl_easy_init : Option EasyOptions
  pub lws_create_context : Option Handle
  pub ring : LwsRing R GatewayPayload
  -- `malloc` for the presence
  pub alloc_presence : Bool
  -- the two readings of `lws_now_secs`
  pub now : ℕ
  pub later : ℕ
  -- `LD_SYSTEMOS`, which the build sets
  pub system_os : Bytes

-- A context of zero bytes.
abbrev pub zero_context : {R : Type 0} → Context R
zero_context = record {
  bot_token = none;
  user_data = none;
  log_level = 0;
  gateway_url = none;
  gateway_bot_url = none;
  shards = pos 0;
  curl_multi_handle = none;
  curl_handle = none;
  lws_context = none;
  lws_wsi = none;
  user_callback = none;
  heartbeat_interval = 0;
  last_seq = pos 0;
  last_hb = 0;
  hb_count = pos 0;
  gateway_ring = none;
  close_code = 0;
  gateway_rx_buffer = none;
  gateway_rx_buffer_len = 0;
  gateway_session_id = none;
  gateway_bot_limit = pos 0;
  gateway_bot_remaining = pos 0;
  gateway_bot_reset = 0;
  gi = none;
  gi_count = pos 0;
  current_user = none;
  device = none;
  browser = none;
  os = none;
  init_presence = none;
}

-- `(info != NULL && info->field != NULL) ? strdup(...) : default`
abbrev pub or_else : Option Bytes → Bytes → Bytes
or_else none default = default
or_else (some s) default = s

module _ {R : Type 0} (setup : Setup R) where
  -- `ld_init_curl`
  unfoldable pub init_curl : Context R → ℤ × Context R
  init_curl c =
      let c' = record c {
        curl_multi_handle = setup.curl_multi_init;
        curl_handle = setup.curl_easy_init;
      } in
      if is_some setup.curl_easy_init then (code ok, c') else (code curl_err, c')

  ring_size : Option ContextInfo → ℕ
  ring_size none = 16
  ring_size (some info) = info.gateway_ringbuffer_size

  -- `ld_init_lws`
  unfoldable pub init_lws : Option ContextInfo → Context R → ℤ × Context R
  unfolding ring_size
  init_lws info c =
      let c1 = record c { lws_context = setup.lws_create_context } in
      let ring = setup.ring.create (ring_size info) in
      let c2 = record c1 { gateway_ring = ring } in
      let with_ring : ℤ × Context R =
        (if is_some ring then (code ok, c2) else (code websocket_ringbuffer_err, c2)) in
      if is_some setup.lws_create_context then with_ring else (code websocket_init_err, c1)

  -- The fields of the properties of IDENTIFY; where `info->os` is given, `info->browser` is what is copied.
  unfoldable pub init_properties : Option ContextInfo → Context R → Exec (Context R)
  init_properties none c =
      done (record c { device = some libname; browser = some libname; os = some setup.system_os })
  init_properties (some info) c =
      let c' = record c {
        device = some (or_else info.device libname);
        browser = some (or_else info.browser libname);
      } in
      elim info.os as (λ _. Exec (Context R)) [
        | none ↦ done (record c' { os = some setup.system_os })
        | some os ↦ do copied ← deref info.browser; done (record c' { os = some copied })
      ]

  -- The rest of `ld_init_context`, where information is given.
  unfoldable pub init_required : ContextInfo → Context R → ℤ × Context R
  init_required info c =
      let c1 = record c { user_callback = info.user_callback } in
      elim info.bot_token as (λ _. ℤ × Context R) [
        | none ↦ (code token_missing_err, c1)
        | some token ↦
            let c2 = record c1 { bot_token = some token } in
            if setup.alloc_presence
            then (code ok, record c2 { init_presence = info.init_presence })
            else (code memory_err, record c2 { init_presence = none })
      ]

  -- The fields that are set whatever the information is.
  unfoldable pub init_tracking : Context R → Context R
  init_tracking c = record c {
    gateway_bot_limit = pos 1;
    gateway_bot_remaining = pos 1;
    gateway_bot_reset = setup.now;
    gi_count = pos 0;
    heartbeat_interval = 0;
    hb_count = pos 0;
    last_hb = setup.later;
    gateway_rx_buffer_len = 0;
    gateway_rx_buffer = none;
    gateway_session_id = none;
    current_user = none;
    init_presence = none;
  }

  -- `ld_init_context` from the result of `ld_init_lws` on.
  unfoldable pub init_rest : Option ContextInfo → ℤ × Context R → Exec (ℤ × Context R)
  unfolding init_properties init_required init_tracking
  init_rest info (ret, c) =
      let finish = do
        c' ← init_properties info (init_tracking c)
        elim info as (λ _. Exec (ℤ × Context R)) [
          | none ↦ done (code ok, c')
          | some given ↦ done (init_required given c')
        ]
      in if is_ok ret then finish else done (ret, c)

  -- `ld_init_context` from the result of `ld_init_curl` on.
  unfoldable pub init_with_curl : Option ContextInfo → ℤ × Context R → Exec (ℤ × Context R)
  unfolding init_lws init_rest
  init_with_curl info (ret, c) =
      let rest = init_rest info (init_lws info c) in if is_ok ret then rest else done (ret, c)

  -- `ld_init_context`, for a context that is not NULL: it starts from zero bytes.
  unfoldable pub init_context : Option ContextInfo → Exec (ℤ × Context R)
  unfolding init_curl init_with_curl
  init_context info = init_with_curl info (init_curl zero_context)

-- `ld_init_context` with NULL for the context.
unfoldable pub init_context_opt :
    {R : Type 0} → Setup R → Option ContextInfo → Bool → Exec (ℤ × Option (Context R))
unfolding init_context
init_context_opt setup info false = done (code memory_err, none)
init_context_opt setup info true = init_context setup info >>= λ (ret, c). done (ret, some c)
