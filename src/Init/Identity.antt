-- ===== src/Init/Identity.antt =====
-- What a context starts with.
use libdiscord.Prelude.{◌≡◌, ap, ◌∙◌, pos, true, none, some, Bytes, done, ◌>>=◌}
use libdiscord.Status.{code, ok}
use libdiscord.Identify.{libname}
use libdiscord.Context.{Context, Handle}
use libdiscord.Rest.Curl.{EasyOptions}
use libdiscord.Init.{
  ContextInfo, Setup, or_else, zero_context, init_context, init_with_curl, init_rest,
  init_properties, init_curl, init_lws, init_tracking, init_required,
}

module _ {R : Type 0} (setup : Setup R) where
  -- Everything that is called gives what it is asked for.
  pub record IsAvailable (info : ContextInfo) : Type 0 where
    pub easy : EasyOptions
    pub lws : Handle
    pub ring : R
    pub has_easy : setup.curl_easy_init ≡ some easy
    pub has_lws : setup.lws_create_context ≡ some lws
    pub has_ring : setup.ring.create info.gateway_ringbuffer_size ≡ some ring
    pub has_memory : setup.alloc_presence ≡ true

  -- A context that is not connected, has no session and no unfinished message, and knows neither a URL nor
  -- the user.
  abbrev pub started : (info : ContextInfo) → Bytes → IsAvailable info → Context R
  started info token all = record zero_context {
    bot_token = some token;
    user_callback = info.user_callback;
    init_presence = info.init_presence;
    device = some (or_else info.device libname);
    browser = some (or_else info.browser libname);
    os = some setup.system_os;
    gateway_ring = some all.ring;
    lws_context = some all.lws;
    curl_handle = some all.easy;
    curl_multi_handle = setup.curl_multi_init;
    gateway_bot_limit = pos 1;
    gateway_bot_remaining = pos 1;
    gateway_bot_reset = setup.now;
    last_hb = setup.later;
  }

  -- The context with the handles, and then the ring.
  abbrev with_curl : EasyOptions → Context R
  with_curl easy = record zero_context {
    curl_multi_handle = setup.curl_multi_init;
    curl_handle = some easy;
  }

  abbrev with_ring : EasyOptions → Handle → R → Context R
  with_ring easy lws ring = record (with_curl easy) {
    lws_context = some lws;
    gateway_ring = some ring;
  }

  -- The fields of IDENTIFY in a context.
  abbrev identifying : ContextInfo → Bytes → Context R → Context R
  identifying info os c = record c {
    device = some (or_else info.device libname);
    browser = some (or_else info.browser libname);
    os = some os;
  }

  init_curl_ok :
      (easy : EasyOptions)
      → setup.curl_easy_init ≡ some easy
      → init_curl setup zero_context ≡ (code ok, with_curl easy)
  unfolding init_curl
  init_curl_ok easy has = rw has

  init_lws_ok :
      (info : ContextInfo) (easy : EasyOptions) (lws : Handle) (ring : R)
      → setup.lws_create_context ≡ some lws
      → setup.ring.create info.gateway_ringbuffer_size ≡ some ring
      → init_lws setup (some info) (with_curl easy) ≡ (code ok, with_ring easy lws ring)
  unfolding init_lws
  init_lws_ok info easy lws ring has has_ring = rw (has, has_ring)

  init_properties_default :
      (info : ContextInfo) (c : Context R)
      → info.os ≡ none
      → init_properties setup (some info) c ≡ done (identifying info setup.system_os c)
  unfolding init_properties
  init_properties_default info c no_os = rw no_os

  init_properties_given :
      (info : ContextInfo) (c : Context R) (os browser : Bytes)
      → info.os ≡ some os
      → info.browser ≡ some browser
      → init_properties setup (some info) c ≡ done (identifying info browser c)
  unfolding init_properties
  init_properties_given info c os browser has_os has_browser = rw (has_os, has_browser)

  init_required_ok :
      (info : ContextInfo) (token : Bytes) (c : Context R)
      → info.bot_token ≡ some token
      → setup.alloc_presence ≡ true
      → init_required setup info c ≡ (
        code ok,
        record c {
          user_callback = info.user_callback;
          bot_token = some token;
          init_presence = info.init_presence;
        },
      )
  unfolding init_required
  init_required_ok info token c has_token has_memory = rw (has_token, has_memory)

  -- The set-up, whatever the operating system comes to.
  init_context_by :
      (info : ContextInfo) (token os : Bytes) (all : IsAvailable info)
      → info.bot_token ≡ some token
      → init_properties setup
          (some info)
          (init_tracking setup (with_ring all.easy all.lws all.ring))
        ≡ done (identifying info os (init_tracking setup (with_ring all.easy all.lws all.ring)))
      → init_context setup (some info)
        ≡ done (code ok, record (started info token all) { os = some os })
  unfolding init_context init_with_curl init_rest init_tracking
  init_context_by info token os all has_token props =
      let c2 = with_ring all.easy all.lws all.ring in
      ap (init_with_curl setup (some info)) (init_curl_ok all.easy all.has_easy)
      ∙ ap (init_rest setup (some info))
          (init_lws_ok info all.easy all.lws all.ring all.has_lws all.has_ring)
      ∙ ap (λ run. run >>= λ c. done (init_required setup info c)) props
      ∙ ap done (
          init_required_ok info token (identifying info os (init_tracking setup c2)) has_token
            all.has_memory)

  pub init_context_plain :
      (info : ContextInfo) (token : Bytes) (all : IsAvailable info)
      → info.bot_token ≡ some token
      → info.os ≡ none
      → init_context setup (some info) ≡ done (code ok, started info token all)
  init_context_plain info token all has_token no_os =
      init_context_by info token setup.system_os all has_token (
        init_properties_default info (init_tracking setup (with_ring all.easy all.lws all.ring))
          no_os)

  -- With an operating system and a browser given, everything else as it should be: the context is as without
  -- the operating system, but for this field, which has the browser.
  pub init_context_os :
      (info : ContextInfo) (token os browser : Bytes) (all : IsAvailable info)
      → info.bot_token ≡ some token
      → info.os ≡ some os
      → info.browser ≡ some browser
      → init_context setup (some info)
        ≡ done (code ok, record (started info token all) { os = some browser })
  init_context_os info token os browser all has_token has_os has_browser =
      init_context_by info token browser all has_token (
        init_properties_given info (init_tracking setup (with_ring all.easy all.lws all.ring)) os
          browser has_os has_browser)
