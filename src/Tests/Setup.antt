-- ===== src/Tests/Setup.antt =====
-- The theorems on connecting and setting up, at concrete inputs.
use libdiscord.Prelude.{refl, pos, true, false, Option, none, some, [], ◌∷◌, ◌++◌, Bytes}
use libdiscord.Jansson.Tree.{Tree, null}
use libdiscord.Context.{Context}
use libdiscord.User.{User}
use libdiscord.Ring.Queue.{queue_ring}
use libdiscord.Rest.Curl.{Web}
use libdiscord.Rest.Response.{unset}
use libdiscord.Connect.{Outside}
use libdiscord.Init.{ContextInfo, Setup}
use libdiscord.Init.Identity.{IsAvailable}
use libdiscord.Tests.Base.{Payloads, json_of, context_of, no_options, usable, answer}

abbrev pub setup : Setup Payloads
setup = record {
  curl_multi_init = some 1;
  curl_easy_init = some no_options;
  lws_create_context = some 2;
  ring = queue_ring;
  alloc_presence = true;
  now = 100;
  later = 101;
  system_os = 76 ∷ [];
}

abbrev pub info_with : Option Bytes → Option Bytes → ContextInfo
info_with browser os = record {
  bot_token = some (1 ∷ []);
  user_callback = some 3;
  gateway_ringbuffer_size = 16;
  init_presence = none;
  device = none;
  browser = browser;
  os = os;
}

abbrev pub available : (browser os : Option Bytes) → IsAvailable setup (info_with browser os)
available browser os = record {
  easy = no_options;
  lws = 2;
  ring = record { size = 16; items = [] };
  has_easy = refl;
  has_lws = refl;
  has_ring = refl;
  has_memory = refl;
}

-- Outside: transfers that are answered with 404, and a gateway that is reached.
abbrev pub web : Web
web = record {
  alloc = λ n. some (usable n);
  slist_append = λ xs x. some (xs ++ (x ∷ []));
  perform = λ opts. answer;
  logging_level = 15;
}

abbrev pub no_user : User
no_user = record {
  id = 0;
  username = none;
  discriminator = none;
  avatar = none;
  bot = false;
  mfa_enabled = false;
  locale = none;
  verified = false;
  email = none;
}

abbrev pub outside : Outside Tree
outside = record {
  jansson = json_of null;
  web = web;
  connect_via_info = λ target. some 12;
  new_response = record { http_status = pos 0; body = unset; body_length = 0 };
  new_user = no_user;
}

-- A context that knows both URLs.
abbrev known : Option (Option User) → Context Payloads
known user = record (context_of 1 []) {
  gateway_url = some (1 ∷ []);
  gateway_bot_url = some ((1 ∷ 2 ∷ 3 ∷ 4 ∷ 5 ∷ 6 ∷ []) ++ (7 ∷ []));
  current_user = user;
  lws_wsi = none;
  curl_handle = some no_options;
}
