-- ===== src/Tests/Bots.antt =====
-- The theorems on the example bots, at concrete messages and arguments.
use libdiscord.Prelude.{
  ◌*◌, ◌/◌, leb, if◌then◌else◌, ◌+◌, true, ap, ◌≡◌, ◌≢◌, refl, pos, none, some, List, [], ◌∷◌,
  Bytes, text, arith, done, ◌>>=◌, bytes_eq,
}
use libdiscord.Stdlib.{strtoull}
use libdiscord.Jansson.Tree.{Tree, null, object, field, end, string}
use libdiscord.User.{User, load_user, load_entry}
use libdiscord.Message.{Message, message_init, pack_message, pack_entries, pack_entry}
use libdiscord.Context.{Context, Platform}
use libdiscord.Rest.Response.{unset}
use libdiscord.Gateway.Dispatch.{dispatch_parser}
use libdiscord.Connect.{connect}
use libdiscord.Gateway.Service.{Round}
use libdiscord.Gateway.Service.Missed.{rounds}
use libdiscord.Bots.{Surroundings, Argument, go}
use libdiscord.Bots.Sender.{Known, Foreign, message_in}
use libdiscord.Bots.Ayylmao
use libdiscord.Rest.Request.{content_object}
use libdiscord.Rest.Send.Fresh.{Rounded}
use libdiscord.Rest.Send.Posts.{posted}
use libdiscord.Bots.Ayylmao.Posted.{message_create_posts}
use libdiscord.Init.Identity.{IsAvailable, started}
use libdiscord.Bots.Main.{fresh_host, ayylmao_main}
use libdiscord.Bots.Main.Recovering.{info_of, ayylmao_main-rounds}
use libdiscord.Tests.Base.{no_options, usable_lem, Payloads, json_of, platform_of, context_of}
use libdiscord.Tests.Setup.{setup, info_with, outside, web, no_user}

abbrev pub around : Surroundings Tree
around = record {
  jansson = json_of null;
  web = web;
  malloc_user = some no_user;
  new_response = record { http_status = pos 0; body = unset; body_length = 0 };
}

-- User 0 is the bot, and user 5 says something in channel 42.
abbrev pub listening : Context Payloads
listening = record (context_of 1 []) { current_user = some (some no_user) }

abbrev pub said : Bytes → Tree
said content = object (
    field (text "channel_id") (string (text "42")) (
      field (text "author") (object (field (text "id") (string (text "5")) end))
        (field (text "content") (string content) end)))

abbrev pub heard : Bytes → Message
heard content = pack_message around.jansson around.malloc_user message_init (said content)

abbrev speaker : User
speaker = record no_user { id = 5 }

heard_lem :
    (content : Bytes)
    → heard content
      ≡ record message_init { channel_id = 42; author = some speaker; content = some content }
unfolding pack_message pack_entries load_user text pack_entry bytes_eq load_entry strtoull
heard_lem content = refl

pub known : (content : Bytes) → Known listening (heard content)
unfolding message_init
known content = record {
  author = speaker;
  me = no_user;
  has_author = ap (λ m. m.author) (heard_lem content);
  has_me = refl;
}

pub foreign : (content : Bytes) → Foreign listening (heard content) (known content)
unfolding known
foreign content = (omega arith, refl)

in_channel : (content : Bytes) → (heard content).channel_id ≢ 0
unfolding message_init
in_channel content = rw (ap (λ m. m.channel_id) (heard_lem content)) (omega arith)

pub has_content : (content : Bytes) → (heard content).content ≡ some content
unfolding message_init
has_content content = ap (λ m. m.content) (heard_lem content)

-- The ayylmao bot.
abbrev deployed : Platform Tree Payloads
deployed = record (platform_of null) {
  call = λ f c reason d len. Ayylmao.callback around (text "ayy") (text "lmao") c reason d len;
}

-- A handle is there, and the response is printed as 7 here.
abbrev pub listening_ready : Context Payloads
listening_ready = record listening { curl_handle = some no_options }

pub known_ready : (content : Bytes) → Known listening_ready (heard content)
unfolding message_init
known_ready content = record {
  author = speaker;
  me = no_user;
  has_author = ap (λ m. m.author) (heard_lem content);
  has_me = refl;
}

pub foreign_ready :
    (content : Bytes) → Foreign listening_ready (heard content) (known_ready content)
unfolding known_ready
foreign_ready content = (omega arith, refl)

response_made :
    content_object web (json_of null) (text "lmao")
    ≡ some (object (field (text "content") (string (text "lmao")) end))
unfolding content_object text
response_made = refl

pub around-Rounded : Rounded web
around-Rounded n = (if leb n 24 then 3 else 2 * ((n + 7) / 16) + 1, refl, usable_lem n)

message_create_posts_example :
    dispatch_parser deployed listening_ready
      (some (string (text "MESSAGE_CREATE")))
      (some (said (text "AYyy")))
    ≡ done (
      pos 0,
      record listening_ready {
        curl_handle = some (
            posted web no_options
              (1 ∷ [])
              (message_in around (said (text "AYyy"))).channel_id
              (7 ∷ []));
      },
    )
unfolding text
message_create_posts_example =
    message_create_posts around (text "ayy") (text "lmao") deployed listening_ready
      (string (text "MESSAGE_CREATE")) (said (text "AYyy"))
      (object (field (text "content") (string (text "lmao")) end)) 1 (text "AYy") (text "y")
      (1 ∷ []) (7 ∷ []) no_options (known_ready (text "AYyy")) (λ f c reason d len. refl) refl refl
      (foreign_ready (text "AYyy")) (in_channel (text "AYyy")) (has_content (text "AYyy")) refl refl
      refl (omega arith) around-Rounded (λ xs x. refl) response_made refl (24, refl, omega arith)

abbrev arguments : List Argument
arguments = (b't', 1 ∷ []) ∷ (b'r', text "hey") ∷ []

abbrev chosen : Ayylmao.Settings
chosen = record Ayylmao.initial { bot_token = some (1 ∷ []); trigger = text "hey" }

chosen_starts : Ayylmao.start 5 arguments ≡ go chosen
unfolding Ayylmao.start
chosen_starts = refl

abbrev quiet_round : Round
quiet_round = record { now = 10; later = 10; events = λ writeable. [] }

abbrev ready_setup :
    IsAvailable setup (info_of setup deployed (connect outside) 1 (info_with none none) (1 ∷ []))
ready_setup = record {
  easy = no_options;
  lws = 2;
  ring = record { size = 8; items = [] };
  has_easy = refl;
  has_lws = refl;
  has_ring = refl;
  has_memory = refl;
}

-- In both rounds `ld_connect` fails, since the answer to its first request has no URL.
ayylmao_main-rounds_example :
    ayylmao_main setup deployed
      (connect outside)
      1
      (info_with none none)
      chosen
      true
      (quiet_round ∷ quiet_round ∷ [])
    ≡ (rounds deployed
          (connect outside)
          (fresh_host (
            started setup
              (info_of setup deployed (connect outside) 1 (info_with none none) (1 ∷ []))
              (1 ∷ [])
              ready_setup))
          (quiet_round ∷ quiet_round ∷ [])
        >>= λ (statuses, h). done (pos 0, some h))
ayylmao_main-rounds_example =
    ayylmao_main-rounds setup deployed (connect outside) 1 (info_with none none) 5 arguments chosen
      (1 ∷ []) ready_setup (quiet_round ∷ quiet_round ∷ []) chosen_starts refl
