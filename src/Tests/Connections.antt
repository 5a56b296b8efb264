-- ===== src/Tests/Connections.antt =====
-- The theorems on connecting, on sessions and on timestamps, at concrete inputs.
use libdiscord.Prelude.{
  ◌*◌, ◌/◌, leb, if◌then◌else◌, ◌+◌, ◌≡◌, refl, pos, negsuc, true, none, some, [], ◌∷◌, ◌++◌, Bytes,
  text, length, arith, done, bytes_eq,
}
use libdiscord.Status.{code, ok}
use libdiscord.Jansson.Tree.{Tree, field, end, object, integer, string}
use libdiscord.Snowflake.{Snowflake, pack_snowflake}
use libdiscord.Timestamp.{Calendar, read_timestamp, read_timestamp-pack_snowflake}
use libdiscord.Context.{Context}
use libdiscord.Rest.Curl.{Web}
use libdiscord.Rest.Response.{block, deliver}
use libdiscord.Rest.Response.Chunks.{Ample, joined}
use libdiscord.Rest.Callbacks.{CurlBuffer, collect, empty_buffer, collect-deliver}
use libdiscord.Rest.Send.Options.{received}
use libdiscord.Connect.{Outside, connect}
use libdiscord.User.{load_user}
use libdiscord.Rest.Send.Fresh.{Rounded}
use libdiscord.Connect.Requests.Fresh.{GoodAnswers, me_handle, connect_fresh}
use libdiscord.Tests.Base.{Payloads, json_of, context_of, no_options, usable, usable_lem}
use libdiscord.Tests.Setup.{web, outside}

web-Ample : Ample web
web-Ample n = (usable n, refl, usable_lem n)

collect-deliver_example :
    (b : CurlBuffer) × (s : Bytes) × (collect web (empty_buffer web) ((1 ∷ []) ∷ (2 ∷ 3 ∷ []) ∷ [])
      ≡ done (true, b))
    × (b.string ≡ some s)
    × (deliver web (received (negsuc 0) []) ((1 ∷ []) ∷ (2 ∷ 3 ∷ []) ∷ [])
        ≡ done (true, record (received (negsuc 0) []) { body = block s; body_length = b.size }))
    × (s ≡ (1 ∷ []) ++ joined ((2 ∷ 3 ∷ []) ∷ []) ++ (0 ∷ []))
    × (b.size ≡ length ((1 ∷ []) ++ joined ((2 ∷ 3 ∷ []) ∷ [])))
collect-deliver_example =
    collect-deliver web (received (negsuc 0) []) (1 ∷ []) ((2 ∷ 3 ∷ []) ∷ []) web-Ample
      (24, refl, omega arith) refl refl

-- An answer that serves for each of the three requests.
abbrev answer_json : Tree
answer_json = object (
    field (text "url") (string (text "wss://g"))
      (field (text "shards") (integer (pos 2)) (field (text "username") (string (9 ∷ [])) end)))

abbrev good_web : Web
good_web = record web {
  perform = λ opts. record { result = pos 0; status = pos 200; chunks = (123 ∷ 125 ∷ []) ∷ [] };
}

abbrev good_outside : Outside Tree
good_outside = record outside { jansson = json_of answer_json; web = good_web }

abbrev unconnected : Context Payloads
unconnected = record (context_of 1 []) { lws_wsi = none; curl_handle = some no_options }

good_web-Rounded : Rounded good_web
good_web-Rounded n = (if leb n 24 then 3 else 2 * ((n + 7) / 16) + 1, refl, usable_lem n)

good_answers : GoodAnswers good_outside no_options (1 ∷ [])
unfolding text bytes_eq
good_answers = record {
  spare1 = (24, refl, omega arith);
  good1 = refl;
  object1 = answer_json;
  loaded1 = refl;
  url_value = string (text "wss://g");
  url = text "wss://g";
  has_url = refl;
  is_url = refl;
  spare2 = (24, refl, omega arith);
  object2 = answer_json;
  loaded2 = refl;
  bot_url_value = string (text "wss://g");
  scheme = text "wss://";
  address = text "g";
  has_bot_url = refl;
  is_bot_url = refl;
  six = refl;
  shards_value = integer (pos 2);
  has_shards = refl;
  some_shards = refl;
  spare3 = (24, refl, omega arith);
  good3 = refl;
  found3 = refl;
  object3 = answer_json;
  loaded3 = refl;
}

connect_fresh_example :
    connect good_outside unconnected
    ≡ done (
      code ok,
      record unconnected {
        curl_handle = some (me_handle good_outside no_options (1 ∷ []));
        gateway_url = some (good_answers.url);
        gateway_bot_url = some (good_answers.scheme ++ good_answers.address);
        shards = pos 2;
        current_user =
            some (some (load_user (json_of answer_json) outside.new_user good_answers.object3).1);
        lws_wsi = some 12;
      },
    )
unfolding good_answers
connect_fresh_example =
    connect_fresh good_outside unconnected no_options (1 ∷ []) good_web-Rounded (λ xs x. refl) refl
      (omega arith) good_answers refl refl refl refl

abbrev no_snowflake : Snowflake
no_snowflake = record {
  timestamp = 0;
  worker_id = 0;
  process_id = 0;
  increment = 0;
  unix_timestamp = 0;
}

-- A calendar that knows one second.
abbrev one_second : Calendar Bytes
one_second = record { getdate = λ s. some s; mktime = λ t. 1462015105 }

abbrev example_snowflake : Snowflake
example_snowflake = record {
  timestamp = 41944705796;
  worker_id = 1;
  process_id = 0;
  increment = 7;
  unix_timestamp = 1462015105796;
}

snowflake_packed :
    pack_snowflake (some no_snowflake) 175928847299117063 ≡ (code ok, some example_snowflake)
unfolding pack_snowflake
snowflake_packed = refl

read_timestamp-pack_snowflake_example :
    read_timestamp one_second
      (some (record { iso_str = none; unix_epoch = 0; discord_epoch = 0 }))
      (9 ∷ [])
    ≡ done (
      code ok,
      some (record {
        iso_str = some (9 ∷ []);
        unix_epoch = 1462015105;
        discord_epoch = 41944705000;
      }),
    )
read_timestamp-pack_snowflake_example =
    read_timestamp-pack_snowflake one_second no_snowflake example_snowflake
      (record { iso_str = none; unix_epoch = 0; discord_epoch = 0 }) 175928847299117063 (9 ∷ [])
      (9 ∷ []) (omega arith) snowflake_packed refl refl
