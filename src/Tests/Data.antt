-- ===== src/Tests/Data.antt =====
-- The theorems on the data of the API, at concrete inputs.
use libdiscord.Prelude.{
  ◌+◌, ◌^◌, ◌<◌, ◌≡◌, refl, pos, true, false, none, some, [], ◌∷◌, text, bytes_eq, arith, done,
  ◌>>=◌,
}
use libdiscord.Status.{code, ok}
use mathlib.Core.List.{flatten}
use libdiscord.Stdlib.{strtoull, strncpy}
use libdiscord.Jansson.{lookup}
use libdiscord.Jansson.Tree.{
  Tree, field, end, object, integer, string, null, boolean, array, cons, nil, tree_laws,
}
use libdiscord.Snowflake.{Snowflake, pack_snowflake, snowflake2str, discord_epoch}
use libdiscord.Snowflake.Fields.{recompose, pack_snowflake_fields, snowflake2str-strtoull}
use libdiscord.User.{User}
use libdiscord.Message.{message_init, pack_message}
use libdiscord.Message.Load.{read_message, pack_message-read_message}
use libdiscord.Payload.Create.{create_payload_entries}
use libdiscord.Payload.{WebsocketPayload, create_payload, dispatch, dispatch_unknown}
use libdiscord.Gateway.Parser.{payload_parser, payload_objectparser, on_opcode, opcode_of}
use libdiscord.Gateway.Parser.Scan.{payload_parser-found}
use libdiscord.Gateway.Parser.Session.{IsPayload}
use libdiscord.Gateway.Receive.{receive, drop_buffer}
use libdiscord.Gateway.Receive.Fragments.{
  receive_message, receive_message_join, with_buffer, IsBuffered, receive-IsBuffered,
}
use libdiscord.Context.{Context}
use libdiscord.Tests.Base.{Payloads, json_of, platform_of, context_of}

abbrev snowflake_zero : Snowflake
snowflake_zero = record {
  timestamp = 0;
  worker_id = 0;
  process_id = 0;
  increment = 0;
  unix_timestamp = 0;
}

pack_snowflake_fields_example :
    (f : Snowflake) × (pack_snowflake (some snowflake_zero) 175928847299117063 ≡ (code ok, some f))
    × (recompose f ≡ 175928847299117063)
    × (f.timestamp < 2 ^ 42)
    × (f.worker_id < 2 ^ 5)
    × (f.process_id < 2 ^ 5)
    × (f.increment < 2 ^ 12)
    × (f.unix_timestamp ≡ f.timestamp + discord_epoch)
pack_snowflake_fields_example =
    pack_snowflake_fields snowflake_zero 175928847299117063 (omega arith)

snowflake2str-strtoull_example : strtoull (snowflake2str 81384788765712384) ≡ 81384788765712384
snowflake2str-strtoull_example = snowflake2str-strtoull 81384788765712384 (omega arith)

abbrev user_zero : User
user_zero = record {
  id = 0;
  username = none;
  discriminator = none;
  avatar = none;
  bot = false;
  mfa_enabled = false;
  locale = none;
  verified = false;
  email = none;
}

abbrev user_json : Tree
user_json =
    object
      (field (text "id") (string (52 ∷ 50 ∷ [])) (field (text "username") (string (9 ∷ [])) end))

-- A HELLO, an INVALIDATE_SESSION, and a heartbeat's acknowledgement.
abbrev hello_json : Tree
hello_json = object (
    field (text "op") (integer (pos 10)) (
      field (text "d") (object (field (text "heartbeat_interval") (integer (pos 41250)) end))
        (field (text "s") null (field (text "t") null end))))

abbrev invalidate_json : Tree
invalidate_json = object (field (text "op") (integer (pos 9)) (field (text "d") null end))

invalidate-IsPayload :
    IsPayload (platform_of invalidate_json) [] invalidate_json (integer (pos 9)) 9
unfolding text bytes_eq payload_objectparser
invalidate-IsPayload = record {
  loaded = refl;
  distinct = (refl, (refl, tt));
  known = (cc, (cc, tt));
  op = refl;
  number = refl;
}

abbrev in_session : Context Payloads
in_session = record (context_of 1 []) { gateway_session_id = some (9 ∷ []); last_seq = pos 6 }

payload_parser-found_example :
    payload_parser (platform_of invalidate_json) true 0 in_session []
    ≡ done (pos 0, record in_session { gateway_session_id = none; last_seq = pos 0 })
unfolding invalidate-IsPayload on_opcode opcode_of text bytes_eq
payload_parser-found_example =
    payload_parser-found (platform_of invalidate_json) true 0 in_session [] invalidate_json refl
      invalidate-IsPayload.distinct invalidate-IsPayload.known

receive_message_join_example :
    receive_message
      (platform_of invalidate_json)
      true
      0
      in_session
      (1 ∷ [])
      ((2 ∷ 3 ∷ []) ∷ [])
      (4 ∷ [])
    ≡ (payload_parser
          (platform_of invalidate_json)
          true
          0
          (with_buffer (platform_of invalidate_json) in_session (1 ∷ 2 ∷ 3 ∷ 4 ∷ []))
          (1 ∷ 2 ∷ 3 ∷ 4 ∷ [])
        >>= (λ r. done (drop_buffer (platform_of invalidate_json) r)))
unfolding flatten
receive_message_join_example =
    receive_message_join (platform_of invalidate_json) true 0 in_session (1 ∷ [])
      ((2 ∷ 3 ∷ []) ∷ []) (4 ∷ []) (omega arith, tt) ((omega arith, (omega arith, tt)), tt)
      (omega arith, tt)

abbrev one_kept : Context Payloads
one_kept = with_buffer (platform_of invalidate_json) in_session (1 ∷ [])

abbrev two_kept : Context Payloads
two_kept = with_buffer (platform_of invalidate_json) in_session (1 ∷ 2 ∷ [])

receive-IsBuffered_example : IsBuffered two_kept
unfolding receive strncpy
receive-IsBuffered_example =
    receive-IsBuffered (platform_of invalidate_json) true 0 one_kept (2 ∷ []) false false (pos 0)
      two_kept refl refl

abbrev message_json : Tree
message_json =
    object (field (text "id") (string (55 ∷ [])) (field (text "content") (string (9 ∷ [])) end))

pack_message-read_message_example :
    pack_message (json_of null) (some user_zero) message_init message_json
    ≡ read_message (json_of null) (some user_zero) message_init (λ key.
      lookup
        (json_of null)
        key
        ((text "id", string (55 ∷ [])) ∷ (text "content", string (9 ∷ [])) ∷ []))
unfolding text bytes_eq
pack_message-read_message_example =
    pack_message-read_message (json_of null) (some user_zero) message_init message_json
      (refl, (refl, tt))

abbrev ready_payload : WebsocketPayload
ready_payload = record { op = dispatch; d = some 1; s = pos 1; t = dispatch_unknown }

create_payload_entries_example :
    (v : Tree) × (create_payload (json_of null) (integer (pos 1)) (some (integer (pos 6))) none none
      ≡ some v)
    × ((json_of null).entries v ≡ (text "op", integer (pos 1)) ∷ (text "d", integer (pos 6)) ∷ [])
create_payload_entries_example =
    create_payload_entries (json_of null) (tree_laws (λ s. some null) (λ t. some (7 ∷ [])))
      (integer (pos 1)) (some (integer (pos 6))) none none

abbrev identify_tree : Tree
identify_tree = object (
    field (text "token") (string (1 ∷ [])) (
      field (text "properties")
        (object (
          field (text "$os") (string (4 ∷ [])) (
            field (text "$device") (string (2 ∷ []))
              (field (text "$browser") (string (3 ∷ [])) end))))
        (field (text "compress") (boolean false) (
          field (text "large_threshold") (integer (pos 250)) (
            field (text "shard") (array (cons (integer (pos 0)) (cons (integer (pos 0)) nil)))
              end)))))
