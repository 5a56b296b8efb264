-- ===== src/Tests/Replies.antt =====
-- The theorems on the counting and the hashing bot and on the loops, at concrete inputs.
use libdiscord.Prelude.{
  ℕ, ◌≡◌, refl, ℤ, pos, ltb, true, false, inl, inr, none, some, [], ◌∷◌, ◌++◌, Bytes, text, arith,
  Exec, fault, done, if◌then◌else◌, bytes_eq, length, Bool, Bool-cases, not, ◌&&◌,
}
use libdiscord.Status.{code, curl_err}
use libdiscord.Stdlib.{print_decimal, is_space}
use libdiscord.Stdlib.Prefix.{Solid}
use libdiscord.Jansson.Tree.{Tree, null, object, field, end, string}
use libdiscord.Context.{Context, Platform, json, message_create}
use libdiscord.Init.{init_context_opt}
use libdiscord.Init.Identity.{started}
use libdiscord.Gateway.Callback.{Host}
use libdiscord.Gateway.Service.{Round}
use libdiscord.Bots.{go}
use libdiscord.Rest.Request.{authorization, content_object}
use libdiscord.Bots.Counter.Token.{start-Sendable}
use libdiscord.Bots.Counter
use libdiscord.Bots.Counter.Posted.{callback_counts_posts}
use libdiscord.Bots.Hash
use libdiscord.Bots.Hash.{Digests, Globals, binary2hex, c_string}
use libdiscord.Bots.Hash.Uncleared.{binary2hex_uncleared}
use libdiscord.Bots.Hash.Answers.{IsCommand, callback_no_text_faults}
use libdiscord.Bots.Hash.Posted.{callback_hashes_posts}
use libdiscord.Bots.Hash.Hex.{hex_text}
use libdiscord.Bots.Sender.{message_in}
use libdiscord.Rest.Send.Posts.{posted}
use libdiscord.Bots.Loop.{bot_loop}
use libdiscord.Bots.Main.{counter_main, fresh_host, initial_info}
use libdiscord.Tests.Base.{Payloads, json_of, platform_of, context_of, no_options}
use libdiscord.Tests.Setup.{setup, info_with, available, web}
use libdiscord.Tests.Bots.{
  around, listening_ready, around-Rounded, said, heard, known_ready, foreign_ready, has_content,
}

abbrev pf : Platform Tree Payloads
pf = platform_of null

number_made :
    content_object web (json_of null) (print_decimal 42)
    ≡ some (object (field (text "content") (string (text "42")) end))
unfolding content_object text print_decimal
number_made = refl

callback_counts_posts_example :
    Counter.callback around true listening_ready message_create
      (json (some (said (print_decimal 41))))
      0
    ≡ done (
      false,
      pos 0,
      record listening_ready {
        curl_handle = some (
            posted web no_options
              (1 ∷ [])
              (message_in around (said (print_decimal 41))).channel_id
              (7 ∷ []));
      },
    )
callback_counts_posts_example =
    callback_counts_posts around listening_ready (said (print_decimal 41))
      (object (field (text "content") (string (text "42")) end)) 0 41 (1 ∷ []) (7 ∷ []) no_options
      (known_ready (print_decimal 41)) (foreign_ready (print_decimal 41))
      (has_content (print_decimal 41)) (omega arith) refl refl (omega arith) around-Rounded
      (λ xs x. refl) number_made refl (24, refl, omega arith)

-- One digest, which gives the first byte of the text, and memory of one value.
abbrev digests : ℕ → Digests
digests value = record {
  digest = λ name. if bytes_eq name (text "md5") then some (λ input. 171 ∷ []) else none;
  malloc_text = λ n. value ∷ 0 ∷ 0 ∷ [];
}

binary2hex_uncleared_example : binary2hex (digests 1) (171 ∷ []) ≡ fault
binary2hex_uncleared_example =
    binary2hex_uncleared (digests 1) 171 1 [] (0 ∷ 0 ∷ []) refl refl (omega arith)

IsCommand-of :
    (command : Bytes)
    → bytes_eq (text "!hash" ++ (32 ∷ command)) (text "hcf") ≡ false
    → ltb 2 (length command) ≡ true
    → IsCommand around
        (digests 0)
        (text "!hash")
        listening_ready
        (heard (text "!hash" ++ (32 ∷ command)))
        command
IsCommand-of command no_halt long = record {
  known = known_ready (text "!hash" ++ (32 ∷ command));
  foreign = foreign_ready (text "!hash" ++ (32 ∷ command));
  has_content = has_content (text "!hash" ++ (32 ∷ command));
  no_halt = no_halt;
  long_enough = ground arith;
}

abbrev no_globals : Globals
no_globals = record { bot_exit = false; target_channel = 0 }

digits_made :
    content_object web (json_of null) (hex_text (171 ∷ []))
    ≡ some (object (field (text "content") (string (text "ab")) end))
unfolding content_object text
digits_made = refl

callback_hashes_posts_example :
    Hash.callback around
      (digests 0)
      (text "!hash")
      no_globals
      listening_ready
      message_create
      (json (some (said (text "!hash md5 abc"))))
      0
    ≡ done (
        let channel = (message_in around (said (text "!hash md5 abc"))).channel_id in
        (
          code curl_err,
          record no_globals { target_channel = channel },
          record listening_ready {
            curl_handle = some (posted web no_options (1 ∷ []) channel (7 ∷ []));
          },
        ))
unfolding text bytes_eq
callback_hashes_posts_example =
    callback_hashes_posts around (digests 0) (text "!hash") no_globals listening_ready
      (said (text "!hash md5 abc")) (object (field (text "content") (string (text "ab")) end)) 0
      b'm' (text "d5") (text "abc") (0 ∷ 0 ∷ []) (1 ∷ []) (7 ∷ []) (λ input. 171 ∷ []) no_options
      (IsCommand-of (text "md5 abc") refl refl) (refl, (refl, (refl, tt))) refl refl refl refl refl
      (omega arith) around-Rounded (λ xs x. refl) digits_made refl (24, refl, omega arith)

callback_no_text_faults_example :
    Hash.callback around
      (digests 0)
      (text "!hash")
      no_globals
      listening_ready
      message_create
      (json (some (said (text "!hash md5"))))
      0
    ≡ fault
unfolding text bytes_eq
callback_no_text_faults_example =
    callback_no_text_faults around (digests 0) (text "!hash") no_globals listening_ready
      (said (text "!hash md5")) 0 b'm' (text "d5") (λ input. 171 ∷ [])
      (IsCommand-of (text "md5") refl refl) (refl, (refl, (refl, tt))) refl

-- 76 characters, which are the name of no digest.
abbrev long_name : Bytes
long_name = text "abcdefghijklmnopqrstuvwxyzabcdefghijklmnopqrstuvwxyzabcdefghijklmnopqrstuvwx"

abbrev is_solid : Bytes → Bool
is_solid [] = true
is_solid (c ∷ s) = not (is_space c) && is_solid s

Solid-of : (s : Bytes) → is_solid s ≡ true → Solid s
Solid-of [] h = tt
Solid-of (c ∷ s) h = elim (Bool-cases (is_space c)) [
  | inl e ↦ let absurd = rw e at h in cc
  | inr e ↦ (e, Solid-of s (rw e at h))
]

-- Connected, with one heartbeat that is not acknowledged; the next is due after 41 s.
abbrev stalled : Host Payloads
stalled = record {
  context = record (context_of 1 []) {
    heartbeat_interval = 41250;
    last_hb = 1000;
    hb_count = pos 1;
  };
  sent = [];
}

abbrev over : Host Payloads
over = record stalled { context = record (stalled.context) { hb_count = pos 2 } }

abbrev round_at : ℕ → Round
round_at t = record { now = t; later = t; events = λ writeable. [] }

-- The connection fails.
abbrev refused : Context Payloads → Exec (ℤ × Context Payloads)
refused c = done (pos 1, c)

abbrev given : Counter.Settings
given = record Counter.initial { bot_token = some (1 ∷ []) }

abbrev refused_host : Host Payloads
refused_host = fresh_host (started setup (info_with none none) (1 ∷ []) (available none none))

counter_runs :
    counter_main setup pf refused 3 (info_with none none) given true false []
    ≡ done (pos 0, some refused_host)
unfolding counter_main initial_info init_context_opt bot_loop
counter_runs = refl

given_starts : Counter.start 3 ((b't', 1 ∷ []) ∷ []) ≡ go given
unfolding Counter.start
given_starts = refl

start-Sendable_example :
    (t : Bytes) × (given.bot_token ≡ some t)
    × (authorization given.bot_token ≡ done (text "Bot " ++ t))
start-Sendable_example = start-Sendable 3 ((b't', 1 ∷ []) ∷ []) given given_starts
