-- ===== src/Bots/Main/Posted.antt =====
-- What the posting bot leaves, from its settings to the transfer that posts the message.
use libdiscord.Prelude.{
  ℕ, ◌≡◌, ◌≢◌, refl, ap, ◌∙◌, ℤ, pos, Option, none, some, Bytes, length, ◌<◌, if◌then◌else◌, eqb_ℤ,
  Exec, done, ◌>>=◌, ==_ne,
}
use libdiscord.Context.{Context}
use libdiscord.Init.{Setup, ContextInfo}
use libdiscord.Init.Identity.{IsAvailable, started, init_context_plain}
use libdiscord.Rest.Headers.Lines.{Appends}
use libdiscord.Rest.Request.{content_object}
use libdiscord.Rest.Send.Options.{SpareFirst}
use libdiscord.Rest.Send.Results.{message_result}
use libdiscord.Rest.Send.Fresh.{Rounded}
use libdiscord.Rest.Send.Posts.{post_options, posted, send_basic_message_posts}
use libdiscord.Bots.{Surroundings, answer}
use libdiscord.Bots.Main.{initial_info, post, simplepost_main}

module _ {J R : Type 0} (s : Surroundings J) (setup : Setup R) (memory : ContextInfo) where
  -- What the program asks `ld_init_context` for.
  abbrev pub info_for : Bytes → ContextInfo
  info_for token = record {
    bot_token = some token;
    user_callback = none;
    gateway_ringbuffer_size = 16;
    init_presence = none;
    device = none;
    browser = none;
    os = none;
  }

  -- The context at the program's end.
  abbrev pub ended : (token : Bytes) → IsAvailable setup (info_for token) → ℕ → Bytes → Context R
  ended token all channel json = record (started setup (info_for token) token all) {
    curl_handle = some (posted s.web all.easy token channel json);
  }

  -- With a message, a channel and a token below 900 bytes, everything available for the set-up, memory in
  -- blocks rounded up to multiples of eight bytes, a byte to spare in the block for the first chunk of the
  -- answer, `curl_slist_append` that succeeds, and a message that jansson can make an object of and print:
  -- the bot makes one transfer with its new handle, which posts the printed object to the channel. The exit
  -- code is 4 exactly for an answer with an error status; for a transfer that failed it is 0 like for one
  -- that succeeded.
  pub simplepost_main_posts :
      (log_level channel : ℕ) (token message json : Bytes) (object : J)
      (all : IsAvailable setup (info_for token))
      → channel ≢ 0
      → length token < 900
      → Rounded s.web
      → Appends s.web
      → content_object s.web s.jansson message ≡ some object
      → s.jansson.dumps object ≡ some json
      → SpareFirst s.web (s.web.perform (post_options s.web all.easy token channel json)).chunks
      → simplepost_main s setup memory (record {
        bot_token = some token;
        log_level = log_level;
        message = some message;
        channel = channel;
      })
        ≡ done (
          (if eqb_ℤ
                (message_result (s.web.perform (post_options s.web all.easy token channel json)))
                (pos 0)
              then pos 0
              else pos 4),
          some (ended token all channel json),
        )
  unfolding simplepost_main post initial_info answer
  simplepost_main_posts log_level channel token message json object all somewhere short rounded
        appends made dumped spare =
      rw (==_ne channel 0 somewhere) (
        ap (λ run. run >>= λ (ret, c). rest ret c)
          (init_context_plain setup (info_for token) token all refl refl)
        ∙ rw
            (send_basic_message_posts s.web s.jansson rounded
              (started setup (info_for token) token all) s.new_response channel token message json
              object all.easy refl short appends refl made dumped spare)
            refl)
    where
      rest : ℤ → Context R → Exec (ℤ × Option (Context R))
      rest ret c =
          let send = do
            (sent, c') ← answer s c channel message
            done (if eqb_ℤ sent (pos 0) then pos 0 else pos 4, some c')
          in if eqb_ℤ ret (pos 0) then send else done (pos 3, none)
