-- ===== src/Bots/Ayylmao/Posted.antt =====
-- An event for the ayylmao bot, from the gateway to the transfer that posts the response.
use libdiscord.Prelude.{
  ◌<◌, ◌≡◌, ◌≢◌, ap, ◌∙◌, pos, some, ◌++◌, map, length, Bytes, text, done, ◌>>=◌,
}
use libdiscord.Stdlib.{lower}
use libdiscord.Context.{Context, Platform, Handle}
use libdiscord.Rest.Curl.{EasyOptions}
use libdiscord.Rest.Headers.Lines.{Appends}
use libdiscord.Rest.Request.{content_object}
use libdiscord.Rest.Send.Options.{SpareFirst}
use libdiscord.Rest.Send.Fresh.{Rounded}
use libdiscord.Rest.Send.Posts.{post_options, posted, send_basic_message_posts}
use libdiscord.Gateway.Dispatch.{dispatch_parser}
use libdiscord.Bots.{Surroundings, answer}
use libdiscord.Bots.Sender.{Known, Foreign, message_in}
use libdiscord.Bots.Ayylmao.Deployed.{IsDeployed, message_create_answered}

module _ {J R : Type 0} (s : Surroundings J) (trigger response : Bytes) (env : Platform J R) where
  -- For a bot with a handle, a token below 900 bytes, memory in blocks rounded up to multiples of eight bytes, a byte to
  -- spare in the block for the first chunk of the answer, and `curl_slist_append` that succeeds,
  -- whose response jansson can make an object of and print: a MESSAGE_CREATE event whose message is in a
  -- channel, of another user who is no bot, and starts with the trigger in any spelling of capitals and small
  -- letters, leads to one transfer more in the handle's record, with its answer, which posts the printed
  -- response to the message's channel with the token. Whatever that answer is, the event's result is 0, and
  -- of the context only the handle changes.
  pub message_create_posts :
      (c : Context R) (t v object : J) (f : Handle) (typed rest token json : Bytes)
      (opts : EasyOptions) (known : Known c (message_in s v))
      → IsDeployed s trigger response env
      → env.jansson.string_value t ≡ some (text "MESSAGE_CREATE")
      → c.user_callback ≡ some f
      → Foreign c (message_in s v) known
      → (message_in s v).channel_id ≢ 0
      → (message_in s v).content ≡ some (typed ++ rest)
      → map lower typed ≡ map lower trigger
      → c.curl_handle ≡ some opts
      → c.bot_token ≡ some token
      → length token < 900
      → Rounded s.web
      → Appends s.web
      → content_object s.web s.jansson response ≡ some object
      → s.jansson.dumps object ≡ some json
      → SpareFirst s.web
          (s.web.perform (post_options s.web opts token (message_in s v).channel_id json)).chunks
      → dispatch_parser env c (some t) (some v)
        ≡ done (
          pos 0,
          record c {
            curl_handle = some (posted s.web opts token (message_in s v).channel_id json);
          },
        )
  unfolding answer
  message_create_posts c t v object f typed rest token json opts known is named has_callback foreign
        somewhere has_content spelt handle has_token short rounded appends made dumped spare =
      message_create_answered s trigger response env c t v f typed rest known is named has_callback
        foreign somewhere has_content spelt
      ∙ ap (λ run. run >>= λ (n, c'). done (pos 0, c'))
          (send_basic_message_posts s.web s.jansson rounded c s.new_response
            (message_in s v).channel_id token response json object opts has_token short appends
            handle made dumped spare)
