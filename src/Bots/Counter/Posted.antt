-- ===== src/Bots/Counter/Posted.antt =====
-- A number for the counting bot, from its callback to the transfer that posts the next one.
use libdiscord.Prelude.{
  ℕ, suc, ◌^◌, ◌-◌, ◌<◌, ◌≡◌, ap, ◌∙◌, pos, true, false, some, length, Bytes, done, ◌>>=◌,
}
use libdiscord.Stdlib.{print_decimal}
use libdiscord.Context.{Context, json, message_create}
use libdiscord.Rest.Curl.{EasyOptions}
use libdiscord.Rest.Headers.Lines.{Appends}
use libdiscord.Rest.Request.{content_object}
use libdiscord.Rest.Send.Options.{SpareFirst}
use libdiscord.Rest.Send.Fresh.{Rounded}
use libdiscord.Rest.Send.Posts.{post_options, posted, send_basic_message_posts}
use libdiscord.Bots.{Surroundings, answer}
use libdiscord.Bots.Sender.{Known, Foreign, message_in}
use libdiscord.Bots.Counter.{callback}
use libdiscord.Bots.Counter.Counts.{callback_counts}

module _ {J R : Type 0} (s : Surroundings J) where
  -- For a bot with a handle, a token below 900 bytes, memory in blocks rounded up to multiples of eight bytes, a byte to
  -- spare in the block for the first chunk of the answer, and `curl_slist_append` that succeeds:
  -- with luck, a message of another user who is no bot, whose text is a number below the greatest `long long`,
  -- where jansson can make an object of the next number and print it, leads to one transfer more in the
  -- handle's record, with its answer, which posts the printed number to the message's channel with the
  -- token. Whatever that answer is, `bot_exit` stays, the result is 0, and of the context only the handle
  -- changes.
  pub callback_counts_posts :
      (c : Context R) (v object : J) (len n : ℕ) (token printed : Bytes) (opts : EasyOptions)
      (known : Known c (message_in s v))
      → Foreign c (message_in s v) known
      → (message_in s v).content ≡ some (print_decimal n)
      → n < 2 ^ 63 - 1
      → c.curl_handle ≡ some opts
      → c.bot_token ≡ some token
      → length token < 900
      → Rounded s.web
      → Appends s.web
      → content_object s.web s.jansson (print_decimal (suc n)) ≡ some object
      → s.jansson.dumps object ≡ some printed
      → SpareFirst s.web
          (s.web.perform (post_options s.web opts token (message_in s v).channel_id printed)).chunks
      → callback s true c message_create (json (some v)) len
        ≡ done (
          false,
          pos 0,
          record c {
            curl_handle = some (posted s.web opts token (message_in s v).channel_id printed);
          },
        )
  unfolding answer
  callback_counts_posts c v object len n token printed opts known foreign has_content small handle
        has_token short rounded appends made dumped spare =
      callback_counts s c v len n known foreign has_content small
      ∙ ap (λ run. run >>= λ (i, c'). done (false, pos 0, c'))
          (send_basic_message_posts s.web s.jansson rounded c s.new_response
            (message_in s v).channel_id token (print_decimal (suc n)) printed object opts has_token
            short appends handle made dumped spare)
