-- ===== src/Bots/Hash/Posted.antt =====
-- A command for the hashing bot, from its callback to the transfer that posts the digits.
use libdiscord.Prelude.{
  ℕ, ◌<◌, ◌≡◌, ◌+◌, ◌*◌, ◌∙◌, refl, some, ◌∷◌, ◌++◌, length, Bytes, done, if◌then◌else◌,
}
use libdiscord.Status.{code, ok, curl_err, is_ok}
use libdiscord.Context.{Context, json, message_create}
use libdiscord.Rest.Curl.{EasyOptions}
use libdiscord.Rest.Headers.Lines.{Appends}
use libdiscord.Rest.Request.{content_object}
use libdiscord.Rest.Send.Options.{SpareFirst}
use libdiscord.Rest.Send.Fresh.{Rounded}
use libdiscord.Rest.Send.Posts.{post_options, posted, send_basic_message_posts}
use libdiscord.Rest.Send.Results.{message_result}
use libdiscord.Bots.{Surroundings, answer}
use libdiscord.Bots.Sender.{message_in}
use libdiscord.Bots.Hash.{Digests, Globals, callback}
use libdiscord.Bots.Hash.Hex.{hex_text}
use libdiscord.Bots.Hash.Answers.{IsCommand, callback_hashes}
use libdiscord.Stdlib.Prefix.{Solid}

module _ {J R : Type 0} (s : Surroundings J) (e : Digests) (trigger : Bytes) where
  -- For a bot with a handle, a token below 900 bytes, memory in blocks rounded up to multiples of eight bytes, a byte to
  -- spare in the block for the first chunk of the answer, and `curl_slist_append` that succeeds:
  -- a command of at least three characters with the name of a digest, one space and a text, in a message of
  -- another user who is no bot, where the block for the digits starts with a NUL and jansson can make an
  -- object of the hexadecimal digits of the digest and print it, leads to one transfer more in the handle's
  -- record, with its answer, which posts the printed digits to the message's channel with the token. The
  -- result is an error exactly for an answer with a status of 400 or above, and the channel is kept for the
  -- farewell.
  pub callback_hashes_posts :
      (g : Globals) (c : Context R) (v object : J) (len x : ℕ)
      (name input rest token printed : Bytes) (hash : Bytes → Bytes) (opts : EasyOptions)
      → IsCommand s e trigger c (message_in s v) ((x ∷ name) ++ (32 ∷ input))
      → Solid (x ∷ name)
      → e.digest (x ∷ name) ≡ some hash
      → e.malloc_text (length (hash input) * 2 + 1) ≡ 0 ∷ rest
      → length rest ≡ length (hash input) * 2
      → c.curl_handle ≡ some opts
      → c.bot_token ≡ some token
      → length token < 900
      → Rounded s.web
      → Appends s.web
      → content_object s.web s.jansson (hex_text (hash input)) ≡ some object
      → s.jansson.dumps object ≡ some printed
      → SpareFirst s.web
          (s.web.perform (post_options s.web opts token (message_in s v).channel_id printed)).chunks
      → callback s e trigger g c message_create (json (some v)) len
        ≡ done (
            let options = post_options s.web opts token (message_in s v).channel_id printed in
            (
              (if is_ok (message_result (s.web.perform options)) then code ok else code curl_err),
              record g { target_channel = (message_in s v).channel_id },
              record c {
                curl_handle = some (posted s.web opts token (message_in s v).channel_id printed);
              },
            ))
  unfolding answer
  callback_hashes_posts g c v object len x name input rest token printed hash opts is solid known
        cleared size handle has_token short rounded appends made dumped spare =
      callback_hashes s e trigger g c v len x name input rest hash is solid known cleared size
      ∙ rw
          (send_basic_message_posts s.web s.jansson rounded c s.new_response
            (message_in s v).channel_id token (hex_text (hash input)) printed object opts has_token
            short appends handle made dumped spare)
          refl
