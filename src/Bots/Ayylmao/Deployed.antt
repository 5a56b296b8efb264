-- ===== src/Bots/Ayylmao/Deployed.antt =====
-- The ayylmao bot behind the gateway.
use libdiscord.Prelude.{
  ℕ, ◌≡◌, ◌≢◌, refl, ap, ◌∙◌, some, ◌++◌, map, Bytes, deref, ◌>>=◌, text, Ensures-map,
}
use mathlib.Core.List.{Memᴰ}
use libdiscord.Stdlib.{lower}
use libdiscord.Message.{message_init, pack_message}
use libdiscord.Context.{
  Context, CallbackReason, CallbackData, Platform, Handle, json, message_create,
}
use libdiscord.Gateway.Dispatch.{
  DispatchEntry, dispatch_parser, call_user, dispatch_dict, no_handler,
}
use libdiscord.Gateway.Dispatch.Table.{dispatch_parser_event}
use libdiscord.Connect.Kept.{kept}
use libdiscord.Gateway.Order.Refine.{KeepsRing, Same}
use libdiscord.Gateway.Sessions.{KeepsSession}
use libdiscord.Bots.{Surroundings}
use libdiscord.Bots.Sender.{Known, Foreign}
use libdiscord.Bots.Ayylmao.{callback}
use libdiscord.Bots.Ayylmao.Answers.{answered, callback_answers, callback-Kept}

abbrev message_entry : DispatchEntry
message_entry = record {
  name = text "MESSAGE_CREATE";
  cbk_reason = message_create;
  dispatch_callback = no_handler;
}

message_listed : Memᴰ message_entry dispatch_dict
unfolding dispatch_dict
message_listed = Memᴰ.tail (
    Memᴰ.tail (
      Memᴰ.tail (
        Memᴰ.tail (
          Memᴰ.tail (
            Memᴰ.tail (
              Memᴰ.tail (
                Memᴰ.tail (
                  Memᴰ.tail (
                    Memᴰ.tail (
                      Memᴰ.tail (
                        Memᴰ.tail (
                          Memᴰ.tail (
                            Memᴰ.tail (
                              Memᴰ.tail (
                                Memᴰ.tail (
                                  Memᴰ.tail (Memᴰ.tail (Memᴰ.tail (Memᴰ.head refl)))))))))))))))))))

module _ {J R : Type 0} (s : Surroundings J) (trigger response : Bytes) (env : Platform J R) where
  -- The address that the context has is the one of the bot's callback.
  abbrev pub IsDeployed : Type 0
  IsDeployed =
      (f : Handle) (c : Context R) (reason : CallbackReason) (d : CallbackData J) (len : ℕ)
      → env.call f c reason d len ≡ callback s trigger response c reason d len

  pub deployed-KeepsRing : IsDeployed → KeepsRing env
  deployed-KeepsRing is f c reason d len = rw (is f c reason d len) (
      Ensures-map (λ r. kept r.1 ≡ kept c) (Same env c) _
        (callback-Kept s trigger response c reason d len) (λ r same. ap (λ k. k.0) same))

  pub deployed-KeepsSession : IsDeployed → KeepsSession env
  deployed-KeepsSession is f c reason d len = rw (is f c reason d len) (
      Ensures-map (λ r. kept r.1 ≡ kept c) _ _ (callback-Kept s trigger response c reason d len)
        (λ r same. (ap (λ k. k.1) same, ap (λ k. k.2) same)))

  -- A MESSAGE_CREATE event whose message is in a channel, of another user who is no bot, and starts with
  -- the trigger in any spelling of capitals and small letters: the response is sent to the message's
  -- channel, and the event's result is 0.
  pub message_create_answered :
      (c : Context R) (t v : J) (f : Handle) (typed rest : Bytes)
      (known : Known c (pack_message s.jansson s.malloc_user message_init v))
      → IsDeployed
      → env.jansson.string_value t ≡ some (text "MESSAGE_CREATE")
      → c.user_callback ≡ some f
      → Foreign c (pack_message s.jansson s.malloc_user message_init v) known
      → (pack_message s.jansson s.malloc_user message_init v).channel_id ≢ 0
      → (pack_message s.jansson s.malloc_user message_init v).content ≡ some (typed ++ rest)
      → map lower typed ≡ map lower trigger
      → dispatch_parser env c (some t) (some v)
        ≡ answered s trigger response c (pack_message s.jansson s.malloc_user message_init v)
  unfolding call_user
  message_create_answered c t v f typed rest known is named has_callback foreign somewhere
        has_content spelt =
      dispatch_parser_event env c t (some v) message_entry named message_listed refl
      ∙ ap (λ o. deref o >>= λ g. env.call g c message_create (json (some v)) 0) has_callback
      ∙ is f c message_create (json (some v)) 0
      ∙ callback_answers s trigger response c v 0 typed rest known foreign somewhere has_content
          spelt
