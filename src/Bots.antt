-- ===== src/Bots.antt =====
-- The example bots (example_bots/), which are clients of the library: what they share.
pub mod Ayylmao
pub mod Counter
pub mod Hash
pub mod Loop
pub mod Main
pub mod Options
pub mod Sender
pub mod Arguments
use libdiscord.Prelude.{
  ℕ, ◌≡◌, refl, ℤ, pos, Bool, true, false, Option, none, some, List, [], ◌∷◌, Bytes, ◌==◌,
  if◌then◌else◌, Exec, fault, done, deref, ◌>>=◌,
}
use libdiscord.Jansson.{Jansson}
use libdiscord.User.{User}
use libdiscord.Message.{Message, message_init, pack_message}
use libdiscord.Context.{Context, CallbackData, null, json, close_message}
use libdiscord.Rest.Curl.{Web}
use libdiscord.Rest.Response.{Response}
use libdiscord.Rest.Send.{send_basic_message}

-- What a bot's callback takes from outside.
pub record Surroundings (J : Type 0) : Type 0 where
  pub jansson : Jansson J
  pub web : Web
  -- the block that `malloc` gives for the author of a message, `none` for NULL
  pub malloc_user : Option User
  -- what is in the memory of a new response
  pub new_response : Response

-- What `getopt_long` reports: the letter of an option, and its argument.
abbrev pub Argument : Type 0
Argument = ℕ × Bytes

-- What the reading of the arguments leads to: the program returns, it is aborted, or it goes on.
pub data Start (S : Type 0) : Type 0 where
  exit : ℤ → Start S
  aborted : Start S
  go : S → Start S

-- What comes after, if the program goes on.
abbrev pub and_then : {S : Type 0} → Start S → (S → Start S) → Start S
and_then (exit i) f = exit i
and_then aborted f = aborted
and_then (go s) f = f s

-- The loop over the options, by what one of them does.
unfoldable pub read_all : {S : Type 0} → (S → Argument → Start S) → S → List Argument → Start S
read_all read s [] = go s
read_all read s (a ∷ arguments) = and_then (read s a) (λ s'. read_all read s' arguments)

-- A program that needs its token ends with a code without one.
abbrev pub need_token : {S : Type 0} → ℤ → Option Bytes → S → Start S
need_token code none s = exit code
need_token code (some token) s = go s

-- `message.author->id == context->current_user->id`
unfoldable pub is_own : {R : Type 0} → Context R → Message → Exec Bool
is_own c m = do
  author ← deref m.author
  filled ← deref c.current_user
  me ← deref filled
  done (author.id == me.id)

-- `message.author->bot == 1`
unfoldable pub is_by_bot : Message → Exec Bool
is_by_bot m = do author ← deref m.author; done author.bot

module _ {J : Type 0} (s : Surroundings J) where
  -- `ld_json_message_init` and `ld_json_pack_message`; a text that is taken for JSON is undefined.
  unfoldable pub message_of : CallbackData J → Exec Message
  message_of null = done message_init
  message_of (json none) = done message_init
  message_of (json (some v)) = done (pack_message s.jansson s.malloc_user message_init v)
  message_of (close_message message) = fault

  -- `ld_send_basic_message(context, message.channel_id, reply)`
  unfoldable pub answer : {R : Type 0} → Context R → ℕ → Bytes → Exec (ℤ × Context R)
  answer c channel reply = send_basic_message s.web s.jansson c s.new_response channel reply
