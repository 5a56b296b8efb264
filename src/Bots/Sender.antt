-- ===== src/Bots/Sender.antt =====
-- Messages whose sender and reader are known.
use libdiscord.Prelude.{◌≡◌, ◌≢◌, refl, false, some, ◌==◌, done, ==_ne}
use libdiscord.User.{User}
use libdiscord.Message.{Message, message_init, pack_message}
use libdiscord.Context.{Context}
use libdiscord.Bots.{Surroundings, is_own, is_by_bot}

-- What a bot makes of an event's data.
abbrev pub message_in : {J : Type 0} → Surroundings J → J → Message
message_in s v = pack_message s.jansson s.malloc_user message_init v

-- The author of a message and the bot's own user.
pub record Known {R : Type 0} (c : Context R) (m : Message) : Type 0 where
  pub author : User
  pub me : User
  pub has_author : m.author ≡ some author
  pub has_me : c.current_user ≡ some (some me)

module _ {R : Type 0} (c : Context R) (m : Message) (known : Known c m) where
  -- The message is of another user, who is no bot.
  abbrev pub Foreign : Type 0
  Foreign = (known.author.id ≢ known.me.id) × (known.author.bot ≡ false)

  pub is_own-Known : is_own c m ≡ done (known.author.id == known.me.id)
  unfolding is_own
  is_own-Known = rw (known.has_author, known.has_me) refl

  pub is_by_bot-Known : is_by_bot m ≡ done known.author.bot
  unfolding is_by_bot
  is_by_bot-Known = rw known.has_author refl

  pub is_own-Foreign : Foreign → is_own c m ≡ done false
  is_own-Foreign (other, no_bot) = rw (is_own-Known, ==_ne known.author.id known.me.id other) refl

  pub is_by_bot-Foreign : Foreign → is_by_bot m ≡ done false
  is_by_bot-Foreign (other, no_bot) = rw (is_by_bot-Known, no_bot) refl
