-- ===== src/Bots/Ayylmao.antt =====
-- The bot that answers "ayy" with "lmao" (example_bots/example-ayylmao.c).
pub mod Answers
pub mod Deployed
pub mod Options
pub mod Posted
use libdiscord.Prelude.{
  ℕ, ◌≡◌, refl, ℤ, pos, Bool, true, false, not, Option, none, some, List, [], ◌∷◌, ◌++◌, Bytes,
  ◌==◌, if◌then◌else◌, Exec, fault, done, deref, ◌>>=◌, text, eqb_ℤ,
}
use libdiscord.Status.{is_ok}
use libdiscord.Stdlib.{strtoul, strncasecmp_eq}
use libdiscord.Message.{Message}
use libdiscord.Context.{Context, Platform, CallbackReason, CallbackData, message_create}
use libdiscord.Gateway.Dispatch.{Result}
use libdiscord.Gateway.Callback.{Host}
use libdiscord.Gateway.Service.{Round, service}
use libdiscord.Bots.{
  Surroundings, Argument, Start, exit, aborted, go, and_then, read_all, need_token, message_of,
  is_own, is_by_bot, answer,
}

-- What the options set: the static variables `trigger`, `response` and `fail_mode`, and the locals of
-- `main`.
pub record Settings : Type 0 where
  pub bot_token : Option Bytes
  pub log_level : ℕ
  pub game : Option Bytes
  pub trigger : Bytes
  pub response : Bytes
  pub fail_mode : ℕ

abbrev pub initial : Settings
initial = record {
  bot_token = none;
  log_level = 31;
  game = none;
  trigger = text "ayy";
  response = text "lmao";
  fail_mode = 1;
}

-- One option; `-a` falls through to `abort()`.
unfoldable pub read_option : Settings → Argument → Start Settings
read_option s (c, optarg) =
    if c == b'h'
    then exit (pos 0)
    else if c == b't'
    then go (record s { bot_token = some optarg })
    else if c == b'l'
    then go (record s { log_level = strtoul optarg })
    else if c == b'g'
    then go (record s { game = some optarg })
    else if c == b'r'
    then go (record s { trigger = optarg })
    else if c == b'R'
    then go (record s { response = optarg })
    else aborted

-- `main` up to the token: a program that is called without arguments shows its help.
unfoldable pub start : ℕ → List Argument → Start Settings
unfolding read_all read_option
start argc arguments =
    let rest =
      and_then (read_all read_option initial arguments) (λ s. need_token (pos 1) s.bot_token s) in
    if argc == 1 then exit (pos 0) else rest

module _ {J R : Type 0} (s : Surroundings J) (trigger response : Bytes) where
  -- The answer to a message of another user; the result of sending it is not looked at.
  unfoldable pub respond : Context R → Message → Exec (ℤ × Context R)
  unfolding answer
  respond c m = do
    content ← deref m.content
    let send = do (_, c') ← answer s c m.channel_id response; done (pos 0, c')
    if strncasecmp_eq content trigger then send else done (pos 0, c)

  -- The tests, in their order.
  unfoldable pub judge : Context R → Message → Exec (ℤ × Context R)
  unfolding respond is_own is_by_bot
  judge c m = do
    own ← is_own c m
    by_bot ← is_by_bot m
    let go_on = respond c m
    if own
        then done (pos 0, c)
        else if by_bot
        then done (pos 0, c)
        else if m.channel_id == 0
        then done (pos 0, c)
        else go_on

  -- `callback`
  unfoldable pub callback : Context R → CallbackReason → CallbackData J → ℕ → Exec (ℤ × Context R)
  unfolding judge message_of
  callback c message_create d len = message_of s d >>= judge c
  callback c _ d len = done (pos 0, c)

-- The loop of `main` until the signal, which comes after the rounds of the list: the host, and the
-- rounds that were not needed.
module _ {J R : Type 0} (env : Platform J R) (connect : Context R → Exec (Result env))
    (fail_mode : ℕ) where
  unfoldable pub loop : Host R → List Round → Exec (Host R × List Round)
  loop h [] = done (h, [])
  loop h (w ∷ ws) = do
    (ret, h') ← service env connect h w
    let again = loop h' ws
    if is_ok ret then again else if fail_mode == 1 then again else done (h', ws)
