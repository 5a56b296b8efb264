-- ===== src/Bots/Counter.antt =====
-- The counting bot (example_bots/example-counter.c): it answers a number with the next one.

pub mod Counts
pub mod Posted
pub mod Token
use libdiscord.Prelude.{
  ℕ, ◌+◌, ◌^◌, ◌-◌, ◌+ℤ◌, ℤ, pos, negsuc, Bool, true, false, not, ◌||◌, Option, none, some, List,
  [], ◌∷◌, Bytes, ◌==◌, ltb, length, is_some, if◌then◌else◌, Exec, fault, done, deref, within,
  ◌>>=◌, ◌>>◌, text, bytes_eq, eqb_ℤ,
}
use libdiscord.Status.{is_ok}
use libdiscord.Stdlib.{strtoul, strtol, has_number, print_signed}
use libdiscord.Message.{Message}
use libdiscord.Init.{Setup, ContextInfo, init_context_info, init_context}
use libdiscord.Context.{Context, Handle, Platform, CallbackReason, CallbackData, message_create}
use libdiscord.Gateway.Dispatch.{Result}
use libdiscord.Gateway.Callback.{Host}
use libdiscord.Gateway.Service.{Round, service}
use libdiscord.Bots.{
  Surroundings, Argument, Start, exit, aborted, go, and_then, read_all, need_token, message_of,
  is_own, is_by_bot, answer,
}

-- The locals that the options of `main` set.
pub record Settings : Type 0 where
  pub bot_token : Option Bytes
  pub log_level : ℕ

abbrev pub initial : Settings
initial = record { bot_token = none; log_level = 63 }

-- One option; a token of more than 65 characters ends the program.
unfoldable pub read_option : Settings → Argument → Start Settings
read_option s (c, optarg) =
    if c == b'h'
    then exit (pos 0)
    else if c == b't'
    then (if ltb 65 (length optarg)
        then exit (pos 0)
        else go (record s { bot_token = some optarg }))
    else if c == b'l'
    then go (record s { log_level = strtoul optarg })
    else exit (pos 1)

-- `main` up to the token: a program that is called without arguments shows its help.
unfoldable pub start : ℕ → List Argument → Start Settings
unfolding read_all read_option
start argc arguments =
    let rest =
      and_then (read_all read_option initial arguments) (λ s. need_token (pos 0) s.bot_token s) in
    if argc == 1 then exit (pos 0) else rest

-- `count + 1`, for a `long long`; an overflow is undefined.
unfoldable pub next_count : ℤ → Exec ℤ
next_count count = within (not (eqb_ℤ count (pos (2 ^ 63 - 1)))) >> done (count +ℤ pos 1)

module _ {J R : Type 0} (s : Surroundings J) where
  -- The tests on the sender and the chance (`lucky`), and the answer from `char new_message[64]`.
  unfoldable pub respond : Bool → Context R → Message → Bytes → Exec (ℤ × Context R)
  unfolding next_count is_own is_by_bot answer
  respond lucky c m content = do
    own ← is_own c m
    by_bot ← is_by_bot m
    let send = do
      count ← next_count (strtol content)
      let reply = print_signed count
      (_, c') ← within (ltb (length reply) 64) >> answer s c m.channel_id reply
      done (pos 0, c')
    if own
        then done (pos 0, c)
        else if by_bot
        then done (pos 0, c)
        else if lucky
        then send
        else done (pos 0, c)

  -- A message: whether `bot_exit` is set, and the result. "hcf" sets it, and goes on.
  unfoldable pub judge : Bool → Context R → Message → Exec (Bool × ℤ × Context R)
  unfolding respond
  judge lucky c m = elim m.content as (λ _. Exec (Bool × ℤ × Context R)) [
    | none ↦ done (false, pos 0, c)
    | some content ↦
        let halt = bytes_eq content (text "hcf") in
        let counted = respond lucky c m content >>= λ (i, c'). done (halt, i, c') in
        if has_number content then counted else done (halt, pos 0, c)
  ]

  -- `callback`
  unfoldable pub callback :
      Bool → Context R → CallbackReason → CallbackData J → ℕ → Exec (Bool × ℤ × Context R)
  unfolding judge message_of
  callback lucky c message_create d len = message_of s d >>= judge lucky c
  callback lucky c _ d len = done (false, pos 0, c)
