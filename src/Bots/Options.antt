-- ===== src/Bots/Options.antt =====
-- The options of the hashing, pinging and posting bots.
use libdiscord.Prelude.{
  ℕ, pos, Option, none, some, List, Bytes, ◌==◌, ltb, length, text, if◌then◌else◌,
}
use libdiscord.Stdlib.{strtoul, strtoull}
use libdiscord.Bots.{Argument, Start, exit, aborted, go, and_then, read_all, need_token}

-- The token and the prefix of the hashing bot (its static variable `trigger`).
pub record HashSettings : Type 0 where
  pub bot_token : Option Bytes
  pub log_level : ℕ
  pub prefix : Option Bytes

unfoldable pub hash_option : HashSettings → Argument → Start HashSettings
hash_option s (c, optarg) =
    if c == b'h'
    then exit (pos 0)
    else if c == b't'
    then (if ltb 65 (length optarg)
        then exit (pos 0)
        else go (record s { bot_token = some optarg }))
    else if c == b'l'
    then go (record s { log_level = strtoul optarg })
    else if c == b'p'
    then go (record s { prefix = some optarg })
    else exit (pos 1)

-- Without a token the program ends; without a prefix it is `!hash`.
unfoldable pub hash_settled : HashSettings → Start HashSettings
hash_settled s = elim s.bot_token as (λ _. Start HashSettings) [
  | none ↦ exit (pos 0)
  | some token ↦ elim s.prefix as (λ _. Start HashSettings) [
    | none ↦ go (record s { prefix = some (text "!hash") })
    | some prefix ↦ go s
  ]
]

-- `main` up to the set-up.
unfoldable pub hash_start : ℕ → List Argument → Start HashSettings
unfolding read_all hash_option hash_settled
hash_start argc arguments =
    let initial : HashSettings = record { bot_token = none; log_level = 63; prefix = none } in
    let rest = and_then (read_all hash_option initial arguments) hash_settled in
    if argc == 1 then exit (pos 0) else rest

-- The pinging bot.
pub record PingSettings : Type 0 where
  pub bot_token : Option Bytes
  pub log_level : ℕ

unfoldable pub ping_option : PingSettings → Argument → Start PingSettings
ping_option s (c, optarg) =
    if c == b'h'
    then exit (pos 0)
    else if c == b't'
    then go (record s { bot_token = some optarg })
    else if c == b'l'
    then go (record s { log_level = strtoul optarg })
    else aborted

unfoldable pub ping_start : ℕ → List Argument → Start PingSettings
unfolding read_all ping_option
ping_start argc arguments =
    let initial : PingSettings = record { bot_token = none; log_level = 31 } in
    let rest =
      and_then (read_all ping_option initial arguments) (λ s. need_token (pos 1) s.bot_token s) in
    if argc == 1 then exit (pos 0) else rest

-- The posting bot.
pub record Post : Type 0 where
  pub bot_token : Option Bytes
  pub log_level : ℕ
  pub message : Option Bytes
  pub channel : ℕ

unfoldable pub post_option : Post → Argument → Start Post
post_option s (c, optarg) =
    if c == b'h'
    then exit (pos 0)
    else if c == b't'
    then (if ltb 65 (length optarg)
        then exit (pos 0)
        else go (record s { bot_token = some optarg }))
    else if c == b'l'
    then go (record s { log_level = strtoul optarg })
    else if c == b'm'
    then go (record s { message = some optarg })
    else if c == b'c'
    then go (record s { channel = strtoull optarg })
    else exit (pos 1)

-- `main` up to the tests of the message, the channel and the token.
unfoldable pub post_start : ℕ → List Argument → Start Post
unfolding read_all post_option
post_start argc arguments =
    let initial : Post = record { bot_token = none; log_level = 63; message = none; channel = 0 } in
    let rest = read_all post_option initial arguments in if argc == 1 then exit (pos 0) else rest
