-- ===== src/Bots/Hash.antt =====
-- The bot that hashes (example_bots/example-hash.c): `!hash md5 text` is answered with the digest.

pub mod Answers
pub mod Hex
pub mod Posted
pub mod Uncleared
pub mod Words
use libdiscord.Prelude.{
  ℕ, ◌+◌, ◌*◌, ◌/◌, ◌%◌, ◌-◌, ℤ, pos, Bool, true, false, not, Option, none, some, List, [], ◌∷◌,
  ◌++◌, Bytes, ◌==◌, ltb, leb, length, drop, if◌then◌else◌, Exec, fault, done, deref, within, ◌>>=◌,
  ◌>>◌, text, bytes_eq,
}
use libdiscord.Status.{code, ok, curl_err, is_ok}
use libdiscord.Stdlib.{strncmp_eq, skip_space, word}
use libdiscord.Message.{Message}
use libdiscord.Context.{Context, CallbackReason, CallbackData, message_create}
use libdiscord.Bots.{Surroundings, message_of, is_own, is_by_bot, answer}

-- What is used of OpenSSL and of memory.
pub record Digests : Type 0 where
  -- `EVP_get_digestbyname` and the digest of a text; `none` for an unknown name
  pub digest : Bytes → Option (Bytes → Bytes)
  -- the bytes that a new block of some size has
  pub malloc_text : ℕ → Bytes

-- Write bytes at the beginning of a block.
unfoldable pub overwrite : Bytes → Bytes → Exec Bytes
overwrite block [] = done block
overwrite [] (x ∷ xs) = fault
overwrite (b ∷ block) (x ∷ xs) = do rest ← overwrite block xs; done (x ∷ rest)

-- `strcat` on the bytes of a block: from its first NUL on, a text and a NUL are written.
unfoldable pub strcat : Bytes → Bytes → Exec Bytes
unfolding overwrite
strcat [] s = fault
strcat (c ∷ block) s =
    let further = strcat block s >>= λ rest. done (c ∷ rest) in
    if c == 0 then overwrite (c ∷ block) (s ++ (0 ∷ [])) else further

-- `%x` for a number below 16.
abbrev pub hex_digit : ℕ → ℕ
hex_digit n = if ltb n 10 then 48 + n else 87 + n

-- `sprintf(tmp, "%02x", byte)`
abbrev pub hex_byte : ℕ → Bytes
hex_byte b = hex_digit (b / 16 % 16) ∷ hex_digit (b % 16) ∷ []

-- The loop of `binary2hex`.
unfoldable pub append_hex : Bytes → Bytes → Exec Bytes
unfolding strcat
append_hex hex [] = done hex
append_hex hex (b ∷ buf) = strcat hex (hex_byte b) >>= λ hex'. append_hex hex' buf

-- The text in a block, up to its first NUL.
unfoldable pub c_string : Bytes → Exec Bytes
c_string [] = fault
c_string (c ∷ block) =
    let rest = c_string block >>= λ s. done (c ∷ s) in if c == 0 then done [] else rest

module _ (e : Digests) where
  -- `binary2hex`: the block is not cleared before the first `strcat`.
  unfoldable pub binary2hex : Bytes → Exec Bytes
  unfolding append_hex
  binary2hex buf = append_hex (e.malloc_text (length buf * 2 + 1)) buf

  -- `to_hash2` with the digest that was found: the text is read at its address, `none` for one that is
  -- not in the message.
  unfoldable pub hash_with : Option Bytes → Option (Bytes → Bytes) → Exec (Option Bytes)
  unfolding binary2hex
  hash_with input none = done none
  hash_with input (some hash) = do
    mess1 ← deref input
    hex ← binary2hex (hash mess1)
    done (some hex)

  -- `to_hash2`
  unfoldable pub to_hash2 : Option Bytes → Bytes → Exec (Option Bytes)
  unfolding hash_with
  to_hash2 input hashfun = hash_with input (e.digest hashfun)

-- The text at some distance from the start of another, within the text and its NUL.
abbrev pub text_at : Bytes → ℕ → Option Bytes
text_at s n = if leb n (length s) then some (drop n s) else none

-- `bot_exit` and `target_channel`
pub record Globals : Type 0 where
  pub bot_exit : Bool
  pub target_channel : ℕ

module _ {J R : Type 0} (s : Surroundings J) (e : Digests) (trigger : Bytes) where
  -- `to_hash` after the name of the digest was found; `head` is behind the space. An unknown digest is
  -- answered with a text that is printed into `char tmp[100]`.
  unfoldable pub hash_named :
      Globals → Context R → Message → Bytes → Bytes → Exec (Option Bytes × Globals × Context R)
  unfolding to_hash2 answer
  hash_named g c m head hash_function = do
    let noted = record g { target_channel = m.channel_id }
    hashed ← to_hash2 e (text_at head (length hash_function + 1)) hash_function
    let reply = text "invalid hash function (" ++ hash_function ++ text ")"
    let complain = do
      (_, c') ← within (ltb (length reply) 100) >> answer s c m.channel_id reply
      done (none, noted, c')
    elim hashed as (λ _. Exec (Option Bytes × Globals × Context R)) [
      | none ↦ complain
      | some hex ↦ done (some hex, noted, c)
    ]

  -- The word that `sscanf` found, if any.
  unfoldable pub hash_found :
      Globals → Context R → Message → Bytes → Bytes → Exec (Option Bytes × Globals × Context R)
  unfolding hash_named
  hash_found g c m head hash_function =
      let named = hash_named g c m head hash_function in
      if length hash_function == 0 then done (none, g, c) else named

  -- `to_hash` from the space on: `sscanf` skips white space and takes a word.
  unfoldable pub hash_words :
      Globals → Context R → Message → Bytes → Exec (Option Bytes × Globals × Context R)
  unfolding hash_found
  hash_words g c m [] = done (none, g, c)
  hash_words g c m (space ∷ head) =
      let go_on = hash_found g c m head (word (skip_space head)) in
      if space == 32 then go_on else done (none, g, c)

  -- `to_hash`
  unfoldable pub to_hash : Globals → Context R → Message → Exec (Option Bytes × Globals × Context R)
  unfolding hash_words
  to_hash g c m = do
    content ← deref m.content
    let go_on = hash_words g c m (drop (length trigger) content)
    if ltb (length content) (length trigger + 4)
        then done (none, g, c)
        else if strncmp_eq content trigger
        then go_on
        else done (none, g, c)

  -- The hash is sent, and a failure is reported.
  unfoldable pub send_hash : Context R → Message → Option Bytes → Exec (ℤ × Context R)
  unfolding answer
  send_hash c m none = done (code ok, c)
  send_hash c m (some hash) = do
    shown ← c_string hash
    (ret, c') ← answer s c m.channel_id shown
    done (if is_ok ret then code ok else code curl_err, c')

  -- A message with a text.
  unfoldable pub attend : Globals → Context R → Message → Bytes → Exec (ℤ × Globals × Context R)
  unfolding to_hash send_hash
  attend g c m content =
      let hash = do
        own ← is_own c m
        by_bot ← is_by_bot m
        let go_on = do
          (hashed, g', c') ← to_hash g c m
          (ret, c'') ← send_hash c' m hashed
          done (ret, g', c'')
        if own then done (code ok, g, c) else if by_bot then done (code ok, g, c) else go_on
      in if bytes_eq content (text "hcf")
        then done (code ok, record { bot_exit = true; target_channel = m.channel_id }, c)
        else hash

  -- A message.
  unfoldable pub judge : Globals → Context R → Message → Exec (ℤ × Globals × Context R)
  unfolding attend
  judge g c m = elim m.content as (λ _. Exec (ℤ × Globals × Context R)) [
    | none ↦ done (code ok, g, c)
    | some content ↦ attend g c m content
  ]

  -- `callback`
  unfoldable pub callback :
      Globals → Context R → CallbackReason → CallbackData J → ℕ → Exec (ℤ × Globals × Context R)
  unfolding judge message_of
  callback g c message_create d len = message_of s d >>= judge g c
  callback g c _ d len = done (code ok, g, c)
