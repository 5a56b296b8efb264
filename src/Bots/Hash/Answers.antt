-- ===== src/Bots/Hash/Answers.antt =====
-- What the hashing bot answers, and the messages that it does not survive.
use libdiscord.Prelude.{
  ℕ, suc, ◌+◌, ◌*◌, ◌≤◌, ◌≡◌, refl, ap, ◌∙◌, ℤ, false, none, some, ◌∷◌, ◌++◌, Bytes, length,
  if◌then◌else◌, Exec, fault, done, ◌>>=◌, text, bytes_eq, arith, length-append, drop-append,
  ltb-false, ==_ne, >>=-eq-done,
}
use libdiscord.Status.{code, ok, curl_err, is_ok}
use libdiscord.Stdlib.{skip_space, word}
use libdiscord.Stdlib.Prefix.{Solid, strncmp_eq-append}
use libdiscord.Message.{Message, message_init, pack_message}
use libdiscord.Context.{Context, json, message_create}
use libdiscord.Bots.{Surroundings, message_of, answer}
use libdiscord.Bots.Sender.{Known, Foreign, is_own-Foreign, is_by_bot-Foreign}
use libdiscord.Bots.Hash.{
  Digests, Globals, binary2hex, hash_with, to_hash2, text_at, c_string, hash_named, hash_words,
  hash_found, to_hash, send_hash, attend, judge, callback,
}
use libdiscord.Bots.Hash.Hex.{hex_text, binary2hex_cleared}
use libdiscord.Bots.Hash.Words.{
  first_word, only_word, text_at-input, length-complaint, status_last, text_at-end,
}

module _ {J R : Type 0} (s : Surroundings J) (e : Digests) (trigger : Bytes) where
  -- A message that the bot reads for a command: `command` is what follows the trigger and a space.
  pub record IsCommand (c : Context R) (m : Message) (command : Bytes) : Type 0 where
    pub known : Known c m
    pub foreign : Foreign c m known
    pub has_content : m.content ≡ some (trigger ++ (32 ∷ command))
    pub no_halt : bytes_eq (trigger ++ (32 ∷ command)) (text "hcf") ≡ false
    pub long_enough : 3 ≤ length command

  to_hash-IsCommand :
      (g : Globals) (c : Context R) (m : Message) (command : Bytes)
      → IsCommand c m command
      → to_hash s e trigger g c m ≡ hash_words s e trigger g c m (32 ∷ command)
  unfolding to_hash
  to_hash-IsCommand g c m command is =
      rw
        (
          is.has_content,
          ltb-false (length (trigger ++ (32 ∷ command))) (length trigger + 4)
              (omega (arith, length-append trigger (32 ∷ command), is.long_enough)),
          strncmp_eq-append trigger (32 ∷ command),
          drop-append trigger (32 ∷ command),
        )
        refl

  -- The callback on a command: the hash is made, and sent.
  abbrev pub carried_out : Globals → Context R → Message → Bytes → Exec (ℤ × Globals × Context R)
  carried_out g c m command = do
    (hashed, g', c') ← hash_words s e trigger g c m (32 ∷ command)
    (ret, c'') ← send_hash s e trigger c' m hashed
    done (ret, g', c'')

  attend-IsCommand :
      (g : Globals) (c : Context R) (m : Message) (command : Bytes)
      → IsCommand c m command
      → attend s e trigger g c m (trigger ++ (32 ∷ command)) ≡ carried_out g c m command
  unfolding attend
  attend-IsCommand g c m command is =
      rw
        (
          is.no_halt,
          is_own-Foreign c m is.known is.foreign,
          is_by_bot-Foreign c m is.known is.foreign,
          to_hash-IsCommand g c m command is,
        )
        refl

  judge-IsCommand :
      (g : Globals) (c : Context R) (m : Message) (command : Bytes)
      → IsCommand c m command
      → judge s e trigger g c m ≡ carried_out g c m command
  unfolding judge
  judge-IsCommand g c m command is =
      ap
        (λ o. elim o as (λ _. Exec (ℤ × Globals × Context R)) [
          | none ↦ done (code ok, g, c)
          | some content ↦ attend s e trigger g c m content
        ])
        is.has_content
      ∙ attend-IsCommand g c m command is

  -- The word after the space.
  hash_words-word :
      (g : Globals) (c : Context R) (m : Message) (head : Bytes) (x : ℕ) (name : Bytes)
      → word (skip_space head) ≡ x ∷ name
      → hash_words s e trigger g c m (32 ∷ head) ≡ hash_named s e trigger g c m head (x ∷ name)
  unfolding hash_words hash_found
  hash_words-word g c m head x name found =
      ap (hash_found s e trigger g c m head) found
      ∙ rw (==_ne (suc (length name)) 0 (omega arith)) refl

  -- A digest that is known and a text in the message.
  hash_named-hash :
      (g : Globals) (c : Context R) (m : Message) (head name input block : Bytes)
      (hash : Bytes → Bytes)
      → e.digest name ≡ some hash
      → text_at head (length name + 1) ≡ some input
      → binary2hex e (hash input) ≡ done block
      → hash_named s e trigger g c m head name
        ≡ done (some block, record g { target_channel = m.channel_id }, c)
  unfolding hash_named to_hash2 hash_with
  hash_named-hash g c m head name input block hash known_digest found made =
      rw (to_hash2, known_digest, found, made) refl

  hash_named-past_end :
      (g : Globals) (c : Context R) (m : Message) (head name : Bytes) (hash : Bytes → Bytes)
      → e.digest name ≡ some hash
      → text_at head (length name + 1) ≡ none
      → hash_named s e trigger g c m head name ≡ fault
  unfolding hash_named to_hash2 hash_with
  hash_named-past_end g c m head name hash known_digest past =
      rw (to_hash2, known_digest, past) refl

  hash_named-long :
      (g : Globals) (c : Context R) (m : Message) (head name : Bytes)
      → e.digest name ≡ none
      → 76 ≤ length name
      → hash_named s e trigger g c m head name ≡ fault
  unfolding hash_named to_hash2 hash_with text
  hash_named-long g c m head name no_digest long =
      rw
        (
          to_hash2,
          no_digest,
          ltb-false (length (text "invalid hash function (" ++ (name ++ text ")"))) 100
              (length-complaint name long),
        )
        refl

  -- A command with the name of a digest, one space and a text, where the memory of the new block starts
  -- with a NUL: the hexadecimal digits of the digest of the text are sent to the message's channel, which
  -- is kept for the farewell; the result says whether that succeeded.
  pub callback_hashes :
      (g : Globals) (c : Context R) (v : J) (len x : ℕ) (name input rest : Bytes)
      (hash : Bytes → Bytes)
      → IsCommand c
          (pack_message s.jansson s.malloc_user message_init v)
          ((x ∷ name) ++ (32 ∷ input))
      → Solid (x ∷ name)
      → e.digest (x ∷ name) ≡ some hash
      → e.malloc_text (length (hash input) * 2 + 1) ≡ 0 ∷ rest
      → length rest ≡ length (hash input) * 2
      → callback s e trigger g c message_create (json (some v)) len ≡ (
          answer s c
            (pack_message s.jansson s.malloc_user message_init v).channel_id
            (hex_text (hash input))
          >>= λ (ret, c'). done (
            if is_ok ret then code ok else code curl_err,
            record g {
              target_channel = (pack_message s.jansson s.malloc_user message_init v).channel_id;
            },
            c',
          ))
  unfolding callback message_of send_hash
  callback_hashes g c v len x name input rest hash is solid known_digest cleared size =
      let m = pack_message s.jansson s.malloc_user message_init v in
      let head = (x ∷ name) ++ (32 ∷ input) in
      let (block, made, read) =
        >>=-eq-done (binary2hex e (hash input)) c_string
          (binary2hex_cleared e (hash input) rest cleared size) in
      let hashed =
        hash_words-word g c m head x name (first_word x name input solid)
        ∙ hash_named-hash g c m head (x ∷ name) input block hash known_digest
            (text_at-input (x ∷ name) input) made in
      judge-IsCommand g c m head is
      ∙ rw (hashed, read)
          (status_last (answer s c m.channel_id (hex_text (hash input)))
            (record g { target_channel = m.channel_id }))

  -- A command of at least three characters that is only the name of a digest, in a message of another user who
  -- is no bot, is read past its end.
  pub callback_no_text_faults :
      (g : Globals) (c : Context R) (v : J) (len x : ℕ) (name : Bytes) (hash : Bytes → Bytes)
      → IsCommand c (pack_message s.jansson s.malloc_user message_init v) (x ∷ name)
      → Solid (x ∷ name)
      → e.digest (x ∷ name) ≡ some hash
      → callback s e trigger g c message_create (json (some v)) len ≡ fault
  unfolding callback message_of
  callback_no_text_faults g c v len x name hash is solid known_digest =
      let m = pack_message s.jansson s.malloc_user message_init v in
      let past =
        hash_words-word g c m (x ∷ name) x name (only_word x name solid)
        ∙ hash_named-past_end g c m (x ∷ name) (x ∷ name) hash known_digest
            (text_at-end (x ∷ name)) in
      judge-IsCommand g c m (x ∷ name) is ∙ rw past refl

  -- A command with the name of no digest, of 76 characters or more, is printed past the end of `tmp`.
  pub callback_long_name_faults :
      (g : Globals) (c : Context R) (v : J) (len x : ℕ) (name input : Bytes)
      → IsCommand c
          (pack_message s.jansson s.malloc_user message_init v)
          ((x ∷ name) ++ (32 ∷ input))
      → Solid (x ∷ name)
      → e.digest (x ∷ name) ≡ none
      → 76 ≤ length (x ∷ name)
      → callback s e trigger g c message_create (json (some v)) len ≡ fault
  unfolding callback message_of
  callback_long_name_faults g c v len x name input is solid no_digest long =
      let m = pack_message s.jansson s.malloc_user message_init v in
      let head = (x ∷ name) ++ (32 ∷ input) in
      let past =
        hash_words-word g c m head x name (first_word x name input solid)
        ∙ hash_named-long g c m head (x ∷ name) no_digest long in
      judge-IsCommand g c m head is ∙ rw past refl
