-- ===== src/Message/Load.antt =====
-- What `ld_json_pack_message` reads.
use libdiscord.Prelude.{◌≡◌, refl, ◌∙◌, Option, List, [], ◌∷◌, Bytes, text}
use libdiscord.Jansson.{Jansson, lookup}
use libdiscord.Jansson.Fields.{Distinct, field_loop, field_of, field_loop-lookup}
use libdiscord.User.{User, or_keep, number_or_keep}
use libdiscord.Message.{Message, int_or_keep, load_author, pack_entry, pack_entries, pack_message}

module _ {J : Type 0} (j : Jansson J) (malloc_user : Option User) where
  -- The message that each way to read a field from its key gives; the other fields stay.
  abbrev message_by : Message → ((A : Type 0) → Bytes → (J → A → A) → A → A) → Message
  message_by m read = record m {
    content = read _ (text "content") (λ v. or_keep (j.string_value v)) m.content;
    channel_id = read _ (text "channel_id") (λ v. number_or_keep (j.string_value v)) m.channel_id;
    id = read _ (text "id") (λ v. number_or_keep (j.string_value v)) m.id;
    type = read _ (text "type") (λ v. int_or_keep (j.string_value v)) m.type;
    author = read _ (text "author") (λ v _. load_author j malloc_user v) m.author;
  }

  -- The message that `get`, a look-up of keys, describes.
  abbrev pub read_message : Message → (Bytes → Option J) → Message
  read_message m get = message_by m (λ A name write a. field_of j write a (get name))

  pack_entries-loops :
      (m : Message) (es : List (Bytes × J))
      → pack_entries j malloc_user m es
        ≡ message_by m (λ A name write a. field_loop j name write a es)
  unfolding pack_entries pack_entry field_loop
  pack_entries-loops m [] = refl
  pack_entries-loops m ((key, value) ∷ es) =
      pack_entries-loops (pack_entry j malloc_user m key value) es

  -- Over an object with distinct keys, `content`, `channel_id`, `id` and `type` come from the strings
  -- under their keys, and are kept where there is none; `author` is the new block loaded from its key;
  -- every other field is kept.
  pub pack_message-read_message :
      (m : Message) (obj : J)
      → Distinct j (j.entries obj)
      → pack_message j malloc_user m obj ≡ read_message m (λ key. lookup j key (j.entries obj))
  unfolding pack_message
  pack_message-read_message m obj d = pack_entries-loops m (j.entries obj) ∙ λ i.
      message_by m (λ A name write a. field_loop-lookup j name write a (j.entries obj) d i)
