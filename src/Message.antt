-- ===== src/Message.antt =====
-- `struct ld_json_message` and the reading of one from JSON (lib/json.h, lib/json.c).
pub mod Load
use libdiscord.Prelude.{
  ℕ, ℤ, pos, Bool, false, Option, none, some, List, [], ◌∷◌, Bytes, text, bytes_eq, if◌then◌else◌,
  to_int,
}
use libdiscord.Stdlib.{strtol}
use libdiscord.Jansson.{Jansson}
use libdiscord.User.{User, or_keep, number_or_keep, load_user}

-- The address of an array or structure that this code never fills.
abbrev pub Address : Type 0
Address = ℕ

pub record Message : Type 0 where
  pub id : ℕ  -- uint64_t
  pub channel_id : ℕ  -- uint64_t
  pub author : Option User
  pub content : Option Bytes
  pub timestamp : Option Bytes
  pub edited_timestamp : Option Bytes
  pub tts : Bool
  pub mention_everyone : Bool
  pub mentions : Option Address
  pub mention_roles : Option Address
  pub attachments : Option Address
  pub embeds : Option Address
  pub reactions : Option Address
  pub webhook_id : ℕ  -- uint64_t
  pub type : ℤ  -- int
  pub activity : Option Address
  pub application : Option Address

-- `ld_json_message_init`; its result 0 is the same on every path.
unfoldable pub message_init : Message
message_init = record {
  id = 0;
  channel_id = 0;
  author = none;
  content = none;
  timestamp = none;
  edited_timestamp = none;
  tts = false;
  mention_everyone = false;
  mentions = none;
  mention_roles = none;
  attachments = none;
  embeds = none;
  reactions = none;
  webhook_id = 0;
  type = pos 0;
  activity = none;
  application = none;
}

-- `if(tmp != NULL) type = (int) strtol(tmp, NULL, 10)`
abbrev pub int_or_keep : Option Bytes → ℤ → ℤ
int_or_keep none old = old
int_or_keep (some s) old = to_int (strtol s)

-- `malloc_user` is the block that `malloc` gives for the author, with whatever bytes it holds, or
-- `none` for NULL.
module _ {J : Type 0} (j : Jansson J) (malloc_user : Option User) where
  -- The author is a new block, which the user object is loaded into.
  unfoldable pub load_author : J → Option User
  load_author value = elim malloc_user [ none ↦ none | some u ↦ some (load_user j u value).1 ]

  -- One round of the loop.
  unfoldable pub pack_entry : Message → Bytes → J → Message
  unfolding load_author
  pack_entry m key value =
      let is = λ (name : Bytes). bytes_eq key name in
      let str = j.string_value value in
      record m {
        content = if is (text "content") then or_keep str m.content else m.content;
        channel_id =
            if is (text "channel_id") then number_or_keep str m.channel_id else m.channel_id;
        id = if is (text "id") then number_or_keep str m.id else m.id;
        type = if is (text "type") then int_or_keep str m.type else m.type;
        author = if is (text "author") then load_author value else m.author;
      }

  -- The loop of `ld_json_pack_message`.
  unfoldable pub pack_entries : Message → List (Bytes × J) → Message
  pack_entries m [] = m
  pack_entries m ((key, value) ∷ es) = pack_entries (pack_entry m key value) es

  -- `ld_json_pack_message`; it returns a null pointer on every path, so only the message is a result.
  unfoldable pub pack_message : Message → J → Message
  unfolding pack_entries
  pack_message new_message message = pack_entries new_message (j.entries message)
