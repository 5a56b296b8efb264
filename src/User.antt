-- ===== src/User.antt =====
-- `struct ld_json_user` and the reading of one from JSON (lib/json.h, lib/json.c).
pub mod Load
use libdiscord.Prelude.{
  ℕ, ℤ, pos, Bool, Option, none, some, List, [], ◌∷◌, Bytes, text, bytes_eq, if◌then◌else◌,
}
use libdiscord.Stdlib.{strtoull}
use libdiscord.Jansson.{Jansson}

-- `none` is a null `char *`.
pub record User : Type 0 where
  pub id : ℕ  -- uint64_t
  pub username : Option Bytes
  pub discriminator : Option Bytes
  pub avatar : Option Bytes
  pub bot : Bool
  pub mfa_enabled : Bool
  pub locale : Option Bytes
  pub verified : Bool
  pub email : Option Bytes

-- `ld_json_user_init` sets four of the pointers and nothing else.
unfoldable pub user_init : User → User
user_init u = record u { username = none; discriminator = none; avatar = none; locale = none }

-- `if(tmp != NULL) field = strdup(tmp)`
abbrev pub or_keep : Option Bytes → Option Bytes → Option Bytes
or_keep none old = old
or_keep (some s) old = some s

-- `if(tmp != NULL) id = strtoull(tmp)`
abbrev pub number_or_keep : Option Bytes → ℕ → ℕ
number_or_keep none old = old
number_or_keep (some s) old = strtoull s

module _ {J : Type 0} (j : Jansson J) where
  -- One round of the loop: every test is made.
  unfoldable pub load_entry : User → Bytes → J → User
  load_entry u key value =
      let is = λ (name : Bytes). bytes_eq key name in
      let str = j.string_value value in
      let flag = j.boolean_value value in
      record {
        id = if is (text "id") then number_or_keep str u.id else u.id;
        username = if is (text "username") then or_keep str u.username else u.username;
        discriminator =
            if is (text "discriminator") then or_keep str u.discriminator else u.discriminator;
        avatar = if is (text "avatar") then or_keep str u.avatar else u.avatar;
        bot = if is (text "bot") then flag else u.bot;
        mfa_enabled = if is (text "mfa_enabled") then flag else u.mfa_enabled;
        -- a locale that is no string is cleared
        locale = if is (text "locale") then str else u.locale;
        verified = if is (text "verified") then flag else u.verified;
        email = if is (text "email") then or_keep str u.email else u.email;
      }

  -- The loop of `ld_json_load_user`.
  unfoldable pub load_entries : User → List (Bytes × J) → User
  load_entries u [] = u
  load_entries u ((key, value) ∷ es) = load_entries (load_entry u key value) es

  -- `ld_json_load_user`
  unfoldable pub load_user : User → J → ℤ × User
  unfolding load_entries
  load_user new_user user = (pos 0, load_entries new_user (j.entries user))
