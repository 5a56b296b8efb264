-- ===== src/User/Load.antt =====
-- What `ld_json_load_user` reads: each field from its own key, in whatever order the keys come.
use libdiscord.Prelude.{pos, ◌≡◌, refl, ap, ◌∙◌, Option, List, [], ◌∷◌, Bytes, text}
use libdiscord.Jansson.{Jansson, lookup}
use libdiscord.Jansson.Fields.{Distinct, field_loop, field_of, field_loop-lookup}
use libdiscord.User.{User, or_keep, number_or_keep, load_entry, load_entries, load_user}

module _ {J : Type 0} (j : Jansson J) where
  abbrev keep_string : J → Option Bytes → Option Bytes
  keep_string v = or_keep (j.string_value v)

  -- The user that each way to read a field from its key gives.
  abbrev user_by : User → ((A : Type 0) → Bytes → (J → A → A) → A → A) → User
  user_by u read = record {
    id = read _ (text "id") (λ v. number_or_keep (j.string_value v)) u.id;
    username = read _ (text "username") keep_string u.username;
    discriminator = read _ (text "discriminator") keep_string u.discriminator;
    avatar = read _ (text "avatar") keep_string u.avatar;
    bot = read _ (text "bot") (λ v _. j.boolean_value v) u.bot;
    mfa_enabled = read _ (text "mfa_enabled") (λ v _. j.boolean_value v) u.mfa_enabled;
    locale = read _ (text "locale") (λ v _. j.string_value v) u.locale;
    verified = read _ (text "verified") (λ v _. j.boolean_value v) u.verified;
    email = read _ (text "email") keep_string u.email;
  }

  -- The user that `get`, a look-up of keys, describes.
  abbrev pub read_user : User → (Bytes → Option J) → User
  read_user u get = user_by u (λ A name write a. field_of j write a (get name))

  load_entries-loops :
      (u : User) (es : List (Bytes × J))
      → load_entries j u es ≡ user_by u (λ A name write a. field_loop j name write a es)
  unfolding load_entries load_entry field_loop
  load_entries-loops u [] = refl
  load_entries-loops u ((key, value) ∷ es) = load_entries-loops (load_entry j u key value) es

  -- Over an object with distinct keys the loop gives each field the value of its own key, wherever the
  -- key stands: a string or number whose key is missing or holds no string is kept, a boolean is
  -- replaced by any value, and a locale that is no string is cleared. The status is 0.
  pub load_user-read_user :
      (u : User) (obj : J)
      → Distinct j (j.entries obj)
      → load_user j u obj ≡ (pos 0, read_user u (λ key. lookup j key (j.entries obj)))
  unfolding load_user
  load_user-read_user u obj d =
      ap (λ r. (pos 0, r))
        (load_entries-loops u (j.entries obj) ∙ λ i.
          user_by u (λ A name write a. field_loop-lookup j name write a (j.entries obj) d i))
