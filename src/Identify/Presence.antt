-- ===== src/Identify/Presence.antt =====
-- The presence in IDENTIFY.
use libdiscord.Prelude.{
  ◌≡◌, refl, ap, ◌∙◌, Option, none, some, [], ◌∷◌, ◌++◌, text, bytes_eq, done, ◌>>=◌,
}
use libdiscord.Jansson.{Jansson, BuildLaws, object_put}
use libdiscord.Snowflake.{snowflake2str}
use libdiscord.Identify.{
  Identify, StatusUpdate, Activity, unpack_properties, put_presence, put_game, put_roles,
  dump_activity, unpack_status_update, unpack_identify, status2str,
}
use libdiscord.Identify.Entries.{Built-object, Built-put, Texts, base_entries, object_entries}

module _ {J : Type 0} (j : Jansson J) (laws : BuildLaws j) where
  game_dropped : (game : Option Activity) (su : J) → put_game j game su ≡ su
  unfolding put_game dump_activity
  game_dropped none su = refl
  game_dropped (some g) su = refl

  status_entries :
      (s : StatusUpdate) (u t : J)
      → s.roles ≡ none
      → j.string (snowflake2str s.guild_id) ≡ some u
      → j.string (status2str s.status) ≡ some t
      → (su : J) × (unpack_status_update j s ≡ done su)
        × (j.entries su ≡ (text "user", u) ∷ (text "status", t) ∷ [])
  unfolding unpack_status_update put_roles text bytes_eq
  status_entries s u t no_roles guild_text status_text =
      let built =
        Built-put j laws _ _ (text "status") (j.string (status2str s.status)) t
          (Built-put j laws j.object [] (text "user") (j.string (snowflake2str s.guild_id)) u
            (Built-object j laws) guild_text refl)
          status_text refl in
      (_, rw no_roles (rw (game_dropped s.game)), built.1)

  -- With a presence without roles, and texts that are valid UTF-8: the IDENTIFY object has its five other
  -- entries and then the presence, and the presence has the guild's number as `user` and the status, in
  -- this order, and nothing else, also where the presence has a game.
  pub identify_presence :
      (i : Identify) (x : Texts j laws i) (s : StatusUpdate) (u t : J)
      → i.status_update ≡ some s
      → s.roles ≡ none
      → j.string (snowflake2str s.guild_id) ≡ some u
      → j.string (status2str s.status) ≡ some t
      → (object : J) × (su : J) × (unpack_identify j i ≡ done (some object))
        × (j.entries object
            ≡ base_entries j laws i x.t (unpack_properties j x.p) ++ ((text "presence", su) ∷ []))
        × (j.entries su ≡ (text "user", u) ∷ (text "status", t) ∷ [])
  unfolding put_presence text bytes_eq
  identify_presence i x s u t has_presence no_roles guild_text status_text =
      let (base, made, built) =
        object_entries j laws i x.token x.p x.t x.has_token x.has_properties x.token_text in
      let (su, unpacked, entries) = status_entries s u t no_roles guild_text status_text in
      let whole = Built-put j laws base _ (text "presence") (some su) su built refl refl in
      (
        _,
        su,
        made
            ∙ ap (λ p. put_presence j p base >>= λ y. done (some y)) has_presence
            ∙ ap
                (λ m. m >>= (λ v. done (object_put j base (text "presence") (some v))) >>= λ y.
                  done (some y))
                unpacked,
        whole.1,
        entries,
      )
