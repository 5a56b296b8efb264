-- ===== src/Tests/Identities.antt =====
-- The theorem on IDENTIFY, at a concrete one.
use libdiscord.Prelude.{◌≡◌, refl, pos, false, none, some, [], ◌∷◌, ◌++◌, text, done, fault, arith}
use libdiscord.Jansson.Tree.{Tree, integer, string, null, boolean, array, cons, nil, tree_laws}
use libdiscord.Snowflake.{snowflake2str}
use libdiscord.Identify.{
  Identify, StatusUpdate, dnd, status2str, unpack_properties, unpack_identify, memory_bytes,
  number_bytes,
}
use libdiscord.Identify.Entries.{Texts, base_entries, identify_entries}
use libdiscord.Identify.Presence.{identify_presence}
use libdiscord.Identify.Roles.{identify_roles_faults}
use libdiscord.Tests.Base.{json_of}

abbrev plain_identify : Identify
plain_identify = record {
  token = some (1 ∷ []);
  properties =
      some (record { os = some (4 ∷ []); browser = some (3 ∷ []); device = some (2 ∷ []) });
  compress = false;
  large_threshold = pos 250;
  shard_id = pos 0;
  shard_count = pos 0;
  status_update = none;
}

abbrev plain_texts :
    Texts (json_of null) (tree_laws (λ s. some null) (λ t. some (7 ∷ []))) plain_identify
plain_texts = record {
  token = 1 ∷ [];
  os = 4 ∷ [];
  device = 2 ∷ [];
  browser = 3 ∷ [];
  t = string (1 ∷ []);
  o = string (4 ∷ []);
  d = string (2 ∷ []);
  b = string (3 ∷ []);
  p = record { os = some (4 ∷ []); browser = some (3 ∷ []); device = some (2 ∷ []) };
  has_token = refl;
  has_properties = refl;
  has_os = refl;
  has_device = refl;
  has_browser = refl;
  token_text = refl;
  os_text = refl;
  device_text = refl;
  browser_text = refl;
}

identify_entries_example :
    (v : Tree) × (unpack_identify (json_of null) plain_identify ≡ done (some v))
    × ((json_of null).entries v
        ≡ (text "token", string (1 ∷ []))
          ∷ (text "properties", unpack_properties (json_of null) plain_texts.p)
          ∷ (text "compress", boolean false)
          ∷ (text "large_threshold", integer (pos 250))
          ∷ (text "shard", array (cons (integer (pos 0)) (cons (integer (pos 0)) nil)))
          ∷ [])
    × ((json_of null).entries (unpack_properties (json_of null) plain_texts.p)
        ≡ (text "$os", string (4 ∷ []))
          ∷ (text "$device", string (2 ∷ []))
          ∷ (text "$browser", string (3 ∷ []))
          ∷ [])
identify_entries_example =
    identify_entries (json_of null) (tree_laws (λ s. some null) (λ t. some (7 ∷ []))) plain_identify
      plain_texts refl

-- A presence with a game.
abbrev playing : StatusUpdate
playing = record {
  roles = none;
  game = some (record { name = 5 ∷ []; type = 0; url = none });
  guild_id = 42;
  status = dnd;
  since = pos 0;
  afk = false;
}

abbrev playing_identify : Identify
playing_identify = record plain_identify { status_update = some playing }

abbrev playing_texts :
    Texts (json_of null) (tree_laws (λ s. some null) (λ t. some (7 ∷ []))) playing_identify
playing_texts = record {
  token = 1 ∷ [];
  os = 4 ∷ [];
  device = 2 ∷ [];
  browser = 3 ∷ [];
  t = string (1 ∷ []);
  o = string (4 ∷ []);
  d = string (2 ∷ []);
  b = string (3 ∷ []);
  p = record { os = some (4 ∷ []); browser = some (3 ∷ []); device = some (2 ∷ []) };
  has_token = refl;
  has_properties = refl;
  has_os = refl;
  has_device = refl;
  has_browser = refl;
  token_text = refl;
  os_text = refl;
  device_text = refl;
  browser_text = refl;
}

identify_presence_example :
    (object : Tree) × (su : Tree) × (unpack_identify (json_of null) playing_identify
      ≡ done (some object))
    × ((json_of null).entries object
        ≡ base_entries
            (json_of null)
            (tree_laws (λ s. some null) (λ t. some (7 ∷ [])))
            playing_identify
            (string (1 ∷ []))
            (unpack_properties (json_of null) playing_texts.p)
          ++ ((text "presence", su) ∷ []))
    × ((json_of null).entries su
        ≡ (text "user", string (snowflake2str 42)) ∷ (text "status", string (text "dnd")) ∷ [])
unfolding status2str
identify_presence_example =
    identify_presence (json_of null) (tree_laws (λ s. some null) (λ t. some (7 ∷ [])))
      playing_identify playing_texts playing (string (snowflake2str 42)) (string (text "dnd")) refl
      refl refl refl

-- One role, whose two lowest bytes are 2 and 1.
abbrev with_role : StatusUpdate
with_role = record playing { roles = some (258 ∷ []) }

identify_roles_faults_example :
    unpack_identify (json_of null) (record plain_identify { status_update = some with_role })
    ≡ fault
unfolding memory_bytes number_bytes
identify_roles_faults_example =
    identify_roles_faults (json_of null) (record plain_identify { status_update = some with_role })
      (1 ∷ []) (record { os = some (4 ∷ []); browser = some (3 ∷ []); device = some (2 ∷ []) })
      with_role (258 ∷ []) refl refl refl refl (omega arith, (omega arith, tt))
