-- ===== src/Identify.antt =====
-- The IDENTIFY object and its parts, and their conversion to JSON (lib/json.h, lib/json.c).
pub mod Entries
pub mod Presence
pub mod Roles
use libdiscord.Prelude.{
  ℕ, zero, suc, ◌+◌, ◌/◌, ◌%◌, ℤ, Bool, Option, none, some, List, [], ◌∷◌, ◌++◌, Bytes, text,
  if◌then◌else◌, ◌==◌, get_elem?, Exec, fault, done, deref, ◌>>=◌,
}
use libdiscord.Jansson.{Jansson, object_put}
use libdiscord.Snowflake.{snowflake2str}

-- `enum ld_json_status_type`
pub data StatusType : Type 0 where
  idle dnd online offline invisible : StatusType

-- `ld_json_status2str`
unfoldable pub status2str : StatusType → Bytes
status2str idle = text "idle"
status2str dnd = text "dnd"
status2str online = text "online"
status2str offline = text "offline"
status2str invisible = text "invisible"

-- The part of `struct ld_json_activity` that callers fill.
pub record Activity : Type 0 where
  pub name : Bytes
  pub type : ℕ
  pub url : Option Bytes

-- `struct ld_json_status_update`; `roles` is the readable memory of 64-bit numbers at the pointer.
pub record StatusUpdate : Type 0 where
  pub roles : Option (List ℕ)
  pub game : Option Activity
  pub guild_id : ℕ
  pub status : StatusType
  pub since : ℤ
  pub afk : Bool

-- `struct ld_json_identify_connection_properties`
pub record ConnectionProperties : Type 0 where
  pub os : Option Bytes
  pub browser : Option Bytes
  pub device : Option Bytes

-- `struct ld_json_identify`
pub record Identify : Type 0 where
  pub token : Option Bytes
  pub properties : Option ConnectionProperties
  pub compress : Bool
  pub large_threshold : ℤ
  pub shard_id : ℤ
  pub shard_count : ℤ
  pub status_update : Option StatusUpdate

-- LD_LIBNAME, from the name of the project in CMakeLists.txt.
unfoldable pub libname : Bytes
libname = text "libdiscord"

-- The eight bytes of a 64-bit number in memory, lowest first.
unfoldable pub number_bytes : ℕ → Bytes
number_bytes n =
    n % 256
    ∷ n / 256 % 256
    ∷ n / 256 / 256 % 256
    ∷ n / 256 / 256 / 256 % 256
    ∷ n / 256 / 256 / 256 / 256 % 256
    ∷ n / 256 / 256 / 256 / 256 / 256 % 256
    ∷ n / 256 / 256 / 256 / 256 / 256 / 256 % 256
    ∷ n / 256 / 256 / 256 / 256 / 256 / 256 / 256 % 256
    ∷ []

unfoldable pub memory_bytes : List ℕ → Bytes
unfolding number_bytes
memory_bytes [] = []
memory_bytes (n ∷ ns) = number_bytes n ++ memory_bytes ns

-- `strlen` of readable memory: a fault if no NUL is found in it.
strlen : Bytes → Exec ℕ
strlen [] = fault
strlen (c ∷ s) = let rest = strlen s >>= (λ n. done (suc n)) in if c == 0 then done 0 else rest

module _ {J : Type 0} (j : Jansson J) where
  -- `json_object_set(o, key, json_string(s))`
  abbrev pub put_string : J → Bytes → Bytes → J
  put_string o key s = object_put j o key (j.string s)

  -- The loop over the roles, from index `i` for `n` rounds: `json_string` may give NULL, and appending
  -- NULL changes nothing.
  append_roles : ℕ → ℕ → List ℕ → J → Exec J
  append_roles zero i roles arr = done arr
  append_roles (suc n) i roles arr = do
    role ← deref (get_elem? roles i)
    append_roles n (i + 1) roles
        (elim (j.string (snowflake2str role)) [ none ↦ arr | some v ↦ j.array_append arr v ])

  -- `if(status_update->roles != NULL)`: the number of rounds is `strlen` of the numbers' bytes.
  unfoldable pub put_roles : Option (List ℕ) → J → Exec J
  unfolding append_roles strlen memory_bytes number_bytes
  put_roles none su = done su
  put_roles (some roles) su = do
    n ← strlen (memory_bytes roles)
    arr ← append_roles n 0 roles j.array
    done (object_put j su (text "roles") (some arr))

  -- `ld_json_dump_activity`
  unfoldable pub dump_activity : Activity → Option J
  dump_activity activity = none

  -- `if(status_update->game != NULL)`
  unfoldable pub put_game : Option Activity → J → J
  unfolding dump_activity
  put_game none su = su
  put_game (some game) su = object_put j su (text "game") (dump_activity game)

  -- `ld_json_unpack_status_update`
  unfoldable pub unpack_status_update : StatusUpdate → Exec J
  unfolding put_roles put_game
  unpack_status_update s = do
    let su = put_string j.object (text "user") (snowflake2str s.guild_id)
    su ← put_roles s.roles su
    let su = put_game s.game su
    done (put_string su (text "status") (status2str s.status))

  abbrev or_default : Option Bytes → Bytes → Bytes
  or_default none default = default
  or_default (some s) default = s

  -- `ld_json_unpack_identify_connection_properties`
  unfoldable pub unpack_properties : ConnectionProperties → J
  unpack_properties p =
      let o = put_string j.object (text "$os") (or_default p.os (text "unknown")) in
      let o = put_string o (text "$device") (or_default p.device libname) in
      put_string o (text "$browser") (or_default p.browser libname)

  -- `if(identify->status_update != NULL)`
  unfoldable pub put_presence : Option StatusUpdate → J → Exec J
  unfolding unpack_status_update
  put_presence none ident = done ident
  put_presence (some s) ident = do
    su ← unpack_status_update s
    done (object_put j ident (text "presence") (some su))

  -- The rest of `ld_json_unpack_identify`, once the token and the properties are known. The test
  -- that the address of the array `shard` is not null always passes.
  unfoldable pub identify_object : Bytes → ConnectionProperties → Identify → Exec J
  unfolding put_presence unpack_properties
  identify_object token p i =
      let ident = put_string j.object (text "token") token in
      let ident = object_put j ident (text "properties") (some (unpack_properties p)) in
      let ident = object_put j ident (text "compress") (some (j.boolean i.compress)) in
      let ident =
        object_put j ident (text "large_threshold") (some (j.integer i.large_threshold)) in
      let shards = j.array_append j.array (j.integer i.shard_id) in
      let shards = j.array_append shards (j.integer i.shard_count) in
      let ident = object_put j ident (text "shard") (some shards) in
      put_presence i.status_update ident

  -- The two null tests, in the code's order.
  check_identify : Option Bytes → Option ConnectionProperties → Identify → Exec (Option J)
  unfolding identify_object
  check_identify none properties i = done none
  check_identify (some token) none i = done none
  check_identify (some token) (some p) i = identify_object token p i >>= λ o. done (some o)

  -- `ld_json_unpack_identify`: `none` is NULL.
  unfoldable pub unpack_identify : Identify → Exec (Option J)
  unfolding check_identify
  unpack_identify i = check_identify i.token i.properties i
