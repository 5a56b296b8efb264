-- ===== src/Jansson.antt =====
-- The JSON library that the source calls (jansson). Its values and functions are not under this
-- repository: they are the fields of a record, and what the code relies on are the laws below.
pub mod Fields
pub mod Tree
use libdiscord.Prelude.{
  ℤ, Bool, Option, none, some, List, ◌∷◌, Bytes, ◌≡◌, bytes_eq, if◌then◌else◌, ◌++◌, [],
}

pub record Jansson (J : Type 0) : Type 0 where
  -- `json_loads`, `json_loadb`: `none` is NULL, for text that is no JSON.
  pub loads : Bytes → Option J
  -- `json_dumps(v, 0)`
  pub dumps : J → Option Bytes
  -- The rounds of `json_object_foreach`: none for a value that is no object.
  pub entries : J → List (Bytes × J)
  pub object_get : J → Bytes → Option J
  -- NULL for a value that is no string, 0 for one that is no integer, false for one that is no boolean.
  pub string_value : J → Option Bytes
  pub integer_value : J → ℤ
  pub boolean_value : J → Bool
  pub object : J
  -- `json_object_set_new` on a fresh object: `none` is its error -1.
  pub object_set : J → Bytes → J → Option J
  pub array : J
  pub array_append : J → J → J
  -- NULL if the text is no valid UTF-8.
  pub string : Bytes → Option J
  pub integer : ℤ → J
  pub boolean : Bool → J

module _ {J : Type 0} (j : Jansson J) where
  -- The functions on an object pointer that may be NULL.
  abbrev pub object_get_opt : Option J → Bytes → Option J
  object_get_opt none key = none
  object_get_opt (some v) key = j.object_get v key

  abbrev pub entries_opt : Option J → List (Bytes × J)
  entries_opt none = []
  entries_opt (some v) = j.entries v

  -- `json_object_set(o, key, v)` with its result ignored: where it fails, and for NULL, `o` stays.
  abbrev pub object_put : J → Bytes → Option J → J
  object_put o key none = o
  object_put o key (some v) = elim (j.object_set o key v) [ none ↦ o | some o' ↦ o' ]

  -- The first entry of a key.
  abbrev pub lookup : Bytes → List (Bytes × J) → Option J
  lookup key [] = none
  lookup key ((k, v) ∷ es) = if bytes_eq k key then some v else lookup key es

  -- What the documentation says of objects: setting a key that an object does not have puts it last,
  -- and what is built can be read back.
  pub record BuildLaws : Type 1 where
    pub IsObject : J → Type 0
    pub object-IsObject : IsObject j.object
    pub entries-object : j.entries j.object ≡ []
    pub object_set_new :
        (o v : J) (key : Bytes)
        → IsObject o
        → lookup key (j.entries o) ≡ none
        → (o' : J) × (j.object_set o key v ≡ some o')
          × IsObject o'
          × (j.entries o' ≡ j.entries o ++ ((key, v) ∷ []))
