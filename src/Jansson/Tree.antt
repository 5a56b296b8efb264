-- ===== src/Jansson/Tree.antt =====
-- JSON values as trees, for tests and witnesses: an instance of the functions that the source calls.
use libdiscord.Prelude.{
  ℤ, pos, ◌≡◌, refl, Bool, false, Option, none, some, List, [], ◌∷◌, ◌++◌, Bytes, bytes_eq,
  if◌then◌else◌, arith,
}
use libdiscord.Jansson.{Jansson, BuildLaws, lookup}

mutual
  pub data Tree : Type 0 where
    null : Tree
    boolean : Bool → Tree
    integer : ℤ → Tree
    string : Bytes → Tree
    array : Items → Tree
    object : Fields → Tree

  pub data Items : Type 0 where
    nil : Items
    cons : Tree → Items → Items

  pub data Fields : Type 0 where
    end : Fields
    field : Bytes → Tree → Fields → Fields

abbrev field_list : Fields → List (Bytes × Tree)
field_list end = []
field_list (field key value fs) = (key, value) ∷ field_list fs

abbrev entries : Tree → List (Bytes × Tree)
entries (object fs) = field_list fs
entries _ = []

abbrev get : Bytes → Fields → Option Tree
get key end = none
get key (field k value fs) = if bytes_eq k key then some value else get key fs

abbrev put : Bytes → Tree → Fields → Fields
put key value end = field key value end
put key value (field k v fs) =
    if bytes_eq k key then field k value fs else field k v (put key value fs)

abbrev snoc : Tree → Items → Items
snoc v nil = cons v nil
snoc v (cons x xs) = cons x (snoc v xs)

abbrev object_get : Tree → Bytes → Option Tree
object_get (object fs) key = get key fs
object_get _ key = none

abbrev object_set : Tree → Bytes → Tree → Option Tree
object_set (object fs) key value = some (object (put key value fs))
object_set _ key value = none

abbrev array_append : Tree → Tree → Tree
array_append (array xs) v = array (snoc v xs)
array_append t v = t

abbrev string_value : Tree → Option Bytes
string_value (string s) = some s
string_value _ = none

abbrev integer_value : Tree → ℤ
integer_value (integer n) = n
integer_value _ = pos 0

abbrev boolean_value : Tree → Bool
boolean_value (boolean b) = b
boolean_value _ = false

-- The text that is parsed, and what printing gives, are those of the test at hand.
abbrev pub tree_json : (Bytes → Option Tree) → (Tree → Option Bytes) → Jansson Tree
tree_json loads dumps = record {
  loads = loads;
  dumps = dumps;
  entries = entries;
  object_get = object_get;
  string_value = string_value;
  integer_value = integer_value;
  boolean_value = boolean_value;
  object = object end;
  object_set = object_set;
  array = array nil;
  array_append = array_append;
  string = λ s. some (string s);
  integer = integer;
  boolean = boolean;
}

module _ (loads : Bytes → Option Tree) (dumps : Tree → Option Bytes) where
  field_list-put :
      (key : Bytes) (value : Tree) (fs : Fields)
      → lookup (tree_json loads dumps) key (field_list fs) ≡ none
      → field_list (put key value fs) ≡ field_list fs ++ ((key, value) ∷ [])
  field_list-put key value end h = refl
  field_list-put key value (field k v fs) h = ground (arith, field_list-put key value fs)

  abbrev IsFields : Tree → Type 0
  IsFields o = (fs : Fields) × (o ≡ object fs)

  object_set-IsFields :
      (o value : Tree) (key : Bytes)
      → IsFields o
      → lookup (tree_json loads dumps) key (entries o) ≡ none
      → (o' : Tree) × (object_set o key value ≡ some o')
        × IsFields o'
        × (entries o' ≡ entries o ++ ((key, value) ∷ []))
  object_set-IsFields o value key (fs, e) h = (
    object (put key value fs),
    rw e,
    (put key value fs, refl),
    rw e (field_list-put key value fs (rw e at h)),
  )

  pub tree_laws : BuildLaws (tree_json loads dumps)
  tree_laws = record {
    IsObject = IsFields;
    object-IsObject = (end, refl);
    entries-object = refl;
    object_set_new = object_set-IsFields;
  }
