-- ===== src/Jansson/Fields.antt =====
-- Loops over the entries of an object that write a field for each of its keys.
use libdiscord.Prelude.{
  ◌≡◌, refl, Option, none, some, List, [], ◌∷◌, Bytes, bytes_eq, if◌then◌else◌, eq_of_bytes_eq,
  Bool-cases, inl, inr,
}
use libdiscord.Jansson.{Jansson, lookup}

module _ {J : Type 0} (j : Jansson J) where
  -- The keys of an object differ from one another, as jansson keeps them.
  abbrev pub Distinct : List (Bytes × J) → Type 0
  Distinct [] = Unit
  Distinct ((key, value) ∷ es) = (lookup j key es ≡ none) × Distinct es

  -- What a loop leaves in the field that is written for the key `name`.
  unfoldable pub field_loop {ℓ} : {A : Type ℓ} → Bytes → (J → A → A) → A → List (Bytes × J) → A
  field_loop name write a [] = a
  field_loop name write a ((key, value) ∷ es) =
      field_loop name write (if bytes_eq key name then write value a else a) es

  -- The field when its key is looked up once.
  abbrev pub field_of {ℓ} : {A : Type ℓ} → (J → A → A) → A → Option J → A
  field_of write a none = a
  field_of write a (some value) = write value a

  module _ {ℓ} {A : Type ℓ} (name : Bytes) (write : J → A → A) where
    field_loop_absent :
        (a : A) (es : List (Bytes × J)) → lookup j name es ≡ none → field_loop name write a es ≡ a
    unfolding field_loop
    field_loop_absent a [] h = refl
    field_loop_absent a ((key, value) ∷ es) h = elim (Bool-cases (bytes_eq key name)) [
      | inl same ↦ absurd (some_ne (rw same at h))
      | inr other ↦ rw other (field_loop_absent a es (rw other at h))
    ]
      where
        some_ne : some value ≡ none → ⊥
        some_ne e = cc

    -- Over distinct keys, the loop writes the one value that the key has, if any.
    pub field_loop-lookup :
        (a : A) (es : List (Bytes × J))
        → Distinct es
        → field_loop name write a es ≡ field_of write a (lookup j name es)
    unfolding field_loop
    field_loop-lookup a [] d = refl
    field_loop-lookup a ((key, value) ∷ es) d = elim (Bool-cases (bytes_eq key name)) [
      | inl same ↦
          rw same (field_loop_absent (write value a) es (rw (eq_of_bytes_eq key name same) at d.0))
      | inr other ↦ rw other (field_loop-lookup a es d.1)
    ]
