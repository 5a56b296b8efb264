-- ===== src/Payload/Create.antt =====
-- What `ld_json_create_payload` builds, and which payloads are valid.
use libdiscord.Prelude.{
  ◌≡◌, ◌≢◌, ◌↔◌, refl, Option, none, some, List, [], ◌∷◌, ◌++◌, Bytes, text, bytes_eq, arith, ◌∙◌,
  ap, sym, false,
}
use mathlib.Core.List.{append-nil}
use libdiscord.Jansson.{Jansson, BuildLaws, lookup}
use libdiscord.Status.{code, ok}
use libdiscord.Payload.{
  WebsocketPayload, unknown, dispatch, dispatch_unknown, payload_valid, create_payload,
  set_optional,
}

-- `ld_json_payload_valid` accepts exactly the payloads with a known opcode and data, whose event is
-- known if they are dispatches; the sequence number does not matter.
pub payload_valid_iff :
    (p : WebsocketPayload)
    → (payload_valid p ≡ code ok)
      ↔ ((p.op ≢ unknown) × (p.d ≢ none) × (p.op ≡ dispatch → p.t ≢ dispatch_unknown))
unfolding payload_valid
payload_valid_iff p = ground arith

module _ {J : Type 0} (j : Jansson J) where
  -- The entry of an optional field.
  abbrev pub field_entry : Bytes → Option J → List (Bytes × J)
  field_entry key none = []
  field_entry key (some v) = (key, v) ∷ []

  lookup-append :
      (key : Bytes) (es fs : List (Bytes × J))
      → lookup j key es ≡ none
      → lookup j key fs ≡ none
      → lookup j key (es ++ fs) ≡ none
  lookup-append key [] fs h k = k
  lookup-append key ((name, value) ∷ es) fs h k = ground (arith, lookup-append key es fs)

  lookup-field_entry :
      (key name : Bytes) (v : Option J)
      → bytes_eq name key ≡ false
      → lookup j key (field_entry name v) ≡ none
  lookup-field_entry key name none h = refl
  lookup-field_entry key name (some v) h = rw h

  module _ (laws : BuildLaws j) where
    -- An object with known entries.
    abbrev Holds : Option J → List (Bytes × J) → Type 0
    Holds o es = (v : J) × (o ≡ some v) × laws.IsObject v × (j.entries v ≡ es)

    Holds-set :
        (o : Option J) (es : List (Bytes × J)) (key : Bytes) (value : Option J)
        → Holds o es
        → lookup j key es ≡ none
        → Holds (set_optional j o key value) (es ++ field_entry key value)
    unfolding set_optional
    Holds-set o es key none (v, e, k, m) absent = (v, rw e, k, m ∙ sym (append-nil es))
    Holds-set o es key (some w) (v, e, k, m) absent =
        let (v', set, k', m') = laws.object_set_new v w key k (rw m absent) in
        (v', rw e set, k', m' ∙ ap (λ es. es ++ ((key, w) ∷ [])) m)

    Holds-op : (op : J) → Holds (j.object_set j.object (text "op") op) ((text "op", op) ∷ [])
    Holds-op op =
        let (v, set, k, m) =
          laws.object_set_new j.object op (text "op") laws.object-IsObject
            (rw laws.entries-object) in
        (v, set, k, m ∙ ap (λ es. es ++ ((text "op", op) ∷ [])) laws.entries-object)

    -- With jansson's laws of objects: `ld_json_create_payload` never fails, and its object holds the opcode,
    -- then each of `d`, `t` and `s` that is given, in this order, and nothing else.
    pub create_payload_entries :
        (op : J) (d t s : Option J)
        → (v : J) × (create_payload j op d t s ≡ some v)
          × (j.entries v
              ≡ (((text "op", op) ∷ []) ++ field_entry (text "d") d ++ field_entry (text "t") t)
                ++ field_entry (text "s") s)
    unfolding create_payload text bytes_eq
    create_payload_entries op d t s =
        let d_es = field_entry (text "d") d in
        let t_es = field_entry (text "t") t in
        let with_d = Holds-set _ _ (text "d") d (Holds-op op) refl in
        let with_t = Holds-set _ (((text "op", op) ∷ []) ++ d_es) (text "t") t with_d (
          lookup-append (text "t") ((text "op", op) ∷ []) d_es refl
            (lookup-field_entry (text "t") (text "d") d refl)) in
        let (v, e, k, m) =
          Holds-set _ ((((text "op", op) ∷ []) ++ d_es) ++ t_es) (text "s") s with_t (
            lookup-append (text "s") (((text "op", op) ∷ []) ++ d_es) t_es
              (lookup-append (text "s") ((text "op", op) ∷ []) d_es refl
                (lookup-field_entry (text "s") (text "d") d refl))
              (lookup-field_entry (text "s") (text "t") t refl)) in
        (v, e, m)
