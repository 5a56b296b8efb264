-- ===== src/Gateway/Parser/Scan.antt =====
-- The loop over a payload's keys, and the parser by what its keys hold.
use libdiscord.Prelude.{
  Bool, ℕ, ℤ, ◌≡◌, refl, ap, ◌∙◌, Option, none, some, List, [], ◌∷◌, Bytes, text, bytes_eq, arith,
  All, to_u32, to_int, eq_of_bytes_eq, inl, inr, ◌≢◌, ◌⊎◌, if◌then◌else◌,
}
use libdiscord.Jansson.{lookup}
use libdiscord.Jansson.Fields.{Distinct, field_loop, field_of, field_loop-lookup}
use libdiscord.Context.{Context, Platform}
use libdiscord.Gateway.Parser.{
  unknown, payload_objectparser, Parts, scan_entry, scan, no_parts, on_opcode, opcode_of,
  finish_scan, parse_loaded, payload_parser,
}

module _ {J R : Type 0} (env : Platform J R) where
  -- Every key is one of the four that a payload may have.
  abbrev pub IsKnown : List (Bytes × J) → Type 0
  IsKnown = All (λ e. payload_objectparser e.0 ≢ unknown)

  -- What each way to read the four keys finds.
  abbrev found_by :
      Context R
      → Parts J
      → ((A : Type 0) → Bytes → (J → A → A) → A → A)
      → Context R × Option (Parts J)
  found_by c p read = (
    record c {
      last_seq = read _ (text "s") (λ v _. to_int (env.jansson.integer_value v)) c.last_seq;
    },
    some (record {
      opcode = read _ (text "op") (λ v _. to_u32 (env.jansson.integer_value v)) p.opcode;
      data_part = read _ (text "d") (λ v _. some v) p.data_part;
      type_part = read _ (text "t") (λ v _. some v) p.type_part;
    }),
  )

  -- The outcome that `get`, a look-up of keys, describes.
  abbrev pub found : Context R → (Bytes → Option J) → Context R × Option (Parts J)
  found c get =
      found_by c (no_parts env) (λ A name write a. field_of env.jansson write a (get name))

  abbrev once : J → Bytes → (A : Type 0) → Bytes → (J → A → A) → A → A
  once value key A name write a = if bytes_eq key name then write value a else a

  round_at :
      (value : J) (c : Context R) (p : Parts J)
      → (scan_entry env (payload_objectparser (text "op")) value c p
          ≡ found_by c p (once value (text "op")))
        × (scan_entry env (payload_objectparser (text "d")) value c p
            ≡ found_by c p (once value (text "d")))
        × (scan_entry env (payload_objectparser (text "t")) value c p
            ≡ found_by c p (once value (text "t")))
        × (scan_entry env (payload_objectparser (text "s")) value c p
            ≡ found_by c p (once value (text "s")))
  unfolding scan_entry payload_objectparser text bytes_eq
  round_at value c p = (refl, refl, refl, refl)

  known_keys :
      (key : Bytes)
      → payload_objectparser key ≢ unknown
      → (key ≡ text "op") ⊎ ((key ≡ text "d") ⊎ ((key ≡ text "t") ⊎ (key ≡ text "s")))
  unfolding payload_objectparser
  known_keys key known = ground (
    arith,
    eq_of_bytes_eq key (text "op"),
    eq_of_bytes_eq key (text "d"),
    eq_of_bytes_eq key (text "t"),
    eq_of_bytes_eq key (text "s"),
  )

  -- One round of the loop is one round of a loop for each key.
  round :
      (key : Bytes) (value : J) (c : Context R) (p : Parts J)
      → payload_objectparser key ≢ unknown
      → scan_entry env (payload_objectparser key) value c p ≡ found_by c p (once value key)
  round key value c p known = elim (known_keys key known) [
    | inl e ↦ rw e (round_at value c p).0
    | inr (inl e) ↦ rw e (round_at value c p).1
    | inr (inr (inl e)) ↦ rw e (round_at value c p).2
    | inr (inr (inr e)) ↦ rw e (round_at value c p).3
  ]

  scan-loops :
      (es : List (Bytes × J)) (c : Context R) (p : Parts J)
      → IsKnown es
      → scan env es (c, some p)
        ≡ found_by c p (λ A name write a. field_loop env.jansson name write a es)
  unfolding scan field_loop
  scan-loops [] c p h = refl
  scan-loops ((key, value) ∷ es) c p h =
      let next = found_by c p (once value key) in
      ap (scan env es) (round key value c p h.0)
      ∙ scan-loops es next.0
          (record {
            opcode =
                once value key _ (text "op") (λ v _. to_u32 (env.jansson.integer_value v)) p.opcode;
            data_part = once value key _ (text "d") (λ v _. some v) p.data_part;
            type_part = once value key _ (text "t") (λ v _. some v) p.type_part;
          })
          h.1

  -- Over distinct keys that are all known, the loop finds the opcode, the data and the type under `op`,
  -- `d` and `t`, stores the sequence number under `s`, and leaves the rest of the context, whatever the
  -- order of the keys.
  pub scan-found :
      (c : Context R) (es : List (Bytes × J))
      → Distinct env.jansson es
      → IsKnown es
      → scan env es (c, some (no_parts env)) ≡ found c (λ key. lookup env.jansson key es)
  scan-found c es distinct known = scan-loops es c (no_parts env) known ∙ λ i.
      found_by c (no_parts env)
        (λ A name write a. field_loop-lookup env.jansson name write a es distinct i)

  -- A loop that has returned stays so.
  scan_returned : (es : List (Bytes × J)) (c : Context R) → scan env es (c, none) ≡ (c, none)
  unfolding scan
  scan_returned [] c = refl
  scan_returned (e ∷ es) c = refl

  abbrev pub value_at : J → Bytes → Option J
  value_at payload key = lookup env.jansson key (env.jansson.entries payload)

  -- The opcode of a payload, 999 without one, and its sequence number, or the old one.
  abbrev pub opcode_at : J → ℕ
  opcode_at payload =
      field_of env.jansson (λ v _. to_u32 (env.jansson.integer_value v)) 999
        (value_at payload (text "op"))

  abbrev pub seq_at : J → ℤ → ℤ
  seq_at payload old =
      field_of env.jansson (λ v _. to_int (env.jansson.integer_value v)) old
        (value_at payload (text "s"))

  -- A text that is a JSON object with distinct keys, all of which are known: the parser does what the case
  -- of the opcode under `op` does, 999 without one, with the data under `d` and the type under `t`, once
  -- the sequence number under `s` is stored, whatever the order of the keys.
  pub payload_parser-found :
      (malloc_properties : Bool) (now : ℕ) (c : Context R) (bytes : Bytes) (payload : J)
      → env.jansson.loads bytes ≡ some payload
      → Distinct env.jansson (env.jansson.entries payload)
      → IsKnown (env.jansson.entries payload)
      → payload_parser env malloc_properties now c bytes
        ≡ on_opcode env malloc_properties now
            (opcode_of (opcode_at payload))
            (record c { last_seq = seq_at payload c.last_seq })
            (record {
              opcode = opcode_at payload;
              data_part = value_at payload (text "d");
              type_part = value_at payload (text "t");
            })
  unfolding payload_parser parse_loaded finish_scan
  payload_parser-found m now c bytes payload parsed distinct known =
      rw
        (
          parsed,
          scan-found c (env.jansson.entries payload) distinct known,
          found_option (value_at payload (text "d")),
          found_option (value_at payload (text "t")),
        )
        refl
    where
      found_option : (o : Option J) → field_of env.jansson (λ v _. some v) none o ≡ o
      found_option none = refl
      found_option (some v) = refl
