-- ===== src/Identify/Entries.antt =====
-- The object of IDENTIFY, entry by entry.
use libdiscord.Prelude.{
  ◌≡◌, refl, ap, ◌∙◌, Option, none, some, List, [], ◌∷◌, ◌++◌, Bytes, text, bytes_eq, done, ◌>>=◌,
}
use libdiscord.Jansson.{Jansson, BuildLaws, lookup, object_put}
use libdiscord.Identify.{
  Identify, ConnectionProperties, unpack_properties, put_presence, identify_object, check_identify,
  unpack_identify,
}

module _ {J : Type 0} (j : Jansson J) (laws : BuildLaws j) where
  -- An object with known entries.
  abbrev pub Built : J → List (Bytes × J) → Type 0
  Built o es = laws.IsObject o × (j.entries o ≡ es)

  pub Built-object : Built j.object []
  Built-object = (laws.object-IsObject, laws.entries-object)

  put_given :
      (o : J) (key : Bytes) (w : Option J) (v o' : J)
      → w ≡ some v
      → j.object_set o key v ≡ some o'
      → object_put j o key w ≡ o'
  put_given o key w v o' given set =
      ap (object_put j o key) given ∙ ap (λ r. elim r [ none ↦ o | some x ↦ x ]) set

  pub Built-put :
      (o : J) (es : List (Bytes × J)) (key : Bytes) (w : Option J) (v : J)
      → Built o es
      → w ≡ some v
      → lookup j key es ≡ none
      → Built (object_put j o key w) (es ++ ((key, v) ∷ []))
  Built-put o es key w v (is, entries) given absent =
      let (o', set, is', entries') = laws.object_set_new o v key is (rw entries absent) in
      let put = put_given o key w v o' given set in
      rw put (is', entries' ∙ ap (λ l. l ++ ((key, v) ∷ [])) entries)

  -- The properties of the connection.
  pub properties_entries :
      (p : ConnectionProperties) (os device browser : Bytes) (o d b : J)
      → p.os ≡ some os
      → p.device ≡ some device
      → p.browser ≡ some browser
      → j.string os ≡ some o
      → j.string device ≡ some d
      → j.string browser ≡ some b
      → Built
          (unpack_properties j p)
          ((text "$os", o) ∷ (text "$device", d) ∷ (text "$browser", b) ∷ [])
  unfolding unpack_properties text bytes_eq
  properties_entries p os device browser o d b has_os has_device has_browser os_text device_text
        browser_text =
      rw (has_os, has_device, has_browser)
        (Built-put _ _ (text "$browser") _ b
          (Built-put _ _ (text "$device") _ d
            (Built-put _ [] (text "$os") _ o Built-object os_text refl) device_text refl)
          browser_text refl)

  -- The entries of every IDENTIFY object, for the values of its token and properties.
  abbrev pub base_entries : Identify → J → J → List (Bytes × J)
  base_entries i t properties =
      (text "token", t)
      ∷ (text "properties", properties)
      ∷ (text "compress", j.boolean i.compress)
      ∷ (text "large_threshold", j.integer i.large_threshold)
      ∷ (
        text "shard",
        j.array_append (j.array_append j.array (j.integer i.shard_id)) (j.integer i.shard_count),
      )
      ∷ []

  -- The object without its presence, and what the code puts there.
  pub object_entries :
      (i : Identify) (token : Bytes) (p : ConnectionProperties) (t : J)
      → i.token ≡ some token
      → i.properties ≡ some p
      → j.string token ≡ some t
      → (o : J) × (unpack_identify j i ≡ (put_presence j i.status_update o >>= λ x. done (some x)))
        × Built o (base_entries i t (unpack_properties j p))
  unfolding unpack_identify check_identify identify_object text bytes_eq
  object_entries i token p t has_token has_properties token_text =
      let properties = unpack_properties j p in
      let shards =
        j.array_append (j.array_append j.array (j.integer i.shard_id)) (j.integer i.shard_count) in
      let built =
        Built-put _ _ (text "shard") _ shards
          (Built-put _ _ (text "large_threshold") _ (j.integer i.large_threshold)
            (Built-put _ _ (text "compress") _ (j.boolean i.compress)
              (Built-put _ _ (text "properties") _ properties
                (Built-put j.object [] (text "token") (j.string token) t Built-object token_text
                  refl)
                refl refl)
              refl refl)
            refl refl)
          refl refl in
      (_, rw (has_token, has_properties) refl, built)

  -- Texts that are valid UTF-8.
  pub record Texts (i : Identify) : Type 0 where
    pub token : Bytes
    pub os : Bytes
    pub device : Bytes
    pub browser : Bytes
    pub t : J
    pub o : J
    pub d : J
    pub b : J
    pub p : ConnectionProperties
    pub has_token : i.token ≡ some token
    pub has_properties : i.properties ≡ some p
    pub has_os : p.os ≡ some os
    pub has_device : p.device ≡ some device
    pub has_browser : p.browser ≡ some browser
    pub token_text : j.string token ≡ some t
    pub os_text : j.string os ≡ some o
    pub device_text : j.string device ≡ some d
    pub browser_text : j.string browser ≡ some b

  -- With a token and properties that are valid UTF-8 and no presence: the object has the token, the
  -- properties, `compress`, `large_threshold` and the shard's number and count, in this order, and
  -- nothing else; the properties have the operating system, the device and the browser, in this order,
  -- and nothing else.
  pub identify_entries :
      (i : Identify) (x : Texts i)
      → i.status_update ≡ none
      → (object : J) × (unpack_identify j i ≡ done (some object))
        × (j.entries object ≡ base_entries i x.t (unpack_properties j x.p))
        × (j.entries (unpack_properties j x.p)
            ≡ (text "$os", x.o) ∷ (text "$device", x.d) ∷ (text "$browser", x.b) ∷ [])
  unfolding put_presence
  identify_entries i x no_presence =
      let (object, made, entries) =
        object_entries i x.token x.p x.t x.has_token x.has_properties x.token_text in
      let built =
        properties_entries x.p x.os x.device x.browser x.o x.d x.b x.has_os x.has_device
          x.has_browser x.os_text x.device_text x.browser_text in
      (
        object,
        made ∙ ap (λ s. put_presence j s object >>= λ y. done (some y)) no_presence,
        entries.1,
        built.1,
      )
