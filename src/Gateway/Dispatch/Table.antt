-- ===== src/Gateway/Dispatch/Table.antt =====
-- The table of events: every name finds its own entry, and other names are ignored.
use mathlib.Core.List.{Memᴰ}
use libdiscord.Prelude.{
  ◌≡◌, refl, ◌∙◌, Bool, true, false, not, ◌&&◌, Option, some, List, [], ◌∷◌, Bytes, text, bytes_eq,
  bytes_eq_refl, arith, All, done, none,
}
use libdiscord.Status.{code, ok, error, json_gateway_dispatch_type_err}
use libdiscord.Jansson.{lookup, entries_opt}
use libdiscord.Context.{Context, Platform, json, ready}
use libdiscord.Gateway.Dispatch.{
  DispatchEntry, no_handler, dispatch_dict, call_user, ready_callback, run_entry, search_dict,
  dispatch_named, dispatch_parser, run_handler, find_session, dispatch_ready,
}

-- No entry has the name.
abbrev pub IsAbsent : Bytes → List DispatchEntry → Type 0
IsAbsent name = All (λ e. bytes_eq name e.name ≡ false)

is_absent : Bytes → List DispatchEntry → Bool
is_absent name [] = true
is_absent name (e ∷ es) = not (bytes_eq e.name name) && is_absent name es

has_distinct_names : List DispatchEntry → Bool
unfolding is_absent
has_distinct_names [] = true
has_distinct_names (e ∷ es) = is_absent e.name es && has_distinct_names es

dispatch_dict_distinct : has_distinct_names dispatch_dict ≡ true
unfolding has_distinct_names dispatch_dict text bytes_eq
dispatch_dict_distinct = refl

and_left : (a b : Bool) → (a && b) ≡ true → a ≡ true
and_left a b h = ground arith

and_right : (a b : Bool) → (a && b) ≡ true → b ≡ true
and_right a b h = ground arith

is_absent-mem :
    (name : Bytes) (es : List DispatchEntry) (e : DispatchEntry)
    → is_absent name es ≡ true
    → Memᴰ e es
    → bytes_eq e.name name ≡ false
unfolding is_absent
is_absent-mem name [] e h m = elim m [ ]
is_absent-mem name (x ∷ es) e h (Memᴰ.head p) = rw p (ground arith)
is_absent-mem name (x ∷ es) e h (Memᴰ.tail m) = is_absent-mem name es e (and_right _ _ h) m

module _ {J R : Type 0} (env : Platform J R) where
  search_dict-mem :
      (es : List DispatchEntry) (e : DispatchEntry) (c : Context R) (d : Option J)
      → has_distinct_names es ≡ true
      → Memᴰ e es
      → search_dict env es e.name c d ≡ run_entry env e c d
  unfolding search_dict has_distinct_names
  search_dict-mem [] e c d h m = elim m [ ]
  search_dict-mem (x ∷ es) e c d h (Memᴰ.head p) = rw (p, bytes_eq_refl x.name)
  search_dict-mem (x ∷ es) e c d h (Memᴰ.tail m) =
      rw (is_absent-mem x.name es e (and_left _ _ h) m)
        (search_dict-mem es e c d (and_right _ _ h) m)

  search_dict-absent :
      (es : List DispatchEntry) (name : Bytes) (c : Context R) (d : Option J)
      → IsAbsent name es
      → search_dict env es name c d ≡ done (code ok, c)
  unfolding search_dict
  search_dict-absent [] name c d h = refl
  search_dict-absent (e ∷ es) name c d h = rw h.0 (search_dict-absent es name c d h.1)

  dispatch_parser_mem :
      (c : Context R) (t : J) (d : Option J) (e : DispatchEntry)
      → env.jansson.string_value t ≡ some e.name
      → Memᴰ e dispatch_dict
      → dispatch_parser env c (some t) d ≡ run_entry env e c d
  unfolding dispatch_parser dispatch_named
  dispatch_parser_mem c t d e named listed =
      rw named (search_dict-mem dispatch_dict e c d dispatch_dict_distinct listed)

  find_session-lookup :
      (c : Context R) (es : List (Bytes × J)) (v : J) (s : Bytes)
      → lookup env.jansson (text "session_id") es ≡ some v
      → env.jansson.string_value v ≡ some s
      → find_session env c es ≡ done (code ok, record c { gateway_session_id = some s })
  unfolding find_session
  find_session-lookup c [] v s h k = cc
  find_session-lookup c ((key, value) ∷ es) v s h k = ground (arith, find_session-lookup c es v s)

  find_session_absent :
      (c : Context R) (es : List (Bytes × J))
      → lookup env.jansson (text "session_id") es ≡ none
      → find_session env c es ≡ done (code error, c)
  unfolding find_session
  find_session_absent c [] h = refl
  find_session_absent c ((key, value) ∷ es) h = ground (arith, find_session_absent c es)

  -- An event of the table other than READY reaches the user's callback once, with the reason of its
  -- entry and the event's data, and the context as it was; the user's value is the result.
  pub dispatch_parser_event :
      (c : Context R) (t : J) (d : Option J) (e : DispatchEntry)
      → env.jansson.string_value t ≡ some e.name
      → Memᴰ e dispatch_dict
      → e.dispatch_callback ≡ no_handler
      → dispatch_parser env c (some t) d ≡ call_user env c e.cbk_reason (json d) 0
  unfolding run_entry run_handler
  dispatch_parser_event c t d e named listed plain =
      dispatch_parser_mem c t d e named listed ∙ rw (plain, run_entry, run_handler)

  abbrev ready_entry : DispatchEntry
  ready_entry = record {
    name = text "READY";
    cbk_reason = ready;
    dispatch_callback = dispatch_ready;
  }

  ready_listed : Memᴰ ready_entry dispatch_dict
  unfolding dispatch_dict
  ready_listed = Memᴰ.head refl

  -- READY with a string under `session_id` stores that string as the session, and then calls the user.
  pub dispatch_parser_ready :
      (c : Context R) (t : J) (d : Option J) (v : J) (s : Bytes)
      → env.jansson.string_value t ≡ some (text "READY")
      → lookup env.jansson (text "session_id") (entries_opt env.jansson d) ≡ some v
      → env.jansson.string_value v ≡ some s
      → dispatch_parser env c (some t) d
        ≡ call_user env (record c { gateway_session_id = some s }) ready (json d) 0
  unfolding run_entry ready_callback
  dispatch_parser_ready c t d v s named found str =
      dispatch_parser_mem c t d ready_entry named ready_listed
      ∙ rw (find_session-lookup c (entries_opt env.jansson d) v s found str)

  -- A type that is no string gives LDS_JSON_GATEWAY_DISPATCH_TYPE_ERR: the user is not called, and the
  -- context stays as it was.
  pub dispatch_parser_no_type :
      (c : Context R) (t : J) (d : Option J)
      → env.jansson.string_value t ≡ none
      → dispatch_parser env c (some t) d ≡ done (code json_gateway_dispatch_type_err, c)
  unfolding dispatch_parser dispatch_named
  dispatch_parser_no_type c t d h = rw h

  -- An event whose name no entry of the table has is ignored: the status is LDS_OK, the user is not
  -- called, and the context stays as it was.
  pub dispatch_parser_unknown :
      (c : Context R) (t : J) (d : Option J) (name : Bytes)
      → env.jansson.string_value t ≡ some name
      → IsAbsent name dispatch_dict
      → dispatch_parser env c (some t) d ≡ done (code ok, c)
  unfolding dispatch_parser dispatch_named
  dispatch_parser_unknown c t d name named absent =
      rw named (search_dict-absent dispatch_dict name c d absent)

  -- A READY with no `session_id` gives LDS_ERROR: the user is not called, and the context stays as it was.
  pub dispatch_parser_no_session :
      (c : Context R) (t : J) (d : Option J)
      → env.jansson.string_value t ≡ some (text "READY")
      → lookup env.jansson (text "session_id") (entries_opt env.jansson d) ≡ none
      → dispatch_parser env c (some t) d ≡ done (code error, c)
  unfolding run_entry ready_callback
  dispatch_parser_no_session c t d named missing =
      dispatch_parser_mem c t d ready_entry named ready_listed
      ∙ rw (find_session_absent c (entries_opt env.jansson d) missing)
