-- ===== src/Gateway/Sessions.antt =====
-- How long a session is kept: from READY on, every part of the gateway code keeps it, but for an
-- INVALID_SESSION payload.
pub mod Events
pub mod Resuming
use libdiscord.Prelude.{
  ℕ, ◌≡◌, ◌≢◌, refl, sym, ap, ◌∙◌, ℤ, pos, Bool, true, false, Option, none, some, List, [], ◌∷◌,
  Bytes, arith, is_some, Exec, fault, done, Ensures, Ensures->>=, Ensures-deref, Ensures-if,
  Ensures-map, Option-cases, inl, inr, bytes_eq, text,
}
use libdiscord.Status.{is_ok}
use libdiscord.Jansson.{entries_opt}
use libdiscord.Payload.{Opcode}
use libdiscord.Payload
use libdiscord.Context.{Context, Platform, Handle, CallbackReason, CallbackData, json}
use libdiscord.Gateway.Dispatch.{
  Result, DispatchEntry, Handler, no_handler, dispatch_ready, call_user, find_session,
  ready_callback, run_handler, run_entry, search_dict, dispatch_named, dispatch_parser,
  dispatch_dict,
}
use libdiscord.Gateway.Parser
use libdiscord.Gateway.Parser.{
  Parts, PayloadType, scan_entry, scan, on_hello, on_opcode, finish_scan, parse_loaded,
  payload_parser, payload_objectparser, opcode_of, no_parts,
}
use libdiscord.Gateway.Parser.Session.{hello_faults}

-- A context with a session, between two messages.
pub record HasSession {R : Type 0} (c : Context R) : Type 0 where
  pub session : is_some c.gateway_session_id ≡ true
  pub buffer : c.gateway_rx_buffer ≡ none

module _ {J R : Type 0} (env : Platform J R) where
  -- What is asked of the bot's callback: it leaves the session and the receive buffer alone.
  abbrev pub KeepsSession : Type 0
  KeepsSession =
      (f : Handle) (c : Context R) (reason : CallbackReason) (d : CallbackData J) (len : ℕ)
      → Ensures
          (λ r.
            (r.1.gateway_session_id ≡ c.gateway_session_id)
            × (r.1.gateway_rx_buffer ≡ c.gateway_rx_buffer))
          (env.call f c reason d len)

  abbrev pub Stays : Result env → Type 0
  Stays r = HasSession r.1

  -- A text that is no INVALID_SESSION payload, whatever the context that its sequence number goes to.
  abbrev pub NoInvalidation : Bytes → Type 0
  NoInvalidation bytes =
      (c : Context R) (v : J) (p : Parts J)
      → env.jansson.loads bytes ≡ some v
      → (scan env (env.jansson.entries v) (c, some (no_parts env))).1 ≡ some p
      → opcode_of p.opcode ≢ Payload.invalidate_session

  pub HasSession-same :
      (c c' : Context R)
      → c'.gateway_session_id ≡ c.gateway_session_id
      → c'.gateway_rx_buffer ≡ c.gateway_rx_buffer
      → HasSession c
      → HasSession c'
  HasSession-same c c' same same' h = record {
    session = ap is_some same ∙ h.session;
    buffer = same' ∙ h.buffer;
  }

  module _ (keeps : KeepsSession) where
    pub call_user-Stays :
        (c : Context R) (reason : CallbackReason) (d : CallbackData J) (len : ℕ)
        → HasSession c
        → Ensures Stays (call_user env c reason d len)
    unfolding call_user
    call_user-Stays c reason d len h =
        Ensures-deref Stays c.user_callback (λ f. env.call f c reason d len)
          (λ f e.
            Ensures-map _ Stays (env.call f c reason d len) (keeps f c reason d len)
              (λ r same. HasSession-same c r.1 same.0 same.1 h))

    find_session-Stays :
        (c : Context R) (es : List (Bytes × J))
        → HasSession c
        → Ensures Stays (find_session env c es)
    unfolding find_session
    find_session-Stays c [] h = h
    find_session-Stays c ((key, value) ∷ es) h =
        Ensures-if Stays (bytes_eq key (text "session_id")) _ (find_session env c es)
          (Ensures-deref Stays (env.jansson.string_value value) _
            (λ s e. record { session = refl; buffer = h.buffer }))
          (find_session-Stays c es h)

    run_handler-Stays :
        (k : Handler) (c : Context R) (d : Option J)
        → HasSession c
        → Ensures Stays (run_handler env k c d)
    unfolding run_handler ready_callback
    run_handler-Stays no_handler c d h = h
    run_handler-Stays dispatch_ready c d h = find_session-Stays c (entries_opt env.jansson d) h

    run_entry-Stays :
        (e : DispatchEntry) (c : Context R) (d : Option J)
        → HasSession c
        → Ensures Stays (run_entry env e c d)
    unfolding run_entry
    run_entry-Stays e c d h =
        Ensures->>= Stays Stays (run_handler env e.dispatch_callback c d) _
          (run_handler-Stays e.dispatch_callback c d h)
          (λ (ret, c') h'.
            Ensures-if Stays (is_ok ret) _ _ (call_user-Stays c' e.cbk_reason (json d) 0 h') h')

    search_dict-Stays :
        (es : List DispatchEntry) (name : Bytes) (c : Context R) (d : Option J)
        → HasSession c
        → Ensures Stays (search_dict env es name c d)
    unfolding search_dict
    search_dict-Stays [] name c d h = h
    search_dict-Stays (e ∷ es) name c d h =
        Ensures-if Stays (bytes_eq name e.name) (run_entry env e c d) (search_dict env es name c d)
          (run_entry-Stays e c d h) (search_dict-Stays es name c d h)

    dispatch_parser-Stays :
        (c : Context R) (t d : Option J) → HasSession c → Ensures Stays (dispatch_parser env c t d)
    unfolding dispatch_parser dispatch_named
    dispatch_parser-Stays c t d h =
        Ensures-deref Stays t (λ v. dispatch_named env (env.jansson.string_value v) c d)
          (λ v e. named (env.jansson.string_value v))
      where
        named : (o : Option Bytes) → Ensures Stays (dispatch_named env o c d)
        named none = h
        named (some name) = search_dict-Stays dispatch_dict name c d h

    entry_keeps :
        (k : PayloadType) (v : J) (c : Context R) (p : Parts J)
        → HasSession c
        → HasSession (scan_entry env k v c p).0
    unfolding scan_entry
    entry_keeps Parser.op v c p h = h
    entry_keeps Parser.d v c p h = h
    entry_keeps Parser.t v c p h = h
    entry_keeps Parser.s v c p h = record { session = h.session; buffer = h.buffer }
    entry_keeps Parser.unknown v c p h = h

    scan_keeps :
        (es : List (Bytes × J)) (x : Context R × Option (Parts J))
        → HasSession x.0
        → HasSession (scan env es x).0
    unfolding scan
    scan_keeps es (c, none) h = h
    scan_keeps [] (c, some p) h = h
    scan_keeps ((key, value) ∷ es) (c, some p) h =
        scan_keeps es (scan_entry env (payload_objectparser key) value c p)
          (entry_keeps (payload_objectparser key) value c p h)

    hello-Stays :
        (m : Bool) (now : ℕ) (c : Context R) (d : Option J)
        → HasSession c
        → Ensures Stays (on_hello env m now c d)
    hello-Stays m now c d h = elim (Option-cases c.gateway_session_id) [
      | inl e ↦ absurd (no_session (sym h.session ∙ ap is_some e))
      | inr (s, e) ↦ rw (hello_faults env m now c d s e) tt
    ]
      where
        no_session : true ≡ false → ⊥
        no_session e = cc

    on_opcode-Stays :
        (m : Bool) (now : ℕ) (op : Opcode) (c : Context R) (p : Parts J)
        → op ≢ Payload.invalidate_session
        → HasSession c
        → Ensures Stays (on_opcode env m now op c p)
    unfolding on_opcode
    on_opcode-Stays m now Payload.dispatch c p other h =
        dispatch_parser-Stays c p.type_part p.data_part h
    on_opcode-Stays m now Payload.hello c p other h = hello-Stays m now c p.data_part h
    on_opcode-Stays m now Payload.invalidate_session c p other h = absurd (other refl)
    on_opcode-Stays m now Payload.heartbeat_ack c p other h = record {
      session = h.session;
      buffer = h.buffer;
    }
    on_opcode-Stays m now Payload.unknown c p other h = h
    on_opcode-Stays m now _ c p other h = h

    finish_scan-Stays :
        (m : Bool) (now : ℕ) (x : Context R × Option (Parts J))
        → ((p : Parts J) → x.1 ≡ some p → opcode_of p.opcode ≢ Payload.invalidate_session)
        → HasSession x.0
        → Ensures Stays (finish_scan env m now x)
    unfolding finish_scan
    finish_scan-Stays m now (c, none) other h = h
    finish_scan-Stays m now (c, some p) other h =
        on_opcode-Stays m now (opcode_of p.opcode) c p (other p refl) h

    pub payload_parser-Stays :
        (m : Bool) (now : ℕ) (c : Context R) (bytes : Bytes)
        → NoInvalidation bytes
        → HasSession c
        → Ensures Stays (payload_parser env m now c bytes)
    unfolding payload_parser parse_loaded
    payload_parser-Stays m now c bytes other h = loaded (env.jansson.loads bytes) refl
      where
        loaded :
            (o : Option J)
            → env.jansson.loads bytes ≡ o
            → Ensures Stays (parse_loaded env m now c o)
        loaded none e = h
        loaded (some v) e =
            let x = scan env (env.jansson.entries v) (c, some (no_parts env)) in
            finish_scan-Stays m now x (λ p. other c v p e)
              (scan_keeps (env.jansson.entries v) (c, some (no_parts env)) h)
