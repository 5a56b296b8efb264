-- ===== src/Gateway/Sessions/Events.antt =====
-- The websocket callback keeps a session.
use libdiscord.Prelude.{
  ℕ, ◌+◌, ◌*◌, ◌≡◌, refl, ap, ℤ, Bool, true, false, Bool-cases, inl, inr, ◌||◌, Option, none, some,
  List, [], ◌∷◌, Bytes, ◌==◌, length, get_elem?, leb, All, Ensures, Ensures->>=, Ensures->>=-any,
  Ensures-deref, Ensures-if, within, is_some,
}
use libdiscord.Context.{
  Context, GatewayPayload, Platform, null, close_message, ws_gateway_init_close,
  ws_connection_error, ws_established,
}
use libdiscord.Gateway.Dispatch.{call_user}
use libdiscord.Gateway.Parser.{payload_parser}
use libdiscord.Gateway.Receive.{receive}
use libdiscord.Gateway.Callback.{
  Event, Host, lws_callback, context_callback, peer_close, end_session, invalidate_first,
  copy_message, transmit, send_first, writeable, client_writeable, with_sent,
  client_connection_error, client_established, client_receive, peer_initiated_close, wsi_destroy,
}
use libdiscord.Gateway.Service.{run_events}
use libdiscord.Gateway.Sessions.{
  HasSession, KeepsSession, Stays, NoInvalidation, call_user-Stays, payload_parser-Stays,
}

module _ {J R : Type 0} (env : Platform J R) where
  -- An event that is no message, or a message that comes as a whole and is no INVALID_SESSION.
  abbrev pub Harmless : Event → Type 0
  Harmless (client_receive bytes first final now m) = (final ≡ true) × NoInvalidation env bytes
  Harmless _ = Unit

  module _ (keeps : KeepsSession env) where
    receive-Stays :
        (m : Bool) (now : ℕ) (c : Context R) (bytes : Bytes) (first final : Bool)
        → final ≡ true
        → NoInvalidation env bytes
        → HasSession c
        → Ensures (Stays env) (receive env m now c bytes first final)
    unfolding receive
    receive-Stays m now c bytes first final last other h =
        let closed : is_some c.gateway_rx_buffer ≡ false = ap is_some h.buffer in
        rw (last, closed)
          (Ensures->>= (Stays env) (Stays env) (payload_parser env m now c bytes) _
            (payload_parser-Stays env keeps m now c bytes other h)
            (λ r h'. record { session = h'.session; buffer = refl }))

    end_session-Stays : (c : Context R) → HasSession c → Ensures (Stays env) (end_session env c)
    unfolding end_session
    end_session-Stays c h =
        Ensures-if (Stays env) (c.close_code == 1000 || c.close_code == 4006) _ _
          (Ensures-deref (Stays env) c.gi _ (λ gis e.
            Ensures-deref (Stays env) (invalidate_first gis) _
              (λ gis' e'. record { session = h.session; buffer = h.buffer })))
          h

    peer_close-Stays :
        (c : Context R) (memory : Bytes) (len : ℕ)
        → HasSession c
        → Ensures (Stays env) (peer_close env c memory len)
    unfolding peer_close
    peer_close-Stays c memory len h =
        let P = Stays env in
        Ensures-deref P (get_elem? memory 0) _ (λ high e.
          Ensures-deref P (get_elem? memory 1) _ (λ low e'.
            Ensures->>=-any P (copy_message env memory len) _ (λ message.
              let c1 = record c { close_code = high * 256 + low } in
              Ensures->>= P P
                (call_user env c1 ws_gateway_init_close (close_message message) c1.close_code) _
                (call_user-Stays env keeps c1 ws_gateway_init_close (close_message message)
                  c1.close_code (record { session = h.session; buffer = h.buffer }))
                (λ (i, c2) h2. end_session-Stays c2 h2))))

    context_callback-Stays :
        (c : Context R) (e : Event)
        → Harmless e
        → HasSession c
        → Ensures (Stays env) (context_callback env c e)
    unfolding context_callback
    context_callback-Stays c client_connection_error ok h =
        Ensures->>= (Stays env) (Stays env) (call_user env c ws_connection_error null 0) _
          (call_user-Stays env keeps c ws_connection_error null 0 h)
          (λ (i, c') h'. record { session = h'.session; buffer = h'.buffer })
    context_callback-Stays c (client_established now) ok h =
        Ensures->>= (Stays env) (Stays env) (call_user env c ws_established null 0) _
          (call_user-Stays env keeps c ws_established null 0 h)
          (λ (i, c') h'. record { session = h'.session; buffer = h'.buffer })
    context_callback-Stays c (client_receive bytes first final now m) ok h =
        receive-Stays m now c bytes first final ok.0 ok.1 h
    context_callback-Stays c (peer_initiated_close memory len) ok h =
        peer_close-Stays c memory len h
    context_callback-Stays c wsi_destroy ok h = record { session = h.session; buffer = h.buffer }
    context_callback-Stays c _ ok h = h

    abbrev pub HostStays : ℤ × Host R → Type 0
    HostStays x = HasSession x.1.context

    transmit-Stays :
        (h : Host R) (s : Bytes) → HasSession h.context → Ensures HostStays (transmit env h s)
    unfolding transmit
    transmit-Stays h s k =
        Ensures->>=-any HostStays (within (leb (env.lws_pre + length s + 1) 8192)) _
          (λ u. elim (Bool-cases (length s == 0)) [ inl e ↦ rw e k | inr e ↦ rw e k ])

    send_first-Stays :
        (h : Host R) (o : Option (GatewayPayload × R))
        → HasSession h.context
        → Ensures HostStays (send_first env h o)
    unfolding send_first
    send_first-Stays h none k = k
    send_first-Stays h (some (p, ring)) k =
        transmit-Stays (record h { context = record (h.context) { gateway_ring = some ring } })
          p.payload (record { session = k.session; buffer = k.buffer })

    writeable-Stays : (h : Host R) → HasSession h.context → Ensures HostStays (writeable env h)
    unfolding writeable
    writeable-Stays h k = Ensures-deref HostStays h.context.gateway_ring _ (λ r e.
        Ensures-if HostStays (env.ring.count_waiting r == 0) _ _ k
          (send_first-Stays h (env.ring.consume r) k))

    with_sent-Stays :
        (h : Host R) (e : Event)
        → Harmless e
        → HasSession h.context
        → Ensures HostStays (with_sent env h.sent (context_callback env h.context e))
    with_sent-Stays h e ok k =
        Ensures->>= (Stays env) HostStays (context_callback env h.context e) _
          (context_callback-Stays h.context e ok k) (λ (i, c) h'. h')

    callback-Stays :
        (h : Host R) (e : Event)
        → Harmless e
        → HasSession h.context
        → Ensures HostStays (lws_callback env h e)
    unfolding lws_callback
    callback-Stays h client_writeable ok k = writeable-Stays h k
    callback-Stays h e ok k = with_sent-Stays h e ok k

    pub run_events-Stays :
        (h : Host R) (es : List Event)
        → All Harmless es
        → HasSession h.context
        → Ensures (λ h'. HasSession h'.context) (run_events env h es)
    unfolding run_events
    run_events-Stays h [] ok k = k
    run_events-Stays h (e ∷ es) ok k =
        Ensures->>= HostStays (λ h'. HasSession h'.context) (lws_callback env h e) _
          (callback-Stays h e ok.0 k) (λ (i, h') k'. run_events-Stays h' es ok.1 k')
