-- ===== src/Gateway/Sessions/Resuming.antt =====
-- A session that is kept over new connections, and what the next HELLO does.
use libdiscord.Prelude.{
  ℕ, ◌≡◌, refl, ap, sym, ◌∙◌, ℤ, pos, Bool, true, false, not, Option, none, some, List, [], ◌∷◌,
  Bytes, ◌==◌, Exec, fault, done, Ensures, Ensures->>=, Ensures-deref, Ensures-if, Ensures-map,
  Ensures-done, ◌>>=◌, deref, is_some, ltb_ℤ, ◌+ℤ◌, All, length, Option-cases, inl, inr,
}
use libdiscord.Status.{is_ok, code, ok, websocket_cantfit_heartbeat_err}
use libdiscord.Context.{Context, GatewayPayload, Platform}
use libdiscord.Gateway.Heartbeat.{
  dumps_opt, heartbeat_payload, queue_heartbeat, is_due, heartbeat_timer,
}
use libdiscord.Gateway.Parser.Session.{IsPayload, hello_with_session_faults}
use libdiscord.Gateway.Receive.{receive}
use libdiscord.Gateway.Callback.{Host, client_receive, lws_callback, context_callback}
use libdiscord.Gateway.Service.{Round, run_events, reconnect, service_connected, service}
use libdiscord.Gateway.Service.Missed.{rounds}
use libdiscord.Connect.{Outside, connect}
use libdiscord.Connect.Kept.{kept, connect-Keeps}
use libdiscord.Gateway.Sessions.{HasSession, KeepsSession, Stays, HasSession-same}
use libdiscord.Gateway.Sessions.Events.{Harmless, HostStays, run_events-Stays}

module _ {J R : Type 0} (env : Platform J R) where
  queue_heartbeat-Stays :
      (c : Context R) → HasSession c → Ensures (Stays env) (queue_heartbeat env c)
  unfolding queue_heartbeat
  queue_heartbeat-Stays c h = Ensures-deref (Stays env) c.gateway_ring _ (λ r ring.
      Ensures-if (Stays env) (env.ring.count_free r == 0) _ _ h (
        Ensures-deref (Stays env) (dumps_opt env (heartbeat_payload env c.last_seq)) _ (λ s e.
          let p : GatewayPayload = record { payload = s; len = length s } in
          let c' = record c { gateway_ring = some (env.ring.insert r p).1 } in
          Ensures-if (Stays env) ((env.ring.insert r p).0 == 1) (done (code ok, c'))
            (done (code websocket_cantfit_heartbeat_err, c'))
            (record { session = h.session; buffer = h.buffer })
            (record { session = h.session; buffer = h.buffer }))))

  heartbeat_timer-Stays :
      (c : Context R) (now later : ℕ)
      → HasSession c
      → Ensures (λ x. HasSession x.1) (heartbeat_timer env c now later)
  unfolding heartbeat_timer
  heartbeat_timer-Stays c now later h =
      let P = λ (x : Option ℤ × Context R). HasSession x.1 in
      let c1 = record c { hb_count = c.hb_count +ℤ pos 1 } in
      let h1 : HasSession c1 = record { session = h.session; buffer = h.buffer } in
      Ensures-if P (is_due env c now) _ _
        (Ensures-if P (ltb_ℤ (pos 1) c1.hb_count) _ _ h1 (
          Ensures->>= (Stays env) P (queue_heartbeat env c1) _ (queue_heartbeat-Stays c1 h1)
            (λ (ret, c2) h2.
              Ensures-if P (is_ok ret) _ _ (record { session = h2.session; buffer = h2.buffer })
                (record { session = h2.session; buffer = h2.buffer }))))
        h

  -- The rounds whose events are all harmless, whether or not a payload waits.
  abbrev pub AllHarmless : List Round → Type 0
  AllHarmless = All (λ w. (b : Bool) → All (Harmless env) (w.events b))

  module _ (keeps : KeepsSession env) (out : Outside J) where
    connect-Stays : (c : Context R) → HasSession c → Ensures (Stays env) (connect out c)
    connect-Stays c h =
        Ensures-map (λ r. kept r.1 ≡ kept c) (Stays env) (connect out c) (connect-Keeps out c)
          (λ r same. HasSession-same env c r.1 (ap (λ k. k.1) same) (ap (λ k. k.2) same) h)

    service-Stays :
        (h : Host R) (w : Round)
        → ((b : Bool) → All (Harmless env) (w.events b))
        → HasSession h.context
        → Ensures (HostStays env keeps) (service env (connect out) h w)
    unfolding service service_connected reconnect
    service-Stays h w harmless k =
        let P = HostStays env keeps in
        Ensures-if P (is_some h.context.lws_wsi) _ _
          (Ensures->>= (λ x. HasSession x.1) P (heartbeat_timer env h.context w.now w.later) _
            (heartbeat_timer-Stays h.context w.now w.later k) (λ (early, c) k'. after early c k'))
          (Ensures->>= (Stays env) P (connect out h.context) _ (connect-Stays h.context k)
            (λ (ret, c) k'. k'))
      where
        after :
            (early : Option ℤ) (c : Context R)
            → HasSession c
            → Ensures (HostStays env keeps) (
                let h' = record h { context = c } in
                let go_on = do
                  ring ← deref c.gateway_ring
                  h'' ← run_events env h' (w.events (not (env.ring.count_waiting ring == 0)))
                  done (code ok, h'')
                in elim early as (λ _. Exec (ℤ × Host R)) [
                  | some status ↦ done (status, h')
                  | none ↦ go_on
                ])
        after (some status) c k' = k'
        after none c k' =
            let h' = record h { context = c } in
            Ensures-deref (HostStays env keeps) c.gateway_ring _ (λ ring e.
              let b = not (env.ring.count_waiting ring == 0) in
              Ensures->>= (λ x. HasSession x.context) (HostStays env keeps)
                (run_events env h' (w.events b)) _
                (run_events-Stays env keeps h' (w.events b) (harmless b) k') (λ h'' k''. k''))

    rounds-Stays :
        (h : Host R) (ws : List Round)
        → AllHarmless ws
        → HasSession h.context
        → Ensures (λ x. HasSession x.1.context) (rounds env (connect out) h ws)
    unfolding rounds
    rounds-Stays h [] harmless k = k
    rounds-Stays h (w ∷ ws) harmless k =
        Ensures->>= (HostStays env keeps) (λ x. HasSession x.1.context)
          (service env (connect out) h w) _ (service-Stays h w harmless.0 k)
          (λ (status, h1) k1.
            Ensures->>= (λ x. HasSession x.1.context) (λ x. HasSession x.1.context)
              (rounds env (connect out) h1 ws) _ (rounds-Stays h1 ws harmless.1 k1)
              (λ (statuses, h2) k2. k2))

    -- From a host with a session, and a bot whose callback leaves the session alone: whatever the loop of
    -- ld_service and ld_connect goes through in any rounds that return, closed and new connections
    -- included, as long as messages come as a whole and none is an INVALID_SESSION, the session is kept,
    -- and the next HELLO, as every new connection starts with, makes the websocket callback run into
    -- undefined behaviour.
    pub resume_faults :
        (h h' : Host R) (ws : List Round) (statuses : List ℤ) (bytes : Bytes) (v o : J)
        (first m : Bool) (now : ℕ)
        → HasSession h.context
        → AllHarmless ws
        → rounds env (connect out) h ws ≡ done (statuses, h')
        → IsPayload env bytes v o 10
        → (is_some h'.context.gateway_session_id ≡ true)
          × (lws_callback env h' (client_receive bytes first true now m) ≡ fault)
    unfolding lws_callback context_callback receive
    resume_faults h h' ws statuses bytes v o first m now k harmless returns hello =
        let k' : HasSession h'.context =
          Ensures-done (λ x. HasSession x.1.context) (rounds env (connect out) h ws)
            (rounds-Stays h ws harmless k) returns in
        let closed : is_some h'.context.gateway_rx_buffer ≡ false = ap is_some k'.buffer in
        elim (Option-cases h'.context.gateway_session_id) [
          | inl e ↦ absurd (no_session (sym k'.session ∙ ap is_some e))
          | inr (s, e) ↦ (
            k'.session,
            rw (closed, hello_with_session_faults env m now h'.context bytes v o s hello e) refl,
          )
        ]
      where
        no_session : true ≡ false → ⊥
        no_session e = cc
