-- ===== src/Gateway/Order/Refine/Rounds.antt =====
-- The timer and the loop of `ld_service` as steps of the queue.
use libdiscord.Prelude.{
  ℕ, ◌≡◌, ℤ, pos, not, Option, none, some, List, [], ◌∷◌, Bytes, ◌==◌, length, Exec, done, Ensures,
  Ensures->>=, Ensures-deref, Ensures-if, Ensures-done, Ensures-map, ap, ◌>>=◌, deref, is_some,
  ltb_ℤ, ◌+ℤ◌,
}
use libdiscord.Ring.{RingLaws}
use libdiscord.Status.{is_ok, code, ok}
use libdiscord.Context.{Context, GatewayPayload, Platform}
use libdiscord.Gateway.Dispatch.{Result}
use libdiscord.Gateway.Heartbeat.{
  dumps_opt, heartbeat_payload, queue_heartbeat, is_due, heartbeat_timer,
}
use libdiscord.Gateway.Callback.{Host}
use libdiscord.Gateway.Service.{Round, run_events, reconnect, service_connected, service}
use libdiscord.Gateway.Order.{Steps, here, Steps-trans}
use libdiscord.Gateway.Order.Refine.{outbox, Grows, Same, KeepsRing, same_ring-Grows, insert-Grows}
use libdiscord.Gateway.Order.Refine.Receiving.{GrowsBy}
use libdiscord.Status.{websocket_cantfit_heartbeat_err}
use libdiscord.Gateway.Service.Missed.{rounds}
use libdiscord.Connect.{Outside, connect}
use libdiscord.Connect.Kept.{kept, connect-Keeps}
use libdiscord.Gateway.Order.Refine.Events.{Went, Went-trans, run_events-Went}

module _ {J R : Type 0} (env : Platform J R) (laws : RingLaws env.ring)
    (keeps : KeepsRing env) where
  queue_heartbeat-Grows :
      (sent : List Bytes) (c : Context R)
      → Ensures (GrowsBy env laws sent c) (queue_heartbeat env c)
  unfolding queue_heartbeat
  queue_heartbeat-Grows sent c = Ensures-deref (GrowsBy env laws sent c) c.gateway_ring _ (λ r ring.
      Ensures-if (GrowsBy env laws sent c) (env.ring.count_free r == 0) _ _ here (
        Ensures-deref (GrowsBy env laws sent c) (dumps_opt env (heartbeat_payload env c.last_seq)) _
          (λ s e.
            let p : GatewayPayload = record { payload = s; len = length s } in
            let c' = record c { gateway_ring = some (env.ring.insert r p).1 } in
            Ensures-if (GrowsBy env laws sent c) ((env.ring.insert r p).0 == 1) (done (code ok, c'))
              (done (code websocket_cantfit_heartbeat_err, c'))
              (insert-Grows env laws sent c r p ring) (insert-Grows env laws sent c r p ring))))

  heartbeat_timer-Grows :
      (sent : List Bytes) (c : Context R) (now later : ℕ)
      → Ensures (λ x. Grows env laws sent c x.1) (heartbeat_timer env c now later)
  unfolding heartbeat_timer
  heartbeat_timer-Grows sent c now later =
      let P = λ (x : Option ℤ × Context R). Grows env laws sent c x.1 in
      let c1 = record c { hb_count = c.hb_count +ℤ pos 1 } in
      Ensures-if P (is_due env c now) _ _
        (Ensures-if P (ltb_ℤ (pos 1) c1.hb_count) _ _ here (
          Ensures->>= (GrowsBy env laws sent c1) P (queue_heartbeat env c1) _
            (queue_heartbeat-Grows sent c1)
            (λ (ret, c2) grows. Ensures-if P (is_ok ret) _ _ grows grows)))
        here

  module _ (connect : Context R → Exec (Result env)) where
    -- What is asked of connecting: it leaves the ring alone.
    abbrev pub ConnectKeeps : Type 0
    ConnectKeeps = (c : Context R) → Ensures (Same env c) (connect c)

    module _ (connects : ConnectKeeps) where
      reconnect-Went :
          (h : Host R) → Ensures (λ x. Went env laws keeps h x.1) (reconnect env connect h)
      unfolding reconnect
      reconnect-Went h =
          Ensures->>= (Same env h.context) (λ x. Went env laws keeps h x.1) (connect h.context) _
            (connects h.context) (λ (ret, c) same. same_ring-Grows env laws h.sent h.context c same)

      connected-Went :
          (h : Host R) (w : Round)
          → Ensures (λ x. Went env laws keeps h x.1) (service_connected env connect h w)
      unfolding service_connected
      connected-Went h w =
          Ensures->>= (λ x. Grows env laws h.sent h.context x.1) (λ x. Went env laws keeps h x.1)
            (heartbeat_timer env h.context w.now w.later) _
            (heartbeat_timer-Grows h.sent h.context w.now w.later)
            (λ (early, c) grows. after early c grows)
        where
          after :
              (early : Option ℤ) (c : Context R)
              → Grows env laws h.sent h.context c
              → Ensures
                  (λ x. Went env laws keeps h x.1)
                  (let h' = record h { context = c } in
                    let go_on = do
                      ring ← deref c.gateway_ring
                      h'' ← run_events env h' (w.events (not (env.ring.count_waiting ring == 0)))
                      done (code ok, h'')
                    in elim early as (λ _. Exec (ℤ × Host R)) [
                      | some status ↦ done (status, h')
                      | none ↦ go_on
                    ])
          after (some status) c grows = grows
          after none c grows =
              let h' = record h { context = c } in
              Ensures-deref (λ x. Went env laws keeps h x.1) c.gateway_ring _
                (λ ring e.
                  let es = w.events (not (env.ring.count_waiting ring == 0)) in
                  Ensures->>= (Went env laws keeps h) (λ x. Went env laws keeps h x.1)
                    (run_events env h' es) _
                    (Went-trans env laws keeps h h' (run_events env h' es) (λ x. x) grows
                      (run_events-Went env laws keeps h' es))
                    (λ h'' went. went))

      service-Went :
          (h : Host R) (w : Round)
          → Ensures (λ x. Went env laws keeps h x.1) (service env connect h w)
      unfolding service
      service-Went h w =
          Ensures-if (λ x. Went env laws keeps h x.1) (is_some h.context.lws_wsi) _ _
            (connected-Went h w) (reconnect-Went h)

      -- The loop of `ld_service` in any number of rounds, with any events, is steps of the queue.
      rounds-Went :
          (h : Host R) (ws : List Round)
          → Ensures (λ x. Went env laws keeps h x.1) (rounds env connect h ws)
      unfolding rounds
      rounds-Went h [] = here
      rounds-Went h (w ∷ ws) =
          Ensures->>= (λ x. Went env laws keeps h x.1) (λ x. Went env laws keeps h x.1)
            (service env connect h w) _ (service-Went h w)
            (λ (status, h1) went.
              Ensures->>= (λ x. Went env laws keeps h1 x.1) (λ x. Went env laws keeps h x.1)
                (rounds env connect h1 ws) _ (rounds-Went h1 ws)
                (λ (statuses, h2) more. Steps-trans went more))

-- The loop with `ld_connect` itself.
module _ {J R : Type 0} (env : Platform J R) (laws : RingLaws env.ring) (keeps : KeepsRing env)
    (out : Outside J) where
  -- For a bot whose callback leaves the ring alone: whenever the loop of `ld_service` and `ld_connect`
  -- returns, after any number of rounds with any events, clocks and answers, what it did to the waiting
  -- and the written texts is a sequence of steps of the queue, in which what waits first is sent first.
  pub rounds-Steps :
      (h h' : Host R) (ws : List Round) (statuses : List ℤ)
      → rounds env (connect out) h ws ≡ done (statuses, h')
      → Steps (outbox env laws h.context h.sent) (outbox env laws h'.context h'.sent)
  rounds-Steps h h' ws statuses returns =
      Ensures-done (λ x. Went env laws keeps h x.1) (rounds env (connect out) h ws)
        (rounds-Went env laws keeps (connect out)
          (λ c.
            Ensures-map (λ r. kept r.1 ≡ kept c) (Same env c) (connect out c) (connect-Keeps out c)
              (λ r same. ap (λ k. k.0) same))
          h ws)
        returns
