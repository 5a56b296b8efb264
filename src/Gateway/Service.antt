-- ===== src/Gateway/Service.antt =====
-- `ld_service` (lib/libdiscord.c), and the loop that calls it.
pub mod Missed
use libdiscord.Prelude.{
  ℕ, ℤ, pos, Bool, true, false, not, Option, none, some, List, [], ◌∷◌, ◌==◌, if◌then◌else◌,
  is_some, Exec, done, deref, ◌>>=◌,
}
use libdiscord.Status.{code, ok, connection_err, is_ok}
use libdiscord.Context.{Context, Platform}
use libdiscord.Gateway.Dispatch.{Result}
use libdiscord.Gateway.Heartbeat.{heartbeat_timer}
use libdiscord.Gateway.Callback.{Event, Host, lws_callback}

-- One call's surroundings: two readings of the clock, and the events that `lws_service` reports,
-- which depend on whether a writeable callback was asked for.
pub record Round : Type 0 where
  pub now : ℕ
  pub later : ℕ
  pub events : Bool → List Event

module _ {J R : Type 0} (env : Platform J R) where
  -- `lws_service`: the callback is called for each event.
  unfoldable pub run_events : Host R → List Event → Exec (Host R)
  run_events h [] = done h
  run_events h (e ∷ es) = lws_callback env h e >>= λ (i, h'). run_events h' es

  -- `connect` is `ld_connect`.
  module _ (connect : Context R → Exec (Result env)) where
    -- A new connection; after an error the call sleeps, which changes nothing.
    unfoldable pub reconnect : Host R → Exec (ℤ × Host R)
    reconnect h = do
      (ret, c) ← connect h.context
      done (if is_ok ret then code ok else code connection_err, record h { context = c })

    -- The timer, then the events.
    unfoldable pub service_connected : Host R → Round → Exec (ℤ × Host R)
    service_connected h w = do
      (early, c) ← heartbeat_timer env h.context w.now w.later
      let h' = record h { context = c }
      let go_on = do
        ring ← deref c.gateway_ring
        h'' ← run_events h' (w.events (not (env.ring.count_waiting ring == 0)))
        done (code ok, h'')
      elim early [ some status ↦ done (status, h') | none ↦ go_on ]

    -- `ld_service`
    unfoldable pub service : Host R → Round → Exec (ℤ × Host R)
    unfolding reconnect service_connected
    service h w = if is_some h.context.lws_wsi then service_connected h w else reconnect h
