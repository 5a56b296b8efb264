-- ===== src/Gateway/Service/Missed.antt =====
-- Missed acknowledgements, as the loop around `ld_service` sees them.
use libdiscord.Prelude.{
  ℕ, ◌≡◌, ap, ◌∙◌, ℤ, pos, ◌+ℤ◌, ◌≤ℤ◌, true, List, [], ◌∷◌, arith, suc, +ℤ_parts, eq_of_parts, Exec,
  done, is_some, if◌then◌else◌, ◌>>=◌, All, length, sym,
}
use libdiscord.Status.{code, websocket_heartbeat_acknowledegement_missed}
use libdiscord.Context.{Context, Platform}
use libdiscord.Gateway.Dispatch.{Result}
use libdiscord.Gateway.Heartbeat.{is_due}
use libdiscord.Gateway.Heartbeat.Timer.{heartbeat_timer_missed}
use libdiscord.Gateway.Callback.{Host}
use libdiscord.Gateway.Service.{Round, service, service_connected, reconnect}

still_waiting : (n : ℤ) → pos 1 ≤ℤ n → pos 1 ≤ℤ n +ℤ pos 1
unfolding ◌+ℤ◌
still_waiting n h = ground arith

add_zero : (n : ℤ) → n +ℤ pos 0 ≡ n
unfolding ◌+ℤ◌
add_zero n = ground arith

add_one-pos : (n : ℤ) (k : ℕ) → n +ℤ pos 1 +ℤ pos k ≡ n +ℤ pos (suc k)
add_one-pos n k =
    eq_of_parts (n +ℤ pos 1 +ℤ pos k) (n +ℤ pos (suc k))
      (omega (arith, +ℤ_parts n (pos 1), +ℤ_parts (n +ℤ pos 1) (pos k), +ℤ_parts n (pos (suc k))))

-- The host with more heartbeats counted.
abbrev pub counted : {R : Type 0} → Host R → ℤ → Host R
counted h n = record h { context = record (h.context) { hb_count = n } }

-- The status for a missed acknowledgement, once for each round.
abbrev pub missed : List Round → List ℤ
missed [] = []
missed (w ∷ ws) = code websocket_heartbeat_acknowledegement_missed ∷ missed ws

module _ {J R : Type 0} (env : Platform J R) (connect : Context R → Exec (Result env)) where
  -- The caller's loop, with the statuses that it sees.
  unfoldable pub rounds : Host R → List Round → Exec (List ℤ × Host R)
  rounds h [] = done ([], h)
  rounds h (w ∷ ws) = do
    (status, h1) ← service env connect h w
    (statuses, h2) ← rounds h1 ws
    done (status ∷ statuses, h2)

  service_with_connection :
      (h : Host R) (w : Round)
      → is_some h.context.lws_wsi ≡ true
      → service env connect h w ≡ service_connected env connect h w
  unfolding service
  service_with_connection h w connected =
      ap (λ b. if b then service_connected env connect h w else reconnect env connect h) connected

  pub service_missed :
      (h : Host R) (w : Round)
      → is_some h.context.lws_wsi ≡ true
      → is_due env h.context w.now ≡ true
      → pos 1 ≤ℤ h.context.hb_count
      → service env connect h w
        ≡ done (
          code websocket_heartbeat_acknowledegement_missed,
          counted h (h.context.hb_count +ℤ pos 1),
        )
  unfolding service_connected
  service_missed h w connected due waiting =
      service_with_connection h w connected
      ∙ rw (heartbeat_timer_missed env h.context w.now w.later due waiting)

  pub rounds-missed :
      (h : Host R) (ws : List Round)
      → is_some h.context.lws_wsi ≡ true
      → All (λ w. is_due env h.context w.now ≡ true) ws
      → pos 1 ≤ℤ h.context.hb_count
      → rounds h ws ≡ done (missed ws, counted h (h.context.hb_count +ℤ pos (length ws)))
  unfolding rounds is_due
  rounds-missed h [] connected due waiting =
      ap (λ n. done ([], counted h n)) (sym (add_zero h.context.hb_count))
  rounds-missed h (w ∷ ws) connected (due_now, due) waiting =
      let one = counted h (h.context.hb_count +ℤ pos 1) in
      rw (
        service_missed h w connected due_now waiting,
        rounds-missed one ws connected due (still_waiting h.context.hb_count waiting),
        add_one-pos h.context.hb_count (length ws),
      )
