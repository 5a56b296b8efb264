-- ===== src/Tests/Gateway.antt =====
-- The theorems on the gateway, at concrete inputs.
use libdiscord.Prelude.{
  ℕ, ◌+ℤ◌, ◌≡◌, refl, pos, true, none, some, List, [], ◌∷◌, text, bytes_eq, arith, done,
}
use mathlib.Core.List.{Memᴰ}
use libdiscord.Status.{code, json_gateway_dispatch_type_err}
use libdiscord.Jansson.Tree.{Tree, field, end, object, integer, string, null}
use libdiscord.Ring.Queue.{queue_laws}
use libdiscord.Context.{Context, GatewayPayload, Platform, json, channel_create, ready}
use libdiscord.Gateway.Dispatch.{dispatch_parser, dispatch_dict, call_user, no_handler}
use libdiscord.Gateway.Dispatch.Table.{
  dispatch_parser_event, dispatch_parser_ready, dispatch_parser_no_type,
}
use libdiscord.Gateway.Heartbeat.{dumps_opt, heartbeat_payload, is_due, heartbeat_timer}
use libdiscord.Gateway.Heartbeat.Timer.{heartbeat_timer_sends}
use libdiscord.Gateway.Callback.{Host, client_writeable}
use libdiscord.Gateway.Callback.Transmit.{run_events_drain}
use libdiscord.Gateway.Service.{Round, run_events}
use libdiscord.Payload.{create_payload}
use libdiscord.Tests.Base.{Payloads, platform_of, context_of, payload_of}

abbrev pf : Platform Tree Payloads
pf = platform_of null

-- 60 s after the last heartbeat, with an interval of 41.25 s, and some heartbeats not acknowledged.
abbrev beating : ℕ → List GatewayPayload → ℕ → Context Payloads
beating size items count = record (context_of size items) {
  heartbeat_interval = 41250;
  last_hb = 1000;
  hb_count = pos count;
}

due : is_due pf (beating 1 [] 1) 1060 ≡ true
unfolding is_due
due = refl

-- The heartbeat that is queued.
abbrev beat : GatewayPayload
beat = payload_of (7 ∷ [])

heartbeat_timer_sends_example :
    (r' : Payloads) × (heartbeat_timer pf (beating 2 [] 0) 1060 1061
      ≡ done (
        none,
        record (beating 2 [] 0) {
          hb_count = pos 0 +ℤ pos 1;
          last_hb = 1061;
          gateway_ring = some r';
        },
      ))
    × (r'.items ≡ beat ∷ [])
unfolding is_due dumps_opt heartbeat_payload create_payload queue_laws
heartbeat_timer_sends_example =
    heartbeat_timer_sends pf queue_laws (beating 2 [] 0) 1060 1061 (record { size = 2; items = [] })
      (7 ∷ []) refl (omega arith) refl (omega arith) refl

abbrev round_at : ℕ → Round
round_at t = record { now = t; later = t; events = λ writeable. [] }

abbrev stalled : Host Payloads
stalled = record { context = beating 1 [] 1; sent = [] }

-- Dispatch, to a callback that returns 5.
abbrev idle : Context Payloads
idle = context_of 1 []

dispatch_parser_event_example :
    dispatch_parser pf idle (some (string (text "CHANNEL_CREATE"))) none
    ≡ call_user pf idle channel_create (json none) 0
unfolding dispatch_dict
dispatch_parser_event_example =
    dispatch_parser_event pf idle (string (text "CHANNEL_CREATE")) none
      (record {
        name = text "CHANNEL_CREATE";
        cbk_reason = channel_create;
        dispatch_callback = no_handler;
      })
      refl (Memᴰ.tail (Memᴰ.head refl)) refl

dispatch_parser_ready_example :
    dispatch_parser pf idle
      (some (string (text "READY")))
      (some (object (field (text "session_id") (string (9 ∷ [])) end)))
    ≡ call_user pf
        (record idle { gateway_session_id = some (9 ∷ []) })
        ready
        (json (some (object (field (text "session_id") (string (9 ∷ [])) end))))
        0
unfolding text bytes_eq
dispatch_parser_ready_example =
    dispatch_parser_ready pf idle (string (text "READY"))
      (some (object (field (text "session_id") (string (9 ∷ [])) end))) (string (9 ∷ [])) (9 ∷ [])
      refl refl refl

dispatch_parser_no_type_example :
    dispatch_parser pf idle (some (integer (pos 3))) none
    ≡ done (code json_gateway_dispatch_type_err, idle)
dispatch_parser_no_type_example = dispatch_parser_no_type pf idle (integer (pos 3)) none refl

-- Two payloads that wait, and the events that send them.
abbrev waiting : Host Payloads
waiting = record { context = context_of 2 (beat ∷ beat ∷ []); sent = [] }

run_events_drain_example :
    (r' : Payloads) × (r'.items ≡ [])
    × (run_events pf waiting (client_writeable ∷ client_writeable ∷ [])
        ≡ done (record {
          context = record (waiting.context) { gateway_ring = some r' };
          sent = (7 ∷ []) ∷ (7 ∷ []) ∷ [];
        }))
unfolding queue_laws
run_events_drain_example =
    run_events_drain pf queue_laws (beat ∷ beat ∷ []) waiting
      (record { size = 2; items = beat ∷ beat ∷ [] }) refl refl
      ((omega arith, omega arith), ((omega arith, omega arith), tt))
