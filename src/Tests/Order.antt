-- ===== src/Tests/Order.antt =====
-- The theorems on the queue of texts, at concrete rounds.
use libdiscord.Prelude.{◌≡◌, refl, pos, List, [], ◌∷◌, done, ◌+ℤ◌}
use libdiscord.Status.{code, ok}
use libdiscord.Jansson.Tree.{Tree, null}
use libdiscord.Ring.Queue.{queue_laws}
use libdiscord.Context.{Platform}
use libdiscord.Connect.{connect}
use libdiscord.Gateway.Callback.{Host, lws_callback, client_writeable}
use libdiscord.Gateway.Service.{Round, run_events, service}
use libdiscord.Gateway.Service.Missed.{rounds}
use libdiscord.Gateway.Heartbeat.{heartbeat_timer, queue_heartbeat, heartbeat_payload}
use libdiscord.Payload.{create_payload}
use libdiscord.Gateway.Order.{Steps}
use libdiscord.Gateway.Order.Refine.{KeepsRing, outbox}
use libdiscord.Gateway.Order.Refine.Rounds.{rounds-Steps}
use libdiscord.Tests.Base.{Payloads, platform_of, context_of, payload_of}
use libdiscord.Tests.Setup.{outside}

abbrev pf : Platform Tree Payloads
pf = platform_of null

keeps : KeepsRing pf
keeps f c reason d len = refl

-- Two payloads wait; in the second round a heartbeat is due as well.
abbrev before : Host Payloads
before = record {
  context = record (context_of 3 (payload_of (8 ∷ []) ∷ payload_of (9 ∷ []) ∷ [])) {
    heartbeat_interval = 41250;
    last_hb = 1000;
  };
  sent = [];
}

abbrev after : Host Payloads
after = record {
  context = record (context_of 3 (payload_of (7 ∷ []) ∷ [])) {
    heartbeat_interval = 41250;
    last_hb = 1061;
    hb_count = pos 1;
  };
  sent = (8 ∷ []) ∷ (9 ∷ []) ∷ [];
}

abbrev two_rounds : List Round
two_rounds =
    record { now = 1010; later = 1010; events = λ writeable. client_writeable ∷ [] }
    ∷ record { now = 1060; later = 1061; events = λ writeable. client_writeable ∷ [] }
    ∷ []

loop_runs : rounds pf (connect outside) before two_rounds ≡ done (code ok ∷ code ok ∷ [], after)
unfolding rounds service heartbeat_timer run_events lws_callback ◌+ℤ◌ queue_heartbeat
    heartbeat_payload create_payload
loop_runs = refl

rounds-Steps_example :
    Steps
      (outbox pf queue_laws before.context before.sent)
      (outbox pf queue_laws after.context after.sent)
rounds-Steps_example =
    rounds-Steps pf queue_laws keeps outside before after two_rounds (code ok ∷ code ok ∷ [])
      loop_runs
