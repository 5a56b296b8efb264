-- ===== src/Tests/Sessions.antt =====
-- The theorem on keeping a session, at concrete rounds.
use libdiscord.Prelude.{
  ◌≡◌, refl, pos, true, some, List, [], ◌∷◌, bytes_eq, text, fault, done, is_some,
}
use libdiscord.Status.{code, ok}
use libdiscord.Jansson.Tree.{Tree, field, end, object, integer, null}
use libdiscord.Context.{Platform}
use libdiscord.Connect.{connect, connect_gateway}
use libdiscord.Gateway.Parser.{payload_objectparser}
use libdiscord.Gateway.Parser.Session.{IsPayload}
use libdiscord.Gateway.Callback.{
  Host, lws_callback, client_receive, client_established, wsi_destroy, peer_initiated_close,
}
use libdiscord.Gateway.Service.{Round, run_events, service}
use libdiscord.Gateway.Service.Missed.{rounds}
use libdiscord.Gateway.Heartbeat.{heartbeat_timer}
use libdiscord.Gateway.Sessions.{KeepsSession}
use libdiscord.Gateway.Sessions.Resuming.{AllHarmless, resume_faults}
use libdiscord.Tests.Base.{Payloads, platform_of, context_of}
use libdiscord.Tests.Setup.{outside, no_user}

-- Every text is this HELLO.
abbrev hello : Tree
hello = object (field (text "op") (integer (pos 10)) (field (text "d") null end))

abbrev pf : Platform Tree Payloads
pf = platform_of hello

keeps : KeepsSession pf
keeps f c reason d len = (refl, refl)

hello-IsPayload : IsPayload pf [] hello (integer (pos 10)) 10
unfolding text bytes_eq payload_objectparser
hello-IsPayload = record {
  loaded = refl;
  distinct = (refl, (refl, tt));
  known = (cc, (cc, tt));
  op = refl;
  number = refl;
}

-- A host with a session that knows how to connect.
abbrev with_session : Host Payloads
with_session = record {
  context = record (context_of 1 []) {
    gateway_session_id = some (5 ∷ []);
    gateway_url = some (1 ∷ []);
    gateway_bot_url = some (1 ∷ 2 ∷ 3 ∷ 4 ∷ 5 ∷ 6 ∷ 7 ∷ []);
    current_user = some (some no_user);
  };
  sent = [];
}

-- The connection is closed and goes away, and a new one is made.
abbrev lost_and_found : List Round
lost_and_found =
    record {
      now = 10;
      later = 10;
      events = λ writeable. peer_initiated_close (3 ∷ 233 ∷ []) 0 ∷ wsi_destroy ∷ [];
    }
    ∷ record { now = 20; later = 20; events = λ writeable. [] }
    ∷ record { now = 30; later = 30; events = λ writeable. client_established 30 ∷ [] }
    ∷ []

abbrev reconnected : Host Payloads
reconnected = record {
  context = record (with_session.context) { close_code = 1001; lws_wsi = some 12; last_hb = 30 };
  sent = [];
}

rounds_run :
    rounds pf (connect outside) with_session lost_and_found
    ≡ done (code ok ∷ code ok ∷ code ok ∷ [], reconnected)
unfolding rounds service heartbeat_timer run_events lws_callback connect connect_gateway
rounds_run = refl

harmless : AllHarmless pf lost_and_found
harmless = (λ b. (tt, (tt, tt)), (λ b. tt, (λ b. (tt, tt), tt)))

resume_faults_example :
    (is_some reconnected.context.gateway_session_id ≡ true)
    × (lws_callback pf reconnected (client_receive [] true true 40 true) ≡ fault)
resume_faults_example =
    resume_faults pf keeps outside with_session reconnected lost_and_found
      (code ok ∷ code ok ∷ code ok ∷ []) [] hello (integer (pos 10)) true true 40
      (record { session = refl; buffer = refl }) harmless rounds_run hello-IsPayload
