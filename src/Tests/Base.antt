-- ===== src/Tests/Base.antt =====
-- A platform over trees and queues, and a context.
use libdiscord.Prelude.{
  ℕ, ◌*◌, ◌+◌, ◌/◌, ◌≤◌, leb, if◌then◌else◌, arith, ℤ, pos, false, none, some, List, [], ◌∷◌, Bytes,
  length, Exec, done,
}
use libdiscord.Jansson.{Jansson}
use libdiscord.Jansson.Tree.{Tree, tree_json}
use libdiscord.Ring.Queue.{Queue, queue_ring}
use libdiscord.Context.{Context, GatewayPayload, Platform, Handle, CallbackReason, CallbackData}
use libdiscord.Rest.Curl.{EasyOptions, Exchange}
use libdiscord.Init.{zero_context}

abbrev pub Payloads : Type 0
Payloads = Queue GatewayPayload

-- Every text is read as the one tree, and every tree printed as the one text.
abbrev pub json_of : Tree → Jansson Tree
json_of v = tree_json (λ s. some v) (λ t. some (7 ∷ []))

-- The user's callback returns 5 and leaves the context as it is.
abbrev pub call_five :
    Handle → Context Payloads → CallbackReason → CallbackData Tree → ℕ → Exec (ℤ × Context Payloads)
call_five f c reason d len = done (pos 5, c)

abbrev pub platform_of : Tree → Platform Tree Payloads
platform_of v = record {
  jansson = json_of v;
  ring = queue_ring;
  call = call_five;
  lws_write = λ s. pos (length s);
  lws_pre = 16;
}

-- A context with a callback, a token and a ring of some size that holds some payloads.
abbrev pub context_of : ℕ → List GatewayPayload → Context Payloads
context_of size items = record zero_context {
  bot_token = some (1 ∷ []);
  user_callback = some 1;
  lws_wsi = some 2;
  gateway_ring = some (record { size = size; items = items });
  device = some (2 ∷ []);
  browser = some (3 ∷ []);
  os = some (4 ∷ []);
}

abbrev pub payload_of : Bytes → GatewayPayload
payload_of s = record { payload = s; len = length s }

-- The bytes that can be used of a block for some bytes in glibc on a 64-bit system.
abbrev pub usable : ℕ → ℕ
usable n = 8 * (if leb n 24 then 3 else 2 * ((n + 7) / 16) + 1)

pub usable_lem : (n : ℕ) → n ≤ usable n
usable_lem n = ground arith

abbrev pub no_options : EasyOptions
no_options = record {
  url = none;
  http_header = [];
  user_agent = none;
  post_fields = none;
  post_field_size = 0;
  verbose = false;
  performed = [];
}

abbrev pub answer : Exchange
answer = record { result = pos 0; status = pos 404; chunks = (123 ∷ []) ∷ (125 ∷ []) ∷ [] }
