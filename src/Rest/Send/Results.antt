-- ===== src/Rest/Send/Results.antt =====
-- What `ld_send_basic_message` tells its caller.
use libdiscord.Prelude.{
  ℕ, ◌≡◌, refl, ℤ, pos, negsuc, ltb_ℤ, Bool, true, false, not, ◌&&◌, none, some, Bytes, Exec, done,
  if◌then◌else◌,
}
use libdiscord.Status.{is_ok}
use libdiscord.Jansson.{Jansson}
use libdiscord.Context.{Context}
use libdiscord.Rest.Curl.{Web, EasyOptions, Exchange, logged}
use libdiscord.Rest.Headers.{headers_clean}
use libdiscord.Rest.Headers.Lines.{Appends}
use libdiscord.Rest.Response.{Response}
use libdiscord.Rest.Response.Chunks.{Ample}
use libdiscord.Rest.Request.{Request, init_request, create_basic_message}
use libdiscord.Rest.Send.{set_options, send_basic_message}
use libdiscord.Rest.Send.Options.{
  IsComplete, SpareFirst, handle_after, request_options, send_request_lem, outcome-http_status,
  outcome-context,
}

-- The result by a transfer: 1 for an error status, and 0 also for a transfer that failed.
abbrev pub message_result : Exchange → ℤ
message_result exchange =
    if is_ok exchange.result && not (ltb_ℤ exchange.status (pos 400)) then pos 1 else pos 0

by_below :
    {A : Type 0} (below : Bool) (a : A)
    → if◌then◌else◌ {A = Exec (ℤ × A)} below (done (pos 0, a)) (done (pos 1, a))
      ≡ done (if not below then pos 1 else pos 0, a)
by_below true a = refl
by_below false a = refl

by_status :
    {A : Type 0} (good : Bool) (status : ℤ) (a : A)
    → if◌then◌else◌ {A = Exec (ℤ × A)}
        (ltb_ℤ (if good then status else negsuc 0) (pos 400))
        (done (pos 0, a))
        (done (pos 1, a))
      ≡ done (if good && not (ltb_ℤ status (pos 400)) then pos 1 else pos 0, a)
by_status true status a = by_below (ltb_ℤ status (pos 400)) a
by_status false status a = refl

module _ {J R : Type 0} (web : Web) (j : Jansson J) where
  -- Where the message's request can be made (whatever `ld_create_basic_message` returned), it makes one
  -- transfer, which the handle has last in its record, and the result is 1 exactly when an answer came with a status of 400 or above: a transfer that
  -- failed gives 0 like one that succeeded.
  pub send_basic_message_lem :
      (c : Context R) (garbage : Response) (channelid : ℕ) (message : Bytes) (req req' : Request)
      (created : ℤ) (opts : EasyOptions) (whole : IsComplete req')
      → init_request web none ≡ done req
      → create_basic_message web j c.bot_token req channelid message ≡ done (created, req')
      → Ample web
      → Appends web
      → c.curl_handle ≡ some opts
      → SpareFirst web (web.perform (request_options web opts req' whole)).chunks
      → send_basic_message web j c garbage channelid message
        ≡ done (
          message_result (web.perform (request_options web opts req' whole)),
          record c { curl_handle = some (handle_after web opts req' whole) },
        )
  unfolding send_basic_message set_options headers_clean
  send_basic_message_lem c garbage channelid message req req' created opts whole begun made ample
        appends handle spare =
      let opts' = request_options web opts req' whole in
      let exchange = web.perform opts' in
      rw
        (
          begun,
          made,
          send_request_lem web c garbage req' opts whole ample appends handle spare,
          outcome-http_status web c opts' exchange,
          outcome-context web c opts' exchange,
          whole.has_headers,
        )
        (by_status (is_ok exchange.result) exchange.status
          (record c { curl_handle = some (logged opts' exchange) }))
