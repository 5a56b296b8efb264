-- ===== src/Connect/Ladder.antt =====
-- The steps of `ld_connect`, and what a failed one leaves.
use libdiscord.Prelude.{
  ◌≡◌, refl, ap, ◌∙◌, sym, ℤ, pos, Bool, true, false, some, ◌++◌, Bytes, text, drop, length,
  leb-true, arith, length-append, drop-append, Exec, done, if◌then◌else◌, is_some, deref,
}
use libdiscord.Status.{code, ok, websocket_ringbuffer_err, is_ok}
use libdiscord.Context.{Context}
use libdiscord.Connect.{Outside, ClientInfo, address_of, gateway_connect, connect_gateway, connect}

-- A URL is its scheme of six characters and an address.
address_of-scheme :
    (scheme address : Bytes) → length scheme ≡ 6 → address_of (scheme ++ address) ≡ done address
unfolding address_of
address_of-scheme scheme address six = rw (
  leb-true 6 (length (scheme ++ address)) (omega (arith, six, length-append scheme address)),
  ap (λ n. drop n (scheme ++ address)) (sym six) ∙ drop-append scheme address,
)

-- Where `ld_gateway_connect` connects to.
abbrev pub target : {R : Type 0} → Context R → Bytes → ClientInfo
target c address = record {
  lws_context = c.lws_context;
  address = address;
  port = 443;
  ssl_connection = true;
  path = text "/?v=6&encoding=json";
  host = address ++ text ":443";
  origin = address ++ text ":443";
}

by_connection :
    {A : Type 0} (connected : Bool) (a : A)
    → ◌≡◌ {A = Exec (ℤ × A)}
        (done (
          if is_ok (if connected then pos 0 else pos 1)
              then code ok
              else code websocket_ringbuffer_err,
          a,
        ))
        (done (if connected then code ok else code websocket_ringbuffer_err, a))
by_connection true a = refl
by_connection false a = refl

by_handle :
    {A : Type 0} (connected : Bool) (a : A)
    → if◌then◌else◌ {A = Exec (ℤ × A)} connected (done (pos 0, a)) (done (pos 1, a))
      ≡ done (if connected then pos 0 else pos 1, a)
by_handle true a = refl
by_handle false a = refl

module _ {J R : Type 0} (out : Outside J) where
  straight_to_gateway :
      (c : Context R)
      → is_some c.gateway_url ≡ true
      → is_some c.gateway_bot_url ≡ true
      → is_some c.current_user ≡ true
      → connect out c ≡ connect_gateway out c
  unfolding connect
  straight_to_gateway c url bot_url user = rw (url, bot_url, user)

  gateway_connect_lem :
      (c : Context R) (scheme address : Bytes)
      → c.gateway_bot_url ≡ some (scheme ++ address)
      → length scheme ≡ 6
      → gateway_connect out c
        ≡ done (
          (if is_some (out.connect_via_info (target c address)) then pos 0 else pos 1),
          record c { lws_wsi = out.connect_via_info (target c address) },
        )
  unfolding gateway_connect
  gateway_connect_lem c scheme address has_bot_url six =
      rw (ap deref has_bot_url, address_of-scheme scheme address six)
        (by_handle (is_some (out.connect_via_info (target c address)))
          (record c { lws_wsi = out.connect_via_info (target c address) }))

  -- With both URLs and the user known, `ld_connect` makes no request: it connects to the address after the
  -- scheme of the bot's URL, and returns `LDS_OK` exactly when that gives a connection, else
  -- `LDS_WEBSOCKET_RINGBUFFER_ERR`; the connection is what changes of the context.
  pub connect_known :
      (c : Context R) (scheme address : Bytes)
      → is_some c.gateway_url ≡ true
      → c.gateway_bot_url ≡ some (scheme ++ address)
      → length scheme ≡ 6
      → is_some c.current_user ≡ true
      → connect out c
        ≡ done (
          (if is_some (out.connect_via_info (target c address))
              then code ok
              else code websocket_ringbuffer_err),
          record c { lws_wsi = out.connect_via_info (target c address) },
        )
  unfolding connect_gateway
  connect_known c scheme address has_url has_bot_url six has_user =
      straight_to_gateway c has_url (ap is_some has_bot_url) has_user
      ∙ rw (gateway_connect_lem c scheme address has_bot_url six) (
          by_connection (is_some (out.connect_via_info (target c address)))
            (record c { lws_wsi = out.connect_via_info (target c address) }))
