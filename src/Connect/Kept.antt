-- ===== src/Connect/Kept.antt =====
-- Connecting and the requests leave the ring of payloads, the session and the receive buffer alone.
use libdiscord.Prelude.{
  ℕ, ◌≡◌, refl, ◌∙◌, arith, ℤ, pos, eqb_ℤ, ltb_ℤ, Bool, true, false, Option, none, some, List,
  Bytes, text, ◌++◌, is_some, Exec, fault, done, Ensures, Ensures->>=, Ensures->>=-any,
  Ensures-deref, Ensures-if, Ensures-option,
}
use libdiscord.Status.{is_ok}
use libdiscord.Jansson.{Jansson}
use libdiscord.User.{User}
use libdiscord.Context.{Context}
use libdiscord.Rest.Curl.{Web}
use libdiscord.Rest.Headers.{headers2curl, headers_clean}
use libdiscord.Rest.Response.{Response, init_response, deliver}
use libdiscord.Rest.Request.{
  Request, get, init_request, get_gateway, get_gateway_bot, create_basic_message,
}
use libdiscord.Rest.Send.{
  perform, set_options, send_request, send_basic_message, get_current_user, read_current_user,
}
use libdiscord.Connect.{
  Outside, user_size, load_body, read_gateway, fetch_gateway, read_shards, read_gateway_bot,
  fetch_gateway_bot, address_of, gateway_connect, unless_set, fetch_current_user, connect_gateway,
  connect,
}

module _ {R : Type 0} where
  abbrev pub kept : Context R → Option R × Option Bytes × Option Bytes
  kept c = (c.gateway_ring, c.gateway_session_id, c.gateway_rx_buffer)

  abbrev pub Kept : {A : Type 0} → Context R → ℤ × Context R × A → Type 0
  Kept c r = kept r.1 ≡ kept c

  module _ (web : Web) where
    perform-Kept :
        (c : Context R) (req : Request) (url : Bytes) (slist : List Bytes) (response : Response)
        → Ensures (Kept c) (perform web c req url slist response)
    unfolding perform
    perform-Kept c req url slist response =
        let P : ℤ × Context R × Response → Type 0 = Kept c in
        Ensures-option P c.curl_handle _ _ refl (λ opts.
          Ensures->>=-any P
            (deliver web response (web.perform (set_options web opts req url slist)).chunks) _
            (λ (taken, received). ground arith))

    pub send_request-Kept :
        (c : Context R) (response : Response) (req : Request)
        → Ensures (Kept c) (send_request web c response req)
    unfolding send_request
    send_request-Kept c response req =
        let P : ℤ × Context R × Response → Type 0 = Kept c in
        Ensures-option P req.base_url _ _ refl (λ base.
          Ensures-deref P req.endpoint _ (λ endpoint e.
            Ensures-if P (init_response web response).0 _ _
              (Ensures->>=-any P (headers2curl web req.headers) _ (λ (n, slist).
                perform-Kept c req (base ++ endpoint) slist (init_response web response).1))
              refl))

    module _ {J : Type 0} (j : Jansson J) where
      pub get_current_user-Kept :
          (c : Context R) (garbage : Response) (user : User)
          → Ensures (Kept c) (get_current_user web j c garbage user)
      unfolding get_current_user
      get_current_user-Kept c garbage user =
          let P : ℤ × Context R × Option User → Type 0 = Kept c in
          let resp = (init_response web garbage).1 in
          Ensures->>=-any P (init_request web (some c.bot_token)) _ (λ req.
            Ensures->>= (Kept c) P
              (send_request web c resp
                (record req { verb = get; endpoint = some (text "/users/@me") }))
              _
              (send_request-Kept c resp
                (record req { verb = get; endpoint = some (text "/users/@me") }))
              (λ (n, c', resp') same.
                Ensures-if P (eqb_ℤ resp'.http_status (pos 200)) _ _
                  (Ensures->>=-any P (read_current_user j resp' user) _ (λ (ret, filled). same))
                  same))

      pub send_basic_message-Kept :
          (c : Context R) (garbage : Response) (channel : ℕ) (message : Bytes)
          → Ensures (λ x. kept x.1 ≡ kept c) (send_basic_message web j c garbage channel message)
      unfolding send_basic_message
      send_basic_message-Kept c garbage channel message =
          let P : ℤ × Context R → Type 0 = λ x. kept x.1 ≡ kept c in
          Ensures->>=-any P (init_request web none) _ (λ req.
            Ensures->>=-any P (create_basic_message web j c.bot_token req channel message) _
              (λ (made, req').
                Ensures->>= (Kept c) P (send_request web c garbage req') _
                  (send_request-Kept c garbage req')
                  (λ (n, c', resp) same.
                    Ensures-if P (ltb_ℤ resp.http_status (pos 400)) _ _
                      (Ensures->>=-any P (headers_clean req'.headers) _ (λ cleaned. same)) same)))

-- The functions of connecting, whose result is a status and a context.
module _ {J R : Type 0} (out : Outside J) where
  abbrev pub Keeps : Context R → ℤ × Context R → Type 0
  Keeps c r = kept r.1 ≡ kept c

  read_gateway-Keeps : (c : Context R) (object : Option J) → Keeps c (read_gateway out c object)
  unfolding read_gateway
  read_gateway-Keeps c object = ground arith

  read_gateway_bot-Keeps :
      (c : Context R) (object : Option J) → Keeps c (read_gateway_bot out c object)
  unfolding read_gateway_bot read_shards
  read_gateway_bot-Keeps c object = ground arith

  fetch_gateway-Keeps : (c : Context R) → Ensures (Keeps c) (fetch_gateway out c)
  unfolding fetch_gateway
  fetch_gateway-Keeps c =
      let fresh = (init_response out.web out.new_response).1 in
      Ensures->>=-any (Keeps c) (init_request out.web none) _ (λ req.
        Ensures->>= (Kept c) (Keeps c) (send_request out.web c fresh (get_gateway out.web req)) _
          (send_request-Kept out.web c fresh (get_gateway out.web req))
          (λ (ret, c', response) same.
            Ensures-if (Keeps c) (is_ok ret) _ _
              (Ensures->>=-any (Keeps c) (load_body out response) _
                (λ object. read_gateway-Keeps c' object ∙ same))
              same))

  fetch_gateway_bot-Keeps : (c : Context R) → Ensures (Keeps c) (fetch_gateway_bot out c)
  unfolding fetch_gateway_bot
  fetch_gateway_bot-Keeps c =
      let fresh = (init_response out.web out.new_response).1 in
      Ensures->>=-any (Keeps c) (init_request out.web none) _ (λ req.
        Ensures->>=-any (Keeps c) (get_gateway_bot out.web c.bot_token req) _ (λ req'.
          Ensures->>= (Kept c) (Keeps c) (send_request out.web c fresh req') _
            (send_request-Kept out.web c fresh req')
            (λ (ret, c', response) same.
              Ensures->>=-any (Keeps c) (load_body out response) _
                (λ object. read_gateway_bot-Keeps c' object ∙ same))))

  gateway_connect-Keeps : (c : Context R) → Ensures (Keeps c) (gateway_connect out c)
  unfolding gateway_connect
  gateway_connect-Keeps c =
      Ensures-deref (Keeps c) c.gateway_bot_url _
        (λ url e. Ensures->>=-any (Keeps c) (address_of url) _ (λ address. ground arith))

  connect_gateway-Keeps : (c : Context R) → Ensures (Keeps c) (connect_gateway out c)
  unfolding connect_gateway
  connect_gateway-Keeps c =
      Ensures->>= (Keeps c) (Keeps c) (gateway_connect out c) _ (gateway_connect-Keeps c)
        (λ (ret, c') same. same)

  fetch_current_user-Keeps : (c : Context R) → Ensures (Keeps c) (fetch_current_user out c)
  unfolding fetch_current_user
  fetch_current_user-Keeps c = Ensures-option (Keeps c) (out.web.alloc user_size) _ _ refl (λ room.
      let c1 = record c { current_user = some none } in
      Ensures->>= (Kept c1) (Keeps c)
        (get_current_user out.web out.jansson c1 out.new_response out.new_user) _
        (get_current_user-Kept out.web out.jansson c1 out.new_response out.new_user)
        (λ (ret, c2, user) same. same))

  -- A step that may be skipped, and what comes after it.
  unless_set-Keeps :
      (set : Bool) (c : Context R) (fetch rest : Context R → Exec (ℤ × Context R))
      → Ensures (Keeps c) (fetch c)
      → ((c' : Context R) → Ensures (Keeps c') (rest c'))
      → Ensures (Keeps c) (unless_set out set c fetch rest)
  unfolding unless_set
  unless_set-Keeps true c fetch rest h k = k c
  unless_set-Keeps false c fetch rest h k =
      Ensures->>= (Keeps c) (Keeps c) (fetch c) _ h (λ (ret, c') same.
        Ensures-if (Keeps c) (is_ok ret) _ _ (after c' (rest c') same (k c')) same)
    where
      after :
          (c' : Context R) (m : Exec (ℤ × Context R))
          → Keeps c (pos 0, c')
          → Ensures (Keeps c') m
          → Ensures (Keeps c) m
      after c' fault same h = tt
      after c' (done r) same h = h ∙ same

  -- `ld_connect`, whatever its requests give, leaves the ring alone.
  pub connect-Keeps : (c : Context R) → Ensures (Keeps c) (connect out c)
  unfolding connect
  connect-Keeps c =
      unless_set-Keeps (is_some c.gateway_url) c (fetch_gateway out) _ (fetch_gateway-Keeps c)
        (λ c1.
          unless_set-Keeps (is_some c1.gateway_bot_url) c1 (fetch_gateway_bot out) _
            (fetch_gateway_bot-Keeps c1)
            (λ c2.
              unless_set-Keeps (is_some c2.current_user) c2 (fetch_current_user out)
                (connect_gateway out) (fetch_current_user-Keeps c2) connect_gateway-Keeps))
