-- ===== src/Connect/Requests.antt =====
-- What the three requests of `ld_connect` make of their answers.
pub mod First
pub mod Fresh
pub mod Gets
use libdiscord.Prelude.{
  ℕ, ◌≡◌, refl, ap, ◌∙◌, ℤ, pos, negsuc, eqb_ℤ, Bool, true, false, Option, none, some, List, [],
  ◌∷◌, ◌++◌, Bytes, text, Exec, done, ◌>>=◌, if◌then◌else◌, Bool-cases, Option-cases, inl, inr,
}
use libdiscord.Status.{code, ok, error, is_ok}
use libdiscord.User.{User, load_user}
use libdiscord.Context.{Context}
use libdiscord.Rest.Curl.{EasyOptions, Exchange, logged}
use libdiscord.Rest.Headers.Lines.{Appends}
use libdiscord.Rest.Response.{Response, init_response, body_text, c_string}
use libdiscord.Rest.Response.Chunks.{Ample, joined}
use libdiscord.Rest.Request.{Request, get, init_request, get_gateway, get_gateway_bot}
use libdiscord.Rest.Send.{send_request, get_current_user, read_current_user}
use libdiscord.Rest.Send.Options.{
  IsComplete, SpareFirst, request_options, received, outcome, send_request_lem, init_response-Ample,
  received-status,
}
use libdiscord.Connect.{
  Outside, load_body, read_gateway, fetch_gateway, read_gateway_bot, fetch_gateway_bot,
}

-- The request for the current user.
abbrev pub me_request : Request → Request
me_request req = record req { verb = get; endpoint = some (text "/users/@me") }

-- The text of a body that came in chunks, up to its first NUL; NULL without a chunk.
abbrev pub text_of : List Bytes → Option Bytes
text_of [] = none
text_of (chunk ∷ chunks) = some (c_string (chunk ++ joined chunks ++ (0 ∷ [])))

body_text-received :
    (status : ℤ) (chunks : List Bytes) → body_text (received status chunks) ≡ done (text_of chunks)
unfolding body_text
body_text-received status [] = refl
body_text-received status (chunk ∷ chunks) = refl

module _ {J : Type 0} (out : Outside J) where
  -- The JSON of an answer.
  abbrev pub loads_of : List Bytes → Option J
  loads_of chunks = elim (text_of chunks) [ none ↦ none | some s ↦ out.jansson.loads s ]

  -- A request that is made with some options set before, and its answer, for whose first chunk there is a
  -- byte to spare.
  pub record Sent (opts : EasyOptions) (req : Request) : Type 0 where
    pub whole : IsComplete req
    pub spare : SpareFirst out.web (out.web.perform (request_options out.web opts req whole)).chunks

  abbrev pub options_of : {opts : EasyOptions} {req : Request} → Sent opts req → EasyOptions
  options_of {opts} {req} sent = request_options out.web opts req sent.whole

  abbrev pub exchange_of : {opts : EasyOptions} {req : Request} → Sent opts req → Exchange
  exchange_of sent = out.web.perform (options_of sent)

  -- The handle after it.
  abbrev pub handle_of : {opts : EasyOptions} {req : Request} → Sent opts req → EasyOptions
  handle_of sent = logged (options_of sent) (exchange_of sent)

  load_body-received :
      (status : ℤ) (chunks : List Bytes)
      → load_body out (received status chunks) ≡ done (loads_of chunks)
  unfolding load_body body_text
  load_body-received status [] = refl
  load_body-received status (chunk ∷ chunks) = refl

  -- What the user's request gives for a status and a body.
  abbrev pub user_answer : ℤ → List Bytes → User → ℤ × Option User
  user_answer status chunks user = elim (loads_of chunks) as (λ _. ℤ × Option User) [
    | none ↦ (pos 1, none)
    | some v ↦ (pos 0, some (load_user out.jansson user v).1)
  ]

  module _ {R : Type 0} (c : Context R) (opts : EasyOptions) (req : Request) (ample : Ample out.web)
      (appends : Appends out.web) (handle : c.curl_handle ≡ some opts) where
    -- `_ld_get_gateway`: a transfer that fails gives `LDS_ERROR`, else the answer's JSON decides.
    pub fetch_gateway_lem :
        (sent : Sent opts (get_gateway out.web req))
        → init_request out.web none ≡ done req
        → fetch_gateway out c
          ≡ done (
              let c' = record c { curl_handle = some (handle_of sent) } in
              if is_ok (exchange_of sent).result
              then read_gateway out c' (loads_of (exchange_of sent).chunks)
              else (code error, c'))
    unfolding fetch_gateway
    fetch_gateway_lem sent begun =
        let e = exchange_of sent in
        rw
          (
            begun,
            init_response-Ample out.web ample out.new_response,
            send_request_lem out.web c (received (negsuc 0) []) (get_gateway out.web req) opts
                sent.whole ample appends handle sent.spare,
          )
          (elim (Bool-cases (is_ok e.result)) [
            | inl good ↦ rw (good, load_body-received e.status e.chunks) refl
            | inr bad ↦ rw bad refl
          ])

    -- `_ld_get_gateway_bot`: the result of the transfer is not looked at.
    pub fetch_gateway_bot_lem :
        (begun_req : Request) (sent : Sent opts req)
        → init_request out.web none ≡ done begun_req
        → get_gateway_bot out.web c.bot_token begun_req ≡ done req
        → fetch_gateway_bot out c
          ≡ done (
              read_gateway_bot out
                (record c { curl_handle = some (handle_of sent) })
                (loads_of (exchange_of sent).chunks))
    unfolding fetch_gateway_bot
    fetch_gateway_bot_lem begun_req sent begun made =
        let e = exchange_of sent in
        rw
          (
            begun,
            made,
            init_response-Ample out.web ample out.new_response,
            send_request_lem out.web c (received (negsuc 0) []) req opts sent.whole ample appends
                handle sent.spare,
          )
          (elim (Bool-cases (is_ok e.result)) [
            | inl good ↦ rw (good, load_body-received e.status e.chunks) refl
            | inr bad ↦ rw (bad, load_body-received (negsuc 0) e.chunks) refl
          ])

    read_received :
        (status : ℤ) (chunks : List Bytes) (user : User)
        → read_current_user out.jansson (received status chunks) user
          ≡ done (user_answer status chunks user)
    unfolding read_current_user body_text
    read_received status [] user = refl
    read_received status (chunk ∷ chunks) user =
        elim (Option-cases (out.jansson.loads (c_string (chunk ++ joined chunks ++ (0 ∷ []))))) [
          | inl e ↦ rw e refl
          | inr (v, e) ↦ rw e refl
        ]

    -- What is made of an answer with the status 200.
    read_found :
        (c' : Context R) (user : User) (status : ℤ) (chunks : List Bytes)
        → status ≡ pos 200
        → ◌≡◌ {A = Exec (ℤ × Context R × Option User)}
            (if eqb_ℤ (received status chunks).http_status (pos 200)
              then (read_current_user out.jansson (received status chunks) user >>= λ (ret, filled).
                  done (ret, c', filled))
              else done (pos 1, c', none))
            (done
              ((user_answer (pos 200) chunks user).0, c', (user_answer (pos 200) chunks user).1))
    read_found c' user status chunks found =
        rw (found, received-status (pos 200) chunks, read_received (pos 200) chunks user) refl

    -- `ld_get_current_user`, for an answer with the status 200.
    pub get_current_user_lem :
        (user : User) (sent : Sent opts (me_request req))
        → init_request out.web (some c.bot_token) ≡ done req
        → is_ok (exchange_of sent).result ≡ true
        → (exchange_of sent).status ≡ pos 200
        → get_current_user out.web out.jansson c out.new_response user
          ≡ done (
              let c' = record c { curl_handle = some (handle_of sent) } in
              let answer = user_answer (pos 200) (exchange_of sent).chunks user in
              (answer.0, c', answer.1))
    unfolding get_current_user
    get_current_user_lem user sent begun good found =
        let e = exchange_of sent in
        rw
          (
            begun,
            init_response-Ample out.web ample out.new_response,
            send_request_lem out.web c (received (negsuc 0) []) (me_request req) opts sent.whole
                ample appends handle sent.spare,
            good,
          )
          (read_found (record c { curl_handle = some (handle_of sent) }) user e.status e.chunks
            found)
