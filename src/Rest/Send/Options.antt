-- ===== src/Rest/Send/Options.antt =====
-- What a transfer finds on the easy handle, and what it returns.
use libdiscord.Prelude.{
  ℕ, ◌≡◌, refl, ℤ, negsuc, Bool, true, false, some, List, [], ◌∷◌, ◌++◌, Bytes, done, if◌then◌else◌,
  ◌>>=◌, length,
}
use libdiscord.Status.{code, curl_err, lde_ok, is_ok}
use libdiscord.Context.{Context}
use libdiscord.Rest.Curl.{Web, EasyOptions, Exchange, logged, curl_easy_perform}
use libdiscord.Rest.Headers.Put.{holding}
use libdiscord.Rest.Headers.Lines.{Appends, Fit, lines_of, keys_of, values_of, headers2curl_lem}
use libdiscord.Rest.Response.{Response, null, block, init_response, deliver}
use libdiscord.Rest.Response.Chunks.{Ample, Spare, joined, deliver-joined}
use libdiscord.Rest.Request.{Request, get, post}
use libdiscord.Rest.Send.{set_options, perform, send_request}

-- A request that is complete: an address, and headers that fit their buffer.
pub record IsComplete (req : Request) : Type 0 where
  pub base : Bytes
  pub endpoint : Bytes
  pub pairs : List (Bytes × Bytes)
  pub room_k : ℕ
  pub room_v : ℕ
  pub has_base : req.base_url ≡ some base
  pub has_endpoint : req.endpoint ≡ some endpoint
  pub has_headers : req.headers ≡ some (holding (keys_of pairs) (values_of pairs) room_k room_v)
  pub fits : Fit pairs

-- The response that holds the chunks of a body; without a chunk the body stays NULL.
abbrev pub received : ℤ → List Bytes → Response
received status [] = record { http_status = status; body = null; body_length = 0 }
received status (chunk ∷ chunks) = record {
  http_status = status;
  body = block (chunk ++ joined chunks ++ (0 ∷ []));
  body_length = length (chunk ++ joined chunks);
}

-- The block for the first chunk has a byte to spare.
abbrev pub SpareFirst : Web → List Bytes → Type 0
SpareFirst web [] = Unit
SpareFirst web (chunk ∷ chunks) = Spare web (length chunk)

-- What a transfer ends with.
abbrev pub outcome : {R : Type 0} → Context R → EasyOptions → Exchange → ℤ × Context R × Response
outcome c opts exchange =
    let c' = record c { curl_handle = some (logged opts exchange) } in
    if is_ok exchange.result
    then (lde_ok, c', received exchange.status exchange.chunks)
    else (code curl_err, c', received (negsuc 0) exchange.chunks)

received_status :
    (old status : ℤ) (chunks : List Bytes)
    → record (received old chunks) { http_status = status } ≡ received status chunks
received_status old status [] = refl
received_status old status (chunk ∷ chunks) = refl

if-done :
    {A : Type 0} (b : Bool) (x y : A) → (if b then done x else done y) ≡ done (if b then x else y)
if-done true x y = refl
if-done false x y = refl

if-second :
    {A B C : Type 0} (b : Bool) (y : B) (x x' : A) (z z' : C)
    → (if◌then◌else◌ {A = A × B × C} b (x, y, z) (x', y, z')).1 ≡ y
if-second true y x x' z z' = refl
if-second false y x x' z z' = refl

pub received-status :
    (status : ℤ) (chunks : List Bytes) → (received status chunks).http_status ≡ status
received-status status [] = refl
received-status status (chunk ∷ chunks) = refl

if-status :
    {A B : Type 0} (b : Bool) (y y' : B) (x x' : A) (status other : ℤ) (chunks : List Bytes)
    → (if◌then◌else◌ {A = A × B × Response} b
        (x, y, received status chunks)
        (x', y', received other chunks)).2.http_status
      ≡ (if b then status else other)
if-status true y y' x x' status other chunks = received-status status chunks
if-status false y y' x x' status other chunks = received-status other chunks

module _ (web : Web) where
  -- The options with which a complete request is made.
  abbrev pub request_options : EasyOptions → (req : Request) → IsComplete req → EasyOptions
  request_options opts req whole =
      set_options web opts req (whole.base ++ whole.endpoint) (lines_of whole.pairs)

  -- The handle after a complete request.
  abbrev pub handle_after : EasyOptions → (req : Request) → IsComplete req → EasyOptions
  handle_after opts req whole = (curl_easy_perform web (request_options opts req whole)).1

  deliver_all :
      Ample web
      → (chunks : List Bytes) → SpareFirst web chunks
      → deliver web (received (negsuc 0) []) chunks ≡ done (true, received (negsuc 0) chunks)
  unfolding deliver
  deliver_all ample [] spare = refl
  deliver_all ample (chunk ∷ chunks) spare =
      deliver-joined web (received (negsuc 0) []) chunk chunks ample spare refl refl

  pub init_response-Ample :
      Ample web → (garbage : Response) → init_response web garbage ≡ (true, received (negsuc 0) [])
  unfolding init_response
  init_response-Ample ample garbage =
      let (room, given, above) = ample 24 in rw (given, init_response)

  module _ {R : Type 0} where
    perform_lem :
        Ample web
        → (c : Context R) (req : Request) (url : Bytes) (slist : List Bytes) (opts : EasyOptions)
        → c.curl_handle ≡ some opts
        → SpareFirst web (web.perform (set_options web opts req url slist)).chunks
        → perform web c req url slist (received (negsuc 0) [])
          ≡ done (
              outcome c
                (set_options web opts req url slist)
                (web.perform (set_options web opts req url slist)))
    unfolding perform
    perform_lem ample c req url slist opts handle spare =
        let opts' = set_options web opts req url slist in
        let exchange = web.perform opts' in
        rw
          (
            handle,
            deliver_all ample exchange.chunks spare,
            received_status (negsuc 0) exchange.status exchange.chunks,
          )
          (if-done (is_ok exchange.result)
            (
              lde_ok,
              record c { curl_handle = some (logged opts' exchange) },
              received exchange.status exchange.chunks,
            )
            (
              code curl_err,
              record c { curl_handle = some (logged opts' exchange) },
              received (negsuc 0) exchange.chunks,
            ))

    pub send_request_lem :
        (c : Context R) (garbage : Response) (req : Request) (opts : EasyOptions)
        (whole : IsComplete req)
        → Ample web
        → Appends web
        → c.curl_handle ≡ some opts
        → SpareFirst web (web.perform (request_options opts req whole)).chunks
        → send_request web c garbage req
          ≡ done (
              outcome c
                (request_options opts req whole)
                (web.perform (request_options opts req whole)))
    unfolding send_request
    send_request_lem c garbage req opts whole ample appends handle spare =
        rw
          (
            whole.has_base,
            whole.has_endpoint,
            init_response-Ample ample garbage,
            whole.has_headers,
            headers2curl_lem web whole.pairs whole.room_k whole.room_v appends whole.fits,
          )
          (perform_lem ample c req (whole.base ++ whole.endpoint) (lines_of whole.pairs) opts handle
            spare)

    pub outcome-context :
        (c : Context R) (opts : EasyOptions) (exchange : Exchange)
        → (outcome c opts exchange).1 ≡ record c { curl_handle = some (logged opts exchange) }
    outcome-context c opts exchange =
        if-second (is_ok exchange.result) (record c { curl_handle = some (logged opts exchange) })
          lde_ok (code curl_err) (received exchange.status exchange.chunks)
          (received (negsuc 0) exchange.chunks)

    pub outcome-http_status :
        (c : Context R) (opts : EasyOptions) (exchange : Exchange)
        → (outcome c opts exchange).2.http_status
          ≡ (if is_ok exchange.result then exchange.status else negsuc 0)
    outcome-http_status c opts exchange =
        let c' = record c { curl_handle = some (logged opts exchange) } in
        if-status (is_ok exchange.result) c' c' lde_ok (code curl_err) exchange.status (negsuc 0)
          exchange.chunks

    -- Where memory is there, a handle is set up, and the block for the first chunk of each body has a byte to
    -- spare: after a complete POST, a complete GET on the same context makes the handle's next transfer, with
    -- the GET's own address and headers and with the body of the POST as its post fields still.
    pub get_after_post :
        (c : Context R) (garbage garbage' : Response) (opts : EasyOptions) (first second : Request)
        (whole1 : IsComplete first) (whole2 : IsComplete second)
        → first.verb ≡ post
        → second.verb ≡ get
        → Ample web
        → Appends web
        → c.curl_handle ≡ some opts
        → SpareFirst web (web.perform (request_options opts first whole1)).chunks
        → SpareFirst web
            (web.perform (request_options (handle_after opts first whole1) second whole2)).chunks
        → (opts2 : EasyOptions) × ((send_request web c garbage first >>= λ sent.
              send_request web sent.1 garbage' second)
            ≡ done (outcome c opts2 (web.perform opts2)))
          × (opts2.performed ≡ (handle_after opts first whole1).performed)
          × (opts2.url ≡ some (whole2.base ++ whole2.endpoint))
          × (opts2.http_header ≡ lines_of whole2.pairs)
          × (opts2.post_fields ≡ some first.body)
          × (opts2.post_field_size ≡ first.body_size)
    unfolding set_options
    get_after_post c garbage garbage' opts first second whole1 whole2 is_post is_get ample appends
          handle spare1 spare2 =
        let opts1 = request_options opts first whole1 in
        let handle1 = logged opts1 (web.perform opts1) in
        let c1 = record c { curl_handle = some handle1 } in
        let opts2 = request_options handle1 second whole2 in
        (
          opts2,
          rw (
            send_request_lem c garbage first opts whole1 ample appends handle spare1,
            outcome-context c opts1 (web.perform opts1),
            send_request_lem c1 garbage' second handle1 whole2 ample appends refl spare2,
          ),
          refl,
          refl,
          refl,
          rw (is_get, is_post),
          rw (is_get, is_post),
        )
