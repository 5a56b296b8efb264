-- ===== src/Connect/Requests/Gets.antt =====
-- The requests of `ld_connect`, as they are made of new ones.
use libdiscord.Prelude.{
  ◌*◌, ℕ, ◌<◌, ◌≡◌, refl, some, List, [], ◌∷◌, ◌++◌, Bytes, text, length, done, ltb, arith,
}
use libdiscord.Rest.Curl.{Web, EasyOptions, pointer_size}
use libdiscord.Rest.Headers.{headers_init}
use libdiscord.Rest.Headers.Put.{holding}
use libdiscord.Rest.Headers.Lines.{keys_of, values_of, lines_of}
use libdiscord.Rest.Request.{Request, base_url_text, user_agent_text, init_request, get_gateway_bot}
use libdiscord.Rest.Send.Options.{IsComplete}
use libdiscord.Rest.Send.Fresh.{Rounded, new_request, add_header_lem, authorization_lem}

abbrev pub token_pairs : Bytes → List (Bytes × Bytes)
token_pairs t = (text "Authorization", text "Bot " ++ t) ∷ []

-- The options of a GET: what was set of the post fields stays.
abbrev pub get_options : Web → EasyOptions → Bytes → List (Bytes × Bytes) → EasyOptions
get_options web opts endpoint pairs = record opts {
  url = some (base_url_text ++ endpoint);
  http_header = lines_of pairs;
  user_agent = some user_agent_text;
  verbose = ltb 8 web.logging_level;
}

-- A GET with some headers.
abbrev pub get_with : Bytes → List (Bytes × Bytes) → ℕ → ℕ → Request
get_with endpoint pairs room_k room_v = record (new_request room_k) {
  endpoint = some endpoint;
  headers = some (holding (keys_of pairs) (values_of pairs) room_k room_v);
}

unfoldable pub plain_is_complete :
    (endpoint : Bytes) (a b : ℕ) → IsComplete (get_with endpoint [] a b)
plain_is_complete endpoint a b = record {
  base = base_url_text;
  endpoint = endpoint;
  pairs = [];
  room_k = a;
  room_v = b;
  has_base = refl;
  has_endpoint = refl;
  has_headers = refl;
  fits = tt;
}

unfoldable pub token_is_complete :
    (endpoint t : Bytes) (a b : ℕ)
    → length t < 900
    → IsComplete (get_with endpoint (token_pairs t) a b)
unfolding text
token_is_complete endpoint t a b short = record {
  base = base_url_text;
  endpoint = endpoint;
  pairs = token_pairs t;
  room_k = a;
  room_v = b;
  has_base = refl;
  has_endpoint = refl;
  has_headers = refl;
  fits = (omega arith, tt);
}

-- The request for the bot's gateway, and a new request for a context with a token.
pub get_gateway_bot_lem :
    (web : Web) (t : Bytes) (room : ℕ)
    → Rounded web
    → length t < 900
    → (a : ℕ) × (b : ℕ) × (get_gateway_bot web (some t) (new_request room)
        ≡ done (get_with (text "/gateway/bot") (token_pairs t) a b))
unfolding get_gateway_bot
get_gateway_bot_lem web t room rounded short =
    let req : Request = record (new_request room) { endpoint = some (text "/gateway/bot") } in
    let (a, b, added) =
      add_header_lem web req [] [] room room (text "Authorization") (text "Bot " ++ t) rounded refl
        refl in
    (a, b, rw (authorization_lem t short) added)

pub init_request_token :
    (web : Web) (t : Bytes)
    → Rounded web
    → length t < 900
    → (a : ℕ) × (b : ℕ) × (init_request web (some (some t))
        ≡ done (record (new_request a) {
          headers = some (holding (keys_of (token_pairs t)) (values_of (token_pairs t)) a b);
        }))
unfolding init_request headers_init
init_request_token web t rounded short =
    let (words, given, above) = rounded pointer_size in
    let room = 8 * words in
    let (struct, given', above') = rounded 24 in
    let (a, b, added) =
      add_header_lem web (new_request room) [] [] room room (text "Authorization")
        (text "Bot " ++ t) rounded refl refl in
    (a, b, rw (init_request, headers_init, given, given', authorization_lem t short) added)
