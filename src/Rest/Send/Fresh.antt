-- ===== src/Rest/Send/Fresh.antt =====
-- New requests, where memory is there with some bytes to spare.
use libdiscord.Prelude.{
  ℕ, ◌+◌, ◌*◌, ◌≤◌, ◌<◌, ◌≡◌, refl, pos, none, some, List, [], ◌∷◌, ◌++◌, Bytes, text, length,
  lt→ltb, arith, done,
}
use libdiscord.Rest.Curl.{Web, pointer_size}
use libdiscord.Rest.Headers.{headers_init}
use libdiscord.Rest.Headers.Put.{holding, headers_put_lem}
use libdiscord.Rest.Response.Chunks.{Ample}
use libdiscord.Rest.Request.{
  Request, get, base_url_text, user_agent_text, authorization, printed, add_header, init_request,
}

-- Memory is there, and the bytes that can be used of a block are those asked for, rounded up to a multiple
-- of eight: glibc's allocator gives blocks of 24, 40, 56 and so on. The C standard does not promise it.
abbrev pub Rounded : Web → Type 0
Rounded web = (n : ℕ) → (words : ℕ) × (web.alloc n ≡ some (8 * words)) × (n ≤ 8 * words)

pub Rounded-Ample : (web : Web) → Rounded web → Ample web
Rounded-Ample web rounded n = let (words, given, above) = rounded n in (8 * words, given, above)

-- A request as `ld_rest_init_request` leaves it, with empty headers.
abbrev pub new_request : ℕ → Request
new_request room = record {
  verb = get;
  base_url = some base_url_text;
  endpoint = none;
  body = none;
  body_size = 0;
  headers = some (holding [] [] room room);
  timeout = pos 0;
  user_agent = some user_agent_text;
}

pub init_request_lem :
    (web : Web) → Rounded web → (room : ℕ) × (init_request web none ≡ done (new_request room))
unfolding init_request headers_init
init_request_lem web rounded =
    let (words, given, above) = rounded pointer_size in
    let (struct, given', above') = rounded 24 in
    (8 * words, rw (init_request, headers_init, given, given') refl)

pub add_header_lem :
    (web : Web) (req : Request) (ks vs : List Bytes) (a b : ℕ) (k v : Bytes)
    → Rounded web
    → length vs ≡ length ks
    → req.headers ≡ some (holding ks vs a b)
    → (a' : ℕ) × (b' : ℕ) × (add_header web req k v
        ≡ done (record req { headers = some (holding (ks ++ (k ∷ [])) (vs ++ (v ∷ [])) a' b') }))
unfolding add_header
add_header_lem web req ks vs a b k v rounded same has =
    let (a', given, above) = rounded (pointer_size * (length ks + 1)) in
    let (b', given', above') = rounded (pointer_size * length ks + 1) in
    (
      8 * a',
      8 * b',
      rw
          (
            has,
            headers_put_lem web ks vs a b (8 * a') (8 * b') k v same given given' (omega arith)
                (omega arith),
          )
          refl,
    )

pub authorization_lem :
    (t : Bytes) → length t < 900 → authorization (some t) ≡ done (text "Bot " ++ t)
unfolding authorization printed text
authorization_lem t short = rw (lt→ltb (length (text "Bot " ++ t)) 1000 (omega arith)) refl
