-- ===== src/Rest/Send/Exact.antt =====
-- Requests and messages, where a program may use the bytes of a block that it asked for and no more.
use libdiscord.Prelude.{
  List, ◌∷◌, negsuc, arith, ℕ, ◌<◌, ◌≡◌, refl, some, [], Bytes, length, text, ◌++◌, fault, done,
  none,
}
use libdiscord.Jansson.{Jansson}
use libdiscord.Context.{Context}
use libdiscord.Rest.Curl.{Web, EasyOptions, pointer_size}
use libdiscord.Rest.Headers.Lines.{Appends, headers2curl_lem}
use libdiscord.Rest.Response.Chunks.{writefunction_exact_faults}
use libdiscord.Rest.Send.Options.{IsComplete, request_options, received, init_response-Ample}
use libdiscord.Rest.Headers.{headers_init}
use libdiscord.Rest.Headers.Put.{headers_put_exact_faults}
use libdiscord.Rest.Response.{Response, deliver}
use libdiscord.Rest.Request.{Request, init_request, create_basic_message, add_header}
use libdiscord.Rest.Send.{send_request, perform, send_basic_message}
use libdiscord.Rest.Send.Fresh.{new_request, authorization_lem}

-- Memory is there, and no more of it than was asked for, as the C standard promises.
abbrev pub Unrounded : Web → Type 0
Unrounded web = (n : ℕ) → web.alloc n ≡ some n

init_request_exact :
    (web : Web) → Unrounded web → init_request web none ≡ done (new_request pointer_size)
unfolding init_request headers_init
init_request_exact web exact = rw (init_request, headers_init, exact pointer_size, exact 24) refl

-- With memory as the C standard promises it and a token below 900 bytes, `ld_send_basic_message` writes past
-- the block of its first header's value, whatever the channel, the message and the handle.
pub send_basic_message_exact_faults :
    {J R : Type 0} (web : Web) (j : Jansson J) (c : Context R) (garbage : Response) (channelid : ℕ)
    (t message : Bytes)
    → Unrounded web
    → c.bot_token ≡ some t
    → length t < 900
    → send_basic_message web j c garbage channelid message ≡ fault
unfolding send_basic_message create_basic_message add_header
send_basic_message_exact_faults web j c garbage channelid t message exact token short =
    rw
      (
        init_request_exact web exact,
        token,
        authorization_lem t short,
        headers_put_exact_faults web [] [] pointer_size pointer_size (text "Authorization")
            (text "Bot " ++ t) (exact pointer_size) (exact 1),
      )
      refl

-- With memory as the C standard promises it, `curl_slist_append` that succeeds, and a handle: a complete
-- request whose answer has a body, even one in a single chunk, writes the NUL of the first chunk past its
-- block.
pub send_request_exact_faults :
    {R : Type 0} (web : Web) (c : Context R) (garbage : Response) (req : Request)
    (opts : EasyOptions) (whole : IsComplete req) (chunk : Bytes) (chunks : List Bytes)
    → Unrounded web
    → Appends web
    → c.curl_handle ≡ some opts
    → (web.perform (request_options web opts req whole)).chunks ≡ chunk ∷ chunks
    → send_request web c garbage req ≡ fault
unfolding send_request perform deliver
send_request_exact_faults web c garbage req opts whole chunk chunks exact appends handle answer =
    rw
      (
        whole.has_base,
        whole.has_endpoint,
        init_response-Ample web (λ n. (n, exact n, omega arith)) garbage,
        whole.has_headers,
        headers2curl_lem web whole.pairs whole.room_k whole.room_v appends whole.fits,
        handle,
        answer,
        writefunction_exact_faults web (received (negsuc 0) []) chunk refl (exact _),
      )
      refl
