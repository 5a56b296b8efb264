-- ===== src/Tests/Rest.antt =====
-- The theorems on the REST client and the log, at concrete inputs.
use libdiscord.Prelude.{
  ◌*◌, ◌/◌, leb, ℕ, suc, ◌+◌, ◌≡◌, refl, pos, Option, none, some, [], ◌∷◌, ◌++◌, Bytes, text, zero,
  ◌==◌, arith, fault, done, ◌>>=◌, if◌then◌else◌,
}
use libdiscord.Context.{Context}
use libdiscord.Jansson.Tree.{Tree, null, object, string, field, end}
use libdiscord.Rest.Curl.{Web, EasyOptions}
use libdiscord.Rest.Headers.{headers_put, headers2curl}
use libdiscord.Rest.Headers.Put.{holding, headers_put_exact_faults}
use libdiscord.Rest.Headers.Lines.{lines_of, headers2curl_overflow}
use libdiscord.Rest.Response.Chunks.{Ample}
use libdiscord.Rest.Request.{Request, Verb, get, post, content_object}
use libdiscord.Rest.Send.{send_request, send_basic_message}
use libdiscord.Rest.Send.Options.{IsComplete, received, handle_after, outcome, get_after_post}
use libdiscord.Rest.Send.Results.{message_result}
use libdiscord.Rest.Send.Fresh.{Rounded}
use libdiscord.Rest.Send.Exact.{
  Unrounded, send_request_exact_faults, send_basic_message_exact_faults,
}
use libdiscord.Rest.Send.Posts.{post_options, posted, send_basic_message_posts}
use libdiscord.Log.{warning, log_at}
use libdiscord.Log.Lines.{bit_of, line_of as log_line, log_at_lem}
use libdiscord.Init.Identity.{IsAvailable}
use libdiscord.Bots.{Surroundings}
use libdiscord.Bots.Main.{simplepost_main}
use libdiscord.Bots.Main.Posted.{info_for, ended, simplepost_main_posts}
use libdiscord.Tests.Setup.{setup, info_with}
use libdiscord.Tests.Bots.{around}
use libdiscord.Tests.Base.{Payloads, json_of, context_of, no_options, usable, usable_lem, answer}

-- An allocator that gives eight bytes more than it is asked for, and one that gives no more.
abbrev generous : Web
generous = record {
  alloc = λ n. some (usable n);
  slist_append = λ xs x. some (xs ++ (x ∷ []));
  perform = λ opts. answer;
  logging_level = 15;
}

abbrev exact : Web
exact = record {
  alloc = λ n. some n;
  slist_append = λ xs x. some (xs ++ (x ∷ []));
  perform = λ opts. answer;
  logging_level = 15;
}

generous-Ample : Ample generous
generous-Ample n = (usable n, refl, usable_lem n)

headers_put_exact_faults_example :
    headers_put exact (some (holding [] [] 8 8)) (some (1 ∷ [])) (some (2 ∷ [])) ≡ fault
headers_put_exact_faults_example =
    headers_put_exact_faults exact [] [] 8 8 (1 ∷ []) (2 ∷ []) refl refl

abbrev repeated : ℕ → Bytes
repeated zero = []
repeated (suc n) = 65 ∷ repeated n

headers2curl_overflow_example :
    headers2curl exact (some (holding ((1 ∷ []) ∷ []) (repeated 1997 ∷ []) 8 8)) ≡ fault
headers2curl_overflow_example =
    headers2curl_overflow exact (1 ∷ []) (repeated 1997) [] 8 8 (omega arith)

-- A request with one header.
abbrev request_with : Verb → Option Bytes → Request
request_with verb body = record {
  verb = verb;
  base_url = some (1 ∷ []);
  endpoint = some (2 ∷ []);
  body = body;
  body_size = 1;
  headers = some (holding ((3 ∷ []) ∷ []) ((4 ∷ []) ∷ []) 16 16);
  timeout = pos 0;
  user_agent = none;
}

abbrev whole_with : (verb : Verb) (body : Option Bytes) → IsComplete (request_with verb body)
whole_with verb body = record {
  base = 1 ∷ [];
  endpoint = 2 ∷ [];
  pairs = ((3 ∷ []), (4 ∷ [])) ∷ [];
  room_k = 16;
  room_v = 16;
  has_base = refl;
  has_endpoint = refl;
  has_headers = refl;
  fits = (omega arith, tt);
}

abbrev ready_context : Context Payloads
ready_context = record (context_of 1 []) { curl_handle = some no_options }

get_after_post_example :
    (opts2 : EasyOptions) × ((send_request generous ready_context
          (received (pos 0) [])
          (request_with post (some (9 ∷ [])))
        >>= λ sent. send_request generous sent.1 (received (pos 0) []) (request_with get none))
      ≡ done (outcome ready_context opts2 answer))
    × (opts2.performed
        ≡ (handle_after generous no_options
            (request_with post (some (9 ∷ [])))
            (whole_with post (some (9 ∷ [])))).performed)
    × (opts2.url ≡ some (1 ∷ 2 ∷ []))
    × (opts2.http_header ≡ lines_of (((3 ∷ []), (4 ∷ [])) ∷ []))
    × (opts2.post_fields ≡ some (some (9 ∷ [])))
    × (opts2.post_field_size ≡ (request_with post (some (9 ∷ []))).body_size)
get_after_post_example =
    get_after_post generous ready_context (received (pos 0) []) (received (pos 0) []) no_options
      (request_with post (some (9 ∷ []))) (request_with get none) (whole_with post (some (9 ∷ [])))
      (whole_with get none) refl refl generous-Ample (λ xs x. refl) refl (24, refl, omega arith)
      (24, refl, omega arith)

exact-Unrounded : Unrounded exact
exact-Unrounded n = refl

send_basic_message_exact_faults_example :
    send_basic_message exact (json_of null) ready_context (received (pos 0) []) 42 (9 ∷ []) ≡ fault
send_basic_message_exact_faults_example =
    send_basic_message_exact_faults exact (json_of null) ready_context (received (pos 0) []) 42
      (1 ∷ []) (9 ∷ []) exact-Unrounded refl (omega arith)

send_request_exact_faults_example :
    send_request exact ready_context (received (pos 0) []) (request_with get none) ≡ fault
send_request_exact_faults_example =
    send_request_exact_faults exact ready_context (received (pos 0) []) (request_with get none)
      no_options (whole_with get none) (123 ∷ []) ((125 ∷ []) ∷ []) exact-Unrounded (λ xs x. refl)
      refl refl

log_at_example :
    log_at warning 15 [] (some (65 ∷ []))
    ≡ (if bit_of warning 15 == 1 then done (some (log_line warning [] (65 ∷ []))) else done none)
log_at_example = log_at_lem warning 15 [] (65 ∷ []) (omega arith) (omega arith)

-- A program that posts, and everything that it asks for.
abbrev posting : Surroundings Tree
posting = record around { web = generous }

abbrev posting_setup : IsAvailable setup (info_for posting setup (info_with none none) (1 ∷ []))
posting_setup = record {
  easy = no_options;
  lws = 2;
  ring = record { size = 16; items = [] };
  has_easy = refl;
  has_lws = refl;
  has_ring = refl;
  has_memory = refl;
}

generous-Rounded : Rounded generous
generous-Rounded n = (if leb n 24 then 3 else 2 * ((n + 7) / 16) + 1, refl, usable_lem n)

-- The object of the message, which is printed as 7 here.
abbrev message_object : Tree
message_object = object (field (text "content") (string (9 ∷ [])) end)

made : content_object generous (json_of null) (9 ∷ []) ≡ some message_object
unfolding content_object text
made = refl

send_basic_message_posts_example :
    send_basic_message generous (json_of null) ready_context (received (pos 0) []) 42 (9 ∷ [])
    ≡ done (
      message_result (generous.perform (post_options generous no_options (1 ∷ []) 42 (7 ∷ []))),
      record ready_context { curl_handle = some (posted generous no_options (1 ∷ []) 42 (7 ∷ [])) },
    )
send_basic_message_posts_example =
    send_basic_message_posts generous (json_of null) generous-Rounded ready_context
      (received (pos 0) []) 42 (1 ∷ []) (9 ∷ []) (7 ∷ []) message_object no_options refl
      (omega arith) (λ xs x. refl) refl made refl (24, refl, omega arith)

-- The answer is 404.
simplepost_main_posts_example :
    simplepost_main posting setup
      (info_with none none)
      (record { bot_token = some (1 ∷ []); log_level = 63; message = some (9 ∷ []); channel = 42 })
    ≡ done
        (pos 4, some (ended posting setup (info_with none none) (1 ∷ []) posting_setup 42 (7 ∷ [])))
simplepost_main_posts_example =
    simplepost_main_posts posting setup (info_with none none) 63 42 (1 ∷ []) (9 ∷ []) (7 ∷ [])
      message_object posting_setup (omega arith) (omega arith) generous-Rounded (λ xs x. refl) made
      refl (24, refl, omega arith)
