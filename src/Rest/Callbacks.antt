-- ===== src/Rest/Callbacks.antt =====
-- The callbacks for curl in lib/libdiscord.c: `_ld_curl_response_string` collects a body in a buffer,
-- `ld_curl_header_parser` logs the headers.
use libdiscord.Prelude.{
  ℕ, zero, suc, ◌+◌, ◌-◌, ◌%◌, ◌^◌, ◌≤◌, ◌<◌, ◌≡◌, ap, refl, sym, Bool, true, false, Option, none,
  some, List, [], ◌∷◌, ◌++◌, Bytes, leb, leb-true, length, take, length-append, take-append, ◌==◌,
  if◌then◌else◌, arith, Exec, fault, done, deref, within, ◌>>=◌, Bool-cases, inl, inr, ==_refl,
  ==_iff,
}
use mathlib.Core.List.{append_assoc, append-nil}
use libdiscord.Stdlib.{strndup}
use libdiscord.Rest.Curl.{Web}
use libdiscord.Rest.Response.{Response, null, block, deliver}
use libdiscord.Rest.Response.Chunks.{Ample, Spare, joined, deliver-joined}

-- `struct _ld_buffer`, whose context the callback does not use.
pub record CurlBuffer : Type 0 where
  pub string : Option Bytes
  pub size : ℕ

abbrev bytes_of : Option Bytes → Bytes
bytes_of none = []
bytes_of (some s) = s

module _ (web : Web) where
  -- `_ld_curl_response_string`, with `size * nmemb` the length of the contents. Where `realloc` fails the
  -- error is logged, and the contents are copied to NULL.
  unfoldable pub curl_response_string : CurlBuffer → Bytes → Exec (ℕ × CurlBuffer)
  curl_response_string buffer contents = do
    let received_size = length contents
    room ← deref (web.alloc (buffer.size + received_size + 1))
    _ ← within (leb (buffer.size + received_size) room)
    _ ← within (leb (buffer.size + received_size + 1) room)
    let string = take buffer.size (bytes_of buffer.string) ++ contents ++ (0 ∷ [])
    done (received_size, record { string = some string; size = buffer.size + received_size })

  -- What curl does with the chunks of a body.
  unfoldable pub collect : CurlBuffer → List Bytes → Exec (Bool × CurlBuffer)
  collect b [] = done (true, b)
  collect b (chunk ∷ chunks) = do
    (n, b') ← curl_response_string b chunk
    let rest = collect b' chunks
    if n == length chunk then rest else done (false, b')

  abbrev pub holding : Bytes → CurlBuffer
  holding s = record { string = some (s ++ (0 ∷ [])); size = length s }

  string_grown :
      Ample web
      → (s chunk : Bytes)
      → curl_response_string (holding s) chunk ≡ done (length chunk, holding (s ++ chunk))
  unfolding curl_response_string
  string_grown ample s chunk =
      let (room, given, above) = ample (length s + length chunk + 1) in
      rw (
        given,
        leb-true (length s + length chunk) room (omega arith),
        leb-true (length s + length chunk + 1) room above,
        take-append s (0 ∷ []),
        length-append s chunk,
      )

  collect_more :
      Ample web
      → (s : Bytes) (chunks : List Bytes)
      → collect (holding s) chunks ≡ done (true, holding (s ++ joined chunks))
  unfolding collect
  collect_more ample s [] = ap (λ t. done (true, holding t)) (sym (append-nil s))
  collect_more ample s (chunk ∷ chunks) = rw (
    string_grown ample s chunk,
    ==_refl (length chunk),
    collect_more ample (s ++ chunk) chunks,
    append_assoc s chunk (joined chunks),
  )

  abbrev pub empty_buffer : CurlBuffer
  empty_buffer = record { string = none; size = 0 }

  string_first :
      Ample web
      → (chunk : Bytes)
      → curl_response_string empty_buffer chunk ≡ done (length chunk, holding chunk)
  unfolding curl_response_string
  string_first ample chunk =
      let (room, given, above) = ample (length chunk + 1) in
      let start : 0 + length chunk ≡ length chunk = omega arith in
      rw (
        start,
        given,
        leb-true (length chunk) room (omega arith),
        leb-true (length chunk + 1) room above,
      )

  -- Where memory is there, and the block for the first chunk of a response happens to have a byte to
  -- spare: however a body is cut into chunks (at least one), this callback from an empty buffer and
  -- `ld_rest_writefunction` from an empty response take every chunk, and collect the same block, the bytes
  -- in order with a NUL, and the same number.
  pub collect-deliver :
      (r : Response) (chunk : Bytes) (chunks : List Bytes)
      → Ample web
      → Spare web (length chunk)
      → r.body ≡ null
      → r.body_length ≡ 0
      → (b : CurlBuffer) × (s : Bytes) × (collect empty_buffer (chunk ∷ chunks) ≡ done (true, b))
        × (b.string ≡ some s)
        × (deliver web r (chunk ∷ chunks)
            ≡ done (true, record r { body = block s; body_length = b.size }))
        × (s ≡ chunk ++ joined chunks ++ (0 ∷ []))
        × (b.size ≡ length (chunk ++ joined chunks))
  unfolding collect
  collect-deliver r chunk chunks ample spare fresh empty =
      let all = chunk ++ joined chunks in
      (
        holding all,
        all ++ (0 ∷ []),
        rw (string_first ample chunk, ==_refl (length chunk), collect_more ample chunk chunks),
        refl,
        deliver-joined web r chunk chunks ample spare fresh empty,
        refl,
        refl,
      )

  -- Where `realloc` fails, the callback copies to NULL.
  response_string_no_memory_faults :
      (b : CurlBuffer) (contents : Bytes)
      → web.alloc (b.size + length contents + 1) ≡ none
      → curl_response_string b contents ≡ fault
  unfolding curl_response_string
  response_string_no_memory_faults b contents e = rw e

-- `ld_curl_header_parser`, on the memory at `buffer` and `size * nitems`: the copy that is logged and
-- freed, and the result. The length that is copied wraps around for no byte.
unfoldable pub curl_header_parser : Bytes → ℕ → Exec (Option Bytes × ℕ)
curl_header_parser buffer count =
    let line = do
      tmp ← deref (strndup buffer ((count + 2 ^ 64 - 1) % 2 ^ 64))
      done (some tmp, count)
    in if count == 2 then done (none, 2) else line

strndup_within :
    (memory : Bytes) (n : ℕ) → n ≤ length memory → (s : Bytes) × (strndup memory n ≡ some s)
unfolding strndup
strndup_within memory zero fits = ([], refl)
strndup_within [] (suc n) fits = absurd (omega arith)
strndup_within (c ∷ memory) (suc n) fits =
    let (s, e) = strndup_within memory n (omega arith) in
    elim (Bool-cases (c == 0)) [ inl z ↦ ([], rw z) | inr nz ↦ (c ∷ s, rw (nz, e)) ]

-- Whatever the bytes of a header of one byte or more, that curl hands over as it documents, in a block
-- of that many bytes: the callback reads only these and takes them all, so that it never ends a transfer.
pub curl_header_parser_takes :
    (buffer : Bytes)
    → 0 < length buffer
    → length buffer < 2 ^ 64
    → (copy : Option Bytes) × (curl_header_parser buffer (length buffer)
        ≡ done (copy, length buffer))
unfolding curl_header_parser
curl_header_parser_takes buffer some_byte small =
    let n = length buffer in
    let (s, e) = strndup_within buffer ((n + 2 ^ 64 - 1) % 2 ^ 64) (omega arith) in
    elim (Bool-cases (n == 2)) [
      | inl two ↦ (none, rw two (ap (λ k. done (none, k)) (sym ((==_iff n 2).0 two))))
      | inr other ↦ (some s, rw (other, e))
    ]
