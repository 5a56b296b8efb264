-- ===== src/Rest/Response/Chunks.antt =====
-- The body that the write function puts together from its chunks.
use libdiscord.Prelude.{
  ℕ, ◌+◌, ◌≤◌, ◌≡◌, ap, sym, ◌∙◌, true, some, List, [], ◌∷◌, ◌++◌, Bytes, leb-true, leb-false,
  length, take-append, length-append, arith, fault, done, ==_refl,
}
use mathlib.Core.List.{append-nil, append_assoc}
use libdiscord.Rest.Curl.{Web}
use libdiscord.Rest.Response.{Response, null, block, write_chunk, writefunction, deliver}

-- Memory is there: each block has the bytes that were asked for.
abbrev pub Ample : Web → Type 0
Ample web = (n : ℕ) → (room : ℕ) × (web.alloc n ≡ some room) × (n ≤ room)

-- A block of this size has one byte more than was asked for.
abbrev pub Spare : Web → ℕ → Type 0
Spare web n = (room : ℕ) × (web.alloc n ≡ some room) × (n + 1 ≤ room)

-- The chunks of a body in one.
abbrev pub joined : List Bytes → Bytes
joined [] = []
joined (chunk ∷ chunks) = chunk ++ joined chunks

-- A response that has bytes, and the NUL after them.
abbrev pub with_body : Response → Bytes → Response
with_body r s = record r { body = block (s ++ (0 ∷ [])); body_length = length s }

chunk_written :
    (r : Response) (s chunk : Bytes) (room : ℕ)
    → length s + length chunk + 1 ≤ room
    → write_chunk (with_body r s) (s ++ (0 ∷ [])) room chunk
      ≡ done (length chunk, with_body r (s ++ chunk))
unfolding write_chunk
chunk_written r s chunk room fits = rw (
  leb-true (length s + length chunk) room (omega arith),
  leb-true (length s + length chunk + 1) room fits,
  take-append s (0 ∷ []),
  length-append s chunk,
)

first_written :
    (r : Response) (chunk : Bytes) (room : ℕ)
    → r.body_length ≡ 0
    → length chunk + 1 ≤ room
    → write_chunk r [] room chunk ≡ done (length chunk, with_body r chunk)
unfolding write_chunk
first_written r chunk room empty fits =
    let start : 0 + length chunk ≡ length chunk = omega arith in
    rw (
      empty,
      start,
      leb-true (length chunk) room (omega arith),
      leb-true (length chunk + 1) room fits,
    )

module _ (web : Web) where
  deliver_more :
      Ample web
      → (r : Response) (s : Bytes) (chunks : List Bytes)
      → deliver web (with_body r s) chunks ≡ done (true, with_body r (s ++ joined chunks))
  unfolding deliver writefunction
  deliver_more ample r s [] = ap (λ t. done (true, with_body r t)) (sym (append-nil s))
  deliver_more ample r s (chunk ∷ chunks) =
      let (room, given, above) = ample (length s + length chunk + 1) in
      rw (
        given,
        chunk_written r s chunk room (omega arith),
        ==_refl (length chunk),
        deliver_more ample r (s ++ chunk) chunks,
        append_assoc s chunk (joined chunks),
      )

  -- Into a response that is empty, where memory is there and the block for the first chunk happens to have
  -- a byte to spare: however a body is cut into chunks (at least one), the write function takes every
  -- chunk, and the response has the bytes of the body in order, a NUL, and their number.
  pub deliver-joined :
      (r : Response) (chunk : Bytes) (chunks : List Bytes)
      → Ample web
      → Spare web (length chunk)
      → r.body ≡ null
      → r.body_length ≡ 0
      → deliver web r (chunk ∷ chunks) ≡ done (true, with_body r (chunk ++ joined chunks))
  unfolding deliver writefunction
  deliver-joined r chunk chunks ample spare fresh empty =
      let (room, given, above) = spare in
      let start : 0 + length chunk ≡ length chunk = omega arith in
      rw (
        fresh,
        ap (λ n. web.alloc (n + length chunk)) empty ∙ ap web.alloc start ∙ given,
        first_written r chunk room empty (omega arith),
        ==_refl (length chunk),
        deliver_more ample r chunk chunks,
      )

  -- With an allocator that gives the bytes asked for and no more, the NUL of the first chunk is
  -- written past the block.
  pub writefunction_exact_faults :
      (r : Response) (chunk : Bytes)
      → r.body ≡ null
      → web.alloc (r.body_length + length chunk) ≡ some (r.body_length + length chunk)
      → writefunction web r chunk ≡ fault
  unfolding writefunction write_chunk
  writefunction_exact_faults r chunk fresh exact =
      let n = r.body_length + length chunk in
      rw (fresh, exact, leb-true n n (omega arith), leb-false (n + 1) n (omega arith))
