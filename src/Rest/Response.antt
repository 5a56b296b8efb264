-- ===== src/Rest/Response.antt =====
-- `struct ld_rest_response` and the write function that curl calls for each chunk of a body
-- (lib/REST.c).
pub mod Chunks
use libdiscord.Prelude.{
  ℕ, ◌+◌, ℤ, pos, negsuc, Bool, true, false, Option, none, some, List, [], ◌∷◌, ◌++◌, Bytes, leb,
  length, take, ◌==◌, if◌then◌else◌, Exec, fault, done, deref, within, ◌>>=◌, ◌>>◌,
}
use libdiscord.Rest.Curl.{Web}

-- The body: not initialised, NULL, or a block with its bytes from the start.
pub data Body : Type 0 where
  unset null : Body
  block : Bytes → Body

pub record Response : Type 0 where
  pub http_status : ℤ
  pub body : Body
  pub body_length : ℕ

-- The chunk, and a NUL, after the bytes that are there, in the bounds of the block: `room` is what the
-- allocator lets a program use of it, which may be more than was asked for.
unfoldable pub write_chunk : Response → Bytes → ℕ → Bytes → Exec (ℕ × Response)
write_chunk r old room chunk = do
  let new_len = r.body_length + length chunk
  _ ← within (leb new_len room)
  _ ← within (leb (new_len + 1) room)
  let bytes = take r.body_length old ++ chunk ++ (0 ∷ [])
  done (length chunk, record r { body = block bytes; body_length = new_len })

module _ (web : Web) where
  -- `ld_rest_init_response`; false is NULL, with the body not written.
  unfoldable pub init_response : Response → Bool × Response
  init_response r = elim (web.alloc 24) as (λ _. Bool × Response) [
    | none ↦ (false, record r { http_status = negsuc 0 })
    | some room ↦ (true, record { http_status = negsuc 0; body = null; body_length = 0 })
  ]

  -- `ld_rest_writefunction`, with `size * nmemb` the length of the chunk.
  unfoldable pub writefunction : Response → Bytes → Exec (ℕ × Response)
  unfolding write_chunk
  writefunction r chunk = do
    let new_len = r.body_length + length chunk
    (old, tmp) ← elim r.body as (λ _. Exec (Bytes × Option ℕ)) [
      | unset ↦ fault
      | null ↦ done ([], web.alloc new_len)
      | block bytes ↦ done (bytes, web.alloc (new_len + 1))
    ]
    elim tmp as (λ _. Exec (ℕ × Response)) [
      | none ↦ done (0, r)
      | some room ↦ write_chunk r old room chunk
    ]

  -- What curl does with the chunks of a body: it stops at one that is not taken as a whole.
  unfoldable pub deliver : Response → List Bytes → Exec (Bool × Response)
  deliver r [] = done (true, r)
  deliver r (chunk ∷ chunks) = do
    (n, r') ← writefunction r chunk
    let rest = deliver r' chunks
    if n == length chunk then rest else done (false, r')

-- A C string: the bytes up to the first NUL.
unfoldable pub c_string : Bytes → Bytes
c_string [] = []
c_string (c ∷ s) = let rest = c_string s in if c == 0 then [] else c ∷ rest

-- The body as the argument of `json_loads`, for which NULL is no JSON text.
unfoldable pub body_text : Response → Exec (Option Bytes)
body_text r = elim r.body as (λ _. Exec (Option Bytes)) [
  | unset ↦ fault
  | null ↦ done none
  | block bytes ↦ done (some (c_string bytes))
]
