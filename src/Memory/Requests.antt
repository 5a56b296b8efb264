-- ===== src/Memory/Requests.antt =====
-- `ld_rest_free_request`, `ld_rest_init_response` and `ld_rest_free_response` (lib/REST.c) by the
-- blocks that they allocate and free.
use libdiscord.Prelude.{
  ℕ, ◌≡◌, ◌⊎◌, inl, inr, ◌∙◌, Bool, true, false, Option, none, some, List, [], ◌∷◌, ◌++◌, length,
  if◌then◌else◌, arith, Exec, fault, done, ◌>>=◌, deref,
}
use libdiscord.Memory.{Pointer, Heap, add, free, access, HeaderBlocks, clean_headers}
use libdiscord.Memory.Without.{
  blocks, has, without, without_lem, without-freed, Ready, Stays, pairs, freed, free-Ready,
  Ready-freed, Stays-freed, clean_pairs-without, Live-member, Ready-without, without-append,
}

-- `struct ld_rest_request` by its pointers.
pub record RequestBlocks : Type 0 where
  pub body : Pointer
  pub body_size : ℕ
  pub headers : Pointer
  pub header_blocks : HeaderBlocks
  pub base_url : Pointer
  pub endpoint : Pointer
  pub user_agent : Pointer

-- `ld_rest_free_request`
unfoldable pub free_request : RequestBlocks → Heap → Exec (RequestBlocks × Heap)
unfolding free
free_request r h = do
  h1 ← free r.body h
  (cleaned, h2) ← clean_headers r.headers r.header_blocks h1
  h3 ← free r.headers h2
  h4 ← free r.base_url h3
  h5 ← free r.endpoint h4
  done (record r { body_size = 0; header_blocks = cleaned }, h5)

-- `struct ld_rest_response` by its pointers; `self` is the structure's own address, for one that is in
-- a block, and `none` is a body that nothing has set.
pub record ResponseBlocks : Type 0 where
  pub self : Pointer
  pub headers : Pointer
  pub header_blocks : HeaderBlocks
  pub body : Option Pointer
  pub body_length : ℕ

-- What `malloc` leaves in a new `struct ld_headers`.
abbrev pub fresh_headers : HeaderBlocks
fresh_headers = record { length = none; key = none; value = none; keys = []; values = [] }

-- `ld_rest_init_response`, with the address that `malloc` gives; false is NULL.
unfoldable pub init_response_blocks : Pointer → ResponseBlocks → Heap → Bool × ResponseBlocks × Heap
init_response_blocks none r h = (false, record r { headers = none }, h)
init_response_blocks (some a) r h = (
  true,
  record r { headers = some a; header_blocks = fresh_headers; body = some none; body_length = 0 },
  add (some a) h,
)

-- `ld_rest_free_response`
unfoldable pub free_response : ResponseBlocks → Heap → Exec Heap
unfolding free clean_headers
free_response r h = do
  (cleaned, h1) ← clean_headers r.headers r.header_blocks h
  body ← deref r.body
  h2 ← free body h1
  free r.self h2

-- A request whose headers are `n` pairs of strings in two arrays that are there.
pub record HasHeaders (r : RequestBlocks) (struct key value : ℕ) : Type 0 where
  pub at_headers : r.headers ≡ some struct
  pub at_key : r.header_blocks.key ≡ some key
  pub at_value : r.header_blocks.value ≡ some value
  pub number : r.header_blocks.length ≡ some (length r.header_blocks.keys)
  pub same : length r.header_blocks.keys ≡ length r.header_blocks.values

-- The blocks that a request frees, in that order.
abbrev pub owned : RequestBlocks → ℕ → List Pointer
owned r struct =
    r.body
    ∷ (pairs r.header_blocks.keys r.header_blocks.values
        ++ (some struct ∷ r.base_url ∷ r.endpoint ∷ []))

-- The request after it was freed: its pointers are as they were.
abbrev pub cleared : RequestBlocks → RequestBlocks
cleared r = record r { body_size = 0; header_blocks = record (r.header_blocks) { length = some 0 } }

module _ (r : RequestBlocks) (h : Heap) (struct key value : ℕ)
    (is : HasHeaders r struct key value) where
  abbrev strings : List Pointer
  strings = pairs r.header_blocks.keys r.header_blocks.values

  abbrev last_three : List Pointer
  last_three = some struct ∷ r.base_url ∷ r.endpoint ∷ []

  headers_cleaned :
      (g : Heap)
      → Ready (strings ++ last_three) g
      → Stays key (strings ++ last_three) g
      → Stays value (strings ++ last_three) g
      → g struct ≡ true
      → clean_headers r.headers r.header_blocks g
        ≡ done (record (r.header_blocks) { length = some 0 }, without (blocks strings) g)
  unfolding clean_headers access
  headers_cleaned g ready sk sv there = rw (
    is.at_headers,
    there,
    is.number,
    is.at_key,
    is.at_value,
    clean_pairs-without key value r.header_blocks.keys r.header_blocks.values last_three g is.same
        ready sk sv,
  )

  -- Where the headers have as many values as keys, in two arrays, and the blocks to free are there and
  -- differ from one another and from the arrays: ld_rest_free_request frees its body, the strings of its
  -- headers, the structure of the headers, the URL and the endpoint, each once, and nothing else, so
  -- that the two arrays stay.
  pub free_request-without :
      Ready (owned r struct) h
      → Stays key (owned r struct) h
      → Stays value (owned r struct) h
      → (h' : Heap) × (free_request r h ≡ done (cleared r, h'))
        × ((b : ℕ) → h' b ≡ (if has b (blocks (owned r struct)) then false else h b))
        × (h' key ≡ true)
        × (h' value ≡ true)
  unfolding free_request
  free_request-without ready sk sv =
      let rest = strings ++ last_three in
      let g1 = freed r.body h in
      let r1 = Ready-freed r.body rest h ready in
      let g2 = without (blocks strings) g1 in
      let r2 = Ready-without strings last_three g1 r1 in
      let g3 = freed (some struct) g2 in
      let r3 = Ready-freed (some struct) (r.base_url ∷ r.endpoint ∷ []) g2 r2 in
      let g4 = freed r.base_url g3 in
      let r4 = Ready-freed r.base_url (r.endpoint ∷ []) g3 r3 in
      let last : freed r.endpoint g4 ≡ without (blocks (owned r struct)) h =
        without-freed r.endpoint [] g4
        ∙ without-freed r.base_url (r.endpoint ∷ []) g3
        ∙ without-append strings last_three g1
        ∙ without-freed r.body rest h in
      let cleaned =
        headers_cleaned g1 r1 (Stays-freed key r.body rest h sk)
          (Stays-freed value r.body rest h sv)
          (Live-member strings struct (r.base_url ∷ r.endpoint ∷ []) g1 r1.1) in
      (
        without (blocks (owned r struct)) h,
        rw (
          free-Ready r.body rest h ready,
          cleaned,
          is.at_headers,
          free-Ready (some struct) (r.base_url ∷ r.endpoint ∷ []) g2 r2,
          free-Ready r.base_url (r.endpoint ∷ []) g3 r3,
          free-Ready r.endpoint [] g4 r4,
          last,
        ),
        without_lem (blocks (owned r struct)) h,
        rw (without_lem (blocks (owned r struct)) h key, sk.0) sk.1,
        rw (without_lem (blocks (owned r struct)) h value, sv.0) sv.1,
      )

  free_again :
      (g : Heap) (body : Pointer)
      → g struct ≡ false
      → (body ≡ none) ⊎ ((a : ℕ) × (body ≡ some a) × (g a ≡ false))
      → free_request (record (cleared r) { body = body }) g ≡ fault
  unfolding free_request clean_headers access
  free_again g body gone (inl e) = rw (e, is.at_headers, gone)
  free_again g body gone (inr (a, e, dead)) = rw (e, dead)

-- ld_rest_free_response after ld_rest_init_response, with a block for the headers: the number of
-- headers is read, which nothing has set.
pub free_response_faults :
    (a : ℕ) (r : ResponseBlocks) (h : Heap)
    → free_response (init_response_blocks (some a) r h).1 (init_response_blocks (some a) r h).2
      ≡ fault
unfolding free_response init_response_blocks access
free_response_faults a r h = ground arith
