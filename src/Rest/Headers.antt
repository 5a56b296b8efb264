-- ===== src/Rest/Headers.antt =====
-- `struct ld_headers` and its functions (lib/REST.c): two arrays of strings that grow together.
pub mod Put
pub mod Lines
use libdiscord.Prelude.{
  ℕ, zero, suc, ◌+◌, ◌*◌, ℤ, pos, Bool, true, false, Option, none, some, List, [], ◌∷◌, ◌++◌, Bytes,
  text, ltb, leb, length, take, Exec, fault, done, deref, within, ◌>>=◌, ◌>>◌,
}
use libdiscord.Rest.Curl.{Web, pointer_size}

-- An array of strings on the heap, and the bytes that its block has.
pub record Block : Type 0 where
  pub strings : List Bytes
  pub room : ℕ

-- `none` is a pointer to a block that `realloc` has given back.
pub record Headers : Type 0 where
  pub length : ℕ
  pub key : Option Block
  pub value : Option Block

-- `array[n] = strdup(s)`, in the bounds of the block: `room` is what the allocator lets a program use of it,
-- which is at least what was asked for.
unfoldable pub store : Block → ℕ → Bytes → Exec Block
store b n s =
    within (leb (pointer_size * (n + 1)) b.room)
    >> done (record b { strings = take n b.strings ++ (s ∷ []) })

-- The pointer that remains after `realloc`, if the result is not stored: the block is gone unless the
-- call failed.
kept : Option ℕ → Option Block → Option Block
kept none b = b
kept (some room) b = none

-- The rest of `ld_headers_put`, with both blocks reallocated.
put_pair : Headers → Block → Block → Option Bytes → Option Bytes → Exec (ℤ × Option Headers)
unfolding store
put_pair h keys values key value = do
  k ← deref key
  keys' ← store keys h.length k
  v ← deref value
  values' ← store values h.length v
  done (pos 0, some (record { length = h.length + 1; key = some keys'; value = some values' }))

-- `ld_headers_clean` frees the strings and not the arrays.
unfoldable pub headers_clean : Option Headers → Exec (Option Headers)
headers_clean h = do present ← deref h; done (some (record present { length = 0 }))

-- `strcat` of a header's line into `char tmp[2000]`.
unfoldable pub header_line : Bytes → Bytes → Exec Bytes
header_line k v = let line = k ++ text ": " ++ v in within (ltb (length line) 2000) >> done line

module _ (web : Web) where
  -- `ld_headers_init(malloc(sizeof(struct ld_headers)))`; `none` is NULL, and the struct has 24 bytes.
  unfoldable pub headers_init : Exec (Option Headers)
  headers_init = elim (web.alloc pointer_size) as (λ _. Exec (Option Headers)) [
    | none ↦ done none
    | some room ↦ do
      _ ← deref (web.alloc 24)
      let block : Block = record { strings = []; room = room }
      done (some (record { length = 0; key = some block; value = some block }))
  ]

  -- The two calls of `realloc`; the second asks for `sizeof(char *) * length + 1` bytes.
  put_grown : Headers → Option Bytes → Option Bytes → Exec (ℤ × Option Headers)
  unfolding kept put_pair
  put_grown h key value = do
    old_keys ← deref h.key
    old_values ← deref h.value
    let ret1 = web.alloc (pointer_size * (h.length + 1))
    let ret2 = web.alloc (pointer_size * h.length + 1)
    let failed = record h { key = kept ret1 (some old_keys); value = kept ret2 (some old_values) }
    elim ret1 as (λ _. Exec (ℤ × Option Headers)) [
      | none ↦ done (pos 1, some failed)
      | some room1 ↦ elim ret2 as (λ _. Exec (ℤ × Option Headers)) [
        | none ↦ done (pos 1, some failed)
        | some room2 ↦
            put_pair h (record old_keys { room = room1 }) (record old_values { room = room2 }) key
              value
      ]
    ]

  -- `ld_headers_put`
  unfoldable pub headers_put :
      Option Headers → Option Bytes → Option Bytes → Exec (ℤ × Option Headers)
  unfolding put_grown
  headers_put none key value = done (pos 0, none)
  headers_put (some h) none none = done (pos 0, some h)
  headers_put (some h) (some k) value = put_grown h (some k) value
  headers_put (some h) none (some v) = put_grown h none (some v)

  -- The loop of `ld_headers2curl` over the first `n` pairs: its result and the list.
  unfoldable pub lines2curl : ℕ → List Bytes → List Bytes → List Bytes → Exec (ℤ × List Bytes)
  unfolding header_line
  lines2curl zero ks vs slist = done (pos 0, slist)
  lines2curl (suc n) [] vs slist = fault
  lines2curl (suc n) (k ∷ ks) [] slist = fault
  lines2curl (suc n) (k ∷ ks) (v ∷ vs) slist = do
    line ← header_line k v
    elim (web.slist_append slist line) as (λ _. Exec (ℤ × List Bytes)) [
      | none ↦ done (pos 1, [])
      | some slist' ↦ lines2curl n ks vs slist'
    ]

  -- `ld_headers2curl`, from an empty list.
  unfoldable pub headers2curl : Option Headers → Exec (ℤ × List Bytes)
  unfolding lines2curl
  headers2curl h = do
    present ← deref h
    keys ← deref present.key
    values ← deref present.value
    lines2curl present.length keys.strings values.strings []
