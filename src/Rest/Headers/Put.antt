-- ===== src/Rest/Headers/Put.antt =====
-- What `ld_headers_put` needs of the allocator.
use libdiscord.Prelude.{
  ℕ, ◌+◌, ◌*◌, ◌≤◌, ◌≡◌, refl, ap, ◌∙◌, pos, some, List, [], ◌∷◌, ◌++◌, Bytes, leb-true, length,
  sym, take, take-length, length-append, arith, fault, done,
}
use libdiscord.Rest.Curl.{Web, pointer_size}
use libdiscord.Rest.Headers.{Headers, store, put_pair, headers_put}

-- The headers that hold pairs, in blocks of some sizes.
abbrev pub holding : List Bytes → List Bytes → ℕ → ℕ → Headers
holding ks vs room_k room_v = record {
  length = length ks;
  key = some (record { strings = ks; room = room_k });
  value = some (record { strings = vs; room = room_v });
}

store_fits :
    (ss : List Bytes) (room n : ℕ) (s : Bytes)
    → length ss ≡ n
    → pointer_size * (n + 1) ≤ room
    → store (record { strings = ss; room = room }) n s
      ≡ done (record { strings = ss ++ (s ∷ []); room = room })
unfolding store
store_fits ss room n s same fits =
    rw
      (leb-true (pointer_size * (n + 1)) room fits, ap (λ m. take m ss) (sym same) ∙ take-length ss)

length-snoc : (ss : List Bytes) (s : Bytes) → length (ss ++ (s ∷ [])) ≡ length ss + 1
length-snoc ss s = length-append ss (s ∷ [])

put_pair_fits :
    (ks vs : List Bytes) (old_k old_v room_k room_v : ℕ) (k v : Bytes)
    → length vs ≡ length ks
    → pointer_size * (length ks + 1) ≤ room_k
    → pointer_size * (length ks + 1) ≤ room_v
    → put_pair
        (holding ks vs old_k old_v)
        (record { strings = ks; room = room_k })
        (record { strings = vs; room = room_v })
        (some k)
        (some v)
      ≡ done (pos 0, some (holding (ks ++ (k ∷ [])) (vs ++ (v ∷ [])) room_k room_v))
unfolding put_pair
put_pair_fits ks vs old_k old_v room_k room_v k v same fits_k fits_v = rw (
  store_fits ks room_k (length ks) k refl fits_k,
  store_fits vs room_v (length ks) v same fits_v,
  length-snoc ks k,
)

-- With as many values as keys, and blocks that have room for one pair more, although `ld_headers_put` asks
-- for `sizeof(char *) * length + 1` bytes for the values: the pair goes to the end.
pub headers_put_lem :
    (web : Web) (ks vs : List Bytes) (old_k old_v room_k room_v : ℕ) (k v : Bytes)
    → length vs ≡ length ks
    → web.alloc (pointer_size * (length ks + 1)) ≡ some room_k
    → web.alloc (pointer_size * length ks + 1) ≡ some room_v
    → pointer_size * (length ks + 1) ≤ room_k
    → pointer_size * (length ks + 1) ≤ room_v
    → headers_put web (some (holding ks vs old_k old_v)) (some k) (some v)
      ≡ done (pos 0, some (holding (ks ++ (k ∷ [])) (vs ++ (v ∷ [])) room_k room_v))
unfolding headers_put
headers_put_lem web ks vs old_k old_v room_k room_v k v same ask_k ask_v fits_k fits_v =
    rw (ask_k, ask_v) (put_pair_fits ks vs old_k old_v room_k room_v k v same fits_k fits_v)

-- With an allocator that gives the bytes asked for and no more, adding a pair writes past the block of the
-- values, whatever the headers hold.
pub headers_put_exact_faults :
    (web : Web) (ks vs : List Bytes) (old_k old_v : ℕ) (k v : Bytes)
    → web.alloc (pointer_size * (length ks + 1)) ≡ some (pointer_size * (length ks + 1))
    → web.alloc (pointer_size * length ks + 1) ≡ some (pointer_size * length ks + 1)
    → headers_put web (some (holding ks vs old_k old_v)) (some k) (some v) ≡ fault
unfolding headers_put
headers_put_exact_faults web ks vs old_k old_v k v ask_k ask_v = rw (ask_k, ask_v) (ground arith)
