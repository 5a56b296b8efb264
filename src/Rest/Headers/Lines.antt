-- ===== src/Rest/Headers/Lines.antt =====
-- The header lines that curl is given.
use libdiscord.Prelude.{
  ℕ, ◌+◌, ◌<◌, ◌≤◌, ◌≡◌, ap, ◌∙◌, pos, some, List, [], ◌∷◌, ◌++◌, Bytes, text, length,
  length-append, lt→ltb, ltb-false, sym, arith, fault, done,
}
use mathlib.Core.List.{append-nil, append_assoc}
use libdiscord.Rest.Curl.{Web}
use libdiscord.Rest.Headers.{header_line, lines2curl, headers2curl}
use libdiscord.Rest.Headers.Put.{holding}

-- `curl_slist_append` puts a copy of the string at the end of the list.
abbrev pub Appends : Web → Type 0
Appends web = (xs : List Bytes) (x : Bytes) → web.slist_append xs x ≡ some (xs ++ (x ∷ []))

abbrev pub line_of : Bytes × Bytes → Bytes
line_of (k, v) = k ++ text ": " ++ v

abbrev pub lines_of : List (Bytes × Bytes) → List Bytes
lines_of [] = []
lines_of (p ∷ ps) = line_of p ∷ lines_of ps

abbrev pub keys_of : List (Bytes × Bytes) → List Bytes
keys_of [] = []
keys_of ((k, v) ∷ ps) = k ∷ keys_of ps

abbrev pub values_of : List (Bytes × Bytes) → List Bytes
values_of [] = []
values_of ((k, v) ∷ ps) = v ∷ values_of ps

-- Each line fits the buffer of 2000 bytes with its NUL.
abbrev pub Fit : List (Bytes × Bytes) → Type 0
Fit [] = Unit
Fit ((k, v) ∷ ps) = (length k + length v < 1998) × Fit ps

header_line_len : (k v : Bytes) → length (k ++ text ": " ++ v) ≡ length k + 2 + length v
unfolding text
header_line_len k v =
    length-append (k ++ text ": ") v ∙ ap (λ n. n + length v) (length-append k (text ": "))

header_line_fits :
    (k v : Bytes) → length k + length v < 1998 → header_line k v ≡ done (line_of (k, v))
unfolding header_line text
header_line_fits k v fits =
    rw (header_line_len k v, lt→ltb (length k + 2 + length v) 2000 (omega arith))

header_line_long : (k v : Bytes) → 1998 ≤ length k + length v → header_line k v ≡ fault
unfolding header_line
header_line_long k v long =
    rw (header_line_len k v, ltb-false (length k + 2 + length v) 2000 (omega arith))

lines2curl_lem :
    (web : Web)
    → Appends web
    → (ps : List (Bytes × Bytes)) (slist : List Bytes) → Fit ps
    → lines2curl web (length (keys_of ps)) (keys_of ps) (values_of ps) slist
      ≡ done (pos 0, slist ++ lines_of ps)
unfolding lines2curl
lines2curl_lem web appends [] slist fits = ap (λ xs. done (pos 0, xs)) (sym (append-nil slist))
lines2curl_lem web appends ((k, v) ∷ ps) slist (fit, fits) = rw (
  header_line_fits k v fit,
  appends slist (line_of (k, v)),
  lines2curl_lem web appends ps (slist ++ (line_of (k, v) ∷ [])) fits,
  append_assoc slist (line_of (k, v) ∷ []) (lines_of ps),
)

-- Where `curl_slist_append` succeeds and each line fits, the list is the lines `key: value` of the pairs, in
-- the order in which they were put.
pub headers2curl_lem :
    (web : Web) (ps : List (Bytes × Bytes)) (room_k room_v : ℕ)
    → Appends web
    → Fit ps
    → headers2curl web (some (holding (keys_of ps) (values_of ps) room_k room_v))
      ≡ done (pos 0, lines_of ps)
unfolding headers2curl
headers2curl_lem web ps room_k room_v appends fits = lines2curl_lem web appends ps [] fits

-- A first line that does not fit is written past the buffer.
pub headers2curl_overflow :
    (web : Web) (k v : Bytes) (ps : List (Bytes × Bytes)) (room_k room_v : ℕ)
    → 1998 ≤ length k + length v
    → headers2curl web (some (holding (k ∷ keys_of ps) (v ∷ values_of ps) room_k room_v)) ≡ fault
unfolding headers2curl header_line text
headers2curl_overflow web k v ps room_k room_v long = rw (header_line_long k v long)
