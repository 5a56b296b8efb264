-- ===== src/Init/OsName.antt =====
-- `ld_get_os_name` (lib/libdiscord.c), which nothing calls.
use libdiscord.Prelude.{
  ℕ, zero, suc, ◌<◌, ◌≡◌, ◌≢◌, refl, Option, none, some, [], ◌∷◌, ◌++◌, All, Bytes, text, length,
  arith,
}
use libdiscord.Stdlib.{fgets, line_of}
use libdiscord.Rest.Response.{c_string}

-- What `popen` gives: NULL, or the output of `uname -o`. `strdup` copies up to the first NUL.
unfoldable pub get_os_name : Option Bytes → Bytes
unfolding fgets c_string
get_os_name none = text "unknown"
get_os_name (some output) = elim (fgets 99 output) [
  | none ↦ text "unknown"
  | some rxbuf ↦ c_string rxbuf
]

-- A byte of a line, which is no NUL and no newline.
abbrev pub IsLine : Bytes → Type 0
IsLine = All (λ c. (c ≢ 0) × (c ≢ 10))

line_of-IsLine :
    (n : ℕ) (name rest : Bytes)
    → IsLine name
    → length name < n
    → line_of n (name ++ (10 ∷ rest)) ≡ name ++ (10 ∷ [])
unfolding line_of
line_of-IsLine zero name rest is short = absurd (omega arith)
line_of-IsLine (suc n) [] rest is short = refl
line_of-IsLine (suc n) (c ∷ name) rest is short =
    ground (arith, line_of-IsLine n name rest is.1 (omega arith))

c_string-IsLine : (name : Bytes) → IsLine name → c_string (name ++ (10 ∷ [])) ≡ name ++ (10 ∷ [])
unfolding c_string
c_string-IsLine [] is = refl
c_string-IsLine (c ∷ name) is = ground (arith, c_string-IsLine name is.1)

-- A first line of up to 97 bytes is the name with its newline, whatever the program prints after it.
pub get_os_name_line :
    (name rest : Bytes)
    → IsLine name
    → length name < 98
    → get_os_name (some (name ++ (10 ∷ rest))) ≡ name ++ (10 ∷ [])
unfolding get_os_name
get_os_name_line [] rest is short = refl
get_os_name_line (c ∷ name) rest is short =
    rw (line_of-IsLine 98 (c ∷ name) rest is short) (c_string-IsLine (c ∷ name) is)
