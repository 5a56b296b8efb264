-- ===== src/Stdlib.antt =====
-- What the source uses of the C library: decimal output and input of numbers, `strncpy`, `strndup`.
pub mod Decimal
pub mod Prefix
use mathlib.Core.Option
use libdiscord.Prelude.{
  ℕ, zero, suc, ◌+◌, ◌-◌, ◌*◌, ◌/◌, ◌%◌, ◌^◌, ℤ, pos, negsuc, Bool, true, false, ◌&&◌, ◌||◌, Option,
  none, some, List, [], ◌∷◌, ◌++◌, map, Bytes, leb, ltb, ◌==◌, if◌then◌else◌, sub_ℕ,
}

-- `sprintf("%llu", n)`; the fuel is above the number of digits.
print_digits : ℕ → ℕ → Bytes
print_digits zero n = []
print_digits (suc fuel) n =
    let rest = print_digits fuel (n / 10) ++ ((48 + n % 10) ∷ []) in
    if ltb n 10 then (48 + n) ∷ [] else rest

unfoldable pub print_decimal : ℕ → Bytes
unfolding print_digits
print_decimal n = print_digits (suc n) n

abbrev pub is_space : ℕ → Bool
is_space c = c == 32 || leb 9 c && leb c 13

abbrev pub is_digit : ℕ → Bool
is_digit c = leb 48 c && leb c 57

unfoldable pub skip_space : Bytes → Bytes
skip_space [] = []
skip_space (c ∷ s) = if is_space c then skip_space s else c ∷ s

-- The sign of a number, and what follows it.
unfoldable pub read_sign : Bytes → Bool × Bytes
read_sign [] = (false, [])
read_sign (c ∷ s) =
    if c == b'-' then (true, s) else if c == b'+' then (false, s) else (false, c ∷ s)

-- The value of the leading digits, above `acc`.
unfoldable pub read_digits : ℕ → Bytes → ℕ
read_digits acc [] = acc
read_digits acc (c ∷ s) =
    let rest = read_digits (acc * 10 + (c - 48)) s in if is_digit c then rest else acc

-- `strtoull(s, NULL, 10)`: out of range it gives ULLONG_MAX, and it negates modulo 2 ^ 64.
unfoldable pub strtoull : Bytes → ℕ
unfolding skip_space read_sign read_digits
strtoull s =
    let (negative, digits) = read_sign (skip_space s) in
    let n = read_digits 0 digits in
    if leb (2 ^ 64) n then 2 ^ 64 - 1 else if negative then (2 ^ 64 - n) % 2 ^ 64 else n

-- `strtol(s, NULL, 10)`: out of range it gives LONG_MIN or LONG_MAX.
unfoldable pub strtol : Bytes → ℤ
unfolding skip_space read_sign read_digits
strtol s =
    let (negative, digits) = read_sign (skip_space s) in
    let n = read_digits 0 digits in
    if negative
    then sub_ℕ 0 (if ltb (2 ^ 63) n then 2 ^ 63 else n)
    else pos (if leb (2 ^ 63) n then 2 ^ 63 - 1 else n)

-- The bytes that `strncpy(dest, in, len)` puts at `dest`, for a source of exactly `len` bytes:
-- from the first NUL on it writes NULs.
unfoldable pub strncpy : Bytes → Bytes
strncpy [] = []
strncpy (c ∷ s) = let rest = strncpy s in if c == 0 then 0 ∷ map (λ _. 0) s else c ∷ rest

-- `strndup(p, n)` over the readable memory at `p`: it stops at a NUL, and `none` is a read past
-- the end of the memory.
unfoldable pub strndup : Bytes → ℕ → Option Bytes
strndup memory zero = some []
strndup [] (suc n) = none
strndup (c ∷ memory) (suc n) =
    let rest = Option.map (◌∷◌ c) (strndup memory n) in if c == 0 then some [] else rest

-- `strtoul(s, NULL, 10)`, where an `unsigned long` has 64 bits.
abbrev pub strtoul : Bytes → ℕ
strtoul s = strtoull s

unfoldable pub starts_with_digit : Bytes → Bool
starts_with_digit [] = false
starts_with_digit (c ∷ s) = is_digit c

-- Whether `strtoll(s, &next, 10)` moves `next` from `s`: there is a number.
unfoldable pub has_number : Bytes → Bool
unfolding skip_space read_sign starts_with_digit
has_number s = let (_, digits) = read_sign (skip_space s) in starts_with_digit digits

-- `sprintf("%lld", z)`
abbrev pub print_signed : ℤ → Bytes
print_signed (pos n) = print_decimal n
print_signed (negsuc n) = b'-' ∷ print_decimal (suc n)

-- `tolower`, in the C locale.
abbrev pub lower : ℕ → ℕ
lower c = if leb 65 c && leb c 90 then c + 32 else c

-- `strncmp(s, t, strlen(t)) == 0`
unfoldable pub strncmp_eq : Bytes → Bytes → Bool
strncmp_eq s [] = true
strncmp_eq [] (y ∷ t) = false
strncmp_eq (x ∷ s) (y ∷ t) = x == y && strncmp_eq s t

-- `strncasecmp(s, t, strlen(t)) == 0`
unfoldable pub strncasecmp_eq : Bytes → Bytes → Bool
strncasecmp_eq s [] = true
strncasecmp_eq [] (y ∷ t) = false
strncasecmp_eq (x ∷ s) (y ∷ t) = lower x == lower y && strncasecmp_eq s t

-- The characters up to the next white space, as `sscanf(s, "%s", ...)` stores them from a text that does
-- not start with white space.
unfoldable pub word : Bytes → Bytes
word [] = []
word (c ∷ s) = let rest = word s in if is_space c then [] else c ∷ rest

-- `fgets(buffer, n, stream)`, for `n` of one or more, on what is left of the stream: the line with its
-- newline, or the first `n - 1` bytes of it. `none` is NULL, at the end of the stream.
unfoldable pub line_of : ℕ → Bytes → Bytes
line_of zero stream = []
line_of (suc n) [] = []
line_of (suc n) (c ∷ stream) = let rest = line_of n stream in if c == 10 then 10 ∷ [] else c ∷ rest

unfoldable pub fgets : ℕ → Bytes → Option Bytes
unfolding line_of
fgets n [] = none
fgets n (c ∷ stream) = some (line_of (n - 1) (c ∷ stream))
