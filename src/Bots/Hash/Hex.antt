-- ===== src/Bots/Hash/Hex.antt =====
-- `binary2hex`: the text of a digest, in a block that `malloc` did not clear.
use libdiscord.Prelude.{
  ℕ, suc, ◌+◌, ◌*◌, ◌/◌, ◌%◌, length-append, length-drop, ◌≤◌, ◌≡◌, ◌≢◌, refl, ap, sym, ◌∙◌, [],
  ◌∷◌, ◌++◌, Bytes, length, drop, done, ◌>>=◌, arith, All, ==_ne,
}
use mathlib.Core.List.{append-nil, append_assoc}
use libdiscord.Bots.Hash.{
  Digests, overwrite, strcat, hex_digit, hex_byte, append_hex, c_string, binary2hex,
}

-- The digest's bytes, two digits each.
abbrev pub hex_text : Bytes → Bytes
hex_text [] = []
hex_text (b ∷ buf) = hex_byte b ++ hex_text buf

-- A text: no NUL.
abbrev pub IsText : Bytes → Type 0
IsText = All (λ c. c ≢ 0)

hex_digit_nonzero : (n : ℕ) → hex_digit n ≢ 0
hex_digit_nonzero n = ground arith

pub hex_byte-IsText : (b : ℕ) → IsText (hex_byte b)
hex_byte-IsText b = (hex_digit_nonzero (b / 16 % 16), (hex_digit_nonzero (b % 16), tt))

pub IsText-append : (s t : Bytes) → IsText s → IsText t → IsText (s ++ t)
IsText-append [] t h k = k
IsText-append (c ∷ s) t h k = (h.0, IsText-append s t h.1 k)

hex_text-IsText : (buf : Bytes) → IsText (hex_text buf)
hex_text-IsText [] = tt
hex_text-IsText (b ∷ buf) =
    (hex_digit_nonzero (b / 16 % 16), (hex_digit_nonzero (b % 16), hex_text-IsText buf))

pub overwrite_lem :
    (xs block : Bytes)
    → length xs ≤ length block
    → overwrite block xs ≡ done (xs ++ drop (length xs) block)
unfolding overwrite
overwrite_lem [] block fits = refl
overwrite_lem (x ∷ xs) [] fits = elim fits [ ]
overwrite_lem (x ∷ xs) (b ∷ block) fits = rw (overwrite_lem xs block (omega arith)) refl

pub length_snoc : (t : Bytes) (c : ℕ) → length (t ++ (c ∷ [])) ≡ suc (length t)
length_snoc t c = omega (arith, length-append t (c ∷ []))

pub strcat_lem :
    (s rest t : Bytes)
    → IsText s
    → length t ≤ length rest
    → strcat (s ++ (0 ∷ rest)) t ≡ done (s ++ (t ++ (0 ∷ drop (length t) rest)))
unfolding strcat
strcat_lem [] rest t is_text fits =
    rw (overwrite_lem (t ++ (0 ∷ [])) (0 ∷ rest) (omega (arith, length_snoc t 0)), length_snoc t 0)
      (ap done (append_assoc t (0 ∷ []) (drop (length t) rest)))
strcat_lem (c ∷ s) rest t (here, is_text) fits =
    rw (==_ne c 0 here, strcat_lem s rest t is_text fits) refl

pub c_string_lem : (s rest : Bytes) → IsText s → c_string (s ++ (0 ∷ rest)) ≡ done s
unfolding c_string
c_string_lem [] rest is_text = refl
c_string_lem (c ∷ s) rest (here, is_text) = rw (==_ne c 0 here, c_string_lem s rest is_text) refl

append_hex_lem :
    (buf s rest : Bytes)
    → IsText s
    → length buf * 2 ≤ length rest
    → (rest' : Bytes) × (append_hex (s ++ (0 ∷ rest)) buf
        ≡ done ((s ++ hex_text buf) ++ (0 ∷ rest')))
unfolding append_hex
append_hex_lem [] s rest is_text fits =
    (rest, ap (λ l. done (l ++ (0 ∷ rest))) (sym (append-nil s)))
append_hex_lem (b ∷ buf) s rest is_text fits =
    let t = hex_byte b in
    let left = drop (length t) rest in
    let (rest', e) =
      append_hex_lem buf (s ++ t) left (IsText-append s t is_text (hex_byte-IsText b))
        (omega (arith, length-drop 2 rest)) in
    (
      rest',
      rw (strcat_lem s rest t is_text (omega arith), sym (append_assoc s t (0 ∷ left)))
          (e ∙ ap (λ l. done (l ++ (0 ∷ rest'))) (append_assoc s t (hex_text buf))),
    )

-- Where the memory of the new block starts with a NUL, `binary2hex` gives a block that holds the text of
-- the digest.
pub binary2hex_cleared :
    (e : Digests) (buf rest : Bytes)
    → e.malloc_text (length buf * 2 + 1) ≡ 0 ∷ rest
    → length rest ≡ length buf * 2
    → (binary2hex e buf >>= c_string) ≡ done (hex_text buf)
unfolding binary2hex
binary2hex_cleared e buf rest cleared size =
    let (rest', filled) = append_hex_lem buf [] rest tt (omega arith) in
    rw (cleared, filled) (c_string_lem (hex_text buf) rest' (hex_text-IsText buf))
