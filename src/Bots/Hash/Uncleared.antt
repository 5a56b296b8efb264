-- ===== src/Bots/Hash/Uncleared.antt =====
-- `binary2hex` in a block whose memory does not happen to start with a NUL.
use libdiscord.Prelude.{
  ℕ, suc, ◌+◌, ◌*◌, ◌≤◌, ◌<◌, ◌≡◌, ◌≢◌, refl, ap, sym, length-append, length-drop, true, false, inl,
  inr, [], ◌∷◌, ◌++◌, Bytes, ◌==◌, leb, leb→le, length, drop, fault, arith, Bool-cases, ==_ne,
  if◌then◌else◌,
}
use mathlib.Core.List.{append_assoc}
use libdiscord.Bots.Hash.{Digests, overwrite, strcat, hex_byte, append_hex, binary2hex}
use libdiscord.Bots.Hash.Hex.{IsText, IsText-append, strcat_lem, hex_byte-IsText, length_snoc}

-- The place of the first NUL, or the end.
abbrev nul_at : Bytes → ℕ
nul_at [] = 0
nul_at (c ∷ block) = let rest = suc (nul_at block) in if c == 0 then 0 else rest

overwrite_short : (xs block : Bytes) → length block < length xs → overwrite block xs ≡ fault
unfolding overwrite
overwrite_short [] block short = elim short [ ]
overwrite_short (x ∷ xs) [] short = refl
overwrite_short (x ∷ xs) (b ∷ block) short = rw (overwrite_short xs block (omega arith)) refl

nul_at-append : (t rest : Bytes) → IsText t → nul_at (t ++ (0 ∷ rest)) ≡ length t
nul_at-append [] rest is_text = refl
nul_at-append (c ∷ t) rest (here, is_text) =
    rw (==_ne c 0 here) (ap suc (nul_at-append t rest is_text))

strcat_overflows :
    (block t : Bytes) → length block ≤ nul_at block + length t → strcat block t ≡ fault
unfolding strcat
strcat_overflows [] t full = refl
strcat_overflows (c ∷ block) t full = elim (Bool-cases (c == 0)) [
  | inl e ↦
      let full' = rw e at full in
      rw e (overwrite_short (t ++ (0 ∷ [])) (c ∷ block) (omega (arith, full', length_snoc t 0)))
  | inr e ↦ let full' = rw e at full in rw (e, strcat_overflows block t (omega (arith, full'))) refl
]

lt_of_leb : (a b : ℕ) → leb a b ≡ false → b < a
lt_of_leb a b h = ground arith

zero_of_test : (c : ℕ) → (c == 0) ≡ true → c ≡ 0
zero_of_test c h = ground arith

nonzero_of_test : (c : ℕ) → (c == 0) ≡ false → c ≢ 0
nonzero_of_test c h = ground arith

-- A block with a NUL is a text, the NUL, and the rest.
data Holds : Bytes → Type 0 where
  holds : (s rest : Bytes) → IsText s → Holds (s ++ (0 ∷ rest))

Holds-cons : (c : ℕ) (block : Bytes) → c ≢ 0 → Holds block → Holds (c ∷ block)
Holds-cons c block here (holds s rest is_text) = holds (c ∷ s) rest (here, is_text)

block-Holds : (block : Bytes) → nul_at block < length block → Holds block
block-Holds [] room = elim room [ ]
block-Holds (c ∷ block) room = elim (Bool-cases (c == 0)) [
  | inl e ↦ rw (zero_of_test c e) (holds [] block tt)
  | inr e ↦
      let room' = rw e at room in
      Holds-cons c block (nonzero_of_test c e) (block-Holds block (omega (arith, room')))
]

nonempty_of_length : (buf : Bytes) → 0 < length buf → buf ≢ []
nonempty_of_length [] h e = elim h [ ]
nonempty_of_length (b ∷ buf) h e = cc

-- What is said of the bytes that remain, after one byte.
Overflows : Bytes → Type 0
Overflows buf =
    (block : Bytes)
    → buf ≢ []
    → length block ≤ nul_at block + length buf * 2
    → append_hex block buf ≡ fault

one_byte-Overflows :
    (b : ℕ) (buf block : Bytes)
    → Overflows buf
    → Holds block
    → nul_at block + 2 < length block
    → length block ≤ nul_at block + suc (length buf) * 2
    → append_hex block (b ∷ buf) ≡ fault
unfolding append_hex Overflows
one_byte-Overflows b buf block more (holds s rest is_text) room full =
    let t = hex_byte b in
    let left = drop 2 rest in
    let place = nul_at-append s rest is_text in
    let size = length-append s (0 ∷ rest) in
    let block' = (s ++ t) ++ (0 ∷ left) in
    let place' = nul_at-append (s ++ t) left (IsText-append s t is_text (hex_byte-IsText b)) in
    let size' = length-append (s ++ t) (0 ∷ left) in
    rw (strcat_lem s rest t is_text (omega (arith, place, size)), sym (append_assoc s t (0 ∷ left)))
      (more block' (nonempty_of_length buf (omega (arith, place, size)))
        (omega (arith, place, size, place', size', length-append s t, length-drop 2 rest)))

append_hex-Overflows : (buf : Bytes) → Overflows buf
unfolding append_hex Overflows
append_hex-Overflows [] block some_bytes full = elim (some_bytes refl) [ ]
append_hex-Overflows (b ∷ buf) block some_bytes full =
    elim (Bool-cases (leb (length block) (nul_at block + 2))) [
      | inl e ↦
          rw (strcat_overflows block (hex_byte b) (leb→le (length block) (nul_at block + 2) e)) refl
      | inr e ↦
          let room = lt_of_leb (length block) (nul_at block + 2) e in
          one_byte-Overflows b buf block (append_hex-Overflows buf)
            (block-Holds block (omega (arith, room))) room full
    ]

-- Where it does not, `binary2hex` of one byte or more writes past its block.
pub binary2hex_uncleared :
    (e : Digests) (b c : ℕ) (buf rest : Bytes)
    → e.malloc_text (length (b ∷ buf) * 2 + 1) ≡ c ∷ rest
    → length rest ≡ length (b ∷ buf) * 2
    → c ≢ 0
    → binary2hex e (b ∷ buf) ≡ fault
unfolding binary2hex Overflows
binary2hex_uncleared e b c buf rest uncleared size nonzero = rw uncleared (
    append_hex-Overflows (b ∷ buf) (c ∷ rest) (nonempty_of_length (b ∷ buf) (omega arith))
      (rw (==_ne c 0 nonzero) (omega (arith, size))))
