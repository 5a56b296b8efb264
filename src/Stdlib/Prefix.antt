-- ===== src/Stdlib/Prefix.antt =====
-- The comparisons of the beginnings of texts, and words.
use libdiscord.Prelude.{ℕ, ◌≡◌, refl, ap, true, false, [], ◌∷◌, ◌++◌, map, Bytes, ==_refl}
use libdiscord.Stdlib.{lower, strncmp_eq, strncasecmp_eq, is_space, skip_space, word}

-- A text starts with itself.
pub strncmp_eq-append : (t rest : Bytes) → strncmp_eq (t ++ rest) t ≡ true
unfolding strncmp_eq
strncmp_eq-append [] rest = refl
strncmp_eq-append (y ∷ t) rest = rw (==_refl y, strncmp_eq-append t rest) refl

heads : (x y : ℕ) (xs ys : Bytes) → ◌≡◌ {A = Bytes} (x ∷ xs) (y ∷ ys) → x ≡ y
heads x y xs ys e = cc

tails : (x y : ℕ) (xs ys : Bytes) → ◌≡◌ {A = Bytes} (x ∷ xs) (y ∷ ys) → xs ≡ ys
tails x y xs ys e = cc

-- A text starts with any spelling of it in capitals and small letters.
pub strncasecmp_eq-append :
    (typed rest t : Bytes) → map lower typed ≡ map lower t → strncasecmp_eq (typed ++ rest) t ≡ true
unfolding strncasecmp_eq
strncasecmp_eq-append typed rest [] e = refl
strncasecmp_eq-append [] rest (y ∷ t) e = cc
strncasecmp_eq-append (x ∷ typed) rest (y ∷ t) e =
    let same : lower x ≡ lower y = heads (lower x) (lower y) (map lower typed) (map lower t) e in
    let more : map lower typed ≡ map lower t =
      tails (lower x) (lower y) (map lower typed) (map lower t) e in
    rw (same, ==_refl (lower y), strncasecmp_eq-append typed rest t more) refl

-- Characters that are not white space.
abbrev pub Solid : Bytes → Type 0
Solid [] = Unit {0}
Solid (c ∷ s) = (is_space c ≡ false) × Solid s

pub word-append :
    (s rest : Bytes) (c : ℕ) → Solid s → is_space c ≡ true → word (s ++ (c ∷ rest)) ≡ s
unfolding word
word-append [] rest c solid space = rw space refl
word-append (x ∷ s) rest c (solid, more) space =
    rw solid (ap (◌∷◌ x) (word-append s rest c more space))

pub word-Solid : (s : Bytes) → Solid s → word s ≡ s
unfolding word
word-Solid [] solid = refl
word-Solid (x ∷ s) (solid, more) = rw solid (ap (◌∷◌ x) (word-Solid s more))

pub skip_space-Solid : (c : ℕ) (s : Bytes) → is_space c ≡ false → skip_space (c ∷ s) ≡ c ∷ s
unfolding skip_space
skip_space-Solid c s solid = rw solid refl
