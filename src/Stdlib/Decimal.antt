-- ===== src/Stdlib/Decimal.antt =====
-- Decimal output and input are inverse.
use libdiscord.Prelude.{
  ℕ, zero, suc, ◌+◌, ◌-◌, ◌*◌, ◌/◌, ◌%◌, ◌^◌, ◌<◌, ◌≤◌, pos, length, length-append, ◌≡◌, refl, ◌∙◌,
  true, false, inl, inr, [], ◌∷◌, ◌++◌, Bytes, ltb, arith, All, Bool-cases, lt→ltb,
}
use libdiscord.Stdlib.{
  print_digits, print_decimal, is_digit, skip_space, read_sign, read_digits, strtoull, strtol,
  has_number, starts_with_digit,
}

abbrev IsNumber : Bytes → Type 0
IsNumber = All (λ c. is_digit c ≡ true)

IsNumber-append : (s t : Bytes) → IsNumber s → IsNumber t → IsNumber (s ++ t)
IsNumber-append [] t h k = k
IsNumber-append (c ∷ s) t h k = (h.0, IsNumber-append s t h.1 k)

print_digits-IsNumber : (f n : ℕ) → IsNumber (print_digits f n)
unfolding print_digits
print_digits-IsNumber zero n = tt
print_digits-IsNumber (suc f) n = elim (Bool-cases (ltb n 10)) [
  | inl small ↦ rw small (ground arith, tt)
  | inr large ↦ rw large (
      IsNumber-append (print_digits f (n / 10)) _ (print_digits-IsNumber f (n / 10))
        (ground arith, tt))
]

-- One more digit at the end.
read_digits-append :
    (acc : ℕ) (s : Bytes) (d : ℕ)
    → IsNumber s
    → d < 10
    → read_digits acc (s ++ ((48 + d) ∷ [])) ≡ read_digits acc s * 10 + d
unfolding read_digits
read_digits-append acc [] d h k = ground arith
read_digits-append acc (c ∷ s) d h k =
    ground (arith, read_digits-append (acc * 10 + (c - 48)) s d h.1 k)

read-print : (f n : ℕ) → n < f → read_digits 0 (print_digits f n) ≡ n
unfolding print_digits
read-print zero n h = elim h [ ]
read-print (suc f) n h = elim (Bool-cases (ltb n 10)) [
  | inl small ↦ rw small (unfold read_digits in ground arith)
  | inr large ↦ rw large (
      read_digits-append 0 (print_digits f (n / 10)) (n % 10) (print_digits-IsNumber f (n / 10))
        (omega arith)
      ∙ ground (arith, read-print f (n / 10)))
]

-- A number has no blank and no sign in front.
number_start : (s : Bytes) → IsNumber s → (skip_space s ≡ s) × (read_sign s ≡ (false, s))
unfolding skip_space read_sign
number_start [] h = (refl, refl)
number_start (c ∷ s) h = (ground arith, ground arith)

-- Reading back a printed 64-bit number gives that number.
pub strtoull-print_decimal : (n : ℕ) → n < 2 ^ 64 → strtoull (print_decimal n) ≡ n
unfolding strtoull print_decimal
strtoull-print_decimal n h =
    let start = number_start (print_digits (suc n) n) (print_digits-IsNumber (suc n) n) in
    rw (start.0, start.1, read-print (suc n) n (omega arith)) (ground arith)

pub strtol-print_decimal : (n : ℕ) → n < 2 ^ 63 → strtol (print_decimal n) ≡ pos n
unfolding strtol print_decimal
strtol-print_decimal n h =
    let start = number_start (print_digits (suc n) n) (print_digits-IsNumber (suc n) n) in
    rw (start.0, start.1, read-print (suc n) n (omega arith)) (ground arith)

starts_with_digit-append :
    (s t : Bytes) → starts_with_digit s ≡ true → starts_with_digit (s ++ t) ≡ true
unfolding starts_with_digit
starts_with_digit-append [] t h = cc
starts_with_digit-append (c ∷ s) t h = h

print_digits-starts : (f n : ℕ) → n < f → starts_with_digit (print_digits f n) ≡ true
unfolding print_digits starts_with_digit
print_digits-starts zero n h = elim h [ ]
print_digits-starts (suc f) n h = elim (Bool-cases (ltb n 10)) [
  | inl small ↦ rw small (ground arith)
  | inr large ↦ rw large (
      starts_with_digit-append (print_digits f (n / 10)) _
        (print_digits-starts f (n / 10) (ground arith)))
]

pub has_number-print_decimal : (n : ℕ) → has_number (print_decimal n) ≡ true
unfolding has_number print_decimal
has_number-print_decimal n =
    let start = number_start (print_digits (suc n) n) (print_digits-IsNumber (suc n) n) in
    rw (start.0, start.1) (print_digits-starts (suc n) n (omega arith))

-- Ten to a power.
abbrev ten_to : ℕ → ℕ
ten_to zero = 1
ten_to (suc k) = 10 * ten_to k

length-print_digits : (f n k : ℕ) → n < ten_to (suc k) → length (print_digits f n) ≤ suc k
unfolding print_digits
length-print_digits zero n k h = omega arith
length-print_digits (suc f) n zero h = rw (lt→ltb n 10 (omega arith)) (omega arith)
length-print_digits (suc f) n (suc k) h = elim (Bool-cases (ltb n 10)) [
  | inl small ↦ rw small (omega arith)
  | inr large ↦
      rw (large, length-append (print_digits f (n / 10)) ((48 + n % 10) ∷ []))
        (let shorter = length-print_digits f (n / 10) k (omega arith) in omega (arith, shorter))
]

pub length-print_decimal : (n : ℕ) → n < 2 ^ 64 → length (print_decimal n) ≤ 20
unfolding print_decimal
length-print_decimal n h = length-print_digits (suc n) n 19 (omega arith)
