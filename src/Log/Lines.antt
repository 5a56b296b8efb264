-- ===== src/Log/Lines.antt =====
-- Which messages are logged, and that their lines fit their blocks.
use libdiscord.Prelude.{
  ℕ, ◌+◌, ◌*◌, ◌/◌, ◌%◌, ◌<◌, ◌≡◌, refl, Bool, true, false, Option, none, some, ◌++◌, Bytes, text,
  lt→ltb, ◌==◌, length, length-append, take, if◌then◌else◌, Exec, done, arith,
}
use libdiscord.Prelude.Bits.{bit_and-zero, bit_and_even, bit_and_odd, bit_and_step, zero-bit_and}
use Prim.Native.Nat.{bit_and}
use libdiscord.Log.{
  Level, error, warning, notice, info, debug, value, log_level_string, log_generate_string, log,
  log_at,
}

-- The bit of a level in a mask.
abbrev pub bit_of : Level → ℕ → ℕ
bit_of l mask = mask / value l % 2

mask_error : (m : ℕ) → bit_and m 1 ≡ m / 1 % 2 * 1
mask_error m = omega (arith, bit_and_odd m 0, bit_and-zero (m / 2))

mask_warning : (m : ℕ) → bit_and m 2 ≡ m / 2 % 2 * 2
mask_warning m = omega (arith, bit_and_even m 1, mask_error (m / 2))

mask_notice : (m : ℕ) → bit_and m 4 ≡ m / 4 % 2 * 4
mask_notice m = omega (arith, bit_and_even m 2, mask_warning (m / 2))

mask_info : (m : ℕ) → bit_and m 8 ≡ m / 8 % 2 * 8
mask_info m = omega (arith, bit_and_even m 4, mask_notice (m / 2))

mask_debug : (m : ℕ) → bit_and m 16 ≡ m / 16 % 2 * 16
mask_debug m = omega (arith, bit_and_even m 8, mask_info (m / 2))

error_mask : (m : ℕ) → bit_and 1 m ≡ m / 1 % 2 * 1
error_mask m = omega (arith, bit_and_step 1 m, zero-bit_and (m / 2))

warning_mask : (m : ℕ) → bit_and 2 m ≡ m / 2 % 2 * 2
warning_mask m = omega (arith, bit_and_step 2 m, error_mask (m / 2))

notice_mask : (m : ℕ) → bit_and 4 m ≡ m / 4 % 2 * 4
notice_mask m = omega (arith, bit_and_step 4 m, warning_mask (m / 2))

info_mask : (m : ℕ) → bit_and 8 m ≡ m / 8 % 2 * 8
info_mask m = omega (arith, bit_and_step 8 m, notice_mask (m / 2))

debug_mask : (m : ℕ) → bit_and 16 m ≡ m / 16 % 2 * 16
debug_mask m = omega (arith, bit_and_step 16 m, info_mask (m / 2))

mask_level : (l : Level) (m : ℕ) → bit_and m (value l) ≡ bit_of l m * value l
mask_level error m = mask_error m
mask_level warning m = mask_warning m
mask_level notice m = mask_notice m
mask_level info m = mask_info m
mask_level debug m = mask_debug m

level_mask : (l : Level) (m : ℕ) → bit_and (value l) m ≡ bit_of l m * value l
level_mask error m = error_mask m
level_mask warning m = warning_mask m
level_mask notice m = notice_mask m
level_mask info m = info_mask m
level_mask debug m = debug_mask m

-- The line of a message.
abbrev pub line_of : Level → Bytes → Bytes → Bytes
line_of l ascii_time msg =
    text "[" ++ take 24 ascii_time ++ text "] LD_" ++ log_level_string l ++ text ": " ++ msg

length-line_of :
    (l : Level) (ascii_time msg : Bytes)
    → length (line_of l ascii_time msg)
      ≡ length (take 24 ascii_time) + length (log_level_string l) + length msg + 8
unfolding text
length-line_of l ascii_time msg =
    let t = take 24 ascii_time in
    let s = log_level_string l in
    omega (
      arith,
      length-append (text "[") t,
      length-append (text "[" ++ t) (text "] LD_"),
      length-append (text "[" ++ t ++ text "] LD_") s,
      length-append (text "[" ++ t ++ text "] LD_" ++ s) (text ": "),
      length-append (text "[" ++ t ++ text "] LD_" ++ s ++ text ": ") msg,
    )

generated :
    (l : Level) (ascii_time msg : Bytes)
    → length ascii_time < 30
    → length msg < 16000
    → log_generate_string l ascii_time (some msg) ≡ done (some (line_of l ascii_time msg))
unfolding log_generate_string
generated l ascii_time msg short fits = rw (
  lt→ltb (length ascii_time) 30 short,
  lt→ltb (length msg) 16000 fits,
  lt→ltb (length (line_of l ascii_time msg))
      (length (take 24 ascii_time) + length (log_level_string l) + length msg + 15)
      (omega (arith, length-line_of l ascii_time msg)),
)

bit_set : (l : Level) (b : ℕ) → b < 2 → (b * value l == 0) ≡ (if b == 1 then false else true)
bit_set error b small = ground arith
bit_set warning b small = ground arith
bit_set notice b small = ground arith
bit_set info b small = ground arith
bit_set debug b small = ground arith

twice :
    (b : Bool) (s : Bytes)
    → if◌then◌else◌ {A = Exec (Option Bytes)} (if b then false else true) (done none) (
        if◌then◌else◌ {A = Exec (Option Bytes)}
          (if b then false else true)
          (done none)
          (done (some s)))
      ≡ (if b then done (some s) else done none)
twice true s = refl
twice false s = refl

by_bit :
    (l : Level) (b : ℕ)
    → b < 2
    → (s : Bytes)
    → if◌then◌else◌ {A = Exec (Option Bytes)}
        (b * value l == 0)
        (done none)
        (if◌then◌else◌ {A = Exec (Option Bytes)} (b * value l == 0) (done none) (done (some s)))
      ≡ (if b == 1 then done (some s) else done none)
by_bit l b small s = rw (bit_set l b small) (twice (b == 1) s)

-- A message below 16000 bytes, at a time whose text is below 30 bytes: the line with the time, the name of
-- the level and the message, which fits the block for it, is written exactly when the mask has the bit of
-- the level; else nothing is.
pub log_at_lem :
    (l : Level) (mask : ℕ) (ascii_time msg : Bytes)
    → length ascii_time < 30
    → length msg < 16000
    → log_at l mask ascii_time (some msg)
      ≡ (if bit_of l mask == 1 then done (some (line_of l ascii_time msg)) else done none)
unfolding log_at log
log_at_lem l mask ascii_time msg short fits =
    rw (mask_level l mask, level_mask l mask, generated l ascii_time msg short fits)
      (by_bit l (bit_of l mask) (omega arith) (line_of l ascii_time msg))
