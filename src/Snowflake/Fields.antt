-- ===== src/Snowflake/Fields.antt =====
-- The fields of a decoded snowflake.
use Prim.Native.Nat.{bit_and}
use libdiscord.Prelude.{ℕ, ◌+◌, ◌*◌, ◌/◌, ◌%◌, ◌^◌, ◌<◌, ◌≡◌, refl, ap, some, arith}
use libdiscord.Prelude.Bits.{bit_and-zero, bit_and_even, bit_and_odd}
use libdiscord.Status.{ok, code}
use libdiscord.Stdlib.{strtoull}
use libdiscord.Stdlib.Decimal.{strtoull-print_decimal}
use libdiscord.Snowflake.{Snowflake, discord_epoch, pack_snowflake, snowflake2str}

-- Four mask bits at once.
quarter : (a b : ℕ) → bit_and (a / 2 / 2 / 2 / 2) b ≡ bit_and (a / 16) b
quarter a b = ap (λ x. bit_and x b) (omega arith)

bit_and_even_four : (a b : ℕ) → bit_and a (b * 2 * 2 * 2 * 2) ≡ bit_and (a / 16) b * 16
bit_and_even_four a b = omega (
  arith,
  bit_and_even a (b * 2 * 2 * 2),
  bit_and_even (a / 2) (b * 2 * 2),
  bit_and_even (a / 2 / 2) (b * 2),
  bit_and_even (a / 2 / 2 / 2) b,
  quarter a b,
)

bit_and_odd_four :
    (a b : ℕ)
    → bit_and a ((((b * 2 + 1) * 2 + 1) * 2 + 1) * 2 + 1) ≡ bit_and (a / 16) b * 16 + a % 16
bit_and_odd_four a b = omega (
  arith,
  bit_and_odd a (((b * 2 + 1) * 2 + 1) * 2 + 1),
  bit_and_odd (a / 2) ((b * 2 + 1) * 2 + 1),
  bit_and_odd (a / 2 / 2) (b * 2 + 1),
  bit_and_odd (a / 2 / 2 / 2) b,
  quarter a b,
)

mask_five : (a : ℕ) → bit_and a 31 ≡ a % 32
mask_five a = omega (arith, bit_and_odd_four a 1, bit_and_odd (a / 16) 0, bit_and-zero (a / 16 / 2))

mask_twelve : (a : ℕ) → bit_and a 0xfff ≡ a % 4096
mask_twelve a = omega (
  arith,
  bit_and_odd_four a 255,
  bit_and_odd_four (a / 16) 15,
  bit_and_odd_four (a / 16 / 16) 0,
  bit_and-zero (a / 16 / 16 / 16),
)

mask_process : (a : ℕ) → bit_and a 0x1f000 / 2 ^ 12 ≡ a / 2 ^ 12 % 32
mask_process a = omega (
  arith,
  bit_and_even_four a 0x1f00,
  bit_and_even_four (a / 16) 0x1f0,
  bit_and_even_four (a / 16 / 16) 31,
  mask_five (a / 16 / 16 / 16),
)

mask_worker : (a : ℕ) → bit_and a 0x3e0000 / 2 ^ 17 ≡ a / 2 ^ 17 % 32
mask_worker a = omega (
  arith,
  bit_and_even_four a 0x3e000,
  bit_and_even_four (a / 16) 0x3e00,
  bit_and_even_four (a / 16 / 16) 0x3e0,
  bit_and_even_four (a / 16 / 16 / 16) 62,
  bit_and_even (a / 16 / 16 / 16 / 16) 31,
  mask_five (a / 16 / 16 / 16 / 16 / 2),
)

-- The snowflake that the four parts make up.
abbrev pub recompose : Snowflake → ℕ
recompose f = f.timestamp * 2 ^ 22 + f.worker_id * 2 ^ 17 + f.process_id * 2 ^ 12 + f.increment

-- A 64-bit snowflake is taken apart with no loss: the result is there with status `LDS_OK`, its parts
-- make up the snowflake again, each fits its bit field, and the Unix time is the timestamp plus the
-- Discord epoch with no wrap-around.
pub pack_snowflake_fields :
    (old : Snowflake) (flake : ℕ)
    → flake < 2 ^ 64
    → (f : Snowflake) × (pack_snowflake (some old) flake ≡ (code ok, some f))
      × (recompose f ≡ flake)
      × (f.timestamp < 2 ^ 42)
      × (f.worker_id < 2 ^ 5)
      × (f.process_id < 2 ^ 5)
      × (f.increment < 2 ^ 12)
      × (f.unix_timestamp ≡ f.timestamp + discord_epoch)
unfolding pack_snowflake
pack_snowflake_fields old flake h = (
  parts,
  refl,
  omega (arith, mask_worker flake, mask_process flake, mask_twelve flake),
  omega arith,
  omega (arith, mask_worker flake),
  omega (arith, mask_process flake),
  omega (arith, mask_twelve flake),
  omega arith,
)
  where
    parts : Snowflake
    parts = record {
      timestamp = flake / 2 ^ 22;
      unix_timestamp = (flake / 2 ^ 22 + discord_epoch) % 2 ^ 64;
      worker_id = bit_and flake 0x3e0000 / 2 ^ 17;
      process_id = bit_and flake 0x1f000 / 2 ^ 12;
      increment = bit_and flake 0xfff;
    }

-- A 64-bit snowflake that `ld_snowflake2str` prints is read back by `strtoull`.
pub snowflake2str-strtoull : (flake : ℕ) → flake < 2 ^ 64 → strtoull (snowflake2str flake) ≡ flake
unfolding snowflake2str
snowflake2str-strtoull flake h = strtoull-print_decimal flake h
