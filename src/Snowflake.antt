-- ===== src/Snowflake.antt =====
-- `struct ld_json_snowflake` and its functions (lib/json.h, lib/json.c).
pub mod Fields
use Prim.Native.Nat.{bit_and}
use libdiscord.Prelude.{ℕ, ◌+◌, ◌/◌, ◌%◌, ◌^◌, ℤ, Option, none, some, Bytes}
use libdiscord.Status.{ok, code}
use libdiscord.Stdlib.{print_decimal}

pub record Snowflake : Type 0 where
  pub timestamp : ℕ  -- uint64_t
  pub worker_id : ℕ  -- unsigned long long
  pub process_id : ℕ  -- unsigned long long
  pub increment : ℕ  -- unsigned long long
  pub unix_timestamp : ℕ  -- uint64_t

-- The first second of 2015, in Unix milliseconds.
abbrev pub discord_epoch : ℕ
discord_epoch = 1420070400000

-- `ld_json_pack_snowflake`: `none` is a null `new_flake`. `x >> k` is a division by `2 ^ k`.
unfoldable pub pack_snowflake : Option Snowflake → ℕ → ℤ × Option Snowflake
pack_snowflake none snowflake = (code ok, none)
pack_snowflake (some new_flake) snowflake = (
  code ok,
  some (record {
    timestamp = snowflake / 2 ^ 22;
    unix_timestamp = (snowflake / 2 ^ 22 + discord_epoch) % 2 ^ 64;
    worker_id = bit_and snowflake 0x3e0000 / 2 ^ 17;
    process_id = bit_and snowflake 0x1f000 / 2 ^ 12;
    increment = bit_and snowflake 0xfff;
  }),
)

-- `ld_snowflake2str`: 20 digits are enough for 64 bits, so the limit of 127 bytes cuts nothing.
unfoldable pub snowflake2str : ℕ → Bytes
snowflake2str flake = print_decimal flake
