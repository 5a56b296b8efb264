-- ===== src/Timestamp.antt =====
-- `struct ld_timestamp` and `ld_json_read_timestamp` (lib/json.h, lib/json.c).
use libdiscord.Prelude.{
  ℕ, ◌+◌, ◌-◌, ◌*◌, ◌/◌, ◌%◌, ◌^◌, ◌<◌, ◌≡◌, refl, sym, ℤ, Option, none, some, Bytes, Exec, done,
  deref, ◌>>=◌, arith,
}
use libdiscord.Status.{ok, code}
use libdiscord.Snowflake.{Snowflake, discord_epoch, pack_snowflake}
use libdiscord.Snowflake.Fields.{pack_snowflake_fields}

pub record Timestamp : Type 0 where
  pub iso_str : Option Bytes
  pub unix_epoch : ℕ  -- uint64_t
  pub discord_epoch : ℕ  -- uint64_t

-- What is called of the C library and depends on the machine: `getdate`, which reads a text by the
-- templates of a file and gives NULL if it cannot, and `mktime`, as a 64-bit number.
pub record Calendar (Time : Type 0) : Type 0 where
  pub getdate : Bytes → Option Time
  pub mktime : Time → ℕ

module _ {Time : Type 0} (calendar : Calendar Time) where
  -- `ld_json_read_timestamp`, with unsigned arithmetic; `mktime(NULL)` is a fault.
  unfoldable pub read_timestamp : Option Timestamp → Bytes → Exec (ℤ × Option Timestamp)
  read_timestamp none timestamp = done (code ok, none)
  read_timestamp (some new_timestamp) timestamp = do
    time ← deref (calendar.getdate timestamp)
    let unix = calendar.mktime time % 2 ^ 64
    done (
      code ok,
      some (record {
        iso_str = some timestamp;
        unix_epoch = unix;
        discord_epoch = (unix * 1000 % 2 ^ 64 + 2 ^ 64 - discord_epoch) % 2 ^ 64;
      }),
    )

  -- A snowflake and a text whose calendar time is the second of the snowflake have the same time: the
  -- Discord epoch that is read from the text is the snowflake's timestamp, to the second.
  pub read_timestamp-pack_snowflake :
      (old f : Snowflake) (new : Timestamp) (flake : ℕ) (timestamp : Bytes) (time : Time)
      → flake < 2 ^ 64
      → pack_snowflake (some old) flake ≡ (code ok, some f)
      → calendar.getdate timestamp ≡ some time
      → calendar.mktime time ≡ f.unix_timestamp / 1000
      → read_timestamp (some new) timestamp
        ≡ done (
          code ok,
          some (record {
            iso_str = some timestamp;
            unix_epoch = f.unix_timestamp / 1000;
            discord_epoch = f.timestamp / 1000 * 1000;
          }),
        )
  unfolding read_timestamp
  read_timestamp-pack_snowflake old f new flake timestamp time small packed dated second =
      let (g, packed', recomposed, low, worker, process, count, unix) =
        pack_snowflake_fields old flake small in
      let same : g ≡ f = cc in
      let low' : f.timestamp < 2 ^ 42 = rw (sym same) low in
      let unix' : f.unix_timestamp ≡ f.timestamp + discord_epoch = rw (sym same) unix in
      let seconds : f.unix_timestamp / 1000 % 2 ^ 64 ≡ f.unix_timestamp / 1000 = omega arith in
      let epochs : (f.unix_timestamp / 1000 * 1000 % 2 ^ 64 + 2 ^ 64 - discord_epoch) % 2 ^ 64
          ≡ f.timestamp / 1000 * 1000 =
        omega arith in
      rw (dated, second, seconds, epochs) refl
