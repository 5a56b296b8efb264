-- ===== src/Log.antt =====
-- The log, lib/log.c: a mask of levels, and the line that a message makes.
pub mod Lines
use libdiscord.Prelude.{
  ℕ, ◌+◌, ℤ, Bool, true, false, Option, none, some, List, [], ◌∷◌, ◌++◌, Bytes, text, ltb, leb,
  ◌==◌, length, take, if◌then◌else◌, Exec, done, within, ◌>>=◌, ◌>>◌,
}
use Prim.Native.Nat.{bit_and}

-- `enum ld_log_level`
pub data Level : Type 0 where
  error warning notice info debug : Level

abbrev pub value : Level → ℕ
value error = 1
value warning = 2
value notice = 4
value info = 8
value debug = 16

-- `ld_log_level_string`, for the enumerators.
unfoldable pub log_level_string : Level → Bytes
log_level_string error = text "ERROR"
log_level_string warning = text "WARNING"
log_level_string info = text "INFO"
log_level_string notice = text "NOTICE"
log_level_string debug = text "DEBUG"

-- The initial mask: every level but `debug`.
abbrev pub default_levels : ℕ
default_levels = 15

-- `ld_set_logging_level`: the result, and the new mask.
pub set_logging_level : ℕ → ℕ × ℕ
set_logging_level log_level = (log_level, log_level)

-- `ld_log_generate_string`: `ascii_time` is what `asctime_r` prints, and `formatted` what `vsprintf`
-- does, `none` for an error. The buffers have 30 and 16000 bytes, and the block that is returned 15 more
-- than the three strings together.
unfoldable pub log_generate_string : Level → Bytes → Option Bytes → Exec (Option Bytes)
log_generate_string ll ascii_time formatted = do
  _ ← within (ltb (length ascii_time) 30)
  let time_string = take 24 ascii_time
  elim formatted as (λ _. Exec (Option Bytes)) [
    | none ↦ done none
    | some msg ↦ do
      _ ← within (ltb (length msg) 16000)
      let level = log_level_string ll
      let room = length time_string + length level + length msg + 15
      let message = text "[" ++ time_string ++ text "] LD_" ++ level ++ text ": " ++ msg
      _ ← within (ltb (length message) room)
      done (some message)
  ]

-- `_ld_log`: the line on stderr, if any.
unfoldable pub log : Level → ℕ → Bytes → Option Bytes → Exec (Option Bytes)
unfolding log_generate_string
log ll enabled_levels ascii_time formatted =
    let line = log_generate_string ll ascii_time formatted in
    if bit_and (value ll) enabled_levels == 0 then done none else line

-- `ld_error`, `ld_warning`, `ld_notice`, `ld_info` and `ld_debug`, by their level.
unfoldable pub log_at : Level → ℕ → Bytes → Option Bytes → Exec (Option Bytes)
unfolding log
log_at logtype mask ascii_time formatted =
    let logged = log logtype mask ascii_time formatted in
    if bit_and mask (value logtype) == 0 then done none else logged
