-- ===== src/Bots/Loop.antt =====
-- The loops at the ends of the bots' `main` functions.
pub mod Ends
use libdiscord.Prelude.{
  ℕ, ℤ, pos, Bool, true, false, not, ◌&&◌, List, [], ◌∷◌, if◌then◌else◌, Exec, done, ◌>>=◌,
}
use libdiscord.Status.{is_ok}
use libdiscord.Context.{Context, Platform}
use libdiscord.Gateway.Dispatch.{Result}
use libdiscord.Gateway.Callback.{Host}
use libdiscord.Gateway.Service.{Round, service}

-- One call of `ld_service`, and whether `bot_exit` is set during it, by the signal or by the callback.
abbrev pub Turn : Type 0
Turn = Bool × Round

module _ {J R : Type 0} (env : Platform J R) (connect : Context R → Exec (Result env)) where
  -- The loop once `bot_state` is 1: the host, and the turns that were not taken.
  unfoldable pub service_loop : Host R → List Turn → Exec (Host R × List Turn)
  service_loop h [] = done (h, [])
  service_loop h ((halted, w) ∷ ws) = do
    (ret, h') ← service env connect h w
    let again = service_loop h' ws
    if is_ok ret && not halted then again else done (h', ws)

  -- The loop of the counting and the hashing bot, which looks at `bot_exit` after connecting.
  unfoldable pub bot_loop : Host R → Bool → List Turn → Exec (Host R × List Turn)
  unfolding service_loop
  bot_loop h halted ws = do
    (ret, c) ← connect h.context
    let h' = record h { context = c }
    let go_on = service_loop h' ws
    if is_ok ret && not halted then go_on else done (h', ws)

  -- The loop of the pinging bot, which does not.
  unfoldable pub ping_loop : Host R → List Turn → Exec (Host R × List Turn)
  unfolding service_loop
  ping_loop h ws = do
    (ret, c) ← connect h.context
    let h' = record h { context = c }
    let go_on = service_loop h' ws
    if is_ok ret then go_on else done (h', ws)
