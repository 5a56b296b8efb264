-- ===== src/Bots/Counter/Token.antt =====
-- The token that the options of the counting bot let through.
use libdiscord.Prelude.{
  ℕ, ◌≤◌, ◌≡◌, refl, sym, pos, inl, inr, Option, none, some, List, ◌++◌, Bytes, ◌==◌, length, text,
  done, arith, Bool-cases, lt→ltb,
}
use libdiscord.Rest.Request.{authorization, printed}
use libdiscord.Bots.{Argument, go, read_all, need_token}
use libdiscord.Bots.Arguments.{OfStart, OfStart-and_then, OfStart-go, read_all-OfStart}
use libdiscord.Bots.Counter.{Settings, initial, read_option, start}

abbrev IsShort : Option Bytes → Type 0
IsShort none = Unit {0}
IsShort (some t) = length t ≤ 65

abbrev ShortToken : Settings → Type 0
ShortToken s = IsShort s.bot_token

read_option-ShortToken :
    (s : Settings) (a : Argument) → ShortToken s → OfStart ShortToken (read_option s a)
unfolding read_option
read_option-ShortToken s (c, optarg) h = ground arith

-- A token that can be sent: the header for it is printed in its bounds.
abbrev Sendable : Option Bytes → Type 0
Sendable token = (t : Bytes) × (token ≡ some t) × (authorization token ≡ done (text "Bot " ++ t))

short-Sendable : (t : Bytes) → length t ≤ 65 → Sendable (some t)
unfolding authorization printed text
short-Sendable t short = (t, refl, rw (lt→ltb (length (text "Bot " ++ t)) 1000 (omega arith)) refl)

token-Sendable :
    (s : Settings) (token : Option Bytes)
    → IsShort token
    → token ≡ s.bot_token
    → OfStart (λ s'. Sendable s'.bot_token) (need_token (pos 0) token s)
token-Sendable s none h e = tt
token-Sendable s (some t) h e = rw (sym e) (short-Sendable t h)

-- Whatever the arguments with which the counting bot starts, it has a token, and the value of the
-- Authorization header for it is printed in the bounds of its buffer.
pub start-Sendable :
    (argc : ℕ) (arguments : List Argument) (s : Settings)
    → start argc arguments ≡ go s
    → (t : Bytes) × (s.bot_token ≡ some t) × (authorization s.bot_token ≡ done (text "Bot " ++ t))
unfolding start
start-Sendable argc arguments s started =
    OfStart-go (λ s'. Sendable s'.bot_token) (start argc arguments) s
      (elim (Bool-cases (argc == 1)) [
        | inl e ↦ rw e tt
        | inr e ↦ rw e (
            OfStart-and_then ShortToken (λ s'. Sendable s'.bot_token)
              (read_all read_option initial arguments) (λ s'. need_token (pos 0) s'.bot_token s')
              (read_all-OfStart ShortToken read_option initial arguments read_option-ShortToken tt)
              (λ s' h. token-Sendable s' s'.bot_token h refl))
      ])
      started
