-- ===== src/Bots/Ayylmao/Options.antt =====
-- What the options of the ayylmao bot can and cannot set.
use libdiscord.Prelude.{
  ℕ, ◌≡◌, ◌≢◌, refl, ap, ◌∙◌, inl, inr, pos, Option, none, some, List, [], Bytes, ◌==◌, Exec, done,
  ◌>>=◌, arith, Bool-cases,
}
use mathlib.Core.List.{Memᴰ}
use libdiscord.Context.{Context, Platform}
use libdiscord.Gateway.Dispatch.{Result}
use libdiscord.Gateway.Callback.{Host}
use libdiscord.Gateway.Service.{Round}
use libdiscord.Gateway.Service.Missed.{rounds}
use libdiscord.Bots.{Argument, go, read_all, need_token}
use libdiscord.Bots.Arguments.{
  OfStart, OfStart-and_then, OfStart-go, read_all-OfStart, read_all-ends,
}
use libdiscord.Bots.Ayylmao.{Settings, initial, read_option, start, loop}
use libdiscord.Bots.Loop.Ends.{loop-rounds}

abbrev Recovers : Settings → Type 0
Recovers s = s.fail_mode ≡ 1

read_option-Recovers :
    (s : Settings) (a : Argument) → Recovers s → OfStart Recovers (read_option s a)
unfolding read_option
read_option-Recovers s (c, optarg) h = ground arith

need_token-Recovers :
    (s : Settings) (token : Option Bytes)
    → Recovers s
    → OfStart Recovers (need_token (pos 1) token s)
need_token-Recovers s none h = tt
need_token-Recovers s (some t) h = h

start-Recovers : (argc : ℕ) (arguments : List Argument) → OfStart Recovers (start argc arguments)
unfolding start
start-Recovers argc arguments = elim (Bool-cases (argc == 1)) [
  | inl e ↦ rw e tt
  | inr e ↦ rw e (
      OfStart-and_then Recovers Recovers (read_all read_option initial arguments)
        (λ s. need_token (pos 1) s.bot_token s)
        (read_all-OfStart Recovers read_option initial arguments read_option-Recovers refl)
        (λ s h. need_token-Recovers s s.bot_token h))
]

-- Whatever the arguments with which the bot starts, its loop takes every round, errors or not, and ends
-- only with the signal: what it does is the rounds of `ld_service`.
pub start-loop :
    {J R : Type 0} (env : Platform J R) (connect : Context R → Exec (Result env)) (argc : ℕ)
    (arguments : List Argument) (s : Settings) (h : Host R) (ws : List Round)
    → start argc arguments ≡ go s
    → loop env connect s.fail_mode h ws
      ≡ (rounds env connect h ws >>= λ (statuses, h'). done (h', []))
start-loop env connect argc arguments s h ws started =
    ap (λ mode. loop env connect mode h ws)
      (OfStart-go Recovers (start argc arguments) s (start-Recovers argc arguments) started)
    ∙ loop-rounds env connect h ws

abort_option : (s : Settings) (optarg : Bytes) → OfStart (λ s'. ⊥) (read_option s (b'a', optarg))
unfolding read_option
abort_option s optarg = tt

-- With `-a` anywhere among its options the bot never starts.
pub start_abort_on_error :
    (argc : ℕ) (arguments : List Argument) (optarg : Bytes) (s : Settings)
    → Memᴰ (b'a', optarg) arguments
    → start argc arguments ≢ go s
unfolding start
start_abort_on_error argc arguments optarg s listed =
    OfStart-go (λ s'. ⊥) (start argc arguments) s
      (elim (Bool-cases (argc == 1)) [
        | inl e ↦ rw e tt
        | inr e ↦ rw e (
            OfStart-and_then (λ s'. ⊥) (λ s'. ⊥) (read_all read_option initial arguments)
              (λ s'. need_token (pos 1) s'.bot_token s')
              (read_all-ends read_option initial arguments (b'a', optarg) listed
                (λ s'. abort_option s' optarg))
              (λ s' absurd. elim absurd [ ]))
      ])
