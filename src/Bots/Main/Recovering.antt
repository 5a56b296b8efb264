-- ===== src/Bots/Main/Recovering.antt =====
-- The ayylmao bot's `main`, from its arguments to the signal.
use libdiscord.Prelude.{
  ℕ, ◌≡◌, refl, true, ℤ, pos, Option, none, some, List, [], Bytes, Exec, fault, done, ◌>>=◌,
}
use libdiscord.Context.{Context, Handle, Platform}
use libdiscord.Init.{Setup, ContextInfo}
use libdiscord.Init.Identity.{IsAvailable, started, init_context_plain}
use libdiscord.Gateway.Dispatch.{Result}
use libdiscord.Gateway.Service.{Round}
use libdiscord.Gateway.Service.Missed.{rounds}
use libdiscord.Bots.{Argument, go}
use libdiscord.Bots.Ayylmao
use libdiscord.Bots.Ayylmao.Options.{start-loop}
use libdiscord.Bots.Main.{initial_info, fresh_host, ayylmao_main}

-- The loop's result, of which `main` keeps the host.
exit_zero :
    {A B C : Type 0} (m : Exec (B × A)) (rest : C)
    → ◌≡◌ {A = Exec (ℤ × Option A)}
        ((m >>= λ (b, a). done (a, rest)) >>= λ (a, unused). done (pos 0, some a))
        (m >>= λ (b, a). done (pos 0, some a))
exit_zero fault rest = refl
exit_zero (done (b, a)) rest = refl

module _ {J R : Type 0} (setup : Setup R) (env : Platform J R)
    (connect : Context R → Exec (Result env)) (callback : Handle) (memory : ContextInfo) where
  -- What the program asks `ld_init_context` for.
  abbrev pub info_of : Bytes → ContextInfo
  info_of token = record {
    bot_token = some token;
    user_callback = some callback;
    gateway_ringbuffer_size = 8;
    init_presence = none;
    device = none;
    browser = none;
    os = none;
  }

  -- Whatever the arguments with which the bot starts, with everything available for its set-up: from a
  -- fresh host `main` takes every round until the signal, errors or not, and then returns 0.
  pub ayylmao_main-rounds :
      (argc : ℕ) (arguments : List Argument) (s : Ayylmao.Settings) (token : Bytes)
      (all : IsAvailable setup (info_of token)) (ws : List Round)
      → Ayylmao.start argc arguments ≡ go s
      → s.bot_token ≡ some token
      → ayylmao_main setup env connect callback memory s true ws ≡ (
          rounds env connect (fresh_host (started setup (info_of token) token all)) ws
          >>= λ (statuses, h). done (pos 0, some h))
  unfolding ayylmao_main initial_info
  ayylmao_main-rounds argc arguments s token all ws begun has_token =
      let h = fresh_host (started setup (info_of token) token all) in
      rw
        (
          has_token,
          init_context_plain setup (info_of token) token all refl refl,
          start-loop env connect argc arguments s h ws begun,
        )
        (exit_zero (rounds env connect h ws) [])
