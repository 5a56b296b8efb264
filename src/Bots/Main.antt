-- ===== src/Bots/Main.antt =====
-- The `main` functions of the bots behind their options: the set-up, the loop and the exit code.
pub mod Exit
pub mod Posted
pub mod Recovering
use libdiscord.Prelude.{
  ℕ, ℤ, pos, Bool, true, false, not, Option, none, some, List, [], ◌∷◌, Bytes, if◌then◌else◌,
  is_some, Exec, fault, done, deref, ◌>>=◌, eqb_ℤ, ◌==◌, text,
}
use libdiscord.Status.{is_ok}
use libdiscord.Identify.{StatusUpdate, Activity, online}
use libdiscord.Init.{Setup, ContextInfo, init_context_info, init_context, init_context_opt}
use libdiscord.Context.{Context, Handle, Platform}
use libdiscord.Gateway.Dispatch.{Result}
use libdiscord.Gateway.Callback.{Host}
use libdiscord.Gateway.Service.{Round}
use libdiscord.Bots.{Surroundings, answer}
use libdiscord.Bots.Ayylmao
use libdiscord.Bots.Counter
use libdiscord.Bots.Hash.{Globals}
use libdiscord.Bots.Options.{Post, HashSettings}
use libdiscord.Bots.Loop.{Turn, bot_loop, ping_loop}

-- A new connection's host.
abbrev pub fresh_host : {R : Type 0} → Context R → Host R
fresh_host c = record { context = c; sent = [] }

-- What `ld_init_context_info` leaves in a `struct ld_context_info` on the stack.
unfoldable pub initial_info : ContextInfo → ContextInfo
unfolding init_context_info
initial_info memory = elim (init_context_info (some memory)).1 [ none ↦ memory | some info ↦ info ]

module _ {J R : Type 0} (setup : Setup R) (env : Platform J R)
    (connect : Context R → Exec (Result env)) (callback : Handle) (memory : ContextInfo) where
  -- example-counter.c from its token on; `allocated` says whether `malloc` gave the context. The exit
  -- code, and the host if it came to the loop.
  unfoldable pub counter_main :
      Counter.Settings → Bool → Bool → List Turn → Exec (ℤ × Option (Host R))
  unfolding initial_info
  counter_main s allocated halted ws = do
    let info = record (initial_info memory) {
      bot_token = s.bot_token;
      user_callback = some callback;
    }
    (ret, context) ← init_context_opt setup (some info) allocated
    let go_on = do
      c ← deref context
      let serve = do (h, rest) ← bot_loop env connect (fresh_host c) halted ws; done (pos 0, some h)
      if is_some c.curl_handle then serve else done (pos 1, none)
    if eqb_ℤ ret (pos 0) then go_on else done (pos 0, none)

  -- example-ping.c from its token on: the memory of `info` is used as it is.
  unfoldable pub ping_main : Option Bytes → Bool → Bool → List Turn → Exec (ℤ × Option (Host R))
  ping_main bot_token has_info allocated ws = do
    let info = record memory {
      bot_token = bot_token;
      user_callback = some callback;
      gateway_ringbuffer_size = 8;
    }
    let begin = do
      (ret, context) ← init_context_opt setup (some info) allocated
      let go_on = do
        c ← deref context
        (h, rest) ← ping_loop env connect (fresh_host c) ws
        done (pos 0, some h)
      if is_ok ret then go_on else done (pos 1, none)
    if has_info then begin else done (pos 1, none)

  -- example-ayylmao.c from its token on, until the signal.
  unfoldable pub ayylmao_main : Ayylmao.Settings → Bool → List Round → Exec (ℤ × Option (Host R))
  unfolding initial_info
  ayylmao_main s allocated ws = do
    given ← deref (if allocated then some memory else none)
    let info = record (initial_info given) {
      bot_token = s.bot_token;
      user_callback = some callback;
      gateway_ringbuffer_size = 8;
      init_presence = none;
    }
    (ret, c) ← init_context setup (some info)
    let go_on = do
      (h, rest) ← Ayylmao.loop env connect s.fail_mode (fresh_host c) ws
      done (pos 0, some h)
    if eqb_ℤ ret (pos 0) then go_on else done (pos 1, none)

  -- example-hash.c from its token on; `target` is what the callback left in `target_channel`, and the
  -- fields of the presence that `main` does not set are what was in its memory.
  unfoldable pub hash_main :
      Surroundings J
      → HashSettings
      → StatusUpdate
      → Option Bytes
      → Bool
      → Bool
      → ℕ
      → List Turn
      → Exec (ℤ × Option (Host R))
  unfolding initial_info answer
  hash_main around s presence url allocated halted target ws = do
    let game : Activity = record { name = text "example-bot-hash"; type = 2; url = url }
    let info = record (initial_info memory) {
      bot_token = s.bot_token;
      user_callback = some callback;
      init_presence = some (record presence { status = online; game = some game; roles = none });
    }
    let begin = do
      (ret, c) ← init_context setup (some info)
      let serve = do
        (h, rest) ← bot_loop env connect (fresh_host c) halted ws
        let farewell = do
          (sent, c') ←
              answer around h.context target
                (text "example-bot-hash: received SIGINT or HALT_TRIGGER, cleaning up")
          done (pos 0, some (record h { context = c' }))
        if target == 0 then done (pos 0, some h) else farewell
      if eqb_ℤ ret (pos 0) then serve else done (pos 0, none)
    if allocated then begin else done (pos 0, none)

module _ {J R : Type 0} (s : Surroundings J) (setup : Setup R) (memory : ContextInfo) where
  -- The set-up and the message: the exit code, and the context if the message came to be sent.
  unfoldable pub post : Bytes → Bytes → ℕ → Exec (ℤ × Option (Context R))
  unfolding initial_info answer
  post bot_token message channel = do
    let info = record (initial_info memory) { bot_token = some bot_token }
    (ret, c) ← init_context setup (some info)
    let send = do
      (sent, c') ← answer s c channel message
      done (if eqb_ℤ sent (pos 0) then pos 0 else pos 4, some c')
    if eqb_ℤ ret (pos 0) then send else done (pos 3, none)

  -- example-simplepost.c behind its options: the exit code, and the context if it came to the message.
  unfoldable pub simplepost_main : Post → Exec (ℤ × Option (Context R))
  unfolding post
  simplepost_main p = elim p.message as (λ _. Exec (ℤ × Option (Context R))) [
    | none ↦ done (pos 0, none)
    | some message ↦
        let with_token = elim p.bot_token as (λ _. Exec (ℤ × Option (Context R))) [
          | none ↦ done (pos 0, none)
          | some bot_token ↦ post bot_token message p.channel
        ] in
        if p.channel == 0 then done (pos 0, none) else with_token
  ]
